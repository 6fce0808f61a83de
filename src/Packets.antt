-- ===== src/Packets.antt =====
-- The packet reader of Assignment3P2.
pub mod Reader
pub mod Fields
mod Tests
