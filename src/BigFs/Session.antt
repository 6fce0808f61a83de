-- ===== src/BigFs/Session.antt =====
-- The client and the servers of Assignment2P1 together.
pub mod Requests
pub mod Chunk
pub mod Listing
mod Tests
