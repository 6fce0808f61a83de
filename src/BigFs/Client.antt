-- ===== src/BigFs/Client.antt =====
-- Assignment2P1/Client.c.
pub mod Strings
pub mod State
pub mod Chunks
pub mod Commands
pub mod Spread
pub mod Addresses
mod Tests
