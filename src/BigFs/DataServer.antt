-- ===== src/BigFs/DataServer.antt =====
-- Assignment2P1/fileDataServer.c.
pub mod Files
pub mod Server
pub mod Pieces
pub mod Naming
pub mod Storing
pub mod Deleting
pub mod Copying
pub mod Tables
mod Tests
