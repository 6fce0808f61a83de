-- ===== src/BigFs.antt =====
-- The distributed file system of Assignment2P1.
pub mod NameServer
pub mod Receiver
pub mod DataServer
pub mod Client
pub mod Session
