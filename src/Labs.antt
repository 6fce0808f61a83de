-- ===== src/Labs.antt =====
-- The programs under labs/ with logic of their own.
pub mod Relay
pub mod Balancer
pub mod Checksum
pub mod Voting
pub mod Ping
pub mod Semaphores
pub mod Mapped
pub mod Echo
pub mod Tee
mod Copies
mod Tests
