-- ===== src/Cluster.antt =====
-- The cluster shell of Assignment1P2.
pub mod Config
pub mod Arguments
pub mod Nodes
pub mod Commands
pub mod Pipes
pub mod Routing
pub mod Flow
pub mod Session
pub mod Server
mod Tests
