-- ===== src/BigFs/NameServer.antt =====
-- Assignment2P1/fileNameServer.c: the directory tree and the commands on it.
pub mod Heap
pub mod Server
pub mod Walk
pub mod Commands
pub mod Transfer
pub mod Chain
pub mod Siblings
pub mod Ready
pub mod Directories
pub mod Files
pub mod Retrieval
pub mod Unlink
pub mod Removal
pub mod Detach
pub mod Paths
pub mod Moving
mod Tests
