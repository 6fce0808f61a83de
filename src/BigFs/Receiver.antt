-- ===== src/BigFs/Receiver.antt =====
-- The double buffer between a socket and a command loop: `copyToString` and the thread that reads
-- the socket, which Assignment2P1/fileNameServer.c, fileDataServer.c and Client.c all have.
pub mod Buffers
pub mod Copy
pub mod Delivery
pub mod Refine
pub mod Programs
mod Tests
