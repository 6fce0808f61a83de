-- ===== src/Labs/Relay.antt =====
-- The server of labs/2016A7PS0064P_lab7/tcp_server_select_oddeven.c: a message from one client goes to
-- the clients whose descriptors are of the other parity. `select` is taken to succeed.
pub mod Server
pub mod Sends
pub mod Clients
mod Tests
