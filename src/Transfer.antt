-- ===== src/Transfer.antt =====
-- The transfer of a file from a client to a server: p1/src/client.c and p1/src/server.c, whose
-- loops p2/src/client_utilities.c and p2/src/multi_server_utilities.c repeat.
pub mod Command
pub mod Packet
pub mod Server
pub mod Client
pub mod Session
pub mod Thread
pub mod Fork
pub mod Select
