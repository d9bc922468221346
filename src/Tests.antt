-- ===== src/Tests.antt =====
-- Runs of the definitions on concrete inputs, and the theorems on such inputs.
pub mod Table
pub mod Packets
pub mod Clients
pub mod Download
pub mod Tasks
pub mod Threads
pub mod Transfer
pub mod Web
pub mod Files
pub mod Fork
pub mod Sockets
pub mod Server
