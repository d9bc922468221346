-- ===== src/Super.antt =====
-- The super node of the peer-to-peer program: p4/src/super_lib.c and p4/src/super.c.
pub mod Table
pub mod Node
pub mod Packet
pub mod Request
pub mod Start
pub mod Server
