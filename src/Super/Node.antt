-- ===== src/Super/Node.antt =====
-- State, environment and effects of a super node: p4/src/super_lib.h and p4/src/common.h.
use net_prog.Prelude.{ℕ, ◌≡◌, Bool, false, Option, List, ◌++◌, length, drop}
use net_prog.Super.Table.{Text, FileTable}
use net_prog.Wire.{Bytes, be32, get32}

-- A `childListeningPort`. A slot with port 0 is free; what its `id` holds then is not set.
pub record ChildPort : Type 0 where
  pub id : ℕ
  pub port_num : ℕ

-- The variables of `main` that the handlers change.
pub record Node : Type 0 where
  pub table : FileTable
  pub child_ports : List ChildPort
  pub other_super_ip_addr : Text
  pub other_super_port_num : ℕ

-- What lies outside the program while one packet is handled. `memory n` is what a fresh block of
-- `n` bytes holds, and `stack` the twelve bytes that begin with a local pointer.
pub record Env : Type 0 where
  -- `inet_ntoa` of the address that is held for the client's connection
  pub client_ip : Text
  pub memory : ℕ → Bytes
  pub stack : Bytes
  -- whether a connection to the other super node is made
  pub connects : Bool
  -- what is then read from it; `none` is a read error
  pub answer : Option Bytes

-- What `malloc` promises of the memory that it returns, and `inet_ntoa` of its text.
pub record IsEnv (env : Env) : Type 0 where
  pub sized : (n : ℕ) → length (env.memory n) ≡ n

pub data Event : Type 0 where
  -- a packet to the client
  reply : Bytes → Event
  -- a packet to the other super node, at an address and port
  share : Text → ℕ → Bytes → Event

-- How a call of the handler leaves: it returns, or the process exits.
pub record Reaction : Type 0 where
  pub node : Node
  pub events : List Event
  pub exits : Bool

abbrev pub react : Node → List Event → Reaction
react node events = record { node = node; events = events; exits = false }

abbrev pub header_len : ℕ
header_len = 12

abbrev pub file_name_len : ℕ
file_name_len = 96

abbrev pub ip_addr_len : ℕ
ip_addr_len = 20

abbrev pub max_files : ℕ
max_files = 100

-- A `headerPacket`: total length, id and message type, in network order.
unfoldable pub header : ℕ → ℕ → ℕ → Bytes
header total_len id msg_type = be32 total_len ++ (be32 id ++ be32 msg_type)

-- The header's fields, read from a buffer.
unfoldable pub total_len_of : Bytes → ℕ
total_len_of packet = get32 packet

unfoldable pub id_of : Bytes → ℕ
id_of packet = get32 (drop 4 packet)

unfoldable pub msg_type_of : Bytes → ℕ
msg_type_of packet = get32 (drop 8 packet)
