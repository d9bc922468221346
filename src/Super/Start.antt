-- ===== src/Super/Start.antt =====
-- How a super node starts: p4/src/super.c, lines 51 to 83.
pub mod Pairs
use net_prog.Prelude.{
  ℕ, Bool, true, false, ◌||◌, Option, none, some, List, [], ◌∷◌, map, ◌==◌, if◌then◌else◌,
}
use net_prog.MsgType
use net_prog.Super.Node.{ChildPort, Node, msg_type_of}
use net_prog.Super.Packet.{packet}
use net_prog.Super.Table.{Text, init_file_info_table}
use net_prog.Wire.{Bytes}

-- The variables at the start: the ids of the slots for children are left as they are.
unfoldable pub start_node : List ChildPort → Text → ℕ → Node
start_node unset other_super_ip_addr other_super_port_num = record {
  table = init_file_info_table;
  child_ports = map {A = ChildPort} {B = ChildPort} (λ c. record c { port_num = 0 }) unset;
  other_super_ip_addr = other_super_ip_addr;
  other_super_port_num = other_super_port_num;
}

-- The HELLO_SUPER_TO_SUPER packet: a header and the port.
unfoldable pub hello_super_packet : ℕ → ℕ → Bytes
hello_super_packet id port_num = packet 16 id MsgType.hello_super_to_super port_num []

-- What is sent to the other super node, and whether the node goes on.
pub record Greeting : Type 0 where
  pub sent : Option Bytes
  pub goes_on : Bool

unfoldable pub is_unset : Text → Bool
is_unset [] = true
is_unset (c ∷ text) = false

-- A node that knows no other one does not greet. `connects` tells whether the other one is reached,
-- and `answered` is what is then read from it.
unfoldable pub greet_other : ℕ → ℕ → Node → Bool → Bytes → Greeting
greet_other id port_num node connects answered =
    if node.other_super_port_num == 0 || is_unset node.other_super_ip_addr
    then record { sent = none; goes_on = true }
    else if connects
    then record {
      sent = some (hello_super_packet id port_num);
      goes_on = msg_type_of answered == MsgType.hello_super_to_super;
    }
    else record { sent = none; goes_on = false }
