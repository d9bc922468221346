-- ===== src/Super/Start/Pairs.antt =====
-- A super node that has started is sent what the children of the other one announce.
use net_prog.Prelude.{ℕ}
use net_prog.MsgType
use net_prog.Super.Node.{Node, Env}

-- The other node's address and port are stored, and it is answered.
abbrev pub paired : Env → ℕ → Node → Node
paired env port node = record node {
  other_super_ip_addr = env.client_ip;
  other_super_port_num = port;
}
