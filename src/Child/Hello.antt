-- ===== src/Child/Hello.antt =====
-- A child joins a super node: it says hello, announces its files, and they are found.
use net_prog.Prelude.{
  ℕ, ◌+◌, ◌^◌, ◌<◌, ◌≤◌, ◌≡◌, ◌≢◌, refl, ap, ◌∙◌, true, false, some, List, [], ◌∷◌, ◌++◌, arith,
  length, drop, All, ==_iff, ne→==,
}
use net_prog.Child.{hello_from_child_packet, is_greeted, is_accepted}
use net_prog.MsgType
use net_prog.Run.{ok}
use net_prog.Super.Node.{
  ChildPort, Node, Env, IsEnv, Reaction, header, header_len, id_of, msg_type_of, react, reply,
}
use net_prog.Super.Packet.{packet}
use net_prog.Super.Request.{
  reply_header, store_child_port, find_child_port, handle_hello_from_child, handle_client_request,
}
use net_prog.Super.Request.Announced.{Answered, Succeeds, announce-query}
use net_prog.Super.Request.Deliver.{buffer-Says}
use net_prog.Super.Request.Entries.{IsInfo}
use net_prog.Super.Request.Files.{infos}
use net_prog.Super.Request.Query.{search_query_packet}
use net_prog.Super.Request.Replicate.{file_info_packet, recv_success_packet, buffer}
use net_prog.Super.Table.{Text, FileInfo}
use net_prog.Super.Table.Home.{IsAscii}
use net_prog.Super.Table.Probe.{IsValid}
use net_prog.Wire.{Bytes, be32, get32}

-- A slot of another child.
abbrev pub IsOther : ℕ → ChildPort → Type 0
IsOther id c = (c.port_num ≢ 0) × (c.id ≢ id)

-- What is stored in the first free slot is found, if no slot before has the same id.
pub find_child_port-store :
    (id port : ℕ) (before after : List ChildPort) (free : ChildPort)
    → All (IsOther id) before
    → free.port_num ≡ 0
    → find_child_port id (store_child_port id port (before ++ free ∷ after)) ≡ port
unfolding find_child_port store_child_port
find_child_port-store id port [] after free others is_free =
    rw ((==_iff free.port_num 0).1 is_free, (==_iff id id).1 refl)
find_child_port-store id port (c ∷ before) after free ((used, other), others) is_free =
    rw (ne→== c.port_num 0 used, ne→== c.id id other)
      (find_child_port-store id port before after free others is_free)

dispatch-hello :
    (id : ℕ) (env : Env) (node : Node) (received : Bytes)
    → msg_type_of (buffer received) ≡ MsgType.hello_from_child
    → handle_client_request id (some received) env node
      ≡ ok (handle_hello_from_child id (buffer received) node)
unfolding handle_client_request
dispatch-hello id env node received h = rw h

-- The greeting is answered, and the port is stored under the child's id.
pub deliver-hello :
    (id cid port : ℕ) (env : Env) (node : Node)
    → cid < 2 ^ 32
    → port < 2 ^ 32
    → handle_client_request id (some (hello_from_child_packet cid port)) env node
      ≡ ok (
          react
            (record node { child_ports = store_child_port cid port node.child_ports })
            (reply_header id MsgType.hello_from_super ∷ []))
unfolding hello_from_child_packet handle_hello_from_child
deliver-hello id cid port env node small port_small =
    let says = buffer-Says 16 cid MsgType.hello_from_child port [] in
    let bytes = buffer (hello_from_child_packet cid port) in
    let cid_said : id_of bytes ≡ cid = omega (arith, says.id_lem) in
    let port_said : get32 (drop 12 bytes) ≡ port = omega (arith, says.count_lem) in
    let type_said : msg_type_of bytes ≡ MsgType.hello_from_child =
      omega (arith, says.msg_type_lem) in
    dispatch-hello id env node (hello_from_child_packet cid port) type_said
    ∙ rw (cid_said, port_said)

greeting-is_greeted : (id : ℕ) → is_greeted (header header_len id MsgType.hello_from_super) ≡ true
unfolding is_greeted header msg_type_of be32 get32
greeting-is_greeted id = refl

-- On the answer to its files the child goes on.
recv_success_packet-is_accepted :
    (env : Env) (id : ℕ) (es : List FileInfo) → is_accepted (recv_success_packet env id es) ≡ true
unfolding is_accepted recv_success_packet packet header msg_type_of be32 get32
recv_success_packet-is_accepted env id es = refl

module _ (id : ℕ) (env from : Env) (is : IsEnv from) (cid port : ℕ) where
  -- A child whose port is not 0 and fits 32 bits says hello to a super node with a free slot
  -- before which every slot is another child's, and then announces at most ten files with ASCII
  -- names that fit the packet's fields, while the valid table keeps an empty cell beyond them and
  -- the other super node cannot be reached or answers: the greeting is answered with
  -- HELLO_FROM_SUPER, on which the child goes on, the announcement is handled, the node does not
  -- exit, and after it a query for any announced name is answered with SEARCH_ANS_SUCCESS for a
  -- file whose name begins with the queried one.
  pub hello-announce-query :
      (node : Node) (before after : List ChildPort) (free : ChildPort) (fs : List (Text × ℕ))
      → cid < 2 ^ 32
      → port < 2 ^ 32
      → port ≢ 0
      → node.child_ports ≡ before ++ free ∷ after
      → All (IsOther cid) before
      → free.port_num ≡ 0
      → length fs ≤ 10
      → All IsInfo (infos env port fs)
      → All (λ e. IsAscii e.file_name) (infos env port fs)
      → IsValid node.table
      → node.table.len + length fs < 1000
      → Answered env
      → (welcome : Reaction) × (r : Reaction) × (handle_client_request id
            (some (hello_from_child_packet cid port))
            env
            node
          ≡ ok welcome)
        × (welcome.events ≡ reply (header header_len id MsgType.hello_from_super) ∷ [])
        × (is_greeted (header header_len id MsgType.hello_from_super) ≡ true)
        × (handle_client_request id
              (some (file_info_packet from cid (infos env port fs)))
              env
              welcome.node
            ≡ ok r)
        × (r.exits ≡ false)
        × All
            (λ e. Succeeds id env r.node (search_query_packet from cid e.file_name) e.file_name)
            (infos env port fs)
  unfolding reply_header
  hello-announce-query node before after free fs small port_small nonzero slots others is_free few
        fits ascii valid room heard =
      let joined : Node = record node {
        child_ports = store_child_port cid port node.child_ports;
      } in
      let known : find_child_port cid joined.child_ports ≡ port =
        ap (λ ports. find_child_port cid (store_child_port cid port ports)) slots
        ∙ find_child_port-store cid port before after free others is_free in
      let (r, run, goes_on, still, succeed) =
        announce-query id env from is cid joined port fs small known nonzero few fits ascii valid
          room heard in
      (
        react joined (reply_header id MsgType.hello_from_super ∷ []),
        r,
        deliver-hello id cid port env node small port_small,
        refl,
        greeting-is_greeted id,
        run,
        goes_on,
        succeed,
      )
