-- ===== src/Transfer/Fork/Children.antt =====
-- The processes of the forking server.
use net_prog.Prelude.{
  ℕ, ◌+◌, ◌%◌, ◌≤◌, ◌≡◌, ◌≢◌, refl, ap, ◌∙◌, true, Option, none, some, List, [], ◌∷◌, ◌++◌, arith,
  length, All, map, false, ==_iff, ne→==, take_all,
}
use net_prog.Run.{Run, ok, fault, out_of_fuel}
use net_prog.Socket.{close}
use net_prog.Transfer.Command
use net_prog.Transfer.Packet.{cmd_pkt, next_seq}
use net_prog.Transfer.Server.{Env, Server, Round, answer, content, store_file, server_round}
use net_prog.Transfer.Session.Rounds.{
  Willing, delivery, landed, round-hello, round-delivery, round-store,
}
use net_prog.Transfer.Thread.{handle_requests}
use net_prog.Transfer.Fork.{Connection, Child, new_server, child_process, accept_turn, multi_server}
use net_prog.Wire.{Bytes, IsText}

-- The DATA_STORE packet for a name.
abbrev pub store_packet : ℕ → Bytes → Bytes
store_packet seq name = cmd_pkt seq (8 + length name + 1) Command.data_store ++ (name ++ 0 ∷ [])

-- What the rounds of a process have written to files.
abbrev pub files_of : List Round → List (Bytes × Bytes)
files_of [] = []
files_of (r ∷ rounds) = elim r.stored [
  | none ↦ files_of rounds
  | some file ↦ file ∷ files_of rounds
]

abbrev pub written : Run (List Round) → Option (List (Bytes × Bytes))
written fault = none
written out_of_fuel = none
written (ok rounds) = some (files_of rounds)

-- A client that says hello, delivers a block and has it stored.
pub record Request : Type 0 where
  pub client_sock : ℕ
  pub env : Env
  pub memory : Bytes
  pub sequence : ℕ
  pub hello_seq : ℕ
  pub delivery_seq : ℕ
  pub store_seq : ℕ
  pub block : Bytes
  pub name : Bytes
  pub more : List (Option Bytes)

abbrev pub connection_of : Request → Connection
connection_of q = record {
  accept = some q.client_sock;
  forks = true;
  env = q.env;
  memory = q.memory;
  sequence = q.sequence;
  reads =
      some (cmd_pkt q.hello_seq 8 Command.client_hello)
      ∷ some (delivery q.delivery_seq q.block)
      ∷ some (store_packet q.store_seq q.name)
      ∷ q.more;
}

pub record IsRequest (server_sock : ℕ) (q : Request) : Type 0 where
  pub other : q.client_sock ≢ server_sock
  pub willing : Willing q.env
  pub small : length q.block ≤ 4022
  pub text : IsText q.name
  pub short : length q.name + 1 ≤ 4022

module _ (env : Env) (received : Option Bytes) (reads : List (Option Bytes)) (server : Server)
    (r : Round) (ran : server_round env received server ≡ ok r) where
  handle_requests-last :
      r.stops ≡ true → handle_requests env (received ∷ reads) server ≡ ok (r ∷ [])
  unfolding handle_requests
  handle_requests-last stops = rw (ran, stops)

  handle_requests-next :
      (later : List Round)
      → r.stops ≡ false
      → handle_requests env reads r.server ≡ ok later
      → handle_requests env (received ∷ reads) server ≡ ok (r ∷ later)
  unfolding handle_requests
  handle_requests-next later goes_on run = rw (ran, goes_on, run)

store_file-writes :
    (env : Env) (name : Bytes) (server : Server)
    → Willing env
    → server.bytes_read ≡ length (content server.buffer)
    → (let r = store_file env name server in
        (r.stored ≡ some (name, content server.buffer)) × (r.stops ≡ true))
unfolding store_file answer
store_file-writes env name server willing counted = (
  rw (
    willing.opens,
    willing.writes,
    counted,
    take_all (length (content server.buffer)) (content server.buffer) (omega arith),
  ),
  rw (willing.opens, willing.writes),
)

-- The three rounds of a process for such a client, whatever else it sends.
handle_requests-stores :
    (server_sock : ℕ) (q : Request)
    → IsRequest server_sock q
    → written (handle_requests q.env (connection_of q).reads (new_server q.memory q.sequence))
      ≡ some ((q.name, q.block) ∷ [])
unfolding answer content new_server
handle_requests-stores server_sock q is =
    let start = new_server q.memory q.sequence in
    let hello = cmd_pkt q.hello_seq 8 Command.client_hello in
    let r₁ =
      answer (landed hello start) (q.env.rand % Command.max_sequence) Command.server_hello false in
    let block = q.block in
    let sent = delivery q.delivery_seq block in
    let at = landed sent r₁.server in
    let r₂ =
      answer
        (record at {
          buffer = some (content at.buffer ++ block);
          bytes_read = at.bytes_read + length block;
        })
        (next_seq at.sequence) Command.pkt_received false in
    let named = landed (store_packet q.store_seq q.name) r₂.server in
    let r₃ = store_file q.env q.name named in
    let (stored, stops) = store_file-writes q.env q.name named is.willing (omega arith) in
    let third =
      handle_requests-last q.env (some (store_packet q.store_seq q.name)) q.more r₂.server r₃
        (round-store q.env is.willing r₂.server q.store_seq q.name is.text is.short) stops in
    let second =
      handle_requests-next q.env (some sent) (some (store_packet q.store_seq q.name) ∷ q.more)
        r₁.server r₂
        (round-delivery q.env is.willing r₁.server q.delivery_seq block is.small
          (omega (arith, is.small)))
        (r₃ ∷ []) refl third in
    let first =
      handle_requests-next q.env (some hello)
        (some sent ∷ some (store_packet q.store_seq q.name) ∷ q.more) start r₁
        (round-hello q.env is.willing start q.hello_seq) (r₂ ∷ r₃ ∷ []) refl second in
    ap written first ∙ rw stored

-- Each process has its own client's descriptor and no listener, leaves no more than the parent
-- had without the listener, and has stored its client's block and nothing else.
abbrev pub AllServed : ℕ → List ℕ → List Request → List Child → Type 0
AllServed server_sock open_fds [] [] = Unit
AllServed server_sock open_fds (q ∷ requests) (child ∷ children) =
    (child.serving ≡ q.client_sock ∷ close server_sock open_fds)
    × (child.left_open ≡ close server_sock open_fds)
    × (written child.outcome ≡ some ((q.name, q.block) ∷ []))
    × AllServed server_sock open_fds requests children
AllServed server_sock open_fds _ _ = ⊥

-- If each connection is accepted on a descriptor that is not the listener's, each fork succeeds,
-- and each client says hello, delivers at most 4022 bytes and has them stored under a name that
-- fits the packet, whatever else it sends, then the parent of the forking server ends with the
-- descriptors that it began with, and each client has a process that has its socket open and not
-- the listener, closes it, and writes exactly the client's bytes to the file of that name, on a
-- system that grants memory, opens the file and writes what it is given.
pub multi_server-AllServed :
    (server_sock : ℕ) (requests : List Request) (open_fds : List ℕ)
    → All (IsRequest server_sock) requests
    → (children : List Child) × (multi_server server_sock (map connection_of requests) open_fds
        ≡ (open_fds, children))
      × AllServed server_sock open_fds requests children
unfolding multi_server accept_turn child_process close
multi_server-AllServed server_sock [] open_fds all = ([], refl, tt)
multi_server-AllServed server_sock (q ∷ requests) open_fds (is, all) =
    let (children, run, served) = multi_server-AllServed server_sock requests open_fds all in
    let own = (==_iff q.client_sock q.client_sock).1 refl in
    let others = ne→== q.client_sock server_sock is.other in
    let child =
      child_process server_sock q.client_sock (q.client_sock ∷ open_fds) (connection_of q) in
    (
      child ∷ children,
      rw (own, run),
      (rw others, rw (others, own), handle_requests-stores server_sock q is, served),
    )
