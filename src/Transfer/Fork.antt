-- ===== src/Transfer/Fork.antt =====
-- The forking server and the client of p2: `main` of p2/src/multi_server.c (lines 17 to 37), with a
-- process for each connection, and `main` of p2/src/client.c (lines 22 to 36), with a thread for
-- each request. Processes share no memory; of each its open descriptors are kept.
pub mod Children
pub mod Numbers
pub mod Files
use net_prog.Prelude.{
  ℕ, zero, suc, ◌+◌, ◌%◌, ◌^◌, Bool, Option, none, some, List, [], ◌∷◌, ◌==◌, if◌then◌else◌,
}
use net_prog.Run.{Run}
use net_prog.Socket.{close}
use net_prog.Transfer.Client.{Client}
use net_prog.Transfer.Server.{Env, Server, Round}
use net_prog.Transfer.Session.{Outcome}
use net_prog.Transfer.Thread.{client_send_file, handle_requests}
use net_prog.Wire.{Bytes}

-- What the system does with one turn of the server's loop. `reads` is what the reads from the
-- client return, and `memory` and `sequence` what the packets on the stack held.
pub record Connection : Type 0 where
  -- the descriptor that `accept` returns, or an error
  pub accept : Option ℕ
  -- whether `fork` makes a process
  pub forks : Bool
  pub env : Env
  pub memory : Bytes
  pub sequence : ℕ
  pub reads : List (Option Bytes)

-- A process for a client: the descriptors that are open while it serves and when it exits, and
-- the rounds that it makes.
pub record Child : Type 0 where
  pub serving : List ℕ
  pub left_open : List ℕ
  pub outcome : Run (List Round)

-- The variables of `handleClientRequest` at its start.
unfoldable pub new_server : Bytes → ℕ → Server
new_server memory sequence = record {
  recv = memory;
  sequence = sequence;
  buffer = none;
  bytes_read = 0;
}

unfoldable pub child_process : ℕ → ℕ → List ℕ → Connection → Child
child_process server_sock client_sock open_fds c =
    let own = close server_sock open_fds in
    record {
      serving = own;
      left_open = close client_sock own;
      outcome = handle_requests c.env c.reads (new_server c.memory c.sequence);
    }

-- The parent's descriptors after a turn, and the process for the client. If `fork` fails the
-- client is dropped.
unfoldable pub accept_turn : ℕ → Connection → List ℕ → List ℕ × Option Child
accept_turn server_sock c open_fds = elim c.accept [
  | none ↦ (open_fds, none)
  | some client_sock ↦ (
    close client_sock (client_sock ∷ open_fds),
    if c.forks
        then some (child_process server_sock client_sock (client_sock ∷ open_fds) c)
        else none,
  )
]

abbrev with_child : Option Child → List Child → List Child
with_child none children = children
with_child (some child) children = child ∷ children

-- The turns that a run of the server takes.
unfoldable pub multi_server : ℕ → List Connection → List ℕ → List ℕ × List Child
multi_server server_sock [] open_fds = (open_fds, [])
multi_server server_sock (c ∷ connections) open_fds =
    let (kept, child) = accept_turn server_sock c open_fds in
    let (last, children) = multi_server server_sock connections kept in
    (last, with_child child children)

-- What a client thread starts with, and the process of the server that it talks to.
pub record Talk : Type 0 where
  pub created : Bool
  -- whether it has come to its end when `main` returns, which ends the process
  pub finishes : Bool
  pub rand : ℕ
  pub env : Env
  pub client : Client
  pub memory : Bytes
  pub sequence : ℕ

-- The threads with numbers from `i + 1` on. Each is taken to have copied its number before the
-- next one is created; a thread that cannot be created is passed over.
-- `main` joins no thread: `none` for one that the end of the process cuts short.
unfoldable pub client_threads : ℕ → (ℕ → Talk) → ℕ → ℕ → List (ℕ × Option (Run Outcome))
client_threads fuel talk i zero = []
client_threads fuel talk i (suc left) =
    let rest = client_threads fuel talk (i + 1) left in
    let number = (i + 1) % 2 ^ 32 in
    let t = talk number in
    if t.created
    then (
      number,
      if t.finishes
          then some
              (client_send_file fuel t.rand number t.env t.client (new_server t.memory t.sequence))
          else none,
    )
      ∷ rest
    else rest

unfoldable pub client_main : ℕ → (ℕ → Talk) → ℕ → List (ℕ × Option (Run Outcome))
client_main fuel talk num_of_thread = client_threads fuel talk 0 num_of_thread
