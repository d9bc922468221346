-- ===== src/Transfer/Select/Clients.antt =====
-- The server with `select` of p2 and all its clients: `handleClientFds` of
-- p2/src/select_server_utilities.c, lines 180 to 204, an instance of the loop over descriptors.
pub mod Apart
pub mod Own
use net_prog.Prelude.{ℕ, ◌+◌, Option, none, some, List, [], ◌∷◌, ◌++◌, get_elem?, set}
use net_prog.Run.{Run, ok, fault, ◌>>=◌}
use net_prog.Pool.{FdPool, Server}
use net_prog.Transfer.Select.{null, Slot, Call, handle_client_request}
use net_prog.Transfer.Server.{Env}
use net_prog.Wire.{Bytes}

-- What is kept for the client in each slot, and the calls of the handler so far, with the
-- descriptor of each.
pub record SelectServer : Type 0 where
  pub slots : List Slot
  pub calls : List (ℕ × Call)

unfoldable pub empty_slot : Slot
empty_slot = record { buffer = null; last_seq_num = 0; bytes_read = 0 }

-- `nread` is what the variable holds after `ioctl`, whether or not that had an error, `read` what
-- is read from a client, and `memory` what the packet on the stack held when the request of a
-- client is read in a state, which may be what an earlier client has sent. A read error ends the
-- program and is left out.
module _ (env : Env) (memory : ℕ → SelectServer → Bytes) (nread : ℕ → ℕ) (read : ℕ → Bytes) where
  unfoldable pub reset_slot : ℕ → SelectServer → SelectServer
  reset_slot i server = record server { slots = set server.slots i empty_slot }

  unfoldable pub serve_slot : ℕ → ℕ → FdPool → SelectServer → Run SelectServer
  serve_slot fd i pool server = elim (get_elem? server.slots i) [
    | none ↦ fault
    | some slot ↦ do
      call ← handle_client_request env (memory fd server) (some (read fd)) slot
      ok (record { slots = set server.slots i call.slot; calls = server.calls ++ (fd, call) ∷ [] })
  ]

  abbrev pub select_server : Server SelectServer
  select_server = record {
    ioctl = λ fd. some (nread fd);
    on_close = λ i server. reset_slot i server;
    on_request = λ fd i pool server. serve_slot fd i pool server;
  }
