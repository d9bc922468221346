-- ===== src/Super/Server.antt =====
-- The super node as a server: `handleClientFds` of p4/src/super_lib.c, lines 58 to 86, an instance of
-- the loop over descriptors, and `main` of p4/src/super.c from the listening socket on.
pub mod Sound
pub mod Returns
use net_prog.Prelude.{ℕ, Bool, true, false, Option, List, [], ◌∷◌, ◌++◌, get_or, if◌then◌else◌}
use net_prog.Pool.{FdSet, FdPool, Server, init_pool}
use net_prog.Pool.Turn.{Turn, serve_turns}
use net_prog.Run.{Run, ok, ◌>>=◌}
use net_prog.Super.Node.{Node, Env, Event, Reaction}
use net_prog.Super.Request.{handle_client_request}
use net_prog.Super.Start.{start_node}
use net_prog.Super.Table.{Text}
use net_prog.Wire.{Bytes}

-- The node, and what it has sent: the events of each request, with the descriptor that it came
-- from. A process that has exited does nothing more.
pub record SuperServer : Type 0 where
  pub node : Node
  pub sent : List (ℕ × List Event)
  pub exited : Bool

unfoldable pub after_request : ℕ → SuperServer → Reaction → SuperServer
after_request fd s r = record {
  node = r.node;
  sent = s.sent ++ (fd, r.events) ∷ [];
  exited = r.exits;
}

-- What the system does in one round of the loop. `env` is what lies outside the program while the
-- request on a descriptor is handled, for the client's address in the pool.
pub record SuperTurn : Type 0 where
  pub select : ℕ → FdSet → Option (FdSet × ℕ)
  pub accept : FdPool → Option (ℕ × ℕ)
  pub ioctl : ℕ → Option ℕ
  pub read : ℕ → Option Bytes
  pub env : ℕ → ℕ → Env

module _ (id : ℕ) where
  unfoldable pub serve_request : SuperTurn → ℕ → ℕ → FdPool → SuperServer → Run SuperServer
  serve_request turn fd i pool s = if s.exited then ok s else (do
    r ← handle_client_request id (turn.read fd) (turn.env fd (get_or pool.client_addr i 0)) s.node
    ok (after_request fd s r))

  unfoldable pub super_turn : SuperTurn → Turn SuperServer
  super_turn turn = record {
    select = turn.select;
    accept = turn.accept;
    server = record {
      ioctl = turn.ioctl;
      on_close = λ i s. s;
      on_request = λ fd i pool s. serve_request turn fd i pool s;
    };
  }

  unfoldable pub super_turns : List SuperTurn → List (Turn SuperServer)
  super_turns [] = []
  super_turns (turn ∷ turns) = super_turn turn ∷ super_turns turns

  -- The main loop from a node on, for some rounds.
  unfoldable pub super_server : ℕ → List SuperTurn → FdPool → Node → Run (FdPool × SuperServer)
  super_server listener turns garbage node =
      serve_turns listener (super_turns turns) (init_pool listener garbage)
        (record { node = node; sent = []; exited = false })
