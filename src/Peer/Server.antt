-- ===== src/Peer/Server.antt =====
-- The server thread of a child of p4, `childServer` and `handleClientFds` of p4/src/child_lib.c
-- (lines 12 to 73): an instance of the loop over descriptors, whose requests are those of peers.
pub mod Returns
pub mod Answers
pub mod Turns
use net_prog.Prelude.{ℕ, Option, List, [], ◌∷◌, ◌++◌}
use net_prog.Peer.{Disk, answer_peer}
use net_prog.Pool.{FdSet, FdPool, Server, init_pool}
use net_prog.Pool.Turn.{Turn, serve_turns}
use net_prog.Run.{Run, ok, ◌>>=◌}
use net_prog.Wire.{Bytes}

-- What was written so far: the packets of each answer, with the descriptor that they went to.
abbrev pub Answers : Type 0
Answers = List (ℕ × List Bytes)

-- `disk` is the system while the request on a descriptor is served, `read` what is read from it.
module _ (fuel id : ℕ) (disk : ℕ → Disk) (ioctl : ℕ → Option ℕ) (read : ℕ → Option Bytes) where
  unfoldable pub answer_client : ℕ → Answers → Run Answers
  answer_client fd answers = do
    packets ← answer_peer fuel (disk fd) id (read fd)
    ok (answers ++ (fd, packets) ∷ [])

  abbrev pub peer_server : Server Answers
  peer_server = record {
    ioctl = ioctl;
    on_close = λ i answers. answers;
    on_request = λ fd i pool answers. answer_client fd answers;
  }

-- What the system does in one round of the thread.
pub record PeerTurn : Type 0 where
  pub select : ℕ → FdSet → Option (FdSet × ℕ)
  pub accept : FdPool → Option (ℕ × ℕ)
  pub disk : ℕ → Disk
  pub ioctl : ℕ → Option ℕ
  pub read : ℕ → Option Bytes

-- The thread, from its listening socket on, for some rounds of its loop.
module _ (fuel id listener : ℕ) where
  unfoldable pub peer_turn : PeerTurn → Turn Answers
  peer_turn turn = record {
    select = turn.select;
    accept = turn.accept;
    server = peer_server fuel id turn.disk turn.ioctl turn.read;
  }

  unfoldable pub peer_turns : List PeerTurn → List (Turn Answers)
  peer_turns [] = []
  peer_turns (turn ∷ turns) = peer_turn turn ∷ peer_turns turns

  unfoldable pub child_server : List PeerTurn → FdPool → Run (FdPool × Answers)
  child_server turns garbage =
      serve_turns listener (peer_turns turns) (init_pool listener garbage) []
