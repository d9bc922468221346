-- ===== src/Peer/Server/Turns.antt =====
-- The server thread of a child runs on.
use net_prog.Prelude.{ℕ, ◌<◌, ◌≡◌, ◌≢◌, some, List, [], ◌∷◌, ◌++◌, All}
use net_prog.Peer.Server.{PeerTurn, answer_client, peer_turn, peer_turns, child_server}
use net_prog.Peer.Server.Returns.{IsDisk, IsNamed, answer_peer-ok}
use net_prog.Pool.{FdPool}
use net_prog.Pool.Turn.Loop.{IsTurn, serve_turns-IsValid}
use net_prog.Pool.Valid.{Inside, slot, IsValid}
use net_prog.Run.{Returns}

-- `accept` returns a descriptor that no client has and that fits a set; what the peers send has a
-- name that ends, and reads of files make progress.
pub record IsPeerTurn (fuel listener : ℕ) (turn : PeerTurn) : Type 0 where
  pub fresh :
      (pool : FdPool) (fd addr : ℕ)
      → turn.accept pool ≡ some (fd, addr)
      → (fd < 1024) × (fd ≢ listener) × ((j : ℕ) → slot pool j ≢ some fd)
  pub disks : (fd : ℕ) → IsDisk fuel (turn.disk fd)
  pub named : (fd : ℕ) → IsNamed (turn.disk fd).memory (turn.read fd)

module _ (fuel id listener : ℕ) where
  peer_turn-IsTurn :
      (turn : PeerTurn)
      → IsPeerTurn fuel listener turn
      → IsTurn listener (peer_turn fuel id listener turn)
  unfolding peer_turn answer_client
  peer_turn-IsTurn turn is = record {
    fresh = is.fresh;
    answers = λ fd i pool s.
        let (packets, run) =
          answer_peer-ok fuel id (turn.disk fd) (turn.read fd) (is.disks fd) (is.named fd) in
        (s ++ (fd, packets) ∷ [], rw run);
  }

  peer_turns-IsTurn :
      (turns : List PeerTurn)
      → All (IsPeerTurn fuel listener) turns
      → All (IsTurn listener) (peer_turns fuel id listener turns)
  unfolding peer_turns
  peer_turns-IsTurn [] all = tt
  peer_turns-IsTurn (turn ∷ turns) (is, all) =
      (peer_turn-IsTurn turn is, peer_turns-IsTurn turns all)

  -- If maxi held -1 or an index of the array before, accept returns only descriptors below 1024
  -- that are neither the listener nor held, all that peers send has a name field with an end, and
  -- files are shorter than the fuel and read in blocks of 1 to 10000 bytes, then any number of
  -- rounds of the server thread of a child returns, whatever select and ioctl report, and leaves
  -- a valid pool.
  pub child_server-IsValid :
      (turns : List PeerTurn) (garbage : FdPool)
      → All (IsPeerTurn fuel listener) turns
      → Inside garbage.maxi
      → Returns (child_server fuel id listener turns garbage) λ r. IsValid listener r.0
  unfolding child_server
  child_server-IsValid turns garbage all inside =
      serve_turns-IsValid listener (peer_turns fuel id listener turns) garbage []
        (peer_turns-IsTurn turns all) inside
