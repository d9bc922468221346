-- ===== src/Pool/Turn.antt =====
-- The main loop of the servers with `select`: p4/src/super.c (lines 94 to 116), with the same text
-- in p4/src/child_lib.c and p3/src/web_server.c, and that of p2/src/select_server.c, which does not
-- test the result of `select`.
pub mod Address
pub mod Loop
pub mod Rule
pub mod Same
pub mod Total
use net_prog.Prelude.{ℕ, Option, none, some, List, [], ◌∷◌, ◌==◌, if◌then◌else◌}
use net_prog.Run.{Run, ok, ◌>>=◌}
use net_prog.Pool.{FdSet, FdPool, Server, add_client, handle_client_fds}

-- What the system does in one round of the loop. `select` gives the descriptors that are ready and
-- their number, or an error; `accept` a new descriptor and what `clientAddr` then holds, or an
-- error. That is the address of the client but for the first one that a process accepts, for which
-- the length that `accept` is given is too small (Pool/Turn/Address).
pub record Turn {ℓ} (S : Type ℓ) : Type ℓ where
  pub select : ℕ → FdSet → Option (FdSet × ℕ)
  pub accept : FdPool → Option (ℕ × ℕ)
  pub server : Server S

unfoldable pub accept_client : Option (ℕ × ℕ) → FdPool → Run FdPool
accept_client none pool = ok pool
accept_client (some (fd, addr)) pool = add_client fd addr pool

-- A new client is accepted if the listener is ready.
unfoldable pub greet : ℕ → (FdPool → Option (ℕ × ℕ)) → FdPool → Run FdPool
greet listener accept pool =
    if pool.ready_set listener then accept_client (accept pool) pool else ok pool

-- After an error of `select` the descriptors that are watched are still in `ready_set`, and
-- `nready` is negative, which is 0 to the loop over the clients.
abbrev selected : FdSet → Option (FdSet × ℕ) → FdPool → FdPool
selected watched none pool = record pool { ready_set = watched; nready = 0 }
selected watched (some (ready, n)) pool = record pool { ready_set = ready; nready = n }

module _ {ℓ} {S : Type ℓ} (listener : ℕ) where
  -- One round. After an error of `select` the next round overwrites `nready`.
  unfoldable pub poll : Turn S → FdPool → S → Run (FdPool × S)
  poll turn pool s = elim (turn.select pool.maxfd pool.read_set) [
    | none ↦ ok (selected pool.read_set none pool, s)
    | some answer ↦ do
      pool' ← greet listener turn.accept (selected pool.read_set (some answer) pool)
      if pool'.nready == 0 then ok (pool', s) else handle_client_fds turn.server pool' s
  ]

  -- The round of p2.
  unfoldable pub poll_unchecked : Turn S → FdPool → S → Run (FdPool × S)
  poll_unchecked turn pool s = do
    pool' ←
        greet listener turn.accept
          (selected pool.read_set (turn.select pool.maxfd pool.read_set) pool)
    handle_client_fds turn.server pool' s

  -- The rounds that a run of the server takes.
  unfoldable pub serve_turns : List (Turn S) → FdPool → S → Run (FdPool × S)
  serve_turns [] pool s = ok (pool, s)
  serve_turns (turn ∷ turns) pool s = do (pool', s') ← poll turn pool s; serve_turns turns pool' s'
