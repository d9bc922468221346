-- ===== src/Pool/Turn/Loop.antt =====
-- The main loop keeps the pool of descriptors in order.
use net_prog.Prelude.{
  ℕ, ◌<◌, ◌≡◌, ◌≢◌, refl, inl, inr, none, some, List, [], ◌∷◌, All, ◌==◌, ==_iff, if◌then◌else◌,
  Bool-cases, Option-cases, zero, suc,
}
use net_prog.Run.{ok, >>=-congr, Returns}
use net_prog.Pool.{FdSet, FdPool, Server, init_pool, scan, rounds_of, handle_client_fds}
use net_prog.Pool.Valid.{Inside, slot, IsValid, init_pool-IsValid}
use net_prog.Pool.Add.{add_client-IsValid}
use net_prog.Pool.Keep.{handle_client_fds-IsValid}
use net_prog.Pool.Turn.{Turn, accept_client, greet, poll, poll_unchecked, serve_turns}

-- `accept` returns a descriptor that no client has and that fits a set, and every request that is
-- handled returns.
pub record IsTurn {ℓ} {S : Type ℓ} (listener : ℕ) (turn : Turn S) : Type ℓ where
  pub fresh :
      (pool : FdPool) (fd addr : ℕ)
      → turn.accept pool ≡ some (fd, addr)
      → (fd < 1024) × (fd ≢ listener) × ((j : ℕ) → slot pool j ≢ some fd)
  pub answers :
      (fd i : ℕ) (pool : FdPool) (s : S) → (s' : S) × (turn.server.on_request fd i pool s ≡ ok s')

-- The sets of ready descriptors do not matter.
IsValid-ready :
    (listener n : ℕ) (ready : FdSet) (pool : FdPool)
    → IsValid listener pool
    → IsValid listener (record pool { ready_set = ready; nready = n })
IsValid-ready listener n ready pool valid = record {
  width = valid.width;
  inside = valid.inside;
  listens = valid.listens;
  held = λ i fd h.
      let p = valid.held i fd h in
      record { upto = p.upto; below = p.below; watched = p.watched; small = p.small };
  apart = valid.apart;
  not_listener = valid.not_listener;
  known = valid.known;
}

module _ {ℓ} {S : Type ℓ} (listener : ℕ) where
  greet-IsValid :
      (turn : Turn S) (pool : FdPool)
      → IsTurn listener turn
      → IsValid listener pool
      → Returns (greet listener turn.accept pool) (IsValid listener)
  unfolding greet accept_client
  greet-IsValid turn pool is valid = elim (Bool-cases (pool.ready_set listener)) [
    | inr quiet ↦ (pool, rw quiet, valid)
    | inl rings ↦ elim (Option-cases (turn.accept pool)) [
      | inl failed ↦ (pool, rw (rings, failed), valid)
      | inr ((fd, addr), came) ↦
          let (small, other, fresh) = is.fresh pool fd addr came in
          rw (rings, came) (add_client-IsValid listener fd addr pool valid small other fresh)
    ]
  ]

  poll-IsValid :
      (turn : Turn S) (pool : FdPool) (s : S)
      → IsTurn listener turn
      → IsValid listener pool
      → Returns (poll listener turn pool s) λ r. IsValid listener r.0
  unfolding poll
  poll-IsValid turn pool s is valid = elim (Option-cases (turn.select pool.maxfd pool.read_set)) [
    | inl failed ↦ (
      (record pool { ready_set = pool.read_set; nready = 0 }, s),
      rw (poll, failed),
      IsValid-ready listener 0 pool.read_set pool valid,
    )
    | inr ((ready, n), came) ↦
        let (greeted, run, still) =
          greet-IsValid turn (record pool { ready_set = ready; nready = n }) is
            (IsValid-ready listener n ready pool valid) in
        elim (Bool-cases (greeted.nready == 0)) [
          | inl idle ↦ ((greeted, s), rw (poll, came, run, idle), still)
          | inr busy ↦
              rw (poll, came, run, busy)
                (handle_client_fds-IsValid turn.server listener is.answers greeted s still)
        ]
  ]

  serve_turns-keeps :
      (turns : List (Turn S)) (pool : FdPool) (s : S)
      → All (IsTurn listener) turns
      → IsValid listener pool
      → Returns (serve_turns listener turns pool s) λ r. IsValid listener r.0
  unfolding serve_turns
  serve_turns-keeps [] pool s all valid = ((pool, s), refl, valid)
  serve_turns-keeps (turn ∷ turns) pool s (is, all) valid =
      let ((pool', s'), run, still) = poll-IsValid turn pool s is valid in
      rw run (serve_turns-keeps turns pool' s' all still)

  -- If maxi held -1 or an index of the array before, accept returns only descriptors below 1024
  -- that are neither the listener nor held, and every request that is handled returns, then any
  -- number of rounds of the main loop from a new pool returns, whatever select reports and
  -- whichever clients come, send or go, and leaves a valid pool.
  pub serve_turns-IsValid :
      (turns : List (Turn S)) (garbage : FdPool) (s : S)
      → All (IsTurn listener) turns
      → Inside garbage.maxi
      → Returns
          (serve_turns listener turns (init_pool listener garbage) s)
          λ r. IsValid listener r.0
  serve_turns-IsValid turns garbage s all inside =
      serve_turns-keeps turns (init_pool listener garbage) s all
        (init_pool-IsValid listener garbage inside)

  handle_client_fds-idle :
      (server : Server S) (pool : FdPool) (s : S)
      → pool.nready ≡ 0
      → handle_client_fds server pool s ≡ ok (pool, s)
  unfolding handle_client_fds scan
  handle_client_fds-idle server pool s idle = by_rounds (rounds_of pool.maxi)
    where
      by_rounds : (rounds : ℕ) → scan server rounds 0 pool s ≡ ok (pool, s)
      by_rounds zero = refl
      by_rounds (suc rounds) = rw ((==_iff pool.nready 0).1 idle)

  -- Where `select` has no error, the round of p2 is that of p4.
  pub poll_unchecked-poll :
      (turn : Turn S) (pool : FdPool) (s : S)
      → turn.select pool.maxfd pool.read_set ≢ none
      → poll_unchecked listener turn pool s ≡ poll listener turn pool s
  unfolding poll poll_unchecked
  poll_unchecked-poll turn pool s works =
      elim (Option-cases (turn.select pool.maxfd pool.read_set)) [
        | inl failed ↦ absurd (works failed)
        | inr ((ready, n), came) ↦
            rw (poll, poll_unchecked, came)
              (>>=-congr
                (greet listener turn.accept (record pool { ready_set = ready; nready = n }))
                skipped)
      ]
    where
      skipped :
          (pool' : FdPool)
          → handle_client_fds turn.server pool' s
            ≡ (if pool'.nready == 0 then ok (pool', s) else handle_client_fds turn.server pool' s)
      skipped pool' = elim (Bool-cases (pool'.nready == 0)) [
        | inl idle ↦
            rw idle (handle_client_fds-idle turn.server pool' s ((==_iff pool'.nready 0).0 idle))
        | inr busy ↦ rw busy
      ]
