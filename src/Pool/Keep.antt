-- ===== src/Pool/Keep.antt =====
-- The loop over the descriptors that are ready keeps the pool valid, and does not leave the array.
use net_prog.Prelude.{
  ℕ, zero, suc, ◌+◌, ◌-◌, ◌<◌, ◌≤◌, ◌≡◌, ◌≢◌, refl, ap, sym, ◌∙◌, ◌⊎◌, inl, inr, Bool, true, false,
  ◌&&◌, Option, none, some, arith, ltb, get_or_beyond, get_or-get_elem?, length, get_elem?, set,
  replicate, length-set, Bool-cases, ne→==, ==_iff, get_elem?-replicate, get_elem?-replicate_end,
}
use native.Mathlib.Decide.{ℕ_discrete, dec_lt}
use net_prog.Prelude.Int.{ℤ, pos, negsuc}
use net_prog.Run.{Run, ok, fault, Returns}
use net_prog.Pool.{
  FdPool, Server, fd_clr, fd_setsize, init_pool, close_client, serve, visit, scan, rounds_of,
  handle_client_fds,
}
use net_prog.Pool.Scan.{split_at, ioctl-cases}
use net_prog.Pool.Valid.{Inside, slot, IsValid, set-cases}

-- A pool that differs only in `nready`.
IsValid-uncounted :
    (listener n : ℕ) (pool : FdPool)
    → IsValid listener pool
    → IsValid listener (record pool { nready = n })
IsValid-uncounted listener n pool valid = record {
  width = valid.width;
  inside = valid.inside;
  listens = valid.listens;
  held = λ i x h.
      let old = valid.held i x h in
      record { upto = old.upto; below = old.below; watched = old.watched; small = old.small };
  apart = valid.apart;
  not_listener = valid.not_listener;
  known = valid.known;
}

module _ (listener fd i : ℕ) (pool : FdPool) (valid : IsValid listener pool)
    (here : slot pool i ≡ some fd) where
  abbrev closed : FdPool
  closed = record pool { read_set = fd_clr fd pool.read_set; clientfd = set pool.clientfd i none }

  inside_array : i < length pool.clientfd
  inside_array = elim (dec_lt i (length pool.clientfd)) [
    | yes lt ↦ lt
    | no ge ↦ absurd (cc (get_or_beyond pool.clientfd i none (omega arith)))
  ]

  abbrev cases :
      (j : ℕ) → ((i ≡ j) × (slot closed j ≡ none)) ⊎ ((i ≢ j) × (slot closed j ≡ slot pool j))
  cases j = set-cases pool.clientfd i j none inside_array

  -- What is still held after the close was held before, and is not what was closed.
  still : (j x : ℕ) → slot closed j ≡ some x → (i ≢ j) × (slot pool j ≡ some x) × (x ≢ fd)
  still j x h = elim (cases j) [
    | inl (same, e) ↦ absurd (cc)
    | inr (other, e) ↦
        let old : slot pool j ≡ some x = sym e ∙ h in
        (other, old, λ p. other (valid.apart i j fd here (old ∙ ap some p)))
  ]

  -- Closing the client in a slot of a valid pool leaves a valid pool: its descriptor is no longer
  -- watched, and every other client and the listener are.
  pub close_client-IsValid : IsValid listener (close_client fd i pool)
  unfolding close_client fd_clr
  close_client-IsValid = record {
    width = length-set pool.clientfd i none ∙ valid.width;
    inside = valid.inside;
    listens = (ground (arith, valid.listens, valid.not_listener i), valid.listens.1);
    held = λ j x h.
        let (other, old, differs) = still j x h in
        let p = valid.held j x old in
        record {
          upto = p.upto;
          below = p.below;
          watched = ground (arith, p.watched);
          small = p.small;
        };
    apart = λ j k x h g. valid.apart j k x (still j x h).1 (still k x g).1;
    not_listener = λ j h. valid.not_listener j (still j listener h).1;
    known = λ x h. elim (valid.known x (ground arith)) [
      | inl e ↦ inl e
      | inr (j, e) ↦ inr (j, kept j x e (ground arith))
    ];
  }
    where
      kept : (j x : ℕ) → slot pool j ≡ some x → x ≢ fd → slot closed j ≡ some x
      kept j x e differs = elim (cases j) [
        | inl (same, gone) ↦ absurd (differs (cc (ap (λ k. slot pool k) same)))
        | inr (other, same) ↦ same ∙ e
      ]

rounds_of-le : (m : ℤ) → Inside m → 0 + rounds_of m ≤ 1024
unfolding rounds_of
rounds_of-le (pos m) h = omega arith
rounds_of-le (negsuc m) h = omega arith

module _ {ℓ} {S : Type ℓ} (server : Server S) (listener : ℕ)
    (answers : (fd i : ℕ) (pool : FdPool) (s : S)
      → (s' : S) × (server.on_request fd i pool s ≡ ok s')) where
  abbrev Keeps : Run (Bool × FdPool × S) → Type ℓ
  Keeps r = Returns r λ t. IsValid listener t.1

  serve-IsValid :
      (fd i : ℕ) (pool : FdPool) (s : S)
      → IsValid listener pool
      → slot pool i ≡ some fd
      → Keeps (serve server fd i pool s)
  unfolding serve
  serve-IsValid fd i pool s valid here = elim (ioctl-cases (server.ioctl fd)) [
    | inl e ↦ ((false, counted, s), rw (e, serve), fewer)
    | inr (inl e) ↦ (
      (true, close_client fd i counted, server.on_close i s),
      rw (e, serve),
      close_client-IsValid listener fd i counted fewer here,
    )
    | inr (inr (n, e)) ↦
        let (s', run) = answers fd i counted s in ((true, counted, s'), rw (e, serve, run), fewer)
  ]
    where
      counted : FdPool
      counted = record pool { nready = pool.nready - 1 }

      fewer : IsValid listener counted
      fewer = IsValid-uncounted listener (pool.nready - 1) pool valid

  visit-IsValid :
      (i : ℕ) (pool : FdPool) (s : S)
      → IsValid listener pool
      → i < 1024
      → Keeps (visit server i pool s)
  unfolding visit
  visit-IsValid i pool s valid lt =
      let (x, here, behind) = split_at pool.clientfd i (omega (arith, valid.width)) in
      by_slot x here
    where
      by_slot : (x : Option ℕ) → get_elem? pool.clientfd i ≡ some x → Keeps (visit server i pool s)
      by_slot none here = ((true, pool, s), rw (here, visit), valid)
      by_slot (some fd) here = elim (Bool-cases (ltb 0 fd && pool.ready_set fd)) [
        | inl test ↦
            let held : slot pool i ≡ some fd =
              get_or-get_elem? pool.clientfd i (some fd) none here in
            rw (here, visit, test) (serve-IsValid fd i pool s valid held)
        | inr test ↦ ((true, pool, s), rw (here, visit, test), valid)
      ]

  scan-IsValid :
      (rounds i : ℕ) (pool : FdPool) (s : S)
      → IsValid listener pool
      → i + rounds ≤ 1024
      → Returns (scan server rounds i pool s) λ r. IsValid listener r.0
  unfolding scan
  scan-IsValid zero i pool s valid fits = ((pool, s), refl, valid)
  scan-IsValid (suc rounds) i pool s valid fits = elim (ℕ_discrete pool.nready 0) [
    | yes e ↦ ((pool, s), rw ((==_iff pool.nready 0).1 e), valid)
    | no e ↦
        let ((b, after, s'), run, keeps) = visit-IsValid i pool s valid (omega arith) in
        rw (ne→== pool.nready 0 e, run)
          (next b after s' keeps (scan-IsValid rounds (suc i) after s' keeps (omega arith)))
  ]
    where
      next :
          (b : Bool) (after : FdPool) (s' : S)
          → IsValid listener after
          → Returns (scan server rounds (suc i) after s') (λ r. IsValid listener r.0)
          → Returns {V = FdPool × S}
              (elim b [ true ↦ scan server rounds (suc i) after s' | false ↦ ok (after, s') ])
              (λ r. IsValid listener r.0)
      next true after s' keeps rest = rest
      next false after s' keeps rest = ((after, s'), refl, keeps)

  -- If every request that is handled returns, the loop over the ready descriptors of a valid pool
  -- returns, reads no slot outside the array, and leaves the pool valid, whichever clients close
  -- or send data.
  pub handle_client_fds-IsValid :
      (pool : FdPool) (s : S)
      → IsValid listener pool
      → Returns (handle_client_fds server pool s) λ r. IsValid listener r.0
  unfolding handle_client_fds
  handle_client_fds-IsValid pool s valid =
      scan-IsValid (rounds_of pool.maxi) 0 pool s valid (rounds_of-le pool.maxi valid.inside)

module _ {ℓ} {S : Type ℓ} (server : Server S) where
  scan_beyond :
      (rounds i n : ℕ) (pool : FdPool) (s : S)
      → pool.clientfd ≡ replicate n none
      → 0 < pool.nready
      → i ≤ n
      → n < i + rounds
      → scan server rounds i pool s ≡ fault
  unfolding scan visit
  scan_beyond zero i n pool s free some_ready le lt = absurd (omega arith)
  scan_beyond (suc rounds) i n pool s free some_ready le lt = elim (dec_lt i n) [
    | yes below ↦
        rw
          (
            ne→== pool.nready 0 (omega arith),
            ap (λ l. get_elem? l i) free ∙ get_elem?-replicate n i none below,
            visit,
          )
          (scan_beyond rounds (suc i) n pool s free some_ready (omega arith) (omega arith))
    | no ge ↦
        let e : i ≡ n = omega arith in
        rw (
          ne→== pool.nready 0 (omega arith),
          ap (λ l. get_elem? l i) free
              ∙ ap (λ k. get_elem? {A = Option ℕ} (replicate n none) k) e
              ∙ get_elem?-replicate_end n none,
          visit,
        )
  ]

  -- If maxi held 1024 or more when the pool was made, and something is ready while no client is
  -- held, the loop over the descriptors reads past the array.
  pub handle_client_fds_uninitialised :
      (listener m nready : ℕ) (garbage : FdPool) (s : S)
      → 1024 ≤ m
      → garbage.maxi ≡ pos m
      → 0 < nready
      → handle_client_fds server (record (init_pool listener garbage) { nready = nready }) s ≡ fault
  unfolding handle_client_fds init_pool rounds_of
  handle_client_fds_uninitialised listener m nready garbage s beyond unset some_ready =
      rw (unset, rounds_of)
        (scan_beyond (m + 1) 0 fd_setsize _ s refl some_ready (omega arith) (omega arith))
