-- ===== src/Pool/Add.antt =====
-- `addClient` of p4/src/common.c keeps the pool valid.
use net_prog.Prelude.{
  ℕ, zero, suc, ◌+◌, ◌-◌, ◌<◌, ◌≡◌, ◌≢◌, refl, ap, sym, ◌∙◌, ◌⊎◌, inl, inr, true, Option, none,
  some, List, [], ◌∷◌, arith, ltb, if◌then◌else◌, lt→ltb, length, get_or, set, length-set,
  get_or-set_self, get_or-set_ne, Option-cases,
}
use mathlib.Core.Path.{subst}
use native.Mathlib.Decide.{ℕ_discrete}
use net_prog.Prelude.Int.{ℤ, pos, negsuc}
use net_prog.Run.{ok, Returns}
use net_prog.Pool.{FdPool, fd_set, find_slot, raise_maxi, add_client}
use net_prog.Pool.Valid.{Upto, Inside, slot, IsHeld, IsValid, set-cases}

-- A slot that is found is free, and lies in the array.
find_slot-free :
    (fds : List (Option ℕ)) (from i : ℕ)
    → find_slot from fds ≡ some i
    → (k : ℕ) × (i ≡ from + k) × (k < length fds) × (get_or fds k none ≡ none)
unfolding find_slot
find_slot-free [] from i h = cc
find_slot-free (none ∷ fds) from i h = (0, ground arith, omega arith, refl)
find_slot-free (some fd ∷ fds) from i h =
    let (k, e, lt, free) = find_slot-free fds (from + 1) i h in
    (suc k, omega arith, omega arith, free)

-- Where no slot is found none is free.
find_slot-none :
    (fds : List (Option ℕ)) (from k : ℕ)
    → find_slot from fds ≡ none
    → k < length fds
    → get_or fds k none ≢ none
unfolding find_slot
find_slot-none [] from k h lt free = absurd (omega arith)
find_slot-none (none ∷ fds) from k h lt free = cc
find_slot-none (some fd ∷ fds) from zero h lt free = cc
find_slot-none (some fd ∷ fds) from (suc k) h lt free =
    find_slot-none fds (from + 1) k h (omega arith) free

raise_maxi-Inside : (i : ℕ) (m : ℤ) → i < 1024 → Inside m → Inside (raise_maxi i m)
unfolding raise_maxi
raise_maxi-Inside i (pos m) lt h = ground arith
raise_maxi-Inside i (negsuc m) lt h = lt

raise_maxi-Upto : (i j : ℕ) (m : ℤ) → Upto j m → Upto j (raise_maxi i m)
unfolding raise_maxi
raise_maxi-Upto i j (pos m) h = ground arith
raise_maxi-Upto i j (negsuc m) h = absurd h

raise_maxi-Upto_self : (i : ℕ) (m : ℤ) → Upto i (raise_maxi i m)
unfolding raise_maxi
raise_maxi-Upto_self i (pos m) = ground arith
raise_maxi-Upto_self i (negsuc m) = omega arith

module _ (listener fd addr i : ℕ) (pool : FdPool) (valid : IsValid listener pool) where
  abbrev added : FdPool
  added = record {
    maxfd = if ltb pool.maxfd fd then fd else pool.maxfd;
    read_set = fd_set fd pool.read_set;
    clientfd = set pool.clientfd i (some fd);
    client_addr = set pool.client_addr i addr;
    maxi = raise_maxi i pool.maxi;
    ready_set = pool.ready_set;
    nready = pool.nready - 1;
  }

  module _ (lt : i < 1024) (free : slot pool i ≡ none) (small : fd < 1024) (other : fd ≢ listener)
      (fresh : (j : ℕ) → slot pool j ≢ some fd) where
    abbrev cases :
        (j : ℕ) → ((i ≡ j) × (slot added j ≡ some fd)) ⊎ ((i ≢ j) × (slot added j ≡ slot pool j))
    cases j = set-cases pool.clientfd i j (some fd) (omega (arith, valid.width))

    added-held : (j x : ℕ) → slot added j ≡ some x → IsHeld added j x
    unfolding fd_set
    added-held j x h = elim (cases j) [
      | inl (same, e) ↦
          let is : fd ≡ x = cc in
          record {
            upto = subst (λ k. Upto k added.maxi) same (raise_maxi-Upto_self i pool.maxi);
            below = ground arith;
            watched = ground arith;
            small = omega arith;
          }
      | inr (apart, e) ↦
          let old = valid.held j x (sym e ∙ h) in
          record {
            upto = raise_maxi-Upto i j pool.maxi old.upto;
            below = ground (arith, old.below);
            watched = ground (arith, old.watched);
            small = old.small;
          }
    ]

    added-apart : (j k x : ℕ) → slot added j ≡ some x → slot added k ≡ some x → j ≡ k
    added-apart j k x h g = ground (arith, cases j, cases k, valid.apart j k x, fresh j, fresh k)

    added-known :
        (x : ℕ) → added.read_set x ≡ true → (x ≡ listener) ⊎ ((j : ℕ) × (slot added j ≡ some x))
    unfolding fd_set
    added-known x h = elim (ℕ_discrete x fd) [
      | yes same ↦
          inr (
            i,
            rw same (get_or-set_self pool.clientfd i (some fd) none (omega (arith, valid.width))),
          )
      | no differs ↦ elim (valid.known x (ground arith)) [
        | inl e ↦ inl e
        | inr (j, e) ↦ inr (
          j,
          get_or-set_ne pool.clientfd i j (some fd) none (λ p. cc (ap (λ k. slot pool k) p)) ∙ e,
        )
      ]
    ]

    added-IsValid : IsValid listener added
    unfolding fd_set
    added-IsValid = record {
      width = length-set pool.clientfd i (some fd) ∙ valid.width;
      inside = raise_maxi-Inside i pool.maxi lt valid.inside;
      listens = (ground (arith, valid.listens), ground (arith, valid.listens));
      held = added-held;
      apart = added-apart;
      not_listener = λ j h. ground (arith, cases j, valid.not_listener j);
      known = added-known;
    }

  uncounted : IsValid listener (record pool { nready = pool.nready - 1 })
  uncounted = record {
    width = valid.width;
    inside = valid.inside;
    listens = valid.listens;
    held = λ i x h.
        let old = valid.held i x h in
        record { upto = old.upto; below = old.below; watched = old.watched; small = old.small };
    apart = valid.apart;
    not_listener = valid.not_listener;
    known = valid.known;
  }

module _ (listener fd addr : ℕ) (pool : FdPool) (valid : IsValid listener pool) (small : fd < 1024)
    (other : fd ≢ listener) (fresh : (j : ℕ) → slot pool j ≢ some fd) where
  add_client-found :
      (i : ℕ)
      → find_slot 0 pool.clientfd ≡ some i
      → (i < 1024)
        × (add_client fd addr pool ≡ ok (added listener fd addr i pool valid))
        × IsValid listener (added listener fd addr i pool valid)
  unfolding add_client
  add_client-found i found =
      let (k, e, lt, free) = find_slot-free pool.clientfd 0 i found in
      let same : i ≡ k = omega arith in
      let free' : slot pool i ≡ none = ap (λ j. slot pool j) same ∙ free in
      (
        omega (arith, valid.width),
        rw (found, add_client, lt→ltb fd 1024 small),
        added-IsValid listener fd addr i pool valid (omega (arith, valid.width)) free' small other
            fresh,
      )

  -- Adding a descriptor below 1024 that is neither the listener nor held by a valid pool returns
  -- a valid pool, whether or not a slot is free.
  pub add_client-IsValid : Returns (add_client fd addr pool) (IsValid listener)
  unfolding add_client
  add_client-IsValid = elim (Option-cases (find_slot 0 pool.clientfd)) [
    | inl full ↦ (
      record pool { nready = pool.nready - 1 },
      rw (full, add_client),
      uncounted listener fd addr 0 pool valid,
    )
    | inr (i, found) ↦
        let (lt, run, after) = add_client-found i found in
        (added listener fd addr i pool valid, run, after)
  ]

  -- If a valid pool has a free slot, adding a descriptor below 1024 that is neither the listener
  -- nor held puts it into a slot not above maxi, and it is then watched and not above maxfd.
  pub add_client-stores :
      (j : ℕ)
      → j < 1024
      → slot pool j ≡ none
      → Returns
          (add_client fd addr pool)
          λ after. (i : ℕ) × (slot after i ≡ some fd) × IsHeld after i fd
  add_client-stores j lt free = elim (Option-cases (find_slot 0 pool.clientfd)) [
    | inl full ↦ absurd (find_slot-none pool.clientfd 0 j full (omega (arith, valid.width)) free)
    | inr (i, found) ↦
        let (below, run, after) = add_client-found i found in
        let here = get_or-set_self pool.clientfd i (some fd) none (omega (arith, valid.width)) in
        (added listener fd addr i pool valid, run, (i, here, after.held i fd here))
  ]
