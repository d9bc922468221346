-- ===== src/Pool/Scan.antt =====
-- The loop over the descriptors that are ready.
use net_prog.Prelude.{
  ℕ, zero, suc, ◌+◌, ◌-◌, ◌<◌, ◌≤◌, ◌≡◌, refl, ap, sym, ◌∙◌, ◌⊎◌, inl, inr, Bool, true, false, ◌&&◌,
  Option, none, some, List, [], ◌∷◌, arith, ltb, if◌then◌else◌, length, get_elem?, set, take, drop,
  length-set, Bool-cases, ne→==, ==_iff,
}
use native.Mathlib.Decide.{ℕ_discrete}
use net_prog.Run.{Run, ok, ◌>>=◌, >>=-congr, >>=-assoc}
use net_prog.Pool.{
  FdSet, FdPool, Server, close_client, serve, visit, scan, rounds_of, handle_client_fds,
}

-- The clients that are ready among some slots, the first of which has index `i`: descriptor and
-- slot of each, in order.
unfoldable pub ready_clients : FdSet → ℕ → List (Option ℕ) → List (ℕ × ℕ)
ready_clients ready i [] = []
ready_clients ready i (none ∷ fds) = ready_clients ready (suc i) fds
ready_clients ready i (some fd ∷ fds) =
    if ltb 0 fd && ready fd
    then (fd, i) ∷ ready_clients ready (suc i) fds
    else ready_clients ready (suc i) fds

module _ {ℓ} {A : Type ℓ} where
  -- The element at an index, and what follows it.
  pub split_at :
      (xs : List A) (i : ℕ)
      → i < length xs
      → (x : A) × (get_elem? xs i ≡ some x) × (drop i xs ≡ x ∷ drop (suc i) xs)
  split_at [] i h = absurd (omega arith)
  split_at (x ∷ xs) zero h = (x, refl, refl)
  split_at (x ∷ xs) (suc i) h = split_at xs i (omega arith)

  pub drop-set : (xs : List A) (i : ℕ) (v : A) → drop (suc i) (set xs i v) ≡ drop (suc i) xs
  drop-set [] i v = refl
  drop-set (x ∷ xs) zero v = refl
  drop-set (x ∷ xs) (suc i) v = drop-set xs i v

empty_of_length {ℓ} : {A : Type ℓ} (xs : List A) → length xs ≡ 0 → xs ≡ []
empty_of_length [] h = refl
empty_of_length (x ∷ xs) h = absurd (omega arith)

pub ioctl-cases : (o : Option ℕ) → (o ≡ none) ⊎ ((o ≡ some 0) ⊎ ((n : ℕ) × (o ≡ some (suc n))))
ioctl-cases none = inl refl
ioctl-cases (some zero) = inr (inl refl)
ioctl-cases (some (suc n)) = inr (inr (n, refl))

module _ {ℓ} {S : Type ℓ} (server : Server S) where
  -- The clients are served one after another, until one stops the loop.
  unfoldable pub serve_all : List (ℕ × ℕ) → FdPool → S → Run (FdPool × S)
  serve_all [] pool s = ok (pool, s)
  serve_all ((fd, i) ∷ clients) pool s = do
    (goes_on, pool', s') ← serve server fd i pool s
    elim goes_on [ true ↦ serve_all clients pool' s' | false ↦ ok (pool', s') ]

  -- What a round on a ready client leaves of the pool.
  record Served (i : ℕ) (pool after : FdPool) : Type 0 where
    behind : drop (suc i) after.clientfd ≡ drop (suc i) pool.clientfd
    as_long : length after.clientfd ≡ length pool.clientfd
    same_ready : after.ready_set ≡ pool.ready_set
    counted : after.nready ≡ pool.nready - 1

  serve-Served :
      (fd i : ℕ) (pool : FdPool) (s : S) (k l : Bool × FdPool × S → Run (FdPool × S))
      → ((b : Bool) (after : FdPool) (s' : S)
          → Served i pool after
          → k (b, after, s') ≡ l (b, after, s'))
      → (serve server fd i pool s >>= k) ≡ (serve server fd i pool s >>= l)
  unfolding serve close_client
  serve-Served fd i pool s k l same = elim (ioctl-cases (server.ioctl fd)) [
    | inl e ↦ rw (e, serve) (same false _ s uncounted)
    | inr (inl e) ↦ rw (e, serve) (same true _ (server.on_close i s) closed)
    | inr (inr (n, e)) ↦
        rw (e, serve)
          (>>=-assoc (server.on_request fd i (record pool { nready = pool.nready - 1 }) s) _ k
            ∙ >>=-congr (server.on_request fd i (record pool { nready = pool.nready - 1 }) s)
                (λ s'. same true _ s' uncounted)
            ∙ sym (
                >>=-assoc (server.on_request fd i (record pool { nready = pool.nready - 1 }) s) _
                  l))
  ]
    where
      uncounted : Served i pool (record pool { nready = pool.nready - 1 })
      uncounted = record { behind = refl; as_long = refl; same_ready = refl; counted = refl }

      closed : Served i pool (close_client fd i (record pool { nready = pool.nready - 1 }))
      closed = record {
        behind = drop-set pool.clientfd i none;
        as_long = length-set pool.clientfd i none;
        same_ready = refl;
        counted = refl;
      }

  abbrev ahead : ℕ → ℕ → FdPool → List (ℕ × ℕ)
  ahead rounds i pool = ready_clients pool.ready_set i (take rounds (drop i pool.clientfd))

  ready_clients-cons :
      (rounds i : ℕ) (pool : FdPool) (x : Option ℕ)
      → drop i pool.clientfd ≡ x ∷ drop (suc i) pool.clientfd
      → ahead (suc rounds) i pool
        ≡ ready_clients pool.ready_set i (x ∷ take rounds (drop (suc i) pool.clientfd))
  ready_clients-cons rounds i pool x e = rw e

  behind_ready : ℕ → ℕ → FdPool → Option ℕ → List (ℕ × ℕ)
  behind_ready rounds i pool x =
      ready_clients pool.ready_set i (x ∷ take rounds (drop (suc i) pool.clientfd))

  -- The rest of the loop, and the rest of the clients, after the client in slot `i`.
  module _ (rounds i : ℕ) (pool : FdPool)
      (rest : (after : FdPool) (s : S)
        → suc i + rounds ≤ length after.clientfd
        → after.nready ≡ length (ahead rounds (suc i) after)
        → scan server rounds (suc i) after s ≡ serve_all (ahead rounds (suc i) after) after s)
      (fits : suc i + rounds ≤ length pool.clientfd) (s : S) where
    scan-serve_all_ready :
        (fd : ℕ)
        → get_elem? pool.clientfd i ≡ some (some fd)
        → (ltb 0 fd && pool.ready_set fd) ≡ true
        → pool.nready ≡ suc (length (ahead rounds (suc i) pool))
        → scan server (suc rounds) i pool s ≡ serve_all ((fd, i) ∷ ahead rounds (suc i) pool) pool s
    unfolding scan serve_all visit
    scan-serve_all_ready fd here test n =
        rw (ne→== pool.nready 0 (omega arith), here, visit, test)
          (serve-Served fd i pool s _ _ go_on)
      where
        same_ahead :
            (after : FdPool)
            → Served i pool after
            → ahead rounds (suc i) after ≡ ahead rounds (suc i) pool
        same_ahead after d = rw (d.same_ready, d.behind)

        go_on :
            (b : Bool) (after : FdPool) (s' : S)
            → Served i pool after
            → ◌≡◌ {A = Run (FdPool × S)}
                (elim b [ true ↦ scan server rounds (suc i) after s' | false ↦ ok (after, s') ])
                (elim b [
                  | true ↦ serve_all (ahead rounds (suc i) pool) after s'
                  | false ↦ ok (after, s')
                ])
        go_on true after s' d =
            let e = same_ahead after d in
            rest after s' (omega (arith, d.as_long)) (omega (arith, d.counted, ap length e)) ∙ rw e
        go_on false after s' d = refl

    scan-serve_all_skip :
        (x : Option ℕ)
        → visit server i pool s ≡ ok (true, pool, s)
        → pool.nready ≡ length (ahead rounds (suc i) pool)
        → scan server (suc rounds) i pool s ≡ serve_all (ahead rounds (suc i) pool) pool s
    unfolding scan serve_all
    scan-serve_all_skip x skipped n = elim (ℕ_discrete pool.nready 0) [
      | yes e ↦ rw ((==_iff pool.nready 0).1 e) (
          ap (λ l. serve_all l pool s)
            (sym (empty_of_length (ahead rounds (suc i) pool) (sym n ∙ e))))
      | no e ↦ rw (ne→== pool.nready 0 e, skipped) (rest pool s fits n)
    ]

    scan-serve_all_slot :
        (x : Option ℕ)
        → get_elem? pool.clientfd i ≡ some x
        → pool.nready ≡ length (behind_ready rounds i pool x)
        → scan server (suc rounds) i pool s ≡ serve_all (behind_ready rounds i pool x) pool s
    unfolding behind_ready ready_clients visit
    scan-serve_all_slot none here n = scan-serve_all_skip none (rw (here, visit)) n
    scan-serve_all_slot (some fd) here n = elim (Bool-cases (ltb 0 fd && pool.ready_set fd)) [
      | inl test ↦ rw test (scan-serve_all_ready fd here test (n ∙ rw test))
      | inr test ↦ rw test (scan-serve_all_skip (some fd) (rw (here, visit, test)) (n ∙ rw test))
    ]

  -- With as many clients ready as `nready` says, the loop serves exactly these, in order.
  scan-serve_all :
      (rounds i : ℕ) (pool : FdPool) (s : S)
      → i + rounds ≤ length pool.clientfd
      → pool.nready ≡ length (ahead rounds i pool)
      → scan server rounds i pool s ≡ serve_all (ahead rounds i pool) pool s
  unfolding scan serve_all ready_clients behind_ready
  scan-serve_all zero i pool s fits count = refl
  scan-serve_all (suc rounds) i pool s fits count =
      let (x, here, behind) = split_at pool.clientfd i (omega arith) in
      let cons = ready_clients-cons rounds i pool x behind in
      rw cons (
        scan-serve_all_slot rounds i pool
          (λ after s' f n. scan-serve_all rounds (suc i) after s' f n) (omega arith) s x here
          (count ∙ ap length cons))

  -- If nready is the number of ready clients in the slots up to maxi, and maxi lies in the array,
  -- the loop over the descriptors does what serving exactly these clients, in the order of their
  -- slots and once each, does.
  pub handle_client_fds-serve_all :
      (pool : FdPool) (s : S)
      → rounds_of pool.maxi ≤ length pool.clientfd
      → pool.nready
        ≡ length (ready_clients pool.ready_set 0 (take (rounds_of pool.maxi) pool.clientfd))
      → handle_client_fds server pool s
        ≡ serve_all
            (ready_clients pool.ready_set 0 (take (rounds_of pool.maxi) pool.clientfd))
            pool
            s
  unfolding handle_client_fds
  handle_client_fds-serve_all pool s inside count =
      scan-serve_all (rounds_of pool.maxi) 0 pool s (omega arith) count
