-- ===== src/Pool/Turn/Rule.antt =====
-- A rule for the main loop: what every request that is handled keeps is kept by the loop.
use net_prog.Prelude.{
  ℕ, zero, suc, ◌-◌, ◌≡◌, inl, inr, Bool, true, false, ◌&&◌, Option, none, some, List, [], ◌∷◌, All,
  ltb, ◌==◌, if◌then◌else◌, get_elem?, Bool-cases, Option-cases,
}
use mathlib.Core.Path.{subst}
use net_prog.Run.{Run, ok, fault, ◌>>=◌, bind-ok, ok_same, fault-ok}
use net_prog.Pool.{FdPool, Server, close_client, serve, visit, scan, rounds_of, handle_client_fds}
use net_prog.Pool.Turn.{Turn, greet, poll, serve_turns, selected}

-- What to show of a server for a property of its state.
pub record Keeping {ℓ κ} {S : Type ℓ} (Inv : S → Type κ) (server : Server S) : Type (ℓ ⊔ κ) where
  pub close : (i : ℕ) (s : S) → Inv s → Inv (server.on_close i s)
  pub request :
      (fd i : ℕ) (pool : FdPool) (s s' : S) → Inv s → server.on_request fd i pool s ≡ ok s' → Inv s'

module _ {ℓ κ} {S : Type ℓ} (Inv : S → Type κ) where
  -- A run that returns leaves a state with the property.
  abbrev Leaves {μ} : {A : Type μ} → Run (A × S) → Type (ℓ ⊔ κ ⊔ μ)
  Leaves {A} run = (r : A × S) → run ≡ ok r → Inv r.1

  Leaves-ok {μ} : {A : Type μ} (a : A) (s : S) → Inv s → Leaves (ok (a, s))
  Leaves-ok a s inv r h = subst (λ x. Inv x.1) (ok_same h) inv

  module _ (server : Server S) (keeping : Keeping Inv server) where
    abbrev Steps : Run (Bool × FdPool × S) → Type (ℓ ⊔ κ)
    Steps run = (r : Bool × FdPool × S) → run ≡ ok r → Inv r.2

    Steps-ok : (b : Bool) (pool : FdPool) (s : S) → Inv s → Steps (ok (b, pool, s))
    Steps-ok b pool s inv r h = subst (λ x. Inv x.2) (ok_same h) inv

    serve-Steps : (fd i : ℕ) (pool : FdPool) (s : S) → Inv s → Steps (serve server fd i pool s)
    unfolding serve
    serve-Steps fd i pool s inv = by_waiting (server.ioctl fd)
      where
        counted : FdPool
        counted = record pool { nready = pool.nready - 1 }

        by_waiting :
            (waiting : Option ℕ)
            → Steps (elim waiting [
              | none ↦ ok (false, counted, s)
              | some zero ↦ ok (true, close_client fd i counted, server.on_close i s)
              | some (suc n) ↦ server.on_request fd i counted s >>= λ s'. ok (true, counted, s')
            ])
        by_waiting none = Steps-ok false counted s inv
        by_waiting (some zero) =
            Steps-ok true (close_client fd i counted) (server.on_close i s) (keeping.close i s inv)
        by_waiting (some (suc n)) = λ r h.
            let (s', ran, ends) = bind-ok (server.on_request fd i counted s) _ r h in
            Steps-ok true counted s' (keeping.request fd i counted s s' inv ran) r ends

    pub visit-Steps : (i : ℕ) (pool : FdPool) (s : S) → Inv s → Steps (visit server i pool s)
    unfolding visit
    visit-Steps i pool s inv = by_slot (get_elem? pool.clientfd i)
      where
        by_slot :
            (slot : Option (Option ℕ))
            → Steps (elim slot [
              | none ↦ fault
              | some none ↦ ok (true, pool, s)
              | some (some fd) ↦
                  if ltb 0 fd && pool.ready_set fd
                  then serve server fd i pool s
                  else ok (true, pool, s)
            ])
        by_slot none = λ r h. absurd (fault-ok h)
        by_slot (some none) = Steps-ok true pool s inv
        by_slot (some (some fd)) = elim (Bool-cases (ltb 0 fd && pool.ready_set fd)) [
          | inl ready ↦ rw ready (serve-Steps fd i pool s inv)
          | inr quiet ↦ rw quiet (Steps-ok true pool s inv)
        ]

    goes_on-Leaves :
        (goes_on : Bool) (pool : FdPool) (s : S) (next : Run (FdPool × S))
        → Inv s
        → Leaves next
        → Leaves (elim goes_on [ true ↦ next | false ↦ ok (pool, s) ])
    goes_on-Leaves true pool s next inv leaves r h = leaves r h
    goes_on-Leaves false pool s next inv leaves r h = Leaves-ok pool s inv r h

    pub scan-Leaves :
        (rounds i : ℕ) (pool : FdPool) (s : S) → Inv s → Leaves (scan server rounds i pool s)
    unfolding scan
    scan-Leaves zero i pool s inv = Leaves-ok pool s inv
    scan-Leaves (suc rounds) i pool s inv = elim (Bool-cases (pool.nready == 0)) [
      | inl idle ↦ rw idle (Leaves-ok pool s inv)
      | inr busy ↦ rw busy λ r h.
          let (v, ran, rest) = bind-ok (visit server i pool s) _ r h in
          let inv' = visit-Steps i pool s inv v ran in
          goes_on-Leaves v.0 v.1 v.2 (scan server rounds (suc i) v.1 v.2) inv'
            (scan-Leaves rounds (suc i) v.1 v.2 inv') r rest
    ]

    pub handle_client_fds-Leaves :
        (pool : FdPool) (s : S) → Inv s → Leaves (handle_client_fds server pool s)
    unfolding handle_client_fds
    handle_client_fds-Leaves pool s inv = scan-Leaves (rounds_of pool.maxi) 0 pool s inv

  pub poll-Leaves :
      (listener : ℕ) (turn : Turn S) (pool : FdPool) (s : S)
      → Keeping Inv turn.server
      → Inv s
      → Leaves (poll listener turn pool s)
  unfolding poll
  poll-Leaves listener turn pool s keeping inv =
      elim (Option-cases (turn.select pool.maxfd pool.read_set)) [
        | inl failed ↦ rw (poll, failed) (Leaves-ok (selected pool.read_set none pool) s inv)
        | inr (answer, came) ↦
            rw (poll, came)
              λ r h.
                let (greeted, ran, rest) =
                  bind-ok (greet listener turn.accept (selected pool.read_set (some answer) pool)) _
                    r h in
                elim (Bool-cases (greeted.nready == 0)) [
                  | inl idle ↦ Leaves-ok greeted s inv r (rw idle at rest)
                  | inr busy ↦
                      handle_client_fds-Leaves turn.server keeping greeted s inv r (rw busy at rest)
                ]
      ]

  -- Rounds of the main loop that return leave a state with the property.
  pub serve_turns-Leaves :
      (listener : ℕ) (turns : List (Turn S)) (pool : FdPool) (s : S)
      → All (λ turn. Keeping Inv turn.server) turns
      → Inv s
      → Leaves (serve_turns listener turns pool s)
  unfolding serve_turns
  serve_turns-Leaves listener [] pool s all inv r h = Leaves-ok pool s inv r h
  serve_turns-Leaves listener (turn ∷ turns) pool s (keeping, all) inv r h =
      let (v, ran, rest) = bind-ok (poll listener turn pool s) _ r h in
      serve_turns-Leaves listener turns v.0 v.1 all
        (poll-Leaves listener turn pool s keeping inv v ran) r rest
