-- ===== src/Pool/Turn/Same.antt =====
-- A server whose requests return, as long as its state is in order, does what one does that goes on
-- after every request.
use net_prog.Prelude.{
  ℕ, zero, suc, ◌-◌, ◌≡◌, refl, sym, ap, ◌∙◌, inl, inr, Bool, true, false, ◌&&◌, Option, none, some,
  List, [], ◌∷◌, All, ltb, ◌==◌, if◌then◌else◌, get_elem?, Bool-cases, Option-cases,
}
use net_prog.Run.{Run, ok, fault, out_of_fuel, >>=-congr_ok, ok_same}
use net_prog.Pool.{FdPool, Server, serve, visit, scan, rounds_of, handle_client_fds}
use mathlib.Core.Path.{subst}
use net_prog.Pool.Scan.{ioctl-cases}
use net_prog.Pool.Turn.{Turn, greet, poll, serve_turns, selected}
use net_prog.Pool.Turn.Rule.{Keeping, visit-Steps, poll-Leaves}

-- The state after a request, or before it if the request does not return.
abbrev pub or_else {ℓ} : {S : Type ℓ} → Run S → S → Run S
or_else fault s = ok s
or_else out_of_fuel s = ok s
or_else (ok s') s = ok s'

module _ {ℓ κ} {S : Type ℓ} (Inv : S → Type κ) where
  -- Requests return and keep the property.
  pub record Answering (server : Server S) : Type (ℓ ⊔ κ) where
    pub close : (i : ℕ) (s : S) → Inv s → Inv (server.on_close i s)
    pub answers :
        (fd i : ℕ) (pool : FdPool) (s : S)
        → Inv s
        → (s' : S) × (server.on_request fd i pool s ≡ ok s') × Inv s'

  pub Answering-Keeping : (server : Server S) → Answering server → Keeping Inv server
  Answering-Keeping server is = record {
    close = is.close;
    request = λ fd i pool s s' inv ran.
        let (s₁, run, inv₁) = is.answers fd i pool s inv in
        subst Inv (ok_same (sym run ∙ ran)) inv₁;
  }

  abbrev pub total_server : Server S → Server S
  total_server server = record server {
    on_request = λ fd i pool s. or_else (server.on_request fd i pool s) s;
  }

  abbrev pub total_turn : Turn S → Turn S
  total_turn turn = record turn { server = total_server turn.server }

  abbrev pub total_turns : List (Turn S) → List (Turn S)
  total_turns [] = []
  total_turns (turn ∷ turns) = total_turn turn ∷ total_turns turns

  module _ (server : Server S) (is : Answering server) where
    abbrev total : Server S
    total = total_server server

    serve-same :
        (fd i : ℕ) (pool : FdPool) (s : S)
        → Inv s
        → serve total fd i pool s ≡ serve server fd i pool s
    unfolding serve
    serve-same fd i pool s inv = elim (ioctl-cases (server.ioctl fd)) [
      | inl failed ↦ simp (serve, failed)
      | inr (inl closed) ↦ simp (serve, closed)
      | inr (inr (n, waits)) ↦
          let (s', run, inv') = is.answers fd i (record pool { nready = pool.nready - 1 }) s inv in
          simp (serve, waits, run)
    ]

    -- What a visit comes to, for what the slot holds.
    abbrev visited :
        Option (Option ℕ) → FdPool → S → (ℕ → Run (Bool × FdPool × S)) → Run (Bool × FdPool × S)
    visited none pool s serves = fault
    visited (some none) pool s serves = ok (true, pool, s)
    visited (some (some fd)) pool s serves =
        if ltb 0 fd && pool.ready_set fd then serves fd else ok (true, pool, s)

    visited-same :
        (at_slot : Option (Option ℕ)) (pool : FdPool) (s : S)
        (serves others : ℕ → Run (Bool × FdPool × S))
        → ((fd : ℕ) → serves fd ≡ others fd)
        → visited at_slot pool s serves ≡ visited at_slot pool s others
    visited-same none pool s serves others same = refl
    visited-same (some none) pool s serves others same = refl
    visited-same (some (some fd)) pool s serves others same =
        ap (λ run. if ltb 0 fd && pool.ready_set fd then run else ok (true, pool, s)) (same fd)

    visit-visited :
        (other : Server S) (i : ℕ) (pool : FdPool) (s : S) (at_slot : Option (Option ℕ))
        → get_elem? pool.clientfd i ≡ at_slot
        → visit other i pool s ≡ visited at_slot pool s (λ fd. serve other fd i pool s)
    unfolding visit
    visit-visited other i pool s none here = simp (visit, here)
    visit-visited other i pool s (some none) here = simp (visit, here)
    visit-visited other i pool s (some (some fd)) here = simp (visit, here)

    visit-same :
        (i : ℕ) (pool : FdPool) (s : S) → Inv s → visit total i pool s ≡ visit server i pool s
    visit-same i pool s inv =
        let at_slot = get_elem? pool.clientfd i in
        visit-visited total i pool s at_slot refl
        ∙ visited-same at_slot pool s (λ fd. serve total fd i pool s)
            (λ fd. serve server fd i pool s) (λ fd. serve-same fd i pool s inv)
        ∙ sym (visit-visited server i pool s at_slot refl)

    goes_on-same :
        (goes_on : Bool) (pool : FdPool) (s : S) (next other : Run (FdPool × S))
        → next ≡ other
        → ◌≡◌ {A = Run (FdPool × S)}
            (elim goes_on as (λ b. Run (FdPool × S)) [ true ↦ next | false ↦ ok (pool, s) ])
            (elim goes_on as (λ b. Run (FdPool × S)) [ true ↦ other | false ↦ ok (pool, s) ])
    goes_on-same true pool s next other same = same
    goes_on-same false pool s next other same = refl

    scan-same :
        (rounds i : ℕ) (pool : FdPool) (s : S)
        → Inv s
        → scan total rounds i pool s ≡ scan server rounds i pool s
    unfolding scan
    scan-same zero i pool s inv = refl
    scan-same (suc rounds) i pool s inv = elim (Bool-cases (pool.nready == 0)) [
      | inl idle ↦ rw idle
      | inr busy ↦
          rw (busy, visit-same i pool s inv)
            (>>=-congr_ok (visit server i pool s) _ _ λ v ran.
              let inv' = visit-Steps Inv server (Answering-Keeping server is) i pool s inv v ran in
              goes_on-same v.0 v.1 v.2 (scan total rounds (suc i) v.1 v.2)
                (scan server rounds (suc i) v.1 v.2) (scan-same rounds (suc i) v.1 v.2 inv'))
    ]

    handle_client_fds-same :
        (pool : FdPool) (s : S)
        → Inv s
        → handle_client_fds total pool s ≡ handle_client_fds server pool s
    unfolding handle_client_fds
    handle_client_fds-same pool s inv = scan-same (rounds_of pool.maxi) 0 pool s inv

  module _ (listener : ℕ) where
    poll-same :
        (turn : Turn S) (pool : FdPool) (s : S)
        → Answering turn.server
        → Inv s
        → poll listener (total_turn turn) pool s ≡ poll listener turn pool s
    unfolding poll
    poll-same turn pool s is inv = elim (Option-cases (turn.select pool.maxfd pool.read_set)) [
      | inl failed ↦ simp (poll, failed)
      | inr (answer, came) ↦
          simp (poll, came)
            (>>=-congr_ok (greet listener turn.accept (selected pool.read_set (some answer) pool)) _
              _
              λ greeted ran. elim (Bool-cases (greeted.nready == 0)) [
                | inl idle ↦ rw idle
                | inr busy ↦ rw busy (handle_client_fds-same turn.server is greeted s inv)
              ])
    ]

    pub serve_turns-same :
        (turns : List (Turn S)) (pool : FdPool) (s : S)
        → All (λ turn. Answering turn.server) turns
        → Inv s
        → serve_turns listener (total_turns turns) pool s ≡ serve_turns listener turns pool s
    unfolding serve_turns
    serve_turns-same [] pool s all inv = refl
    serve_turns-same (turn ∷ turns) pool s (is, all) inv = rw (poll-same turn pool s is inv) (
        >>=-congr_ok (poll listener turn pool s) _ _ λ v ran.
          serve_turns-same turns v.0 v.1 all
            (poll-Leaves Inv listener turn pool s (Answering-Keeping turn.server is) inv v ran))
