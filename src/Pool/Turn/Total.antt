-- ===== src/Pool/Turn/Total.antt =====
-- The main loop with requests that return as long as the server's state is in order.
use net_prog.Prelude.{ℕ, ◌<◌, ◌≡◌, ◌≢◌, refl, sym, ◌∙◌, some, List, [], ◌∷◌, All}
use net_prog.Run.{Run, ok, fault, out_of_fuel, Returns}
use net_prog.Pool.{FdPool, init_pool}
use net_prog.Pool.Valid.{Inside, slot, IsValid}
use net_prog.Pool.Turn.{Turn, serve_turns}
use net_prog.Pool.Turn.Loop.{IsTurn, serve_turns-IsValid}
use net_prog.Pool.Turn.Rule.{Keeping, serve_turns-Leaves}
use net_prog.Pool.Turn.Same.{or_else, Answering, Answering-Keeping, total_turns, serve_turns-same}

module _ {ℓ} {S : Type ℓ} (listener : ℕ) where
  -- `accept` returns a descriptor that no client has and that fits a set.
  abbrev pub IsFresh : Turn S → Type 0
  IsFresh turn =
      (pool : FdPool) (fd addr : ℕ)
      → turn.accept pool ≡ some (fd, addr)
      → (fd < 1024) × (fd ≢ listener) × ((j : ℕ) → slot pool j ≢ some fd)

module _ {ℓ κ} {S : Type ℓ} (Inv : S → Type κ) (listener : ℕ) where
  total_turns-IsTurn :
      (turns : List (Turn S))
      → All (IsFresh listener) turns
      → All (IsTurn listener) (total_turns Inv turns)
  total_turns-IsTurn [] all = tt
  total_turns-IsTurn (turn ∷ turns) (fresh, all) = (
    record {
      fresh = fresh;
      answers = λ fd i pool s. or_else-ok (turn.server.on_request fd i pool s) s;
    },
    total_turns-IsTurn turns all,
  )
    where
      or_else-ok : (run : Run S) (s : S) → (s' : S) × (or_else run s ≡ ok s')
      or_else-ok fault s = (s, refl)
      or_else-ok out_of_fuel s = (s, refl)
      or_else-ok (ok s') s = (s', refl)

  turns-Keeping :
      (turns : List (Turn S))
      → All (λ turn. Answering Inv turn.server) turns
      → All (λ turn. Keeping Inv turn.server) turns
  turns-Keeping [] all = tt
  turns-Keeping (turn ∷ turns) (is, all) =
      (Answering-Keeping Inv turn.server is, turns-Keeping turns all)

  -- If all requests return and keep a property of the state, so do any rounds of the main loop
  -- from a new pool, and the pool is valid after them.
  pub serve_turns-Returns :
      (turns : List (Turn S)) (garbage : FdPool) (s : S)
      → All (IsFresh listener) turns
      → All (λ turn. Answering Inv turn.server) turns
      → Inside garbage.maxi
      → Inv s
      → Returns
          (serve_turns listener turns (init_pool listener garbage) s)
          λ r. IsValid listener r.0 × Inv r.1
  serve_turns-Returns turns garbage s fresh is inside inv =
      let (r, run, valid) =
        serve_turns-IsValid listener (total_turns Inv turns) garbage s
          (total_turns-IsTurn turns fresh) inside in
      let ran : serve_turns listener turns (init_pool listener garbage) s ≡ ok r =
        sym (serve_turns-same Inv listener turns (init_pool listener garbage) s is inv) ∙ run in
      (
        r,
        ran,
        (
          valid,
          serve_turns-Leaves Inv listener turns (init_pool listener garbage) s
              (turns-Keeping turns is) inv r ran,
        ),
      )
