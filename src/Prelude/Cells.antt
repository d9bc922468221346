-- ===== src/Prelude/Cells.antt =====
-- Cells of a fixed array that hold something: their number, and the pigeonhole on it.
use Prim.Native.Nat.{ℕ, zero, suc, ◌+◌, ◌<◌, ◌≤◌}
use mathlib.Core.Path.{◌≡◌, refl}
use mathlib.Core.List.{List, [], ◌∷◌}
use mathlib.Core.Option.{Option, none, some}
use native.Mathlib.Omega.{arith}
use net_prog.Prelude.Lists.{length, get_or, set, replicate}

module _ {ℓ} {A : Type ℓ} where
  -- The number of cells in use.
  unfoldable pub occupied : List (Option A) → ℕ
  occupied [] = 0
  occupied (none ∷ xs) = occupied xs
  occupied (some a ∷ xs) = suc (occupied xs)

  pub occupied-le-length : (xs : List (Option A)) → occupied xs ≤ length xs
  unfolding occupied
  occupied-le-length [] = omega arith
  occupied-le-length (none ∷ xs) = omega (arith, occupied-le-length xs)
  occupied-le-length (some a ∷ xs) = omega (arith, occupied-le-length xs)

  pub occupied-set :
      (xs : List (Option A)) (i : ℕ) (a : A)
      → i < length xs
      → get_or xs i none ≡ none
      → occupied (set xs i (some a)) ≡ occupied xs + 1
  unfolding occupied
  occupied-set [] i a h e = absurd (omega arith)
  occupied-set (none ∷ xs) zero a h e = omega arith
  occupied-set (some b ∷ xs) zero a h e = cc
  occupied-set (none ∷ xs) (suc i) a h e = omega (arith, occupied-set xs i a (omega arith) e)
  occupied-set (some b ∷ xs) (suc i) a h e = omega (arith, occupied-set xs i a (omega arith) e)

  -- An array that is not full has a free cell.
  pub free_cell :
      (xs : List (Option A))
      → occupied xs < length xs
      → (i : ℕ) × (i < length xs) × (get_or xs i none ≡ none)
  unfolding occupied
  free_cell [] h = absurd (omega arith)
  free_cell (none ∷ xs) h = (0, omega arith, refl)
  free_cell (some a ∷ xs) h = let (i, lt, e) = free_cell xs (omega arith) in (suc i, omega arith, e)

pub occupied-replicate {ℓ} : (A : Type ℓ) (n : ℕ) → occupied {A = A} (replicate n none) ≡ 0
unfolding occupied
occupied-replicate A zero = refl
occupied-replicate A (suc n) = occupied-replicate A n
