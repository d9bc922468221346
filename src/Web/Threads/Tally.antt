-- ===== src/Web/Threads/Tally.antt =====
-- Weights of the threads and of jobs, summed up.
use net_prog.Prelude.{
  ℕ, zero, suc, ◌+◌, ◌≡◌, ◌≢◌, refl, sym, ap, ◌∙◌, ◌⊎◌, inl, inr, some, List, [], ◌∷◌, ◌++◌, arith,
  get_elem?, set, replicate,
}
use native.Mathlib.Decide.{ℕ_discrete}

module _ {A : Type 0} (w : A → ℕ) where
  unfoldable pub tally : List A → ℕ
  tally [] = 0
  tally (x ∷ xs) = w x + tally xs

  pub tally-append : (xs ys : List A) → tally (xs ++ ys) ≡ tally xs + tally ys
  unfolding tally
  tally-append [] ys = omega arith
  tally-append (x ∷ xs) ys = omega (arith, tally-append xs ys)

  pub tally-snoc : (xs : List A) (x : A) → tally (xs ++ x ∷ []) ≡ tally xs + w x
  unfolding tally
  tally-snoc xs x = omega (arith, tally-append xs (x ∷ []))

  -- One thread moves.
  pub tally-set :
      (xs : List A) (i : ℕ) (x y : A)
      → get_elem? xs i ≡ some x
      → tally (set xs i y) + w x ≡ tally xs + w y
  unfolding tally
  tally-set [] i x y h = cc
  tally-set (z ∷ xs) zero x y h = let e : z ≡ x = cc in rw e (omega arith)
  tally-set (z ∷ xs) (suc i) x y h = omega (arith, tally-set xs i x y h)

  pub tally-replicate : (n : ℕ) (x : A) → w x ≡ 0 → tally (replicate n x) ≡ 0
  unfolding tally
  tally-replicate zero x h = refl
  tally-replicate (suc n) x h = omega (arith, tally-replicate n x h)

  -- What is among them weighs no more than all.
  pub tally-get :
      (xs : List A) (i : ℕ) (x : A) → get_elem? xs i ≡ some x → (rest : ℕ) × (tally xs ≡ w x + rest)
  unfolding tally
  tally-get [] i x h = cc
  tally-get (z ∷ xs) zero x h = let e : z ≡ x = cc in (tally xs, rw e)
  tally-get (z ∷ xs) (suc i) x h =
      let (rest, e) = tally-get xs i x h in (w z + rest, omega (arith, e))

module _ {A : Type 0} where
  pub get_elem?-set_self :
      (xs : List A) (i : ℕ) (x y : A) → get_elem? xs i ≡ some x → get_elem? (set xs i y) i ≡ some y
  get_elem?-set_self [] i x y h = cc
  get_elem?-set_self (z ∷ xs) zero x y h = refl
  get_elem?-set_self (z ∷ xs) (suc i) x y h = get_elem?-set_self xs i x y h

  pub get_elem?-set_ne :
      (xs : List A) (i j : ℕ) (y : A) → i ≢ j → get_elem? (set xs i y) j ≡ get_elem? xs j
  get_elem?-set_ne [] i j y h = refl
  get_elem?-set_ne (z ∷ xs) zero zero y h = absurd (h refl)
  get_elem?-set_ne (z ∷ xs) zero (suc j) y h = refl
  get_elem?-set_ne (z ∷ xs) (suc i) zero y h = refl
  get_elem?-set_ne (z ∷ xs) (suc i) (suc j) y h = get_elem?-set_ne xs i j y (λ e. h (ap suc e))

  -- What is read after one thread has moved is its new place, or was there before.
  pub get_elem?-set-cases :
      (xs : List A) (i j : ℕ) (x y z : A)
      → get_elem? xs i ≡ some x
      → get_elem? (set xs i y) j ≡ some z
      → ((i ≡ j) × (y ≡ z)) ⊎ ((i ≢ j) × (get_elem? xs j ≡ some z))
  get_elem?-set-cases xs i j x y z here h = elim (ℕ_discrete i j) [
    | yes same ↦
        let found : some y ≡ some z =
          sym (get_elem?-set_self xs i x y here) ∙ ap (λ k. get_elem? (set xs i y) k) same ∙ h in
        inl (same, cc)
    | no other ↦ inr (other, sym (get_elem?-set_ne xs i j y other) ∙ h)
  ]
