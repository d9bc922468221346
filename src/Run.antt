-- ===== src/Run.antt =====
-- What a run of C code comes to: a result, undefined behaviour, or a loop that outlasts its fuel.
use net_prog.Prelude.{◌≡◌, ◌≢◌, refl}

pub data Run {ℓ} (V : Type ℓ) : Type ℓ where
  -- undefined behaviour, such as an access outside an array
  fault : Run V
  -- the rounds that were granted did not suffice
  out_of_fuel : Run V
  ok : V → Run V

-- The code `next` runs on the result, if there is one.
infixl 5 ◌>>=◌
abbrev pub ◌>>=◌ {μ ν} : {V : Type μ} {W : Type ν} (run : Run V) (next : V → Run W) → Run W
fault >>= next = fault
out_of_fuel >>= next = out_of_fuel
ok value >>= next = next value

-- The run has a result with the property `Post`.
abbrev pub Returns {μ ν} : {V : Type μ} (run : Run V) (Post : V → Type ν) → Type (μ ⊔ ν)
Returns {V} run Post = (value : V) × (run ≡ ok value) × Post value

module _ {μ ν} {V : Type μ} {W : Type ν} where
  pub >>=-assoc {ρ} :
      {X : Type ρ} (run : Run V) (next : V → Run W) (last : W → Run X)
      → ((run >>= next) >>= last) ≡ (run >>= λ value. next value >>= last)
  >>=-assoc fault next last = refl
  >>=-assoc out_of_fuel next last = refl
  >>=-assoc (ok value) next last = refl

  pub >>=-congr :
      (run : Run V) {next other : V → Run W}
      → ((value : V) → next value ≡ other value)
      → (run >>= next) ≡ (run >>= other)
  >>=-congr fault same = refl
  >>=-congr out_of_fuel same = refl
  >>=-congr (ok value) same = same value

  -- What comes first of a run that has a result.
  pub bind-ok :
      (run : Run V) (next : V → Run W) (w : W)
      → (run >>= next) ≡ ok w
      → (v : V) × (run ≡ ok v) × (next v ≡ ok w)
  bind-ok fault next w h = cc
  bind-ok out_of_fuel next w h = cc
  bind-ok (ok v) next w h = (v, refl, h)

module _ {μ ν} {V : Type μ} {W : Type ν} where
  -- Code that goes on in the same way from what the run comes to.
  pub >>=-congr_ok :
      (run : Run V) (next other : V → Run W)
      → ((value : V) → run ≡ ok value → next value ≡ other value)
      → (run >>= next) ≡ (run >>= other)
  >>=-congr_ok fault next other same = refl
  >>=-congr_ok out_of_fuel next other same = refl
  >>=-congr_ok (ok value) next other same = same value refl

module _ {μ} {V : Type μ} where
  pub ok_same : {v w : V} → ok v ≡ ok w → v ≡ w
  ok_same e = cc

  pub fault-ok : {v : V} → fault ≢ ok v
  fault-ok e = cc
