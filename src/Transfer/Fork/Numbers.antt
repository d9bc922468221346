-- ===== src/Transfer/Fork/Numbers.antt =====
-- The decimal digits of a number name it.
use net_prog.Prelude.{
  ℕ, zero, suc, ◌+◌, ◌-◌, ◌*◌, ◌/◌, ◌%◌, ◌^◌, ◌<◌, ◌≡◌, refl, ap, sym, ◌∙◌, [], ◌∷◌, ◌++◌, arith,
  lt→ltb, le→ltb,
}
use native.Mathlib.Decide.{dec_lt}
use net_prog.Transfer.Thread.{digits_within, decimal}
use net_prog.Transfer.Thread.Names.{limit}
use net_prog.Wire.{Bytes}

-- The number that a text of digits stands for, behind digits that were read before.
value_from : ℕ → Bytes → ℕ
value_from before [] = before
value_from before (c ∷ s) = value_from (10 * before + (c - 48)) s

value_from-append :
    (before : ℕ) (s t : Bytes) → value_from before (s ++ t) ≡ value_from (value_from before s) t
unfolding value_from
value_from-append before [] t = refl
value_from-append before (c ∷ s) t = value_from-append (10 * before + (c - 48)) s t

value_from-digits : (rounds n : ℕ) → n < limit rounds → value_from 0 (digits_within rounds n) ≡ n
unfolding value_from digits_within limit
value_from-digits zero n lt = omega arith
value_from-digits (suc rounds) n lt = elim (dec_lt n 10) [
  | yes small ↦ rw (lt→ltb n 10 small) (omega arith)
  | no large ↦
      let front = digits_within rounds (n / 10) in
      rw
        (
          le→ltb n 10 (omega arith),
          value_from-append 0 front ((48 + n % 10) ∷ []),
          value_from-digits rounds (n / 10) (omega arith),
        )
        (omega arith)
]

pub decimal-injective : (n m : ℕ) → n < 10 ^ 10 → m < 10 ^ 10 → decimal n ≡ decimal m → n ≡ m
unfolding decimal limit
decimal-injective n m small small' same =
    sym (value_from-digits 10 n small) ∙ ap (value_from 0) same ∙ value_from-digits 10 m small'
