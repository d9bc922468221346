-- ===== src/Wire/RoundTrip.antt =====
-- What is written to the wire or to memory is read back.
use net_prog.Prelude.{
  ℕ, zero, suc, ◌%◌, ◌^◌, ◌<◌, ◌≡◌, refl, ◌∙◌, some, [], ◌∷◌, ◌++◌, arith, length, take,
  length-append, take-append, drop, length-drop,
}
use mathlib.Core.List.{append_assoc}
use net_prog.Wire.{Bytes, be16, be32, get16, get32, overlay, c_string, strcpy, IsText}

pub length-be16 : (n : ℕ) → length (be16 n) ≡ 2
unfolding be16
length-be16 n = refl

pub length-be32 : (n : ℕ) → length (be32 n) ≡ 4
unfolding be32
length-be32 n = refl

pub get16-be16 : (n : ℕ) (rest : Bytes) → get16 (be16 n ++ rest) ≡ n % 2 ^ 16
unfolding get16 be16
get16-be16 n rest = omega arith

pub get32-be32 : (n : ℕ) (rest : Bytes) → get32 (be32 n ++ rest) ≡ n % 2 ^ 32
unfolding get32 be32
get32-be32 n rest = omega arith

pub c_string-append : (s rest : Bytes) → IsText s → c_string (s ++ 0 ∷ rest) ≡ some s
unfolding c_string
c_string-append [] rest h = refl
c_string-append (zero ∷ s) rest h = elim h [ ]
c_string-append (suc c ∷ s) rest h = rw (c_string-append s rest h)

pub length-overlay :
    (new old : Bytes) → length new < suc (length old) → length (overlay new old) ≡ length old
unfolding overlay
length-overlay new old h =
    omega (arith, length-append new (drop (length new) old), length-drop (length new) old)

pub length-strcpy : (old s : Bytes) → length s < length old → length (strcpy old s) ≡ length old
unfolding strcpy
length-strcpy old s h = length-overlay (s ++ 0 ∷ []) old (omega (arith, length-append s (0 ∷ [])))

-- A text that was copied into a field of `n` bytes is read from it, whatever follows the field.
pub c_string-strcpy :
    (n : ℕ) (old s rest : Bytes)
    → length old ≡ n
    → IsText s
    → length s < n
    → c_string (take n (strcpy old s ++ rest)) ≡ some s
unfolding strcpy overlay
c_string-strcpy n old s rest size text fits =
    rw (take-append n (strcpy old s) rest (length-strcpy old s (omega arith) ∙ size), append_assoc)
      (c_string-append s _ text)

pub c_string-strcpy_whole : (old s : Bytes) → IsText s → c_string (strcpy old s) ≡ some s
unfolding strcpy overlay
c_string-strcpy_whole old s text = rw append_assoc (c_string-append s _ text)
