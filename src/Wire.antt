-- ===== src/Wire.antt =====
-- Bytes on the wire and in memory: network byte order, C strings, and copies over a buffer.
-- A byte is a number below 256. `htons` and `htonl` store a number with its high byte first and
-- `ntohs` and `ntohl` read it back, so a field in network order is modelled by its bytes.
pub mod RoundTrip
use net_prog.Prelude.{
  ℕ, zero, suc, ◌+◌, ◌*◌, ◌/◌, ◌%◌, ◌^◌, Option, none, some, List, [], ◌∷◌, ◌++◌, length, drop,
}

abbrev pub Bytes : Type 0
Bytes = List ℕ

unfoldable pub be16 : ℕ → Bytes
be16 n = (n / 2 ^ 8 % 2 ^ 8) ∷ (n % 2 ^ 8) ∷ []

unfoldable pub be32 : ℕ → Bytes
be32 n = (n / 2 ^ 24 % 2 ^ 8) ∷ (n / 2 ^ 16 % 2 ^ 8) ∷ (n / 2 ^ 8 % 2 ^ 8) ∷ (n % 2 ^ 8) ∷ []

-- The field at the start of some bytes; a caller sees to it that they are there.
unfoldable pub get16 : Bytes → ℕ
get16 (a ∷ b ∷ rest) = a * 2 ^ 8 + b
get16 rest = 0

unfoldable pub get32 : Bytes → ℕ
get32 (a ∷ b ∷ c ∷ d ∷ rest) = a * 2 ^ 24 + b * 2 ^ 16 + c * 2 ^ 8 + d
get32 rest = 0

-- Copying `new` to the start of a buffer that holds `old`.
unfoldable pub overlay : Bytes → Bytes → Bytes
overlay new old = new ++ drop (length new) old

-- The C string at the start of some bytes; `none` if no NUL ends it within them.
unfoldable pub c_string : Bytes → Option Bytes
c_string [] = none
c_string (zero ∷ rest) = some []
c_string (suc c ∷ rest) = elim (c_string rest) [ none ↦ none | some s ↦ some (suc c ∷ s) ]

-- `strcpy(dst, s)`: the bytes behind the NUL stay as they were.
unfoldable pub strcpy : Bytes → Bytes → Bytes
unfolding overlay
strcpy old s = overlay (s ++ 0 ∷ []) old

-- No byte of a C string is NUL.
abbrev pub IsText : Bytes → Type 0
IsText [] = Unit
IsText (zero ∷ s) = ⊥
IsText (suc c ∷ s) = IsText s
