-- ===== src/Super/Table/Home.antt =====
-- The cell where the probe for a name begins, for names in ASCII and for others.
use net_prog.Prelude.{ℕ, ◌+◌, ◌-◌, ◌%◌, ◌≤◌, ◌<◌, ◌≡◌, ◌≢◌, refl, ◌∙◌, ap, [], ◌∷◌, ◌++◌, arith}
use net_prog.Prelude.Int.{pos, negsuc, ◌+ℤ◌}
use net_prog.Run.{ok, fault}
use net_prog.Super.Table.{Text, hash_table_size, char_value, sum_chars, hash_function, cell_index}

-- Every byte is an ASCII character.
abbrev pub IsAscii : Text → Type 0
IsAscii [] = Unit
IsAscii (c ∷ s) = (c < 128) × IsAscii s

-- Every byte lies outside ASCII, as in a name written in UTF-8 with no Latin letter.
abbrev pub IsHigh : Text → Type 0
IsHigh [] = Unit
IsHigh (c ∷ s) = (128 ≤ c) × (c < 256) × IsHigh s

abbrev pub total : Text → ℕ
total [] = 0
total (c ∷ s) = c + total s

-- How far the bytes lie below 256, in total.
abbrev pub deficit : Text → ℕ
deficit [] = 0
deficit (c ∷ s) = (256 - c) + deficit s

unfoldable pub home : Text → ℕ
home name = total name % hash_table_size

pub home-lt : (name : Text) → home name < 1000
unfolding home
home-lt name = omega arith

pub total-append : (a b : Text) → total (a ++ b) ≡ total a + total b
total-append [] b = omega arith
total-append (c ∷ a) b = omega (arith, total-append a b)

pub IsAscii-append : (a b : Text) → IsAscii a → IsAscii b → IsAscii (a ++ b)
IsAscii-append [] b ha hb = hb
IsAscii-append (c ∷ a) b ha hb = (ha.0, IsAscii-append a b ha.1 hb)

sum_chars-ascii : (s : Text) (n : ℕ) → IsAscii s → sum_chars (pos n) s ≡ pos (n + total s)
unfolding sum_chars
sum_chars-ascii [] n h = ap pos (omega arith)
sum_chars-ascii (c ∷ s) n h =
    let step : pos n +ℤ char_value c ≡ pos (n + c) = ground arith in
    rw step (sum_chars-ascii s (n + c) h.1 ∙ ap pos (omega arith))

-- An ASCII name begins its probe inside the array.
pub hash_function-ascii : (s : Text) → IsAscii s → cell_index (hash_function s) ≡ ok (home s)
unfolding hash_function home cell_index
hash_function-ascii s h = rw (sum_chars-ascii s 0 h) (ap ok (omega arith))

sum_chars-high : (s : Text) (n : ℕ) → IsHigh s → sum_chars (negsuc n) s ≡ negsuc (n + deficit s)
unfolding sum_chars
sum_chars-high [] n h = ap negsuc (omega arith)
sum_chars-high (c ∷ s) n h =
    let step : negsuc n +ℤ char_value c ≡ negsuc (n + (256 - c)) = ground arith in
    rw step (sum_chars-high s (n + (256 - c)) h.2 ∙ ap negsuc (omega arith))

-- A name of bytes outside ASCII has a negative hash, unless that is a multiple of the size.
pub hash_function-high :
    (s : Text) → IsHigh s → deficit s % 1000 ≢ 0 → cell_index (hash_function s) ≡ fault
unfolding hash_function cell_index sum_chars
hash_function-high [] h ne = absurd (ne refl)
hash_function-high (c ∷ s) h ne =
    let step : pos 0 +ℤ char_value c ≡ negsuc (255 - c) = ground arith in
    rw (step, sum_chars-high s (255 - c) h.2) (ground arith)
