-- ===== src/Transfer/Thread/Names.antt =====
-- Which thread numbers fit the arrays of a client thread of p2.
use net_prog.Prelude.{
  ℕ, zero, suc, ◌+◌, ◌*◌, ◌/◌, ◌%◌, ◌<◌, ◌≤◌, ◌≡◌, [], ◌∷◌, ◌++◌, arith, ltb, lt→ltb, le→ltb,
  if◌then◌else◌, take, length, length-append, length-take, take_all,
}
use native.Mathlib.Decide.{dec_lt}
use net_prog.Run.{ok, fault}
use net_prog.Wire.{Bytes, IsText}
use net_prog.Transfer.Thread.{
  digits_within, decimal, thread_num_text, joined, message_start, extension, texts,
}

-- The numbers of at most `k` digits lie below it.
unfoldable pub limit : ℕ → ℕ
limit zero = 1
limit (suc k) = 10 * limit k

limit_pos : (k : ℕ) → 0 < limit k
unfolding limit
limit_pos zero = omega arith
limit_pos (suc k) = omega (arith, limit_pos k)

pub digits_within-le :
    (k rounds n : ℕ) → n < 10 * limit k → k < rounds → length (digits_within rounds n) ≤ suc k
unfolding digits_within limit
digits_within-le k zero n lt enough = absurd (omega arith)
digits_within-le zero (suc rounds) n lt enough = rw (lt→ltb n 10 (omega arith)) (omega arith)
digits_within-le (suc k) (suc rounds) n lt enough = elim (dec_lt n 10) [
  | yes small ↦ rw (lt→ltb n 10 small) (omega arith)
  | no large ↦
      let shorter = digits_within-le k rounds (n / 10) (omega arith) (omega arith) in
      let front = digits_within rounds (n / 10) in
      rw (le→ltb n 10 (omega arith), length-append front ((48 + n % 10) ∷ [])) (omega arith)
]

pub digits_within-ge :
    (k rounds n : ℕ) → limit k ≤ n → k < rounds → k < length (digits_within rounds n)
unfolding digits_within limit
digits_within-ge k zero n ge enough = absurd (omega arith)
digits_within-ge zero (suc rounds) n ge enough = elim (dec_lt n 10) [
  | yes small ↦ rw (lt→ltb n 10 small) (omega arith)
  | no large ↦
      rw
        (
          le→ltb n 10 (omega arith),
          length-append (digits_within rounds (n / 10)) ((48 + n % 10) ∷ []),
        )
        (omega arith)
]
digits_within-ge (suc k) (suc rounds) n ge enough =
    let large : 10 ≤ n = omega (arith, limit_pos k) in
    let longer = digits_within-ge k rounds (n / 10) (omega arith) (omega arith) in
    rw (le→ltb n 10 large, length-append (digits_within rounds (n / 10)) ((48 + n % 10) ∷ []))
      (omega arith)

IsText-cons : (c : ℕ) (s : Bytes) → 0 < c → IsText s → IsText (c ∷ s)
IsText-cons zero s pos text = absurd (omega arith)
IsText-cons (suc c) s pos text = text

pub IsText-append : (s t : Bytes) → IsText s → IsText t → IsText (s ++ t)
IsText-append [] t text more = more
IsText-append (zero ∷ s) t text more = absurd text
IsText-append (suc c ∷ s) t text more = IsText-append s t text more

digits_within-IsText : (rounds n : ℕ) → IsText (digits_within rounds n)
unfolding digits_within
digits_within-IsText zero n = tt
digits_within-IsText (suc rounds) n = elim (dec_lt n 10) [
  | yes small ↦ rw (lt→ltb n 10 small) (IsText-cons (48 + n) [] (omega arith) tt)
  | no large ↦ rw (le→ltb n 10 (omega arith)) (
      IsText-append (digits_within rounds (n / 10)) ((48 + n % 10) ∷ [])
        (digits_within-IsText rounds (n / 10)) (IsText-cons (48 + n % 10) [] (omega arith) tt))
]

pub decimal-IsText : (n : ℕ) → IsText (decimal n)
unfolding decimal
decimal-IsText n = digits_within-IsText 10 n

pub decimal-short : (n : ℕ) → n < 100000 → length (decimal n) ≤ 5
unfolding decimal limit
decimal-short n lt = digits_within-le 4 10 n lt (omega arith)

decimal-long : (n : ℕ) → 100000 ≤ n → 5 < length (decimal n)
unfolding decimal limit
decimal-long n ge = digits_within-ge 5 10 n ge (omega arith)

pub texts-short :
    (n : ℕ) → n < 100000 → texts n ≡ ok (message_start ++ decimal n, decimal n ++ extension)
unfolding texts thread_num_text joined
texts-short n lt =
    let short = decimal-short n lt in
    rw (
      take_all 6 (decimal n) (omega arith),
      length-append message_start (decimal n),
      length-append (decimal n) extension,
      le→ltb 20 (13 + length (decimal n) + 1) (omega arith),
      le→ltb 10 (length (decimal n) + 4 + 1) (omega arith),
    )

texts-long : (n : ℕ) → 100000 ≤ n → texts n ≡ fault
unfolding texts thread_num_text joined
texts-long n ge =
    let long = decimal-long n ge in
    let cut : length (take 6 (decimal n)) ≡ 6 = omega (arith, length-take 6 (decimal n)) in
    rw (
      length-append message_start (take 6 (decimal n)),
      cut,
      length-append (take 6 (decimal n)) extension,
      cut,
    )

-- A thread number below 100000 gives the message "I am thread #" with its digits and the file
-- name of its digits and ".txt"; from 100000 on the file name overruns its array of ten bytes.
pub texts-fit :
    (n : ℕ)
    → texts n
      ≡ (if ltb n 100000 then ok (message_start ++ decimal n, decimal n ++ extension) else fault)
texts-fit n = elim (dec_lt n 100000) [
  | yes few ↦ rw (lt→ltb n 100000 few) (texts-short n few)
  | no many ↦ rw (le→ltb n 100000 (omega arith)) (texts-long n (omega arith))
]
