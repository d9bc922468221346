-- ===== src/Web/Http/Received.antt =====
-- When the client of p3 sees the end of an answer.
use net_prog.Prelude.{
  ℕ, zero, suc, ◌-◌, ◌<◌, ◌≡◌, refl, sym, ap, ◌∙◌, Bool, true, false, ◌&&◌, ◌||◌, Option, some,
  List, [], ◌∷◌, ◌++◌, arith, ◌==◌, ne→==, if◌then◌else◌, length, replicate, take_all, All, map,
  append_assoc, append-nil, drop, ◌≢◌, Bool-cases, inl, inr,
}
use net_prog.Run.{ok, fault, out_of_fuel}
use net_prog.Wire.{Bytes, IsText}
use net_prog.Web.Http.{
  http_header, end_msg, data_size, answered, send_file, http_response, starts_with, strstr,
  recv_buff, await_end,
}

-- Whether a text contains another one.
unfoldable pub contains : Bytes → Bytes → Bool
contains needle [] = false
contains needle (c ∷ s) = starts_with needle (c ∷ s) || contains needle s

unfoldable pub concat : List Bytes → Bytes
concat [] = []
concat (got ∷ reads) = got ++ concat reads

-- Everything that is written is taken.
abbrev pub TakesAll : (Bytes → Option ℕ) → Type 0
TakesAll write = (s : Bytes) → write s ≡ some (length s)

send_file-sends :
    (write : Bytes → Option ℕ) (blocks : List Bytes) (sent : Bytes)
    → TakesAll write
    → send_file write (map some blocks) sent ≡ answered (sent ++ (concat blocks ++ end_msg))
unfolding send_file concat
send_file-sends write [] sent all = rw (all end_msg)
send_file-sends write (block ∷ blocks) sent all =
    rw (all block, take_all (length block) block (omega arith))
      (send_file-sends write blocks (sent ++ block) all
        ∙ ap answered (
            append_assoc sent block (concat blocks ++ end_msg)
            ∙ ap (λ s. sent ++ s) (sym (append_assoc block (concat blocks) end_msg))))

pub http_response-sends :
    (write : Bytes → Option ℕ) (blocks : List Bytes)
    → TakesAll write
    → http_response write (some (map some blocks))
      ≡ answered (http_header ++ (concat blocks ++ end_msg))
unfolding http_response concat
http_response-sends write blocks all =
    rw (http_response, all http_header) (send_file-sends write blocks http_header all)

starts_with_self : (needle : Bytes) → starts_with needle needle ≡ true
unfolding starts_with
starts_with_self [] = refl
starts_with_self (c ∷ needle) = ground (arith, starts_with_self needle)

starts_with-zeros :
    (needle s : Bytes) (k : ℕ)
    → IsText needle
    → starts_with needle (s ++ replicate (suc k) 0) ≡ starts_with needle s
unfolding starts_with
starts_with-zeros [] s k text = refl
starts_with-zeros (zero ∷ needle) s k text = absurd text
starts_with-zeros (suc c ∷ needle) [] k text = rw (ne→== (suc c) 0 (omega arith))
starts_with-zeros (suc c ∷ needle) (d ∷ s) k text =
    ap (λ b. (suc c == d) && b) (starts_with-zeros needle s k text)

-- A text is found in what ends with it.
contains_end : (c : ℕ) (needle s : Bytes) → contains (c ∷ needle) (s ++ c ∷ needle) ≡ true
unfolding contains
contains_end c needle [] = rw (starts_with_self (c ∷ needle))
contains_end c needle (d ∷ s) = ground (arith, contains_end c needle s)

-- In a text with room behind it `strstr` finds what the text contains.
strstr-contains :
    (needle s : Bytes) (k : ℕ)
    → IsText needle
    → IsText s
    → strstr needle (s ++ replicate (suc k) 0) ≡ ok (contains needle s)
unfolding strstr contains
strstr-contains needle [] k text clean = refl
strstr-contains needle (zero ∷ s) k text clean = absurd clean
strstr-contains needle (suc c ∷ s) k text clean =
    elim (Bool-cases (starts_with needle (suc c ∷ s))) [
      | inl yes_here ↦ rw (starts_with-zeros needle (suc c ∷ s) k text, yes_here)
      | inr not_here ↦
          rw (starts_with-zeros needle (suc c ∷ s) k text, not_here)
            (strstr-contains needle s k text clean)
    ]

-- A text that leaves room in the buffer.
abbrev pub Fits : Bytes → Type 0
Fits got = IsText got × (length got < data_size)

strstr-recv_buff :
    (got : Bytes) → Fits got → strstr end_msg (recv_buff got) ≡ ok (contains end_msg got)
unfolding recv_buff
strstr-recv_buff got (text, small) =
    let room : data_size - length got ≡ suc (data_size - 1 - length got) = omega arith in
    rw room (strstr-contains end_msg got (data_size - 1 - length got) tt text)

-- A read with the end message in it ends the loop, and another one does not.
await_end-read :
    (got : Bytes) (reads : List Bytes)
    → Fits got
    → await_end (got ∷ reads) ≡ (if contains end_msg got then ok reads else await_end reads)
unfolding await_end
await_end-read got reads fits = rw (await_end, strstr-recv_buff got fits)

abbrev pub Without : Bytes → Type 0
Without got = Fits got × (contains end_msg got ≡ false)

await_end-skips :
    (before reads : List Bytes) → All Without before → await_end (before ++ reads) ≡ await_end reads
await_end-skips [] reads all = refl
await_end-skips (got ∷ before) reads ((fits, without), all) =
    await_end-read got (before ++ reads) fits ∙ rw without (await_end-skips before reads all)

pub await_end-whole :
    (before reads : List Bytes) (got : Bytes)
    → All Without before
    → Fits (got ++ end_msg)
    → await_end (before ++ (got ++ end_msg) ∷ reads) ≡ ok reads
await_end-whole before reads got all fits =
    await_end-skips before ((got ++ end_msg) ∷ reads) all
    ∙ await_end-read (got ++ end_msg) reads fits
    ∙ rw (contains_end 10 (drop 1 end_msg) got)

-- If each read is a text that leaves room in the buffer and none of them contains the end message
-- whole, as when it is split between two reads, the client waits for more after them.
pub await_end-waits : (reads : List Bytes) → All Without reads → await_end reads ≡ out_of_fuel
unfolding await_end
await_end-waits reads all = ap await_end (sym (append-nil reads)) ∙ await_end-skips reads [] all

concat-append : (xs ys : List Bytes) → concat (xs ++ ys) ≡ concat xs ++ concat ys
unfolding concat
concat-append [] ys = refl
concat-append (x ∷ xs) ys =
    ap (λ rest. x ++ rest) (concat-append xs ys) ∙ sym (append_assoc x (concat xs) (concat ys))

-- If the file is read without errors and everything that is written is taken, the answer of the
-- web server is the header, the file and the end message; and a client whose reads are that
-- answer, where the last read has the end message whole at its end, each read is a text that
-- leaves room in the buffer, and no earlier one contains the end message, leaves its loop after
-- the last read.
pub http_response-await_end :
    (write : Bytes → Option ℕ) (blocks before : List Bytes) (got : Bytes)
    → TakesAll write
    → concat before ++ got ≡ http_header ++ concat blocks
    → All Without before
    → Fits (got ++ end_msg)
    → (http_response write (some (map some blocks))
        ≡ answered (concat (before ++ (got ++ end_msg) ∷ [])))
      × (await_end (before ++ (got ++ end_msg) ∷ []) ≡ ok [])
unfolding concat
http_response-await_end write blocks before got all split quiet fits = (
  http_response-sends write blocks all ∙ ap answered (sym same),
  await_end-whole before [] got quiet fits,
)
  where
    same : concat (before ++ (got ++ end_msg) ∷ []) ≡ http_header ++ (concat blocks ++ end_msg)
    same =
        concat-append before ((got ++ end_msg) ∷ [])
        ∙ ap (λ rest. concat before ++ rest) (append-nil (got ++ end_msg))
        ∙ sym (append_assoc (concat before) got end_msg)
        ∙ ap (λ s. s ++ end_msg) split
        ∙ append_assoc http_header (concat blocks) end_msg

-- A text that fills the buffer.
strstr-runs_past :
    (needle s : Bytes) → IsText s → contains needle s ≡ false → strstr needle s ≡ fault
unfolding strstr contains
strstr-runs_past needle [] clean without = refl
strstr-runs_past needle (zero ∷ s) clean without = absurd clean
strstr-runs_past needle (suc c ∷ s) clean without =
    elim (Bool-cases (starts_with needle (suc c ∷ s))) [
      | inl yes_here ↦ absurd (true≢false' (rw yes_here at without))
      | inr not_here ↦ rw not_here (strstr-runs_past needle s clean (rw not_here at without))
    ]
  where
    true≢false' : true ≢ false
    true≢false' e = cc

-- A read that fills the buffer with a text without the end message makes the client's search run
-- past the end of the buffer.
pub await_end-full :
    (got : Bytes) (reads : List Bytes)
    → IsText got
    → length got ≡ data_size
    → contains end_msg got ≡ false
    → await_end (got ∷ reads) ≡ fault
unfolding recv_buff await_end
await_end-full got reads text full without =
    let no_room : data_size - length got ≡ 0 = omega (arith, full) in
    rw (await_end, no_room, append-nil got, strstr-runs_past end_msg got text without)
