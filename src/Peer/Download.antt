-- ===== src/Peer/Download.antt =====
-- What a peer sends is what is stored.
use net_prog.Prelude.{
  ℕ, zero, suc, ◌+◌, ◌-◌, ◌%◌, ◌^◌, ◌<◌, ◌≤◌, ◌≡◌, ◌≢◌, refl, ap, sym, ◌∙◌, true, Option, some,
  List, [], ◌∷◌, ◌++◌, arith, length, drop, length-append, take-append, drop-append, drop_all,
  ne→==, ==_iff,
}
use mathlib.Core.List.{append_assoc, append-nil}
use net_prog.MsgType
use net_prog.Run.{ok, Returns}
use net_prog.Peer.{send_loop, receive, stores, waits, fits, file_buffer}
use net_prog.Super.Node.{header, total_len_of, msg_type_of}
use net_prog.Wire.{Bytes, be32, get32, overlay}

-- What a read of a file returns: nothing at its end, and otherwise at least one byte and at most
-- 10000 bytes from where the last read stopped.
pub record Readable (read_file : Bytes → Option Bytes) : Type 0 where
  pub at_end : read_file [] ≡ some []
  pub block :
      (b : ℕ) (rest : Bytes)
      → (first : ℕ) × (front more : Bytes) × (read_file (b ∷ rest) ≡ some (first ∷ front))
        × (b ∷ rest ≡ (first ∷ front) ++ more)
        × (length (first ∷ front) ≤ 10000)

abbrev pub data_packet : ℕ → Bytes → Bytes
data_packet id block = header (12 + length block) id MsgType.file_res_success ++ block

abbrev pub reads_of : List Bytes → List (Option Bytes)
reads_of [] = []
reads_of (p ∷ ps) = some p ∷ reads_of ps

pub record Reads (total_len msg_type : ℕ) (body p : Bytes) : Type 0 where
  pub total : total_len_of p ≡ total_len % 2 ^ 32
  pub kind : msg_type_of p ≡ msg_type % 2 ^ 32
  pub behind : drop 12 p ≡ body

pub header-Reads :
    (total_len id msg_type : ℕ) (body : Bytes)
    → Reads total_len msg_type body (header total_len id msg_type ++ body)
unfolding header be32 get32 total_len_of msg_type_of
header-Reads total_len id msg_type body = record {
  total = omega arith;
  kind = omega arith;
  behind = refl;
}

pub overlay-header :
    (a b c : ℕ) (body old : Bytes)
    → overlay (header a b c ++ body) old
      ≡ header a b c ++ (body ++ drop (length (header a b c ++ body)) old)
unfolding overlay
overlay-header a b c body old = append_assoc (header a b c) body _

fits_block :
    (n stored size : ℕ)
    → n ≤ 10000
    → stored + n ≤ size
    → size < 2 ^ 31
    → fits (12 + n) stored size ≡ true
unfolding fits
fits_block n stored size small room few = ground arith

module _ (fresh : Bytes) (size id : ℕ) (stored memory block : Bytes) (reads : List (Option Bytes))
    (small : length block ≤ 10000) (room : length stored + length block ≤ size)
    (few : size < 2 ^ 31) where
  abbrev packet_memory : Bytes
  packet_memory = overlay (data_packet id block) memory

  receive-last :
      length stored + length block ≡ size
      → receive fresh size stored memory (some (data_packet id block) ∷ reads)
        ≡ ok (stores (file_buffer (stored ++ block) fresh))
  unfolding receive
  receive-last whole =
      let flat = overlay-header (12 + length block) id MsgType.file_res_success block memory in
      let junk = drop (length (data_packet id block)) memory in
      let r = header-Reads (12 + length block) id MsgType.file_res_success (block ++ junk) in
      let total =
        r.total ∙ (let e : (12 + length block) % 2 ^ 32 ≡ 12 + length block = omega arith in e) in
      let n : 12 + length block - 12 ≡ length block = omega arith in
      let all : length (stored ++ block) ≡ size = length-append stored block ∙ whole in
      rw (
        flat,
        r.kind,
        total,
        r.behind,
        n,
        take-append (length block) block junk refl,
        fits_block (length block) (length stored) size small room few,
        (==_iff (length (stored ++ block)) size).1 all,
      )

  receive-more :
      length stored + length block ≢ size
      → receive fresh size stored memory (some (data_packet id block) ∷ reads)
        ≡ receive fresh size (stored ++ block) packet_memory reads
  unfolding receive
  receive-more part =
      let flat = overlay-header (12 + length block) id MsgType.file_res_success block memory in
      let junk = drop (length (data_packet id block)) memory in
      let r = header-Reads (12 + length block) id MsgType.file_res_success (block ++ junk) in
      let total =
        r.total ∙ (let e : (12 + length block) % 2 ^ 32 ≡ 12 + length block = omega arith in e) in
      let n : 12 + length block - 12 ≡ length block = omega arith in
      let some_left : length (stored ++ block) ≢ size =
        λ e. part (sym (length-append stored block) ∙ e) in
      rw (
        flat,
        r.kind,
        total,
        r.behind,
        n,
        take-append (length block) block junk refl,
        fits_block (length block) (length stored) size small room few,
        ne→== (length (stored ++ block)) size some_left,
      )

file_buffer_full : (full fresh : Bytes) → length fresh ≤ length full → file_buffer full fresh ≡ full
unfolding file_buffer
file_buffer_full full fresh h = rw (drop_all (length full) fresh h, append-nil)

module _ (read_file : Bytes → Option Bytes) (reads : Readable read_file) (id size : ℕ)
    (fresh : Bytes) (allocated : length fresh ≡ size) (few : size < 2 ^ 31) where
  -- The packets for what is left of the file bring it, behind what is stored already.
  abbrev Brings : ℕ → Bytes → Bytes → Bytes → Type 0
  Brings fuel stored memory rest =
      Returns (send_loop fuel read_file id rest) λ packets.
        receive fresh size stored memory (reads_of packets) ≡ ok (stores (stored ++ rest))

  Brings-last :
      (fuel : ℕ) (stored memory block : Bytes)
      → 0 < fuel
      → length block ≤ 10000
      → length stored + length block ≡ size
      → Returns (send_loop fuel read_file id []) λ packets.
        receive fresh size stored memory (some (data_packet id block) ∷ reads_of packets)
        ≡ ok (stores (stored ++ block))
  unfolding send_loop
  Brings-last zero stored memory block h small whole = absurd (omega arith)
  Brings-last (suc fuel) stored memory block h small whole = (
    [],
    rw (reads.at_end, send_loop),
    receive-last fresh size id stored memory block [] small (omega arith) few whole
        ∙ ap (λ l. ok (stores l))
            (file_buffer_full (stored ++ block) fresh (omega (arith, length-append stored block))),
  )

  -- What the rest of the packets does, with some fuel.
  abbrev Later : ℕ → Type 0
  Later fuel =
      (stored memory : Bytes) (b : ℕ) (rest : Bytes)
      → length rest + 1 < fuel
      → length stored + (length rest + 1) ≡ size
      → Brings fuel stored memory (b ∷ rest)

  Brings-block :
      (fuel : ℕ) (stored memory block more : Bytes)
      → Later fuel
      → length block ≤ 10000
      → 0 < length block
      → length more + 1 < suc fuel
      → length stored + (length block + length more) ≡ size
      → Returns (send_loop fuel read_file id more) λ packets.
        receive fresh size stored memory (some (data_packet id block) ∷ reads_of packets)
        ≡ ok (stores (stored ++ (block ++ more)))
  Brings-block fuel stored memory block [] later small some_bytes enough whole =
      rw append-nil (Brings-last fuel stored memory block (omega arith) small (omega arith))
  Brings-block fuel stored memory block (c ∷ more) later small some_bytes enough whole =
      let next = overlay (data_packet id block) memory in
      let (packets, run, brings) =
        later (stored ++ block) next c more (omega arith)
          (omega (arith, length-append stored block)) in
      (
        packets,
        run,
        receive-more fresh size id stored memory block (reads_of packets) small (omega arith) few
              (omega arith)
            ∙ brings
            ∙ ap (λ l. ok (stores l)) (append_assoc stored block (c ∷ more)),
      )

  send_loop-Brings : (fuel : ℕ) → Later fuel
  unfolding send_loop
  send_loop-Brings zero stored memory b rest enough whole = absurd (omega arith)
  send_loop-Brings (suc fuel) stored memory b rest enough whole =
      let (first, front, more, read, split, small) = reads.block b rest in
      let block = first ∷ front in
      let sizes : length rest + 1 ≡ length front + 1 + length more =
        omega (arith, ap length split, length-append front more) in
      let behind : drop (length block) (b ∷ rest) ≡ more =
        ap (λ l. drop (length block) l) split ∙ drop-append (length block) block more refl in
      let (packets, run, brings) =
        Brings-block fuel stored memory block more (send_loop-Brings fuel) small (omega arith)
          (omega arith) (omega arith) in
      (data_packet id block ∷ packets, rw (read, send_loop, behind, run), brings ∙ rw split)

  pub receive-send_loop :
      (fuel : ℕ) (memory : Bytes) (content : Bytes)
      → content ≢ []
      → length content ≡ size
      → size < fuel
      → Returns
          (send_loop fuel read_file id content)
          λ packets. receive fresh size [] memory (reads_of packets) ≡ ok (stores content)
  receive-send_loop fuel memory [] some_bytes whole enough = absurd (some_bytes refl)
  receive-send_loop fuel memory (b ∷ content) some_bytes whole enough =
      send_loop-Brings fuel [] memory b content (omega arith) (omega arith)

  -- For an empty file no packet is sent, and the child that asked for it waits for one.
  pub receive-send_loop_empty :
      (fuel : ℕ) (memory : Bytes)
      → 0 < fuel
      → size ≡ 0
      → Returns
          (send_loop fuel read_file id [])
          λ packets. receive fresh size [] memory (reads_of packets) ≡ ok waits
  unfolding send_loop receive
  receive-send_loop_empty zero memory enough none_left = absurd (omega arith)
  receive-send_loop_empty (suc fuel) memory enough none_left =
      ([], rw (reads.at_end, send_loop), refl)
