-- ===== src/Peer/Server/Returns.antt =====
-- On a disk whose files are shorter than the fuel, every request returns.
use net_prog.Prelude.{
  ℕ, zero, suc, ◌<◌, ◌%◌, ◌^◌, ◌≡◌, refl, ap, ◌∙◌, inl, inr, Option, none, some, List, [], ◌∷◌,
  arith, length, take, drop, ◌==◌, leb, Bool-cases, Option-cases, drop-append, length-append,
}
use net_prog.MsgType
use net_prog.Peer.{Disk, send_loop, serve_file, answer_peer}
use net_prog.Peer.Download.{Readable, data_packet}
use net_prog.Run.{ok}
use net_prog.Super.Node.{header, header_len, msg_type_of}
use net_prog.Super.Table.{Text}
use net_prog.Wire.{Bytes, overlay, c_string}

-- What a child's disk promises: reads make progress, and every file is shorter than the fuel.
pub record IsDisk (fuel : ℕ) (disk : Disk) : Type 0 where
  pub readable : Readable disk.read_file
  pub bounded :
      (name : Text) (content : Bytes) → disk.file name ≡ some content → length content < fuel

send_loop-ok :
    (read_file : Bytes → Option Bytes) (reads : Readable read_file) (id fuel : ℕ) (rest : Bytes)
    → length rest < fuel
    → (packets : List Bytes) × (send_loop fuel read_file id rest ≡ ok packets)
unfolding send_loop
send_loop-ok read_file reads id zero rest enough = absurd (omega arith)
send_loop-ok read_file reads id (suc fuel) [] enough = ([], rw (reads.at_end, send_loop))
send_loop-ok read_file reads id (suc fuel) (b ∷ rest) enough =
    let (first, front, more, read, split, small) = reads.block b rest in
    let block = first ∷ front in
    let behind : drop (length block) (b ∷ rest) ≡ more =
      ap (λ l. drop (length block) l) split ∙ drop-append (length block) block more refl in
    let (packets, run) =
      send_loop-ok read_file reads id fuel more
        (omega (arith, ap length split, length-append front more)) in
    (data_packet id block ∷ packets, rw (read, send_loop, behind, run))

-- The name in a request ends within its field.
abbrev pub IsNamed : Bytes → Option Bytes → Type 0
IsNamed memory none = Unit
IsNamed memory (some received) =
    (name : Text) × (c_string (take 96 (drop 12 (overlay received memory))) ≡ some name)

serve_file-ok :
    (fuel id : ℕ) (disk : Disk) (request name : Bytes)
    → IsDisk fuel disk
    → c_string (take 96 (drop 12 request)) ≡ some name
    → (packets : List Bytes) × (serve_file fuel disk id request ≡ ok packets)
unfolding serve_file
serve_file-ok fuel id disk request name is named = elim (Option-cases (disk.file name)) [
  | inl missing ↦ (header header_len id MsgType.file_res_fail ∷ [], rw (serve_file, named, missing))
  | inr (content, there) ↦
      let (packets, run) =
        send_loop-ok disk.read_file is.readable id fuel content (is.bounded name content there) in
      elim (Bool-cases (leb (2 ^ 31) (length content % 2 ^ 32))) [
        | inl negative ↦ (
          header header_len id MsgType.file_res_fail ∷ [],
          rw (serve_file, named, there, negative),
        )
        | inr sized ↦ (packets, rw (serve_file, named, there, sized, run))
      ]
]

pub answer_peer-ok :
    (fuel id : ℕ) (disk : Disk) (received : Option Bytes)
    → IsDisk fuel disk
    → IsNamed disk.memory received
    → (packets : List Bytes) × (answer_peer fuel disk id received ≡ ok packets)
unfolding answer_peer
answer_peer-ok fuel id disk none is named = ([], refl)
answer_peer-ok fuel id disk (some received) is (name, named) =
    elim (Bool-cases (msg_type_of (overlay received disk.memory) == MsgType.file_req)) [
      | inl asks ↦
          let (packets, run) =
            serve_file-ok fuel id disk (overlay received disk.memory) name is named in
          (packets, rw (asks, run))
      | inr other ↦ ([], rw other)
    ]
