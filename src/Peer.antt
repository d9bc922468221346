-- ===== src/Peer.antt =====
-- The download of a file from one child of p4 by another: `handleClientRequest` of
-- p4/src/child_lib.c, and the loop of p4/src/child.c that receives the file.
pub mod Download
pub mod Request
pub mod Server
use net_prog.Prelude.{
  ℕ, zero, suc, ◌+◌, ◌-◌, ◌%◌, ◌^◌, Bool, true, false, ◌||◌, Option, none, some, List, [], ◌∷◌,
  ◌++◌, ltb, leb, ◌==◌, if◌then◌else◌, take, drop, length,
}
use net_prog.MsgType
use net_prog.Run.{Run, ok, fault, out_of_fuel, ◌>>=◌}
use net_prog.Super.Node.{header, header_len, total_len_of, msg_type_of}
use net_prog.Super.Table.{Text}
use net_prog.Wire.{Bytes, c_string, overlay}

abbrev pub data_size : ℕ
data_size = 10000

-- What the system does while a request is served. `memory` is what the packet on the stack held.
pub record Disk : Type 0 where
  -- what is in a file of the data directory; `none` if it has no size or cannot be opened
  pub file : Text → Option Bytes
  -- a read of at most `data_size` bytes of what is left of a file; `none` for an error
  pub read_file : Bytes → Option Bytes
  pub memory : Bytes

-- The packets for what is left of a file. An error of the read is not looked for: its -1 makes a
-- packet of eleven bytes, and the loop goes on.
unfoldable pub send_loop : ℕ → (Bytes → Option Bytes) → ℕ → Bytes → Run (List Bytes)
send_loop zero read_file id rest = out_of_fuel
send_loop (suc fuel) read_file id rest = elim (read_file rest) [
  | none ↦ do
    packets ← send_loop fuel read_file id rest
    ok (take 11 (header 11 id MsgType.file_res_success) ∷ packets)
  | some [] ↦ ok []
  | some (b ∷ block) ↦ do
    packets ← send_loop fuel read_file id (drop (length (b ∷ block)) rest)
    ok (
        (header (header_len + length (b ∷ block)) id MsgType.file_res_success ++ (b ∷ block))
        ∷ packets)
]

-- The packets that answer a request; the file's name is read from the request's field. The size
-- goes into an `int`: what has its top bit set becomes negative, like the -1 for a missing file.
unfoldable pub serve_file : ℕ → Disk → ℕ → Bytes → Run (List Bytes)
serve_file fuel disk id request = elim (c_string (take 96 (drop 12 request))) [
  | none ↦ fault
  | some name ↦ elim (disk.file name) [
    | none ↦ ok (header header_len id MsgType.file_res_fail ∷ [])
    | some content ↦
        if leb (2 ^ 31) (length content % 2 ^ 32)
        then ok (header header_len id MsgType.file_res_fail ∷ [])
        else send_loop fuel disk.read_file id content
  ]
]

unfoldable pub answer_peer : ℕ → Disk → ℕ → Option Bytes → Run (List Bytes)
answer_peer fuel disk id none = ok []
answer_peer fuel disk id (some received) =
    let request = overlay received disk.memory in
    if msg_type_of request == MsgType.file_req then serve_file fuel disk id request else ok []

-- How the loop that receives a file ends.
pub data Received : Type 0 where
  -- these bytes are written to the destination
  stores : Bytes → Received
  -- the peer has no such file, or sent something else
  fails : Received
  -- there is nothing more to read yet
  waits : Received

-- The block of `file_size` bytes after some bytes were stored at its start.
unfoldable pub file_buffer : Bytes → Bytes → Bytes
unfolding overlay
file_buffer stored fresh = overlay stored fresh

-- The number of data bytes, an `int`; what would be negative is above the size of the data here.
-- The bytes stored so far are counted in an `int`, which must not overflow.
unfoldable pub fits : ℕ → ℕ → ℕ → Bool
fits total_len stored file_size =
    if ltb total_len header_len || ltb (header_len + data_size) total_len
    then false
    else (if ltb file_size (stored + (total_len - header_len))
          || leb (2 ^ 31) (stored + (total_len - header_len))
        then false
        else true)

-- `reads` are what the reads return, `none` for an error, on which the loop ends and the file is
-- written all the same. `fresh` is what the allocated block of `file_size` bytes holds.
unfoldable pub receive : Bytes → ℕ → Bytes → Bytes → List (Option Bytes) → Run Received
receive fresh file_size stored memory [] = ok waits
receive fresh file_size stored memory (none ∷ reads) = ok (stores (file_buffer stored fresh))
receive fresh file_size stored memory (some received ∷ reads) =
    let pkt = overlay received memory in
    let stored' = stored ++ take (total_len_of pkt - header_len) (drop header_len pkt) in
    let rest = receive fresh file_size stored' pkt reads in
    if msg_type_of pkt == MsgType.file_res_success
    then (if fits (total_len_of pkt) (length stored) file_size
        then (if length stored' == file_size then ok (stores (file_buffer stored' fresh)) else rest)
        else fault)
    else ok fails
