-- ===== src/Peer/Request.antt =====
-- A whole download, from the request for a file on: p4/src/child.c, lines 226 to 287.
use net_prog.Prelude.{
  ℕ, ◌%◌, ◌^◌, ◌<◌, ◌≡◌, ◌≢◌, refl, ◌∙◌, none, some, List, [], ◌∷◌, ◌++◌, length, drop, leb,
  if◌then◌else◌, arith, false,
}
use net_prog.MsgType
use net_prog.Peer.{Disk, send_loop, serve_file, answer_peer, receive, stores, fails}
use net_prog.Peer.Download.{Readable, reads_of, header-Reads, overlay-header, receive-send_loop}
use net_prog.Run.{Run, ok, Returns}
use net_prog.Super.Node.{Env, IsEnv, header, header_len}
use net_prog.Super.Table.{Text}
use net_prog.Wire.{Bytes, IsText, overlay, strcpy}
use net_prog.Wire.RoundTrip.{c_string-strcpy}

-- The FILE_REQ packet: lines 227 to 233.
unfoldable pub file_req_packet : Env → ℕ → Text → Bytes
file_req_packet env id name = header 108 id MsgType.file_req ++ strcpy (env.memory 96) name

module _ (env : Env) (is : IsEnv env) (disk : Disk) (id cid fuel : ℕ) (name : Text)
    (text : IsText name) (short : length name < 96) where
  abbrev served : Run (List Bytes)
  served = elim (disk.file name) [
    | none ↦ ok (header header_len id MsgType.file_res_fail ∷ [])
    | some content ↦
        if leb (2 ^ 31) (length content % 2 ^ 32)
        then ok (header header_len id MsgType.file_res_fail ∷ [])
        else send_loop fuel disk.read_file id content
  ]

  serve_file-name :
      (request junk : Bytes)
      → drop 12 request ≡ strcpy (env.memory 96) name ++ junk
      → serve_file fuel disk id request ≡ served
  unfolding serve_file
  serve_file-name request junk field =
      rw (serve_file, field, c_string-strcpy 96 (env.memory 96) name junk (is.sized 96) text short)

  answer_peer-name : answer_peer fuel disk id (some (file_req_packet env cid name)) ≡ served
  unfolding answer_peer file_req_packet
  answer_peer-name =
      let field = strcpy (env.memory 96) name in
      let flat = overlay-header 108 cid MsgType.file_req field disk.memory in
      let junk = drop (length (header 108 cid MsgType.file_req ++ field)) disk.memory in
      let r = header-Reads 108 cid MsgType.file_req (field ++ junk) in
      rw (flat, r.kind) (serve_file-name _ junk r.behind)

  -- A child asks another one for a file that is there and is not empty, with a name that fits the
  -- request: the other one answers with finitely many packets, from which the child, if it was
  -- told the right size and each packet arrives whole, stores exactly the content of the file.
  -- The file is read in blocks of 1 to 10000 bytes.
  pub answer_peer-receive :
      (content fresh memory : Bytes)
      → disk.file name ≡ some content
      → Readable disk.read_file
      → content ≢ []
      → length fresh ≡ length content
      → length content < fuel
      → length content < 2 ^ 31
      → Returns (answer_peer fuel disk id (some (file_req_packet env cid name))) λ packets.
        receive fresh (length content) [] memory (reads_of packets) ≡ ok (stores content)
  answer_peer-receive content fresh memory there reads some_bytes allocated enough small =
      let sized : leb (2 ^ 31) (length content % 2 ^ 32) ≡ false = ground arith in
      let (packets, run, brings) =
        receive-send_loop disk.read_file reads id (length content) fresh allocated small fuel memory
          content some_bytes refl enough in
      (packets, answer_peer-name ∙ rw (served, there, sized, run), brings)

  -- A request for a file that is not there, with a name that fits the request, is answered with
  -- exactly one packet, on which the child gives up and stores nothing.
  pub answer_peer-receive_missing :
      (size : ℕ) (fresh memory : Bytes)
      → disk.file name ≡ none
      → (answer_peer fuel disk id (some (file_req_packet env cid name))
          ≡ ok (header 12 id MsgType.file_res_fail ∷ []))
        × (receive fresh size [] memory (some (header 12 id MsgType.file_res_fail) ∷ []) ≡ ok fails)
  unfolding receive overlay
  answer_peer-receive_missing size fresh memory missing =
      let p = header 12 id MsgType.file_res_fail in
      let r = header-Reads 12 id MsgType.file_res_fail (drop (length p) memory) in
      (answer_peer-name ∙ rw (served, missing), rw (r.kind))
