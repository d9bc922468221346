-- ===== src/Child/Fetch/Whole.antt =====
-- The whole way of a file: a child asks a super node, and then the peer that the super node names.
use net_prog.Prelude.{
  ℕ, ◌^◌, ◌<◌, ◌≡◌, ◌≢◌, ap, ◌∙◌, true, some, Option, List, [], ◌∷◌, ◌++◌, length, arith, take_all,
  append-nil,
}
use net_prog.Child.{download_dir, get_word}
use net_prog.Child.Fetch.{Net, download_stored, store_received, download, query, fetch}
use net_prog.Child.Get.{IsWord, read_command-get, read_answer-search_ans_success}
use net_prog.Peer.{Disk, answer_peer}
use net_prog.Peer.Download.{Readable, reads_of}
use net_prog.Peer.Request.{file_req_packet, answer_peer-receive}
use net_prog.Run.{Run, ok, fault, out_of_fuel}
use net_prog.Super.Node.{Node, Env, IsEnv, Event, Reaction, reply, share}
use net_prog.Super.Request.{search_ans_success, handle_client_request}
use net_prog.Super.Request.Entries.{IsInfo}
use net_prog.Super.Request.Query.{search_query_packet, deliver-query}
use net_prog.Super.Table.{Text, FileInfo, search_file_info}
use net_prog.Wire.{Bytes, IsText}

-- The bytes that a client reads of what a super node writes while it handles a packet.
abbrev pub replies : List Event → Bytes
replies [] = []
replies (reply p ∷ events) = p ++ replies events
replies (share ip port p ∷ events) = replies events

abbrev pub replied : Run Reaction → Bytes
replied fault = []
replied out_of_fuel = []
replied (ok r) = replies r.events

-- What a super node answers to a packet.
abbrev pub super_node_at : ℕ → Env → Node → Bytes → Bytes
super_node_at id env node p = replied (handle_client_request id (some p) env node)

-- Each packet of a peer is read by itself.
abbrev pub sent : Run (List Bytes) → List (Option Bytes)
sent fault = []
sent out_of_fuel = []
sent (ok packets) = reads_of packets

abbrev pub peer_at : ℕ → Disk → ℕ → Bytes → List (Option Bytes)
peer_at fuel disk id p = sent (answer_peer fuel disk id (some p))

module _ (env : Env) (is : IsEnv env) (cid : ℕ) (net : Net) where
  -- The super node that has the entry names the peer.
  query-download :
      (sid : ℕ) (senv : Env) (node : Node) (req dest : Text) (info : FileInfo)
      → IsEnv senv
      → IsText req
      → length req < 96
      → search_file_info req node.table.file_info_list ≡ ok (some info)
      → IsInfo info
      → net.super_node ≡ some (super_node_at sid senv node)
      → query env cid net req dest
        ≡ download env cid net req dest info.ip_addr info.port_num info.file_size
  unfolding query
  query-download sid senv node req dest info sis text short known fits link =
      let run = deliver-query sid senv node env is cid req info text short known in
      let answer = search_ans_success sid senv info in
      let bytes : super_node_at sid senv node (search_query_packet env cid req) ≡ answer =
        ap replied run ∙ append-nil answer in
      simp
        (query, link, bytes, read_answer-search_ans_success sid senv info (env.memory 40) sis fits)

  -- The peer that has the file sends it.
  download-stores :
      (fuel pid : ℕ) (disk : Disk) (req dest ip : Text) (port : ℕ) (content : Bytes)
      → IsText req
      → length req < 96
      → net.peer ip port ≡ some (peer_at fuel disk pid)
      → disk.file req ≡ some content
      → Readable disk.read_file
      → content ≢ []
      → length content < fuel
      → length content < 2 ^ 31
      → net.open_file dest ≡ true
      → net.write_file content ≡ some (length content)
      → download env cid net req dest ip port (length content) ≡ ok (download_stored dest content)
  unfolding download store_received
  download-stores fuel pid disk req dest ip port content text short link there reads some_bytes
        enough small opens writes =
      let fresh = env.memory (length content) in
      let (packets, run, brings) =
        answer_peer-receive env is disk pid cid fuel req text short content fresh (env.memory 10012)
          there reads some_bytes (is.sized (length content)) enough small in
      let bytes : peer_at fuel disk pid (file_req_packet env cid req) ≡ reads_of packets =
        ap sent run in
      rw (
        download,
        link,
        bytes,
        brings,
        opens,
        writes,
        take_all (length content) content (omega arith),
      )

  -- A child reads a line of get, a blank, a word of fewer than 96 characters, a blank, a word of
  -- fewer than 99 characters and the end of the line. If its super node finds an entry for the
  -- first word that fits the packet's fields and has the right size, and the peer at the entry's
  -- address and port has a file of that name that is not empty and shorter than 2^31 bytes, which
  -- it reads in blocks of 1 to 10000 bytes, and what is sent arrives, then the child stores
  -- exactly the content of the file under ./download/ and the second word, provided that this
  -- file can be opened and takes all bytes.
  pub fetch-stores :
      (sid : ℕ) (senv : Env) (node : Node) (info : FileInfo) (fuel pid : ℕ) (disk : Disk)
      (content : Bytes) (c d : ℕ) (req dest rest : Bytes)
      → IsEnv senv
      → IsWord (c ∷ req)
      → IsWord (d ∷ dest)
      → IsText (c ∷ req)
      → length (c ∷ req) < 96
      → length (d ∷ dest) < 99
      → search_file_info (c ∷ req) node.table.file_info_list ≡ ok (some info)
      → IsInfo info
      → info.file_size ≡ length content
      → net.super_node ≡ some (super_node_at sid senv node)
      → net.peer info.ip_addr info.port_num ≡ some (peer_at fuel disk pid)
      → disk.file (c ∷ req) ≡ some content
      → Readable disk.read_file
      → content ≢ []
      → length content < fuel
      → length content < 2 ^ 31
      → net.open_file (download_dir ++ d ∷ dest) ≡ true
      → net.write_file content ≡ some (length content)
      → fetch env cid net (get_word ++ 32 ∷ (c ∷ (req ++ 32 ∷ (d ∷ (dest ++ 10 ∷ rest)))))
        ≡ ok (download_stored (download_dir ++ d ∷ dest) content)
  unfolding fetch
  fetch-stores sid senv node info fuel pid disk content c d req dest rest sis clean clean' text
        short short' known fits size to_super to_peer there reads some_bytes enough small opens
        writes =
      let file = c ∷ req in
      let target = download_dir ++ d ∷ dest in
      rw (read_command-get c d req dest rest clean clean' short short') (
        query-download sid senv node file target info sis text short known fits to_super
        ∙ rw size (
            download-stores fuel pid disk file target info.ip_addr info.port_num content text short
              to_peer there reads some_bytes enough small opens writes))
