-- ===== src/Child.antt =====
-- The child of p4 and its super node: p4/src/child.c, lines 82 to 216. What the child prints, the
-- reading of the directory and the opening of sockets are left out.
pub mod Hello
pub mod Get
pub mod Fetch
use net_prog.Prelude.{
  ℕ, zero, suc, ◌+◌, Bool, true, false, ◌&&◌, ◌||◌, Option, none, some, List, [], ◌∷◌, ◌++◌, ltb,
  ◌==◌, if◌then◌else◌, length, take, drop,
}
use net_prog.MsgType
use net_prog.Run.{Run, ok, fault}
use net_prog.Super.Node.{Env, header, msg_type_of}
use net_prog.Super.Packet.{packet}
use net_prog.Wire.{Bytes, be32, get32, overlay, c_string, strcpy}

-- The HELLO_FROM_CHILD packet: a header and the port.
unfoldable pub hello_from_child_packet : ℕ → ℕ → Bytes
hello_from_child_packet id port_num = packet 16 id MsgType.hello_from_child port_num []

-- Whether the child goes on after what was read as the answer to its greeting.
unfoldable pub is_greeted : Bytes → Bool
is_greeted hello_from_super_pkt = msg_type_of hello_from_super_pkt == MsgType.hello_from_super

-- Whether it goes on after the answer to its files.
unfoldable pub is_accepted : Bytes → Bool
is_accepted reply = msg_type_of reply == MsgType.file_info_recv_success

-- The delimiters of `strtok`: a blank and the end of the line.
unfoldable pub is_delimiter : ℕ → Bool
is_delimiter c = c == 32 || c == 10

-- The characters up to the next delimiter, and what follows it.
unfoldable pub take_word : Bytes → Bytes × Bytes
take_word [] = ([], [])
take_word (c ∷ s) =
    let (word, rest) = take_word s in if is_delimiter c then ([], s) else (c ∷ word, rest)

-- `strtok`: delimiters are skipped; `none` is NULL.
unfoldable pub strtok : Bytes → Option (Bytes × Bytes)
strtok [] = none
strtok (c ∷ s) = if is_delimiter c then strtok s else some (take_word (c ∷ s))

unfoldable pub same_text : Bytes → Bytes → Bool
same_text [] [] = true
same_text [] (d ∷ t) = false
same_text (c ∷ s) [] = false
same_text (c ∷ s) (d ∷ t) = c == d && same_text s t

-- "get"
abbrev pub get_word : Bytes
get_word = 103 ∷ 101 ∷ 116 ∷ []

-- "./download/"
abbrev pub download_dir : Bytes
download_dir = 46 ∷ 47 ∷ 100 ∷ 111 ∷ 119 ∷ 110 ∷ 108 ∷ 111 ∷ 97 ∷ 100 ∷ 47 ∷ []

pub data UserCommand : Type 0 where
  wrong_command : UserCommand
  -- the name of the file, and where it is stored
  get_file : Bytes → Bytes → UserCommand

-- A copy into an array of a size, behind what is there already. NULL is no string.
unfoldable pub copied : ℕ → Bytes → Option (Bytes × Bytes) → Run (Bytes × Bytes)
copied size front none = fault
copied size front (some (word, rest)) =
    if ltb size (length (front ++ word) + 1) then fault else ok (front ++ word, rest)

-- The line that `fgets` has read.
unfoldable pub read_command : Bytes → Run UserCommand
read_command line = elim (strtok line) [
  | none ↦ fault
  | some (word, rest) ↦
      if same_text word get_word
      then elim (copied 96 [] (strtok rest)) [
        | ok (req_file, rest) ↦ elim (copied 110 download_dir (strtok rest)) [
          | ok (dest_file, rest) ↦ ok (get_file req_file dest_file)
          | _ ↦ fault
        ]
        | _ ↦ fault
      ]
      else ok wrong_command
]

pub data Answer : Type 0 where
  not_found : Answer
  -- the address and the port of the child that has the file, and its size
  found : Bytes → ℕ → ℕ → Answer

-- The answer to SEARCH_QUERY, read into a new block. The address is copied to `peerIp[20]`.
unfoldable pub read_answer : Bytes → Bytes → Run Answer
read_answer memory received =
    let pkt = overlay received memory in
    if msg_type_of pkt == MsgType.search_ans_success
    then elim (c_string (drop 12 pkt)) [
      | none ↦ fault
      | some peer_ip ↦
          if ltb 20 (length peer_ip + 1)
          then fault
          else ok (found peer_ip (get32 (drop 32 pkt)) (get32 (drop 36 pkt)))
    ]
    else ok not_found
