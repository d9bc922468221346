-- ===== src/Child/Get.antt =====
-- The command of the user and the answer to the query are read back as they were written.
use net_prog.Prelude.{
  ℕ, ◌+◌, ◌%◌, ◌^◌, ◌<◌, ◌≡◌, refl, ap, ◌∙◌, true, false, some, [], ◌∷◌, ◌++◌, arith, le→ltb,
  length, drop, length-append, append_assoc, drop-append, drop_past,
}
use net_prog.Child.{
  is_delimiter, take_word, strtok, same_text, get_word, download_dir, get_file, copied,
  read_command, found, read_answer,
}
use net_prog.MsgType
use net_prog.Run.{ok}
use net_prog.Super.Node.{Env, IsEnv, header, msg_type_of}
use net_prog.Super.Request.{search_ans_success}
use net_prog.Super.Request.Entries.{IsInfo}
use net_prog.Super.Table.{FileInfo}
use net_prog.Wire.{Bytes, IsText, be32, get32, overlay, c_string, strcpy}
use net_prog.Wire.RoundTrip.{c_string-append, get32-be32, length-strcpy}

-- No character of a word is a delimiter.
abbrev pub IsWord : Bytes → Type 0
IsWord [] = Unit
IsWord (c ∷ s) = (is_delimiter c ≡ false) × IsWord s

take_word-append :
    (word rest : Bytes) (d : ℕ)
    → IsWord word
    → is_delimiter d ≡ true
    → take_word (word ++ d ∷ rest) ≡ (word, rest)
unfolding take_word
take_word-append [] rest d clean ends = rw ends
take_word-append (c ∷ word) rest d (inside, clean) ends =
    rw (inside, take_word-append word rest d clean ends)

-- The next word of a line.
strtok-append :
    (c : ℕ) (word rest : Bytes) (d : ℕ)
    → IsWord (c ∷ word)
    → is_delimiter d ≡ true
    → strtok (c ∷ (word ++ d ∷ rest)) ≡ some (c ∷ word, rest)
unfolding strtok
strtok-append c word rest d (inside, clean) ends =
    rw (inside, take_word-append (c ∷ word) rest d (inside, clean) ends)

-- A line of get, a blank, a word of fewer than 96 characters, a blank, a word of fewer than 99
-- characters and the end of the line is read as the request for the first word, to be stored
-- under ./download/ and the second word.
pub read_command-get :
    (c d : ℕ) (req dest rest : Bytes)
    → IsWord (c ∷ req)
    → IsWord (d ∷ dest)
    → length (c ∷ req) < 96
    → length (d ∷ dest) < 99
    → read_command (get_word ++ 32 ∷ (c ∷ (req ++ 32 ∷ (d ∷ (dest ++ 10 ∷ rest)))))
      ≡ ok (get_file (c ∷ req) (download_dir ++ d ∷ dest))
unfolding read_command strtok take_word is_delimiter same_text copied
read_command-get c d req dest rest clean clean' short short' = rw (
  strtok-append c req (d ∷ (dest ++ 10 ∷ rest)) 32 clean refl,
  le→ltb 96 (length (c ∷ req) + 1) (omega arith),
  strtok-append d dest rest 10 clean' refl,
  length-append download_dir (d ∷ dest),
  le→ltb 110 (11 + length (d ∷ dest) + 1) (omega arith),
)

-- The parts of a packet behind its header.
module _ (ip : Bytes) (port size : ℕ) (field rest : Bytes) (sized : length field ≡ 20)
    (text : IsText ip) (fits : length ip < 20) where
  abbrev fields : Bytes
  fields = strcpy field ip ++ ((be32 port ++ be32 size) ++ rest)

  fields-ip : c_string fields ≡ some ip
  unfolding strcpy overlay
  fields-ip =
      rw
        (
          append_assoc (ip ++ 0 ∷ []) (drop (length (ip ++ 0 ∷ [])) field)
              ((be32 port ++ be32 size) ++ rest),
          append_assoc ip (0 ∷ [])
              (drop (length (ip ++ 0 ∷ [])) field ++ ((be32 port ++ be32 size) ++ rest)),
        )
        (c_string-append ip
          (drop (length (ip ++ 0 ∷ [])) field ++ ((be32 port ++ be32 size) ++ rest)) text)

  field_length : length (strcpy field ip) ≡ 20
  field_length = length-strcpy field ip (omega (arith, sized)) ∙ sized

  fields-port : get32 (drop 20 fields) ≡ port % 2 ^ 32
  fields-port =
      ap get32 (drop-append 20 (strcpy field ip) ((be32 port ++ be32 size) ++ rest) field_length)
      ∙ ap get32 (append_assoc (be32 port) (be32 size) rest)
      ∙ get32-be32 port (be32 size ++ rest)

  fields-size : get32 (drop 24 fields) ≡ size % 2 ^ 32
  unfolding be32
  fields-size =
      ap get32 (drop_past 20 4 (strcpy field ip) ((be32 port ++ be32 size) ++ rest) field_length)
      ∙ get32-be32 size rest

read_answer-body :
    (id port size : ℕ) (received memory body ip : Bytes)
    → overlay received memory ≡ header 40 id MsgType.search_ans_success ++ body
    → c_string body ≡ some ip
    → length ip < 20
    → get32 (drop 20 body) ≡ port
    → get32 (drop 24 body) ≡ size
    → read_answer memory received ≡ ok (found ip port size)
unfolding read_answer header msg_type_of be32 get32
read_answer-body id port size received memory body ip whole at_ip fits at_port at_size =
    let pkt = overlay received memory in
    let type_said : msg_type_of pkt ≡ MsgType.search_ans_success = ap msg_type_of whole in
    let ip_said : c_string (drop 12 pkt) ≡ some ip = ap (λ s. c_string (drop 12 s)) whole ∙ at_ip in
    let port_said : get32 (drop 32 pkt) ≡ port = ap (λ s. get32 (drop 32 s)) whole ∙ at_port in
    let size_said : get32 (drop 36 pkt) ≡ size = ap (λ s. get32 (drop 36 s)) whole ∙ at_size in
    rw (
      read_answer,
      type_said,
      ip_said,
      le→ltb 20 (length ip + 1) (omega arith),
      port_said,
      size_said,
    )

-- An entry whose strings and numbers fit their fields, sent by a super node as
-- SEARCH_ANS_SUCCESS, is read by a child as the address, the port and the size of the entry,
-- whatever the child's memory held before.
pub read_answer-search_ans_success :
    (id : ℕ) (env : Env) (info : FileInfo) (memory : Bytes)
    → IsEnv env
    → IsInfo info
    → read_answer memory (search_ans_success id env info)
      ≡ ok (found info.ip_addr info.port_num info.file_size)
unfolding search_ans_success overlay
read_answer-search_ans_success id env info memory is fits =
    let field = env.memory 20 in
    let rest = drop (length (search_ans_success id env info)) memory in
    let numbers = be32 info.port_num ++ be32 info.file_size in
    let sized = is.sized 20 in
    let port_fits = fits.port_fits in
    let size_fits = fits.size_fits in
    read_answer-body id info.port_num info.file_size (search_ans_success id env info) memory
      (strcpy field info.ip_addr ++ (numbers ++ rest)) info.ip_addr
      (append_assoc (header 40 id MsgType.search_ans_success) (strcpy field info.ip_addr ++ numbers)
          rest
        ∙ ap (λ s. header 40 id MsgType.search_ans_success ++ s)
            (append_assoc (strcpy field info.ip_addr) numbers rest))
      (fields-ip info.ip_addr info.port_num info.file_size field rest sized fits.ip_text
        fits.ip_fits)
      fits.ip_fits
      (fields-port info.ip_addr info.port_num info.file_size field rest sized fits.ip_text
          fits.ip_fits
        ∙ omega arith)
      (fields-size info.ip_addr info.port_num info.file_size field rest sized fits.ip_text
          fits.ip_fits
        ∙ omega arith)
