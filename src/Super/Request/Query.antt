-- ===== src/Super/Request/Query.antt =====
-- SEARCH_QUERY packets, and the search for files that were announced.
use net_prog.Prelude.{
  ℕ, ◌+◌, ◌%◌, ◌^◌, ◌<◌, ◌≡◌, refl, ap, ◌∙◌, none, some, Option, [], ◌∷◌, ◌++◌, arith, length, drop,
  replicate, le→ltb,
}
use net_prog.MsgType
use net_prog.Run.{ok, fault}
use net_prog.Super.Node.{Node, Env, IsEnv, reply, react, header, total_len_of, msg_type_of}
use net_prog.Super.Request.{
  recv_size, search_ans_success, handle_search_query, handle_client_request,
}
use net_prog.Super.Request.Replicate.{buffer}
use net_prog.Super.Request.Deliver.{take-buffer}
use net_prog.Super.Table.{Text, FileInfo, search_file_info}
use net_prog.Super.Table.Home.{IsAscii}
use net_prog.Super.Table.Probe.{at, IsValid}
use net_prog.Super.Table.Scan.{IsAnswer, Extends}
use net_prog.Super.Table.Search.{search_file_info-Returns}
use net_prog.Wire.{Bytes, IsText, be32, get32, overlay, strcpy, c_string}
use net_prog.Wire.RoundTrip.{length-strcpy, c_string-strcpy_whole}

-- A SEARCH_QUERY packet: lines 182 to 188 of p4/src/child.c.
unfoldable pub search_query_packet : Env → ℕ → Text → Bytes
search_query_packet env id name = header 108 id MsgType.search_query ++ strcpy (env.memory 96) name

-- The fields of a header in front of a body.
record Heads (total_len msg_type : ℕ) (body p : Bytes) : Type 0 where
  total_len_lem : total_len_of p ≡ total_len % 2 ^ 32
  msg_type_lem : msg_type_of p ≡ msg_type % 2 ^ 32
  body_lem : drop 12 p ≡ body

header-Heads :
    (total_len id msg_type : ℕ) (body : Bytes)
    → Heads total_len msg_type body (header total_len id msg_type ++ body)
unfolding header be32 get32 total_len_of msg_type_of
header-Heads total_len id msg_type body = record {
  total_len_lem = omega arith;
  msg_type_lem = omega arith;
  body_lem = refl;
}

buffer-Heads :
    (total_len id msg_type : ℕ) (body : Bytes)
    → Heads total_len msg_type
        (body ++ drop (length (header total_len id msg_type ++ body)) (replicate recv_size 0))
        (buffer (header total_len id msg_type ++ body))
unfolding header be32 get32 total_len_of msg_type_of overlay
buffer-Heads total_len id msg_type body = record {
  total_len_lem = omega arith;
  msg_type_lem = omega arith;
  body_lem = refl;
}

dispatch-query :
    (id : ℕ) (env : Env) (node : Node) (received : Bytes)
    → msg_type_of (buffer received) ≡ MsgType.search_query
    → handle_client_request id (some received) env node
      ≡ handle_search_query id (buffer received) env node
unfolding handle_client_request
dispatch-query id env node received h = rw h

length-header : (a b c : ℕ) (body : Bytes) → length (header a b c ++ body) ≡ 12 + length body
unfolding header be32
length-header a b c body = omega arith

-- A query for a name that fits its field is what the search of the table makes of it.
query-search :
    (id : ℕ) (env : Env) (node : Node) (from : Env) (is : IsEnv from) (cid : ℕ) (name : Text)
    (found : Option FileInfo)
    → IsText name
    → length name < 96
    → search_file_info name node.table.file_info_list ≡ ok found
    → handle_client_request id (some (search_query_packet from cid name)) env node ≡ elim found [
      | none ↦ fault
      | some info ↦ ok (react node (reply (search_ans_success id env info) ∷ []))
    ]
unfolding handle_search_query search_query_packet
query-search id env node from is cid name found text fits search =
    let field = strcpy (from.memory 96) name in
    let p = header 108 cid MsgType.search_query ++ field in
    let says = buffer-Heads 108 cid MsgType.search_query field in
    let long : length p ≡ 108 =
      length-header 108 cid MsgType.search_query field
      ∙ ap (λ k. 12 + k)
          (length-strcpy (from.memory 96) name (omega (arith, is.sized 96)) ∙ is.sized 96) in
    let t : total_len_of (buffer p) ≡ length p = says.total_len_lem ∙ omega arith in
    let body = (header-Heads 108 cid MsgType.search_query field).body_lem in
    let read : c_string field ≡ some name = c_string-strcpy_whole (from.memory 96) name text in
    dispatch-query id env node p says.msg_type_lem
    ∙ rw (t, le→ltb 108 (length p) (omega arith), take-buffer p, body, read, search)

-- If the search for a queried name of fewer than 96 bytes finds a file, the SEARCH_QUERY packet of
-- a child is answered with SEARCH_ANS_SUCCESS for it, and the state is not changed.
pub deliver-query :
    (id : ℕ) (env : Env) (node : Node) (from : Env) (is : IsEnv from) (cid : ℕ) (name : Text)
    (found : FileInfo)
    → IsText name
    → length name < 96
    → search_file_info name node.table.file_info_list ≡ ok (some found)
    → handle_client_request id (some (search_query_packet from cid name)) env node
      ≡ ok (react node (reply (search_ans_success id env found) ∷ []))
deliver-query id env node from is cid name found text fits search =
    query-search id env node from is cid name (some found) text fits search

-- If no name in the valid table of a super node, which has a free cell, begins with an ASCII name
-- of fewer than 96 bytes, then the SEARCH_QUERY packet of a child for this name makes the super
-- node use memory that it has freed.
pub deliver-query_unknown :
    (id : ℕ) (env : Env) (node : Node) (from : Env) (is : IsEnv from) (cid : ℕ) (name : Text)
    → IsText name
    → length name < 96
    → IsAscii name
    → IsValid node.table
    → node.table.len < 1000
    → ((j : ℕ) (e : FileInfo)
        → at node.table.file_info_list j ≡ some e
        → Extends e.file_name name
        → ⊥)
    → handle_client_request id (some (search_query_packet from cid name)) env node ≡ fault
deliver-query_unknown id env node from is cid name text fits ascii valid room unknown =
    let (found, run, answer) = search_file_info-Returns name ascii node.table valid room in
    not_found found run answer
  where
    not_found :
        (found : Option FileInfo)
        → search_file_info name node.table.file_info_list ≡ ok found
        → IsAnswer name node.table.file_info_list found
        → handle_client_request id (some (search_query_packet from cid name)) env node ≡ fault
    not_found none run answer = query-search id env node from is cid name none text fits run
    not_found (some e) run ((j, stored), extends) = absurd (unknown j e stored extends)
