-- ===== src/Super/Request/Announced.antt =====
-- From the announcement of files by a child to the queries for them, and to the other super node.
use net_prog.Prelude.{
  ℕ, ◌+◌, ◌*◌, ◌^◌, ◌<◌, ◌≤◌, ◌≡◌, ◌≢◌, refl, ◌∙◌, ◌⊎◌, inl, inr, false, Bool-cases, some, List, [],
  ◌∷◌, arith, length, All,
}
use mathlib.Core.Path.{subst}
use net_prog.Run.{ok, Returns}
use net_prog.Super.Node.{Node, Env, IsEnv, Event, reply, Reaction, react}
use net_prog.Super.Request.{search_ans_success, handle_client_request, share_files, find_child_port}
use net_prog.Super.Request.Entries.{IsInfo}
use net_prog.Super.Request.Files.{infos}
use net_prog.Super.Request.Replicate.{
  file_info_packet, share_packet, recv_success_packet, share_success_bytes, length-infos,
}
use net_prog.Super.Request.Deliver.{deliver-file_info}
use net_prog.Super.Request.Share.{deliver-share}
use net_prog.Super.Request.Stored.{AllInserted, insert_all-AllInserted}
use net_prog.Super.Request.Query.{search_query_packet, deliver-query}
use net_prog.Super.Table.{Text, FileInfo}
use net_prog.Super.Table.Home.{IsAscii}
use net_prog.Super.Table.Probe.{at, IsValid}
use net_prog.Wire.{Bytes}
use net_prog.Super.Table.Scan.{IsAnswer, Extends}
use net_prog.Super.Table.Search.{search_file_info_complete, search_file_info-Returns}

pub share_files-node :
    (env : Env) (packet : Bytes) (events : List Event) (node : Node)
    → (share_files env packet events node).node ≡ node
unfolding share_files
share_files-node env packet events node = ground arith

-- The other super node cannot be reached, or answers.
abbrev pub Answered : Env → Type 0
Answered env = (env.connects ≡ false) ⊎ ((bytes : Bytes) × (env.answer ≡ some bytes))

pub share_files-exits :
    (env : Env) (packet : Bytes) (events : List Event) (node : Node)
    → Answered env
    → (share_files env packet events node).exits ≡ false
unfolding share_files
share_files-exits env packet events node (inl alone) = rw alone
share_files-exits env packet events node (inr (bytes, answer)) = elim (Bool-cases env.connects) [
  | inl reached ↦ rw (reached, answer)
  | inr alone ↦ rw alone
]

-- A query for a name that the table holds succeeds, with a file whose name begins with it.
abbrev pub Succeeds : ℕ → Env → Node → Bytes → Text → Type 0
Succeeds id env node query name =
    (x : FileInfo) × (handle_client_request id (some query) env node
      ≡ ok (react node (reply (search_ans_success id env x) ∷ [])))
    × Extends x.file_name name

module _ (id : ℕ) (env : Env) (from : Env) (is : IsEnv from) (cid : ℕ) where
  query_stored :
      (node : Node) (j : ℕ) (e : FileInfo)
      → IsValid node.table
      → node.table.len < 1000
      → IsAscii e.file_name
      → IsInfo e
      → at node.table.file_info_list j ≡ some e
      → Succeeds id env node (search_query_packet from cid e.file_name) e.file_name
  query_stored node j e valid room ascii fits stored =
      let cells = node.table.file_info_list in
      let (x, found) =
        search_file_info_complete e.file_name ascii node.table j e valid stored refl in
      let (r, run, answer) = search_file_info-Returns e.file_name ascii node.table valid room in
      let same : r ≡ some x = cc in
      let right : IsAnswer e.file_name cells (some x) =
        subst (IsAnswer e.file_name cells) same answer in
      (
        x,
        deliver-query id env node from is cid e.file_name x fits.name_text fits.name_fits found,
        right.1,
      )

  queries_stored :
      (node : Node) (es : List FileInfo)
      → IsValid node.table
      → node.table.len < 1000
      → All (λ e. IsAscii e.file_name) es
      → All IsInfo es
      → All (λ e. (j : ℕ) × (at node.table.file_info_list j ≡ some e)) es
      → All (λ e. Succeeds id env node (search_query_packet from cid e.file_name) e.file_name) es
  queries_stored node [] valid room ascii fits stored = tt
  queries_stored node (e ∷ es) valid room ascii fits stored = (
    query_stored node stored.0.0 e valid room ascii.0 fits.0 stored.0.1,
    queries_stored node es valid room ascii.1 fits.1 stored.1,
  )

  -- If a child whose stored port is not 0 announces at most ten files with ASCII names that fit
  -- the packet's fields, to a super node whose valid table keeps an empty cell beyond them, and
  -- the other super node cannot be reached or answers, the
  -- packet is handled and the node does not exit, the table stays valid, and after that a query for any announced name is
  -- answered with SEARCH_ANS_SUCCESS for a file whose name begins with the queried one.
  pub announce-query :
      (node : Node) (port : ℕ) (fs : List (Text × ℕ))
      → cid < 2 ^ 32
      → find_child_port cid node.child_ports ≡ port
      → port ≢ 0
      → length fs ≤ 10
      → All IsInfo (infos env port fs)
      → All (λ e. IsAscii e.file_name) (infos env port fs)
      → IsValid node.table
      → node.table.len + length fs < 1000
      → Answered env
      → (r : Reaction) × (handle_client_request id
            (some (file_info_packet from cid (infos env port fs)))
            env
            node
          ≡ ok r)
        × (r.exits ≡ false)
        × IsValid r.node.table
        × All
            (λ e. Succeeds id env r.node (search_query_packet from cid e.file_name) e.file_name)
            (infos env port fs)
  announce-query node port fs small known nonzero few fits ascii valid room heard =
      let es = infos env port fs in
      let n = length-infos env port fs in
      let (t, run, done) = insert_all-AllInserted es node.table valid (omega arith) ascii in
      let r : Reaction =
        share_files env (share_packet env id es) (reply (recv_success_packet env id es) ∷ [])
          (record node { table = t }) in
      let kept : r.node ≡ record node { table = t } = share_files-node env _ _ _ in
      (
        r,
        deliver-file_info id env node from is cid port fs small known nonzero few fits ∙ rw run,
        share_files-exits env _ _ _ heard,
        rw kept done.valid,
        rw kept (
            queries_stored (record node { table = t }) es done.valid (omega (arith, done.len)) ascii
              fits done.stored),
      )

-- If one super node sends at most eight files with ASCII names that fit the packet's fields to
-- another whose valid table has room for all of them, the other handles the FILE_INFO_SHARE
-- packet, then holds every one of the files, keeps every file that it held before, and has a
-- valid table.
pub announce-share :
    (id other : ℕ) (env from : Env) (is : IsEnv from) (node : Node) (es : List FileInfo)
    → length es ≤ 8
    → All IsInfo es
    → All (λ e. IsAscii e.file_name) es
    → IsValid node.table
    → node.table.len + length es ≤ 1000
    → Returns
        (handle_client_request id (some (share_packet from other es)) env node)
        λ r. AllInserted node.table es r.node.table
announce-share id other env from is node es few fits ascii valid room =
    let (t, run, done) = insert_all-AllInserted es node.table valid room ascii in
    (
      react (record node { table = t })
          (reply (share_success_bytes env id (16 + length es * 124) es) ∷ []),
      deliver-share id env node from is other es few fits ∙ rw run,
      done,
    )
