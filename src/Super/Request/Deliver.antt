-- ===== src/Super/Request/Deliver.antt =====
-- `handleClientRequest` on the packets that list files, as the other nodes write them.
use net_prog.Prelude.{
  ℕ, ◌+◌, ◌*◌, ◌%◌, ◌^◌, ◌<◌, ◌≤◌, ◌≡◌, ◌≢◌, refl, ap, ◌∙◌, some, List, [], ◌∷◌, ◌++◌, arith,
  length, take, drop, replicate, All, le→ltb, ne→==, take-append,
}
use net_prog.MsgType
use net_prog.Run.{ok, ◌>>=◌}
use net_prog.Super.Node.{Node, Env, IsEnv, reply, total_len_of, id_of, msg_type_of}
use net_prog.Super.Packet.{packet, Says, packet-Says, packet-Says_whole, length-packet}
use net_prog.Super.Request.{
  recv_size, share_files, accept_files, accept_shared, announce, acknowledge, find_child_port,
  handle_file_info, handle_file_info_share, handle_client_request,
}
use net_prog.Super.Request.Entries.{IsInfo, child_entry}
use net_prog.Super.Request.Files.{insert_all, infos, concat}
use net_prog.Super.Request.Replicate.{
  file_info_packet, share_packet, recv_success_packet, length-children, length-infos, buffer,
  announce-insert_all,
}
use net_prog.Super.Table.{Text}
use net_prog.Wire.{Bytes, overlay, get32}

pub buffer-Says :
    (total_len id msg_type count : ℕ) (body : Bytes)
    → Says total_len id msg_type count
        (body ++ drop (length (packet total_len id msg_type count body)) (replicate recv_size 0))
        (buffer (packet total_len id msg_type count body))
unfolding overlay
buffer-Says total_len id msg_type count body = packet-Says total_len id msg_type count body _

pub take-buffer : (received : Bytes) → take (length received) (buffer received) ≡ received
unfolding overlay
take-buffer received = take-append (length received) received _ refl

mod_small : (count : ℕ) → count ≤ 100 → count % 2 ^ 32 ≡ count
mod_small count fits = omega arith

module _ (id : ℕ) (env : Env) (node : Node) (received : Bytes) where
  pub dispatch-file_info :
      msg_type_of (buffer received) ≡ MsgType.file_info
      → handle_client_request id (some received) env node
        ≡ handle_file_info id (length received) (buffer received) env node
  unfolding handle_client_request
  dispatch-file_info h = rw h

  pub dispatch-share :
      msg_type_of (buffer received) ≡ MsgType.file_info_share
      → handle_client_request id (some received) env node
        ≡ handle_file_info_share id (length received) (buffer received) env node
  unfolding handle_client_request
  dispatch-share h = rw h

-- The parts of the handlers behind the checks, on a whole packet.
module _ (id : ℕ) (env : Env) (node : Node) (total_len cid msg_type count : ℕ) (body : Bytes)
    (fits : count ≤ 100) where
  abbrev whole : Bytes
  whole = packet total_len cid msg_type count body

  accept_files-packet :
      (port : ℕ) → accept_files id port whole env node ≡ announce id port count body env node
  unfolding accept_files
  accept_files-packet port =
      let says = packet-Says_whole total_len cid msg_type count body in
      let n : get32 (drop 12 whole) ≡ count = says.count_lem ∙ mod_small count fits in
      rw (
        le→ltb (length whole) 16 (omega (arith, length-packet total_len cid msg_type count body)),
        n,
        le→ltb 100 count fits,
        says.body_lem,
      )

  pub accept_shared-packet :
      total_len < 2 ^ 32
      → accept_shared id whole env node ≡ acknowledge id total_len count body env node
  unfolding accept_shared
  accept_shared-packet small =
      let says = packet-Says_whole total_len cid msg_type count body in
      let n : get32 (drop 12 whole) ≡ count = says.count_lem ∙ mod_small count fits in
      let t : total_len_of whole ≡ total_len = says.total_len_lem ∙ omega arith in
      rw (
        le→ltb (length whole) 16 (omega (arith, length-packet total_len cid msg_type count body)),
        n,
        le→ltb 100 count fits,
        says.body_lem,
        t,
      )

module _ (id : ℕ) (env : Env) (node : Node) (from : Env) (is : IsEnv from) where
  -- The handling of a FILE_INFO packet of at most ten files that fit its fields, from a child
  -- whose stored port is not 0: the announced entries, with the child's address and port, are
  -- inserted in order, the child is sent FILE_INFO_RECV_SUCCESS with their names, and the other
  -- super node FILE_INFO_SHARE with the same entries.
  pub deliver-file_info :
      (cid port : ℕ) (fs : List (Text × ℕ))
      → cid < 2 ^ 32
      → find_child_port cid node.child_ports ≡ port
      → port ≢ 0
      → length fs ≤ 10
      → All IsInfo (infos env port fs)
      → handle_client_request id (some (file_info_packet from cid (infos env port fs))) env node ≡ (
          insert_all (infos env port fs) node.table >>= λ t. ok (
            share_files env
              (share_packet env id (infos env port fs))
              (reply (recv_success_packet env id (infos env port fs)) ∷ [])
              (record node { table = t })))
  unfolding handle_file_info file_info_packet
  deliver-file_info cid port fs small known nonzero few h =
      let es = infos env port fs in
      let n = length-infos env port fs in
      let total = 16 + length es * 100 in
      let body = concat (child_entry from) es in
      let p = packet total cid MsgType.file_info (length es) body in
      let says = buffer-Says total cid MsgType.file_info (length es) body in
      let long : length p ≡ total =
        length-packet total cid MsgType.file_info (length es) body
        ∙ ap (λ k. 16 + k) (length-children from is es h) in
      let t : total_len_of (buffer p) ≡ length p = says.total_len_lem ∙ omega arith in
      let c : id_of (buffer p) ≡ cid = says.id_lem ∙ omega arith in
      dispatch-file_info id env node p (says.msg_type_lem)
      ∙ rw
          (
            t,
            le→ltb (length p) (length p) (omega arith),
            c,
            known,
            ne→== port 0 nonzero,
            take-buffer p,
          )
          (accept_files-packet id env node total cid MsgType.file_info (length es) body
              (omega arith) port
            ∙ announce-insert_all id env node from is port fs h)
