-- ===== src/Super/Request/Share.antt =====
-- FILE_INFO_SHARE packets between the super nodes, and packets longer than the receive buffer.
use net_prog.Prelude.{
  ℕ, ◌+◌, ◌*◌, ◌≤◌, ◌≡◌, ap, ◌∙◌, some, List, [], ◌∷◌, ◌++◌, arith, length, take, drop, replicate,
  All, le→ltb, lt→ltb, length-take,
}
use net_prog.MsgType
use net_prog.Run.{ok, ◌>>=◌}
use net_prog.Super.Node.{Node, Env, IsEnv, reply, react, total_len_of}
use net_prog.Super.Packet.{packet, Says, packet-Says_cut, length-packet}
use net_prog.Super.Request.{
  recv_size, handle_file_info, handle_file_info_share, handle_client_request, reply_header,
  store_struct,
}
use net_prog.Super.Request.Entries.{IsInfo, child_entry}
use net_prog.Super.Request.Files.{insert_all, concat, length-concat}
use net_prog.Super.Request.Replicate.{
  file_info_packet, share_packet, share_success_bytes, buffer, acknowledge-insert_all,
}
use net_prog.Super.Request.Deliver.{
  buffer-Says, take-buffer, dispatch-file_info, dispatch-share, accept_shared-packet,
}
use net_prog.Super.Table.{FileInfo}
use net_prog.Wire.{Bytes, overlay}

-- A packet longer than the buffer is read only in part.
buffer-Says_cut :
    (total_len id msg_type count : ℕ) (body : Bytes)
    → Says total_len id msg_type count
        (take 1004 body
          ++ drop
              (length (take 1020 (packet total_len id msg_type count body)))
              (replicate recv_size 0))
        (buffer (take 1020 (packet total_len id msg_type count body)))
unfolding overlay
buffer-Says_cut total_len id msg_type count body =
    packet-Says_cut total_len id msg_type count body _

module _ (id : ℕ) (env : Env) (node : Node) (from : Env) (is : IsEnv from) where
  -- The handling of a FILE_INFO_SHARE packet of at most eight files that fit its fields: the
  -- entries are inserted in order and sent back in FILE_INFO_SHARE_SUCCESS.
  pub deliver-share :
      (other : ℕ) (es : List FileInfo)
      → length es ≤ 8
      → All IsInfo es
      → handle_client_request id (some (share_packet from other es)) env node ≡ (
          insert_all es node.table >>= λ t. ok (
            react
              (record node { table = t })
              (reply (share_success_bytes env id (16 + length es * 124) es) ∷ [])))
  unfolding handle_file_info_share share_packet
  deliver-share other es few h =
      let total = 16 + length es * 124 in
      let body = concat (store_struct from) es in
      let p = packet total other MsgType.file_info_share (length es) body in
      let says = buffer-Says total other MsgType.file_info_share (length es) body in
      let long : length p ≡ total =
        length-packet total other MsgType.file_info_share (length es) body
        ∙ ap (λ k. 16 + k) (length-concat from is es h) in
      let t : total_len_of (buffer p) ≡ length p = says.total_len_lem ∙ omega arith in
      dispatch-share id env node p (says.msg_type_lem)
      ∙ rw (t, le→ltb (length p) (length p) (omega arith), take-buffer p)
          (accept_shared-packet id env node total other MsgType.file_info_share (length es) body
              (omega arith) (omega arith)
            ∙ acknowledge-insert_all id env node from is total es h)

module _ (id : ℕ) (env : Env) (node : Node) (from : Env) where
  -- A FILE_INFO_SHARE packet of 9 to 100 files, of which one read returns the first 1020 bytes,
  -- changes nothing and is answered with twelve bytes of the stack in place of the error packet.
  pub deliver-share_long :
      (other : ℕ) (es : List FileInfo)
      → 9 ≤ length es
      → length es ≤ 100
      → handle_client_request id (some (take 1020 (share_packet from other es))) env node
        ≡ ok (react node (reply env.stack ∷ []))
  unfolding handle_file_info_share share_packet
  deliver-share_long other es many fits =
      let total = 16 + length es * 124 in
      let body = concat (store_struct from) es in
      let p = packet total other MsgType.file_info_share (length es) body in
      let says = buffer-Says_cut total other MsgType.file_info_share (length es) body in
      let t : total_len_of (buffer (take 1020 p)) ≡ total = says.total_len_lem ∙ omega arith in
      dispatch-share id env node (take 1020 p) (says.msg_type_lem)
      ∙ rw (t, lt→ltb (length (take 1020 p)) total (omega (arith, length-take 1020 p)))

  -- A FILE_INFO packet of 11 to 100 files, of which one read returns the first 1020 bytes, is
  -- answered with FILE_INFO_RECV_ERROR, and the state is not changed.
  pub deliver-file_info_long :
      (cid : ℕ) (es : List FileInfo)
      → 11 ≤ length es
      → length es ≤ 100
      → handle_client_request id (some (take 1020 (file_info_packet from cid es))) env node
        ≡ ok (react node (reply_header id MsgType.file_info_recv_error ∷ []))
  unfolding handle_file_info file_info_packet
  deliver-file_info_long cid es many fits =
      let total = 16 + length es * 100 in
      let body = concat (child_entry from) es in
      let p = packet total cid MsgType.file_info (length es) body in
      let says = buffer-Says_cut total cid MsgType.file_info (length es) body in
      let t : total_len_of (buffer (take 1020 p)) ≡ total = says.total_len_lem ∙ omega arith in
      dispatch-file_info id env node (take 1020 p) (says.msg_type_lem)
      ∙ rw (t, lt→ltb (length (take 1020 p)) total (omega (arith, length-take 1020 p)))
