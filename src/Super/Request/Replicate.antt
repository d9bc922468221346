-- ===== src/Super/Request/Replicate.antt =====
-- Files that a child announces reach its super node's table and the other super node's table.
use net_prog.Prelude.{
  ℕ, suc, ◌+◌, ◌-◌, ◌*◌, ◌≡◌, refl, ap, List, [], ◌∷◌, ◌++◌, arith, length, take, replicate, All,
  length-append,
}
use mathlib.Core.List.{append-nil}
use net_prog.MsgType
use net_prog.Run.{ok, ◌>>=◌, >>=-assoc}
use net_prog.Super.Node.{Node, Env, IsEnv, reply, react}
use net_prog.Super.Packet.{packet}
use net_prog.Super.Request.{recv_size, store_struct, share_files, announce, acknowledge}
use net_prog.Super.Request.Entries.{IsInfo, child_entry, length-child_entry}
use net_prog.Super.Request.Files.{
  insert_all, infos, concat, name_field, store_files-insert_all, store_shared-insert_all,
}
use net_prog.Super.Table.{Text, FileInfo}
use net_prog.Wire.{Bytes, overlay}

-- The FILE_INFO packet of a child with an id: lines 99 to 122 of p4/src/child.c.
unfoldable pub file_info_packet : Env → ℕ → List FileInfo → Bytes
file_info_packet env id es =
    packet (16 + length es * 100) id MsgType.file_info (length es) (concat (child_entry env) es)

-- The FILE_INFO_SHARE packet for the other super node.
unfoldable pub share_packet : Env → ℕ → List FileInfo → Bytes
share_packet env id es =
    packet (16 + length es * 124) id MsgType.file_info_share (length es)
      (concat (store_struct env) es)

-- The FILE_INFO_RECV_SUCCESS packet for the child.
unfoldable pub recv_success_packet : Env → ℕ → List FileInfo → Bytes
recv_success_packet env id es =
    packet (16 + length es * 96) id MsgType.file_info_recv_success (length es)
      (concat (name_field env) es)

-- The answer to a FILE_INFO_SHARE packet of a given length.
unfoldable pub share_success_bytes : Env → ℕ → ℕ → List FileInfo → Bytes
share_success_bytes env id total_len es = take total_len (
    packet total_len id MsgType.file_info_share_success (length es)
      (concat (store_struct env) es ++ env.memory (12400 - length es * 124)))

pub length-children :
    (env : Env) (is : IsEnv env) (es : List FileInfo)
    → All IsInfo es
    → length (concat (child_entry env) es) ≡ length es * 100
length-children env is [] h = refl
length-children env is (e ∷ es) h = omega (
  arith,
  length-append (child_entry env e) (concat (child_entry env) es),
  length-child_entry env is e h.0,
  length-children env is es h.1,
)

pub length-infos :
    (env : Env) (port : ℕ) (fs : List (Text × ℕ)) → length (infos env port fs) ≡ length fs
length-infos env port [] = refl
length-infos env port (f ∷ fs) = ap suc (length-infos env port fs)

-- The receive buffer after a read.
abbrev pub buffer : Bytes → Bytes
buffer received = overlay received (replicate recv_size 0)

module _ (id : ℕ) (env : Env) (node : Node) where
  pub announce-insert_all :
      (from : Env) (is : IsEnv from) (port : ℕ) (fs : List (Text × ℕ))
      → All IsInfo (infos env port fs)
      → announce id port
          (length (infos env port fs))
          (concat (child_entry from) (infos env port fs))
          env
          node
        ≡ (insert_all (infos env port fs) node.table >>= λ t. ok (
            share_files env
              (share_packet env id (infos env port fs))
              (reply (recv_success_packet env id (infos env port fs)) ∷ [])
              (record node { table = t })))
  unfolding announce share_packet recv_success_packet
  announce-insert_all from is port fs h =
      let es = infos env port fs in
      rw
        (
          ← append-nil (concat (child_entry from) es),
          length-infos env port fs,
          store_files-insert_all env from is port fs []
              (record { table = node.table; shared = []; names = [] }) h,
        )
        (>>=-assoc (insert_all es node.table) _ _)

  pub acknowledge-insert_all :
      (from : Env) (is : IsEnv from) (total_len : ℕ) (es : List FileInfo)
      → All IsInfo es
      → acknowledge id total_len (length es) (concat (store_struct from) es) env node ≡ (
          insert_all es node.table >>= λ t. ok (
            react
              (record node { table = t })
              (reply (share_success_bytes env id total_len es) ∷ [])))
  unfolding acknowledge share_success_bytes
  acknowledge-insert_all from is total_len es h =
      rw
        (
          ← append-nil (concat (store_struct from) es),
          store_shared-insert_all env from is es []
              (record { table = node.table; shared = []; names = [] }) h,
        )
        (>>=-assoc (insert_all es node.table) _ _)
