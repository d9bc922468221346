-- ===== src/Super/Request/Files.antt =====
-- The loops over the files of a packet, against the insertion of a list of entries.
use net_prog.Prelude.{
  ℕ, ◌*◌, ◌≡◌, refl, sym, ◌∙◌, List, [], ◌∷◌, ◌++◌, arith, length, length-append, drop-append, All,
}
use mathlib.Core.List.{append_assoc, append-nil}
use net_prog.Run.{Run, ok, ◌>>=◌, >>=-assoc, >>=-congr}
use net_prog.Super.Node.{Env, IsEnv}
use net_prog.Super.Request.{Progress, store_files, store_shared, store_struct}
use net_prog.Super.Request.Entries.{
  IsInfo, child_entry, length-store_struct, read_store_struct-store_struct,
  read_file_information-entry, length-child_entry,
}
use net_prog.Super.Table.{Text, FileInfo, FileTable, insert_file_info}
use net_prog.Wire.{Bytes, strcpy}

-- Insertions one after another, their statuses dropped.
unfoldable pub insert_all : List FileInfo → FileTable → Run FileTable
insert_all [] t = ok t
insert_all (e ∷ es) t = do (status, u) ← insert_file_info e t; insert_all es u

-- The entry that a super node makes of a file of the child at `port`.
abbrev pub info_of : Env → ℕ → Text × ℕ → FileInfo
info_of env port f = record {
  file_name = f.0;
  file_size = f.1;
  ip_addr = env.client_ip;
  port_num = port;
}

abbrev pub infos : Env → ℕ → List (Text × ℕ) → List FileInfo
infos env port [] = []
infos env port (f ∷ fs) = info_of env port f ∷ infos env port fs

abbrev pub concat : {A : Type 0} → (A → Bytes) → List A → Bytes
concat f [] = []
concat f (a ∷ as') = f a ++ concat f as'

-- The name of an entry in the packet for the child.
abbrev pub name_field : Env → FileInfo → Bytes
name_field env e = strcpy (env.memory 96) e.file_name

abbrev pub finish : Bytes → Bytes → Run FileTable → Run Progress
finish shared names r = r >>= λ t. ok (record { table = t; shared = shared; names = names })

pub length-concat :
    (env : Env) (is : IsEnv env) (es : List FileInfo)
    → All IsInfo es
    → length (concat (store_struct env) es) ≡ length es * 124
length-concat env is [] h = refl
length-concat env is (e ∷ es) h = omega (
  arith,
  length-append (store_struct env e) (concat (store_struct env) es),
  length-store_struct env is e h.0,
  length-concat env is es h.1,
)

module _ (env : Env) where
  -- The loop over the files that a super node shares inserts exactly these files, in order.
  pub store_shared-insert_all :
      (from : Env) (is : IsEnv from) (es : List FileInfo) (rest : Bytes) (p : Progress)
      → All IsInfo es
      → store_shared env (length es) (concat (store_struct from) es ++ rest) p
        ≡ finish (p.shared ++ concat (store_struct env) es) p.names (insert_all es p.table)
  unfolding store_shared insert_all
  store_shared-insert_all from is [] rest p h = rw append-nil
  store_shared-insert_all from is (e ∷ es) rest p h =
      let tail = concat (store_struct from) es ++ rest in
      rw
        (
          append_assoc (store_struct from e) (concat (store_struct from) es) rest,
          read_store_struct-store_struct from is e tail h.0,
          drop-append 124 (store_struct from e) tail (length-store_struct from is e h.0),
          ← append_assoc p.shared (store_struct env e) (concat (store_struct env) es),
        )
        (>>=-congr (insert_file_info e p.table) (λ x.
            store_shared-insert_all from is es rest
              (record { table = x.1; shared = p.shared ++ store_struct env e; names = p.names })
              h.1)
          ∙ sym (>>=-assoc (insert_file_info e p.table) (λ x. insert_all es x.1) _))

  -- The loop over the files of a child inserts an entry for each, in order, and builds the packet
  -- for the other super node from the same entries.
  pub store_files-insert_all :
      (from : Env) (is : IsEnv from) (port : ℕ) (fs : List (Text × ℕ)) (rest : Bytes) (p : Progress)
      → All IsInfo (infos env port fs)
      → store_files env port (length fs) (concat (child_entry from) (infos env port fs) ++ rest) p
        ≡ finish
            (p.shared ++ concat (store_struct env) (infos env port fs))
            (p.names ++ concat (name_field env) (infos env port fs))
            (insert_all (infos env port fs) p.table)
  unfolding store_files insert_all
  store_files-insert_all from is port [] rest p h = simp append-nil
  store_files-insert_all from is port (f ∷ fs) rest p h =
      let e = info_of env port f in
      let es = infos env port fs in
      let tail = concat (child_entry from) es ++ rest in
      rw
        (
          append_assoc (child_entry from e) (concat (child_entry from) es) rest,
          read_file_information-entry from is e tail h.0,
          drop-append 100 (child_entry from e) tail (length-child_entry from is e h.0),
          ← append_assoc p.shared (store_struct env e) (concat (store_struct env) es),
          ← append_assoc p.names (name_field env e) (concat (name_field env) es),
        )
        (>>=-congr (insert_file_info e p.table) (λ x.
            store_files-insert_all from is port fs rest
              (record {
                table = x.1;
                shared = p.shared ++ store_struct env e;
                names = p.names ++ name_field env e;
              })
              h.1)
          ∙ sym (>>=-assoc (insert_file_info e p.table) (λ x. insert_all es x.1) _))
