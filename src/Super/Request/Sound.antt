-- ===== src/Super/Request/Sound.antt =====
-- Whatever bytes arrive, a handler that returns keeps the table sound and loses no entry.
use net_prog.Prelude.{
  ℕ, zero, suc, ◌≡◌, refl, sym, inl, inr, Option, none, some, List, [], ◌∷◌, ◌==◌, ltb, ◌||◌,
  length, take, drop, replicate, Bool-cases, arith,
}
use mathlib.Core.Path.{subst}
use net_prog.MsgType
use net_prog.Run.{Run, ok, fault, ◌>>=◌, bind-ok, ok_same, fault-ok}
use net_prog.Super.Node.{
  Node, Env, Event, reply, Reaction, react, max_files, total_len_of, id_of, msg_type_of,
}
use net_prog.Super.Request.{
  recv_size, search_ans_success, Progress, read_file_information, read_store_struct, store_files,
  store_shared, share_files, announce, accept_files, handle_file_info, handle_search_query,
  acknowledge, accept_shared, handle_file_info_share, handle_hello_from_child,
  handle_hello_super_to_super, handle_client_request, find_child_port,
}
use net_prog.Super.Table.{FileInfo, insert_file_info, search_file_info}
use net_prog.Super.Table.Sound.{IsSound, Grows, Grows-refl, Grows-trans, insert_file_info-Grows}
use net_prog.Wire.{Bytes, get32, overlay, c_string}

store_files-Grows :
    (env : Env) (port n : ℕ) (files : Bytes) (p q : Progress)
    → IsSound p.table
    → store_files env port n files p ≡ ok q
    → Grows p.table q.table
unfolding store_files
store_files-Grows env port zero files p q sound h =
    subst (λ r. Grows p.table r.table) (ok_same h) (Grows-refl p.table sound)
store_files-Grows env port (suc n) files p q sound h =
    let ((name, size), read, rest) = bind-ok (read_file_information files) _ q h in
    let info : FileInfo = record {
      file_name = name;
      file_size = size;
      ip_addr = env.client_ip;
      port_num = port;
    } in
    let ((status, table), inserted, others) = bind-ok (insert_file_info info p.table) _ q rest in
    let first = insert_file_info-Grows p.table info sound status table inserted in
    Grows-trans p.table table q.table first
      (store_files-Grows env port n (drop 100 files) _ q first.0 others)

store_shared-Grows :
    (env : Env) (n : ℕ) (files : Bytes) (p q : Progress)
    → IsSound p.table
    → store_shared env n files p ≡ ok q
    → Grows p.table q.table
unfolding store_shared
store_shared-Grows env zero files p q sound h =
    subst (λ r. Grows p.table r.table) (ok_same h) (Grows-refl p.table sound)
store_shared-Grows env (suc n) files p q sound h =
    let (info, read, rest) = bind-ok (read_store_struct files) _ q h in
    let ((status, table), inserted, others) = bind-ok (insert_file_info info p.table) _ q rest in
    let first = insert_file_info-Grows p.table info sound status table inserted in
    Grows-trans p.table table q.table first
      (store_shared-Grows env n (drop 124 files) _ q first.0 others)

share_files-table :
    (env : Env) (packet : Bytes) (events : List Event) (node : Node)
    → (share_files env packet events node).node.table ≡ node.table
unfolding share_files
share_files-table env packet events node = ground arith

module _ (id : ℕ) (env : Env) (node : Node) (sound : IsSound node.table) where
  -- What a handler that returns does to the table.
  abbrev Handled : Run Reaction → Type 0
  Handled run = (r : Reaction) → run ≡ ok r → Grows node.table r.node.table

  -- The handlers that leave the table alone.
  Handled-same :
      (n : Node) (events : List Event) → n.table ≡ node.table → Handled (ok (react n events))
  Handled-same n events same r h =
      subst (λ x. Grows node.table x.node.table) (ok_same h)
        (subst (Grows node.table) (sym same) (Grows-refl node.table sound))

  Handled-fault : Handled fault
  Handled-fault r h = absurd (fault-ok h)

  announce-Handled :
      (port count : ℕ) (files : Bytes) → Handled (announce id port count files env node)
  unfolding announce
  announce-Handled port count files r h =
      let (done, stored, ends) = bind-ok (store_files env port count files _) _ r h in
      let grows = store_files-Grows env port count files _ done sound stored in
      subst (λ x. Grows node.table x.node.table) (ok_same ends)
        (subst (Grows node.table) (sym (share_files-table env _ _ _)) grows)

  accept_files-Handled : (port : ℕ) (bytes : Bytes) → Handled (accept_files id port bytes env node)
  unfolding accept_files
  accept_files-Handled port bytes =
      elim (Bool-cases (ltb (length bytes) 16 || ltb max_files (get32 (drop 12 bytes)))) [
        | inl bad ↦ rw bad Handled-fault
        | inr good ↦ rw good (announce-Handled port (get32 (drop 12 bytes)) (drop 16 bytes))
      ]

  handle_file_info-Handled :
      (bytes_read : ℕ) (bytes : Bytes) → Handled (handle_file_info id bytes_read bytes env node)
  unfolding handle_file_info
  handle_file_info-Handled bytes_read bytes =
      elim (Bool-cases (ltb bytes_read (total_len_of bytes))) [
        | inl short ↦ rw short (Handled-same node _ refl)
        | inr whole ↦ elim (Bool-cases (find_child_port (id_of bytes) node.child_ports == 0)) [
          | inl unknown ↦ rw (whole, unknown) (Handled-same node [] refl)
          | inr known ↦
              rw (whole, known)
                (accept_files-Handled (find_child_port (id_of bytes) node.child_ports)
                  (take (total_len_of bytes) bytes))
        ]
      ]

  acknowledge-Handled :
      (total_len count : ℕ) (files : Bytes)
      → Handled (acknowledge id total_len count files env node)
  unfolding acknowledge
  acknowledge-Handled total_len count files r h =
      let (done, stored, ends) = bind-ok (store_shared env count files _) _ r h in
      subst (λ x. Grows node.table x.node.table) (ok_same ends)
        (store_shared-Grows env count files _ done sound stored)

  accept_shared-Handled : (bytes : Bytes) → Handled (accept_shared id bytes env node)
  unfolding accept_shared
  accept_shared-Handled bytes =
      elim (Bool-cases (ltb (length bytes) 16 || ltb max_files (get32 (drop 12 bytes)))) [
        | inl bad ↦ rw bad Handled-fault
        | inr good ↦
            rw good
              (acknowledge-Handled (total_len_of bytes) (get32 (drop 12 bytes)) (drop 16 bytes))
      ]

  handle_file_info_share-Handled :
      (bytes_read : ℕ) (bytes : Bytes)
      → Handled (handle_file_info_share id bytes_read bytes env node)
  unfolding handle_file_info_share
  handle_file_info_share-Handled bytes_read bytes =
      elim (Bool-cases (ltb bytes_read (total_len_of bytes))) [
        | inl short ↦ rw short (Handled-same node _ refl)
        | inr whole ↦ rw whole (accept_shared-Handled (take (total_len_of bytes) bytes))
      ]

  answered-Handled :
      (found : Option FileInfo)
      → Handled (elim found [
        | none ↦ fault
        | some info ↦ ok (react node (reply (search_ans_success id env info) ∷ []))
      ])
  answered-Handled none = Handled-fault
  answered-Handled (some info) = Handled-same node _ refl

  searched-Handled :
      (name : Option Bytes)
      → Handled (elim name [
        | none ↦ fault
        | some key ↦ search_file_info key node.table.file_info_list >>= λ found. elim found [
          | none ↦ fault
          | some info ↦ ok (react node (reply (search_ans_success id env info) ∷ []))
        ]
      ])
  searched-Handled none r h = absurd (fault-ok h)
  searched-Handled (some key) r h =
      let (found, searched, ends) =
        bind-ok (search_file_info key node.table.file_info_list) _ r h in
      answered-Handled found r ends

  handle_search_query-Handled : (bytes : Bytes) → Handled (handle_search_query id bytes env node)
  unfolding handle_search_query
  handle_search_query-Handled bytes = elim (Bool-cases (ltb 108 (total_len_of bytes))) [
    | inl long ↦ rw long Handled-fault
    | inr fits ↦ rw fits (searched-Handled (c_string (drop 12 (take (total_len_of bytes) bytes))))
  ]

  -- So does the handler of any packet, and of a failed read.
  pub handle_client_request-Grows :
      (received : Option Bytes) → Handled (handle_client_request id received env node)
  unfolding handle_client_request handle_hello_from_child handle_hello_super_to_super
  handle_client_request-Grows none = Handled-same node [] refl
  handle_client_request-Grows (some received) =
      let bytes = overlay received (replicate recv_size 0) in
      elim (Bool-cases (msg_type_of bytes == MsgType.hello_from_child)) [
        | inl e ↦ rw e (Handled-same _ _ refl)
        | inr e ↦ elim (Bool-cases (msg_type_of bytes == MsgType.hello_super_to_super)) [
          | inl e₁ ↦ rw (e, e₁) (Handled-same _ _ refl)
          | inr e₁ ↦ elim (Bool-cases (msg_type_of bytes == MsgType.file_info)) [
            | inl e₂ ↦ rw (e, e₁, e₂) (handle_file_info-Handled (length received) bytes)
            | inr e₂ ↦ elim (Bool-cases (msg_type_of bytes == MsgType.search_query)) [
              | inl e₃ ↦ rw (e, e₁, e₂, e₃) (handle_search_query-Handled bytes)
              | inr e₃ ↦ elim (Bool-cases (msg_type_of bytes == MsgType.file_info_share)) [
                | inl e₄ ↦
                    rw (e, e₁, e₂, e₃, e₄) (handle_file_info_share-Handled (length received) bytes)
                | inr e₄ ↦ rw (e, e₁, e₂, e₃, e₄) (Handled-same node [] refl)
              ]
            ]
          ]
        ]
      ]
