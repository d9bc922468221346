-- ===== src/Child/Fetch/Announced.antt =====
-- From one child to another: a file is announced to a super node by the child that has it, asked for
-- by another child, and sent by the first one.
use net_prog.Prelude.{
  ℕ, ◌^◌, ◌<◌, ◌≡◌, ◌≢◌, refl, ap, ◌∙◌, true, false, none, some, List, [], ◌∷◌, ◌++◌, arith, length,
  All,
}
use net_prog.Child.{hello_from_child_packet, download_dir, get_word}
use net_prog.Child.Fetch.{Net, download_stored, fetch}
use net_prog.Child.Fetch.Whole.{super_node_at, peer_at, fetch-stores}
use net_prog.Child.Get.{IsWord}
use net_prog.Child.Hello.{IsOther, find_child_port-store, deliver-hello}
use net_prog.MsgType
use net_prog.Peer.{Disk}
use net_prog.Peer.Download.{Readable}
use net_prog.Run.{ok, Returns}
use net_prog.Super.Node.{ChildPort, Node, Env, IsEnv, Reaction, react, reply}
use net_prog.Super.Request.{
  reply_header, store_child_port, find_child_port, handle_client_request, share_files,
}
use net_prog.Super.Request.Announced.{Answered, share_files-exits, share_files-node}
use net_prog.Super.Request.Deliver.{deliver-file_info}
use net_prog.Super.Request.Entries.{IsInfo}
use net_prog.Super.Request.Files.{info_of, infos, insert_all}
use net_prog.Super.Request.Replicate.{file_info_packet, share_packet, recv_success_packet}
use net_prog.Super.Table.{Text, search_file_info}
use net_prog.Super.Table.Home.{IsAscii}
use net_prog.Super.Table.Insert.{insert_file_info-Inserted}
use net_prog.Super.Table.Probe.{IsValid}
use net_prog.Super.Table.Search.{search_file_info-insert}
use net_prog.Wire.{Bytes}

module _ (sid : ℕ) (env from : Env) (is : IsEnv from) (cid port : ℕ) (name : Text) (size : ℕ) where
  -- The file is found after its announcement.
  announce-found :
      (node : Node)
      → cid < 2 ^ 32
      → find_child_port cid node.child_ports ≡ port
      → port ≢ 0
      → IsInfo (info_of env port (name, size))
      → IsAscii name
      → IsValid node.table
      → node.table.len < 1000
      → search_file_info name node.table.file_info_list ≡ ok none
      → Answered env
      → Returns
          (handle_client_request sid
            (some (file_info_packet from cid (infos env port ((name, size) ∷ []))))
            env
            node)
          λ r.
            (r.exits ≡ false)
            × (search_file_info name r.node.table.file_info_list
                ≡ ok (some (info_of env port (name, size))))
  unfolding insert_all
  announce-found node small known nonzero fits ascii valid room before heard =
      let e = info_of env port (name, size) in
      let es = infos env port ((name, size) ∷ []) in
      let ((status, t), run, (_, done)) = insert_file_info-Inserted node.table e valid ascii room in
      let r : Reaction =
        share_files env (share_packet env sid es) (reply (recv_success_packet env sid es) ∷ [])
          (record node { table = t }) in
      let kept : r.node ≡ record node { table = t } = share_files-node env _ _ _ in
      (
        r,
        deliver-file_info sid env node from is cid port ((name, size) ∷ []) small known nonzero
              (omega arith) (fits, tt)
            ∙ rw run,
        (
          share_files-exits env _ _ _ heard,
          ap (λ n. search_file_info name n.table.file_info_list) kept
              ∙ search_file_info-insert {t = node.table} {u = t} e ascii valid done before,
        ),
      )

module _ (sid : ℕ) (env env' from mine : Env) (is : IsEnv from) (is' : IsEnv env')
    (is_mine : IsEnv mine) where
  -- A child whose port is not 0 and fits 32 bits says hello to a super node with a free slot
  -- before which every slot is another child's, and announces one file with an ASCII name that
  -- fits the packet's fields, which the valid table with a free cell did not find before. The
  -- other super node cannot be reached or answers. Both packets are handled, and the node does
  -- not exit. If then another child reads a line that asks for this name, without delimiters,
  -- with a destination of fewer than 99 characters, asks the super node and reaches the first
  -- child at the address that the super node holds for its connection and its port, where the
  -- file has the announced size, is not empty and shorter than 2^31 bytes and is read in blocks
  -- of 1 to 10000 bytes, then it stores exactly the content of the file, provided that the
  -- destination can be opened and takes all bytes.
  pub announce-fetch :
      (cid port bid : ℕ) (node : Node) (before after : List ChildPort) (free : ChildPort)
      (net : Net) (fuel pid : ℕ) (disk : Disk) (content : Bytes) (c d : ℕ) (req dest rest : Bytes)
      → cid < 2 ^ 32
      → port < 2 ^ 32
      → port ≢ 0
      → node.child_ports ≡ before ++ free ∷ after
      → All (IsOther cid) before
      → free.port_num ≡ 0
      → IsInfo (info_of env port (c ∷ req, length content))
      → IsAscii (c ∷ req)
      → IsValid node.table
      → node.table.len < 1000
      → search_file_info (c ∷ req) node.table.file_info_list ≡ ok none
      → Answered env
      → IsWord (c ∷ req)
      → IsWord (d ∷ dest)
      → length (d ∷ dest) < 99
      → net.peer env.client_ip port ≡ some (peer_at fuel disk pid)
      → disk.file (c ∷ req) ≡ some content
      → Readable disk.read_file
      → content ≢ []
      → length content < fuel
      → length content < 2 ^ 31
      → net.open_file (download_dir ++ d ∷ dest) ≡ true
      → net.write_file content ≡ some (length content)
      → (welcome r : Reaction) × (handle_client_request sid
            (some (hello_from_child_packet cid port))
            env
            node
          ≡ ok welcome)
        × (handle_client_request sid
              (some (file_info_packet from cid (infos env port ((c ∷ req, length content) ∷ []))))
              env
              welcome.node
            ≡ ok r)
        × (r.exits ≡ false)
        × (fetch mine bid
              (record net { super_node = some (super_node_at sid env' r.node) })
              (get_word ++ 32 ∷ (c ∷ (req ++ 32 ∷ (d ∷ (dest ++ 10 ∷ rest)))))
            ≡ ok (download_stored (download_dir ++ d ∷ dest) content))
  announce-fetch cid port bid node before after free net fuel pid disk content c d req dest rest
        small port_small nonzero slots others is_free fits ascii valid room unknown heard clean
        clean' short to_peer there reads some_bytes enough few opens writes =
      let joined : Node = record node {
        child_ports = store_child_port cid port node.child_ports;
      } in
      let known : find_child_port cid joined.child_ports ≡ port =
        ap (λ ports. find_child_port cid (store_child_port cid port ports)) slots
        ∙ find_child_port-store cid port before after free others is_free in
      let (r, run, (goes_on, found)) =
        announce-found sid env from is cid port (c ∷ req) (length content) joined small known
          nonzero fits ascii valid room unknown heard in
      (
        react joined (reply_header sid MsgType.hello_from_super ∷ []),
        r,
        deliver-hello sid cid port env node small port_small,
        run,
        goes_on,
        fetch-stores mine is_mine bid
            (record net { super_node = some (super_node_at sid env' r.node) }) sid env' r.node
            (info_of env port (c ∷ req, length content)) fuel pid disk content c d req dest rest is'
            clean clean' fits.name_text fits.name_fits short found fits refl refl to_peer there
            reads some_bytes enough few opens writes,
      )
