-- ===== src/Super/Request.antt =====
-- `handleClientRequest` of p4/src/super_lib.c, a definition for each message type. `printf` and
-- `perror` are left out, and `malloc` is taken to succeed, as the source takes it. Reading a byte
-- that was never written, and writing past an object, are faults.
pub mod Entries
pub mod Files
pub mod Replicate
pub mod Deliver
pub mod Share
pub mod Stored
pub mod Query
pub mod Announced
pub mod Sound
use net_prog.Prelude.{
  ℕ, zero, suc, ◌+◌, ◌-◌, ◌*◌, Bool, true, false, ◌||◌, Option, none, some, List, [], ◌∷◌, ◌++◌,
  replicate, take, drop, length, ltb, leb, ◌==◌, if◌then◌else◌,
}
use net_prog.MsgType
use net_prog.Run.{Run, ok, fault, ◌>>=◌}
use net_prog.Super.Node.{
  ChildPort, Node, Env, Event, reply, share, Reaction, react, header_len, file_name_len,
  ip_addr_len, max_files, header, total_len_of, id_of, msg_type_of,
}
use net_prog.Super.Packet.{packet}
use net_prog.Super.Table.{Text, FileInfo, FileTable, insert_file_info, search_file_info}
use net_prog.Wire.{Bytes, be32, get32, overlay, c_string, strcpy}

abbrev pub recv_size : ℕ
recv_size = 1020

-- A packet that is a header and no more, sent back to the client.
unfoldable pub reply_header : ℕ → ℕ → Event
reply_header id msg_type = reply (header header_len id msg_type)

-- The loop that stores a child's port in the first free slot, if there is one.
unfoldable pub store_child_port : ℕ → ℕ → List ChildPort → List ChildPort
store_child_port id port [] = []
store_child_port id port (c ∷ ports) =
    if c.port_num == 0
    then record { id = id; port_num = port } ∷ ports
    else c ∷ store_child_port id port ports

unfoldable pub handle_hello_from_child : ℕ → Bytes → Node → Reaction
handle_hello_from_child id bytes node =
    react
      (record node {
        child_ports = store_child_port (id_of bytes) (get32 (drop 12 bytes)) node.child_ports;
      })
      (reply_header id MsgType.hello_from_super ∷ [])

-- The IP address is the one that is held for the connection, the port the one in the bytes.
unfoldable pub handle_hello_super_to_super : ℕ → Bytes → Env → Node → Reaction
handle_hello_super_to_super id bytes env node =
    react
      (record node {
        other_super_ip_addr = env.client_ip;
        other_super_port_num = get32 (drop 12 bytes);
      })
      (reply_header id MsgType.hello_super_to_super ∷ [])

-- The port of the first slot with the id; 0 if there is none.
unfoldable pub find_child_port : ℕ → List ChildPort → ℕ
find_child_port id [] = 0
find_child_port id (c ∷ ports) = if c.id == id then c.port_num else find_child_port id ports

-- A `fileInformation`: 100 bytes with a name and a size.
unfoldable pub read_file_information : Bytes → Run (Text × ℕ)
read_file_information bytes =
    if ltb (length bytes) 100 then fault else elim (c_string (take file_name_len bytes)) [
      | none ↦ fault
      | some name ↦ ok (name, get32 (drop file_name_len bytes))
    ]

-- A `fileInfoStoreStruct` in a packet: 124 bytes with a name, a size, an address and a port.
unfoldable pub store_struct : Env → FileInfo → Bytes
store_struct env info =
    strcpy (env.memory file_name_len) info.file_name
    ++ (be32 info.file_size ++ (strcpy (env.memory ip_addr_len) info.ip_addr ++ be32 info.port_num))

unfoldable pub read_store_struct : Bytes → Run FileInfo
read_store_struct bytes =
    if ltb (length bytes) 124 then fault else elim (c_string (take file_name_len bytes)) [
      | none ↦ fault
      | some name ↦ elim (c_string (take ip_addr_len (drop 100 bytes))) [
        | none ↦ fault
        | some ip ↦ ok (record {
          file_name = name;
          file_size = get32 (drop 96 bytes);
          ip_addr = ip;
          port_num = get32 (drop 120 bytes);
        })
      ]
    ]

-- What the loops over the files of a packet have done so far.
pub record Progress : Type 0 where
  pub table : FileTable
  -- the entries of the packet for the other super node
  pub shared : Bytes
  -- the file names of the packet for the child
  pub names : Bytes

-- One round for each file left; `files` are the bytes of the packet from the current file on.
-- The status of the insertion is not looked at, as in the source.
unfoldable pub store_files : Env → ℕ → ℕ → Bytes → Progress → Run Progress
store_files env port zero files p = ok p
store_files env port (suc n) files p = do
  (name, size) ← read_file_information files
  let info : FileInfo = record {
    file_name = name;
    file_size = size;
    ip_addr = env.client_ip;
    port_num = port;
  }
  (status, table) ← insert_file_info info p.table
  store_files env port n (drop 100 files) (record {
    table = table;
    shared = p.shared ++ store_struct env info;
    names = p.names ++ strcpy (env.memory file_name_len) name;
  })

-- The packet is sent to the other super node, and its answer read; no answer changes the state.
unfoldable pub share_files : Env → Bytes → List Event → Node → Reaction
share_files env packet events node =
    if env.connects
    then (let sent =
          events ++ share node.other_super_ip_addr node.other_super_port_num packet ∷ [] in
        elim env.answer [
          | none ↦ record { node = node; events = sent; exits = true }
          | some bytes ↦ react node sent
        ])
    else react node events

-- The rest of the handler, on the file number and the entries of the packet.
unfoldable pub announce : ℕ → ℕ → ℕ → Bytes → Env → Node → Run Reaction
announce id port count files env node = do
  done ← store_files env port count files (record { table = node.table; shared = []; names = [] })
  ok (
      share_files env (packet (16 + count * 124) id MsgType.file_info_share count done.shared)
        (reply (packet (16 + count * 96) id MsgType.file_info_recv_success count done.names) ∷ [])
        (record node { table = done.table }))

-- Of the packet, what lies behind its length was never written. A number above 100 runs over the
-- end of the packets that are built.
unfoldable pub accept_files : ℕ → ℕ → Bytes → Env → Node → Run Reaction
accept_files id port bytes env node =
    if ltb (length bytes) 16 || ltb max_files (get32 (drop 12 bytes))
    then fault
    else announce id port (get32 (drop 12 bytes)) (drop 16 bytes) env node

unfoldable pub handle_file_info : ℕ → ℕ → Bytes → Env → Node → Run Reaction
handle_file_info id bytes_read bytes env node =
    if ltb bytes_read (total_len_of bytes)
    then ok (react node (reply_header id MsgType.file_info_recv_error ∷ []))
    else (let port = find_child_port (id_of bytes) node.child_ports in
        if port == 0
        then ok (react node [])
        else accept_files id port (take (total_len_of bytes) bytes) env node)

-- A `searchAnsSuccessPacket`: 40 bytes.
unfoldable pub search_ans_success : ℕ → Env → FileInfo → Bytes
search_ans_success id env info =
    header 40 id MsgType.search_ans_success
    ++ (strcpy (env.memory ip_addr_len) info.ip_addr ++ (be32 info.port_num ++ be32 info.file_size))

-- The packet's own length, unchecked, is copied into a block of 108 bytes. If nothing is found, the
-- block is freed and its name then printed.
unfoldable pub handle_search_query : ℕ → Bytes → Env → Node → Run Reaction
handle_search_query id bytes env node =
    if ltb 108 (total_len_of bytes)
    then fault
    else elim (c_string (drop 12 (take (total_len_of bytes) bytes))) [
      | none ↦ fault
      | some name ↦ do
        found ← search_file_info name node.table.file_info_list
        elim found [
          | none ↦ fault
          | some info ↦ ok (react node (reply (search_ans_success id env info) ∷ []))
        ]
    ]

-- The loop over the files that the other super node shares.
unfoldable pub store_shared : Env → ℕ → Bytes → Progress → Run Progress
store_shared env zero files p = ok p
store_shared env (suc n) files p = do
  info ← read_store_struct files
  (status, table) ← insert_file_info info p.table
  store_shared env n (drop 124 files)
      (record { table = table; shared = p.shared ++ store_struct env info; names = p.names })

-- The answer has the length of the packet that it answers.
unfoldable pub acknowledge : ℕ → ℕ → ℕ → Bytes → Env → Node → Run Reaction
acknowledge id total_len count files env node = do
  done ← store_shared env count files (record { table = node.table; shared = []; names = [] })
  ok (
      react (record node { table = done.table })
        (reply (
            take total_len (
              packet total_len id MsgType.file_info_share_success count
                (done.shared ++ env.memory (12400 - count * 124))))
          ∷ []))

unfoldable pub accept_shared : ℕ → Bytes → Env → Node → Run Reaction
accept_shared id bytes env node =
    if ltb (length bytes) 16 || ltb max_files (get32 (drop 12 bytes))
    then fault
    else acknowledge id (total_len_of bytes) (get32 (drop 12 bytes)) (drop 16 bytes) env node

-- On a short packet the source writes the bytes of its local pointer, not the error packet.
unfoldable pub handle_file_info_share : ℕ → ℕ → Bytes → Env → Node → Run Reaction
handle_file_info_share id bytes_read bytes env node =
    if ltb bytes_read (total_len_of bytes)
    then ok (react node (reply env.stack ∷ []))
    else accept_shared id (take (total_len_of bytes) bytes) env node

-- `received` is what the read returned, `none` for an error. The buffer was zeroed.
unfoldable pub handle_client_request : ℕ → Option Bytes → Env → Node → Run Reaction
handle_client_request id none env node = ok (react node [])
handle_client_request id (some received) env node =
    let bytes = overlay received (replicate recv_size 0) in
    let msg_type = msg_type_of bytes in
    if msg_type == MsgType.hello_from_child
    then ok (handle_hello_from_child id bytes node)
    else if msg_type == MsgType.hello_super_to_super
    then ok (handle_hello_super_to_super id bytes env node)
    else if msg_type == MsgType.file_info
    then handle_file_info id (length received) bytes env node
    else if msg_type == MsgType.search_query
    then handle_search_query id bytes env node
    else if msg_type == MsgType.file_info_share
    then handle_file_info_share id (length received) bytes env node
    else ok (react node [])
