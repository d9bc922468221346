-- ===== src/Tests/Files.antt =====
-- A child that asks for a file, a super node that knows it, and a peer that has it.
use net_prog.Prelude.{
  ℕ, ◌+◌, ◌<◌, ◌≡◌, ◌≢◌, refl, true, false, none, some, Option, inl, false, inr, Bool-cases, [],
  ◌∷◌, ◌++◌, arith, length, take, replicate, ◌==◌, if◌then◌else◌,
}
use net_prog.Prelude.Int.{pos, negsuc}
use net_prog.Child.{hello_from_child_packet, download_dir, get_word}
use net_prog.Child.Fetch.{Net, download_stored, fetch}
use net_prog.Child.Fetch.Whole.{super_node_at, peer_at, fetch-stores}
use net_prog.Peer.{Disk, receive, stores}
use net_prog.Peer.Download.{reads_of}
use net_prog.Peer.Request.{file_req_packet}
use net_prog.Peer.Server.{Answers, PeerTurn, peer_server, child_server}
use net_prog.Peer.Server.Answers.{handle_client_fds-sends}
use net_prog.Peer.Server.Returns.{IsDisk}
use net_prog.Peer.Server.Turns.{IsPeerTurn, child_server-IsValid}
use net_prog.Pool.{FdPool, rounds_of, handle_client_fds}
use net_prog.Pool.Scan.{ready_clients}
use net_prog.Pool.Valid.{IsValid}
use net_prog.Run.{ok, Returns}
use net_prog.Super.Node.{Node, Reaction}
use net_prog.Super.Request.{handle_client_request}
use net_prog.Super.Request.Files.{infos}
use net_prog.Super.Request.Replicate.{file_info_packet}
use net_prog.Super.Table.Probe.{init-IsValid}
use net_prog.Child.Fetch.Announced.{announce-fetch}
use net_prog.Wire.{Bytes, IsText, overlay, c_string, strcpy}
use net_prog.Tests.Clients.{memory, accept_4, accept_4-fresh}
use net_prog.Tests.Download.{env, is_env, read_file, readable}
use net_prog.Tests.Table.{text_a, file, table_a, found_a, empty, room, not_yet_a, text_a-IsAscii}

abbrev node : Node
node = record {
  table = table_a;
  child_ports = [];
  other_super_ip_addr = [];
  other_super_port_num = 0;
}

abbrev file_bytes : Bytes
file_bytes = 7 ∷ 0 ∷ 255 ∷ 1 ∷ 2 ∷ []

abbrev disk : Disk
disk = record {
  file = λ name. if length name == 1 then some file_bytes else none;
  read_file = read_file;
  memory = [];
}

disk-IsDisk : IsDisk 9 disk
disk-IsDisk = record { readable = readable; bounded = λ name bytes there. shorter name bytes there }
  where
    same : {b : Bytes} → ◌≡◌ {A = Option Bytes} (some file_bytes) (some b) → length b ≡ 5
    same e = cc

    none_there : {b : Bytes} → ◌≡◌ {A = Option Bytes} none (some b) → ⊥
    none_there e = cc

    shorter :
        (name bytes : Bytes)
        → (if length name == 1 then some file_bytes else none) ≡ some bytes
        → length bytes < 9
    shorter name bytes there = elim (Bool-cases (length name == 1)) [
      | inl one ↦ omega (arith, same (rw one at there))
      | inr other ↦ absurd (none_there (rw other at there))
    ]

abbrev net : Net
net = record {
  super_node = some (super_node_at 2 env node);
  peer = λ ip_addr port_num. some (peer_at 9 disk 7);
  open_file = λ name. true;
  write_file = λ bytes. some (length bytes);
}

fetch-stores_example :
    fetch env 1 net (get_word ++ 32 ∷ (97 ∷ ([] ++ 32 ∷ (98 ∷ ([] ++ 10 ∷ [])))))
    ≡ ok (download_stored (download_dir ++ 98 ∷ []) file_bytes)
unfolding net_prog.Child.is_delimiter
fetch-stores_example =
    fetch-stores env is_env 1 net 2 env node (file text_a) 9 7 disk file_bytes 97 98 [] [] [] is_env
      (refl, tt) (refl, tt) tt (omega arith) (omega arith) found_a
      (record {
        name_text = tt;
        name_fits = omega arith;
        ip_text = tt;
        ip_fits = omega arith;
        size_fits = omega arith;
        port_fits = omega arith;
      })
      refl refl refl refl readable (λ e. cc) (omega arith) (omega arith) refl refl

-- A super node with a place for a child.
abbrev lobby : Node
lobby = record node { table = empty; child_ports = record { id = 0; port_num = 0 } ∷ [] }

announce-fetch_example :
    (welcome r : Reaction) × (handle_client_request 2
        (some (hello_from_child_packet 7 4000))
        env
        lobby
      ≡ ok welcome)
    × (handle_client_request 2
          (some (file_info_packet env 7 (infos env 4000 ((text_a, 5) ∷ []))))
          env
          welcome.node
        ≡ ok r)
    × (r.exits ≡ false)
    × (fetch env 1
          (record net { super_node = some (super_node_at 2 env r.node) })
          (get_word ++ 32 ∷ (97 ∷ ([] ++ 32 ∷ (98 ∷ ([] ++ 10 ∷ [])))))
        ≡ ok (download_stored (download_dir ++ 98 ∷ []) file_bytes))
unfolding net_prog.Child.is_delimiter
announce-fetch_example =
    announce-fetch 2 env env env env is_env is_env is_env 7 4000 1 lobby [] []
      (record { id = 0; port_num = 0 }) net 9 7 disk file_bytes 97 98 [] [] [] (omega arith)
      (omega arith) (omega arith) refl tt refl
      (record {
        name_text = tt;
        name_fits = omega arith;
        ip_text = tt;
        ip_fits = omega arith;
        size_fits = omega arith;
        port_fits = omega arith;
      })
      text_a-IsAscii init-IsValid room not_yet_a (inr ([], refl)) (refl, tt) (refl, tt)
      (omega arith) refl refl readable (λ e. cc) (omega arith) (omega arith) refl refl

abbrev peer_ioctl : ℕ → Option ℕ
peer_ioctl fd = some 108

abbrev peer_read : ℕ → Option Bytes
peer_read fd = some (file_req_packet env 1 text_a)

-- The client at descriptor 4, in slot 0, is ready.
abbrev asked_pool : FdPool
asked_pool = record {
  maxfd = 4;
  read_set = λ fd. true;
  clientfd = some 4 ∷ [];
  client_addr = [];
  maxi = pos 0;
  ready_set = λ fd. fd == 4;
  nready = 1;
}

handle_client_fds-sends_example :
    (packets : net_prog.Prelude.List Bytes) × (front back : Answers) × Returns
      (handle_client_fds (peer_server 9 2 (λ fd. disk) peer_ioctl peer_read) asked_pool [])
      λ r.
        (r.1 ≡ [] ++ (front ++ (4, packets) ∷ back))
        × (receive (replicate 5 0) 5 [] [] (reads_of packets) ≡ ok (stores file_bytes))
unfolding rounds_of ready_clients file_req_packet net_prog.Super.Node.header net_prog.Wire.be32
    overlay strcpy c_string
handle_client_fds-sends_example =
    handle_client_fds-sends 9 2 (λ fd. disk) peer_ioctl peer_read (λ fd. disk-IsDisk) env 1 text_a
      file_bytes (replicate 5 0) [] asked_pool [] [] [] 4 0 107 is_env tt (omega arith)
      (omega arith) refl refl (inr (107, refl, (text_a, refl)), tt) refl refl refl (λ e. cc)
      (omega arith) refl

abbrev peer_rings : PeerTurn
peer_rings = record {
  select = λ maxfd watched. some (watched, 2);
  accept = accept_4;
  disk = λ fd. disk;
  ioctl = peer_ioctl;
  read = peer_read;
}

peer_rings-IsPeerTurn : IsPeerTurn 9 3 peer_rings
unfolding file_req_packet net_prog.Super.Node.header net_prog.Wire.be32 overlay strcpy c_string
peer_rings-IsPeerTurn = record {
  fresh = accept_4-fresh;
  disks = λ fd. disk-IsDisk;
  named = λ fd. (text_a, refl);
}

child_server-IsValid_example :
    Returns
      (child_server 9 2 3 (peer_rings ∷ peer_rings ∷ []) (memory (negsuc 0)))
      λ r. IsValid 3 r.0
child_server-IsValid_example =
    child_server-IsValid 9 2 3 (peer_rings ∷ peer_rings ∷ []) (memory (negsuc 0))
      (peer_rings-IsPeerTurn, (peer_rings-IsPeerTurn, tt)) tt
