-- ===== src/Tests/Server.antt =====
-- A super node that is joined by a child and then told of a file by it.
use net_prog.Prelude.{
  inl, inr, ◌<◌, arith, ℕ, ◌+◌, ◌≡◌, refl, true, false, none, some, Option, List, [], ◌∷◌, ◌==◌,
  if◌then◌else◌, length,
}
use net_prog.Prelude.Int.{negsuc}
use net_prog.Child.{hello_from_child_packet}
use net_prog.Pool.{FdPool, init_pool}
use net_prog.Pool.Turn.{serve_turns}
use net_prog.Run.{Run, fault, out_of_fuel, ok, Returns}
use net_prog.Super.Node.{ChildPort, Node}
use net_prog.Super.Request.Files.{infos}
use net_prog.Super.Request.Replicate.{file_info_packet}
use net_prog.Super.Server.{SuperServer, SuperTurn, super_turns, super_server}
use net_prog.Super.Server.Returns.{Quiet, IsQuiet, super_server-Returns}
use net_prog.Super.Request.Query.{search_query_packet}
use net_prog.Super.Table.Insert.{slot}
use net_prog.Pool.Valid.{IsValid}
use net_prog.Super.Server.Sound.{super_server-Grows}
use net_prog.Super.Start.{start_node}
use net_prog.Super.Table.Sound.{IsSound, Keeps}
use net_prog.Tests.Clients.{memory, accept_4, accept_4-fresh}
use net_prog.Tests.Download.{env, is_env}
use net_prog.Tests.Table.{text_a, text_a-IsAscii, file, with_a, table_a, stored_a}
use net_prog.Wire.{Bytes}

abbrev free_port : ChildPort
free_port = record { id = 0; port_num = 0 }

-- Descriptor 4 is accepted.
abbrev opening : SuperTurn
opening = record {
  select = λ maxfd watched. some (watched, 1);
  accept = accept_4;
  ioctl = λ fd. some 16;
  read = λ fd. none;
  env = λ fd addr. env;
}

-- A packet comes from it.
abbrev arriving : Bytes → SuperTurn
arriving bytes = record {
  select = λ maxfd watched. some (λ fd. fd == 4, 1);
  accept = accept_4;
  ioctl = λ fd. some 16;
  read = λ fd. some bytes;
  env = λ fd addr. env;
}

abbrev first_turns : List SuperTurn
first_turns = opening ∷ arriving (hello_from_child_packet 7 4000) ∷ []

abbrev later_turns : List SuperTurn
later_turns = arriving (file_info_packet env 7 (infos env 4000 ((97 ∷ [], 5) ∷ []))) ∷ []

abbrev value_of {ℓ} : {A : Type ℓ} → Run A → A → A
value_of (ok a) default = a
value_of fault default = default
value_of out_of_fuel default = default

abbrev begun : FdPool × SuperServer
begun =
    value_of (super_server 1 3 first_turns (memory (negsuc 0)) (start_node (free_port ∷ []) [] 0))
      (memory (negsuc 0), record { node = start_node [] [] 0; sent = []; exited = false })

abbrev ended : FdPool × SuperServer
ended = value_of (serve_turns 3 (super_turns 1 later_turns) begun.0 begun.1) begun

-- Both runs return, and the file is stored.
runs :
    (super_server 1 3 first_turns (memory (negsuc 0)) (start_node (free_port ∷ []) [] 0)
      ≡ ok (begun.0, begun.1))
    × (serve_turns 3 (super_turns 1 later_turns) begun.0 begun.1 ≡ ok (ended.0, ended.1))
    × (ended.1.node.table.len ≡ 1)
unfolding super_server super_turns serve_turns init_pool net_prog.Pool.Turn.poll
    net_prog.Super.Server.super_turn net_prog.Pool.Turn.greet net_prog.Pool.Turn.accept_client
    net_prog.Pool.add_client net_prog.Pool.handle_client_fds net_prog.Pool.scan
    net_prog.Pool.rounds_of net_prog.Pool.visit net_prog.Pool.serve
    net_prog.Super.Server.serve_request net_prog.Super.Request.handle_client_request
    net_prog.Super.Node.msg_type_of net_prog.Wire.get32 net_prog.Wire.overlay
    hello_from_child_packet net_prog.Super.Packet.packet net_prog.Pool.close_client
    net_prog.Pool.fd_clr net_prog.Pool.fd_set net_prog.Pool.find_slot net_prog.Pool.raise_maxi
    net_prog.Prelude.Int.rem net_prog.Prelude.Int.◌+ℤ◌ net_prog.Super.Node.header
    net_prog.Super.Node.id_of net_prog.Super.Node.total_len_of net_prog.Super.Request.accept_files
    net_prog.Super.Request.announce net_prog.Super.Request.find_child_port
    net_prog.Super.Request.handle_file_info net_prog.Super.Request.handle_hello_from_child
    net_prog.Super.Request.read_file_information net_prog.Super.Request.reply_header
    net_prog.Super.Request.share_files net_prog.Super.Request.store_child_port
    net_prog.Super.Request.store_files net_prog.Super.Request.store_struct
    net_prog.Super.Server.after_request net_prog.Super.Table.cell_index
    net_prog.Super.Table.char_value net_prog.Super.Table.free_slot
    net_prog.Super.Table.hash_function net_prog.Super.Table.insert_file_info
    net_prog.Super.Table.sum_chars net_prog.Wire.be32 net_prog.Wire.c_string net_prog.Wire.strcpy
    start_node net_prog.Super.Table.init_file_info_table file_info_packet
    net_prog.Super.Request.Entries.child_entry
runs = (refl, refl, refl)

super_server-Grows_example :
    IsSound begun.1.node.table
    × IsSound ended.1.node.table
    × Keeps begun.1.node.table ended.1.node.table
super_server-Grows_example =
    super_server-Grows 1 3 (free_port ∷ []) [] 0 first_turns later_turns (memory (negsuc 0)) begun.0
      ended.0 begun.1 ended.1 runs.0 runs.1

-- A client is accepted, greets, and asks for the file that the table holds.
abbrev quiet_turns : List SuperTurn
quiet_turns =
    record opening { read = λ fd. some (hello_from_child_packet 7 4000) }
    ∷ arriving (hello_from_child_packet 7 4000)
    ∷ arriving (search_query_packet env 7 text_a)
    ∷ []

abbrev holding : Node
holding = record (start_node (free_port ∷ []) [] 0) { table = table_a }

greets : IsQuiet table_a (hello_from_child_packet 7 4000)
greets = inl (record {
  cid = 7;
  port = 4000;
  cid_fits = omega arith;
  port_fits = omega arith;
  is_hello = refl;
})

asks : IsQuiet table_a (search_query_packet env 7 text_a)
asks = inr (record {
  from = env;
  from_is = is_env;
  cid = 7;
  name = text_a;
  ascii = text_a-IsAscii;
  text = tt;
  short = omega arith;
  is_query = refl;
  cell = slot (file text_a) with_a.2.1.steps;
  entry = file text_a;
  stored = stored_a;
  named = refl;
})

super_server-Returns_example :
    Returns
      (super_server 1 3 quiet_turns (memory (negsuc 0)) holding)
      λ r. IsValid 3 r.0 × Quiet table_a r.1
unfolding start_node
super_server-Returns_example =
    super_server-Returns 1 3 quiet_turns (memory (negsuc 0)) holding with_a.2.1.valid
      (
        record {
          fresh = accept_4-fresh;
          bytes = λ fd. hello_from_child_packet 7 4000;
          reads = λ fd. refl;
          quiet = λ fd. greets;
        },
        (
          record {
            fresh = accept_4-fresh;
            bytes = λ fd. hello_from_child_packet 7 4000;
            reads = λ fd. refl;
            quiet = λ fd. greets;
          },
          (
            record {
              fresh = accept_4-fresh;
              bytes = λ fd. search_query_packet env 7 text_a;
              reads = λ fd. refl;
              quiet = λ fd. asks;
            },
            tt,
          ),
        ),
      )
      tt
