-- ===== src/Tests/Packets.antt =====
-- Packets to a super node that knows one child.
use net_prog.Prelude.{
  get_or-replicate, none, Option, false, inr, ℕ, ◌^◌, ◌<◌, ◌≡◌, ◌≢◌, refl, true, some, List, [],
  ◌∷◌, ◌++◌, arith, length, replicate, take, All, length-replicate,
}
use net_prog.Child.{hello_from_child_packet, is_greeted, is_delimiter, strtok, read_command}
use net_prog.Child.Hello.{hello-announce-query}
use net_prog.MsgType
use net_prog.Run.{ok, fault, Returns}
use net_prog.Super.Node.{Node, Env, IsEnv, reply, Reaction, react, header, header_len}
use net_prog.Super.Request.{handle_client_request, read_store_struct, store_struct}
use net_prog.Super.Request.Announced.{Succeeds, announce-share}
use net_prog.Super.Request.Entries.{IsInfo, read_store_struct-store_struct}
use net_prog.Super.Request.Files.{infos}
use net_prog.Super.Request.Query.{search_query_packet, deliver-query_unknown}
use net_prog.Super.Request.Replicate.{file_info_packet, share_packet}
use net_prog.Super.Request.Share.{deliver-share_long}
use net_prog.Super.Request.Stored.{AllInserted}
use net_prog.Super.Table.{Text, FileInfo, init_file_info_table}
use net_prog.Super.Table.Home.{IsAscii}
use net_prog.Super.Table.Probe.{at, init-IsValid}

abbrev env : Env
env = record {
  client_ip = 49 ∷ [];
  memory = λ n. replicate n 170;
  stack = replicate 12 170;
  connects = true;
  answer = some [];
}

is_env : IsEnv env
is_env = record { sized = λ n. length-replicate {A = ℕ} n 170 }

abbrev node : Node
node = record {
  table = init_file_info_table;
  child_ports = record { id = 7; port_num = 4000 } ∷ [];
  other_super_ip_addr = 50 ∷ [];
  other_super_port_num = 5000;
}

empty-len : node.table.len ≡ 0
unfolding init_file_info_table
empty-len = refl

abbrev files : List (Text × ℕ)
files = (97 ∷ [], 5) ∷ (98 ∷ 99 ∷ [], 6) ∷ []

abbrev entries : List FileInfo
entries = infos env 4000 files

fits : All IsInfo entries
fits = (
  is_info (97 ∷ []) 5 tt (omega arith) (omega arith),
  (is_info (98 ∷ 99 ∷ []) 6 tt (omega arith) (omega arith), tt),
)
  where
    is_info :
        (name : Text) (size : ℕ)
        → net_prog.Wire.IsText name
        → length name < 96
        → size < 2 ^ 32
        → IsInfo (record { file_name = name; file_size = size; ip_addr = 49 ∷ []; port_num = 4000 })
    is_info name size text short small = record {
      name_text = text;
      name_fits = short;
      ip_text = tt;
      ip_fits = omega arith;
      size_fits = small;
      port_fits = omega arith;
    }

ascii : All (λ e. IsAscii e.file_name) entries
ascii = ((omega arith, tt), ((omega arith, (omega arith, tt)), tt))

nonzero : ◌≢◌ {A = ℕ} 4000 0
nonzero = omega arith

-- A node that another child has joined.
abbrev lobby : Node
lobby = record node {
  child_ports = record { id = 3; port_num = 9 } ∷ record { id = 7; port_num = 0 } ∷ [];
}

hello-announce-query_example :
    (welcome : Reaction) × (r : Reaction) × (handle_client_request 1
        (some (hello_from_child_packet 7 4000))
        env
        lobby
      ≡ ok welcome)
    × (welcome.events ≡ reply (header header_len 1 MsgType.hello_from_super) ∷ [])
    × (is_greeted (header header_len 1 MsgType.hello_from_super) ≡ true)
    × (handle_client_request 1 (some (file_info_packet env 7 entries)) env welcome.node ≡ ok r)
    × (r.exits ≡ false)
    × All (λ e. Succeeds 1 env r.node (search_query_packet env 7 e.file_name) e.file_name) entries
hello-announce-query_example =
    hello-announce-query 1 env env is_env 7 4000 lobby (record { id = 3; port_num = 9 } ∷ []) []
      (record { id = 7; port_num = 0 }) files (omega arith) (omega arith) nonzero refl
      ((omega arith, omega arith), tt) refl (omega arith) fits ascii init-IsValid
      (omega (arith, empty-len)) (inr ([], refl))

-- "get a b"
-- A blank line.
blank_line : read_command (10 ∷ []) ≡ fault
unfolding read_command strtok is_delimiter
blank_line = refl

announce-share_example :
    Returns
      (handle_client_request 2 (some (share_packet env 1 entries)) env node)
      λ r. AllInserted node.table entries r.node.table
announce-share_example =
    announce-share 2 1 env env is_env node entries (omega arith) fits ascii init-IsValid
      (omega (arith, empty-len))

abbrev eleven : List FileInfo
eleven =
    replicate 11 (record { file_name = 97 ∷ []; file_size = 5; ip_addr = 49 ∷ []; port_num = 4000 })

deliver-share_long_example :
    handle_client_request 2 (some (take 1020 (share_packet env 1 eleven))) env node
    ≡ ok (react node (reply env.stack ∷ []))
deliver-share_long_example = deliver-share_long 2 env node env 1 eleven (omega arith) (omega arith)

no_entry : (j : ℕ) → at node.table.file_info_list j ≡ none
unfolding init_file_info_table
no_entry j = get_or-replicate {A = Option FileInfo} 1000 j none

deliver-query_unknown_example :
    handle_client_request 1 (some (search_query_packet env 7 (97 ∷ []))) env node ≡ fault
deliver-query_unknown_example =
    deliver-query_unknown 1 env node env is_env 7 (97 ∷ []) tt (omega arith) (omega arith, tt)
      init-IsValid (omega (arith, empty-len)) (λ j e stored extends. cc (no_entry j))

read_store_struct-store_struct_example :
    read_store_struct (
      store_struct env
        (record { file_name = 97 ∷ []; file_size = 5; ip_addr = 49 ∷ []; port_num = 4000 })
      ++ 1 ∷ [])
    ≡ ok (record { file_name = 97 ∷ []; file_size = 5; ip_addr = 49 ∷ []; port_num = 4000 })
read_store_struct-store_struct_example =
    read_store_struct-store_struct env is_env
      (record { file_name = 97 ∷ []; file_size = 5; ip_addr = 49 ∷ []; port_num = 4000 }) (1 ∷ [])
      fits.0
