-- ===== src/Tests/Transfer.antt =====
-- A file of three bytes, and a server that has just started.
use net_prog.Prelude.{
  ◌≡◌, refl, sym, ap, true, false, none, some, Option, [], ◌∷◌, ◌++◌, arith, take, drop, replicate,
  take-append-drop, length-take,
}
use net_prog.Run.{ok, fault, ◌>>=◌}
use net_prog.Transfer.Client.{Client}
use net_prog.Transfer.Command
use net_prog.Transfer.Packet.{next_seq}
use net_prog.Transfer.Server.{Env, Server, answer, content, server_round}
use net_prog.Transfer.Select.{null, block, Slot, Call, handle_client_request}
use net_prog.Transfer.Select.Agrees.{Agrees, handle_client_request-Agrees}
use net_prog.Transfer.Select.Freed.{store_packet, handle_client_request-freed}
use net_prog.Prelude.{ℕ, ◌≤◌, get_elem?, length, inr}
use net_prog.Prelude.Int.{pos}
use net_prog.Pool.{FdPool, rounds_of, handle_client_fds}
use net_prog.Pool.Scan.{ready_clients}
use net_prog.Transfer.Select.Clients.{SelectServer, select_server}
use net_prog.Transfer.Select.Clients.Own.{handle_client_fds-own}
use net_prog.Transfer.Session.{session}
use net_prog.Transfer.Session.Rounds.{Willing, delivery, round-delivery_closed}
use net_prog.Transfer.Session.Whole.{Readable, session-stores}
use net_prog.Transfer.Thread.{decimal, digits_within, texts}
use net_prog.Transfer.Thread.Names.{texts-fit}
use net_prog.Wire.{Bytes, overlay}

abbrev pub env : Env
env = record {
  rand = 70000;
  realloc = λ n. true;
  open_file = λ name. true;
  write_file = λ n. some n;
}

pub willing : Willing env
willing = record { reallocs = λ n. refl; opens = λ name. refl; writes = λ n. refl }

abbrev read_file : Bytes → Option Bytes
read_file rest = some (take 4022 rest)

readable : Readable read_file
readable = record {
  at_end = refl;
  block = λ b rest. (
    b,
    take 4021 rest,
    drop 4021 rest,
    refl,
    ap (λ l. b ∷ l) (sym (take-append-drop 4021 rest)),
    omega (arith, length-take 4021 rest),
  );
}

abbrev pub client : Client
client = record {
  recv = replicate 8 0;
  data_field = [];
  sequence = 0;
  file_name = 97 ∷ 98 ∷ [];
  rest = 1 ∷ 0 ∷ 255 ∷ [];
}

abbrev server : Server
server = record { recv = []; sequence = 12; buffer = none; bytes_read = 0 }

session-stores_example :
    session 10 33 env read_file client server
    ≡ ok (record { stored = some (97 ∷ 98 ∷ [], 1 ∷ 0 ∷ 255 ∷ []); over = true })
session-stores_example =
    session-stores env willing read_file readable (97 ∷ 98 ∷ []) tt (omega arith) 10 33 client
      server refl refl refl (omega arith) (omega arith)

abbrev stale : Server
stale = record {
  recv = overlay (delivery 5 (7 ∷ [])) [];
  sequence = 12;
  buffer = some (7 ∷ []);
  bytes_read = 1;
}

round-delivery_closed_example :
    server_round env (some []) stale
    ≡ ok (
        answer
          (record stale { buffer = some (7 ∷ 7 ∷ []); bytes_read = 2 })
          (next_seq 12)
          Command.pkt_received
          false)
unfolding content
round-delivery_closed_example =
    round-delivery_closed env willing stale 5 (7 ∷ []) (omega arith) [] refl (omega arith)

abbrev fresh : Slot
fresh = record { buffer = null; last_seq_num = 12; bytes_read = 0 }

handle_client_request-Agrees_example :
    Agrees
      (handle_client_request env server.recv (some (delivery 5 (7 ∷ []))) fresh)
      (server_round env (some (delivery 5 (7 ∷ []))) server)
handle_client_request-Agrees_example =
    handle_client_request-Agrees env (delivery 5 (7 ∷ [])) fresh server
      (record { same_buffer = refl; same_seq = refl; same_count = refl })

handle_client_request-freed_example :
    (handle_client_request env []
        (some (store_packet 5 (97 ∷ [])))
        (record { buffer = block (7 ∷ []); last_seq_num = 12; bytes_read = 1 })
      >>= λ c. handle_client_request env [] (some (delivery 6 (8 ∷ []))) c.slot)
    ≡ fault
handle_client_request-freed_example =
    handle_client_request-freed env willing
      (record { buffer = block (7 ∷ []); last_seq_num = 12; bytes_read = 1 }) (7 ∷ []) (8 ∷ [])
      (97 ∷ []) [] [] 5 6 refl tt (omega arith)

-- The first number whose file name does not fit.
texts-fit_example : texts 100000 ≡ fault
texts-fit_example = texts-fit 100000

-- Thread 42 has "I am thread #42" stored in "42.txt".
decimal_42 : decimal 42 ≡ 52 ∷ 50 ∷ []
unfolding decimal digits_within
decimal_42 = refl

-- Descriptors 4 and 5 are ready; 5 sends a block, and 4 has closed its connection.
abbrev two : FdPool
two = record {
  maxfd = 5;
  read_set = λ fd. true;
  clientfd = some 4 ∷ some 5 ∷ [];
  client_addr = [];
  maxi = pos 1;
  ready_set = λ fd. true;
  nready = 2;
}

abbrev kept : SelectServer
kept = record { slots = fresh ∷ fresh ∷ []; calls = [] }

abbrev waiting_bytes : ℕ → ℕ
waiting_bytes fd = 9

abbrev sent_bytes : ℕ → Bytes
sent_bytes fd = delivery 5 (7 ∷ [])

two-inside : rounds_of two.maxi ≤ length two.clientfd
unfolding rounds_of
two-inside = omega arith

two-ready :
    ready_clients two.ready_set 0 (take (rounds_of two.maxi) two.clientfd)
    ≡ ((4, 0) ∷ []) ++ (5, 1) ∷ []
unfolding rounds_of ready_clients
two-ready = refl

two-counts :
    two.nready ≡ length (ready_clients two.ready_set 0 (take (rounds_of two.maxi) two.clientfd))
unfolding rounds_of ready_clients
two-counts = refl

one_call :
    (call : Call) × ((m : Bytes)
      → handle_client_request env m (some (delivery 5 (7 ∷ []))) fresh ≡ ok call)
unfolding handle_client_request net_prog.Transfer.Select.handle
    net_prog.Transfer.Select.data_delivery net_prog.Transfer.Select.bytes_of
    net_prog.Transfer.Select.answer net_prog.Transfer.Packet.cmd_pkt
    net_prog.Transfer.Packet.command_of net_prog.Transfer.Packet.data_len_of
    net_prog.Transfer.Packet.length_of net_prog.Wire.be16 net_prog.Wire.get16 overlay
one_call = (_, λ m. refl)

-- Every call of the handler leaves its packet on the stack.
abbrev left_behind : ℕ → SelectServer → Bytes
left_behind fd s = replicate (length s.calls) 255

handle_client_fds-own_example :
    (r : FdPool × SelectServer) × (handle_client_fds
        (select_server env left_behind waiting_bytes sent_bytes)
        two
        kept
      ≡ ok r)
    × (get_elem? r.1.slots 1 ≡ some one_call.0.slot)
handle_client_fds-own_example =
    handle_client_fds-own env left_behind waiting_bytes sent_bytes two kept ((4, 0) ∷ []) [] 8 5 1
      fresh one_call.0 two-inside two-counts two-ready refl refl one_call.1
      (
        inr (8, fresh, refl, refl, λ m. (one_call.0, one_call.1 m)),
        (inr (8, fresh, refl, refl, λ m. (one_call.0, one_call.1 m)), tt),
      )
