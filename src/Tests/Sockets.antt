-- ===== src/Tests/Sockets.antt =====
-- A system that creates sockets and refuses to connect them, and the addresses of two clients.
use net_prog.Prelude.{ℕ, ◌+◌, ◌≡◌, refl, true, false, some, [], ◌∷◌, length, map, take, replicate}
use net_prog.Pool.Turn.Address.{sin_addr, client_addrs, client_addrs-first}
use net_prog.Socket.{connects, Os, Sockets, open_nb_server_sock, open_server_sock, query_rounds}
use net_prog.Socket.Leaks.{refusals, query_rounds-leak}
use net_prog.Socket.Opened.{Opens, open_nb_server_sock-Opens}
use net_prog.Wire.{Bytes, overlay}

abbrev start : Sockets
start = record { open_fds = 0 ∷ []; calls = [] }

abbrev refusing : ℕ → Os
refusing fd = record {
  socket = some fd;
  get_flags = λ fd. some 2;
  succeeds = λ call. elim call [ connects fd ip_addr port_num ↦ false | _ ↦ true ];
}

open_nb_server_sock-Opens_example :
    Opens open_nb_server_sock (refusing 3) 70000 start
    × Opens open_server_sock (refusing 3) 70000 start
open_nb_server_sock-Opens_example = open_nb_server_sock-Opens (refusing 3) 70000 start

query_rounds-leak_example :
    length (query_rounds (49 ∷ []) 80 (refusing 3 ∷ refusing 4 ∷ []) start).open_fds
    ≡ refusals (49 ∷ []) 80 (refusing 3 ∷ refusing 4 ∷ []) + length start.open_fds
query_rounds-leak_example = query_rounds-leak (49 ∷ []) 80 (refusing 3 ∷ refusing 4 ∷ []) start

-- An address of a family, a port, four bytes of its own and eight of padding.
abbrev addr_of : ℕ → Bytes
addr_of n = 2 ∷ 0 ∷ 0 ∷ 80 ∷ n ∷ n ∷ n ∷ n ∷ 0 ∷ 0 ∷ 0 ∷ 0 ∷ 0 ∷ 0 ∷ 0 ∷ 0 ∷ []

abbrev fills : ℕ → Bytes → Bytes → Bytes × ℕ
fills len client held = (overlay (take len client) held, length client)

client_addrs-first_example :
    map sin_addr (client_addrs fills (replicate 16 170) (addr_of 7 ∷ addr_of 8 ∷ []))
    ≡ sin_addr (replicate 16 170) ∷ map sin_addr (addr_of 8 ∷ [])
client_addrs-first_example =
    client_addrs-first fills (replicate 16 170) (addr_of 7) (addr_of 8 ∷ [])
      (record { fills_lem = λ len client held. refl }) refl (refl, tt)
