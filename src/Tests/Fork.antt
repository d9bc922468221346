-- ===== src/Tests/Fork.antt =====
-- Two clients of the forking server, and the log of a thread of the web server.
use net_prog.Prelude.{ℕ, ◌≡◌, ◌≢◌, refl, true, none, List, [], ◌∷◌, arith, map}
use net_prog.Run.{ok}
use net_prog.Transfer.Fork.{Talk, Child, multi_server}
use net_prog.Transfer.Fork.Children.{Request, connection_of, AllServed, multi_server-AllServed}
use net_prog.Web.Log.{Clock, log_name, log_line, write_log}
use net_prog.Web.Log.Names.{log_of, write_log-apart}
use net_prog.Wire.{Bytes}
use net_prog.Tests.Transfer.{env, willing, client}

abbrev request : ℕ → Bytes → Request
request fd name = record {
  client_sock = fd;
  env = env;
  memory = [];
  sequence = 0;
  hello_seq = 70;
  delivery_seq = 71;
  store_seq = 72;
  block = 1 ∷ 2 ∷ 3 ∷ [];
  name = name;
  more = none ∷ [];
}

abbrev requests : List Request
requests = request 5 (97 ∷ []) ∷ request 6 (98 ∷ []) ∷ []

multi_server-AllServed_example :
    (children : List Child) × (multi_server 3 (map connection_of requests) (3 ∷ 0 ∷ [])
      ≡ (3 ∷ 0 ∷ [], children))
    × AllServed 3 (3 ∷ 0 ∷ []) requests children
multi_server-AllServed_example = multi_server-AllServed 3 requests (3 ∷ 0 ∷ []) (
  record {
    other = omega arith;
    willing = willing;
    small = omega arith;
    text = tt;
    short = omega arith;
  },
  (
    record {
      other = omega arith;
      willing = willing;
      small = omega arith;
      text = tt;
      short = omega arith;
    },
    tt,
  ),
)

abbrev talk : ℕ → Talk
talk n = record {
  created = true;
  finishes = true;
  rand = n;
  env = env;
  client = client;
  memory = [];
  sequence = 0;
}

abbrev noon : Clock
noon = record { hour = 12; minute = 5; second = 0; opens = λ name. true }

write_log-apart_example :
    (write_log noon 0 (49 ∷ []) 80 ≡ ok (log_of 0, log_line noon (49 ∷ []) 80))
    × (log_name 9 ≡ ok (log_of 9))
    × (log_of 0 ≢ log_of 9)
write_log-apart_example =
    write_log-apart noon 0 9 80 (49 ∷ []) refl (omega arith) (omega arith) (omega arith)
