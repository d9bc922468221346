-- ===== src/Transfer/Thread/Stores.antt =====
-- A client thread of p2 has its message stored.
use net_prog.Prelude.{
  ℕ, zero, suc, ◌+◌, ◌%◌, ◌<◌, ◌≤◌, ◌≡◌, refl, ap, ◌∙◌, true, false, none, some, [], ◌∷◌, ◌++◌,
  arith, length, drop, length-append, take_all,
}
use mathlib.Core.List.{append_assoc}
use net_prog.Run.{ok}
use net_prog.Transfer.Client.{Client, Turn, send, send_name, keep, say_hello}
use net_prog.Transfer.Command
use net_prog.Transfer.Packet.{cmd_pkt, command_of, next_seq}
use net_prog.Transfer.Server.{Env, Server, Round, answer, content, store_file, server_round}
use net_prog.Transfer.Session.Rounds.{
  Willing, delivery, landed, round-hello, round-delivery, round-store,
}
use net_prog.Transfer.Session.Sends.{sent_name}
use net_prog.Transfer.Session.Turns.{heard, send-packet}
use net_prog.Transfer.Thread.{
  decimal, message_start, extension, deliver_message, thread_react, thread_turn, thread_rounds,
  client_send_file,
}
use net_prog.Transfer.Thread.Names.{IsText-append, decimal-IsText, decimal-short, texts-short}
use net_prog.Wire.{Bytes, IsText, be16, get16, overlay, strcpy}

-- One round of each side, after which they go on.
module _ (env : Env) (message : Bytes) (client : Client) (server : Server) (packet reply : Bytes)
    (r : Round) (t : Turn) (replied : server_round env (some packet) server ≡ ok r)
    (is_reply : r.reply ≡ some reply) (serves_on : r.stops ≡ false)
    (turned : thread_turn message (some reply) client ≡ ok t) where
  thread_rounds-step :
      (fuel : ℕ) (next : Bytes)
      → t.sent ≡ some next
      → thread_rounds (suc fuel) env message client server packet
        ≡ thread_rounds fuel env message t.client r.server next
  unfolding thread_rounds
  thread_rounds-step fuel next is_next = rw (replied, is_reply, turned, is_next, serves_on)

module _ (message : Bytes) (client : Client) (seq : ℕ) where
  turn-hello :
      thread_turn message (some (cmd_pkt seq 8 Command.server_hello)) client
      ≡ ok (deliver_message message (heard (cmd_pkt seq 8 Command.server_hello) client))
  unfolding thread_turn thread_react overlay cmd_pkt be16 command_of get16
  turn-hello = refl

  turn-received :
      thread_turn message (some (cmd_pkt seq 8 Command.pkt_received)) client
      ≡ send_name (heard (cmd_pkt seq 8 Command.pkt_received) client)
  unfolding thread_turn thread_react overlay cmd_pkt be16 command_of get16
  turn-received = refl

  turn-stored :
      thread_turn message (some (cmd_pkt seq 8 Command.file_stored)) client
      ≡ ok (keep (heard (cmd_pkt seq 8 Command.file_stored) client) true)
  unfolding thread_turn thread_react overlay cmd_pkt be16 command_of get16
  turn-stored = refl

  sent_message :
      (deliver_message message client).sent ≡ some (delivery (next_seq client.sequence) message)
  unfolding deliver_message strcpy overlay
  sent_message =
      send-packet (record client { data_field = strcpy client.data_field message }) 0
        (8 + length message) Command.data_delivery message
        (0 ∷ drop (length (message ++ 0 ∷ [])) client.data_field)
        (append_assoc message (0 ∷ []) (drop (length (message ++ 0 ∷ [])) client.data_field)) refl

module _ (env : Env) (willing : Willing env) (message name : Bytes) (small : length message ≤ 4022)
    (text : IsText name) (short : length name + 1 ≤ 4022) where
  -- The name is on its way to the server.
  rounds-store :
      (fuel seq : ℕ) (client : Client) (server : Server)
      → server.bytes_read ≡ length (content server.buffer)
      → thread_rounds
          (suc fuel)
          env
          message
          client
          server
          (cmd_pkt seq (8 + length name + 1) Command.data_store ++ (name ++ 0 ∷ []))
        ≡ ok (record { stored = some (name, content server.buffer); over = true })
  unfolding thread_rounds store_file answer keep
  rounds-store fuel seq client server counted = rw (
    round-store env willing server seq name text short,
    store_file,
    willing.opens,
    willing.writes,
    turn-stored message client (next_seq server.sequence),
    counted,
    take_all (length (content server.buffer)) (content server.buffer) (omega arith),
  )

  -- The message is on its way to the server.
  rounds-delivery :
      (fuel seq : ℕ) (client : Client) (server : Server)
      → client.file_name ≡ name
      → content server.buffer ≡ []
      → server.bytes_read ≡ 0
      → thread_rounds (suc (suc fuel)) env message client server (delivery seq message)
        ≡ ok (record { stored = some (name, message); over = true })
  unfolding answer content
  rounds-delivery fuel seq client server named fresh zeroed =
      let acknowledged = heard (cmd_pkt (next_seq server.sequence) 8 Command.pkt_received) client in
      let (t, run, sent) = sent_name name short acknowledged named in
      let delivered : Server = record (landed (delivery seq message) server) {
        sequence = next_seq server.sequence;
        buffer = some (content server.buffer ++ message);
        bytes_read = server.bytes_read + length message;
      } in
      thread_rounds-step env message client server (delivery seq message)
        (cmd_pkt (next_seq server.sequence) 8 Command.pkt_received) _ t
        (round-delivery env willing server seq message small (omega arith)) refl refl
        (turn-received message client (next_seq server.sequence) ∙ run) (suc fuel) _ sent
      ∙ rounds-store fuel (next_seq acknowledged.sequence) t.client delivered
          (omega (arith, zeroed, ap length fresh, length-append (content server.buffer) message))
      ∙ rw fresh

  rounds-hello :
      (fuel seq : ℕ) (client : Client) (server : Server)
      → client.file_name ≡ name
      → content server.buffer ≡ []
      → server.bytes_read ≡ 0
      → thread_rounds
          (suc (suc (suc fuel)))
          env
          message
          client
          server
          (cmd_pkt seq 8 Command.client_hello)
        ≡ ok (record { stored = some (name, message); over = true })
  unfolding answer deliver_message send
  rounds-hello fuel seq client server named fresh zeroed =
      let hello = cmd_pkt seq 8 Command.client_hello in
      let seq' = env.rand % Command.max_sequence in
      let greeted = heard (cmd_pkt seq' 8 Command.server_hello) client in
      let t = deliver_message message greeted in
      thread_rounds-step env message client server hello (cmd_pkt seq' 8 Command.server_hello) _ t
        (round-hello env willing server seq) refl refl (turn-hello message client seq')
        (suc (suc fuel)) _ (sent_message message greeted seq')
      ∙ rounds-delivery fuel (next_seq greeted.sequence) t.client
          (record (landed hello server) { sequence = seq' }) named fresh zeroed

-- On a system that grants memory, opens the file and writes what it is given, a client thread of
-- p2 with a number below 100000 and a server that has stored nothing yet, whose packets arrive
-- whole: after three rounds both sides leave their loops, and the server has written "I am thread
-- #" and the decimal digits of the number to the file that is named by the digits and ".txt".
pub client_send_file-stores :
    (env : Env) (fuel rand n : ℕ) (client : Client) (server : Server)
    → Willing env
    → n < 100000
    → server.buffer ≡ none
    → server.bytes_read ≡ 0
    → 3 ≤ fuel
    → client_send_file fuel rand n env client server
      ≡ ok (record {
        stored = some (decimal n ++ extension, message_start ++ decimal n);
        over = true;
      })
unfolding client_send_file say_hello content
client_send_file-stores env zero rand n client server willing few fresh zeroed enough =
    absurd (omega arith)
client_send_file-stores env (suc zero) rand n client server willing few fresh zeroed enough =
    absurd (omega arith)
client_send_file-stores env (suc (suc zero)) rand n client server willing few fresh zeroed enough =
    absurd (omega arith)
client_send_file-stores env (suc (suc (suc fuel))) rand n client server willing few fresh zeroed
      enough =
    let digits = decimal-short n few in
    let name = decimal n ++ extension in
    let nothing : content server.buffer ≡ [] = ap content fresh in
    rw (texts-short n few) (
      rounds-hello env willing (message_start ++ decimal n) name
        (omega (arith, digits, length-append message_start (decimal n)))
        (IsText-append (decimal n) extension (decimal-IsText n) tt)
        (omega (arith, digits, length-append (decimal n) extension)) fuel
        (rand % Command.max_sequence)
        (record client { file_name = name; sequence = rand % Command.max_sequence }) server refl
        nothing zeroed)
