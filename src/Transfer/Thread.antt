-- ===== src/Transfer/Thread.antt =====
-- The client threads of p2, `clientSendFile` of p2/src/client_utilities.c (lines 29 to 121), and
-- the handler of a forked server, `handleClientRequest` of p2/src/multi_server_utilities.c, whose
-- rounds have the text of p1's. Headers and senders are those of p1.
pub mod Names
pub mod Stores
use net_prog.Prelude.{
  ℕ, zero, suc, ◌+◌, ◌/◌, ◌%◌, Bool, true, false, ◌&&◌, Option, none, some, List, [], ◌∷◌, ◌++◌,
  ltb, ◌==◌, if◌then◌else◌, take, length,
}
use net_prog.Run.{Run, ok, fault, out_of_fuel, ◌>>=◌}
use net_prog.Transfer.Client.{Client, Turn, send, send_name, keep, say_hello}
use net_prog.Transfer.Command
use net_prog.Transfer.Packet.{command_of}
use net_prog.Transfer.Server.{Env, Server, Round, server_round}
use net_prog.Transfer.Session.{Outcome}
use net_prog.Wire.{Bytes, overlay, strcpy}

-- The decimal digits of a number, with a round for each.
unfoldable pub digits_within : ℕ → ℕ → Bytes
digits_within zero n = []
digits_within (suc rounds) n =
    let front = digits_within rounds (n / 10) in
    if ltb n 10 then (48 + n) ∷ [] else front ++ (48 + n % 10) ∷ []

-- "%u" of a number of 32 bits, which has ten digits at most.
unfoldable pub decimal : ℕ → Bytes
decimal n = digits_within 10 n

-- `snprintf` into seven bytes, of which the last is for NUL.
unfoldable pub thread_num_text : ℕ → Bytes
thread_num_text n = take 6 (decimal n)

-- `strcpy` and `strcat` into an array.
unfoldable pub joined : ℕ → Bytes → Bytes → Run Bytes
joined size a b = if ltb size (length (a ++ b) + 1) then fault else ok (a ++ b)

-- "I am thread #"
abbrev pub message_start : Bytes
message_start = 73 ∷ 32 ∷ 97 ∷ 109 ∷ 32 ∷ 116 ∷ 104 ∷ 114 ∷ 101 ∷ 97 ∷ 100 ∷ 32 ∷ 35 ∷ []

-- ".txt"
abbrev pub extension : Bytes
extension = 46 ∷ 116 ∷ 120 ∷ 116 ∷ []

-- The message and the name of the file of a thread.
unfoldable pub texts : ℕ → Run (Bytes × Bytes)
texts thread_num = do
  message ← joined 20 message_start (thread_num_text thread_num)
  file_name ← joined 10 (thread_num_text thread_num) extension
  ok (message, file_name)

-- The message is shorter than the field of the packet that it is copied to.
unfoldable pub deliver_message : Bytes → Client → Turn
deliver_message message client =
    send (record client { data_field = strcpy client.data_field message })
      (Command.header_length + length message) Command.data_delivery

unfoldable pub thread_react : Bytes → Bytes → Client → Run Turn
thread_react message pkt client =
    let command = command_of pkt in
    if command == Command.server_hello
    then ok (deliver_message message client)
    else if command == Command.pkt_received
    then send_name client
    else if command == Command.error
    then ok (keep client true)
    else if command == Command.file_stored
    then ok (keep client true)
    else if command == Command.stored_error
    then ok (keep client true)
    else ok (keep client false)

unfoldable pub thread_turn : Bytes → Option Bytes → Client → Run Turn
thread_turn message none client =
    ok (record (send client Command.header_length Command.error) { stops = true })
thread_turn message (some received) client =
    let pkt = overlay received client.recv in
    thread_react message pkt (record client { recv = pkt })

-- A thread and a server that talk to each other, as in p1.
unfoldable pub thread_rounds : ℕ → Env → Bytes → Client → Server → Bytes → Run Outcome
thread_rounds zero env message client server packet = out_of_fuel
thread_rounds (suc fuel) env message client server packet = do
  r ← server_round env (some packet) server
  elim r.reply [
    | none ↦ ok (record { stored = r.stored; over = false })
    | some reply ↦ do
      t ← thread_turn message (some reply) client
      elim t.sent [
        | none ↦ ok (record { stored = r.stored; over = r.stops && t.stops })
        | some next ↦
            let rest = thread_rounds fuel env message t.client r.server next in
            if r.stops then ok (record { stored = r.stored; over = false }) else rest
      ]
  ]

-- The thread with its number. Its packets hold what the stack held.
unfoldable pub client_send_file : ℕ → ℕ → ℕ → Env → Client → Server → Run Outcome
client_send_file fuel rand thread_num env client server = do
  (message, file_name) ← texts thread_num
  let hello = say_hello rand (record client { file_name = file_name }) in
      thread_rounds fuel env message hello.0 server hello.1

-- The loop of a forked server on what its reads return: the rounds that it makes of them.
unfoldable pub handle_requests : Env → List (Option Bytes) → Server → Run (List Round)
handle_requests env [] server = ok []
handle_requests env (received ∷ reads) server = do
  r ← server_round env received server
  if r.stops then ok (r ∷ []) else (do later ← handle_requests env reads r.server; ok (r ∷ later))
