-- ===== src/Transfer/Client.antt =====
-- One round of the loop of the client: p1/src/client.c, lines 40 to 113.
use net_prog.Prelude.{
  ℕ, ◌+◌, ◌%◌, Bool, true, false, Option, none, some, [], ◌∷◌, ◌++◌, ltb, ◌==◌, if◌then◌else◌, take,
  drop, length,
}
use net_prog.Run.{Run, ok, fault}
use net_prog.Transfer.Command
use net_prog.Transfer.Packet.{cmd_pkt, command_of, next_seq}
use net_prog.Wire.{Bytes, overlay, strcpy}

-- `recv` is the memory of `clientRecvPkt`, `data_field` and `sequence` are fields of `clientSendPkt`, and
-- `rest` is what is left to read of the file.
pub record Client : Type 0 where
  pub recv : Bytes
  pub data_field : Bytes
  pub sequence : ℕ
  pub file_name : Bytes
  pub rest : Bytes

pub record Turn : Type 0 where
  pub client : Client
  pub sent : Option Bytes
  pub stops : Bool

-- `sendDataPkt` with the next sequence number: the first bytes of the packet are written.
unfoldable pub send : Client → ℕ → ℕ → Turn
send client pkt_len cmd =
    let seq = next_seq client.sequence in
    record {
      client = record client { sequence = seq };
      sent = some (take pkt_len (cmd_pkt seq pkt_len cmd ++ client.data_field));
      stops = false;
    }

-- The read of a block of the file, `none` for an error, and the packet for it.
unfoldable pub send_block : Option Bytes → Client → Turn
send_block none client = send client Command.header_length Command.error
send_block (some block) client =
    send
      (record client {
        data_field = overlay block client.data_field;
        rest = drop (length block) client.rest;
      })
      (Command.header_length + length block) Command.data_delivery

-- At the end of the file its name is sent. A name that does not fit overruns the packet.
unfoldable pub send_name : Client → Run Turn
send_name client =
    if ltb Command.data_size (length client.file_name + 1)
    then fault
    else ok (
        send (record client { data_field = strcpy client.data_field client.file_name })
          (Command.header_length + length client.file_name + 1) Command.data_store)

unfoldable pub on_received : Option Bytes → Client → Run Turn
on_received none client = ok (send_block none client)
on_received (some []) client = send_name client
on_received (some (b ∷ block)) client = ok (send_block (some (b ∷ block)) client)

unfoldable pub keep : Client → Bool → Turn
keep client stops = record { client = client; sent = none; stops = stops }

unfoldable pub react : (Bytes → Option Bytes) → Bytes → Client → Run Turn
react read_file pkt client =
    let command = command_of pkt in
    if command == Command.server_hello
    then ok (send_block (read_file client.rest) client)
    else if command == Command.pkt_received
    then on_received (read_file client.rest) client
    else if command == Command.error
    then ok (keep client true)
    else if command == Command.file_stored
    then ok (keep client true)
    else if command == Command.stored_error
    then ok (keep client true)
    else ok (keep client false)

-- `read_file` gives a block of at most `DATA_SIZE` bytes of what is left of the file.
unfoldable pub client_turn : (Bytes → Option Bytes) → Option Bytes → Client → Run Turn
client_turn read_file none client =
    ok (record (send client Command.header_length Command.error) { stops = true })
client_turn read_file (some received) client =
    let pkt = overlay received client.recv in react read_file pkt (record client { recv = pkt })

-- The CLIENT_HELLO packet, with a random number.
unfoldable pub say_hello : ℕ → Client → Client × Bytes
say_hello rand client =
    let seq = rand % Command.max_sequence in
    (record client { sequence = seq }, cmd_pkt seq Command.header_length Command.client_hello)
