-- ===== src/Transfer/Server.antt =====
-- One round of the loop of the server: p1/src/server.c, lines 38 to 119.
use net_prog.Prelude.{
  ℕ, ◌+◌, ◌%◌, ◌^◌, Bool, true, false, ◌||◌, Option, none, some, [], ◌++◌, ltb, leb, ◌==◌,
  if◌then◌else◌, take, drop,
}
use net_prog.Run.{Run, ok, fault}
use net_prog.Transfer.Command
use net_prog.Transfer.Packet.{cmd_pkt, command_of, data_len_of, next_seq}
use net_prog.Wire.{Bytes, c_string, overlay}

-- What the library and the system do in a round.
pub record Env : Type 0 where
  pub rand : ℕ
  -- whether a block of a size can be had
  pub realloc : ℕ → Bool
  -- whether a file can be opened for writing
  pub open_file : Bytes → Bool
  -- how many of some bytes are written to it; `none` for an error
  pub write_file : ℕ → Option ℕ

-- The variables of the loop. `recv` is the memory of `serverRecvPkt`, `sequence` what was last put
-- into the field of `serverSendPkt`, and `buffer` is `none` for NULL.
pub record Server : Type 0 where
  pub recv : Bytes
  pub sequence : ℕ
  pub buffer : Option Bytes
  pub bytes_read : ℕ

-- What a round did: the packet that was sent, the name and the bytes that were written to a file,
-- and whether it was the last round.
pub record Round : Type 0 where
  pub server : Server
  pub reply : Option Bytes
  pub stored : Option (Bytes × Bytes)
  pub stops : Bool

unfoldable pub answer : Server → ℕ → ℕ → Bool → Round
answer server seq cmd stops = record {
  server = record server { sequence = seq };
  reply = some (cmd_pkt seq Command.header_length cmd);
  stored = none;
  stops = stops;
}

-- The bytes of the buffer, of which NULL has none.
unfoldable pub content : Option Bytes → Bytes
content none = []
content (some b) = b

-- Copying more than the packet has, or behind a size that has wrapped around, is a fault.
unfoldable pub data_delivery : Env → Bytes → Server → Run Round
data_delivery env pkt server =
    let data_len = data_len_of pkt in
    if env.realloc ((server.bytes_read + data_len) % 2 ^ 32)
    then (if ltb Command.data_size data_len || leb (2 ^ 32) (server.bytes_read + data_len)
        then fault
        else ok (
            answer
              (record server {
                buffer = some (content server.buffer ++ take data_len (drop 8 pkt));
                bytes_read = server.bytes_read + data_len;
              })
              (next_seq server.sequence) Command.pkt_received false))
    else ok (answer (record server { buffer = none }) (next_seq server.sequence) Command.error true)

-- The file is not truncated when it is opened; what is recorded is what is written at its start.
unfoldable pub store_file : Env → Bytes → Server → Round
store_file env name server =
    let failed = answer server (next_seq server.sequence) Command.stored_error true in
    if env.open_file name
    then elim (env.write_file server.bytes_read) [
      | none ↦ failed
      | some n ↦ record (answer server (next_seq server.sequence) Command.file_stored true) {
        stored = some (name, take n (content server.buffer));
      }
    ]
    else failed

unfoldable pub data_store : Env → Bytes → Server → Run Round
data_store env pkt server =
    let data_len = data_len_of pkt in
    if ltb Command.data_size data_len then fault else elim (c_string (take data_len (drop 8 pkt))) [
      | none ↦ fault
      | some name ↦ ok (store_file env name server)
    ]

unfoldable pub quiet : Server → Bool → Round
quiet server stops = record { server = server; reply = none; stored = none; stops = stops }

unfoldable pub handle : Env → Bytes → Server → Run Round
handle env pkt server =
    let command = command_of pkt in
    if command == Command.client_hello
    then ok (answer server (env.rand % Command.max_sequence) Command.server_hello false)
    else if command == Command.data_delivery
    then data_delivery env pkt server
    else if command == Command.data_store
    then data_store env pkt server
    else if command == Command.error
    then ok (quiet server true)
    else ok (quiet server false)

-- `received` is what the read returned, `none` for an error. It lands on what the packet held.
unfoldable pub server_round : Env → Option Bytes → Server → Run Round
server_round env none server = ok (quiet server true)
server_round env (some received) server =
    let pkt = overlay received server.recv in handle env pkt (record server { recv = pkt })
