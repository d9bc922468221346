-- ===== src/Transfer/Select.antt =====
-- The request handler of the server with `select`: p2/src/select_server_utilities.c, lines 84 to
-- 178. What p1 keeps in variables of its loop is here kept for each client between the calls.
pub mod Agrees
pub mod Freed
pub mod Clients
use net_prog.Prelude.{
  ℕ, ◌+◌, ◌%◌, ◌^◌, Option, none, some, ◌++◌, ltb, leb, ◌==◌, ◌||◌, if◌then◌else◌, take, drop, Bool,
  true, false, [],
}
use net_prog.Run.{Run, ok, fault, ◌>>=◌}
use net_prog.Transfer.Command
use net_prog.Transfer.Packet.{cmd_pkt, command_of, data_len_of}
use net_prog.Transfer.Server.{Env}
use net_prog.Wire.{Bytes, c_string, overlay}

-- The pointer `*buffer`: NULL, a block, or a block that was freed.
pub data Buffer : Type 0 where
  null : Buffer
  block : Bytes → Buffer
  freed : Buffer

-- `*buffer`, `*lastSeqNum` and `*bytes_read` of a client.
pub record Slot : Type 0 where
  pub buffer : Buffer
  pub last_seq_num : ℕ
  pub bytes_read : ℕ

-- What a call did. `exits` is the end of the whole program.
pub record Call : Type 0 where
  pub slot : Slot
  pub reply : Option Bytes
  pub stored : Option (Bytes × Bytes)
  pub exits : Bool

-- The packet is sent with a number that is also kept, cut to 16 bits.
unfoldable pub answer : Slot → ℕ → ℕ → Call
answer slot seq_num cmd = record {
  slot = record slot { last_seq_num = seq_num % 2 ^ 16 };
  reply = some (cmd_pkt seq_num Command.header_length cmd);
  stored = none;
  exits = false;
}

-- The bytes of the buffer; to read or move a block that was freed is a fault.
unfoldable pub bytes_of : Buffer → Run Bytes
bytes_of null = ok []
bytes_of (block b) = ok b
bytes_of freed = fault

unfoldable pub data_delivery : Env → Bytes → Slot → Run Call
data_delivery env pkt slot =
    let data_len = data_len_of pkt in
    do
      old ← bytes_of slot.buffer
      if env.realloc ((slot.bytes_read + data_len) % 2 ^ 32)
          then (if ltb Command.data_size data_len || leb (2 ^ 32) (slot.bytes_read + data_len)
              then fault
              else ok (
                  answer
                    (record slot {
                      buffer = block (old ++ take data_len (drop 8 pkt));
                      bytes_read = slot.bytes_read + data_len;
                    })
                    (slot.last_seq_num + 1) Command.pkt_received))
          else ok (answer (record slot { buffer = null }) (slot.last_seq_num + 1) Command.error)

-- `free(*buffer)`, which leaves the pointer as it is.
unfoldable pub release : Buffer → Buffer
release null = null
release (block b) = freed
release freed = freed

unfoldable pub store_file : Env → Bytes → Slot → Run Call
store_file env name slot =
    let failed = answer slot (slot.last_seq_num + 1) Command.stored_error in
    if env.open_file name
    then (do
      old ← bytes_of slot.buffer
      elim (env.write_file slot.bytes_read) [
        | none ↦ ok failed
        | some n ↦
            ok
              (record (answer (record slot { buffer = release slot.buffer }) (slot.last_seq_num + 1)
                Command.file_stored) { stored = some (name, take n old) })
      ])
    else ok failed

unfoldable pub data_store : Env → Bytes → Slot → Run Call
data_store env pkt slot =
    let data_len = data_len_of pkt in
    if ltb Command.data_size data_len then fault else elim (c_string (take data_len (drop 8 pkt))) [
      | none ↦ fault
      | some name ↦ store_file env name slot
    ]

unfoldable pub quiet : Slot → Bool → Call
quiet slot exits = record { slot = slot; reply = none; stored = none; exits = exits }

unfoldable pub handle : Env → Bytes → Slot → Run Call
handle env pkt slot =
    let command = command_of pkt in
    if command == Command.client_hello
    then ok (answer slot (env.rand % Command.max_sequence) Command.server_hello)
    else if command == Command.data_delivery
    then data_delivery env pkt slot
    else if command == Command.data_store
    then data_store env pkt slot
    else ok (quiet slot false)

-- `memory` is what the packet on the stack held before the read.
unfoldable pub handle_client_request : Env → Bytes → Option Bytes → Slot → Run Call
handle_client_request env memory none slot = ok (quiet slot true)
handle_client_request env memory (some received) slot = handle env (overlay received memory) slot
