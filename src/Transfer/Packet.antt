-- ===== src/Transfer/Packet.antt =====
-- The header of the packets of p1 and p2: `cmd_pkt` and `data_pkt` of p1/src/protocol.h, and the
-- senders of p1/src/common_utilities.c. A number that is put into a field is cut to 16 bits.
use net_prog.Prelude.{ℕ, ◌+◌, ◌-◌, ◌%◌, ◌^◌, ◌∷◌, ◌++◌, drop}
use net_prog.Transfer.Command
use net_prog.Wire.{Bytes, be16, get16}

-- The eight bytes that `sendCmdPkt` fills in and writes.
unfoldable pub cmd_pkt : ℕ → ℕ → ℕ → Bytes
cmd_pkt seq_num pkt_len cmd =
    Command.static_version ∷ Command.static_user_id ∷ (be16 seq_num ++ (be16 pkt_len ++ be16 cmd))

unfoldable pub length_of : Bytes → ℕ
length_of pkt = get16 (drop 4 pkt)

unfoldable pub command_of : Bytes → ℕ
command_of pkt = get16 (drop 6 pkt)

-- `ntohs(length) - HEADER_LENGTH`, an `unsigned int`.
unfoldable pub data_len_of : Bytes → ℕ
data_len_of pkt = (length_of pkt + 2 ^ 32 - Command.header_length) % 2 ^ 32

-- `ntohs(sequence) + 1`, for a number that was put into the field.
unfoldable pub next_seq : ℕ → ℕ
next_seq sequence = sequence % 2 ^ 16 + 1
