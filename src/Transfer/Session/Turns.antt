-- ===== src/Transfer/Session/Turns.antt =====
-- The turns of the client on the packets that a server sends.
use net_prog.Prelude.{ℕ, ◌+◌, ◌≡◌, ◌∙◌, true, Option, some, ◌++◌, arith, length, take-append}
use mathlib.Core.List.{append_assoc}
use net_prog.Run.{ok}
use net_prog.Transfer.Client.{Client, send, send_block, on_received, keep, react, client_turn}
use net_prog.Transfer.Command
use net_prog.Transfer.Packet.{cmd_pkt, command_of, next_seq}
use net_prog.Wire.{Bytes, be16, get16, overlay}

abbrev pub heard : Bytes → Client → Client
heard p client = record client { recv = overlay p client.recv }

length-cmd_pkt : (seq len cmd : ℕ) (x : Bytes) → length (cmd_pkt seq len cmd ++ x) ≡ 8 + length x
unfolding cmd_pkt be16
length-cmd_pkt seq len cmd x = omega arith

-- What is written is the header and the first bytes of the data.
pub send-packet :
    (client : Client) (n pkt_len cmd : ℕ) (body rest : Bytes)
    → client.data_field ≡ body ++ rest
    → 8 + length body ≡ pkt_len
    → (send client pkt_len cmd).sent ≡ some (cmd_pkt (next_seq client.sequence) pkt_len cmd ++ body)
unfolding send
send-packet client n pkt_len cmd body rest e size =
    let seq = next_seq client.sequence in
    rw (
      e,
      ← append_assoc (cmd_pkt seq pkt_len cmd) body rest,
      take-append pkt_len (cmd_pkt seq pkt_len cmd ++ body) rest
          (length-cmd_pkt seq pkt_len cmd body ∙ size),
    )

module _ (read_file : Bytes → Option Bytes) (client : Client) (seq : ℕ) where
  pub turn-hello :
      (p : Bytes)
      → p ≡ cmd_pkt seq 8 Command.server_hello
      → client_turn read_file (some p) client
        ≡ ok (send_block (read_file client.rest) (heard p client))
  unfolding client_turn react overlay cmd_pkt be16 command_of get16
  turn-hello p e = rw e

  pub turn-received :
      (p : Bytes)
      → p ≡ cmd_pkt seq 8 Command.pkt_received
      → client_turn read_file (some p) client ≡ on_received (read_file client.rest) (heard p client)
  unfolding client_turn react overlay cmd_pkt be16 command_of get16
  turn-received p e = rw e

  pub turn-stored :
      (p : Bytes)
      → p ≡ cmd_pkt seq 8 Command.file_stored
      → client_turn read_file (some p) client ≡ ok (keep (heard p client) true)
  unfolding client_turn react overlay cmd_pkt be16 command_of get16
  turn-stored p e = rw e
