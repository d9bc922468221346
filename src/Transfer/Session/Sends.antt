-- ===== src/Transfer/Session/Sends.antt =====
-- The packets that a client sends: a block, and the name of its file.
use net_prog.Prelude.{
  ◌+◌, ◌≤◌, ◌≡◌, refl, some, [], ◌∷◌, ◌++◌, arith, length, drop, le→ltb, length-append,
}
use net_prog.Run.{ok}
use net_prog.Transfer.Client.{Client, Turn, send, send_block, send_name}
use net_prog.Transfer.Command
use net_prog.Transfer.Packet.{cmd_pkt, next_seq}
use net_prog.Transfer.Session.Rounds.{delivery}
use net_prog.Transfer.Session.Turns.{send-packet}
use net_prog.Wire.{Bytes, overlay, strcpy}

pub sent_block :
    (client : Client) (block : Bytes)
    → (send_block (some block) client).sent ≡ some (delivery (next_seq client.sequence) block)
unfolding send_block overlay
sent_block client block =
    send-packet
      (record client {
        data_field = overlay block client.data_field;
        rest = drop (length block) client.rest;
      })
      0 (8 + length block) Command.data_delivery block (drop (length block) client.data_field) refl
      refl

module _ (name : Bytes) (short : length name + 1 ≤ 4022) where
  pub sent_name :
      (client : Client)
      → client.file_name ≡ name
      → (t : Turn) × (send_name client ≡ ok t)
        × (t.sent
            ≡ some (
                cmd_pkt (next_seq client.sequence) (8 + length name + 1) Command.data_store
                ++ (name ++ 0 ∷ [])))
  unfolding send_name strcpy overlay
  sent_name client same = (
    send (record client { data_field = strcpy client.data_field client.file_name })
        (8 + length client.file_name + 1) Command.data_store,
    rw (same, le→ltb 4022 (length name + 1) short),
    rw same (
        send-packet (record client { data_field = strcpy client.data_field name; file_name = name })
          0 (8 + length name + 1) Command.data_store (name ++ 0 ∷ [])
          (drop (length (name ++ 0 ∷ [])) client.data_field) refl
          (omega (arith, length-append name (0 ∷ [])))),
  )
