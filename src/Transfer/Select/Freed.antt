-- ===== src/Transfer/Select/Freed.antt =====
-- A second transfer over one connection to the server with `select`.
use net_prog.Prelude.{
  ℕ, ◌+◌, ◌%◌, ◌^◌, ◌≤◌, ◌≡◌, ap, ◌∙◌, some, [], ◌∷◌, ◌++◌, arith, length, drop, le→ltb,
  length-append, take-append,
}
use net_prog.Run.{ok, fault, ◌>>=◌}
use net_prog.Transfer.Command
use net_prog.Transfer.Packet.{cmd_pkt, data_len_of}
use net_prog.Transfer.Select.{
  block, freed, Slot, bytes_of, release, answer, data_delivery, store_file, data_store, handle,
  handle_client_request,
}
use net_prog.Transfer.Server.{Env}
use net_prog.Transfer.Session.Rounds.{Willing, cmd_pkt-Reads, overlay-cmd_pkt, delivery}
use net_prog.Wire.{Bytes, IsText}
use net_prog.Wire.RoundTrip.{c_string-append}

-- The packet that ends a transfer.
abbrev pub store_packet : ℕ → Bytes → Bytes
store_packet seq name = cmd_pkt seq (8 + length name + 1) Command.data_store ++ (name ++ 0 ∷ [])

module _ (env : Env) (memory : Bytes) (slot : Slot) where
  request-store :
      (seq : ℕ) (name : Bytes)
      → IsText name
      → length name + 1 ≤ 4022
      → handle_client_request env memory (some (store_packet seq name)) slot
        ≡ store_file env name slot
  unfolding handle_client_request handle data_store
  request-store seq name text short =
      let len = 8 + length name + 1 in
      let body = name ++ 0 ∷ [] in
      let flat = overlay-cmd_pkt seq len Command.data_store body memory in
      let junk = drop (length (store_packet seq name)) memory in
      let r = cmd_pkt-Reads seq len Command.data_store (body ++ junk) in
      let n : data_len_of (cmd_pkt seq len Command.data_store ++ (body ++ junk)) ≡ length name + 1 =
        r.data_len ∙ omega arith in
      rw (
        flat,
        r.command,
        n,
        le→ltb 4022 (length name + 1) short,
        r.body,
        take-append (length name + 1) body junk (omega (arith, length-append name (0 ∷ []))),
        c_string-append name [] text,
      )

  request-delivery :
      (seq : ℕ) (b : Bytes)
      → slot.buffer ≡ freed
      → handle_client_request env memory (some (delivery seq b)) slot ≡ fault
  unfolding handle_client_request handle data_delivery bytes_of
  request-delivery seq b gone =
      let len = 8 + length b in
      let flat = overlay-cmd_pkt seq len Command.data_delivery b memory in
      let junk = drop (length (delivery seq b)) memory in
      let r = cmd_pkt-Reads seq len Command.data_delivery (b ++ junk) in rw (flat, r.command, gone)

module _ (env : Env) (willing : Willing env) where
  -- On a system that grants memory, opens the file and writes what it is given, a client of the
  -- server with select whose buffer is a block, and that sends DATA_STORE with a name of fewer
  -- than 4022 bytes and then DATA_DELIVERY, makes the server use the block that it has freed.
  pub handle_client_request-freed :
      (slot : Slot) (old b name memory memory' : Bytes) (seq seq' : ℕ)
      → slot.buffer ≡ block old
      → IsText name
      → length name + 1 ≤ 4022
      → (handle_client_request env memory (some (store_packet seq name)) slot >>= λ c.
          handle_client_request env memory' (some (delivery seq' b)) c.slot)
        ≡ fault
  unfolding store_file answer bytes_of release
  handle_client_request-freed slot old b name memory memory' seq seq' held text short =
      let after : Slot = record slot {
        buffer = release slot.buffer;
        last_seq_num = (slot.last_seq_num + 1) % 2 ^ 16;
      } in
      let bytes : bytes_of slot.buffer ≡ ok old = ap bytes_of held in
      rw
        (
          request-store env memory slot seq name text short,
          store_file,
          willing.opens,
          bytes,
          willing.writes,
        )
        (request-delivery env memory' after seq' b (ap release held))
