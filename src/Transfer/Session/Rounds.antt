-- ===== src/Transfer/Session/Rounds.antt =====
-- The rounds of the server on the packets that a client sends.
use net_prog.Prelude.{
  ℕ, ◌+◌, ◌-◌, ◌%◌, ◌^◌, ◌<◌, ◌≤◌, ◌≡◌, refl, ◌∙◌, true, false, some, [], ◌∷◌, ◌++◌, arith, length,
  drop, leb, le→ltb, length-append, take-append,
}
use mathlib.Core.List.{append_assoc}
use net_prog.Run.{ok}
use net_prog.Transfer.Command
use net_prog.Transfer.Packet.{cmd_pkt, length_of, command_of, data_len_of, next_seq}
use net_prog.Transfer.Server.{
  Env, Server, answer, content, data_delivery, data_store, store_file, handle, server_round,
}
use net_prog.Wire.{Bytes, IsText, be16, get16, overlay}
use net_prog.Wire.RoundTrip.{c_string-append}

-- What is read from a packet that begins with a header.
pub record Reads (len cmd : ℕ) (rest p : Bytes) : Type 0 where
  pub command : command_of p ≡ cmd % 2 ^ 16
  pub data_len : data_len_of p ≡ (len % 2 ^ 16 + 2 ^ 32 - 8) % 2 ^ 32
  pub body : drop 8 p ≡ rest

pub cmd_pkt-Reads :
    (seq len cmd : ℕ) (rest : Bytes) → Reads len cmd rest (cmd_pkt seq len cmd ++ rest)
unfolding cmd_pkt be16 get16 command_of data_len_of length_of
cmd_pkt-Reads seq len cmd rest = record {
  command = omega arith;
  data_len = omega arith;
  body = refl;
}

pub overlay-cmd_pkt :
    (seq len cmd : ℕ) (body old : Bytes)
    → overlay (cmd_pkt seq len cmd ++ body) old
      ≡ cmd_pkt seq len cmd ++ (body ++ drop (length (cmd_pkt seq len cmd ++ body)) old)
unfolding overlay
overlay-cmd_pkt seq len cmd body old = append_assoc (cmd_pkt seq len cmd) body _

not_above : (n m : ℕ) → n < m → leb m n ≡ false
not_above n m h = ground arith

-- The system grants every block, opens every file and writes all that it is given.
pub record Willing (env : Env) : Type 0 where
  pub reallocs : (n : ℕ) → env.realloc n ≡ true
  pub opens : (name : Bytes) → env.open_file name ≡ true
  pub writes : (n : ℕ) → env.write_file n ≡ some n

-- The packet lands on the memory of the last one.
abbrev pub landed : Bytes → Server → Server
landed p server = record server { recv = overlay p server.recv }

module _ (env : Env) (willing : Willing env) (server : Server) (seq : ℕ) where
  pub round-hello :
      server_round env (some (cmd_pkt seq 8 Command.client_hello)) server
      ≡ ok (
          answer
            (landed (cmd_pkt seq 8 Command.client_hello) server)
            (env.rand % Command.max_sequence)
            Command.server_hello
            false)
  unfolding server_round handle overlay cmd_pkt be16 command_of get16
  round-hello = refl

  -- A block is appended to the buffer and acknowledged.
  handle-delivery :
      (block junk : Bytes)
      → length block ≤ 4022
      → server.bytes_read + length block < 2 ^ 32
      → handle env (cmd_pkt seq (8 + length block) Command.data_delivery ++ (block ++ junk)) server
        ≡ ok (
            answer
              (record server {
                buffer = some (content server.buffer ++ block);
                bytes_read = server.bytes_read + length block;
              })
              (next_seq server.sequence)
              Command.pkt_received
              false)
  unfolding handle data_delivery
  handle-delivery block junk short fits =
      let len = 8 + length block in
      let r = cmd_pkt-Reads seq len Command.data_delivery (block ++ junk) in
      let n : data_len_of (cmd_pkt seq len Command.data_delivery ++ (block ++ junk))
          ≡ length block =
        r.data_len ∙ omega arith in
      rw (
        r.command,
        n,
        willing.reallocs,
        le→ltb 4022 (length block) short,
        not_above (server.bytes_read + length block) (2 ^ 32) fits,
        r.body,
        take-append (length block) block junk refl,
      )

  -- The name that comes at the end is the one that the file is stored under.
  pub round-store :
      (name : Bytes)
      → IsText name
      → length name + 1 ≤ 4022
      → (let p = cmd_pkt seq (8 + length name + 1) Command.data_store ++ (name ++ 0 ∷ []) in
          server_round env (some p) server ≡ ok (store_file env name (landed p server)))
  unfolding server_round handle data_store
  round-store name text short =
      let len = 8 + length name + 1 in
      let body = name ++ 0 ∷ [] in
      let flat = overlay-cmd_pkt seq len Command.data_store body server.recv in
      let junk = drop (length (cmd_pkt seq len Command.data_store ++ body)) server.recv in
      let r = cmd_pkt-Reads seq len Command.data_store (body ++ junk) in
      let n : data_len_of (cmd_pkt seq len Command.data_store ++ (body ++ junk)) ≡ length name + 1 =
        r.data_len ∙ omega arith in
      rw (
        flat,
        r.command,
        n,
        le→ltb 4022 (length name + 1) short,
        r.body,
        take-append (length name + 1) body junk (omega (arith, length-append name (0 ∷ []))),
        c_string-append name [] text,
        flat,
      )

abbrev pub delivery : ℕ → Bytes → Bytes
delivery seq block = cmd_pkt seq (8 + length block) Command.data_delivery ++ block

module _ (env : Env) (willing : Willing env) (server : Server) (seq : ℕ) (block : Bytes)
    (short : length block ≤ 4022) where
  pub round-delivery :
      server.bytes_read + length block < 2 ^ 32
      → server_round env (some (delivery seq block)) server
        ≡ ok (
            answer
              (record (landed (delivery seq block) server) {
                buffer = some (content server.buffer ++ block);
                bytes_read = server.bytes_read + length block;
              })
              (next_seq server.sequence)
              Command.pkt_received
              false)
  unfolding server_round
  round-delivery fits =
      let flat = overlay-cmd_pkt seq (8 + length block) Command.data_delivery block server.recv in
      let junk = drop (length (delivery seq block)) server.recv in
      rw flat (
        handle-delivery env willing
          (record server {
            recv = cmd_pkt seq (8 + length block) Command.data_delivery ++ (block ++ junk);
          })
          seq block junk short fits)

  -- On a system that grants memory, a read of 0 bytes, as after the client has closed the
  -- connection, makes the server append the block of the last packet once more and acknowledge
  -- it, if that was a DATA_DELIVERY packet of at most 4022 bytes and the size stays below 2^32.
  pub round-delivery_closed :
      (old : Bytes)
      → server.recv ≡ overlay (delivery seq block) old
      → server.bytes_read + length block < 2 ^ 32
      → server_round env (some []) server
        ≡ ok (
            answer
              (record server {
                buffer = some (content server.buffer ++ block);
                bytes_read = server.bytes_read + length block;
              })
              (next_seq server.sequence)
              Command.pkt_received
              false)
  unfolding server_round overlay
  round-delivery_closed old stale fits =
      let flat = overlay-cmd_pkt seq (8 + length block) Command.data_delivery block old in
      let junk = drop (length (delivery seq block)) old in
      let same : server.recv
          ≡ cmd_pkt seq (8 + length block) Command.data_delivery ++ (block ++ junk) =
        stale ∙ flat in
      rw (same) (
        handle-delivery env willing
          (record server {
            recv = cmd_pkt seq (8 + length block) Command.data_delivery ++ (block ++ junk);
          })
          seq block junk short fits)
