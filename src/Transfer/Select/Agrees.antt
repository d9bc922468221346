-- ===== src/Transfer/Select/Agrees.antt =====
-- The request handler of the server with `select` does what a round of the server of p1 does.
use net_prog.Prelude.{
  ◌+◌, ◌%◌, ◌^◌, ◌≡◌, refl, ap, ◌∙◌, ◌⊎◌, inl, inr, true, Option, none, some, arith, ◌==◌, ltb, leb,
  ◌||◌, Bool-cases, Option-cases, take, drop,
}
use net_prog.Run.{Run, ok, fault}
use net_prog.Transfer.Command
use net_prog.Transfer.Packet.{command_of, data_len_of, next_seq}
use net_prog.Transfer.Select.{
  Buffer, null, block, Slot, Call, bytes_of, answer, data_delivery, store_file, data_store, quiet,
  handle, handle_client_request,
}
use net_prog.Transfer.Server
use net_prog.Transfer.Server.{Env, Server, Round, content, server_round}
use net_prog.Wire.{Bytes, c_string, overlay}

abbrev pub as_buffer : Option Bytes → Buffer
as_buffer none = null
as_buffer (some b) = block b

-- What is kept for a client agrees with the variables of the loop of p1.
pub record Matches (slot : Slot) (server : Server) : Type 0 where
  pub same_buffer : slot.buffer ≡ as_buffer server.buffer
  pub same_seq : slot.last_seq_num ≡ server.sequence % 2 ^ 16
  pub same_count : slot.bytes_read ≡ server.bytes_read

-- Both are undefined behaviour, or both send and store the same, and then agree again, unless the
-- server of p1 is at its end.
abbrev pub Agrees : Run Call → Run Round → Type 0
Agrees (ok c) (ok r) =
    (c.reply ≡ r.reply) × (c.stored ≡ r.stored) × ((r.stops ≡ true) ⊎ Matches c.slot r.server)
Agrees fault fault = Unit
Agrees a b = ⊥

bytes_of-content : (o : Option Bytes) → bytes_of (as_buffer o) ≡ ok (content o)
unfolding bytes_of content
bytes_of-content none = refl
bytes_of-content (some b) = refl

module _ (env : Env) (pkt : Bytes) (slot : Slot) (server : Server) (m : Matches slot server) where
  bytes : bytes_of slot.buffer ≡ ok (content server.buffer)
  bytes = ap bytes_of m.same_buffer ∙ bytes_of-content server.buffer

  seq : slot.last_seq_num + 1 ≡ next_seq server.sequence
  unfolding next_seq
  seq = omega (arith, m.same_seq)

  delivery-Agrees : Agrees (data_delivery env pkt slot) (Server.data_delivery env pkt server)
  unfolding data_delivery Server.data_delivery answer Server.answer
  delivery-Agrees =
      let n = data_len_of pkt in
      elim (Bool-cases (env.realloc ((server.bytes_read + n) % 2 ^ 32))) [
        | inl granted ↦
            elim (Bool-cases (ltb Command.data_size n || leb (2 ^ 32) (server.bytes_read + n))) [
              | inl outside ↦ rw (bytes, m.same_count, granted, outside) tt
              | inr inside ↦
                  rw (bytes, m.same_count, granted, inside, seq)
                    (
                      refl,
                      refl,
                      inr (record { same_buffer = refl; same_seq = refl; same_count = refl }),
                    )
            ]
        | inr refused ↦ rw (bytes, m.same_count, refused, seq) (refl, refl, inl refl)
      ]

  store_file-Agrees :
      (name : Bytes) → Agrees (store_file env name slot) (ok (Server.store_file env name server))
  unfolding store_file Server.store_file answer Server.answer
  store_file-Agrees name = elim (Bool-cases (env.open_file name)) [
    | inl opened ↦ elim (Option-cases (env.write_file server.bytes_read)) [
      | inl failed ↦ rw (opened, bytes, m.same_count, failed, seq) (refl, refl, inl refl)
      | inr (n, written) ↦ rw (opened, bytes, m.same_count, written, seq) (refl, refl, inl refl)
    ]
    | inr failed ↦ rw (failed, seq) (refl, refl, inl refl)
  ]

  store-Agrees : Agrees (data_store env pkt slot) (Server.data_store env pkt server)
  unfolding data_store Server.data_store
  store-Agrees =
      let n = data_len_of pkt in
      elim (Bool-cases (ltb Command.data_size n)) [
        | inl outside ↦ rw outside tt
        | inr inside ↦ elim (Option-cases (c_string (take n (drop 8 pkt)))) [
          | inl endless ↦ rw (inside, endless) tt
          | inr (name, text) ↦ rw (inside, text) (store_file-Agrees name)
        ]
      ]

  handle-Agrees : Agrees (handle env pkt slot) (Server.handle env pkt server)
  unfolding handle Server.handle quiet Server.quiet answer Server.answer
  handle-Agrees =
      let command = command_of pkt in
      elim (Bool-cases (command == Command.client_hello)) [
        | inl hello ↦ rw hello (
          refl,
          refl,
          inr (record { same_buffer = m.same_buffer; same_seq = refl; same_count = m.same_count }),
        )
        | inr not_hello ↦ elim (Bool-cases (command == Command.data_delivery)) [
          | inl delivery ↦ rw (not_hello, delivery) delivery-Agrees
          | inr not_delivery ↦ elim (Bool-cases (command == Command.data_store)) [
            | inl store ↦ rw (not_hello, not_delivery, store) store-Agrees
            | inr not_store ↦ elim (Bool-cases (command == Command.error)) [
              | inl error ↦ rw (not_hello, not_delivery, not_store, error) (refl, refl, inl refl)
              | inr other ↦ rw (not_hello, not_delivery, not_store, other) (refl, refl, inr m)
            ]
          ]
        ]
      ]

-- On every packet, from what is kept for a client and agrees with the variables of the loop of
-- p1, and with the same memory under the packet, the handler of the server with select and a
-- round of the server of p1 are both undefined, or both send the same packet and write the same
-- to a file, and then agree again unless the server of p1 is at its end.
pub handle_client_request-Agrees :
    (env : Env) (received : Bytes) (slot : Slot) (server : Server)
    → Matches slot server
    → Agrees
        (handle_client_request env server.recv (some received) slot)
        (server_round env (some received) server)
unfolding handle_client_request server_round
handle_client_request-Agrees env received slot server m =
    handle-Agrees env (overlay received server.recv) slot
      (record server { recv = overlay received server.recv })
      (record { same_buffer = m.same_buffer; same_seq = m.same_seq; same_count = m.same_count })
