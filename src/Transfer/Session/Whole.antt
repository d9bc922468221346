-- ===== src/Transfer/Session/Whole.antt =====
-- A session stores the whole file.
use net_prog.Prelude.{
  ℕ, zero, suc, ◌+◌, ◌%◌, ◌^◌, ◌<◌, ◌≤◌, ◌≡◌, refl, ap, sym, ◌∙◌, true, false, Option, none, some,
  [], ◌∷◌, ◌++◌, arith, length, drop, length-append, drop-append, take_all,
}
use mathlib.Core.List.{append_assoc, append-nil}
use net_prog.Run.{Run, ok, ◌>>=◌}
use net_prog.Transfer.Client.{
  Client, Turn, send, send_block, send_name, on_received, keep, client_turn, say_hello,
}
use net_prog.Transfer.Command
use net_prog.Transfer.Packet.{cmd_pkt, next_seq}
use net_prog.Transfer.Server.{Env, Server, answer, content, store_file}
use net_prog.Transfer.Session.{Outcome, rounds, session}
use net_prog.Transfer.Session.Rounds.{
  Willing, delivery, landed, round-hello, round-delivery, round-store,
}
use net_prog.Transfer.Session.Sends.{sent_block, sent_name}
use net_prog.Transfer.Session.Turns.{heard, turn-hello, turn-received, turn-stored}
use net_prog.Wire.{Bytes, IsText}

-- What a read of a file returns: nothing at its end, and otherwise at least one byte and at most
-- 4022 bytes from where the last read stopped.
pub record Readable (read_file : Bytes → Option Bytes) : Type 0 where
  pub at_end : read_file [] ≡ some []
  pub block :
      (b : ℕ) (rest : Bytes)
      → (first : ℕ) × (front more : Bytes) × (read_file (b ∷ rest) ≡ some (first ∷ front))
        × (b ∷ rest ≡ (first ∷ front) ++ more)
        × (length (first ∷ front) ≤ 4022)

module _ (env : Env) (willing : Willing env) (read_file : Bytes → Option Bytes)
    (reads : Readable read_file) (name : Bytes) (text : IsText name)
    (short : length name + 1 ≤ 4022) where
  -- The session ends, and the file then begins with these bytes.
  abbrev Stores : Run Outcome → Bytes → Type 0
  Stores run bytes = run ≡ ok (record { stored = some (name, bytes); over = true })

  rounds-store :
      (fuel seq : ℕ) (client : Client) (server : Server)
      → server.bytes_read ≡ length (content server.buffer)
      → Stores
          (rounds
            (suc fuel)
            env
            read_file
            client
            server
            (cmd_pkt seq (8 + length name + 1) Command.data_store ++ (name ++ 0 ∷ [])))
          (content server.buffer)
  unfolding rounds store_file answer keep
  rounds-store fuel seq client server counted = rw (
    round-store env willing server seq name text short,
    store_file,
    willing.opens,
    willing.writes,
    turn-stored read_file client (next_seq server.sequence) _ refl,
    counted,
    take_all (length (content server.buffer)) (content server.buffer) (omega arith),
  )

  -- From a block on that is on its way to the server, with rounds for each byte behind it.
  abbrev Delivers : ℕ → Type 0
  Delivers fuel =
      (seq : ℕ) (client : Client) (server : Server) (block : Bytes)
      → length client.rest + 2 ≤ fuel
      → client.file_name ≡ name
      → length block ≤ 4022
      → server.bytes_read ≡ length (content server.buffer)
      → length (content server.buffer) + length block + length client.rest < 2 ^ 32
      → Stores (rounds fuel env read_file client server (delivery seq block))
          (content server.buffer ++ (block ++ client.rest))

  abbrev go_on : ℕ → Server → Turn → Run Outcome
  go_on fuel server t = elim t.sent [
    | none ↦ ok (record { stored = none; over = false })
    | some next ↦ rounds fuel env read_file t.client server next
  ]

  go_on-sent :
      (fuel : ℕ) (server : Server) (t : Turn) (next : Bytes)
      → t.sent ≡ some next
      → go_on fuel server t ≡ rounds fuel env read_file t.client server next
  go_on-sent fuel server t next e = rw e

  sends_block :
      (fuel : ℕ) (client : Client) (server : Server) (block more : Bytes)
      → Delivers fuel
      → client.rest ≡ block ++ more
      → length more + 2 ≤ fuel
      → client.file_name ≡ name
      → length block ≤ 4022
      → server.bytes_read ≡ length (content server.buffer)
      → length (content server.buffer) + length client.rest < 2 ^ 32
      → Stores
          (go_on fuel server (send_block (some block) client))
          (content server.buffer ++ client.rest)
  unfolding send_block send
  sends_block fuel client server block more delivers split enough same small counted fits =
      let behind : drop (length block) client.rest ≡ more =
        ap (λ l. drop (length block) l) split ∙ drop-append (length block) block more refl in
      let t = send_block (some block) client in
      go_on-sent fuel server t (delivery (next_seq client.sequence) block) (sent_block client block)
      ∙ (delivers (next_seq client.sequence) t.client server block (rw behind enough) same small
            counted (omega (arith, ap length behind, ap length split, length-append block more))
          ∙ rw (behind, ← split))

  sends_name :
      (fuel : ℕ) (client : Client) (server : Server)
      → client.file_name ≡ name
      → server.bytes_read ≡ length (content server.buffer)
      → Stores (send_name client >>= go_on (suc fuel) server) (content server.buffer)
  sends_name fuel client server same counted =
      let (t, run, sent) = sent_name name short client same in
      rw run (
        go_on-sent (suc fuel) server t _ sent
        ∙ rounds-store fuel (next_seq client.sequence) t.client server counted)

  rounds-received :
      (fuel seq : ℕ) (client : Client) (server : Server) (rest : Bytes)
      → Delivers fuel
      → client.rest ≡ rest
      → length rest + 1 ≤ fuel
      → client.file_name ≡ name
      → server.bytes_read ≡ length (content server.buffer)
      → length (content server.buffer) + length rest < 2 ^ 32
      → Stores
          (client_turn read_file (some (cmd_pkt seq 8 Command.pkt_received)) client
            >>= go_on fuel server)
          (content server.buffer ++ rest)
  unfolding on_received
  rounds-received zero seq client server rest delivers e enough same counted fits =
      absurd (omega arith)
  rounds-received (suc fuel) seq client server [] delivers e enough same counted fits =
      let p = cmd_pkt seq 8 Command.pkt_received in
      rw (turn-received read_file client seq p refl, ap read_file e ∙ reads.at_end, append-nil)
        (sends_name fuel (heard p client) server same counted)
  rounds-received (suc fuel) seq client server (b ∷ rest) delivers e enough same counted fits =
      let p = cmd_pkt seq 8 Command.pkt_received in
      let (first, front, more, read, split, small) = reads.block b rest in
      rw (turn-received read_file client seq p refl, ap read_file e ∙ read)
        (sends_block (suc fuel) (heard p client) server (first ∷ front) more delivers (e ∙ split)
            (omega (arith, ap length split, length-append front more)) same small counted
            (omega (arith, ap length e))
          ∙ rw e)

  rounds-delivery : (fuel : ℕ) → Delivers fuel
  unfolding rounds answer content
  rounds-delivery zero seq client server block enough same small counted fits = absurd (omega arith)
  rounds-delivery (suc fuel) seq client server block enough same small counted fits =
      let p = delivery seq block in
      rw
        (
          round-delivery env willing server seq block small (omega arith),
          ← append_assoc (content server.buffer) block client.rest,
        )
        (rounds-received fuel (next_seq server.sequence) client
          (record (landed p server) {
            sequence = next_seq server.sequence;
            buffer = some (content server.buffer ++ block);
            bytes_read = server.bytes_read + length block;
          })
          client.rest (rounds-delivery fuel) refl (omega arith) same
          (omega (arith, length-append (content server.buffer) block))
          (omega (arith, length-append (content server.buffer) block)))

  no_bytes : (b : Option Bytes) → b ≡ none → content b ≡ []
  unfolding content
  no_bytes b e = rw (e, content)

  sends_first :
      (fuel : ℕ) (client : Client) (server : Server) (rest : Bytes)
      → client.rest ≡ rest
      → length rest + 2 ≤ fuel
      → client.file_name ≡ name
      → server.bytes_read ≡ length (content server.buffer)
      → length (content server.buffer) + length rest < 2 ^ 32
      → Stores
          (go_on fuel server (send_block (read_file client.rest) client))
          (content server.buffer ++ client.rest)
  sends_first fuel client server [] e enough same counted fits =
      rw (ap read_file e ∙ reads.at_end) (
        sends_block fuel client server [] [] (rounds-delivery fuel) e enough same (omega arith)
          counted (omega (arith, ap length e)))
  sends_first fuel client server (b ∷ rest) e enough same counted fits =
      let (first, front, more, read, split, small) = reads.block b rest in
      rw (ap read_file e ∙ read) (
        sends_block fuel client server (first ∷ front) more (rounds-delivery fuel) (e ∙ split)
          (omega (arith, ap length split, length-append front more)) same small counted
          (omega (arith, ap length e)))

  -- A client and a server whose packets arrive whole, on a system that grants memory, opens the
  -- file and writes what it is given, with a file below 2^32 bytes that is read in blocks of 1 to
  -- 4022 bytes, and a name of fewer than 4022 bytes: the session ends within three rounds more
  -- than the file has bytes, both sides leave their loops, and the server has written exactly the
  -- bytes of the file under its name.
  pub session-stores :
      (fuel rand : ℕ) (client : Client) (server : Server)
      → client.file_name ≡ name
      → server.buffer ≡ none
      → server.bytes_read ≡ 0
      → length client.rest < 2 ^ 32
      → length client.rest + 3 ≤ fuel
      → session fuel rand env read_file client server
        ≡ ok (record { stored = some (name, client.rest); over = true })
  unfolding session say_hello rounds answer
  session-stores zero rand client server same fresh zeroed fits enough = absurd (omega arith)
  session-stores (suc fuel) rand client server same fresh zeroed fits enough =
      let seq = rand % Command.max_sequence in
      let hello = cmd_pkt seq 8 Command.client_hello in
      let greeted : Client = record client { sequence = seq } in
      let seq' = env.rand % Command.max_sequence in
      let p = cmd_pkt seq' 8 Command.server_hello in
      let nothing : content server.buffer ≡ [] = no_bytes server.buffer fresh in
      rw (round-hello env willing server seq, turn-hello read_file greeted seq' p refl)
        (sends_first fuel (heard p greeted) (record (landed hello server) { sequence = seq' })
            client.rest refl (omega arith) same (zeroed ∙ sym (ap length nothing))
            (omega (arith, ap length nothing))
          ∙ rw nothing)
