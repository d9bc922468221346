-- ===== src/Super/Server/Returns.antt =====
-- A super node goes on as long as its clients greet it and ask for files.
use net_prog.Prelude.{
  ℕ, ◌^◌, ◌<◌, ◌≡◌, ◌≢◌, refl, ap, ◌∙◌, ◌⊎◌, inl, inr, some, List, [], ◌∷◌, ◌++◌, All, length,
  get_or, false,
}
use net_prog.Child.{hello_from_child_packet}
use net_prog.Child.Hello.{deliver-hello}
use net_prog.Pool.{FdPool}
use net_prog.Pool.Turn.Same.{Answering}
use net_prog.Pool.Turn.Total.{IsFresh, serve_turns-Returns}
use net_prog.Pool.Valid.{Inside, slot, IsValid}
use net_prog.Run.{ok, Returns}
use net_prog.Super.Node.{Node, Env, IsEnv, Event, reply}
use net_prog.Super.Request.{reply_header, handle_client_request}
use net_prog.Super.Request.Query.{search_query_packet, deliver-query}
use net_prog.Super.Server.{
  SuperServer, after_request, SuperTurn, serve_request, super_turn, super_turns, super_server,
}
use net_prog.Super.Table.{Text, FileInfo, FileTable, search_file_info}
use net_prog.Super.Table.Home.{IsAscii}
use net_prog.Super.Table.Probe
use net_prog.Super.Table.Search.{search_file_info_complete}
use net_prog.Wire.{Bytes, IsText}

-- The greeting of a child.
pub record IsHello (bytes : Bytes) : Type 0 where
  pub cid : ℕ
  pub port : ℕ
  pub cid_fits : cid < 2 ^ 32
  pub port_fits : port < 2 ^ 32
  pub is_hello : bytes ≡ hello_from_child_packet cid port

-- A query for the ASCII name of a file in the table, which fits its field.
pub record IsQuery (t : FileTable) (bytes : Bytes) : Type 0 where
  pub from : Env
  pub from_is : IsEnv from
  pub cid : ℕ
  pub name : Text
  pub ascii : IsAscii name
  pub text : IsText name
  pub short : length name < 96
  pub is_query : bytes ≡ search_query_packet from cid name
  pub cell : ℕ
  pub entry : FileInfo
  pub stored : Probe.at t.file_info_list cell ≡ some entry
  pub named : entry.file_name ≡ name

abbrev pub IsQuiet : FileTable → Bytes → Type 0
IsQuiet t bytes = IsHello bytes ⊎ IsQuery t bytes

pub record IsQuietTurn (t : FileTable) (listener : ℕ) (turn : SuperTurn) : Type 0 where
  pub fresh :
      (pool : FdPool) (fd addr : ℕ)
      → turn.accept pool ≡ some (fd, addr)
      → (fd < 1024) × (fd ≢ listener) × ((j : ℕ) → slot pool j ≢ some fd)
  pub bytes : ℕ → Bytes
  pub reads : (fd : ℕ) → turn.read fd ≡ some (bytes fd)
  pub quiet : (fd : ℕ) → IsQuiet t (bytes fd)

-- One packet to the client, and no more.
abbrev pub IsReply : List Event → Type 0
IsReply events = (p : Bytes) × (events ≡ reply p ∷ [])

-- The node's table is this one, it has not exited, and every request was answered with one packet.
abbrev pub Quiet : FileTable → SuperServer → Type 0
Quiet t s = (s.node.table ≡ t) × (s.exited ≡ false) × All (λ e. IsReply e.1) s.sent

module _ (id listener : ℕ) (t : FileTable) (valid : Probe.IsValid t) where
  All-snoc :
      (sent : List (ℕ × List Event)) (e : ℕ × List Event)
      → All (λ e. IsReply e.1) sent
      → IsReply e.1
      → All (λ e. IsReply e.1) (sent ++ e ∷ [])
  All-snoc [] e all last = (last, tt)
  All-snoc (d ∷ sent) e (first, all) last = (first, All-snoc sent e all last)

  handle-quiet :
      (env : Env) (node : Node) (bytes : Bytes)
      → node.table ≡ t
      → IsQuiet t bytes
      → Returns
          (handle_client_request id (some bytes) env node)
          λ r. (r.node.table ≡ t) × (r.exits ≡ false) × IsReply r.events
  unfolding reply_header
  handle-quiet env node bytes same (inl hello) = (
    _,
    ap (λ b. handle_client_request id (some b) env node) hello.is_hello
        ∙ deliver-hello id hello.cid hello.port env node hello.cid_fits hello.port_fits,
    (same, refl, (_, refl)),
  )
  handle-quiet env node bytes same (inr q) =
      let (found, run) =
        search_file_info_complete q.name q.ascii t q.cell q.entry valid q.stored q.named in
      (
        _,
        ap (λ b. handle_client_request id (some b) env node) q.is_query
            ∙ deliver-query id env node q.from q.from_is q.cid q.name found q.text q.short
                (ap (λ u. search_file_info q.name u.file_info_list) same ∙ run),
        (same, refl, (_, refl)),
      )

  super_turn-Answering :
      (turn : SuperTurn)
      → IsQuietTurn t listener turn
      → Answering (Quiet t) (super_turn id turn).server
  unfolding super_turn serve_request after_request
  super_turn-Answering turn is = record {
    close = λ i s quiet. quiet;
    answers = λ fd i pool s (same, runs, all).
        let env = turn.env fd (get_or pool.client_addr i 0) in
        let (r, run, (same', goes_on, one)) =
          handle-quiet env s.node (is.bytes fd) same (is.quiet fd) in
        let ran : handle_client_request id (turn.read fd) env s.node ≡ ok r =
          ap (λ b. handle_client_request id b env s.node) (is.reads fd) ∙ run in
        (
          after_request fd s r,
          rw (runs, ran),
          (same', goes_on, All-snoc s.sent (fd, r.events) all one),
        );
  }

  super_turns-Answering :
      (turns : List SuperTurn)
      → All (IsQuietTurn t listener) turns
      → All (λ turn. Answering (Quiet t) turn.server) (super_turns id turns)
  unfolding super_turns
  super_turns-Answering [] all = tt
  super_turns-Answering (turn ∷ turns) (is, all) =
      (super_turn-Answering turn is, super_turns-Answering turns all)

  super_turns-IsFresh :
      (turns : List SuperTurn)
      → All (IsQuietTurn t listener) turns
      → All (IsFresh listener) (super_turns id turns)
  unfolding super_turns super_turn
  super_turns-IsFresh [] all = tt
  super_turns-IsFresh (turn ∷ turns) (is, all) = (is.fresh, super_turns-IsFresh turns all)

-- If the table of a super node is valid, maxi held -1 or an index of the array before, accept
-- returns only descriptors below 1024 that are neither the listener nor held, and all that
-- clients send are greetings of children and queries for the ASCII names of files in the table
-- that fit the packet, then any number of rounds of the main loop returns, whatever select and
-- ioctl report: the pool is valid, the table is the one that it was, the node has not exited, and
-- every request was answered with exactly one packet.
pub super_server-Returns :
    (id listener : ℕ) (turns : List SuperTurn) (garbage : FdPool) (node : Node)
    → Probe.IsValid node.table
    → All (IsQuietTurn node.table listener) turns
    → Inside garbage.maxi
    → Returns
        (super_server id listener turns garbage node)
        λ r. IsValid listener r.0 × Quiet node.table r.1
unfolding super_server
super_server-Returns id listener turns garbage node valid all inside =
    serve_turns-Returns (Quiet node.table) listener (super_turns id turns) garbage
      (record { node = node; sent = []; exited = false })
      (super_turns-IsFresh id listener node.table valid turns all)
      (super_turns-Answering id listener node.table valid turns all) inside (refl, refl, tt)
