-- ===== src/Socket.antt =====
-- How sockets are opened: `openNBServerSock` and `openClientSock` of p4/src/common.c and
-- `openServerSock` of p1/src/server_utilities.c. The copies in p2/src/multi_server_utilities.c,
-- p2/src/select_server_utilities.c, p3/src/server_utilities.c and the client_utilities.c of p1, p2
-- and p3 have the same text but for what they print. What the system calls return is a parameter.
pub mod Opened
pub mod Leaks
use net_prog.Prelude.{
  ℕ, ◌+◌, ◌-◌, ◌/◌, ◌%◌, ◌^◌, Bool, Option, none, some, List, [], ◌∷◌, ◌++◌, ◌==◌, if◌then◌else◌,
}
use net_prog.Super.Table.{Text}

-- A system call on a descriptor.
pub data SystemCall : Type 0 where
  -- `setsockopt` with SO_REUSEADDR
  reuses_addr : ℕ → SystemCall
  -- `fcntl` with F_SETFL and the flags
  sets_flags : ℕ → ℕ → SystemCall
  -- the port in `sin_port`
  binds : ℕ → ℕ → SystemCall
  -- the length of the queue
  listens : ℕ → ℕ → SystemCall
  -- the address as text, and the port in `sin_port`
  connects : ℕ → Text → ℕ → SystemCall

-- What the system does while a socket is opened.
pub record Os : Type 0 where
  -- a new descriptor, or an error
  pub socket : Option ℕ
  -- `fcntl` with F_GETFL
  pub get_flags : ℕ → Option ℕ
  pub succeeds : SystemCall → Bool

-- The open descriptors of the process, and the calls that it has made.
pub record Sockets : Type 0 where
  pub open_fds : List ℕ
  pub calls : List SystemCall

-- The system call `close`, of a descriptor that is open once.
unfoldable pub close : ℕ → List ℕ → List ℕ
close fd [] = []
close fd (a ∷ open_fds) = if a == fd then open_fds else a ∷ close fd open_fds

abbrev pub made : SystemCall → Sockets → Sockets
made call s = record s { calls = s.calls ++ call ∷ [] }

abbrev pub created : ℕ → Sockets → Sockets
created fd s = record s { open_fds = fd ∷ s.open_fds }

abbrev pub listenq : ℕ
listenq = 1024

-- `htons` of an `int` keeps 16 bits.
unfoldable pub sin_port : ℕ → ℕ
sin_port port_num = port_num % 2 ^ 16

-- `optval | O_NONBLOCK`, for bit 11. After an error `optval` is -1, which has all bits.
unfoldable pub with_nonblock : Option ℕ → ℕ
with_nonblock none = 2 ^ 32 - 1
with_nonblock (some flags) = if flags / 2048 % 2 == 1 then flags else flags + 2048

module _ (os : Os) where
  -- From `bind` on.
  unfoldable pub bind_and_listen : ℕ → ℕ → Sockets → Option ℕ × Sockets
  bind_and_listen fd port_num s =
      let bound = made (binds fd (sin_port port_num)) s in
      let listening = made (listens fd listenq) bound in
      if os.succeeds (binds fd (sin_port port_num))
      then (if os.succeeds (listens fd listenq) then (some fd, listening) else (none, listening))
      else (none, bound)

  -- Errors of both calls are printed, and that is all.
  unfoldable pub set_non_blocking : ℕ → Sockets → Sockets
  set_non_blocking fd s = made (sets_flags fd (with_nonblock (os.get_flags fd))) s

  unfoldable pub open_server_sock : ℕ → Sockets → Option ℕ × Sockets
  open_server_sock port_num s = elim os.socket [
    | none ↦ (none, s)
    | some fd ↦
        let reused = made (reuses_addr fd) (created fd s) in
        if os.succeeds (reuses_addr fd) then bind_and_listen fd port_num reused else (none, reused)
  ]

  unfoldable pub open_nb_server_sock : ℕ → Sockets → Option ℕ × Sockets
  open_nb_server_sock port_num s = elim os.socket [
    | none ↦ (none, s)
    | some fd ↦
        let reused = made (reuses_addr fd) (created fd s) in
        if os.succeeds (reuses_addr fd)
        then bind_and_listen fd port_num (set_non_blocking fd reused)
        else (none, reused)
  ]

  -- From `connect` on.
  unfoldable pub connect_sock : ℕ → Text → ℕ → Sockets → Option ℕ × Sockets
  connect_sock fd ip_addr port_num s =
      let asked = made (connects fd ip_addr (sin_port port_num)) s in
      if os.succeeds (connects fd ip_addr (sin_port port_num))
      then (some fd, asked)
      else (none, asked)

  unfoldable pub open_client_sock : Text → ℕ → Sockets → Option ℕ × Sockets
  open_client_sock ip_addr port_num s = elim os.socket [
    | none ↦ (none, s)
    | some fd ↦ connect_sock fd ip_addr port_num (created fd s)
  ]

-- The connection to the super node is closed after the answer; without one there is nothing to
-- close.
unfoldable pub end_query : Option ℕ → Sockets → Sockets
end_query none s = s
end_query (some fd) s = record s { open_fds = close fd s.open_fds }

-- The connections to the super node in the rounds of a child's main loop.
unfoldable pub query_rounds : Text → ℕ → List Os → Sockets → Sockets
query_rounds ip_addr port_num [] s = s
query_rounds ip_addr port_num (os ∷ rounds) s =
    let (client_sock, after) = open_client_sock os ip_addr port_num s in
    query_rounds ip_addr port_num rounds (end_query client_sock after)
