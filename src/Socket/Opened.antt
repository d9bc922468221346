-- ===== src/Socket/Opened.antt =====
-- When a listening socket is returned, and what stays open.
use net_prog.Prelude.{
  ℕ, ◌%◌, ◌^◌, ◌≡◌, inl, inr, Bool, ◌&&◌, Option, none, some, List, ◌∷◌, Bool-cases, Option-cases,
  if◌then◌else◌,
}
use net_prog.Socket.{
  reuses_addr, binds, listens, Os, Sockets, made, created, sin_port, bind_and_listen,
  set_non_blocking, open_server_sock, open_nb_server_sock,
}

-- Whether the calls that must succeed do, on a descriptor.
abbrev pub grants : Os → ℕ → ℕ → Bool
grants os port_num fd =
    os.succeeds (reuses_addr fd)
    && (os.succeeds (binds fd (port_num % 2 ^ 16)) && os.succeeds (listens fd 1024))

abbrev pub granted : Os → ℕ → Option ℕ → Option ℕ
granted os port_num none = none
granted os port_num (some fd) = if grants os port_num fd then some fd else none

abbrev pub with_socket : Option ℕ → List ℕ → List ℕ
with_socket none open_fds = open_fds
with_socket (some fd) open_fds = fd ∷ open_fds

-- What is said of an opening function: what it returns, and what is open after it.
abbrev pub Opens : (Os → ℕ → Sockets → Option ℕ × Sockets) → Os → ℕ → Sockets → Type 0
Opens opening os port_num s =
    ((opening os port_num s).0 ≡ granted os port_num os.socket)
    × ((opening os port_num s).1.open_fds ≡ with_socket os.socket s.open_fds)

bind_and_listen-Opens :
    (os : Os) (port_num fd : ℕ) (s : Sockets)
    → ((bind_and_listen os fd port_num s).0 ≡ (
        if os.succeeds (binds fd (port_num % 2 ^ 16)) && os.succeeds (listens fd 1024)
        then some fd
        else none))
      × ((bind_and_listen os fd port_num s).1.open_fds ≡ s.open_fds)
unfolding bind_and_listen sin_port
bind_and_listen-Opens os port_num fd s =
    elim (Bool-cases (os.succeeds (binds fd (port_num % 2 ^ 16)))) [
      | inr refused ↦ (rw refused, rw refused)
      | inl bound ↦ elim (Bool-cases (os.succeeds (listens fd 1024))) [
        | inr refused ↦ (rw (bound, refused), rw (bound, refused))
        | inl listening ↦ (rw (bound, listening), rw (bound, listening))
      ]
    ]

-- Each of the two functions that open a listening socket returns the new descriptor if
-- setsockopt, bind to the port modulo 2^16 and listen all succeed on it, whether or not fcntl
-- does, and an error otherwise; in either case the descriptor stays open once socket has made it.
pub open_nb_server_sock-Opens :
    (os : Os) (port_num : ℕ) (s : Sockets)
    → Opens open_nb_server_sock os port_num s × Opens open_server_sock os port_num s
unfolding open_nb_server_sock open_server_sock set_non_blocking bind_and_listen
open_nb_server_sock-Opens os port_num s = elim (Option-cases os.socket) [
  | inl refused ↦ ((rw refused, rw refused), (rw refused, rw refused))
  | inr (fd, came) ↦
      let reused = made (reuses_addr fd) (created fd s) in
      let (value, kept) = bind_and_listen-Opens os port_num fd reused in
      let (value', kept') = bind_and_listen-Opens os port_num fd (set_non_blocking os fd reused) in
      elim (Bool-cases (os.succeeds (reuses_addr fd))) [
        | inr refused ↦
            ((rw (came, refused), rw (came, refused)), (rw (came, refused), rw (came, refused)))
        | inl reusable ↦ (
          (rw (came, reusable) value', rw (came, reusable) kept'),
          (rw (came, reusable) value, rw (came, reusable) kept),
        )
      ]
]
