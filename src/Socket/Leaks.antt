-- ===== src/Socket/Leaks.antt =====
-- A connection that is refused leaves its descriptor open.
use net_prog.Prelude.{
  ℕ, ◌+◌, ◌%◌, ◌^◌, ◌≡◌, refl, ap, ◌∙◌, inl, inr, Option, none, some, List, [], ◌∷◌, arith, length,
  Bool-cases, Option-cases, if◌then◌else◌, ==_iff,
}
use net_prog.Socket.{
  connects, Os, Sockets, made, created, sin_port, end_query, close, connect_sock, open_client_sock,
  query_rounds,
}
use net_prog.Super.Table.{Text}

-- The rounds in which a socket is created and not connected.
abbrev pub refused_in : Text → ℕ → Option ℕ → Os → ℕ
refused_in ip_addr port_num none os = 0
refused_in ip_addr port_num (some fd) os =
    if os.succeeds (connects fd ip_addr (port_num % 2 ^ 16)) then 0 else 1

abbrev pub refusals : Text → ℕ → List Os → ℕ
refusals ip_addr port_num [] = 0
refusals ip_addr port_num (os ∷ rounds) =
    refused_in ip_addr port_num os.socket os + refusals ip_addr port_num rounds

query_rounds-next :
    (ip_addr : Text) (port_num : ℕ) (os : Os) (rounds : List Os) (s : Sockets)
    (r : Option ℕ × Sockets)
    → open_client_sock os ip_addr port_num s ≡ r
    → query_rounds ip_addr port_num (os ∷ rounds) s
      ≡ query_rounds ip_addr port_num rounds (end_query r.0 r.1)
unfolding query_rounds
query_rounds-next ip_addr port_num os rounds s r ran =
    ap (λ q. query_rounds ip_addr port_num rounds (end_query q.0 q.1)) ran

-- What one round adds to the open descriptors.
round_adds :
    (ip_addr : Text) (port_num : ℕ) (os : Os) (s : Sockets)
    → (r : Option ℕ × Sockets) × (open_client_sock os ip_addr port_num s ≡ r)
      × (length (end_query r.0 r.1).open_fds
          ≡ refused_in ip_addr port_num os.socket os + length s.open_fds)
unfolding open_client_sock connect_sock sin_port end_query close
round_adds ip_addr port_num os s = elim (Option-cases os.socket) [
  | inl failed ↦ ((none, s), simp (open_client_sock, failed), simp failed (omega arith))
  | inr (fd, came) ↦
      let asked = made (connects fd ip_addr (port_num % 2 ^ 16)) (created fd s) in
      elim (Bool-cases (os.succeeds (connects fd ip_addr (port_num % 2 ^ 16)))) [
        | inl connected ↦ (
          (some fd, asked),
          simp (open_client_sock, came, connected),
          simp (came, connected, (==_iff fd fd).1 refl) (omega arith),
        )
        | inr refused ↦ (
          (none, asked),
          simp (open_client_sock, came, refused),
          simp (came, refused) (omega arith),
        )
      ]
]

-- Over any number of rounds of a child's main loop, the connections to the super node leave as
-- many descriptors open, beyond those that were, as there were rounds in which a socket was made
-- and could not be connected.
pub query_rounds-leak :
    (ip_addr : Text) (port_num : ℕ) (rounds : List Os) (s : Sockets)
    → length (query_rounds ip_addr port_num rounds s).open_fds
      ≡ refusals ip_addr port_num rounds + length s.open_fds
unfolding query_rounds
query_rounds-leak ip_addr port_num [] s = omega arith
query_rounds-leak ip_addr port_num (os ∷ rounds) s =
    let (r, ran, adds) = round_adds ip_addr port_num os s in
    ap (λ after. length after.open_fds) (query_rounds-next ip_addr port_num os rounds s r ran)
    ∙ query_rounds-leak ip_addr port_num rounds (end_query r.0 r.1)
    ∙ omega (arith, adds)
