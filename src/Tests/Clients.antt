-- ===== src/Tests/Clients.antt =====
-- A pool with a listener at descriptor 3 and a client at descriptor 4, and a server that counts.
use net_prog.Prelude.{
  ℕ, zero, suc, ap, inl, inr, Bool, ◌||◌, get_or, Bool-cases, if◌then◌else◌, ◌+◌, ◌<◌, ◌≤◌, ◌≡◌,
  ◌≢◌, refl, sym, ◌∙◌, get_or-replicate, true, false, none, some, Option, List, [], ◌∷◌, ◌==◌,
  arith, length, take, replicate,
}
use mathlib.Core.Path.{subst}
use net_prog.Prelude.Int.{ℤ, pos, negsuc}
use net_prog.Run.{Run, ok, Returns}
use net_prog.Pool.{
  FdPool, fd_setsize, init_pool, add_client, find_slot, raise_maxi, rounds_of, Server, close_client,
  handle_client_fds,
}
use net_prog.Pool.Add.{add_client-IsValid, add_client-stores}
use net_prog.Pool.Turn.{Turn, serve_turns}
use net_prog.Pool.Turn.Loop.{IsTurn, serve_turns-IsValid}
use net_prog.Pool.Scan.{ready_clients, serve_all, handle_client_fds-serve_all}
use net_prog.Pool.Valid.{slot, IsHeld, IsValid, init_pool-IsValid}

abbrev pub memory : ℤ → FdPool
memory maxi = record {
  maxfd = 0;
  read_set = λ fd. false;
  clientfd = [];
  client_addr = replicate 1024 0;
  maxi = maxi;
  ready_set = λ fd. fd == 4;
  nready = 1;
}

abbrev fresh_pool : FdPool
fresh_pool = init_pool 3 (memory (negsuc 0))

fresh_pool-IsValid : IsValid 3 fresh_pool
fresh_pool-IsValid = init_pool-IsValid 3 (memory (negsuc 0)) tt

no_client : (j : ℕ) → slot fresh_pool j ≢ some 4
unfolding init_pool
no_client j h = cc (get_or-replicate {A = Option ℕ} fd_setsize j none)

first_free : slot fresh_pool 0 ≡ none
unfolding init_pool
first_free = refl

added : Returns (add_client 4 9 fresh_pool) (IsValid 3)
added = add_client-IsValid 3 4 9 fresh_pool fresh_pool-IsValid (omega arith) (omega arith) no_client

stored :
    Returns
      (add_client 4 9 fresh_pool)
      λ after. (i : ℕ) × (slot after i ≡ some 4) × IsHeld after i 4
stored =
    add_client-stores 3 4 9 fresh_pool fresh_pool-IsValid (omega arith) (omega arith) no_client 0
      (omega arith) first_free

stored-IsValid : IsValid 3 stored.0
stored-IsValid =
    let same : ◌≡◌ {A = Run FdPool} (ok added.0) (ok stored.0) = sym added.1 ∙ stored.1 in
    subst (IsValid 3) (cc) added.2

-- It counts the requests, and finds data on every descriptor.
abbrev counter : Server ℕ
counter = record {
  ioctl = λ fd. some 5;
  on_close = λ i n. n;
  on_request = λ fd i pool n. ok (n + 1);
}

counts : (fd i : ℕ) (pool : FdPool) (n : ℕ) → (m : ℕ) × (counter.on_request fd i pool n ≡ ok m)
counts fd i pool n = (n + 1, refl)

abbrev pub has_4 : List (Option ℕ) → Bool
has_4 [] = false
has_4 (none ∷ fds) = has_4 fds
has_4 (some fd ∷ fds) = fd == 4 || has_4 fds

has_4-get_or : (fds : List (Option ℕ)) (j : ℕ) → has_4 fds ≡ false → get_or fds j none ≢ some 4
has_4-get_or [] j out e = cc
has_4-get_or (none ∷ fds) zero out e = cc
has_4-get_or (some fd ∷ fds) zero out e = let same : fd ≡ 4 = cc in ground arith
has_4-get_or (none ∷ fds) (suc j) out e = has_4-get_or fds j out e
has_4-get_or (some fd ∷ fds) (suc j) out e = has_4-get_or fds j (ground arith) e

-- The system gives descriptor 4 unless it is in use.
abbrev pub accept_4 : FdPool → Option (ℕ × ℕ)
accept_4 pool = if has_4 pool.clientfd then none else some (4, 9)

pub accept_4-fresh :
    (pool : FdPool) (fd addr : ℕ)
    → accept_4 pool ≡ some (fd, addr)
    → (fd < 1024) × (fd ≢ 3) × ((j : ℕ) → slot pool j ≢ some fd)
accept_4-fresh pool fd addr came = elim (Bool-cases (has_4 pool.clientfd)) [
  | inl used ↦ absurd (refused (rw used at came))
  | inr unused ↦
      let is_4 : 4 ≡ fd = accepted (rw unused at came) in
      (
        omega (arith, is_4),
        omega (arith, is_4),
        λ j held. has_4-get_or pool.clientfd j unused (held ∙ ap some (sym is_4)),
      )
]
  where
    refused : {client : ℕ × ℕ} → none ≢ some client
    refused e = cc

    accepted :
        {client : ℕ × ℕ} → ◌≡◌ {A = Option (ℕ × ℕ)} (some (4, 9)) (some client) → 4 ≡ client.0
    accepted e = cc

-- The listener is ready.
abbrev rings : Turn ℕ
rings = record { select = λ maxfd watched. some (watched, 1); accept = accept_4; server = counter }

rings-IsTurn : IsTurn 3 rings
rings-IsTurn = record { fresh = accept_4-fresh; answers = counts }

serve_turns-IsValid_example :
    Returns
      (serve_turns 3 (rings ∷ rings ∷ []) (init_pool 3 (memory (negsuc 0))) 0)
      λ r. IsValid 3 r.0
serve_turns-IsValid_example =
    serve_turns-IsValid 3 (rings ∷ rings ∷ []) (memory (negsuc 0)) 0
      (rings-IsTurn, (rings-IsTurn, tt)) tt

-- A pool that holds descriptor 4 in its first slot, which is ready.
abbrev busy : FdPool
busy = record {
  maxfd = 4;
  read_set = λ fd. true;
  clientfd = some 4 ∷ none ∷ [];
  client_addr = [];
  maxi = pos 1;
  ready_set = λ fd. fd == 4;
  nready = 1;
}

abbrev ready : List (ℕ × ℕ)
ready = ready_clients busy.ready_set 0 (take (rounds_of busy.maxi) busy.clientfd)

inside : rounds_of busy.maxi ≤ length busy.clientfd
unfolding rounds_of
inside = omega arith

number : busy.nready ≡ length ready
unfolding rounds_of ready_clients
number = refl

handle_client_fds-serve_all_example :
    handle_client_fds counter busy 0 ≡ serve_all counter ready busy 0
handle_client_fds-serve_all_example = handle_client_fds-serve_all counter busy 0 inside number

one_request : handle_client_fds counter busy 0 ≡ ok (record busy { nready = 0 }, 1)
unfolding handle_client_fds net_prog.Pool.scan net_prog.Pool.visit net_prog.Pool.serve rounds_of
one_request = refl
