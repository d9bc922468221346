-- ===== src/Transfer/Select/Clients/Apart.antt =====
-- The clients of the server with `select` do not disturb each other.
use net_prog.Prelude.{
  ℕ, suc, ◌-◌, ◌<◌, ◌≤◌, ◌≡◌, ◌≢◌, refl, ap, sym, ◌∙◌, inl, inr, Bool, true, ◌&&◌, Option, none,
  some, List, [], ◌∷◌, ◌++◌, arith, ltb, get_elem?, set, All, Bool-cases, Option-cases,
}
use net_prog.Run.{ok, fault, ◌>>=◌, >>=-assoc, bind-ok, ok_same, fault-ok}
use net_prog.Pool.{FdSet, FdPool, Server, close_client, serve}
use net_prog.Pool.Scan.{ioctl-cases, ready_clients, serve_all}
use net_prog.Transfer.Select.{Slot, Call, handle_client_request}
use net_prog.Transfer.Select.Clients.{
  SelectServer, empty_slot, reset_slot, serve_slot, select_server,
}
use net_prog.Transfer.Server.{Env}
use net_prog.Web.Threads.Tally.{get_elem?-set_self, get_elem?-set_ne}
use net_prog.Web.Threads.Taking.{some_same, none-some}
use net_prog.Wire.{Bytes}

-- Clients in other slots than `j`.
abbrev pub Elsewhere : ℕ → List (ℕ × ℕ) → Type 0
Elsewhere j clients = All (λ client. client.1 ≢ j) clients

-- The slots increase, from `k` on.
abbrev pub Above : ℕ → List (ℕ × ℕ) → Type 0
Above k [] = Unit
Above k (c ∷ clients) = (k ≤ c.1) × Above (suc c.1) clients

Above-le : (j k : ℕ) (clients : List (ℕ × ℕ)) → j ≤ k → Above k clients → Above j clients
Above-le j k [] le above = tt
Above-le j k (c ∷ clients) le (first, rest) = (omega arith, rest)

pub ready_clients-Above :
    (ready : FdSet) (k : ℕ) (fds : List (Option ℕ)) → Above k (ready_clients ready k fds)
unfolding ready_clients
ready_clients-Above ready k [] = tt
ready_clients-Above ready k (none ∷ fds) =
    Above-le k (suc k) (ready_clients ready (suc k) fds) (omega arith)
      (ready_clients-Above ready (suc k) fds)
ready_clients-Above ready k (some fd ∷ fds) =
    let rest = ready_clients-Above ready (suc k) fds in
    elim (Bool-cases (ltb 0 fd && ready fd)) [
      | inl test ↦ rw test (omega arith, rest)
      | inr test ↦ rw test (Above-le k (suc k) (ready_clients ready (suc k) fds) (omega arith) rest)
    ]

pub Above-Elsewhere :
    (k i : ℕ) (clients : List (ℕ × ℕ)) → i < k → Above k clients → Elsewhere i clients
Above-Elsewhere k i [] lt above = tt
Above-Elsewhere k i (c ∷ clients) lt (first, rest) =
    (omega arith, Above-Elsewhere (suc c.1) i clients (omega arith) rest)

-- A slot is that of one client only.
pub Above-split :
    (k fd i : ℕ) (before after : List (ℕ × ℕ))
    → Above k (before ++ (fd, i) ∷ after)
    → (k ≤ i) × Elsewhere i before × Elsewhere i after
Above-split k fd i [] after (first, rest) =
    (first, tt, Above-Elsewhere (suc i) i after (omega arith) rest)
Above-split k fd i (c ∷ before) after (first, rest) =
    let (le, others, behind) = Above-split (suc c.1) fd i before after rest in
    (omega arith, (omega arith, others), behind)

module _ (env : Env) (memory : ℕ → SelectServer → Bytes) (nread : ℕ → ℕ) (read : ℕ → Bytes) where
  abbrev pub server : Server SelectServer
  server = select_server env memory nread read

  -- What a round on the client in slot `i` does: the loop goes on, and the other slots stay.
  pub record Touches (i : ℕ) (s : SelectServer) (r : Bool × FdPool × SelectServer) : Type 0 where
    pub on : r.0 ≡ true
    pub others : (j : ℕ) → i ≢ j → get_elem? r.2.slots j ≡ get_elem? s.slots j

  abbrev pub counted : FdPool → FdPool
  counted pool = record pool { nready = pool.nready - 1 }

  abbrev pub called : ℕ → ℕ → SelectServer → Call → SelectServer
  called fd i s call = record {
    slots = set s.slots i call.slot;
    calls = s.calls ++ (fd, call) ∷ [];
  }

  pub serve-call :
      (n fd i : ℕ) (pool : FdPool) (s : SelectServer) (slot : Slot)
      → nread fd ≡ suc n
      → get_elem? s.slots i ≡ some slot
      → serve server fd i pool s ≡ (
          handle_client_request env (memory fd s) (some (read fd)) slot >>= λ call.
          ok (true, counted pool, called fd i s call))
  unfolding serve serve_slot
  serve-call n fd i pool s slot sent here =
      rw (sent, here, serve_slot)
        (>>=-assoc (handle_client_request env (memory fd s) (some (read fd)) slot)
          (λ call. ok (called fd i s call)) (λ s'. ok (true, counted pool, s')))

  -- The round on a client that has sent something.
  serve-request :
      (n fd i : ℕ) (pool : FdPool) (s : SelectServer) (slot : Slot)
      (r : Bool × FdPool × SelectServer)
      → nread fd ≡ suc n
      → get_elem? s.slots i ≡ some slot
      → serve server fd i pool s ≡ ok r
      → (call : Call) × (handle_client_request env (memory fd s) (some (read fd)) slot ≡ ok call)
        × (get_elem? r.2.slots i ≡ some call.slot)
        × Touches i s r
  serve-request n fd i pool s slot r sent here runs =
      let (call, handled, ends) =
        bind-ok (handle_client_request env (memory fd s) (some (read fd)) slot)
          (λ call. ok (true, counted pool, called fd i s call)) r
          (sym (serve-call n fd i pool s slot sent here) ∙ runs) in
      let is : (true, counted pool, called fd i s call) ≡ r = ok_same ends in
      (
        call,
        handled,
        rw (sym is) (get_elem?-set_self s.slots i slot call.slot here),
        rw (sym is)
            (record { on = refl; others = λ j ne. get_elem?-set_ne s.slots i j call.slot ne }),
      )

  serve-close :
      (fd i : ℕ) (pool : FdPool) (s : SelectServer) (r : Bool × FdPool × SelectServer)
      → nread fd ≡ 0
      → serve server fd i pool s ≡ ok r
      → Touches i s r
  unfolding serve reset_slot
  serve-close fd i pool s r closed runs =
      let is : (true, close_client fd i (counted pool), reset_slot env memory nread read i s) ≡ r =
        ok_same (rw closed at runs) in
      rw (sym is)
        (record { on = refl; others = λ j ne. get_elem?-set_ne s.slots i j empty_slot ne })

  serve-missing :
      (n fd i : ℕ) (pool : FdPool) (s : SelectServer)
      → nread fd ≡ suc n
      → get_elem? s.slots i ≡ none
      → serve server fd i pool s ≡ fault
  unfolding serve serve_slot
  serve-missing n fd i pool s sent gone = rw (sent, gone, serve_slot)

  pub serve-Touches :
      (fd i : ℕ) (pool : FdPool) (s : SelectServer) (r : Bool × FdPool × SelectServer)
      → serve server fd i pool s ≡ ok r
      → Touches i s r
  serve-Touches fd i pool s r runs = elim (ioctl-cases (some (nread fd))) [
    | inl e ↦ absurd (none-some (sym e))
    | inr (inl e) ↦ serve-close fd i pool s r (some_same e) runs
    | inr (inr (n, e)) ↦ elim (Option-cases (get_elem? s.slots i)) [
      | inl gone ↦ absurd (fault-ok (sym (serve-missing n fd i pool s (some_same e) gone) ∙ runs))
      | inr (slot, here) ↦ (serve-request n fd i pool s slot r (some_same e) here runs).3
    ]
  ]

  -- The first round of several, and the others.
  serve_all-cons :
      (fd i : ℕ) (clients : List (ℕ × ℕ)) (pool : FdPool) (s : SelectServer)
      (r : FdPool × SelectServer)
      → serve_all server ((fd, i) ∷ clients) pool s ≡ ok r
      → (v : Bool × FdPool × SelectServer) × (serve server fd i pool s ≡ ok v)
        × (serve_all server clients v.1 v.2 ≡ ok r)
  unfolding serve_all
  serve_all-cons fd i clients pool s r runs =
      let (v, ran, rest) = bind-ok (serve server fd i pool s) _ r runs in
      (v, ran, rw (serve-Touches fd i pool s v ran).on at rest)

  serve_all-Elsewhere :
      (clients : List (ℕ × ℕ)) (j : ℕ) (pool : FdPool) (s : SelectServer)
      (r : FdPool × SelectServer)
      → Elsewhere j clients
      → serve_all server clients pool s ≡ ok r
      → get_elem? r.1.slots j ≡ get_elem? s.slots j
  unfolding serve_all
  serve_all-Elsewhere [] j pool s r others runs =
      let is : (pool, s) ≡ r = ok_same runs in ap (λ t. get_elem? t.1.slots j) (sym is)
  serve_all-Elsewhere ((fd, i) ∷ clients) j pool s r (other, others) runs =
      let (v, ran, rest) = serve_all-cons fd i clients pool s r runs in
      serve_all-Elsewhere clients j v.1 v.2 r others rest
      ∙ (serve-Touches fd i pool s v ran).others j other

  pub serve_all-own :
      (before after : List (ℕ × ℕ)) (n fd i : ℕ) (pool : FdPool) (s : SelectServer) (slot : Slot)
      (r : FdPool × SelectServer)
      → Elsewhere i before
      → Elsewhere i after
      → nread fd ≡ suc n
      → get_elem? s.slots i ≡ some slot
      → serve_all server (before ++ (fd, i) ∷ after) pool s ≡ ok r
      → (s' : SelectServer) × (call : Call) × (handle_client_request env
            (memory fd s')
            (some (read fd))
            slot
          ≡ ok call)
        × (get_elem? r.1.slots i ≡ some call.slot)
  serve_all-own [] after n fd i pool s slot r ahead behind sent here runs =
      let (v, ran, rest) = serve_all-cons fd i after pool s r runs in
      let (call, handled, stored, touched) = serve-request n fd i pool s slot v sent here ran in
      (s, call, handled, serve_all-Elsewhere after i v.1 v.2 r behind rest ∙ stored)
  serve_all-own ((fd', k) ∷ before) after n fd i pool s slot r (other, ahead) behind sent here
        runs =
      let (v, ran, rest) = serve_all-cons fd' k (before ++ (fd, i) ∷ after) pool s r runs in
      serve_all-own before after n fd i v.1 v.2 slot r ahead behind sent
        ((serve-Touches fd' k pool s v ran).others i other ∙ here) rest
