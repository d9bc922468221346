-- ===== src/Transfer/Select/Clients/Own.antt =====
-- If all handlers return, so does the loop, and each client has its own slot served.
use net_prog.Prelude.{
  ℕ, suc, ◌≤◌, ◌≡◌, refl, ap, sym, ◌∙◌, ◌⊎◌, inl, inr, Bool, true, some, List, [], ◌∷◌, ◌++◌, arith,
  length, get_elem?, take, All,
}
use net_prog.Run.{ok, ok_same}
use net_prog.Pool.{FdPool, Server, close_client, serve, rounds_of, handle_client_fds}
use net_prog.Pool.Scan.{ready_clients, serve_all, handle_client_fds-serve_all}
use net_prog.Transfer.Select.{Slot, Call, handle_client_request}
use net_prog.Transfer.Select.Clients.{SelectServer, reset_slot, select_server}
use net_prog.Transfer.Server.{Env}
use net_prog.Wire.{Bytes}
use net_prog.Transfer.Select.Clients.Apart.{
  Elsewhere, Above, Above-Elsewhere, Above-split, ready_clients-Above, counted, called, Touches,
  serve-call, serve-Touches, serve_all-own,
}

module _ (env : Env) (memory : ℕ → SelectServer → Bytes) (nread : ℕ → ℕ) (read : ℕ → Bytes) where
  abbrev server : Server SelectServer
  server = select_server env memory nread read

  -- A client has closed its connection, or the handler returns on what it has sent, whatever the
  -- packet on the stack held.
  abbrev pub IsHandled : SelectServer → ℕ × ℕ → Type 0
  IsHandled s client =
      (nread client.0 ≡ 0)
      ⊎ ((n : ℕ) × (slot : Slot) × (nread client.0 ≡ suc n)
          × (get_elem? s.slots client.1 ≡ some slot)
          × ((m : Bytes)
              → (call : Call) × (handle_client_request env m (some (read client.0)) slot
                  ≡ ok call)))

  serve-ok :
      (fd i : ℕ) (pool : FdPool) (s : SelectServer)
      → IsHandled s (fd, i)
      → (r : Bool × FdPool × SelectServer) × (serve server fd i pool s ≡ ok r)
  unfolding serve
  serve-ok fd i pool s (inl closed) = (
    (
      true,
      close_client fd i (counted env memory nread read pool),
      reset_slot env memory nread read i s,
    ),
    rw closed,
  )
  serve-ok fd i pool s (inr (n, slot, sent, here, handled)) =
      let (call, ran) = handled (memory fd s) in
      (
        (true, counted env memory nread read pool, called env memory nread read fd i s call),
        serve-call env memory nread read n fd i pool s slot sent here ∙ rw ran,
      )

  still-IsHandled :
      (i : ℕ) (s : SelectServer) (v : Bool × FdPool × SelectServer) (clients : List (ℕ × ℕ))
      → Touches env memory nread read i s v
      → Elsewhere i clients
      → All (IsHandled s) clients
      → All (IsHandled v.2) clients
  still-IsHandled i s v [] touches others all = tt
  still-IsHandled i s v ((fd, k) ∷ clients) touches (other, others) (inl closed, all) =
      (inl closed, still-IsHandled i s v clients touches others all)
  still-IsHandled i s v ((fd, k) ∷ clients) touches (other, others)
        (inr (n, slot, sent, here, handled), all) =
      (
        inr (n, slot, sent, touches.others k (λ e. other (sym e)) ∙ here, handled),
        still-IsHandled i s v clients touches others all,
      )

  serve_all-first :
      (fd i : ℕ) (clients : List (ℕ × ℕ)) (pool : FdPool) (s : SelectServer)
      (v : Bool × FdPool × SelectServer)
      → serve server fd i pool s ≡ ok v
      → v.0 ≡ true
      → serve_all server ((fd, i) ∷ clients) pool s ≡ serve_all server clients v.1 v.2
  unfolding serve_all
  serve_all-first fd i clients pool s v ran goes_on = rw (ran, goes_on)

  serve_all-ok :
      (k : ℕ) (clients : List (ℕ × ℕ)) (pool : FdPool) (s : SelectServer)
      → Above k clients
      → All (IsHandled s) clients
      → (r : FdPool × SelectServer) × (serve_all server clients pool s ≡ ok r)
  unfolding serve_all
  serve_all-ok k [] pool s above all = ((pool, s), refl)
  serve_all-ok k ((fd, i) ∷ clients) pool s (first, above) (handled, all) =
      let (v, ran) = serve-ok fd i pool s handled in
      let touches = serve-Touches env memory nread read fd i pool s v ran in
      let (r, runs) = serve_all-ok (suc i) clients v.1 v.2 above (
        still-IsHandled i s v clients touches
          (Above-Elsewhere (suc i) i clients (omega arith) above) all) in
      (r, serve_all-first fd i clients pool s v ran touches.on ∙ runs)

  -- In the server of p2 with select, if nready is the number of ready clients in the slots up to
  -- maxi, maxi lies in the array, and each ready client has closed its connection or has sent a
  -- packet on which the handler returns for what is kept in its slot, whatever the packet on the
  -- stack held before, then the loop over the descriptors returns; and for any ready client that
  -- has sent a packet on which the handler does the same whatever the packet on the stack held,
  -- its slot then holds what the handler makes of that packet and of what the slot held before,
  -- whatever the other clients do and leave on the stack.
  pub handle_client_fds-own :
      (pool : FdPool) (s : SelectServer) (before after : List (ℕ × ℕ)) (n fd i : ℕ) (slot : Slot)
      (call : Call)
      → rounds_of pool.maxi ≤ length pool.clientfd
      → pool.nready
        ≡ length (ready_clients pool.ready_set 0 (take (rounds_of pool.maxi) pool.clientfd))
      → ready_clients pool.ready_set 0 (take (rounds_of pool.maxi) pool.clientfd)
        ≡ before ++ (fd, i) ∷ after
      → nread fd ≡ suc n
      → get_elem? s.slots i ≡ some slot
      → ((m : Bytes) → handle_client_request env m (some (read fd)) slot ≡ ok call)
      → All (IsHandled s) (before ++ (fd, i) ∷ after)
      → (r : FdPool × SelectServer) × (handle_client_fds server pool s ≡ ok r)
        × (get_elem? r.1.slots i ≡ some call.slot)
  handle_client_fds-own pool s before after n fd i slot call inside count split sent here same all =
      let fds = take (rounds_of pool.maxi) pool.clientfd in
      let above : Above 0 (before ++ (fd, i) ∷ after) =
        rw split at (ready_clients-Above pool.ready_set 0 fds) in
      let (le, ahead, behind) = Above-split 0 fd i before after above in
      let (r, runs) = serve_all-ok 0 (before ++ (fd, i) ∷ after) pool s above all in
      let (s', call', handled, stored) =
        serve_all-own env memory nread read before after n fd i pool s slot r ahead behind sent here
          runs in
      (
        r,
        handle_client_fds-serve_all server pool s inside count
            ∙ ap (λ clients. serve_all server clients pool s) split
            ∙ runs,
        stored ∙ ap (λ c. some c.slot) (ok_same (sym handled ∙ same (memory fd s'))),
      )
