-- ===== src/Peer/Server/Answers.antt =====
-- Every peer that has sent a request is answered, and gets the file that it has asked for.
use net_prog.Prelude.{
  ℕ, ◌^◌, suc, ◌-◌, ◌<◌, ◌≤◌, ◌≡◌, ◌≢◌, refl, ap, sym, ◌∙◌, ◌⊎◌, inl, inr, Bool, true, Option, some,
  List, [], ◌∷◌, ◌++◌, length, take, All, append_assoc, append-nil,
}
use net_prog.Peer.{Disk, answer_peer, receive, stores}
use net_prog.Peer.Download.{reads_of}
use net_prog.Peer.Request.{file_req_packet, answer_peer-receive}
use net_prog.Peer.Server.Returns.{IsDisk, IsNamed, answer_peer-ok}
use net_prog.Peer.Server.{Answers, answer_client, peer_server}
use net_prog.Pool.{FdPool, Server, close_client, serve, rounds_of, handle_client_fds}
use net_prog.Pool.Scan.{ready_clients, serve_all, handle_client_fds-serve_all}
use net_prog.Run.{ok, Returns}
use net_prog.Super.Node.{Env, IsEnv}
use net_prog.Super.Table.{Text}
use net_prog.Wire.{Bytes, IsText}

module _ (fuel id : ℕ) (disk : ℕ → Disk) (ioctl : ℕ → Option ℕ) (read : ℕ → Option Bytes)
    (disks : (fd : ℕ) → IsDisk fuel (disk fd)) where
  abbrev server : Server Answers
  server = peer_server fuel id disk ioctl read

  -- A peer has closed its connection, or has sent something with a name that ends.
  abbrev pub IsPeer : ℕ × ℕ → Type 0
  IsPeer client =
      (ioctl client.0 ≡ some 0)
      ⊎ ((n : ℕ) × (ioctl client.0 ≡ some (suc n)) × IsNamed (disk client.0).memory (read client.0))

  -- What serving one client adds to the answers.
  abbrev Adds : Answers → Answers → Bool × FdPool × Answers → Type 0
  Adds s new v = (v.0 ≡ true) × (v.2 ≡ s ++ new)

  serve-sends :
      (fd i : ℕ) (pool : FdPool) (s : Answers) (n : ℕ) (packets : List Bytes)
      → ioctl fd ≡ some (suc n)
      → answer_peer fuel (disk fd) id (read fd) ≡ ok packets
      → Returns (serve server fd i pool s) (Adds s ((fd, packets) ∷ []))
  unfolding serve answer_client
  serve-sends fd i pool s n packets waits run = (
    (true, record pool { nready = pool.nready - 1 }, s ++ (fd, packets) ∷ []),
    rw (waits, run),
    (refl, refl),
  )

  serve-Adds :
      (fd i : ℕ) (pool : FdPool) (s : Answers)
      → IsPeer (fd, i)
      → (new : Answers) × Returns (serve server fd i pool s) (Adds s new)
  unfolding serve
  serve-Adds fd i pool s (inl closed) = (
    [],
    (
      (true, close_client fd i (record pool { nready = pool.nready - 1 }), s),
      rw closed,
      (refl, sym (append-nil s)),
    ),
  )
  serve-Adds fd i pool s (inr (n, waits, named)) =
      let (packets, run) = answer_peer-ok fuel id (disk fd) (read fd) (disks fd) named in
      ((fd, packets) ∷ [], serve-sends fd i pool s n packets waits run)

  serve_all-next :
      (fd i : ℕ) (clients : List (ℕ × ℕ)) (pool : FdPool) (s : Answers)
      (v : Bool × FdPool × Answers)
      → serve server fd i pool s ≡ ok v
      → v.0 ≡ true
      → serve_all server ((fd, i) ∷ clients) pool s ≡ serve_all server clients v.1 v.2
  unfolding serve_all
  serve_all-next fd i clients pool s v ran goes_on = rw (ran, goes_on)

  serve_all-adds :
      (clients : List (ℕ × ℕ)) (pool : FdPool) (s : Answers)
      → All IsPeer clients
      → (new : Answers) × Returns (serve_all server clients pool s) λ r. r.1 ≡ s ++ new
  unfolding serve_all
  serve_all-adds [] pool s all = ([], ((pool, s), refl, sym (append-nil s)))
  serve_all-adds ((fd, i) ∷ clients) pool s (peer, all) =
      let (new, (v, ran, (on, added))) = serve-Adds fd i pool s peer in
      let (more, (r, runs, has)) = serve_all-adds clients v.1 v.2 all in
      (
        new ++ more,
        (
          r,
          serve_all-next fd i clients pool s v ran on ∙ runs,
          has ∙ ap (λ a. a ++ more) added ∙ append_assoc s new more,
        ),
      )

  serve_all-sends :
      (before after : List (ℕ × ℕ)) (fd i : ℕ) (pool : FdPool) (s : Answers) (n : ℕ)
      (packets : List Bytes)
      → All IsPeer (before ++ (fd, i) ∷ after)
      → ioctl fd ≡ some (suc n)
      → answer_peer fuel (disk fd) id (read fd) ≡ ok packets
      → (front back : Answers) × Returns
          (serve_all server (before ++ (fd, i) ∷ after) pool s)
          λ r. r.1 ≡ s ++ (front ++ (fd, packets) ∷ back)
  serve_all-sends [] after fd i pool s n packets (peer, all) waits run =
      let (v, ran, (on, added)) = serve-sends fd i pool s n packets waits run in
      let (more, (r, runs, has)) = serve_all-adds after v.1 v.2 all in
      (
        [],
        more,
        (
          r,
          serve_all-next fd i after pool s v ran on ∙ runs,
          has ∙ ap (λ a. a ++ more) added ∙ append_assoc s ((fd, packets) ∷ []) more,
        ),
      )
  serve_all-sends ((fe, j) ∷ before) after fd i pool s n packets (peer, all) waits run =
      let (new, (v, ran, (on, added))) = serve-Adds fe j pool s peer in
      let (front, back, (r, runs, has)) =
        serve_all-sends before after fd i v.1 v.2 n packets all waits run in
      let mine = (fd, packets) ∷ back in
      (
        new ++ front,
        back,
        (
          r,
          serve_all-next fe j (before ++ (fd, i) ∷ after) pool s v ran on ∙ runs,
          has
              ∙ ap (λ a. a ++ (front ++ mine)) added
              ∙ append_assoc s new (front ++ mine)
              ∙ ap (λ a. s ++ a) (sym (append_assoc new front mine)),
        ),
      )

  -- In the server thread of a child, on disks whose files are shorter than the fuel and are read
  -- in blocks of 1 to 10000 bytes, if nready is the number of ready clients in the slots up to
  -- maxi, maxi lies in the array, and each ready client has closed its connection or has sent
  -- something whose name field has an end, then the loop over the descriptors returns; and to any
  -- of these clients that has asked, with a name that fits the request, for a file that is there,
  -- not empty and shorter than 2^31 bytes, it has written packets from which a receiver with a
  -- block of the right size stores exactly the content of the file.
  pub handle_client_fds-sends :
      (env : Env) (cid : ℕ) (name : Text) (content fresh memory : Bytes) (pool : FdPool)
      (answers : Answers) (before after : List (ℕ × ℕ)) (fd i n : ℕ)
      → IsEnv env
      → IsText name
      → length name < 96
      → rounds_of pool.maxi ≤ length pool.clientfd
      → pool.nready
        ≡ length (ready_clients pool.ready_set 0 (take (rounds_of pool.maxi) pool.clientfd))
      → ready_clients pool.ready_set 0 (take (rounds_of pool.maxi) pool.clientfd)
        ≡ before ++ (fd, i) ∷ after
      → All IsPeer (before ++ (fd, i) ∷ after)
      → ioctl fd ≡ some (suc n)
      → read fd ≡ some (file_req_packet env cid name)
      → (disk fd).file name ≡ some content
      → content ≢ []
      → length content < 2 ^ 31
      → length fresh ≡ length content
      → (packets : List Bytes) × (front back : Answers) × Returns
          (handle_client_fds server pool answers)
          λ r.
            (r.1 ≡ answers ++ (front ++ (fd, packets) ∷ back))
            × (receive fresh (length content) [] memory (reads_of packets) ≡ ok (stores content))
  handle_client_fds-sends env cid name content fresh memory pool answers before after fd i n is text
        short inside count split all waits asks there some_bytes small allocated =
      let d = disks fd in
      let (packets, run, brings) =
        answer_peer-receive env is (disk fd) id cid fuel name text short content fresh memory there
          d.readable some_bytes allocated (d.bounded name content there) small in
      let answered : answer_peer fuel (disk fd) id (read fd) ≡ ok packets =
        ap (answer_peer fuel (disk fd) id) asks ∙ run in
      let (front, back, (r, runs, has)) =
        serve_all-sends before after fd i pool answers n packets all waits answered in
      (
        packets,
        front,
        back,
        (
          r,
          handle_client_fds-serve_all server pool answers inside count
              ∙ ap (λ clients. serve_all server clients pool answers) split
              ∙ runs,
          (has, brings),
        ),
      )
