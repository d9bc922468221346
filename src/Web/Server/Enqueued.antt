-- ===== src/Web/Server/Enqueued.antt =====
-- The requests that are ready become tasks, in order, for the threads in turn.
use net_prog.Prelude.{
  ℕ, suc, ◌+◌, ◌-◌, ◌%◌, ◌<◌, ◌≤◌, ◌≡◌, ◌≢◌, refl, sym, ap, ◌∙◌, Option, none, some, List, [], ◌∷◌,
  ◌++◌, arith, ne→==, length, take, All, get_or, append_assoc, append-nil,
}
use net_prog.Run.{ok, ◌>>=◌, Returns}
use net_prog.Pool.{FdPool, serve, rounds_of, handle_client_fds}
use net_prog.Pool.Scan.{ready_clients, serve_all, handle_client_fds-serve_all}
use net_prog.Web.TaskQueue.{Ptr, null, Heap, TaskQueue}
use net_prog.Web.TaskQueue.Chain.{Job, Items}
use net_prog.Web.TaskQueue.Fifo.{IsQueue, SameOutside}
use net_prog.Web.Threads.Invariant.{jobs, Assigned}
use net_prog.Web.Threads.Taking.{jobs-append, Assigned-append}
use net_prog.Web.Threads.Store.{vacant-has, thread_pool_enqueue-IsQueue}
use net_prog.Web.Server.{
  WebServer, request_job, enqueue_at, allocate, handle_client_request, enqueue_request, web_server,
}

-- The jobs of some clients, the first of which is assigned to a given thread.
unfoldable pub requests : List (ℕ × ℕ) → List ℕ → ℕ → List Job
requests [] addrs id = []
requests ((fd, i) ∷ clients) addrs id =
    request_job fd (get_or addrs i 0) id ∷ requests clients addrs ((id + 1) % 10)

length-requests :
    (clients : List (ℕ × ℕ)) (addrs : List ℕ) (id : ℕ)
    → length (requests clients addrs id) ≡ length clients
unfolding requests
length-requests [] addrs id = refl
length-requests ((fd, i) ∷ clients) addrs id =
    ap suc (length-requests clients addrs ((id + 1) % 10))

-- All clients send data.
abbrev pub AllSend : (ℕ → Option ℕ) → List (ℕ × ℕ) → Type 0
AllSend ioctl clients = All (λ client. (n : ℕ) × (ioctl client.0 ≡ some (suc n))) clients

-- The addresses that `malloc` will return are free, and each of them is new.
abbrev pub Supplied : Heap → List Ptr → Type 0
Supplied h [] = Unit
Supplied h (a ∷ rest) = (a ≢ null) × (h a ≡ none) × All (λ b. b ≢ a) rest × Supplied h rest

-- A server whose queue stands for some tasks, with memory for `n` more.
pub record IsServing (web : WebServer) (items : Items) (n : ℕ) : Type 0 where
  pub queued : IsQueue web.heap web.queue items
  pub assigned : Assigned items
  pub small : web.assigned_thr_id < 10
  pub supplied : Supplied web.heap web.supply
  pub enough : n ≤ length web.supply

-- What some requests leave, with memory for `n` more: a queue of the tasks before and of their own.
pub record IsEnqueued (web after : WebServer) (items : Items) (new : List Job) (n : ℕ)
    : Type 0 where
  pub later : Items
  pub serving : IsServing after later n
  pub appended : jobs later ≡ jobs items ++ new
  pub next_thread : after.assigned_thr_id ≡ (web.assigned_thr_id + length new) % 10

-- Free addresses stay free when another one is used.
Supplied-outside :
    (h g : Heap) (q : TaskQueue) (items : Items) (new : Ptr) (rest : List Ptr)
    → IsQueue h q items
    → SameOutside items new h g
    → All (λ b. b ≢ new) rest
    → Supplied h rest
    → Supplied g rest
Supplied-outside h g q items new [] is same other supplied = tt
Supplied-outside h g q items new (a ∷ rest) is same (ne, other) (nonnull, free, apart, more) = (
  nonnull,
  same a (vacant-has h q items a is free) ne ∙ free,
  apart,
  Supplied-outside h g q items new rest is same other more,
)

-- The clients that are ready in the slots up to `maxi`, in order.
abbrev pub ready_of : FdPool → List (ℕ × ℕ)
ready_of pool = ready_clients pool.ready_set 0 (take (rounds_of pool.maxi) pool.clientfd)

-- The first request and the others.
both :
    (web web₁ after : WebServer) (items : Items) (clients : List (ℕ × ℕ)) (addrs : List ℕ)
    (job : Job) (k n : ℕ)
    → (first : IsEnqueued web web₁ items (job ∷ []) k)
    → IsEnqueued web₁ after first.later (requests clients addrs web₁.assigned_thr_id) n
    → IsEnqueued web after items (job ∷ requests clients addrs ((web.assigned_thr_id + 1) % 10)) n
both web web₁ after items clients addrs job k n first others =
    let next : web₁.assigned_thr_id ≡ (web.assigned_thr_id + 1) % 10 = first.next_thread in
    let new = requests clients addrs web₁.assigned_thr_id in
    record {
      later = others.later;
      serving = others.serving;
      appended =
          others.appended
          ∙ ap (λ before. before ++ new) first.appended
          ∙ append_assoc (jobs items) (job ∷ []) new
          ∙ ap (λ id. jobs items ++ job ∷ requests clients addrs id) next;
      next_thread = omega (
        arith,
        others.next_thread,
        next,
        length-requests clients addrs web₁.assigned_thr_id,
        length-requests clients addrs ((web.assigned_thr_id + 1) % 10),
      );
    }

module _ (junk : Ptr) (ioctl : ℕ → Option ℕ) where
  enqueue_at-enqueues :
      (new : Ptr) (rest : List Ptr) (fd addr : ℕ) (web : WebServer) (items : Items) (n : ℕ)
      → IsServing web items (suc n)
      → Supplied web.heap (new ∷ rest)
      → n ≤ length rest
      → Returns
          (do
            web' ← enqueue_at junk new rest fd addr web
            ok (record web' { assigned_thr_id = (web'.assigned_thr_id + 1) % 10 }))
          λ after. IsEnqueued web after items (request_job fd addr web.assigned_thr_id ∷ []) n
  unfolding enqueue_at request_job
  enqueue_at-enqueues new rest fd addr web items n is (nonnull, free, apart, more) enough =
      let job = request_job fd addr web.assigned_thr_id in
      let ((q, h), run, (queued, outside)) =
        thread_pool_enqueue-IsQueue web.heap web.queue items new junk job is.queued nonnull free in
      (
        record {
          heap = h;
          queue = q;
          supply = rest;
          assigned_thr_id = (web.assigned_thr_id + 1) % 10;
        },
        rw (ne→== new null nonnull, run),
        record {
          later = items ++ (new, job) ∷ [];
          serving = record {
            queued = queued;
            assigned = Assigned-append items new job is.small is.assigned;
            small = omega arith;
            supplied =
                Supplied-outside web.heap h web.queue items new rest is.queued outside apart more;
            enough = enough;
          };
          appended = jobs-append items new job;
          next_thread = refl;
        },
      )

  -- One request, by what `malloc` returns for it.
  enqueue_request-enqueues :
      (supply : List Ptr) (fd i : ℕ) (pool : FdPool) (web : WebServer) (items : Items) (n : ℕ)
      → web.supply ≡ supply
      → IsServing web items (suc n)
      → Returns (enqueue_request junk fd i pool web) λ after.
        IsEnqueued web after items
          (request_job fd (get_or pool.client_addr i 0) web.assigned_thr_id ∷ [])
          n
  unfolding enqueue_request handle_client_request allocate
  enqueue_request-enqueues [] fd i pool web items n e is =
      absurd (omega (arith, is.enough, ap length e))
  enqueue_request-enqueues (new ∷ rest) fd i pool web items n e is =
      rw (ap (λ supply. allocate junk supply fd (get_or pool.client_addr i 0) web) e) (
        enqueue_at-enqueues new rest fd (get_or pool.client_addr i 0) web items n is
          (rw e at is.supplied) (omega (arith, is.enough, ap length e)))

  serve_all-enqueues :
      (clients : List (ℕ × ℕ)) (pool : FdPool) (web : WebServer) (items : Items) (n : ℕ)
      → AllSend ioctl clients
      → IsServing web items (length clients + n)
      → Returns
          (serve_all (web_server junk ioctl) clients pool web)
          λ r. IsEnqueued web r.1 items (requests clients pool.client_addr web.assigned_thr_id) n
  unfolding serve_all serve requests
  serve_all-enqueues [] pool web items n sends is = (
    (pool, web),
    refl,
    record {
      later = items;
      serving = record {
        queued = is.queued;
        assigned = is.assigned;
        small = is.small;
        supplied = is.supplied;
        enough = omega (arith, is.enough);
      };
      appended = sym (append-nil (jobs items));
      next_thread = omega (arith, is.small);
    },
  )
  serve_all-enqueues ((fd, i) ∷ clients) pool web items n ((size, data_there), sends) is =
      let counted = record pool { nready = pool.nready - 1 } in
      let (web₁, run, first) =
        enqueue_request-enqueues web.supply fd i counted web items (length clients + n) refl
          (record {
            queued = is.queued;
            assigned = is.assigned;
            small = is.small;
            supplied = is.supplied;
            enough = omega (arith, is.enough);
          }) in
      let (r, runs, others) =
        serve_all-enqueues clients counted web₁ first.later n sends first.serving in
      (
        r,
        rw (data_there, run, serve_all) runs,
        both web web₁ r.1 items clients pool.client_addr
            (request_job fd (get_or pool.client_addr i 0) web.assigned_thr_id) (length clients + n)
            n first others,
      )

  -- In a web server whose queue stands for tasks with threads below 10, with the next thread
  -- below 10 and memory for each task, if nready is the number of ready clients in the slots up
  -- to maxi, maxi lies in the array and all these clients send data, then the loop over the
  -- descriptors returns and appends one job for each of them to the queue, in the order of their
  -- slots, with the client's descriptor and address, for the threads in turn modulo 10.
  pub handle_client_fds-enqueues :
      (pool : FdPool) (web : WebServer) (items : Items) (n : ℕ)
      → IsServing web items (length (ready_of pool) + n)
      → rounds_of pool.maxi ≤ length pool.clientfd
      → pool.nready ≡ length (ready_of pool)
      → AllSend ioctl (ready_of pool)
      → Returns (handle_client_fds (web_server junk ioctl) pool web) λ r.
        IsEnqueued web r.1 items (requests (ready_of pool) pool.client_addr web.assigned_thr_id) n
  handle_client_fds-enqueues pool web items n is inside count sends =
      rw (handle_client_fds-serve_all (web_server junk ioctl) pool web inside count)
        (serve_all-enqueues (ready_of pool) pool web items n sends is)
