-- ===== src/Web/Server.antt =====
-- The web server of p3: what p3/src/server_utilities.c (lines 86 to 133) does with a client that
-- is ready. A request becomes a task of the thread pool, and the threads are taken in turn.
pub mod Enqueued
use net_prog.Prelude.{ℕ, ◌+◌, ◌%◌, Option, List, [], ◌∷◌, ◌==◌, if◌then◌else◌, get_or}
use net_prog.Run.{Run, ok, ◌>>=◌}
use net_prog.Pool.{FdPool, Server}
use net_prog.Web.TaskQueue.{Ptr, null, ClientInfo, Heap, TaskQueue}
use net_prog.Web.TaskQueue.Chain.{Job}
use net_prog.Web.Threads.{thread_pool_enqueue}

-- The address of a function: the tasks of this server have one only.
abbrev pub http_response_ptr : ℕ
http_response_ptr = 1

abbrev pub thr_count : ℕ
thr_count = 10

-- What the loop changes beside the pool of descriptors: the queue of the thread pool, its tasks,
-- and the thread that the next request is assigned to. What the calls of `malloc` will return is
-- `supply`, in order, and then NULL.
pub record WebServer : Type 0 where
  pub heap : Heap
  pub queue : TaskQueue
  pub supply : List Ptr
  pub assigned_thr_id : ℕ

-- The task of a request.
unfoldable pub request_job : ℕ → ℕ → ℕ → Job
request_job client_sock client_addr assigned_thr_id = (
  http_response_ptr,
  record {
    client_sock = client_sock;
    client_addr = client_addr;
    assigned_thr_id = assigned_thr_id;
  },
)

-- Without memory for a task the request is dropped. What a new task holds is `junk`.
module _ (junk : Ptr) where
  unfoldable pub enqueue_at : Ptr → List Ptr → ℕ → ℕ → WebServer → Run WebServer
  enqueue_at new supply fd addr web =
      if new == null then ok (record web { supply = supply }) else (do
        (q, h) ←
            thread_pool_enqueue new junk (request_job fd addr web.assigned_thr_id) web.queue
              web.heap
        ok (record web { queue = q; heap = h; supply = supply }))

  unfoldable pub allocate : List Ptr → ℕ → ℕ → WebServer → Run WebServer
  allocate [] fd addr web = enqueue_at null [] fd addr web
  allocate (new ∷ supply) fd addr web = enqueue_at new supply fd addr web

  unfoldable pub handle_client_request : ℕ → ℕ → WebServer → Run WebServer
  handle_client_request fd addr web = allocate web.supply fd addr web

  -- The address of a client is copied from its slot.
  unfoldable pub enqueue_request : ℕ → ℕ → FdPool → WebServer → Run WebServer
  enqueue_request fd i pool web = do
    web' ← handle_client_request fd (get_or pool.client_addr i 0) web
    ok (record web' { assigned_thr_id = (web'.assigned_thr_id + 1) % thr_count })

  abbrev pub web_server : (ℕ → Option ℕ) → Server WebServer
  web_server ioctl = record {
    ioctl = ioctl;
    on_close = λ i web. web;
    on_request = λ fd i pool web. enqueue_request fd i pool web;
  }
