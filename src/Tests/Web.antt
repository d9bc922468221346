-- ===== src/Tests/Web.antt =====
-- One request of the web server, from a client that is ready to the end of the answer.
use net_prog.Prelude.{
  ℕ, ◌+◌, ◌≡◌, refl, true, Option, none, some, [], ◌∷◌, ◌++◌, ◌==◌, arith, length, map, ◌≤◌,
}
use net_prog.Prelude.Int.{pos}
use net_prog.Run.{ok, out_of_fuel, Returns}
use net_prog.Pool.{FdPool, rounds_of, handle_client_fds}
use net_prog.Pool.Scan.{ready_clients}
use net_prog.Wire.{Bytes}
use net_prog.Web.TaskQueue.{init_task_queue}
use net_prog.Web.TaskQueue.Fifo.{init_task_queue-IsQueue}
use net_prog.Web.Server.{WebServer, web_server, request_job}
use net_prog.Web.Server.Enqueued.{
  IsServing, AllSend, IsEnqueued, requests, ready_of, handle_client_fds-enqueues,
}
use net_prog.Web.Http.{http_header, end_msg, answered, http_response, starts_with, await_end}
use net_prog.Web.Http.Received.{contains, concat, http_response-await_end, await_end-waits}

abbrev whole_write : Bytes → Option ℕ
whole_write s = some (length s)

-- The file "hi", read by the client with its last byte in the read of the end.
http_response-await_end_example :
    (http_response whole_write (some (map some ((104 ∷ 105 ∷ []) ∷ [])))
      ≡ answered (concat ((http_header ++ 104 ∷ []) ∷ (105 ∷ [] ++ end_msg) ∷ [])))
    × (await_end ((http_header ++ 104 ∷ []) ∷ (105 ∷ [] ++ end_msg) ∷ []) ≡ ok [])
unfolding concat contains starts_with
http_response-await_end_example =
    http_response-await_end whole_write ((104 ∷ 105 ∷ []) ∷ []) ((http_header ++ 104 ∷ []) ∷ [])
      (105 ∷ []) (λ s. refl) refl (((tt, omega arith), refl), tt) (tt, omega arith)

-- The end message is split between two reads.
await_end-waits_example :
    await_end ((10 ∷ 72 ∷ 84 ∷ 84 ∷ 80 ∷ []) ∷ (47 ∷ 69 ∷ 78 ∷ 68 ∷ 10 ∷ []) ∷ []) ≡ out_of_fuel
unfolding contains starts_with
await_end-waits_example =
    await_end-waits ((10 ∷ 72 ∷ 84 ∷ 84 ∷ 80 ∷ []) ∷ (47 ∷ 69 ∷ 78 ∷ 68 ∷ 10 ∷ []) ∷ [])
      (((tt, omega arith), refl), (((tt, omega arith), refl), tt))

-- Descriptor 4 is ready in the first slot, and the next request is for the last thread.
abbrev web : WebServer
web = record { heap = λ a. none; queue = init_task_queue; supply = 16 ∷ []; assigned_thr_id = 9 }

abbrev busy : FdPool
busy = record {
  maxfd = 4;
  read_set = λ fd. true;
  clientfd = some 4 ∷ none ∷ [];
  client_addr = 77 ∷ [];
  maxi = pos 1;
  ready_set = λ fd. fd == 4;
  nready = 1;
}

one_ready : ready_of busy ≡ (4, 0) ∷ []
unfolding rounds_of ready_clients
one_ready = refl

web-IsServing : IsServing web [] (length (ready_of busy) + 0)
unfolding rounds_of ready_clients
web-IsServing = record {
  queued = init_task_queue-IsQueue web.heap;
  assigned = tt;
  small = omega arith;
  supplied = (omega arith, refl, tt, tt);
  enough = omega arith;
}

busy-inside : rounds_of busy.maxi ≤ length busy.clientfd
unfolding rounds_of
busy-inside = omega arith

busy-counts : busy.nready ≡ length (ready_of busy)
unfolding rounds_of ready_clients
busy-counts = refl

abbrev five_bytes : ℕ → Option ℕ
five_bytes fd = some 5

busy-sends : AllSend five_bytes (ready_of busy)
unfolding rounds_of ready_clients
busy-sends = ((4, refl), tt)

handle_client_fds-enqueues_example :
    Returns
      (handle_client_fds (web_server 99 five_bytes) busy web)
      λ r. IsEnqueued web r.1 [] (requests (ready_of busy) (77 ∷ []) 9) 0
handle_client_fds-enqueues_example =
    handle_client_fds-enqueues 99 five_bytes busy web [] 0 web-IsServing busy-inside busy-counts
      busy-sends

the_request : requests (ready_of busy) (77 ∷ []) 9 ≡ request_job 4 77 9 ∷ []
unfolding rounds_of ready_clients requests
the_request = refl
