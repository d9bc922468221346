-- ===== src/Web/Threads/Taking.antt =====
-- What a thread of the pool takes from the queue.
use net_prog.Prelude.{
  ◌<◌, ◌≡◌, ◌≢◌, refl, sym, ap, ◌∙◌, inl, inr, none, some, [], ◌∷◌, ◌++◌, ==_iff, ◌⊎◌, false, ◌≢◌,
}
use net_prog.Run.{ok, ok_same}
use net_prog.Web.TaskQueue.{Ptr, null, Heap, TaskQueue, dequeue_task}
use net_prog.Web.TaskQueue.Chain.{Job, task, Items, has}
use net_prog.Web.TaskQueue.Fifo.{IsQueue, dequeue_task-IsQueue}
use net_prog.Web.Threads.{execute, free}
use net_prog.Web.Threads.Invariant.{jobs, Assigned}

pub some_same : {V : Type 0} {v w : V} → some v ≡ some w → v ≡ w
some_same e = cc

pub none-some : {V : Type 0} {v : V} → none ≢ some v
none-some e = cc

-- What `dequeueTask` returns: NULL from an empty queue, or the first task.
abbrev pub Dequeued : Heap → TaskQueue → Items → Ptr → TaskQueue → Type 0
Dequeued h q items p r =
    ((items ≡ []) × (p ≡ null) × (r ≡ q))
    ⊎ ((j : Job) × (xs : Items) × (next : Ptr) × (items ≡ (p, j) ∷ xs)
        × (p ≢ null)
        × (h p ≡ some (task next j))
        × (has p xs ≡ false)
        × IsQueue h r xs)

dequeue_task-empty :
    (h : Heap) (q r : TaskQueue) (p : Ptr)
    → IsQueue h q []
    → dequeue_task q h ≡ ok (p, r)
    → (p ≡ null) × (r ≡ q)
unfolding dequeue_task
dequeue_task-empty h q r p is got =
    let same : (q.head, q) ≡ (p, r) = ok_same (rw ((==_iff q.len 0).1 is.counted) at got) in
    (sym (ap (λ pair. pair.0) same) ∙ is.chain, sym (ap (λ pair. pair.1) same))

pub dequeued :
    (h : Heap) (q r : TaskQueue) (items : Items) (p : Ptr)
    → IsQueue h q items
    → dequeue_task q h ≡ ok (p, r)
    → Dequeued h q items p r
dequeued h q r [] p is got = let (e, f) = dequeue_task-empty h q r p is got in inl (refl, e, f)
dequeued h q r ((x, j) ∷ xs) p is got =
    let (v, runs, (first, rest)) = dequeue_task-IsQueue h q (x, j) xs is in
    let same : v ≡ (p, r) = ok_same (sym runs ∙ got) in
    let (next, e, ne, here, fresh, chain) = is.chain in
    let at_p : x ≡ p = sym first ∙ ap (λ pair. pair.0) same in
    inr (
      j,
      xs,
      next,
      ap (λ a. (a, j) ∷ xs) at_p,
      rw (sym at_p) ne,
      rw (sym at_p) here,
      rw (sym at_p) fresh,
      rw (sym (ap (λ pair. pair.1) same)) rest,
    )

-- The task that a thread holds is executed with the job it had when it was taken.
pub execute-kept :
    (p next : Ptr) (j : Job) (h : Heap) → h p ≡ some (task next j) → execute p h ≡ ok (j, free p h)
unfolding execute
execute-kept p next j h here = rw (execute, here)

pub jobs-append : (xs : Items) (p : Ptr) (j : Job) → jobs (xs ++ (p, j) ∷ []) ≡ jobs xs ++ j ∷ []
jobs-append [] p j = refl
jobs-append ((r, l) ∷ xs) p j = ap (λ rest. l ∷ rest) (jobs-append xs p j)

pub Assigned-append :
    (xs : Items) (p : Ptr) (j : Job)
    → j.1.assigned_thr_id < 10
    → Assigned xs
    → Assigned (xs ++ (p, j) ∷ [])
Assigned-append [] p j lt all = (lt, tt)
Assigned-append ((r, l) ∷ xs) p j lt (here, all) = (here, Assigned-append xs p j lt all)
