-- ===== src/Web/Threads/Safe.antt =====
-- What the thread pool promises: no fault, the order of submission, and each job once.
use net_prog.Prelude.{
  ℕ, ◌≡◌, refl, sym, ap, ◌∙◌, length, append-nil, some, List, [], ◌∷◌, ◌++◌, get_elem?, arith,
  ==_iff, ◌⊎◌, inl, inr,
}
use net_prog.Run.{ok, Returns}
use net_prog.Web.Semaphore.{Flags, signal}
use net_prog.Web.Semaphore.Wakes.{signal-posted, posted}
use net_prog.Web.TaskQueue.{Ptr, null, Task, Heap, TaskQueue, dequeue_task}
use net_prog.Web.TaskQueue.Chain.{Job, task, Items}
use net_prog.Web.TaskQueue.Fifo.{IsQueue, dequeue_task-IsQueue}
use net_prog.Web.Threads.{
  Pc, starting, waiting, woken, counted, holding, idle_handed, executed, System, Reach, execute,
  free, thread_pool_wait,
}
use net_prog.Web.Threads.Tally.{tally}
use net_prog.Web.Threads.Invariant.{works, held, jobs, Assigned}
use net_prog.Web.Threads.Taking.{execute-kept}
use net_prog.Web.Threads.Reached.{Reach-Inv}

signal-ok :
    (h : Heap) (q : TaskQueue) (val : Flags) (xs : Items)
    → IsQueue h q xs
    → Assigned xs
    → (after : Flags) × (signal q h val ≡ ok after)
unfolding signal
signal-ok h q val [] is all = (val, rw ((==_iff q.len 0).1 is.counted) refl)
signal-ok h q val (x ∷ xs) is (small, all) =
    (posted x.1.1.assigned_thr_id, signal-posted h q x xs is small val)

-- `dequeueTask` returns NULL or the address of a task.
abbrev pub IsTaken : Heap → Ptr × TaskQueue → Type 0
IsTaken h r = (r.0 ≡ null) ⊎ ((t : Task) × (h r.0 ≡ some t))

dequeue_task-IsTaken :
    (h : Heap) (q : TaskQueue) (xs : Items)
    → IsQueue h q xs
    → Returns (dequeue_task q h) (IsTaken h)
unfolding dequeue_task
dequeue_task-IsTaken h q [] is =
    ((q.head, q), rw ((==_iff q.len 0).1 is.counted) refl, inl is.chain)
dequeue_task-IsTaken h q (x ∷ xs) is =
    let (r, runs, (first, rest)) = dequeue_task-IsQueue h q x xs is in
    let (next, e, ne, here, fresh, more) = is.chain in
    (r, runs, inr (task next x.1, ap h first ∙ here))

-- What the steps of the pool do in this state.
pub record Safe (s : System) : Type 0 where
  pub signals : (after : Flags) × (signal s.queue s.heap s.flags ≡ ok after)
  pub dequeues : Returns (dequeue_task s.queue s.heap) (IsTaken s.heap)
  pub executes :
      (i : ℕ) (p : Ptr) (j : Job)
      → get_elem? s.threads i ≡ some (holding p j)
      → execute p s.heap ≡ ok (j, free p s.heap)

-- In every state that a pool of at most ten threads reaches, whatever turns its threads take, the
-- round of the signalling thread does not fault, the dequeueing does not fault and returns NULL
-- or the address of a task that is there, and a task that a thread holds is executed with the job
-- that it had when it was taken.
pub Reach-Safe : {n : ℕ} {heap : Heap} {s : System} → Reach n heap s → Safe s
Reach-Safe {s} reach =
    let inv = Reach-Inv reach in
    record {
      signals = signal-ok s.heap s.queue s.flags inv.items inv.queued inv.assigned;
      dequeues = dequeue_task-IsTaken s.heap s.queue inv.items inv.queued;
      executes = λ i p j here.
          let kept = inv.holds.kept i p j here in execute-kept p kept.next j s.heap kept.here;
    }

-- In every state that a pool of at most ten threads reaches, whatever turns its threads take, the
-- queue stands for a sequence of tasks, and the jobs that were submitted are those that were
-- taken, in the order in which they were taken, followed by those that wait.
pub Reach-fifo :
    {n : ℕ} {heap : Heap} {s : System}
    → Reach n heap s
    → (xs : Items) × IsQueue s.heap s.queue xs × (s.submitted ≡ s.taken ++ jobs xs)
Reach-fifo reach = let inv = Reach-Inv reach in (inv.items, inv.queued, inv.history)

idle-held : (w : Job → ℕ) (threads : List Pc) → tally works threads ≡ 0 → tally (held w) threads ≡ 0
unfolding tally
idle-held w [] idle = refl
idle-held w (starting ∷ rest) idle = rw (idle-held w rest (omega (arith, idle)))
idle-held w (waiting ∷ rest) idle = rw (idle-held w rest (omega (arith, idle)))
idle-held w (woken ∷ rest) idle = rw (idle-held w rest (omega (arith, idle)))
idle-held w (counted ∷ rest) idle = absurd (omega (arith, idle))
idle-held w (holding p j ∷ rest) idle = absurd (omega (arith, idle))
idle-held w (idle_handed ∷ rest) idle = absurd (omega (arith, idle))
idle-held w (executed ∷ rest) idle = absurd (omega (arith, idle))

thread_pool_wait-idle :
    (s t : System) → thread_pool_wait s ≡ some t → (s.queue.len ≡ 0) × (s.num_working ≡ 0)
unfolding thread_pool_wait
thread_pool_wait-idle s t waited = ground arith

jobs-empty : (xs : Items) → length xs ≡ 0 → jobs xs ≡ []
jobs-empty [] e = refl
jobs-empty (x ∷ xs) e = absurd (omega (arith, e))

-- In every state that a pool of at most ten threads reaches, whatever turns its threads take, if
-- threadPoolWait returns then each job that was submitted has been executed exactly as often as
-- it was submitted, and no other job has: both sequences have the same sum under every weight of
-- jobs.
pub thread_pool_wait-executed :
    {n : ℕ} {heap : Heap} {s t : System}
    → Reach n heap s
    → thread_pool_wait s ≡ some t
    → (w : Job → ℕ) → tally w s.log ≡ tally w s.submitted
thread_pool_wait-executed {s} {t} reach waited w =
    let inv = Reach-Inv reach in
    let (empty, idle) = thread_pool_wait-idle s t waited in
    let none_waits : jobs inv.items ≡ [] = jobs-empty inv.items (sym inv.queued.counted ∙ empty) in
    let all_taken : s.submitted ≡ s.taken =
      inv.history ∙ ap (λ rest. s.taken ++ rest) none_waits ∙ append-nil s.taken in
    rw all_taken (omega (arith, inv.weights w, idle-held w s.threads (sym inv.working ∙ idle)))
