-- ===== src/Web/Threads/Served.antt =====
-- The thread pool goes on: the first task in the queue can be executed by the thread that its
-- client was assigned to.
use net_prog.Prelude.{ℕ, ◌+◌, ◌<◌, ◌≡◌, refl, sym, some, [], ◌∷◌, ◌++◌, get_elem?, set, length}
use net_prog.Run.{ok}
use net_prog.Web.Semaphore.{b_sem_wait}
use net_prog.Web.TaskQueue.{Ptr, TaskQueue, dequeue_task}
use net_prog.Web.TaskQueue.Chain.{Job, task, Items}
use net_prog.Web.TaskQueue.Fifo.{IsQueue, dequeue_task-IsQueue}
use net_prog.Web.Semaphore.Wakes.{posted, posted_self, signal-posted}
use net_prog.Web.Threads.Tally.{get_elem?-set_self}
use net_prog.Web.Threads.Store.{IsQueue-free}
use net_prog.Web.Threads.Taking.{execute-kept}
use net_prog.Web.Threads.{
  waiting, woken, counted, holding, executed, System, wake, begin, take_task, run, notify, Steps,
  here, then, free,
}

b_sem_wait-posted : (id : ℕ) → id < 10 → b_sem_wait id (posted id) ≡ some (set (posted id) id 0)
unfolding b_sem_wait
b_sem_wait-posted id small = rw (posted_self id small) refl

module _ (s : System) (x : Ptr × Job) (xs : Items) (queued : IsQueue s.heap s.queue (x ∷ xs))
    (active : s.num_active ≡ length s.threads) (small : x.1.1.assigned_thr_id < 10)
    (idle : get_elem? s.threads x.1.1.assigned_thr_id ≡ some waiting) where
  abbrev id : ℕ
  id = x.1.1.assigned_thr_id

  abbrev s₁ : System
  s₁ = record s { flags = posted id }

  abbrev s₂ : System
  s₂ = record s₁ { flags = set (posted id) id 0; threads = set s.threads id woken }

  abbrev s₃ : System
  s₃ = record s₂ { num_working = s.num_working + 1; threads = set s₂.threads id counted }

  at₂ : get_elem? s₂.threads id ≡ some woken
  at₂ = get_elem?-set_self s.threads id waiting woken idle

  at₃ : get_elem? s₃.threads id ≡ some counted
  at₃ = get_elem?-set_self s₂.threads id woken counted at₂

  steps₃ : Steps s s₃
  steps₃ =
      then
        (then
          (then here
            (notify (posted id) active (signal-posted s.heap s.queue x xs queued small s.flags)))
          (wake id (set (posted id) id 0) idle (b_sem_wait-posted id small)))
        (begin id at₂)

  -- The state after the head of the queue has been taken and executed.
  abbrev served : TaskQueue → System
  served q = record s₃ {
    heap = free x.0 s.heap;
    queue = q;
    threads = set (set s₃.threads id (holding x.0 x.1)) id executed;
    taken = s.taken ++ x.1 ∷ [];
    log = s.log ++ x.1 ∷ [];
  }

  served-Steps : (q : TaskQueue) → dequeue_task s.queue s.heap ≡ ok (x.0, q) → Steps s (served q)
  served-Steps q got =
      let (next, e, ne, at_head, fresh, rest) = queued.chain in
      let there : s.heap x.0 ≡ some (task next x.1) = at_head in
      then (then steps₃ (take_task id x.0 q (task next x.1) at₃ got ne there)) (
        run id x.0 x.1 x.1 (free x.0 s.heap)
          (get_elem?-set_self s₃.threads id counted (holding x.0 x.1) at₃)
          (execute-kept x.0 next x.1 s.heap there))

  -- In a state with all threads started and a task at the head of the queue that is assigned to
  -- one of the ten threads, which waits, there are steps of the pool after which the job of this
  -- task has been executed and the queue stands for the other tasks.
  pub head-served :
      (t : System) × Steps s t × (t.log ≡ s.log ++ x.1 ∷ []) × IsQueue t.heap t.queue xs
  head-served =
      let ((p, q), runs, (first, rest)) = dequeue_task-IsQueue s.heap s.queue x xs queued in
      let (next, e, ne, at_head, fresh, chain) = queued.chain in
      (
        served q,
        served-Steps q (rw (sym first) runs),
        refl,
        IsQueue-free s.heap q x.0 xs fresh rest,
      )
