-- ===== src/Web/Threads.antt =====
-- The thread pool: p3/src/thr_pool.c. The threads take their turns in any order; what stands
-- between two locks of a mutex is one step.
pub mod Tally
pub mod Invariant
pub mod Store
pub mod Taking
pub mod Moves
pub mod Reached
pub mod Safe
pub mod Served
use net_prog.Prelude.{
  ℕ, ◌+◌, ◌-◌, ◌<◌, ◌≤◌, ◌≡◌, ◌≢◌, Option, none, some, List, [], ◌∷◌, ◌++◌, ◌==◌, ◌&&◌,
  if◌then◌else◌, length, get_elem?, set, replicate,
}
use net_prog.Prelude.Int.{ℤ, pos, negsuc}
use net_prog.Run.{Run, ok, fault}
use net_prog.Web.Semaphore.{Flags, thr_num, b_sem_init, b_sem_wait, signal}
use net_prog.Web.TaskQueue.{
  Ptr, null, ClientInfo, Task, Heap, write, TaskQueue, init_task_queue, enqueue_task, dequeue_task,
}
use net_prog.Web.TaskQueue.Chain.{Job}

-- Where a thread stands in `threadFunc`. With the address of a task that it has taken goes the job
-- that the task held then.
pub data Pc : Type 0 where
  starting : Pc
  -- in `bSemWait`
  waiting : Pc
  woken : Pc
  -- counted in `numWorkingThreads`
  counted : Pc
  holding : Ptr → Job → Pc
  -- the queue was empty
  idle_handed : Pc
  executed : Pc

-- A `threadPool`, its threads, the heap of tasks, and three histories: the jobs that were
-- submitted, those that were taken from the queue, and those that were executed, in order.
pub record System : Type 0 where
  pub heap : Heap
  pub queue : TaskQueue
  pub flags : Flags
  pub num_active : ℕ
  pub num_working : ℕ
  pub threads : List Pc
  pub submitted : List Job
  pub taken : List Job
  pub log : List Job

unfoldable pub free : Ptr → Heap → Heap
free p h a = if a == p then none else h a

-- `threadPoolEnqueue`. What the new task holds at first in `prev` is left open.
unfoldable pub thread_pool_enqueue : Ptr → Ptr → Job → TaskQueue → Heap → Run (TaskQueue × Heap)
thread_pool_enqueue new junk job q h =
    enqueue_task new q (write new (record { prev = junk; function = job.0; arg = job.1 }) h)

-- A task that was taken is executed, and freed with its argument.
unfoldable pub execute : Ptr → Heap → Run (Job × Heap)
execute p h = elim (h p) [ none ↦ fault | some t ↦ ok ((t.function, t.arg), free p h) ]

-- `none` is the exit on a number that is not positive.
unfoldable pub thread_pool_init : ℤ → Heap → Option System
thread_pool_init (negsuc n) heap = none
thread_pool_init (pos n) heap =
    if n == 0
    then none
    else some (record {
      heap = heap;
      queue = init_task_queue;
      flags = b_sem_init (pos 0);
      num_active = 0;
      num_working = 0;
      threads = replicate n starting;
      submitted = [];
      taken = [];
      log = [];
    })

-- `threadPoolWait` returns when this holds; `none` while it waits.
unfoldable pub thread_pool_wait : System → Option System
thread_pool_wait s = if s.queue.len == 0 && s.num_working == 0 then some s else none

-- Nothing is submitted or announced before all threads have started.
pub data Step (s : System) : System → Type 0 where
  start :
      (i : ℕ)
      → get_elem? s.threads i ≡ some starting
      → Step s (record s { num_active = s.num_active + 1; threads = set s.threads i waiting })
  wake :
      (i : ℕ) (flags : Flags)
      → get_elem? s.threads i ≡ some waiting
      → b_sem_wait i s.flags ≡ some flags
      → Step s (record s { flags = flags; threads = set s.threads i woken })
  begin :
      (i : ℕ)
      → get_elem? s.threads i ≡ some woken
      → Step s (record s { num_working = s.num_working + 1; threads = set s.threads i counted })
  take_task :
      (i : ℕ) (p : Ptr) (q : TaskQueue) (t : Task)
      → get_elem? s.threads i ≡ some counted
      → dequeue_task s.queue s.heap ≡ ok (p, q)
      → p ≢ null
      → s.heap p ≡ some t
      → Step s (record s {
        queue = q;
        threads = set s.threads i (holding p (t.function, t.arg));
        taken = s.taken ++ (t.function, t.arg) ∷ [];
      })
  take_none :
      (i : ℕ) (q : TaskQueue)
      → get_elem? s.threads i ≡ some counted
      → dequeue_task s.queue s.heap ≡ ok (null, q)
      → Step s (record s { queue = q; threads = set s.threads i idle_handed })
  run :
      (i : ℕ) (p : Ptr) (j job : Job) (heap : Heap)
      → get_elem? s.threads i ≡ some (holding p j)
      → execute p s.heap ≡ ok (job, heap)
      → Step s
          (record s { heap = heap; threads = set s.threads i executed; log = s.log ++ job ∷ [] })
  skip :
      (i : ℕ)
      → get_elem? s.threads i ≡ some idle_handed
      → Step s (record s { threads = set s.threads i executed })
  finish :
      (i : ℕ)
      → get_elem? s.threads i ≡ some executed
      → Step s (record s { num_working = s.num_working - 1; threads = set s.threads i waiting })
  submit :
      (new junk : Ptr) (job : Job) (q : TaskQueue) (heap : Heap)
      → s.num_active ≡ length s.threads
      → job.1.assigned_thr_id < 10
      → new ≢ null
      → s.heap new ≡ none
      → thread_pool_enqueue new junk job s.queue s.heap ≡ ok (q, heap)
      → Step s (record s { heap = heap; queue = q; submitted = s.submitted ++ job ∷ [] })
  notify :
      (flags : Flags)
      → s.num_active ≡ length s.threads
      → signal s.queue s.heap s.flags ≡ ok flags
      → Step s (record s { flags = flags })

-- The states of a pool of `n` threads, in a heap that was there before. Each thread has a flag.
pub data Reach (n : ℕ) (heap : Heap) : System → Type 0 where
  begins : {s : System} → n ≤ thr_num → thread_pool_init (pos n) heap ≡ some s → Reach n heap s
  later : {s t : System} → Reach n heap s → Step s t → Reach n heap t

-- The states that follow a state, after any number of steps.
pub data Steps (s : System) : System → Type 0 where
  here : Steps s s
  then : {t u : System} → Steps s t → Step t u → Steps s u
