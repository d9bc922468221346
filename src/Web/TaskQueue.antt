-- ===== src/Web/TaskQueue.antt =====
-- The task queue of the thread pool: p3/src/task_queue.c, over an explicit heap of tasks. Each
-- operation runs under the queue's mutex, so it is one step.
pub mod Chain
pub mod Fifo
use net_prog.Prelude.{
  ℕ, zero, suc, ◌+◌, ◌-◌, Bool, true, false, Option, none, some, ◌==◌, if◌then◌else◌,
}
use net_prog.Run.{Run, ok, fault, ◌>>=◌}

abbrev pub Ptr : Type 0
Ptr = ℕ

abbrev pub null : Ptr
null = 0

-- A `clientInfo`: the argument of a task.
pub record ClientInfo : Type 0 where
  pub client_sock : ℕ
  pub client_addr : ℕ
  pub assigned_thr_id : ℕ

-- A `task`. `prev` leads from the head of the queue towards its tail.
pub record Task : Type 0 where
  pub prev : Ptr
  pub function : ℕ
  pub arg : ClientInfo

abbrev pub Heap : Type 0
Heap = Ptr → Option Task

unfoldable pub write : Ptr → Task → Heap → Heap
write p t h a = if a == p then some t else h a

-- `p->prev = q`: a fault if `p` is no task.
unfoldable pub set_prev : Ptr → Ptr → Heap → Run Heap
set_prev p q h = elim (h p) [ none ↦ fault | some t ↦ ok (write p (record t { prev = q }) h) ]

pub record TaskQueue : Type 0 where
  pub len : ℕ
  pub head : Ptr
  pub tail : Ptr

unfoldable pub init_task_queue : TaskQueue
init_task_queue = record { len = 0; head = null; tail = null }

unfoldable pub enqueue_task : Ptr → TaskQueue → Heap → Run (TaskQueue × Heap)
enqueue_task new q h = do
  h₁ ← set_prev new null h
  if q.len == 0 then ok (record { len = q.len + 1; head = new; tail = new }, h₁) else (do
    h₂ ← set_prev q.tail new h₁
    ok (record { len = q.len + 1; head = q.head; tail = new }, h₂))

-- With one task or more the head is read, and is then a task.
unfoldable pub dequeue_task : TaskQueue → Heap → Run (Ptr × TaskQueue)
dequeue_task q h =
    if q.len == 0
    then ok (q.head, q)
    else if q.len == 1
    then ok (q.head, record { len = 0; head = null; tail = null })
    else elim (h q.head) [
      | none ↦ fault
      | some t ↦ ok (q.head, record { len = q.len - 1; head = t.prev; tail = q.tail })
    ]
