-- ===== src/Web/TaskQueue/Fifo.antt =====
-- The task queue is a first-in first-out queue of jobs.
use net_prog.Prelude.{
  ◌+◌, ◌-◌, ◌≡◌, ◌≢◌, refl, sym, ◌∙◌, false, some, [], ◌∷◌, ◌++◌, arith, ◌==◌, length,
  length-append, ne→==, ==_iff,
}
use net_prog.Run.{Returns}
use net_prog.Web.TaskQueue.{
  Ptr, null, Task, Heap, write, set_prev, TaskQueue, init_task_queue, enqueue_task, dequeue_task,
}
use net_prog.Web.TaskQueue.Chain.{
  Job, task, Items, has, Chain, last, last_job, Chain-write, Chain-last, Chain-append, has-last,
  has-≢, write_self, write_other,
}

-- The queue holds the tasks `xs`, in order.
pub record IsQueue (h : Heap) (q : TaskQueue) (xs : Items) : Type 0 where
  pub chain : Chain h q.head xs
  pub counted : q.len ≡ length xs
  pub ends : xs ≢ [] → q.tail ≡ last xs

pub init_task_queue-IsQueue : (h : Heap) → IsQueue h init_task_queue []
unfolding init_task_queue
init_task_queue-IsQueue h = record { chain = refl; counted = refl; ends = λ ne. absurd (ne refl) }

-- Only the addresses of `xs` and `new` are written.
abbrev pub SameOutside : Items → Ptr → Heap → Heap → Type 0
SameOutside xs new h g = (a : Ptr) → has a xs ≡ false → a ≢ new → g a ≡ h a

last-append : (xs : Items) (new : Ptr) (j : Job) → last (xs ++ (new, j) ∷ []) ≡ new
last-append [] new j = refl
last-append (x ∷ []) new j = refl
last-append (x ∷ y ∷ xs) new j = last-append (y ∷ xs) new j

-- Enqueueing a task that is allocated and not in the queue appends its job to the sequence that
-- the queue stands for, and writes no address but that of the task and of the tasks in the queue.
pub enqueue_task-IsQueue :
    (h : Heap) (q : TaskQueue) (xs : Items) (new : Ptr) (t : Task)
    → IsQueue h q xs
    → new ≢ null
    → has new xs ≡ false
    → h new ≡ some t
    → Returns
        (enqueue_task new q h)
        λ r. IsQueue r.1 r.0 (xs ++ (new, (t.function, t.arg)) ∷ []) × SameOutside xs new h r.1
unfolding enqueue_task set_prev
enqueue_task-IsQueue h q [] new t is nonnull out at_new = (
  (record { len = q.len + 1; head = new; tail = new }, write new (record t { prev = null }) h),
  rw (at_new, set_prev, (==_iff q.len 0).1 is.counted),
  (
    record {
      chain = (null, refl, nonnull, unfold write in ground arith, refl, refl);
      counted = omega (arith, is.counted);
      ends = λ ne. refl;
    },
    λ a o ne. unfold write in ground arith,
  ),
)
enqueue_task-IsQueue h q ((x, i) ∷ xs) new t is nonnull out at_new = (
  (record { len = q.len + 1; head = q.head; tail = new }, h₂),
  rw (at_new, set_prev, counted, ends, at_last₁, ends),
  (
    record {
      chain =
          Chain-append h₁ q.head new (x, i) xs (t.function, t.arg) chain₁ out nonnull
            (write_self h new (record t { prev = null }));
      counted = rw (is.counted, length-append ((x, i) ∷ xs) ((new, (t.function, t.arg)) ∷ []));
      ends = λ ne. sym (last-append ((x, i) ∷ xs) new (t.function, t.arg));
    },
    λ a o ne.
        write_other h₁ tail a (task new (last_job (x, i) xs))
          (has-≢ a tail ((x, i) ∷ xs) o (has-last (x, i) xs))
        ∙ write_other h new a (record t { prev = null }) ne,
  ),
)
  where
    tail : Ptr
    tail = last ((x, i) ∷ xs)

    h₁ : Heap
    h₁ = write new (record t { prev = null }) h

    h₂ : Heap
    h₂ = write tail (task new (last_job (x, i) xs)) h₁

    counted : (q.len == 0) ≡ false
    counted = ne→== q.len 0 (omega (arith, is.counted))

    ends : q.tail ≡ tail
    ends = is.ends λ e. cc

    chain₁ : Chain h₁ q.head ((x, i) ∷ xs)
    chain₁ = Chain-write h q.head new (record t { prev = null }) ((x, i) ∷ xs) out is.chain

    at_last₁ : h₁ tail ≡ some (task null (last_job (x, i) xs))
    at_last₁ = Chain-last h₁ q.head (x, i) xs chain₁

dequeue_task-Chain :
    (h : Heap) (q : TaskQueue) (x : Ptr × Job) (xs : Items)
    → Chain h q.head (x ∷ xs)
    → q.len ≡ length (x ∷ xs)
    → (x ∷ xs ≢ [] → q.tail ≡ last (x ∷ xs))
    → Returns (dequeue_task q h) λ r. (r.0 ≡ x.0) × IsQueue h r.1 xs
unfolding dequeue_task
dequeue_task-Chain h q (x, i) [] (next, e, ne, here, fresh, rest) counted ends = (
  (q.head, record { len = 0; head = null; tail = null }),
  rw (counted),
  (e, record { chain = refl; counted = refl; ends = λ n. absurd (n refl) }),
)
dequeue_task-Chain h q (x, i) (y ∷ ys) (next, e, ne, here, fresh, rest) counted ends = (
  (x, record { len = q.len - 1; head = next; tail = q.tail }),
  rw (more₀, more₁, e, here, e),
  (refl, record { chain = rest; counted = omega (arith, counted); ends = λ n. ends λ e. cc }),
)
  where
    more₀ : (q.len == 0) ≡ false
    more₀ = ne→== q.len 0 (omega (arith, counted))

    more₁ : (q.len == 1) ≡ false
    more₁ = ne→== q.len 1 (omega (arith, counted))

-- Dequeueing from a queue that stands for a sequence of at least one job returns the first task,
-- and the queue then stands for the rest of the sequence.
pub dequeue_task-IsQueue :
    (h : Heap) (q : TaskQueue) (x : Ptr × Job) (xs : Items)
    → IsQueue h q (x ∷ xs)
    → Returns (dequeue_task q h) λ r. (r.0 ≡ x.0) × IsQueue h r.1 xs
dequeue_task-IsQueue h q x xs is = dequeue_task-Chain h q x xs is.chain is.counted is.ends
