-- ===== src/Web/Semaphore/Wakes.antt =====
-- Which thread a task in the queue wakes, and which task that thread then takes.
use net_prog.Prelude.{
  ℕ, ◌<◌, ◌≡◌, ◌≢◌, ◌↔◌, refl, ap, sym, ◌∙◌, none, some, ◌∷◌, arith, ne→==, lt→ltb, get_or, set,
  replicate, length-replicate, get_or-set_self, get_or-set_ne, get_or-replicate,
}
use native.Mathlib.Decide.{ℕ_discrete}
use net_prog.Run.{Run, ok, out_of_fuel, ◌>>=◌, Returns}
use net_prog.Web.Semaphore.{Flags, thr_num, b_sem_post, b_sem_wait, signal}
use net_prog.Web.TaskQueue.{Ptr, Heap, TaskQueue, dequeue_task}
use net_prog.Web.TaskQueue.Chain.{Job, task, Items, Chain}
use net_prog.Web.TaskQueue.Fifo.{IsQueue, dequeue_task-IsQueue}

-- The flags that a post leaves.
abbrev pub posted : ℕ → Flags
posted id = set (replicate thr_num 0) id 1

pub posted_self : (id : ℕ) → id < 10 → get_or (posted id) id 0 ≡ 1
posted_self id lt =
    get_or-set_self (replicate thr_num 0) id 1 0 (omega (arith, length-replicate {A = ℕ} thr_num 0))

posted_other : (id t : ℕ) → t ≢ id → get_or (posted id) t 0 ≡ 0
posted_other id t ne =
    get_or-set_ne (replicate thr_num 0) id t 1 0 (λ e. ne (sym e))
    ∙ get_or-replicate {A = ℕ} thr_num t 0

-- The first task of a queue is in the heap, with its job.
pub head-Chain :
    (h : Heap) (p : Ptr) (x : Ptr × Job) (xs : Items)
    → Chain h p (x ∷ xs)
    → (next : Ptr) × (h p ≡ some (task next x.1))
head-Chain h p (x, j) xs (next, e, ne, here, fresh, rest) = (next, ap h e ∙ here)

module _ (h : Heap) (q : TaskQueue) (x : Ptr × Job) (xs : Items) (is : IsQueue h q (x ∷ xs))
    (small : x.1.1.assigned_thr_id < 10) where
  abbrev assigned : ℕ
  assigned = x.1.1.assigned_thr_id

  pub signal-posted : (val : Flags) → signal q h val ≡ ok (posted assigned)
  unfolding signal b_sem_post
  signal-posted val =
      let (next, here) = head-Chain h q.head x xs is.chain in
      rw (ne→== q.len 0 (omega (arith, is.counted)), here, lt→ltb assigned 10 small)

  -- If the first task of a queue is assigned to a thread of the pool, then after a round of the
  -- signalling thread exactly that thread's wait is over.
  pub signal-b_sem_wait :
      (val : Flags) (t : ℕ)
      → Returns (signal q h val) λ after. (b_sem_wait t after ≢ none) ↔ (t ≡ assigned)
  unfolding b_sem_wait
  signal-b_sem_wait val t = elim (ℕ_discrete t assigned) [
    | yes same ↦
        let flag : get_or (posted assigned) t 0 ≡ 1 =
          ap (λ k. get_or (posted assigned) k 0) same ∙ posted_self assigned small in
        (posted assigned, signal-posted val, rw flag ((λ h. same), (λ e n. cc)))
    | no other ↦ (
      posted assigned,
      signal-posted val,
      rw (posted_other assigned t other) ((λ h. absurd (h refl)), (λ e. absurd (other e))),
    )
  ]

-- A thread whose flag is set goes on; another one would wait.
abbrev pub awake : ℕ → Flags → Run Flags
awake t val = elim (b_sem_wait t val) [ none ↦ out_of_fuel | some after ↦ ok after ]

-- The signalling thread runs again before a woken thread has taken its task from the queue; then
-- that thread goes round its loop once more.
abbrev pub two_rounds : Heap → TaskQueue → Flags → ℕ → Run (Ptr × Ptr)
two_rounds h q val t = do
  v₁ ← signal q h val
  v₂ ← awake t v₁
  v₃ ← signal q h v₂
  (first, q₁) ← dequeue_task q h
  v₄ ← awake t v₃
  (second, q₂) ← dequeue_task q₁ h
  ok (first, second)

awake-posted : (id : ℕ) → id < 10 → (after : Flags) × (awake id (posted id) ≡ ok after)
unfolding b_sem_wait
awake-posted id small = (set (posted id) id 0, rw (awake, posted_self id small))

-- If the signalling thread runs once more before the woken thread has taken the first of two or
-- more tasks, that thread also takes the second one, whatever thread it is assigned to.
pub two_rounds-other :
    (h : Heap) (q : TaskQueue) (x y : Ptr × Job) (xs : Items) (val : Flags)
    → IsQueue h q (x ∷ y ∷ xs)
    → x.1.1.assigned_thr_id < 10
    → two_rounds h q val x.1.1.assigned_thr_id ≡ ok (x.0, y.0)
two_rounds-other h q x y xs val is small =
    let t = x.1.1.assigned_thr_id in
    let (v, go) = awake-posted t small in
    let ((p, q₁), run, (first, is₁)) = dequeue_task-IsQueue h q x (y ∷ xs) is in
    let ((r, q₂), run₁, (second, is₂)) = dequeue_task-IsQueue h q₁ y xs is₁ in
    rw (
      signal-posted h q x (y ∷ xs) is small val,
      go,
      signal-posted h q x (y ∷ xs) is small v,
      run,
      go,
      run₁,
      first,
      second,
    )
