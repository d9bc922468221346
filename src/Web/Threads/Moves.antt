-- ===== src/Web/Threads/Moves.antt =====
-- The steps of the thread pool, one by one, keep what holds of it.
use net_prog.Prelude.{
  ℕ, ◌+◌, ◌<◌, ◌≡◌, ◌≢◌, refl, sym, ap, ◌∙◌, inl, inr, none, some, List, [], ◌∷◌, ◌++◌,
  append_assoc, get_elem?, set, arith, false, ◌≢◌, append_assoc,
}
use net_prog.Run.{ok, ok_same}
use net_prog.Web.TaskQueue.{Ptr, null, Task, Heap, TaskQueue, dequeue_task}
use net_prog.Web.TaskQueue.Chain.{Job, task, Items, has}
use net_prog.Web.TaskQueue.Fifo.{IsQueue}
use net_prog.Web.Threads.{
  Pc, counted, holding, idle_handed, executed, System, execute, free, thread_pool_enqueue,
}
use net_prog.Web.Threads.Tally.{tally, tally-snoc, tally-set}
use net_prog.Web.Threads.Invariant.{works, held, jobs, Holds, Inv, Holds-set, Holds-take}
use net_prog.Web.Threads.Store.{
  IsQueue-free, Holds-free, Holds-enqueue, thread_pool_enqueue-IsQueue,
}
use net_prog.Web.Threads.Taking.{some_same, dequeued, execute-kept, jobs-append, Assigned-append}

-- A thread that holds no task before or after moves, and the flags change at most.
module _ (s : System) (inv : Inv s) (i : ℕ) (x y : Pc) (here : get_elem? s.threads i ≡ some x)
    (light : (w : Job → ℕ) → held w x ≡ held w y)
    (free : (p : Ptr) (j : Job) → y ≢ holding p j) where
  moved-weights :
      (w : Job → ℕ) → tally w s.taken ≡ tally w s.log + tally (held w) (set s.threads i y)
  moved-weights w = omega (arith, tally-set (held w) s.threads i x y here, light w, inv.weights w)

  moved-Holds : Holds s.heap inv.items (set s.threads i y)
  moved-Holds = Holds-set s.heap inv.items s.threads i x y here free inv.holds

  pub moved-Inv :
      (active working : ℕ) (flags : List ℕ)
      → working + works x ≡ s.num_working + works y
      → Inv (record s {
        flags = flags;
        num_active = active;
        num_working = working;
        threads = set s.threads i y;
      })
  moved-Inv active working flags even = record {
    items = inv.items;
    queued = inv.queued;
    assigned = inv.assigned;
    history = inv.history;
    holds = moved-Holds;
    working = omega (arith, tally-set works s.threads i x y here, inv.working, even);
    weights = moved-weights;
  }

module _ (s : System) (inv : Inv s) (i : ℕ) where
  pub take_task-Inv :
      (p : Ptr) (q : TaskQueue) (t : Task)
      → get_elem? s.threads i ≡ some counted
      → dequeue_task s.queue s.heap ≡ ok (p, q)
      → p ≢ null
      → s.heap p ≡ some t
      → Inv (record s {
        queue = q;
        threads = set s.threads i (holding p (t.function, t.arg));
        taken = s.taken ++ (t.function, t.arg) ∷ [];
      })
  take_task-Inv p q t here got nonnull there =
      elim (dequeued s.heap s.queue q inv.items p inv.queued got) [
        | inl (e, is_null, same) ↦ absurd (nonnull is_null)
        | inr (j, xs, next, e, ne, at_p, fresh, rest) ↦
            let found : t ≡ task next j = some_same (sym there ∙ at_p) in
            rw found (took j xs next e at_p fresh rest)
      ]
    where
      took :
          (j : Job) (xs : Items) (next : Ptr)
          → inv.items ≡ (p, j) ∷ xs
          → s.heap p ≡ some (task next j)
          → has p xs ≡ false
          → IsQueue s.heap q xs
          → Inv (record s {
            queue = q;
            threads = set s.threads i (holding p j);
            taken = s.taken ++ j ∷ [];
          })
      took j xs next e at_p fresh rest = record {
        items = xs;
        queued = rest;
        assigned = (rw e at inv.assigned).1;
        history =
            inv.history
            ∙ ap (λ items. s.taken ++ jobs items) e
            ∙ sym (append_assoc s.taken (j ∷ []) (jobs xs));
        holds =
            Holds-take s.heap xs s.threads i counted p next j here at_p fresh (rw e at inv.holds);
        working =
            omega (arith, tally-set works s.threads i counted (holding p j) here, inv.working);
        weights = λ w. omega (
          arith,
          tally-set (held w) s.threads i counted (holding p j) here,
          inv.weights w,
          tally-snoc w s.taken j,
        );
      }

  pub run-Inv :
      (p : Ptr) (j job : Job) (heap : Heap)
      → get_elem? s.threads i ≡ some (holding p j)
      → execute p s.heap ≡ ok (job, heap)
      → Inv (record s { heap = heap; threads = set s.threads i executed; log = s.log ++ job ∷ [] })
  run-Inv p j job heap here ran =
      let kept = inv.holds.kept i p j here in
      let same : (j, free p s.heap) ≡ (job, heap) =
        ok_same (sym (execute-kept p kept.next j s.heap kept.here) ∙ ran) in
      rw (sym (ap (λ pair. pair.0) same), sym (ap (λ pair. pair.1) same))
        (record {
          items = inv.items;
          queued = IsQueue-free s.heap s.queue p inv.items kept.out inv.queued;
          assigned = inv.assigned;
          history = inv.history;
          holds = Holds-free s.heap inv.items s.threads i p j here inv.holds;
          working =
              omega (arith, tally-set works s.threads i (holding p j) executed here, inv.working);
          weights = λ w. omega (
            arith,
            tally-set (held w) s.threads i (holding p j) executed here,
            inv.weights w,
            tally-snoc w s.log j,
          );
        })

  pub take_none-Inv :
      (q : TaskQueue)
      → get_elem? s.threads i ≡ some counted
      → dequeue_task s.queue s.heap ≡ ok (null, q)
      → Inv (record s { queue = q; threads = set s.threads i idle_handed })
  take_none-Inv q here got = elim (dequeued s.heap s.queue q inv.items null inv.queued got) [
    | inl (e, is_null, same) ↦ rw same (
        moved-Inv s inv i counted idle_handed here (λ w. refl) (λ p j e. cc) s.num_active
          s.num_working s.flags refl)
    | inr (j, xs, next, e, ne, at_p, fresh, rest) ↦ absurd (ne refl)
  ]

pub submit-Inv :
    (s : System) (new junk : Ptr) (job : Job) (q : TaskQueue) (heap : Heap)
    → Inv s
    → job.1.assigned_thr_id < 10
    → new ≢ null
    → s.heap new ≡ none
    → thread_pool_enqueue new junk job s.queue s.heap ≡ ok (q, heap)
    → Inv (record s { heap = heap; queue = q; submitted = s.submitted ++ job ∷ [] })
submit-Inv s new junk job q heap inv lt nonnull vacant ran =
    let (r, runs, (queued, outside)) =
      thread_pool_enqueue-IsQueue s.heap s.queue inv.items new junk job inv.queued nonnull vacant in
    let same : r ≡ (q, heap) = ok_same (sym runs ∙ ran) in
    rw (sym (ap (λ pair. pair.0) same), sym (ap (λ pair. pair.1) same))
      (record {
        items = inv.items ++ (new, job) ∷ [];
        queued = queued;
        assigned = Assigned-append inv.items new job lt inv.assigned;
        history =
            ap (λ before. before ++ job ∷ []) inv.history
            ∙ append_assoc s.taken (jobs inv.items) (job ∷ [])
            ∙ ap (λ after. s.taken ++ after) (sym (jobs-append inv.items new job));
        holds = Holds-enqueue s.heap r.1 inv.items s.threads new job vacant outside inv.holds;
        working = inv.working;
        weights = inv.weights;
      })
