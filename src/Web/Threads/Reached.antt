-- ===== src/Web/Threads/Reached.antt =====
-- What holds of the thread pool holds in every state that it reaches.
use net_prog.Prelude.{
  ℕ, suc, ◌+◌, ◌-◌, ◌≡◌, ◌≢◌, refl, sym, inl, inr, some, [], get_elem?, arith, ◌==◌, replicate,
  zero, ◌≢◌, Bool-cases,
}
use net_prog.Prelude.Int.{pos}
use net_prog.Web.TaskQueue.{Ptr, Heap}
use net_prog.Web.TaskQueue.Chain.{Job, task}
use net_prog.Web.TaskQueue.Fifo.{init_task_queue-IsQueue}
use net_prog.Web.Threads.{
  starting, waiting, woken, counted, holding, idle_handed, executed, System, Step, start, wake,
  begin, take_task, take_none, run, skip, finish, submit, notify, Reach, begins, later,
  thread_pool_init,
}
use net_prog.Web.Threads.Tally.{tally, tally-get, tally-replicate}
use net_prog.Web.Threads.Invariant.{works, held, Inv}
use net_prog.Web.Threads.Taking.{some_same, none-some}
use net_prog.Web.Threads.Moves.{moved-Inv, take_task-Inv, run-Inv, take_none-Inv, submit-Inv}

Inv-step : (s t : System) → Inv s → Step s t → Inv t
Inv-step s t inv (start i here) =
    moved-Inv s inv i starting waiting here (λ w. refl) (λ p j e. cc) (s.num_active + 1)
      s.num_working s.flags refl
Inv-step s t inv (wake i flags here woke) =
    moved-Inv s inv i waiting woken here (λ w. refl) (λ p j e. cc) s.num_active s.num_working flags
      refl
Inv-step s t inv (begin i here) =
    moved-Inv s inv i woken counted here (λ w. refl) (λ p j e. cc) s.num_active (s.num_working + 1)
      s.flags (omega arith)
Inv-step s t inv (take_task i p q task here got nonnull there) =
    take_task-Inv s inv i p q task here got nonnull there
Inv-step s t inv (take_none i q here got) = take_none-Inv s inv i q here got
Inv-step s t inv (run i p j job heap here ran) = run-Inv s inv i p j job heap here ran
Inv-step s t inv (skip i here) =
    moved-Inv s inv i idle_handed executed here (λ w. refl) (λ p j e. cc) s.num_active s.num_working
      s.flags refl
Inv-step s t inv (finish i here) =
    let (rest, more) = tally-get works s.threads i executed here in
    moved-Inv s inv i executed waiting here (λ w. refl) (λ p j e. cc) s.num_active
      (s.num_working - 1) s.flags (omega (arith, more, inv.working))
Inv-step s t inv (submit new junk job q heap active lt nonnull vacant ran) =
    submit-Inv s new junk job q heap inv lt nonnull vacant ran
Inv-step s t inv (notify flags active posted) = record {
  items = inv.items;
  queued = inv.queued;
  assigned = inv.assigned;
  history = inv.history;
  holds = inv.holds;
  working = inv.working;
  weights = inv.weights;
}

get_elem?-starting :
    (n i : ℕ) (p : Ptr) (j : Job) → get_elem? (replicate n starting) i ≢ some (holding p j)
get_elem?-starting zero i p j e = cc
get_elem?-starting (suc n) zero p j e = cc
get_elem?-starting (suc n) (suc i) p j e = get_elem?-starting n i p j e

thread_pool_init-Inv :
    (n : ℕ) (heap : Heap) (s : System) → thread_pool_init (pos n) heap ≡ some s → Inv s
unfolding thread_pool_init tally
thread_pool_init-Inv n heap s made = elim (Bool-cases (n == 0)) [
  | inl none_asked ↦ absurd (none-some (rw none_asked at made))
  | inr asked ↦ rw (sym (some_same (rw asked at made))) (record {
    items = [];
    queued = init_task_queue-IsQueue heap;
    assigned = tt;
    history = refl;
    holds = record {
      kept = λ i p j at_i. absurd (get_elem?-starting n i p j at_i);
      apart = λ i k p j l at_i at_k. absurd (get_elem?-starting n i p j at_i);
    };
    working = sym (tally-replicate works n starting refl);
    weights = λ w. omega (arith, tally-replicate (held w) n starting refl);
  })
]

pub Reach-Inv : {n : ℕ} {heap : Heap} {s : System} → Reach n heap s → Inv s
Reach-Inv {n} {heap} {s} (begins le made) = thread_pool_init-Inv n heap s made
Reach-Inv {n} {heap} {s} (later {s = r} reach step) = Inv-step r s (Reach-Inv reach) step
