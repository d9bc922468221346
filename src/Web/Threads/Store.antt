-- ===== src/Web/Threads/Store.antt =====
-- What the queue and the threads of the pool hold, when the heap changes.
use net_prog.Prelude.{
  ℕ, ◌≡◌, ◌≢◌, sym, ap, ◌∙◌, inl, inr, true, false, none, some, List, [], ◌∷◌, ◌++◌, get_elem?, set,
  arith, ◌==◌, ne→==, ==_iff, Bool-cases,
}
use net_prog.Run.{Returns}
use net_prog.Web.TaskQueue.{Ptr, null, Task, Heap, write, TaskQueue}
use net_prog.Web.TaskQueue.Chain.{
  Job, task, Items, has, Chain, has-append, Chain-write, write_self, write_other,
}
use net_prog.Web.TaskQueue.Fifo.{IsQueue, SameOutside, enqueue_task-IsQueue}
use net_prog.Web.Threads.{Pc, holding, executed, free, thread_pool_enqueue}
use net_prog.Web.Threads.Tally.{get_elem?-set-cases}
use net_prog.Web.Threads.Invariant.{Holds}

-- Each task of a chain is in the heap.
pub Chain-has :
    (h : Heap) (p a : Ptr) (xs : Items)
    → has a xs ≡ true
    → Chain h p xs
    → (t : Task) × (h a ≡ some t)
Chain-has h p a [] inside c = cc
Chain-has h p a ((x, j) ∷ xs) inside (next, e, ne, here, fresh, rest) = elim (Bool-cases (a == x)) [
  | inl same ↦ let at_x : a ≡ x = (==_iff a x).0 same in (task next j, ap h at_x ∙ here)
  | inr other ↦ Chain-has h next a xs (ground arith) rest
]

Chain-free :
    (h : Heap) (p a : Ptr) (xs : Items) → has a xs ≡ false → Chain h p xs → Chain (free a h) p xs
unfolding free
Chain-free h p a [] out c = c
Chain-free h p a ((x, j) ∷ xs) out (next, e, ne, here, fresh, rest) =
    (next, e, ne, ground arith, fresh, Chain-free h next a xs (ground arith) rest)

-- A task that is not in the queue is freed.
pub IsQueue-free :
    (h : Heap) (q : TaskQueue) (a : Ptr) (xs : Items)
    → has a xs ≡ false
    → IsQueue h q xs
    → IsQueue (free a h) q xs
IsQueue-free h q a xs out is = record {
  chain = Chain-free h q.head a xs out is.chain;
  counted = is.counted;
  ends = is.ends;
}

free_other : (h : Heap) (p r : Ptr) → r ≢ p → free p h r ≡ h r
unfolding free
free_other h p r ne = rw (ne→== r p ne)

-- A thread frees the task that it holds.
pub Holds-free :
    (heap : Heap) (items : Items) (threads : List Pc) (i : ℕ) (p : Ptr) (j : Job)
    → get_elem? threads i ≡ some (holding p j)
    → Holds heap items threads
    → Holds (free p heap) items (set threads i executed)
Holds-free heap items threads i p j here holds = record {
  kept = λ k r l at_k.
      let (other, was) = before k r l at_k in
      let old = holds.kept k r l was in
      record {
        next = old.next;
        here =
            free_other heap p r (λ same. other (holds.apart i k p j l here (rw (sym same) was)))
            ∙ old.here;
        out = old.out;
      };
  apart = λ k m r l o at_k at_m. holds.apart k m r l o (before k r l at_k).1 (before m r o at_m).1;
}
  where
    before :
        (k : ℕ) (r : Ptr) (l : Job)
        → get_elem? (set threads i executed) k ≡ some (holding r l)
        → (i ≢ k) × (get_elem? threads k ≡ some (holding r l))
    before k r l at_k =
        elim (get_elem?-set-cases threads i k (holding p j) executed (holding r l) here at_k) [
          | inl (same, is) ↦ cc
          | inr moved ↦ moved
        ]

vacant : (h : Heap) (a : Ptr) (t : Task) → h a ≡ none → h a ≡ some t → ⊥
vacant h a t gone there = cc

-- A free address is none of the queue's.
pub vacant-has :
    (h : Heap) (q : TaskQueue) (xs : Items) (a : Ptr)
    → IsQueue h q xs
    → h a ≡ none
    → has a xs ≡ false
vacant-has h q xs a is gone = elim (Bool-cases (has a xs)) [
  | inl inside ↦
      let (t, there) = Chain-has h q.head a xs inside is.chain in absurd (vacant h a t gone there)
  | inr outside ↦ outside
]

-- A task at a new address is queued.
pub Holds-enqueue :
    (heap later : Heap) (items : Items) (threads : List Pc) (new : Ptr) (j : Job)
    → heap new ≡ none
    → SameOutside items new heap later
    → Holds heap items threads
    → Holds later (items ++ (new, j) ∷ []) threads
Holds-enqueue heap later items threads new j fresh same holds = record {
  kept = λ i p l at_i.
      let old = holds.kept i p l at_i in
      let ne : p ≢ new =
        λ e. vacant heap new (task old.next l) fresh (ap heap (sym e) ∙ old.here) in
      record {
        next = old.next;
        here = same p old.out ne ∙ old.here;
        out = rw (has-append p items ((new, j) ∷ []), old.out, ne→== p new ne);
      };
  apart = holds.apart;
}

-- `threadPoolEnqueue` appends the job, and writes no task but its own and those in the queue.
pub thread_pool_enqueue-IsQueue :
    (h : Heap) (q : TaskQueue) (xs : Items) (new junk : Ptr) (j : Job)
    → IsQueue h q xs
    → new ≢ null
    → h new ≡ none
    → Returns
        (thread_pool_enqueue new junk j q h)
        λ r. IsQueue r.1 r.0 (xs ++ (new, j) ∷ []) × SameOutside xs new h r.1
unfolding thread_pool_enqueue
thread_pool_enqueue-IsQueue h q xs new junk j is nonnull fresh =
    let (r, runs, (queued, same)) =
      enqueue_task-IsQueue (write new (task junk j) h) q xs new (task junk j)
        (record {
          chain = Chain-write h q.head new (task junk j) xs out is.chain;
          counted = is.counted;
          ends = is.ends;
        })
        nonnull out (write_self h new (task junk j)) in
    (r, runs, (queued, λ a o ne. same a o ne ∙ write_other h new a (task junk j) ne))
  where
    out : has new xs ≡ false
    out = vacant-has h q xs new is fresh
