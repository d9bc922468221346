-- ===== src/Web/Threads/Invariant.antt =====
-- What holds of the thread pool in every state, and how it is kept where one thread moves.
use net_prog.Prelude.{
  ℕ, ◌+◌, ◌<◌, ◌≡◌, ◌≢◌, ◌⊎◌, sym, inl, inr, false, some, List, [], ◌∷◌, ◌++◌, get_elem?, set,
  arith,
}
use net_prog.Web.TaskQueue.{Ptr, Heap}
use net_prog.Web.TaskQueue.Chain.{Job, task, Items, has}
use net_prog.Web.TaskQueue.Fifo.{IsQueue}
use net_prog.Web.Threads.{
  Pc, starting, waiting, woken, counted, holding, idle_handed, executed, System,
}
use net_prog.Web.Threads.Tally.{tally, get_elem?-set-cases}

-- A thread that `numWorkingThreads` counts.
abbrev pub works : Pc → ℕ
works starting = 0
works waiting = 0
works woken = 0
works counted = 1
works (holding p j) = 1
works idle_handed = 1
works executed = 1

-- The weight of the job that a thread holds.
abbrev pub held : (Job → ℕ) → Pc → ℕ
held w starting = 0
held w waiting = 0
held w woken = 0
held w counted = 0
held w (holding p j) = w j
held w idle_handed = 0
held w executed = 0

abbrev pub jobs : Items → List Job
jobs [] = []
jobs ((p, j) ∷ xs) = j ∷ jobs xs

-- The task at `p` has the job `j` and is not in the queue.
pub record Kept (heap : Heap) (items : Items) (p : Ptr) (j : Job) : Type 0 where
  pub next : Ptr
  pub here : heap p ≡ some (task next j)
  pub out : has p items ≡ false

-- Each task that a thread holds is there, and no two threads hold one.
pub record Holds (heap : Heap) (items : Items) (threads : List Pc) : Type 0 where
  pub kept :
      (i : ℕ) (p : Ptr) (j : Job) → get_elem? threads i ≡ some (holding p j) → Kept heap items p j
  pub apart :
      (i k : ℕ) (p : Ptr) (j l : Job)
      → get_elem? threads i ≡ some (holding p j)
      → get_elem? threads k ≡ some (holding p l)
      → i ≡ k

-- All jobs in the queue are for a thread that has a flag.
abbrev pub Assigned : Items → Type 0
Assigned [] = Unit
Assigned ((p, j) ∷ xs) = (j.1.assigned_thr_id < 10) × Assigned xs

pub record Inv (s : System) : Type 0 where
  pub items : Items
  pub queued : IsQueue s.heap s.queue items
  pub assigned : Assigned items
  pub history : s.submitted ≡ s.taken ++ jobs items
  pub holds : Holds s.heap items s.threads
  pub working : s.num_working ≡ tally works s.threads
  pub weights : (w : Job → ℕ) → tally w s.taken ≡ tally w s.log + tally (held w) s.threads

-- A thread that holds no task moves.
pub Holds-set :
    (heap : Heap) (items : Items) (threads : List Pc) (i : ℕ) (x y : Pc)
    → get_elem? threads i ≡ some x
    → ((p : Ptr) (j : Job) → y ≢ holding p j)
    → Holds heap items threads
    → Holds heap items (set threads i y)
Holds-set heap items threads i x y here free holds = record {
  kept = λ k p j at_k. holds.kept k p j (before k p j at_k);
  apart = λ k l p j m at_k at_l. holds.apart k l p j m (before k p j at_k) (before l p m at_l);
}
  where
    before :
        (k : ℕ) (p : Ptr) (j : Job)
        → get_elem? (set threads i y) k ≡ some (holding p j)
        → get_elem? threads k ≡ some (holding p j)
    before k p j at_k = elim (get_elem?-set-cases threads i k x y (holding p j) here at_k) [
      | inl (same, is) ↦ absurd (free p j is)
      | inr (other, was) ↦ was
    ]

-- A thread takes a task that was in the queue.
pub Holds-take :
    (heap : Heap) (items : Items) (threads : List Pc) (i : ℕ) (x : Pc) (p next : Ptr) (j : Job)
    → get_elem? threads i ≡ some x
    → heap p ≡ some (task next j)
    → has p items ≡ false
    → Holds heap ((p, j) ∷ items) threads
    → Holds heap items (set threads i (holding p j))
Holds-take heap items threads i x p next j here at_p fresh holds = record {
  kept = λ k r l at_k. elim (moved k r l at_k) [
    | inl (same, is) ↦ kept_self r l is
    | inr (other, was) ↦ kept_old r l (holds.kept k r l was)
  ];
  apart = λ k m r l o at_k at_m. elim (moved k r l at_k) [
    | inl (same, is) ↦ elim (moved m r o at_m) [
      | inl (same', is') ↦ cc
      | inr (other, was) ↦ absurd (clash m r o l is was)
    ]
    | inr (other, was) ↦ elim (moved m r o at_m) [
      | inl (same', is') ↦ absurd (clash k r l o is' was)
      | inr (other', was') ↦ holds.apart k m r l o was was'
    ]
  ];
}
  where
    moved :
        (k : ℕ) (r : Ptr) (l : Job)
        → get_elem? (set threads i (holding p j)) k ≡ some (holding r l)
        → ((i ≡ k) × (holding p j ≡ holding r l))
          ⊎ ((i ≢ k) × (get_elem? threads k ≡ some (holding r l)))
    moved k r l at_k = get_elem?-set-cases threads i k x (holding p j) (holding r l) here at_k

    kept_self : (r : Ptr) (l : Job) → holding p j ≡ holding r l → Kept heap items r l
    kept_self r l is =
        let same_p : p ≡ r = cc in
        let same_j : j ≡ l = cc in
        record { next = next; here = rw (sym same_p, sym same_j) at_p; out = rw (sym same_p) fresh }

    kept_old : (r : Ptr) (l : Job) → Kept heap ((p, j) ∷ items) r l → Kept heap items r l
    kept_old r l k = record { next = k.next; here = k.here; out = let o = k.out in ground arith }

    clash :
        (k : ℕ) (r : Ptr) (l m : Job)
        → holding p j ≡ holding r m
        → get_elem? threads k ≡ some (holding r l)
        → ⊥
    clash k r l m is was =
        let o = (holds.kept k r l was).out in let same_p : p ≡ r = cc in ground arith
