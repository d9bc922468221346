-- ===== src/Web/TaskQueue/Chain.antt =====
-- The tasks of a queue, followed from its head.
use net_prog.Prelude.{
  ℕ, ◌≡◌, ◌≢◌, refl, ◌∙◌, Bool, true, false, ◌||◌, some, List, [], ◌∷◌, ◌++◌, arith, ◌==◌, ne→==,
}
use net_prog.Web.TaskQueue.{Ptr, null, ClientInfo, Task, Heap, write}

-- The function and the argument of a task.
abbrev pub Job : Type 0
Job = ℕ × ClientInfo

abbrev pub task : Ptr → Job → Task
task next j = record { prev = next; function = j.0; arg = j.1 }

-- What a queue stands for: the address and the job of each task, in order.
abbrev pub Items : Type 0
Items = List (Ptr × Job)

abbrev pub has : Ptr → Items → Bool
has a [] = false
has a ((p, j) ∷ xs) = a == p || has a xs

-- From `p` the `prev` pointers lead through the distinct tasks `xs` and end with NULL.
abbrev pub Chain : Heap → Ptr → Items → Type 0
Chain h p [] = p ≡ null
Chain h p ((x, j) ∷ xs) =
    (next : Ptr) × (p ≡ x)
    × (x ≢ null)
    × (h x ≡ some (task next j))
    × (has x xs ≡ false)
    × Chain h next xs

-- The address of the last task, or NULL.
abbrev pub last : Items → Ptr
last [] = null
last ((p, j) ∷ []) = p
last (x ∷ y ∷ xs) = last (y ∷ xs)

pub has-last : (x : Ptr × Job) (xs : Items) → has (last (x ∷ xs)) (x ∷ xs) ≡ true
has-last (p, j) [] = ground arith
has-last (p, j) (y ∷ xs) = ground (arith, has-last y xs)

pub has-append : (a : Ptr) (xs ys : Items) → has a (xs ++ ys) ≡ (has a xs || has a ys)
has-append a [] ys = refl
has-append a ((p, j) ∷ xs) ys = ground (arith, has-append a xs ys)

pub write_self : (h : Heap) (a : Ptr) (t : Task) → write a t h a ≡ some t
unfolding write
write_self h a t = ground arith

pub write_other : (h : Heap) (a x : Ptr) (t : Task) → x ≢ a → write a t h x ≡ h x
unfolding write
write_other h a x t ne = rw (ne→== x a ne)

-- An address outside `xs` is none of its tasks.
pub has-≢ : (a b : Ptr) (xs : Items) → has a xs ≡ false → has b xs ≡ true → a ≢ b
has-≢ a b xs out inside e = cc

-- A write elsewhere changes nothing.
pub Chain-write :
    (h : Heap) (p a : Ptr) (t : Task) (xs : Items)
    → has a xs ≡ false
    → Chain h p xs
    → Chain (write a t h) p xs
unfolding write
Chain-write h p a t [] out c = c
Chain-write h p a t ((x, j) ∷ xs) out (next, e, ne, here, fresh, rest) =
    (next, e, ne, ground arith, fresh, Chain-write h next a t xs (ground arith) rest)

-- The job of the last task.
abbrev pub last_job : Ptr × Job → Items → Job
last_job (p, j) [] = j
last_job x (y ∷ xs) = last_job y xs

-- The last task of a chain is there, and its `prev` is NULL.
pub Chain-last :
    (h : Heap) (p : Ptr) (x : Ptr × Job) (xs : Items)
    → Chain h p (x ∷ xs)
    → h (last (x ∷ xs)) ≡ some (task null (last_job x xs))
Chain-last h p (x, j) [] (next, e, ne, here, fresh, rest) = rw rest at here
Chain-last h p (x, j) (y ∷ ys) (next, e, ne, here, fresh, rest) = Chain-last h next y ys rest

-- A task is linked behind the last one.
pub Chain-append :
    (h : Heap) (p new : Ptr) (x : Ptr × Job) (xs : Items) (j : Job)
    → Chain h p (x ∷ xs)
    → has new (x ∷ xs) ≡ false
    → new ≢ null
    → h new ≡ some (task null j)
    → Chain (write (last (x ∷ xs)) (task new (last_job x xs)) h) p ((x ∷ xs) ++ (new, j) ∷ [])
Chain-append h p new (x, i) [] j (next, e, ne, here, fresh, rest) out nonnull at_new = (
  new,
  e,
  ne,
  write_self h x (task new i),
  ground arith,
  (
    null,
    refl,
    nonnull,
    write_other h x new (task new i) (has-≢ new x ((x, i) ∷ []) out (ground arith)) ∙ at_new,
    refl,
    refl,
  ),
)
Chain-append h p new (x, i) (y ∷ ys) j (next, e, ne, here, fresh, rest) out nonnull at_new = (
  next,
  e,
  ne,
  write_other h (last (y ∷ ys)) x (task new (last_job y ys))
        (has-≢ x (last (y ∷ ys)) (y ∷ ys) fresh (has-last y ys))
      ∙ here,
  rw (has-append x (y ∷ ys) ((new, j) ∷ []), fresh) (ground arith),
  Chain-append h next new y ys j rest (ground arith) nonnull at_new,
)
