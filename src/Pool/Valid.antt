-- ===== src/Pool/Valid.antt =====
-- The invariant of the descriptor pool, and that every operation keeps it.
use net_prog.Prelude.{
  ℕ, ◌<◌, ◌≤◌, ◌≡◌, ◌≢◌, ap, sym, ◌∙◌, ◌⊎◌, inl, inr, true, Option, none, some, List, arith, length,
  get_or, set, replicate, length-replicate, get_or-set_self, get_or-set_ne, get_or-replicate,
}
use native.Mathlib.Decide.{ℕ_discrete}
use net_prog.Prelude.Int.{ℤ, pos, negsuc}
use net_prog.Pool.{FdPool, fd_setsize, fd_set, init_pool}

-- An index up to `maxi`.
abbrev pub Upto : ℕ → ℤ → Type 0
Upto i (pos m) = i ≤ m
Upto i (negsuc m) = ⊥

-- `maxi` stays inside the array.
abbrev pub Inside : ℤ → Type 0
Inside (pos m) = m < 1024
Inside (negsuc m) = Unit

abbrev pub slot : FdPool → ℕ → Option ℕ
slot pool i = get_or pool.clientfd i none

-- A client that the pool holds in a slot.
pub record IsHeld (pool : FdPool) (i fd : ℕ) : Type 0 where
  pub upto : Upto i pool.maxi
  pub below : fd ≤ pool.maxfd
  pub watched : pool.read_set fd ≡ true
  pub small : fd < 1024

-- `listener` is the descriptor that the pool was made with.
pub record IsValid (listener : ℕ) (pool : FdPool) : Type 0 where
  pub width : length pool.clientfd ≡ 1024
  pub inside : Inside pool.maxi
  pub listens : (pool.read_set listener ≡ true) × (listener ≤ pool.maxfd)
  pub held : (i fd : ℕ) → slot pool i ≡ some fd → IsHeld pool i fd
  pub apart : (i j fd : ℕ) → slot pool i ≡ some fd → slot pool j ≡ some fd → i ≡ j
  pub not_listener : (i : ℕ) → slot pool i ≢ some listener
  -- what is watched is the listener or a client
  pub known :
      (fd : ℕ) → pool.read_set fd ≡ true → (fd ≡ listener) ⊎ ((i : ℕ) × (slot pool i ≡ some fd))

-- If maxi held -1 or an index of the array before, the pool that is made for a listener is valid.
pub init_pool-IsValid :
    (listener : ℕ) (pool : FdPool) → Inside pool.maxi → IsValid listener (init_pool listener pool)
unfolding init_pool fd_set
init_pool-IsValid listener pool inside = record {
  width = length-replicate {A = Option ℕ} fd_setsize none;
  inside = inside;
  listens = (ground arith, omega arith);
  held = λ i fd h. absurd (taken i fd h);
  apart = λ i j fd h k. absurd (taken i fd h);
  not_listener = λ i h. taken i listener h;
  known = λ fd h. inl (ground arith);
}
  where
    taken : (i fd : ℕ) → get_or {A = Option ℕ} (replicate fd_setsize none) i none ≢ some fd
    taken i fd h = cc (get_or-replicate {A = Option ℕ} fd_setsize i none)

-- A slot after a write to another or to the same one.
pub set-cases :
    (fds : List (Option ℕ)) (i j : ℕ) (v : Option ℕ)
    → i < length fds
    → ((i ≡ j) × (get_or (set fds i v) j none ≡ v))
      ⊎ ((i ≢ j) × (get_or (set fds i v) j none ≡ get_or fds j none))
set-cases fds i j v lt = elim (ℕ_discrete i j) [
  | yes same ↦
      inl (same, ap (λ k. get_or (set fds i v) k none) (sym same) ∙ get_or-set_self fds i v none lt)
  | no other ↦ inr (other, get_or-set_ne fds i j v none other)
]
