-- ===== src/Super/Table/Sound.antt =====
-- What holds of the table after any insertions that return, whatever the names are.
use net_prog.Prelude.{
  ℕ, zero, suc, ◌+◌, ◌%◌, ◌<◌, ◌≡◌, ◌≢◌, sym, ◌∙◌, ap, inl, inr, none, some, arith, length, false,
  leb, ◌==◌, length-set, get_or-set_self, get_or-set_ne, occupied, occupied-set, Bool-cases,
  Option-cases,
}
use mathlib.Core.Path.{subst, subst₂}
use native.Mathlib.Decide.{ℕ_discrete}
use net_prog.Prelude.Int.{ℤ, pos, negsuc, sub_ℕ, rem}
use net_prog.Run.{ok, bind-ok, ok_same, fault-ok}
use net_prog.Super.Table.{
  Text, FileInfo, FileTable, hash_table_size, hash_function, cell_index, sum_chars, free_slot,
  insert_file_info,
}
use net_prog.Super.Table.Insert.{put, Busy-put}
use net_prog.Super.Table.Probe.{Cells, at, Busy, Busy-suc, shift, IsValid}
use net_prog.Super.Table.Home.{home, hash_function-ascii}

-- A probe for the entry's name, which begins inside the array, comes to cell `j` over cells in use.
pub record IsReached (cells : Cells) (j : ℕ) (e : FileInfo) : Type 0 where
  pub base : ℕ
  pub begins : cell_index (hash_function e.file_name) ≡ ok base
  pub steps : ℕ
  pub near : steps < 1000
  pub lands : j ≡ (base + steps) % 1000
  pub busy : Busy cells base steps

pub record IsSound (t : FileTable) : Type 0 where
  pub width : length t.file_info_list ≡ 1000
  pub counted : t.len ≡ occupied t.file_info_list
  pub reached :
      (j : ℕ) (e : FileInfo) → at t.file_info_list j ≡ some e → IsReached t.file_info_list j e

-- Every entry is still in its cell.
abbrev pub Keeps : FileTable → FileTable → Type 0
Keeps t u = (j : ℕ) (e : FileInfo) → at t.file_info_list j ≡ some e → at u.file_info_list j ≡ some e

abbrev pub Grows : FileTable → FileTable → Type 0
Grows t u = IsSound u × Keeps t u

pub Grows-refl : (t : FileTable) → IsSound t → Grows t t
Grows-refl t sound = (sound, λ j e h. h)

pub Grows-trans : (t u v : FileTable) → Grows t u → Grows u v → Grows t v
Grows-trans t u v first second = (second.0, λ j e h. second.1 j e (first.1 j e h))

-- A valid table is sound.
pub IsValid-IsSound : (t : FileTable) → IsValid t → IsSound t
IsValid-IsSound t valid = record {
  width = valid.width;
  counted = valid.counted;
  reached = λ j e h.
      let p = valid.placed j e h in
      record {
        base = home e.file_name;
        begins = hash_function-ascii e.file_name p.ascii;
        steps = p.steps;
        near = p.near;
        lands = p.lands;
        busy = p.busy;
      };
}

-- Where a search for an empty cell that returns has ended.
record Ends (cells : Cells) (i fuel j : ℕ) : Type 0 where
  steps : ℕ
  near : steps < fuel
  lands : j ≡ (i + steps) % 1000
  empty : at cells j ≡ none
  busy : Busy cells i steps

free_slot-Ends :
    (fuel i j : ℕ) (cells : Cells) → i < 1000 → free_slot fuel i cells ≡ ok j → Ends cells i fuel j
unfolding free_slot
free_slot-Ends zero i j cells lt h = cc
free_slot-Ends (suc fuel) i j cells lt h = elim (Option-cases (at cells i)) [
  | inl empty ↦
      let here : i ≡ j = ok_same (rw (empty, free_slot) at h) in
      record {
        steps = 0;
        near = omega arith;
        lands = omega (arith, here);
        empty = rw (← here) empty;
        busy = λ m none_before. absurd (omega arith);
      }
  | inr (x, used) ↦
      let rest =
        free_slot-Ends fuel ((i + 1) % 1000) j cells (omega arith) (rw (used, free_slot) at h) in
      let home_cell : i % 1000 ≡ i = omega arith in
      record {
        steps = suc rest.steps;
        near = omega (arith, rest.near);
        lands = rest.lands ∙ shift i rest.steps;
        empty = rest.empty;
        busy = Busy-suc cells i rest.steps (rw (home_cell, used) (cc)) rest.busy;
      }
]

below_zero : (r i : ℕ) → cell_index (sub_ℕ 0 r) ≡ ok i → i < 1000
unfolding cell_index
below_zero zero i h = let e : 0 ≡ i = ok_same h in omega (arith, e)
below_zero (suc r) i h =
    let above : leb (suc r) 0 ≡ false = ground arith in absurd (fault-ok (rw above at h))

-- A cell that a remainder leads to lies in the array.
cell_index-lt : (sum : ℤ) (i : ℕ) → cell_index (rem sum 1000) ≡ ok i → i < 1000
unfolding cell_index rem
cell_index-lt (pos a) i h = let e : a % 1000 ≡ i = ok_same h in omega (arith, e)
cell_index-lt (negsuc a) i h = below_zero (suc a % 1000) i h

hash-lt : (name : Text) (i : ℕ) → cell_index (hash_function name) ≡ ok i → i < 1000
unfolding hash_function
hash-lt name i h = cell_index-lt (sum_chars (pos 0) name) i h

module _ (t : FileTable) (e : FileInfo) (sound : IsSound t) where
  abbrev cells : Cells
  cells = t.file_info_list

  -- The table after the entry was written to an empty cell of its probe path.
  abbrev after : ℕ → FileTable
  after i = record { len = t.len + 1; file_info_list = put cells i e }

  put-Grows :
      (base i : ℕ)
      → cell_index (hash_function e.file_name) ≡ ok base
      → Ends cells base 1000 i
      → Grows t (after i)
  put-Grows base i begins ends = (
    record {
      width = length-set cells i (some e) ∙ sound.width;
      counted = omega (arith, sound.counted, occupied-set cells i e inside ends.empty);
      reached = still;
    },
    λ j x h. get_or-set_ne cells i j (some e) none (other j x h) ∙ h,
  )
    where
      inside : i < length cells
      inside = omega (arith, ends.lands, sound.width)

      other : (j : ℕ) (x : FileInfo) → at cells j ≡ some x → i ≢ j
      other j x h same = cc (sym ends.empty ∙ ap (λ k. at cells k) same ∙ h)

      new : IsReached (put cells i e) i e
      new = record {
        base = base;
        begins = begins;
        steps = ends.steps;
        near = ends.near;
        lands = ends.lands;
        busy = Busy-put cells i base ends.steps e ends.empty ends.busy;
      }

      old : (j : ℕ) (x : FileInfo) → IsReached cells j x → IsReached (put cells i e) j x
      old j x r = record {
        base = r.base;
        begins = r.begins;
        steps = r.steps;
        near = r.near;
        lands = r.lands;
        busy = Busy-put cells i r.base r.steps e ends.empty r.busy;
      }

      still : (j : ℕ) (x : FileInfo) → at (put cells i e) j ≡ some x → IsReached (put cells i e) j x
      still j x h = elim (ℕ_discrete i j) [
        | yes same ↦
            let stored : some e ≡ some x =
              sym (get_or-set_self cells i (some e) none inside)
              ∙ ap (λ k. at (put cells i e) k) same
              ∙ h in
            subst₂ (λ k y. IsReached (put cells i e) k y) same (cc stored) new
        | no apart ↦
            old j x (sound.reached j x (sym (get_or-set_ne cells i j (some e) none apart) ∙ h))
      ]

  -- An insertion that returns keeps the table sound and every entry in its cell.
  pub insert_file_info-Grows :
      (status : ℤ) (u : FileTable) → insert_file_info e t ≡ ok (status, u) → Grows t u
  unfolding insert_file_info
  insert_file_info-Grows status u h = elim (Bool-cases (t.len == hash_table_size)) [
    | inl full ↦
        let same : (negsuc 0, t) ≡ (status, u) = ok_same (rw full at h) in
        subst (λ r. Grows t r.1) same (sound, λ j x stored. stored)
    | inr room ↦
        let (base, begins, rest) =
          bind-ok (cell_index (hash_function e.file_name)) _ (status, u) (rw room at h) in
        let (i, found, ends) = bind-ok (free_slot hash_table_size base cells) _ (status, u) rest in
        let stop = free_slot-Ends 1000 base i cells (hash-lt e.file_name base begins) found in
        let same : (pos 0, after i) ≡ (status, u) = ok_same ends in
        subst (λ r. Grows t r.1) same (put-Grows base i begins stop)
  ]
