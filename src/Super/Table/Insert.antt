-- ===== src/Super/Table/Insert.antt =====
-- Insertion into the table of shared files: `insertFileInfo` of p4/src/super_lib.c.
use net_prog.Prelude.{
  ℕ, ◌+◌, ◌%◌, ◌<◌, ◌≡◌, ◌≢◌, refl, sym, ◌∙◌, ap, none, some, arith, length, set, length-set,
  get_or-set_self, get_or-set_ne, occupied-set, ne→==, ==_iff,
}
use mathlib.Core.Path.{subst₂}
use native.Mathlib.Decide.{ℕ_discrete}
use net_prog.Prelude.Int.{pos, negsuc}
use net_prog.Run.{ok, Returns}
use net_prog.Super.Table.{FileInfo, FileTable, insert_file_info}
use net_prog.Super.Table.Home.{IsAscii, home, home-lt, hash_function-ascii}
use net_prog.Super.Table.Probe.{Cells, at, Busy, IsPlaced, IsValid, free_slot-Stops, empty_ahead}

-- Writing into an empty cell leaves every other cell as it was.
abbrev pub put : Cells → ℕ → FileInfo → Cells
put cells i e = set cells i (some e)

pub at-put :
    (cells : Cells) (i j : ℕ) (e x : FileInfo)
    → at cells i ≡ none
    → at cells j ≡ some x
    → at (put cells i e) j ≡ some x
at-put cells i j e x empty used =
    get_or-set_ne cells i j (some e) none (λ same. cc (ap (λ k. at cells k) same)) ∙ used

pub put-used :
    (cells : Cells) (i j : ℕ) (e : FileInfo)
    → at cells i ≡ none
    → at cells j ≢ none
    → at (put cells i e) j ≢ none
put-used cells i j e empty used =
    let same =
      get_or-set_ne cells i j (some e) none (λ p. used (ap (λ k. at cells k) (sym p) ∙ empty)) in
    λ gone. used (sym same ∙ gone)

pub Busy-put :
    (cells : Cells) (i j k : ℕ) (e : FileInfo)
    → at cells i ≡ none
    → Busy cells j k
    → Busy (put cells i e) j k
Busy-put cells i j k e empty busy m lt = put-used cells i ((j + m) % 1000) e empty (busy m lt)

module _ (cells : Cells) (e : FileInfo) (i : ℕ) (empty : at cells i ≡ none) where
  IsPlaced-put : (j : ℕ) (x : FileInfo) → IsPlaced cells j x → IsPlaced (put cells i e) j x
  IsPlaced-put j x p = record {
    ascii = p.ascii;
    steps = p.steps;
    near = p.near;
    lands = p.lands;
    busy = Busy-put cells i (home x.file_name) p.steps e empty p.busy;
  }

  -- After the write every entry is placed, if the new one is.
  put-IsPlaced :
      i < length cells
      → ((j : ℕ) (x : FileInfo) → at cells j ≡ some x → IsPlaced cells j x)
      → IsPlaced (put cells i e) i e
      → (j : ℕ) (x : FileInfo) → at (put cells i e) j ≡ some x
      → IsPlaced (put cells i e) j x
  put-IsPlaced lt old new j x h = elim (ℕ_discrete i j) [
    | yes same ↦
        let stored : some e ≡ some x =
          sym (get_or-set_self cells i (some e) none lt)
          ∙ ap (λ k. at (put cells i e) k) same
          ∙ h in
        subst₂ (λ k y. IsPlaced (put cells i e) k y) same (cc stored) new
    | no other ↦ IsPlaced-put j x (old j x (sym (get_or-set_ne cells i j (some e) none other) ∙ h))
  ]

-- The cell `k` steps along the probe path of an entry.
abbrev pub slot : FileInfo → ℕ → ℕ
slot e k = (home e.file_name + k) % 1000

-- What a successful insertion did: the entry is in the first empty cell of its probe path.
pub record Inserted (t : FileTable) (e : FileInfo) (u : FileTable) : Type 0 where
  pub steps : ℕ
  pub near : steps < 1000
  pub was_empty : at t.file_info_list (slot e steps) ≡ none
  pub busy : Busy t.file_info_list (home e.file_name) steps
  pub stores : u.file_info_list ≡ put t.file_info_list (slot e steps) e
  pub grows : u.len ≡ t.len + 1
  pub valid : IsValid u

module _ (t : FileTable) (e : FileInfo) (valid : IsValid t) (ascii : IsAscii e.file_name) where
  open valid use {width, counted, placed}

  abbrev cells : Cells
  cells = t.file_info_list

  abbrev start : ℕ
  start = home e.file_name

  put-IsValid :
      (k : ℕ)
      → k < 1000
      → at cells ((start + k) % 1000) ≡ none
      → Busy cells start k
      → IsValid (record { len = t.len + 1; file_info_list = put cells ((start + k) % 1000) e })
  put-IsValid k near empty busy =
      let i = (start + k) % 1000 in
      let inside : i < length cells = omega arith in
      record {
        width = length-set cells i (some e) ∙ width;
        counted = omega (arith, occupied-set cells i e inside empty);
        placed = put-IsPlaced cells e i empty inside placed (record {
          ascii = ascii;
          steps = k;
          near = near;
          lands = refl;
          busy = Busy-put cells i start k e empty busy;
        });
      }

  -- Inserting an entry with an ASCII name into a valid table with fewer than 1000 entries returns
  -- 0, puts the entry into the first empty cell of its probe path, changes no other cell, counts
  -- the entry, and keeps the table valid.
  pub insert_file_info-Inserted :
      t.len < 1000 → Returns (insert_file_info e t) λ r. (r.0 ≡ pos 0) × Inserted t e r.1
  unfolding insert_file_info
  insert_file_info-Inserted room =
      let (d, lt, ahead) = empty_ahead cells start width (omega arith) (home-lt e.file_name) in
      let stop = free_slot-Stops 1000 d start cells lt (home-lt e.file_name) ahead in
      let i = (start + stop.steps) % 1000 in
      let near : stop.steps < 1000 = omega (arith, stop.reach) in
      (
        (pos 0, record { len = t.len + 1; file_info_list = put cells i e }),
        rw (ne→== t.len 1000 (omega arith), hash_function-ascii e.file_name ascii, stop.finds),
        (
          refl,
          record {
            steps = stop.steps;
            near = near;
            was_empty = stop.empty;
            busy = stop.busy;
            stores = refl;
            grows = refl;
            valid = put-IsValid stop.steps near stop.empty stop.busy;
          },
        ),
      )

-- A full table refuses every entry and stays as it is.
pub insert_file_info_full :
    (t : FileTable) (e : FileInfo) → t.len ≡ 1000 → insert_file_info e t ≡ ok (negsuc 0, t)
unfolding insert_file_info
insert_file_info_full t e full = rw ((==_iff t.len 1000).1 full)
