-- ===== src/Super/Table/Probe.antt =====
-- Probe paths of the table, and the invariant that insertion keeps.
use net_prog.Prelude.{
  ℕ, zero, suc, ◌+◌, ◌%◌, ◌-◌, ◌≤◌, ◌<◌, ◌≡◌, ◌≢◌, inl, inr, Option, none, some, List, arith,
  length, get_or, replicate, length-replicate, get_or-replicate, occupied, occupied-replicate,
  free_cell, Option-cases,
}
use net_prog.Run.{Run, ok}
use net_prog.Super.Table.{FileInfo, FileTable, hash_table_size, init_file_info_table, free_slot}
use net_prog.Super.Table.Home.{IsAscii, home}

abbrev pub Cells : Type 0
Cells = List (Option FileInfo)

abbrev pub at : Cells → ℕ → Option FileInfo
at cells i = get_or cells i none

-- The cells of the first `k` rounds of a probe that starts at `i` are in use.
abbrev pub Busy : Cells → ℕ → ℕ → Type 0
Busy cells i k = (m : ℕ) → m < k → at cells ((i + m) % 1000) ≢ none

-- The entry in cell `j` is reached from its home cell over cells in use.
pub record IsPlaced (cells : Cells) (j : ℕ) (e : FileInfo) : Type 0 where
  pub ascii : IsAscii e.file_name
  pub steps : ℕ
  pub near : steps < 1000
  pub lands : j ≡ (home e.file_name + steps) % 1000
  pub busy : Busy cells (home e.file_name) steps

pub record IsValid (t : FileTable) : Type 0 where
  pub width : length t.file_info_list ≡ 1000
  pub counted : t.len ≡ occupied t.file_info_list
  pub placed :
      (j : ℕ) (e : FileInfo) → at t.file_info_list j ≡ some e → IsPlaced t.file_info_list j e

-- The table that a super node starts with is valid.
pub init-IsValid : IsValid init_file_info_table
unfolding init_file_info_table
init-IsValid = record {
  width = length-replicate {A = Option FileInfo} hash_table_size none;
  counted = sym_occupied;
  placed = λ j e h. absurd (impossible j e h);
}
  where
    sym_occupied : 0 ≡ occupied {A = FileInfo} (replicate hash_table_size none)
    sym_occupied = omega (arith, occupied-replicate FileInfo hash_table_size)

    impossible : (j : ℕ) (e : FileInfo) → at (replicate hash_table_size none) j ≡ some e → ⊥
    impossible j e h = cc (get_or-replicate {A = Option FileInfo} hash_table_size j none)

-- A probe from `i` that ends at most `d` cells ahead, at the first empty cell.
pub record Stops (cells : Cells) (i d : ℕ) (found : Run ℕ) : Type 0 where
  pub steps : ℕ
  pub reach : steps ≤ d
  pub finds : found ≡ ok ((i + steps) % 1000)
  pub empty : at cells ((i + steps) % 1000) ≡ none
  pub busy : Busy cells i steps

pub shift : (i m : ℕ) → ((i + 1) % 1000 + m) % 1000 ≡ (i + suc m) % 1000
shift i m = omega arith

pub Busy-suc :
    (cells : Cells) (i k : ℕ)
    → at cells (i % 1000) ≢ none
    → Busy cells ((i + 1) % 1000) k
    → Busy cells i (suc k)
Busy-suc cells i k here ahead zero lt = let e : (i + 0) % 1000 ≡ i % 1000 = omega arith in rw e here
Busy-suc cells i k here ahead (suc m) lt = rw (← shift i m) (ahead m (omega arith))

Stops-here :
    (fuel d i : ℕ) (cells : Cells)
    → i < 1000
    → at cells i ≡ none
    → Stops cells i d (free_slot (suc fuel) i cells)
unfolding free_slot
Stops-here fuel d i cells lt e =
    let home : (i + 0) % 1000 ≡ i = omega arith in
    record {
      steps = 0;
      reach = omega arith;
      finds = rw (e, free_slot, home);
      empty = rw home e;
      busy = λ m h. absurd (omega arith);
    }

Stops-later :
    (fuel d i : ℕ) (cells : Cells) (e : FileInfo)
    → i < 1000
    → at cells i ≡ some e
    → Stops cells ((i + 1) % 1000) d (free_slot fuel ((i + 1) % 1000) cells)
    → Stops cells i (suc d) (free_slot (suc fuel) i cells)
unfolding free_slot
Stops-later fuel d i cells e lt used rest =
    let home : i % 1000 ≡ i = omega arith in
    record {
      steps = suc rest.steps;
      reach = omega (arith, rest.reach);
      finds = rw (used, free_slot, rest.finds, shift i rest.steps);
      empty = rw (← shift i rest.steps) rest.empty;
      busy = Busy-suc cells i rest.steps (rw (home, used) (cc)) rest.busy;
    }

-- A probe with a round for each cell up to an empty one stops, at the first empty cell.
pub free_slot-Stops :
    (fuel d i : ℕ) (cells : Cells)
    → d < fuel
    → i < 1000
    → at cells ((i + d) % 1000) ≡ none
    → Stops cells i d (free_slot fuel i cells)
free_slot-Stops zero d i cells h lt e = absurd (omega arith)
free_slot-Stops (suc fuel) zero i cells h lt e =
    let home : (i + 0) % 1000 ≡ i = omega arith in Stops-here fuel 0 i cells lt (rw home at e)
free_slot-Stops (suc fuel) (suc d) i cells h lt e = elim (Option-cases (at cells i)) [
  | inl empty ↦ Stops-here fuel (suc d) i cells lt empty
  | inr (x, used) ↦
      Stops-later fuel d i cells x lt used (
        free_slot-Stops fuel d ((i + 1) % 1000) cells (omega arith) (omega arith)
          (rw (shift i d) e))
]

-- A valid table with room has an empty cell within a full turn from any cell.
pub empty_ahead :
    (cells : Cells) (i : ℕ)
    → length cells ≡ 1000
    → occupied cells < 1000
    → i < 1000
    → (d : ℕ) × (d < 1000) × (at cells ((i + d) % 1000) ≡ none)
empty_ahead cells i width room lt =
    let (j, below, empty) = free_cell cells (omega arith) in
    let e : (i + (j + 1000 - i) % 1000) % 1000 ≡ j = omega arith in
    ((j + 1000 - i) % 1000, omega arith, rw e empty)
