-- ===== src/Super/Table/Search.antt =====
-- Search in the table of shared files: `searchFileInfo` of p4/src/super_lib.c.
use net_prog.Prelude.{
  ℕ, ◌%◌, ◌<◌, ◌≡◌, ◌≢◌, refl, sym, ◌∙◌, ap, none, some, [], ◌∷◌, ◌++◌, arith, length, true, false,
  inl, inr, Bool-cases, ◌==◌, ==_iff, get_or-set_self, get_or-set_ne, length-append,
}
use mathlib.Core.Path.{subst}
use net_prog.Run.{ok, fault, out_of_fuel, Returns, ok_same}
use net_prog.Super.Table.{
  Text, FileInfo, FileTable, strncmp_eq, search_loop, search_within, search_file_info,
}
use net_prog.Super.Table.Home.{
  IsAscii, IsHigh, deficit, home, home-lt, hash_function-ascii, hash_function-high, total,
  total-append,
}
use net_prog.Super.Table.Probe.{Cells, at, IsValid, empty_ahead}
use net_prog.Super.Table.Insert.{put, slot, Inserted}
use net_prog.Super.Table.Scan.{
  IsAnswer, strncmp_eq_refl, strncmp_eq-append, search_loop-Returns, search_loop-finds,
  search_loop-keeps, search_loop-put, search_loop-runs_on,
}

module _ (name : Text) (ascii : IsAscii name) where
  within_loop :
      (fuel : ℕ) (cells : Cells)
      → search_within fuel name cells ≡ search_loop fuel (home name) name cells
  unfolding search_within
  within_loop fuel cells = rw (hash_function-ascii name ascii)

  -- In a valid table with an empty cell the search for an ASCII name ends within one round for
  -- each cell, and its answer, if it has one, is an entry of the table whose name begins with the
  -- wanted name.
  pub search_file_info-Returns :
      (t : FileTable)
      → IsValid t
      → t.len < 1000
      → Returns (search_file_info name t.file_info_list) (IsAnswer name t.file_info_list)
  unfolding search_file_info
  search_file_info-Returns t valid room =
      let cells = t.file_info_list in
      let (d, lt, empty) =
        empty_ahead cells (home name) valid.width (omega (arith, valid.counted)) (home-lt name) in
      rw (within_loop 1000 cells)
        (search_loop-Returns name cells 1000 d (home name) lt (home-lt name) empty)

  -- In a valid table the search for an ASCII name that some cell holds ends and finds an entry.
  pub search_file_info_complete :
      (t : FileTable) (j : ℕ) (e : FileInfo)
      → IsValid t
      → at t.file_info_list j ≡ some e
      → e.file_name ≡ name
      → (x : FileInfo) × (search_file_info name t.file_info_list ≡ ok (some x))
  unfolding search_file_info
  search_file_info_complete t j e valid stored same =
      let cells = t.file_info_list in
      let p = valid.placed j e stored in
      let begin : home e.file_name ≡ home name = ap home same in
      rw (within_loop 1000 cells) (
        search_loop-finds name cells 1000 p.steps (home name) e p.near (home-lt name)
          (rw (← begin, ← p.lands) stored)
          (subst (λ n. strncmp_eq e.file_name n ≡ true) same (strncmp_eq_refl e.file_name))
          (rw (← begin) p.busy))

  module _ {t u : FileTable} (e : FileInfo) (done : Inserted t e u) where
    -- If an insertion succeeded, every search for an ASCII name that had found an entry before
    -- finds the same entry after it.
    pub search_file_info-insert_keeps :
        (x : FileInfo)
        → search_file_info name t.file_info_list ≡ ok (some x)
        → search_file_info name u.file_info_list ≡ ok (some x)
    unfolding search_file_info
    search_file_info-insert_keeps x before =
        let cells = t.file_info_list in
        rw (done.stores, within_loop 1000 (put cells (slot e done.steps) e))
          (search_loop-keeps name cells (slot e done.steps) e done.was_empty 1000 (home name) x
            (sym (within_loop 1000 cells) ∙ before))

    -- After an insertion a search that had no answer finds the new entry, under every name that
    -- begins the new name and starts its probe at the same cell.
    search_file_info-insert_prefix :
        length t.file_info_list ≡ 1000
        → home e.file_name ≡ home name
        → strncmp_eq e.file_name name ≡ true
        → search_file_info name t.file_info_list ≡ ok none
        → search_file_info name u.file_info_list ≡ ok (some e)
    unfolding search_file_info
    search_file_info-insert_prefix width begin match before =
        let cells = t.file_info_list in
        rw (done.stores, within_loop 1000 (put cells (slot e done.steps) e), begin)
          (search_loop-put name cells 1000 done.steps (home name) e done.near (home-lt name) width
            (rw (← begin) done.was_empty) (rw (← begin) done.busy) match
            (sym (within_loop 1000 cells) ∙ before))

  -- In a table without an empty cell that holds no name that begins with the wanted ASCII name,
  -- the search runs out of any number of rounds.
  pub search_file_info_diverges :
      (fuel : ℕ) (cells : Cells)
      → ((j : ℕ)
          → j < 1000
          → (e : FileInfo) × (at cells j ≡ some e) × (strncmp_eq e.file_name name ≡ false))
      → search_within fuel name cells ≡ out_of_fuel
  search_file_info_diverges fuel cells full =
      within_loop fuel cells ∙ search_loop-runs_on name cells fuel (home name) full (home-lt name)

-- If an entry with an ASCII name was inserted into a valid table in which the search for its name
-- found nothing, the search for its name now finds this entry.
pub search_file_info-insert :
    {t u : FileTable} (e : FileInfo)
    → IsAscii e.file_name
    → IsValid t
    → Inserted t e u
    → search_file_info e.file_name t.file_info_list ≡ ok none
    → search_file_info e.file_name u.file_info_list ≡ ok (some e)
search_file_info-insert e ascii valid done before =
    search_file_info-insert_prefix e.file_name ascii e done valid.width refl
      (strncmp_eq_refl e.file_name) before

length_zero : (l : Text) → length l ≡ 0 → l ≡ []
length_zero [] h = refl
length_zero (c ∷ l) h = absurd (omega arith)

none_same : {V : Type 0} {v : V} → none ≢ some v
none_same e = cc

some_same : {V : Type 0} {v w : V} → some v ≡ some w → v ≡ w
some_same e = cc

-- If nothing was found under an ASCII name, then after the insertion of an entry whose name goes on
-- from it no entry has the name.
no_file_named :
    {t u : FileTable} (name rest : Text) (e : FileInfo)
    → e.file_name ≡ name ++ rest
    → IsAscii name
    → IsValid t
    → Inserted t e u
    → rest ≢ []
    → search_file_info name t.file_info_list ≡ ok none
    → (j : ℕ) (x : FileInfo) → at u.file_info_list j ≡ some x
    → x.file_name ≢ name
no_file_named {t = t} {u = u} name rest e longer ascii valid done more before j x stored same =
    let cells = t.file_info_list in
    let i = slot e done.steps in
    let there : at (put cells i e) j ≡ some x = ap (λ c. at c j) (sym done.stores) ∙ stored in
    elim (Bool-cases (i == j)) [
      | inl here ↦
          let is : i ≡ j = (==_iff i j).0 here in
          let new : at (put cells i e) i ≡ some e =
            get_or-set_self cells i (some e) none (omega (arith, valid.width)) in
          let entry : e ≡ x = some_same (sym new ∙ ap (λ k. at (put cells i e) k) is ∙ there) in
          let name_is : name ++ rest ≡ name = sym longer ∙ ap (λ f. f.file_name) entry ∙ same in
          absurd
            (more (length_zero rest (omega (arith, ap length name_is, length-append name rest))))
      | inr other ↦
          let apart : i ≢ j = λ is. cc ((==_iff i j).1 is) in
          let old : at cells j ≡ some x =
            sym (get_or-set_ne cells i j (some e) none apart) ∙ there in
          let (y, found) = search_file_info_complete name ascii t j x valid old same in
          none_same (ok_same (sym before ∙ found))
    ]

-- If an inserted file's name goes on from an ASCII name by at least one character, and the codes
-- of the characters that it goes on by add up to a multiple of 1000, then the search for the
-- shorter name, which found nothing before, answers with that file, although no file of the table
-- has the name.
pub search_file_info_confuses :
    {t u : FileTable} (name rest : Text) (e : FileInfo)
    → e.file_name ≡ name ++ rest
    → IsAscii name
    → total rest % 1000 ≡ 0
    → IsValid t
    → Inserted t e u
    → rest ≢ []
    → search_file_info name t.file_info_list ≡ ok none
    → (j : ℕ) (x : FileInfo) → at u.file_info_list j ≡ some x
    → (search_file_info name u.file_info_list ≡ ok (some e)) × (x.file_name ≢ name)
unfolding home
search_file_info_confuses {t = t} {u = u} name rest e longer ascii turn valid done more before j x
      stored =
    (
      search_file_info-insert_prefix name ascii e done valid.width
          (rw longer (omega (arith, total-append name rest)))
          (rw longer (strncmp_eq-append name rest)) before,
      no_file_named {t = t} {u = u} name rest e longer ascii valid done more before j x stored,
    )

-- The search for a name of bytes that all lie outside ASCII accesses memory outside the array,
-- unless the distances of its bytes from 256 add up to a multiple of 1000.
pub search_file_info_high :
    (name : Text) (cells : Cells)
    → IsHigh name
    → deficit name % 1000 ≢ 0
    → search_file_info name cells ≡ fault
unfolding search_file_info search_within
search_file_info_high name cells high off = rw (hash_function-high name high off)
