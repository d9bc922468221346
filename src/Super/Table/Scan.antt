-- ===== src/Super/Table/Scan.antt =====
-- The loop of a search, from a cell on: the `while` of `searchFileInfo` in p4/src/super_lib.c.
use net_prog.Prelude.{
  ℕ, zero, suc, ◌+◌, ◌%◌, ◌<◌, ◌≡◌, refl, sym, ◌∙◌, inl, inr, Option, none, some, [], ◌∷◌, ◌++◌,
  arith, length, true, false, ◌==◌, ==_iff, ==_refl, Option-cases, Bool-cases, get_or-set_self,
}
use net_prog.Run.{Run, ok, out_of_fuel, Returns}
use net_prog.Super.Table.{Text, FileInfo, strncmp_eq, search_loop}
use net_prog.Super.Table.Probe.{Cells, at, Busy, shift}
use net_prog.Super.Table.Insert.{put, at-put}

-- What the comparison of the source decides: the wanted name is a prefix of the stored one.
abbrev pub Extends : Text → Text → Type 0
Extends stored name = (rest : Text) × (stored ≡ name ++ rest)

pub strncmp_eq-Extends : (stored name : Text) → strncmp_eq stored name ≡ true → Extends stored name
unfolding strncmp_eq
strncmp_eq-Extends stored [] h = (stored, refl)
strncmp_eq-Extends [] (k ∷ name) h = cc
strncmp_eq-Extends (c ∷ stored) (k ∷ name) h =
    let parts : ((c == k) ≡ true) × (strncmp_eq stored name ≡ true) = ground arith in
    let (rest, e) = strncmp_eq-Extends stored name parts.1 in
    let same : c ≡ k = (==_iff c k).0 parts.0 in (rest, cc)

pub strncmp_eq-append : (name rest : Text) → strncmp_eq (name ++ rest) name ≡ true
unfolding strncmp_eq
strncmp_eq-append [] rest = refl
strncmp_eq-append (c ∷ name) rest = rw (==_refl c) (strncmp_eq-append name rest)

pub strncmp_eq_refl : (name : Text) → strncmp_eq name name ≡ true
unfolding strncmp_eq
strncmp_eq_refl [] = refl
strncmp_eq_refl (c ∷ name) = rw (==_refl c) (strncmp_eq_refl name)

-- An answer of a search: an entry of the table whose name extends the wanted one.
abbrev pub IsAnswer : Text → Cells → Option FileInfo → Type 0
IsAnswer name cells none = Unit
IsAnswer name cells (some e) = ((j : ℕ) × (at cells j ≡ some e)) × Extends e.file_name name

one_answer : {r : Run (Option FileInfo)} {e : FileInfo} → r ≡ ok none → r ≡ ok (some e) → ⊥
one_answer h k = cc

module _ (name : Text) (cells : Cells) where
  search_loop-empty :
      (fuel i : ℕ) → at cells i ≡ none → search_loop (suc fuel) i name cells ≡ ok none
  unfolding search_loop
  search_loop-empty fuel i empty = rw (empty, search_loop)

  search_loop-hit :
      (fuel i : ℕ) (e : FileInfo)
      → at cells i ≡ some e
      → strncmp_eq e.file_name name ≡ true
      → search_loop (suc fuel) i name cells ≡ ok (some e)
  unfolding search_loop
  search_loop-hit fuel i e used hit = rw (used, search_loop, hit)

  search_loop-miss :
      (fuel i : ℕ) (e : FileInfo)
      → at cells i ≡ some e
      → strncmp_eq e.file_name name ≡ false
      → search_loop (suc fuel) i name cells ≡ search_loop fuel ((i + 1) % 1000) name cells
  unfolding search_loop
  search_loop-miss fuel i e used miss = rw (used, search_loop, miss)

  -- With a round for each cell up to an empty one the loop ends, and its answer is right.
  pub search_loop-Returns :
      (fuel d i : ℕ)
      → d < fuel
      → i < 1000
      → at cells ((i + d) % 1000) ≡ none
      → Returns (search_loop fuel i name cells) (IsAnswer name cells)
  search_loop-Returns zero d i h lt e = absurd (omega arith)
  search_loop-Returns (suc fuel) zero i h lt e =
      let here : (i + 0) % 1000 ≡ i = omega arith in
      (none, search_loop-empty fuel i (rw here at e), tt)
  search_loop-Returns (suc fuel) (suc d) i h lt e = elim (Option-cases (at cells i)) [
    | inl empty ↦ (none, search_loop-empty fuel i empty, tt)
    | inr (x, used) ↦ elim (Bool-cases (strncmp_eq x.file_name name)) [
      | inl hit ↦ (
        some x,
        search_loop-hit fuel i x used hit,
        ((i, used), strncmp_eq-Extends x.file_name name hit),
      )
      | inr miss ↦ rw (search_loop-miss fuel i x used miss) (
          search_loop-Returns fuel d ((i + 1) % 1000) (omega arith) (omega arith)
            (rw (shift i d) e))
    ]
  ]

  -- An entry at the end of a path in use is found, or a match before it.
  pub search_loop-finds :
      (fuel k i : ℕ) (e : FileInfo)
      → k < fuel
      → i < 1000
      → at cells ((i + k) % 1000) ≡ some e
      → strncmp_eq e.file_name name ≡ true
      → Busy cells i k
      → (x : FileInfo) × (search_loop fuel i name cells ≡ ok (some x))
  search_loop-finds zero k i e h lt stored match busy = absurd (omega arith)
  search_loop-finds (suc fuel) zero i e h lt stored match busy =
      let here : (i + 0) % 1000 ≡ i = omega arith in
      (e, search_loop-hit fuel i e (rw here at stored) match)
  search_loop-finds (suc fuel) (suc k) i e h lt stored match busy =
      let here : (i + 0) % 1000 ≡ i = omega arith in
      elim (Option-cases (at cells i)) [
        | inl empty ↦ absurd (busy 0 (omega arith) (rw here empty))
        | inr (x, used) ↦ elim (Bool-cases (strncmp_eq x.file_name name)) [
          | inl hit ↦ (x, search_loop-hit fuel i x used hit)
          | inr miss ↦ rw (search_loop-miss fuel i x used miss) (
              search_loop-finds fuel k ((i + 1) % 1000) e (omega arith) (omega arith)
                (rw (shift i k) stored) match
                (λ m less. rw (shift i m) (busy (suc m) (omega arith))))
        ]
      ]

  module _ (s : ℕ) (new : FileInfo) (empty : at cells s ≡ none) where
    -- A write into an empty cell does not change an answer that was an entry.
    pub search_loop-keeps :
        (fuel i : ℕ) (e : FileInfo)
        → search_loop fuel i name cells ≡ ok (some e)
        → search_loop fuel i name (put cells s new) ≡ ok (some e)
    unfolding search_loop
    search_loop-keeps zero i e h = cc
    search_loop-keeps (suc fuel) i e h = elim (Option-cases (at cells i)) [
      | inl none_here ↦ absurd (one_answer (search_loop-empty fuel i none_here) h)
      | inr (x, used) ↦
          let used' = at-put cells s i new x empty used in
          elim (Bool-cases (strncmp_eq x.file_name name)) [
            | inl hit ↦ rw (used', search_loop, hit) (sym (search_loop-hit fuel i x used hit) ∙ h)
            | inr miss ↦
                rw (used', search_loop, miss)
                  (search_loop-keeps fuel ((i + 1) % 1000) e
                    (sym (search_loop-miss fuel i x used miss) ∙ h))
          ]
    ]

  -- A probe that found nothing finds what is then stored in the first empty cell of its path.
  pub search_loop-put :
      (fuel k i : ℕ) (e : FileInfo)
      → k < fuel
      → i < 1000
      → length cells ≡ 1000
      → at cells ((i + k) % 1000) ≡ none
      → Busy cells i k
      → strncmp_eq e.file_name name ≡ true
      → search_loop fuel i name cells ≡ ok none
      → search_loop fuel i name (put cells ((i + k) % 1000) e) ≡ ok (some e)
  unfolding search_loop
  search_loop-put zero k i e h lt width empty busy match before = absurd (omega arith)
  search_loop-put (suc fuel) zero i e h lt width empty busy match before =
      let here : (i + 0) % 1000 ≡ i = omega arith in
      rw (here, get_or-set_self cells i (some e) none (omega arith), search_loop, match)
  search_loop-put (suc fuel) (suc k) i e h lt width empty busy match before =
      let here : (i + 0) % 1000 ≡ i = omega arith in
      elim (Option-cases (at cells i)) [
        | inl none_here ↦ absurd (busy 0 (omega arith) (rw here none_here))
        | inr (x, used) ↦
            let used' = at-put cells ((i + suc k) % 1000) i e x empty used in
            elim (Bool-cases (strncmp_eq x.file_name name)) [
              | inl hit ↦ absurd (one_answer before (search_loop-hit fuel i x used hit))
              | inr miss ↦
                  rw (used', search_loop, miss, ← shift i k)
                    (search_loop-put fuel k ((i + 1) % 1000) e (omega arith) (omega arith) width
                      (rw (shift i k) empty) (λ m less. rw (shift i m) (busy (suc m) (omega arith)))
                      match (sym (search_loop-miss fuel i x used miss) ∙ before))
            ]
      ]

  -- In a table with no empty cell and no match the loop never ends.
  pub search_loop-runs_on :
      (fuel i : ℕ)
      → ((j : ℕ)
          → j < 1000
          → (e : FileInfo) × (at cells j ≡ some e) × (strncmp_eq e.file_name name ≡ false))
      → i < 1000
      → search_loop fuel i name cells ≡ out_of_fuel
  unfolding search_loop
  search_loop-runs_on zero i full lt = refl
  search_loop-runs_on (suc fuel) i full lt =
      let (e, used, miss) = full i lt in
      search_loop-miss fuel i e used miss
      ∙ search_loop-runs_on fuel ((i + 1) % 1000) full (omega arith)
