-- ===== src/Super/Request/Stored.antt =====
-- What a series of insertions into the table stores and keeps.
use net_prog.Prelude.{ℕ, ◌+◌, ◌≤◌, ◌≡◌, refl, none, some, List, [], ◌∷◌, arith, length, All}
use net_prog.Run.{Returns}
use net_prog.Super.Request.Files.{insert_all}
use net_prog.Super.Table.{FileInfo, FileTable}
use net_prog.Super.Table.Home.{IsAscii}
use net_prog.Super.Table.Insert.{slot, at-put, Inserted, insert_file_info-Inserted}
use net_prog.Super.Table.Probe.{at, IsValid}
use net_prog.Prelude.{get_or-set_self}

-- What a series of insertions did to a table.
pub record AllInserted (t : FileTable) (es : List FileInfo) (u : FileTable) : Type 0 where
  pub valid : IsValid u
  pub len : u.len ≡ t.len + length es
  pub keeps :
      (j : ℕ) (x : FileInfo) → at t.file_info_list j ≡ some x → at u.file_info_list j ≡ some x
  pub stored : All (λ e. (j : ℕ) × (at u.file_info_list j ≡ some e)) es

All-map :
    {P Q : FileInfo → Type 0} (es : List FileInfo)
    → ((e : FileInfo) → P e → Q e)
    → All P es
    → All Q es
All-map [] f h = tt
All-map (e ∷ es) f h = (f e h.0, All-map es f h.1)

Inserted-keeps :
    {t u : FileTable} (e : FileInfo) (done : Inserted t e u) (j : ℕ) (x : FileInfo)
    → at t.file_info_list j ≡ some x
    → at u.file_info_list j ≡ some x
Inserted-keeps {t} e done j x h =
    rw done.stores (at-put t.file_info_list (slot e done.steps) j e x done.was_empty h)

Inserted-stored :
    {t u : FileTable} (e : FileInfo)
    → IsValid t
    → Inserted t e u
    → (j : ℕ) × (at u.file_info_list j ≡ some e)
Inserted-stored {t} e valid done = (
  slot e done.steps,
  rw done.stores (
      get_or-set_self t.file_info_list (slot e done.steps) (some e) none
        (omega (arith, valid.width))),
)

-- Inserting a list of entries with ASCII names into a valid table with room for all of them ends
-- with a valid table that holds all of them and everything that was there before.
pub insert_all-AllInserted :
    (es : List FileInfo) (t : FileTable)
    → IsValid t
    → t.len + length es ≤ 1000
    → All (λ e. IsAscii e.file_name) es
    → Returns (insert_all es t) (AllInserted t es)
unfolding insert_all
insert_all-AllInserted [] t valid room ascii =
    (t, refl, record { valid = valid; len = omega arith; keeps = λ j x h. h; stored = tt })
insert_all-AllInserted (e ∷ es) t valid room ascii =
    let ((s, t'), run, (_, done)) = insert_file_info-Inserted t e valid ascii.0 (omega arith) in
    let (u, run', rest) =
      insert_all-AllInserted es t' done.valid (omega (arith, done.grows)) ascii.1 in
    let (j, here) = Inserted-stored e valid done in
    (
      u,
      rw run run',
      record {
        valid = rest.valid;
        len = omega (arith, rest.len, done.grows);
        keeps = λ j x h. rest.keeps j x (Inserted-keeps e done j x h);
        stored = ((j, rest.keeps j e here), rest.stored);
      },
    )
