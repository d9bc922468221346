-- ===== src/Tests/Table.antt =====
-- The table of shared files, on tables with few entries and on full ones.
use net_prog.Prelude.{
  ℕ, ◌+◌, ◌<◌, ◌≡◌, refl, false, none, some, Option, [], ◌∷◌, ◌++◌, arith, replicate,
  get_or-get_elem?, get_or-set_self, ap, ◌∙◌, ◌≢◌, get_elem?-replicate,
}
use net_prog.Prelude.Int.{pos}
use net_prog.Run.{ok, fault, Returns}
use net_prog.Super.Table.{
  Text, FileInfo, FileTable, init_file_info_table, hash_function, insert_file_info, strncmp_eq,
  search_within, search_file_info,
}
use net_prog.Super.Table.Home.{IsAscii}
use net_prog.Super.Table.Insert.{Inserted, slot, insert_file_info-Inserted}
use net_prog.Super.Table.Probe.{Cells, at, init-IsValid}
use net_prog.Super.Table.Scan.{IsAnswer}
use net_prog.Super.Table.Search.{
  search_file_info-Returns, search_file_info_complete, search_file_info-insert,
  search_file_info_confuses, search_file_info_high,
}
use net_prog.Super.Request.Files.{insert_all}
use net_prog.Super.Request.Stored.{AllInserted, insert_all-AllInserted}

abbrev pub text_a : Text
text_a = 97 ∷ []

abbrev text_b : Text
text_b = 98 ∷ []

-- Ten letters whose codes add up to 1000.
abbrev ten_d : Text
ten_d = 100 ∷ 100 ∷ 100 ∷ 100 ∷ 100 ∷ 100 ∷ 100 ∷ 100 ∷ 100 ∷ 100 ∷ []

abbrev pub file : Text → FileInfo
file name = record { file_name = name; file_size = 5; ip_addr = 49 ∷ []; port_num = 4000 }

abbrev pub empty : FileTable
empty = init_file_info_table

empty-len : empty.len ≡ 0
unfolding init_file_info_table
empty-len = refl

pub room : empty.len < 1000
unfolding init_file_info_table
room = omega arith

pub text_a-IsAscii : IsAscii text_a
text_a-IsAscii = (omega arith, tt)

text_b-IsAscii : IsAscii text_b
text_b-IsAscii = (omega arith, tt)

longer-IsAscii : IsAscii (text_a ++ ten_d)
longer-IsAscii = (
  omega arith,
  (
    omega arith,
    (
      omega arith,
      (
        omega arith,
        (
          omega arith,
          (
            omega arith,
            (omega arith, (omega arith, (omega arith, (omega arith, (omega arith, tt))))),
          ),
        ),
      ),
    ),
  ),
)

insert_file_info-Inserted_example :
    Returns
      (insert_file_info (file text_a) empty)
      λ r. (r.0 ≡ pos 0) × Inserted empty (file text_a) r.1
insert_file_info-Inserted_example =
    insert_file_info-Inserted empty (file text_a) init-IsValid text_a-IsAscii room

pub with_a :
    Returns
      (insert_file_info (file text_a) empty)
      λ r. (r.0 ≡ pos 0) × Inserted empty (file text_a) r.1
with_a = insert_file_info-Inserted empty (file text_a) init-IsValid text_a-IsAscii room

abbrev pub table_a : FileTable
table_a = with_a.0.1

pub stored_a : at table_a.file_info_list (slot (file text_a) with_a.2.1.steps) ≡ some (file text_a)
stored_a =
    let i = slot (file text_a) with_a.2.1.steps in
    ap (λ c. at c i) with_a.2.1.stores
    ∙ get_or-set_self empty.file_info_list i (some (file text_a)) none
        (omega (arith, (init-IsValid).width))

with_ad :
    Returns
      (insert_file_info (file (text_a ++ ten_d)) empty)
      λ r. (r.0 ≡ pos 0) × Inserted empty (file (text_a ++ ten_d)) r.1
with_ad = insert_file_info-Inserted empty (file (text_a ++ ten_d)) init-IsValid longer-IsAscii room

abbrev table_ad : FileTable
table_ad = with_ad.0.1

pub not_yet_a : search_file_info text_a empty.file_info_list ≡ ok none
unfolding search_file_info search_within hash_function init_file_info_table
    net_prog.Super.Table.cell_index net_prog.Super.Table.search_loop
not_yet_a = refl

search_file_info-insert_example :
    search_file_info text_a table_a.file_info_list ≡ ok (some (file text_a))
search_file_info-insert_example =
    search_file_info-insert {t = empty} {u = table_a} (file text_a) text_a-IsAscii init-IsValid
      with_a.2.1 not_yet_a

pub found_a : search_file_info text_a table_a.file_info_list ≡ ok (some (file text_a))
found_a =
    search_file_info-insert {t = empty} {u = table_a} (file text_a) text_a-IsAscii init-IsValid
      with_a.2.1 not_yet_a

search_file_info-Returns_example :
    Returns (search_file_info text_a empty.file_info_list) (IsAnswer text_a empty.file_info_list)
search_file_info-Returns_example =
    search_file_info-Returns text_a text_a-IsAscii empty init-IsValid room

-- A table that holds `a` and `b`.
with_ab :
    Returns
      (insert_all (file text_a ∷ file text_b ∷ []) empty)
      (AllInserted empty (file text_a ∷ file text_b ∷ []))
with_ab =
    insert_all-AllInserted (file text_a ∷ file text_b ∷ []) empty init-IsValid
      (omega (arith, empty-len)) (text_a-IsAscii, (text_b-IsAscii, tt))

search_file_info_complete_example :
    (x : FileInfo) × (search_file_info text_b with_ab.0.file_info_list ≡ ok (some x))
search_file_info_complete_example =
    search_file_info_complete text_b text_b-IsAscii with_ab.0 with_ab.2.stored.1.0.0 (file text_b)
      with_ab.2.valid with_ab.2.stored.1.0.1 refl

room_a : table_a.len < 1000
room_a = let n : table_a.len ≡ empty.len + 1 = with_a.2.1.grows in omega (arith, empty-len)

with_b :
    Returns
      (insert_file_info (file text_b) table_a)
      λ r. (r.0 ≡ pos 0) × Inserted table_a (file text_b) r.1
with_b = insert_file_info-Inserted table_a (file text_b) with_a.2.1.valid text_b-IsAscii room_a

abbrev table_b : FileTable
table_b = with_b.0.1

stored_ad :
    at table_ad.file_info_list (slot (file (text_a ++ ten_d)) with_ad.2.1.steps)
    ≡ some (file (text_a ++ ten_d))
stored_ad =
    let i = slot (file (text_a ++ ten_d)) with_ad.2.1.steps in
    ap (λ c. at c i) with_ad.2.1.stores
    ∙ get_or-set_self empty.file_info_list i (some (file (text_a ++ ten_d))) none
        (omega (arith, (init-IsValid).width))

search_file_info_confuses_example :
    (search_file_info text_a table_ad.file_info_list ≡ ok (some (file (text_a ++ ten_d))))
    × ((file (text_a ++ ten_d)).file_name ≢ text_a)
search_file_info_confuses_example =
    search_file_info_confuses {t = empty} {u = table_ad} text_a ten_d (file (text_a ++ ten_d)) refl
      text_a-IsAscii refl init-IsValid with_ad.2.1 (λ e. cc) not_yet_a
      (slot (file (text_a ++ ten_d)) with_ad.2.1.steps) (file (text_a ++ ten_d)) stored_ad

abbrev all_b : Cells
all_b = replicate 1000 (some (file text_b))

all_full :
    (j : ℕ)
    → j < 1000
    → (e : FileInfo) × (at all_b j ≡ some e) × (strncmp_eq e.file_name text_a ≡ false)
unfolding strncmp_eq
all_full j lt = (
  file text_b,
  get_or-get_elem? all_b j (some (file text_b)) none
      (get_elem?-replicate {A = Option FileInfo} 1000 j (some (file text_b)) lt),
  refl,
)

search_file_info_high_example : search_file_info (200 ∷ 201 ∷ []) empty.file_info_list ≡ fault
search_file_info_high_example =
    search_file_info_high (200 ∷ 201 ∷ []) empty.file_info_list
      (omega arith, omega arith, (omega arith, omega arith, tt)) (omega arith)
