-- ===== src/Super/Table.antt =====
-- The open-addressing table of shared files: p4/src/super_lib.c, lines 3 to 56.
-- A `char` is signed, as on x86 and x86-64 with gcc. A stored entry is never changed or freed, so
-- a cell holds the entry itself instead of a pointer to it.
pub mod Home
pub mod Probe
pub mod Insert
pub mod Scan
pub mod Search
pub mod Sound
use net_prog.Prelude.{
  ℕ, zero, suc, ◌+◌, ◌%◌, Bool, true, false, ◌&&◌, Option, none, some, List, [], ◌∷◌, ltb, ◌==◌,
  if◌then◌else◌, get_or, set, replicate,
}
use net_prog.Prelude.Int.{ℤ, pos, negsuc, sub_ℕ, ◌+ℤ◌, rem}
use net_prog.Run.{Run, ok, fault, out_of_fuel, ◌>>=◌}

-- A C string, without its terminating NUL.
abbrev pub Text : Type 0
Text = List ℕ

abbrev pub hash_table_size : ℕ
hash_table_size = 1000

pub record FileInfo : Type 0 where
  pub file_name : Text
  pub file_size : ℕ
  pub ip_addr : Text
  pub port_num : ℕ

pub record FileTable : Type 0 where
  pub len : ℕ
  pub file_info_list : List (Option FileInfo)

unfoldable pub init_file_info_table : FileTable
init_file_info_table = record { len = 0; file_info_list = replicate hash_table_size none }

-- The value of a byte that is read through a `char`.
unfoldable pub char_value : ℕ → ℤ
char_value c = if ltb c 128 then pos c else sub_ℕ c 256

unfoldable pub sum_chars : ℤ → Text → ℤ
unfolding char_value ◌+ℤ◌
sum_chars sum [] = sum
sum_chars sum (c ∷ key) = sum_chars (sum +ℤ char_value c) key

-- The sum of a name that fits in memory does not overflow an `int` before 2 ^ 24 characters.
unfoldable pub hash_function : Text → ℤ
unfolding sum_chars rem
hash_function key = rem (sum_chars (pos 0) key) hash_table_size

-- A negative index reads and writes outside the array.
unfoldable pub cell_index : ℤ → Run ℕ
cell_index (pos i) = ok i
cell_index (negsuc i) = fault

-- The loop over occupied cells; the answer is the first empty one.
unfoldable pub free_slot : ℕ → ℕ → List (Option FileInfo) → Run ℕ
free_slot zero index cells = out_of_fuel
free_slot (suc fuel) index cells = elim (get_or cells index none) [
  | none ↦ ok index
  | some e ↦ free_slot fuel ((index + 1) % hash_table_size) cells
]

-- The status is -1 if there is no room, and 0 otherwise.
unfoldable pub insert_file_info : FileInfo → FileTable → Run (ℤ × FileTable)
insert_file_info info table = if table.len == hash_table_size then ok (negsuc 0, table) else do
  hash ← cell_index (hash_function info.file_name)
  index ← free_slot hash_table_size hash table.file_info_list
  ok (
    pos 0,
    record { len = table.len + 1; file_info_list = set table.file_info_list index (some info) },
  )

-- `strncmp(stored, key, strlen(key)) == 0`: only the first `strlen(key)` characters are compared.
unfoldable pub strncmp_eq : Text → Text → Bool
strncmp_eq stored [] = true
strncmp_eq [] (k ∷ key) = false
strncmp_eq (c ∷ stored) (k ∷ key) = c == k && strncmp_eq stored key

unfoldable pub search_loop : ℕ → ℕ → Text → List (Option FileInfo) → Run (Option FileInfo)
search_loop zero index name cells = out_of_fuel
search_loop (suc fuel) index name cells = elim (get_or cells index none) [
  | none ↦ ok none
  | some e ↦ elim (strncmp_eq e.file_name name) [
    | true ↦ ok (some e)
    | false ↦ search_loop fuel ((index + 1) % hash_table_size) name cells
  ]
]

-- The source's loop has no bound; `fuel` rounds are granted here.
unfoldable pub search_within : ℕ → Text → List (Option FileInfo) → Run (Option FileInfo)
search_within fuel name cells = do
  hash ← cell_index (hash_function name)
  search_loop fuel hash name cells

-- One round for each cell suffices in a table that is not full.
unfoldable pub search_file_info : Text → List (Option FileInfo) → Run (Option FileInfo)
unfolding search_within
search_file_info = search_within hash_table_size
