-- ===== src/Directory.antt =====
-- code/filesys/directory.cc of the distributed file system project: the table of file names.
pub mod Lookup
pub mod Operations
use mathlib.Core.Option
use nachos_system_design.Base.{
  ℕ, zero, suc, Bool, true, false, not, ◌&&◌, Option, none, some, List, [], ◌∷◌, if◌then◌else◌,
  get_or, set,
}
use nachos_system_design.CString.{strncmp_eq, strncpy}

abbrev pub file_name_max_len : ℕ
file_name_max_len = 9

-- `name` is the array of ten characters.
pub record DirectoryEntry : Type 0 where
  pub in_use : Bool
  pub sector : ℕ
  pub name : List ℕ

-- `tableSize` is the length of the table.
pub record Directory : Type 0 where
  pub table : List DirectoryEntry

-- What a read past the table would give; no operation makes one.
abbrev pub blank : DirectoryEntry
blank = record { in_use = false; sector = 0; name = [] }

unfoldable pub mark_unused : List DirectoryEntry → List DirectoryEntry
mark_unused [] = []
mark_unused (e ∷ es) = record e { in_use = false } ∷ mark_unused es

-- `memory` is what `new DirectoryEntry[size]` allocates: its names and sectors are arbitrary.
unfoldable pub new : List DirectoryEntry → Directory
unfolding mark_unused
new memory = record { table = mark_unused memory }

unfoldable pub matches : DirectoryEntry → List ℕ → Bool
matches e name = e.in_use && strncmp_eq file_name_max_len e.name name

unfoldable pub find_index_from : ℕ → List DirectoryEntry → List ℕ → Option ℕ
unfolding matches
find_index_from i [] name = none
find_index_from i (e ∷ es) name = if matches e name then some i else find_index_from (suc i) es name

-- `none` is the return value -1, here and in `find`.
unfoldable pub find_index : Directory → List ℕ → Option ℕ
unfolding find_index_from
find_index d name = find_index_from 0 d.table name

unfoldable pub find : Directory → List ℕ → Option ℕ
unfolding find_index
find d name = Option.map (λ i. (get_or d.table i blank).sector) (find_index d name)

-- The loop of `Add`: the first free entry takes the name; `none` if there is none.
unfoldable pub fill_free : List DirectoryEntry → List ℕ → ℕ → Option (List DirectoryEntry)
fill_free [] name new_sector = none
fill_free (e ∷ es) name new_sector =
    if not e.in_use
    then some (
        record { in_use = true; sector = new_sector; name = strncpy file_name_max_len e.name name }
        ∷ es)
    else Option.map (λ t. e ∷ t) (fill_free es name new_sector)

abbrev filled : Directory → Option (List DirectoryEntry) → Directory × Bool
filled d none = (d, false)
filled d (some t) = (record { table = t }, true)

unfoldable pub add : Directory → List ℕ → ℕ → Directory × Bool
unfolding find_index fill_free
add d name new_sector = elim (find_index d name) [
  | some i ↦ (d, false)
  | none ↦ filled d (fill_free d.table name new_sector)
]

unfoldable pub remove : Directory → List ℕ → Directory × Bool
unfolding find_index
remove d name = elim (find_index d name) [
  | none ↦ (d, false)
  | some i ↦
      (record { table = set d.table i (record (get_or d.table i blank) { in_use = false }) }, true)
]

unfoldable pub list_from : List DirectoryEntry → List (List ℕ)
list_from [] = []
list_from (e ∷ es) = if e.in_use then e.name ∷ list_from es else list_from es

-- The name arrays that `List` hands to `printf`, in order.
unfoldable pub list : Directory → List (List ℕ)
unfolding list_from
list d = list_from d.table
