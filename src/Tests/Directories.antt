-- ===== src/Tests/Directories.antt =====
-- code/filesys/directory.cc at a directory of two entries.
use nachos_system_design.Base.{ℕ, ◌≡◌, refl, true, none, some, List, [], ◌∷◌, arith}
use nachos_system_design.CString.{strncmp_eq, strncpy}
use nachos_system_design.Directory.{
  Directory, DirectoryEntry, new, add, find, remove, find_index_from, find_index, fill_free,
  matches, mark_unused,
}
use nachos_system_design.Directory.Operations.{
  IsValid, Adds, new-find, add-Adds, Removes, remove-Removes,
}

-- Ten characters of garbage.
abbrev garbage : DirectoryEntry
garbage = record { in_use = true; sector = 77; name = 1 ∷ 2 ∷ 3 ∷ 4 ∷ 5 ∷ 6 ∷ 7 ∷ 8 ∷ 9 ∷ 10 ∷ [] }

abbrev empty : Directory
empty = new (garbage ∷ garbage ∷ [])

-- "data", and a name that shares no nine characters with it.
abbrev data_name : List ℕ
data_name = 100 ∷ 97 ∷ 116 ∷ 97 ∷ []

program : Unit {0}
unfolding strncmp_eq strncpy new add find remove find_index_from find_index fill_free matches
    mark_unused
program = tt

add_run : find (add empty data_name 5).0 data_name ≡ some 5
unfolding program
add_run = refl

remove_run : find (remove (add empty data_name 5).0 data_name).0 data_name ≡ none
unfolding program
remove_run = refl

empty-IsValid : IsValid empty
empty-IsValid = (new-find (garbage ∷ garbage ∷ []) (omega arith)).0

new_directory : IsValid empty × ((name : List ℕ) → find empty name ≡ none)
new_directory = new-find (garbage ∷ garbage ∷ []) (omega arith)

add-Adds_example : Adds empty data_name 5 (add empty data_name 5)
add-Adds_example = add-Adds empty empty-IsValid data_name 5

remove-Removes_example : Removes empty data_name (remove empty data_name)
remove-Removes_example = remove-Removes empty empty-IsValid data_name
