-- ===== src/Tests/Volumes.antt =====
-- code/filesys/filesys.cc at an empty directory and a map of 128 sectors, of which two are in use.
use nachos_system_design.Base.{
  ℕ, ◌≡◌, refl, true, false, none, List, [], ◌∷◌, All, arith, replicate, Returns,
}
use nachos_system_design.Bitmap.{Bitmap}
use nachos_system_design.Bitmap.Bits.{IsValid, is_marked}
use nachos_system_design.Bitmap.Search.{clears}
use nachos_system_design.Base.Bits.{bit}
use nachos_system_design.Directory.{Directory, DirectoryEntry, new, mark_unused, find, blank}
use nachos_system_design.Directory.Operations.{new-find}
use nachos_system_design.Directory.Operations
use nachos_system_design.FileHeader.{FileHeader, minus_one}
use nachos_system_design.FileHeader.Image.{IsHeader}
use nachos_system_design.FileSystem.{FileSystem, create, remove_file}
use nachos_system_design.FileSystem.RoundTrip.{create-remove_file}

abbrev free_map : Bitmap
free_map = record { num_bits = 128; num_words = 4; map = 3 ∷ 0 ∷ 0 ∷ 0 ∷ [] }

free_map-IsValid : IsValid free_map
free_map-IsValid = record {
  nonempty = omega arith;
  counted = refl;
  sized = refl;
  words = omega arith;
}

free_map-clears : clears 128 (is_marked free_map) ≡ 126
unfolding clears is_marked bit
free_map-clears = refl

abbrev entry : DirectoryEntry
entry = record blank { name = replicate 10 0 }

abbrev directory : Directory
directory = new (entry ∷ entry ∷ [])

abbrev volume : FileSystem
volume = record { directory = directory; free_map = free_map; disk = λ s. [] }

abbrev fresh : FileHeader
fresh = record {
  num_bytes = 0;
  num_sectors = 0;
  data_sectors = replicate 29 7;
  doubly_indirect_sector = minus_one;
}

fresh-IsHeader : IsHeader fresh
fresh-IsHeader = record {
  table = refl;
  bytes_lt = omega arith;
  sectors_lt = omega arith;
  entries_lt = omega arith;
  doubly_lt = omega arith;
}

directory-IsValid : Operations.IsValid directory
directory-IsValid = (new-find (entry ∷ entry ∷ []) (omega arith)).0

-- "data"
abbrev data_name : List ℕ
data_name = 100 ∷ 97 ∷ 116 ∷ 97 ∷ []

absent : find directory data_name ≡ none
absent = (new-find (entry ∷ entry ∷ []) (omega arith)).1 data_name

has_room : ¬ All (λ e. e.in_use ≡ true) directory.table
unfolding new mark_unused
has_room h = false_ne_true h.0
  where
    false_ne_true : ¬ (false ≡ true)
    false_ne_true e = cc

create-remove_file_example : Returns (create fresh volume data_name 1000) λ r.
    (r.0 ≡ true)
    × Returns (remove_file r.1 data_name) λ q.
      (q.0 ≡ true)
      × IsValid q.1.free_map
      × ((j : ℕ) → is_marked q.1.free_map j ≡ is_marked free_map j)
      × ((t : List ℕ) → find q.1.directory t ≡ find directory t)
create-remove_file_example =
    create-remove_file fresh volume data_name 1000 fresh-IsHeader free_map-IsValid (omega arith)
      directory-IsValid absent has_room (omega (arith, free_map-clears)) (omega arith)
