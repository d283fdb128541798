-- ===== src/Directory/Operations.antt =====
-- code/filesys/directory.cc: the public operations against the map from names to sectors.
use nachos_system_design.Base.{
  ℕ, ◌≤◌, ◌≡◌, ◌≢◌, ◌∙◌, Bool, true, false, none, some, List, [], ◌∷◌, if◌then◌else◌, inl, inr,
  arith, All, length, Option-cases,
}
use nachos_system_design.CString.{strncmp_eq}
use nachos_system_design.Directory.{
  Directory, DirectoryEntry, file_name_max_len, new, find_index_from, find_index, find, fill_free,
  add, remove,
}
use nachos_system_design.Directory.Lookup.{
  lookup, find-lookup, IsUnique, lookup-fill_free, fill_free-IsUnique, lookup-dropped,
  dropped-IsUnique, dropped, mark_unused-IsUnique, lookup-mark_unused,
}

abbrev pub IsValid : Directory → Type 0
IsValid d = IsUnique d.table

-- A new directory is valid and finds no name, whatever its memory held in name arrays of nine
-- characters or more.
pub new-find :
    (memory : List DirectoryEntry)
    → All (λ e. file_name_max_len ≤ length e.name) memory
    → IsValid (new memory) × ((name : List ℕ) → find (new memory) name ≡ none)
unfolding new
new-find memory h = (
  mark_unused-IsUnique memory h,
  λ name. find-lookup (new memory) name ∙ lookup-mark_unused memory name,
)

fill_free-eq-none :
    (es : List DirectoryEntry) (name : List ℕ) (k : ℕ)
    → fill_free es name k ≡ none
    → All (λ e. e.in_use ≡ true) es
unfolding fill_free
fill_free-eq-none [] name k h = tt
fill_free-eq-none (e ∷ es) name k h = ground (arith, fill_free-eq-none es name k)

-- What `Add` of a name and a sector does to a directory.
pub data Adds (d : Directory) (name : List ℕ) (k : ℕ) : Directory × Bool → Type 0 where
  taken : find d name ≢ none → Adds d name k (d, false)
  no_space : All (λ e. e.in_use ≡ true) d.table → Adds d name k (d, false)
  added :
      (d' : Directory)
      → find d name ≡ none
      → IsValid d'
      → ((t : List ℕ)
          → find d' t ≡ (if strncmp_eq file_name_max_len name t then some k else find d t))
      → Adds d name k (d', true)

-- What `Remove` of a name does to a directory.
pub data Removes (d : Directory) (name : List ℕ) : Directory × Bool → Type 0 where
  missing : find d name ≡ none → Removes d name (d, false)
  removed :
      (d' : Directory)
      → find d name ≢ none
      → IsValid d'
      → ((t : List ℕ)
          → find d' t ≡ (if strncmp_eq file_name_max_len name t then none else find d t))
      → Removes d name (d', true)

module _ (d : Directory) (v : IsValid d) (name : List ℕ) where
  present_find : (i : ℕ) → find_index d name ≡ some i → find d name ≢ none
  unfolding find
  present_find i h e = ground (arith, h)

  absent_lookup : find_index d name ≡ none → lookup d.table name ≡ none
  absent_lookup h = rw (← find-lookup d name) (unfold find in rw h)

  -- On a valid directory `Add` refuses a name that is there, or a full table, and changes nothing
  -- then; otherwise it keeps the directory valid, the name and those that share its first nine
  -- characters lead to the sector, and every other name leads where it led.
  pub add-Adds : (k : ℕ) → Adds d name k (add d name k)
  unfolding add
  add-Adds k = elim (Option-cases (find_index d name)) [
    | inr (i, there) ↦ rw (there, add) (taken (present_find i there))
    | inl absent ↦ elim (Option-cases (fill_free d.table name k)) [
      | inl full ↦ rw (absent, full, add) (no_space (fill_free-eq-none d.table name k full))
      | inr (es, got) ↦
          let gone = absent_lookup absent in
          rw (absent, got, add)
            (added (record { table = es }) (find-lookup d name ∙ gone)
              (fill_free-IsUnique name k d.table es v gone got)
              (λ t.
                find-lookup _ t
                ∙ rw (find-lookup d t) (lookup-fill_free name k d.table es t v gone got)))
    ]
  ]

  -- On a valid directory `Remove` refuses a name that is not there and changes nothing then;
  -- otherwise it keeps the directory valid, the name and those that share its first nine characters
  -- lead nowhere, and every other name leads where it led.
  pub remove-Removes : Removes d name (remove d name)
  unfolding remove
  remove-Removes = elim (Option-cases (find_index d name)) [
    | inl absent ↦ rw (absent, remove) (missing (find-lookup d name ∙ absent_lookup absent))
    | inr (i, there) ↦
        let at : find_index_from 0 d.table name ≡ some i = unfold find_index in there in
        rw (there, remove)
          (removed (record { table = dropped d.table i }) (present_find i there)
            (dropped-IsUnique name d.table i v at)
            (λ t. find-lookup _ t ∙ rw (find-lookup d t) (lookup-dropped name d.table i t v at)))
  ]
