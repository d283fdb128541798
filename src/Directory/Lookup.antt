-- ===== src/Directory/Lookup.antt =====
-- code/filesys/directory.cc as a map from names to sectors.
use mathlib.Core.Option
use nachos_system_design.Base.{
  ℕ, suc, ◌≤◌, ◌≡◌, refl, ◌∙◌, true, false, Option, none, some, List, [], ◌∷◌, if◌then◌else◌, ◌⊎◌,
  inl, inr, get_or, set, arith, All, length, Bool-cases, Option-cases,
}
use nachos_system_design.CString.{
  strncmp_eq, strncpy, strncmp_refl, strncmp_symm, strncmp_congr, strncmp-strncpy, length-strncpy,
}
use nachos_system_design.Directory.{
  Directory, DirectoryEntry, blank, file_name_max_len, mark_unused, new, matches, find_index_from,
  find, fill_free,
}

-- The sector of the first entry in use whose name matches.
pub lookup : List DirectoryEntry → List ℕ → Option ℕ
lookup [] name = none
lookup (e ∷ es) name = if matches e name then some e.sector else lookup es name

find_index_from-suc :
    (i : ℕ) (es : List DirectoryEntry) (name : List ℕ)
    → find_index_from (suc i) es name ≡ Option.map suc (find_index_from i es name)
unfolding find_index_from
find_index_from-suc i [] name = refl
find_index_from-suc i (e ∷ es) name = ground (arith, find_index_from-suc (suc i) es name)

find-lookup_from :
    (es : List DirectoryEntry) (name : List ℕ)
    → Option.map (λ i. (get_or es i blank).sector) (find_index_from 0 es name) ≡ lookup es name
unfolding find_index_from lookup
find-lookup_from [] name = refl
find-lookup_from (e ∷ es) name =
    ground (arith, find_index_from-suc 0 es name, find-lookup_from es name)

-- `Find` reads the map.
pub find-lookup : (d : Directory) (name : List ℕ) → find d name ≡ lookup d.table name
unfolding find
find-lookup d name = find-lookup_from d.table name

-- Names are arrays of at least the compared length, and no two entries in use have one name.
pub IsUnique : List DirectoryEntry → Type 0
IsUnique [] = Unit {0}
IsUnique (e ∷ es) =
    (file_name_max_len ≤ length e.name) × (e.in_use ≡ true → lookup es e.name ≡ none) × IsUnique es

pub find_index-eq-none :
    (es : List DirectoryEntry) (name : List ℕ)
    → lookup es name ≡ none
    → find_index_from 0 es name ≡ none
unfolding find_index_from lookup
find_index-eq-none [] name h = refl
find_index-eq-none (e ∷ es) name h =
    ground (arith, find_index_from-suc 0 es name, find_index-eq-none es name)

matches-congr :
    (e : DirectoryEntry) (s t : List ℕ)
    → strncmp_eq file_name_max_len s t ≡ true
    → matches e s ≡ matches e t
unfolding matches
matches-congr e s t h =
    ground (arith, strncmp_symm 9 e.name s, strncmp_symm 9 e.name t, strncmp_congr 9 s t e.name h)

pub lookup-congr :
    (es : List DirectoryEntry) (s t : List ℕ)
    → strncmp_eq file_name_max_len s t ≡ true
    → lookup es s ≡ lookup es t
unfolding lookup
lookup-congr [] s t h = refl
lookup-congr (e ∷ es) s t h = ground (arith, matches-congr e s t h, lookup-congr es s t h)

-- The entry that `Add` writes over a free one.
abbrev entry_for : DirectoryEntry → List ℕ → ℕ → DirectoryEntry
entry_for e name k = record {
  in_use = true;
  sector = k;
  name = strncpy file_name_max_len e.name name;
}

fill_free-cons :
    (x : DirectoryEntry) (es es' : List DirectoryEntry) (name : List ℕ) (k : ℕ)
    → fill_free (x ∷ es) name k ≡ some es'
    → ((x.in_use ≡ false) × (es' ≡ entry_for x name k ∷ es))
      ⊎ ((x.in_use ≡ true)
          × ((r : List DirectoryEntry) × (fill_free es name k ≡ some r) × (es' ≡ x ∷ r)))
unfolding fill_free
fill_free-cons x es es' name k e = elim (Bool-cases x.in_use) [
  | inl used ↦ elim (Option-cases (fill_free es name k)) [
    | inl gone ↦ absurd (ground arith)
    | inr (r, got) ↦ inr (used, (r, got, ground arith))
  ]
  | inr unused ↦ inl (unused, ground arith)
]

-- A filled table, where the name was absent.
module _ (name : List ℕ) (k : ℕ) where
  pub lookup-fill_free :
      (es es' : List DirectoryEntry) (t : List ℕ)
      → IsUnique es
      → lookup es name ≡ none
      → fill_free es name k ≡ some es'
      → lookup es' t ≡ (if strncmp_eq file_name_max_len name t then some k else lookup es t)
  unfolding lookup fill_free IsUnique
  lookup-fill_free [] es' t u h e = cc
  lookup-fill_free (x ∷ es) es' t u h e = elim (fill_free-cons x es es' name k e) [
    | inl (unused, new) ↦
        rw new (unfold matches in ground (arith, unused, strncmp-strncpy 9 x.name name t u.0))
    | inr (used, (r, got, new)) ↦
        rw new (ground (arith, used, got, matches-congr x name t, lookup-fill_free es r t u.2))
  ]

  pub fill_free-IsUnique :
      (es es' : List DirectoryEntry)
      → IsUnique es
      → lookup es name ≡ none
      → fill_free es name k ≡ some es'
      → IsUnique es'
  unfolding lookup fill_free IsUnique
  fill_free-IsUnique [] es' u h e = cc
  fill_free-IsUnique (x ∷ es) es' u h e = elim (fill_free-cons x es es' name k e) [
    | inl (unused, new) ↦
        let same = strncmp-strncpy 9 x.name name name u.0 ∙ strncmp_refl 9 name in
        rw new (
          rw (length-strncpy 9 x.name name) u.0,
          λ _. lookup-congr es (strncpy 9 x.name name) name same ∙ ground arith,
          u.2,
        )
    | inr (used, (r, got, new)) ↦
        let absent : lookup es name ≡ none = ground arith in
        let other = lookup-fill_free es r x.name u.2 absent got in
        let apart : strncmp_eq 9 name x.name ≡ false =
          unfold matches in ground (arith, strncmp_symm 9 name x.name) in
        rw new (u.0, λ q. other ∙ rw apart (u.1 q), fill_free-IsUnique es r u.2 absent got)
  ]

find_index-cons :
    (x : DirectoryEntry) (es : List DirectoryEntry) (name : List ℕ) (i : ℕ)
    → find_index_from 0 (x ∷ es) name ≡ some i
    → ((matches x name ≡ true) × (i ≡ 0))
      ⊎ ((matches x name ≡ false) × ((k : ℕ) × (find_index_from 0 es name ≡ some k) × (i ≡ suc k)))
unfolding find_index_from
find_index-cons x es name i h = elim (Bool-cases (matches x name)) [
  | inl hit ↦ inl (hit, ground arith)
  | inr miss ↦ elim (Option-cases (find_index_from 0 es name)) [
    | inl gone ↦ absurd (ground (arith, find_index_from-suc 0 es name))
    | inr (k, got) ↦ inr (miss, (k, got, ground (arith, find_index_from-suc 0 es name)))
  ]
]

-- A table whose entry at `i` is no longer in use.
abbrev pub dropped : List DirectoryEntry → ℕ → List DirectoryEntry
dropped es i = set es i (record (get_or es i blank) { in_use = false })

module _ (name : List ℕ) where
  pub lookup-dropped :
      (es : List DirectoryEntry) (i : ℕ) (t : List ℕ)
      → IsUnique es
      → find_index_from 0 es name ≡ some i
      → lookup (dropped es i) t
        ≡ (if strncmp_eq file_name_max_len name t then none else lookup es t)
  unfolding lookup IsUnique
  lookup-dropped [] i t u h = absurd (unfold find_index_from in cc)
  lookup-dropped (x ∷ es) i t u h = elim (find_index-cons x es name i h) [
    | inl (hit, first) ↦ rw first (
        unfold matches in
        ground (
          arith,
          hit,
          lookup-congr es x.name name,
          lookup-congr es name t,
          strncmp_congr 9 x.name name t,
        ))
    | inr (miss, (k, got, later)) ↦
        rw later (ground (arith, miss, matches-congr x name t, lookup-dropped es k t u.2 got))
  ]

  pub dropped-IsUnique :
      (es : List DirectoryEntry) (i : ℕ)
      → IsUnique es
      → find_index_from 0 es name ≡ some i
      → IsUnique (dropped es i)
  unfolding IsUnique
  dropped-IsUnique [] i u h = tt
  dropped-IsUnique (x ∷ es) i u h = elim (find_index-cons x es name i h) [
    | inl (hit, first) ↦ rw first (u.0, λ q. cc, u.2)
    | inr (miss, (k, got, later)) ↦ rw later (
      u.0,
      λ q. lookup-dropped es k x.name u.2 got ∙ ground (arith, u.1 q),
      dropped-IsUnique es k u.2 got,
    )
  ]

pub mark_unused-IsUnique :
    (es : List DirectoryEntry)
    → All (λ e. file_name_max_len ≤ length e.name) es
    → IsUnique (mark_unused es)
unfolding mark_unused IsUnique
mark_unused-IsUnique [] h = tt
mark_unused-IsUnique (e ∷ es) h = (h.0, λ q. cc, mark_unused-IsUnique es h.1)

pub lookup-mark_unused :
    (es : List DirectoryEntry) (name : List ℕ) → lookup (mark_unused es) name ≡ none
unfolding mark_unused lookup matches
lookup-mark_unused [] name = refl
lookup-mark_unused (e ∷ es) name = lookup-mark_unused es name
