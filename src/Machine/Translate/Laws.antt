-- ===== src/Machine/Translate/Laws.antt =====
-- code/machine/translate.cc: every way in which `Translate` ends, with a page table.
use nachos_system_design.Base.{
  ℕ, ◌+◌, ◌*◌, ◌/◌, ◌%◌, ◌≤◌, ◌<◌, ◌≡◌, ◌≢◌, refl, ap, ◌∙◌, ap₂, ◌⊎◌, inl, inr, Bool, true, false,
  not, ◌&&◌, ◌||◌, none, length, set, get_or-set, eq→==, ne→==, some, List, ◌==◌, leb,
  if◌then◌else◌, get_or, Run, ok, ◌>>=◌, arith, Bool-cases, Returns,
}
use nachos_system_design.Base.Bits.{bit_and-one, bit_and_three}
use nachos_system_design.Machine.{
  Machine, TranslationEntry, blank_entry, page_fault_exception, read_only_exception,
  bus_error_exception, address_error_exception, page_size, num_phys_pages, memory_size,
}
use nachos_system_design.Machine.Translate.{
  Translated, at, fault, Lookup, misaligned, lookup_page, store_entry, touch, access, translate,
}

-- The sizes of the loads and stores.
abbrev pub IsSize : ℕ → Type 0
IsSize size = (size ≡ 1) ⊎ (size ≡ 2) ⊎ (size ≡ 4)

misaligned-mod : (va size : ℕ) → IsSize size → misaligned va size ≡ not (va % size == 0)
unfolding misaligned
misaligned-mod va size h = ground (arith, h, bit_and-one va, bit_and_three va)

abbrev pub entry_of : List TranslationEntry → ℕ → TranslationEntry
entry_of table va = get_or table (va / page_size) blank_entry

-- The page is mapped, and the access is allowed, at an aligned address.
pub record IsMapped (table : List TranslationEntry) (n va size : ℕ) (writing : Bool) : Type 0 where
  pub aligned : va % size ≡ 0
  pub inside : va / page_size < n
  pub present : (entry_of table va).valid ≡ true
  pub allowed : ((entry_of table va).read_only && writing) ≡ false
  pub framed : (entry_of table va).physical_page < num_phys_pages

-- The entry of the page has its use bit set, and its dirty bit if the access writes; the other
-- entries and the rest of the machine are as they were.
pub record Marks (m : Machine) (table : List TranslationEntry) (va : ℕ) (writing : Bool)
    (m' : Machine) : Type 0 where
  pub table' : List TranslationEntry
  pub installed : m' ≡ record m { page_table = some table' }
  pub used_now : (entry_of table' va).used ≡ true
  pub dirty_now : (entry_of table' va).dirty ≡ (writing || (entry_of table va).dirty)
  pub same_entry :
      record (entry_of table' va) {
        used = (entry_of table va).used;
        dirty = (entry_of table va).dirty;
      }
      ≡ entry_of table va
  pub others :
      (j : ℕ) → va / page_size ≢ j → get_or table' j blank_entry ≡ get_or table j blank_entry

pub data Outcome (m : Machine) (table : List TranslationEntry) (va size : ℕ) (writing : Bool)
    : Machine × Translated → Type 0 where
  unaligned : va % size ≢ 0 → Outcome m table va size writing (m, fault address_error_exception)
  beyond :
      m.page_table_size ≤ va / page_size
      → Outcome m table va size writing (m, fault address_error_exception)
  absent :
      va / page_size < m.page_table_size
      → (entry_of table va).valid ≡ false
      → Outcome m table va size writing (m, fault page_fault_exception)
  forbidden :
      (entry_of table va).valid ≡ true
      → (entry_of table va).read_only ≡ true
      → writing ≡ true
      → Outcome m table va size writing (m, fault read_only_exception)
  bad_frame :
      (entry_of table va).valid ≡ true
      → num_phys_pages ≤ (entry_of table va).physical_page
      → Outcome m table va size writing (m, fault bus_error_exception)
  done :
      {m' : Machine}
      → IsMapped table m.page_table_size va size writing
      → Marks m table va writing m'
      → Outcome m table va size writing
          (m', at ((entry_of table va).physical_page * page_size + va % page_size))

touched_dirty : (writing dirty : Bool) → (if writing then true else dirty) ≡ (writing || dirty)
touched_dirty true dirty = refl
touched_dirty false dirty = refl

stored-Marks :
    (m : Machine) (table : List TranslationEntry) (va : ℕ) (writing : Bool)
    → m.tlb ≡ none
    → m.page_table ≡ some table
    → va / page_size < length table
    → Marks m table va writing (store_entry m (va / page_size) (touch (entry_of table va) writing))
unfolding store_entry
stored-Marks m table va writing no_tlb has_table inside =
    let i : ℕ = va / page_size in
    let e : TranslationEntry = touch (entry_of table va) writing in
    let here : entry_of (set table i e) va ≡ e =
      get_or-set table i i e blank_entry inside ∙ rw (eq→== i i refl) refl in
    record {
      table' = set table i e;
      installed = rw (has_table, no_tlb) refl;
      used_now = ap (λ x. x.used) here;
      dirty_now = ap (λ x. x.dirty) here ∙ touched_dirty writing (entry_of table va).dirty;
      same_entry =
          ap {B = TranslationEntry}
            (λ x. record x { used = (entry_of table va).used; dirty = (entry_of table va).dirty })
            here;
      others = λ j ne. get_or-set table i j e blank_entry inside ∙ rw (ne→== i j ne) refl;
    }

module _ (m : Machine) (table : List TranslationEntry) (va size : ℕ) (writing : Bool) where
  abbrev entry : TranslationEntry
  entry = entry_of table va

  -- An aligned access does not cross the end of its frame.
  fits :
      IsSize size
      → va % size ≡ 0
      → entry.physical_page < num_phys_pages
      → leb (entry.physical_page * page_size + va % page_size + size) memory_size ≡ true
  fits h aligned framed = ground (arith, h)

  access-Outcome :
      m.tlb ≡ none
      → m.page_table ≡ some table
      → m.page_table_size ≤ length table
      → IsSize size
      → va % size ≡ 0
      → va / page_size < m.page_table_size
      → entry.valid ≡ true
      → Returns
          (access m (Lookup.hit (va / page_size) entry) (va % page_size) size writing)
          (Outcome m table va size writing)
  unfolding access
  access-Outcome no_tlb has_table covers h aligned inside present =
      elim (Bool-cases (entry.read_only && writing)) [
        | inl refused ↦ rw refused (_, refl, forbidden present (ground arith) (ground arith))
        | inr allowed ↦ elim (Bool-cases (leb num_phys_pages entry.physical_page)) [
          | inl large ↦ rw (allowed, large) (_, refl, bad_frame present (ground arith))
          | inr framed ↦
              rw (allowed, framed, fits h aligned (ground arith))
                (
                  _,
                  refl,
                  done
                      (record {
                        aligned = aligned;
                        inside = inside;
                        present = present;
                        allowed = allowed;
                        framed = ground arith;
                      })
                      (stored-Marks m table va writing no_tlb has_table (omega arith)),
                )
        ]
      ]

  found : Run Lookup
  found = ok (
      if leb m.page_table_size (va / page_size)
      then Lookup.miss address_error_exception
      else (if not entry.valid
          then Lookup.miss page_fault_exception
          else Lookup.hit (va / page_size) entry))

  lookup-found :
      m.tlb ≡ none
      → m.page_table ≡ some table
      → lookup_page m.tlb m.page_table m.page_table_size (va / page_size) ≡ found
  unfolding lookup_page found
  lookup-found no_tlb has_table =
      ap₂ (λ t p. lookup_page t p m.page_table_size (va / page_size)) no_tlb has_table

  -- With a page table of at least `pageTableSize` entries and no TLB, and an access of 1, 2 or 4
  -- bytes, `Translate` trips no check. It reports the exception that the address or its entry calls
  -- for and changes nothing, or maps the address through its entry: this has its use bit set then,
  -- and its dirty bit on a write, and no other entry and nothing else of the machine changes.
  pub translate-Outcome :
      m.tlb ≡ none
      → m.page_table ≡ some table
      → m.page_table_size ≤ length table
      → IsSize size
      → Returns (translate m va size writing) (Outcome m table va size writing)
  unfolding translate found
  translate-Outcome no_tlb has_table covers h = elim (Bool-cases (va % size == 0)) [
    | inr odd ↦ rw (misaligned-mod va size h, odd) (_, refl, unaligned (ground arith))
    | inl even ↦
        rw (misaligned-mod va size h, even, lookup-found no_tlb has_table)
          (elim (Bool-cases (leb m.page_table_size (va / page_size))) [
            | inl out ↦ rw out (_, refl, beyond (ground arith))
            | inr inside ↦ elim (Bool-cases entry.valid) [
              | inr gone ↦ rw (inside, gone) (_, refl, absent (ground arith) gone)
              | inl present ↦
                  rw (inside, present)
                    (access-Outcome no_tlb has_table covers h (ground arith) (ground arith) present)
            ]
          ])
  ]

  -- A mapped access is translated.
  pub translate-IsMapped :
      m.tlb ≡ none
      → m.page_table ≡ some table
      → IsSize size
      → IsMapped table m.page_table_size va size writing
      → translate m va size writing
        ≡ ok (
          store_entry m (va / page_size) (touch entry writing),
          at (entry.physical_page * page_size + va % page_size),
        )
  unfolding translate found access
  translate-IsMapped no_tlb has_table h t =
      let even : (va % size == 0) ≡ true = ground (arith, t.aligned) in
      let framed : leb num_phys_pages entry.physical_page ≡ false = ground (arith, t.framed) in
      let served : found ≡ ok (Lookup.hit (va / page_size) entry) =
        ground (arith, t.inside, t.present) in
      rw (misaligned-mod va size h, even, lookup-found no_tlb has_table)
        (ap (λ l. l >>= (λ f. access m f (va % page_size) size writing)) served
          ∙ rw (t.allowed, framed, fits h t.aligned t.framed))
