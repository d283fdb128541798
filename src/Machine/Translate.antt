-- ===== src/Machine/Translate.antt =====
-- code/machine/translate.cc: `Machine::Translate`.
pub mod Laws
use mathlib.Core.Option
use nachos_system_design.Base.{
  ℕ, suc, ◌+◌, ◌*◌, ◌/◌, ◌%◌, Bool, true, not, ◌&&◌, ◌||◌, Option, none, some, List, [], ◌∷◌, ◌==◌,
  leb, if◌then◌else◌, get_or, set, bit_and, Run, ok, aborted, ◌>>=◌, ◌>>◌, assert,
}
use nachos_system_design.Machine.{
  Machine, TranslationEntry, blank_entry, ExceptionType, page_fault_exception, read_only_exception,
  bus_error_exception, address_error_exception, page_size, num_phys_pages, memory_size,
}

-- The entry that serves a page, with its place in the table; or the exception that is returned.
pub data Lookup : Type 0 where
  hit : ℕ → TranslationEntry → Lookup
  miss : ExceptionType → Lookup

-- `at` is the return value `NoException` with the physical address.
pub data Translated : Type 0 where
  at : ℕ → Translated
  fault : ExceptionType → Translated

unfoldable pub misaligned : ℕ → ℕ → Bool
misaligned virt_addr size =
    (size == 4 && not (bit_and virt_addr 3 == 0)) || (size == 2 && not (bit_and virt_addr 1 == 0))

-- The search of the TLB from index `i` on.
unfoldable pub search_tlb : ℕ → List TranslationEntry → ℕ → Lookup
search_tlb i [] vpn = miss page_fault_exception
search_tlb i (e ∷ es) vpn =
    if e.valid && e.virtual_page == vpn then hit i e else search_tlb (suc i) es vpn

unfoldable pub lookup_page :
    Option (List TranslationEntry) → Option (List TranslationEntry) → ℕ → ℕ → Run Lookup
unfolding search_tlb
lookup_page none none size vpn = aborted
lookup_page (some tlb) (some table) size vpn = aborted
lookup_page (some tlb) none size vpn = ok (search_tlb 0 tlb vpn)
lookup_page none (some table) size vpn = ok (
    if leb size vpn
    then miss address_error_exception
    else (if not (get_or table vpn blank_entry).valid
        then miss page_fault_exception
        else hit vpn (get_or table vpn blank_entry)))

-- The table that is there gets the entry.
unfoldable pub store_entry : Machine → ℕ → TranslationEntry → Machine
store_entry m i e = record m {
  tlb = Option.map (λ t. set t i e) m.tlb;
  page_table = Option.map (λ t. set t i e) m.page_table;
}

-- The use and dirty bits of an access.
abbrev pub touch : TranslationEntry → Bool → TranslationEntry
touch e writing = record e { used = true; dirty = if writing then true else e.dirty }

unfoldable pub access : Machine → Lookup → ℕ → ℕ → Bool → Run (Machine × Translated)
unfolding store_entry
access m (miss x) offset size writing = ok (m, fault x)
access m (hit i e) offset size writing =
    if e.read_only && writing
    then ok (m, fault read_only_exception)
    else (if leb num_phys_pages e.physical_page then ok (m, fault bus_error_exception) else do
      let phys_addr = e.physical_page * page_size + offset
      assert (leb (phys_addr + size) memory_size)
      ok (store_entry m i (touch e writing), at phys_addr))

unfoldable pub translate : Machine → ℕ → ℕ → Bool → Run (Machine × Translated)
unfolding misaligned lookup_page access
translate m virt_addr size writing =
    if misaligned virt_addr size then ok (m, fault address_error_exception) else do
      found ← lookup_page m.tlb m.page_table m.page_table_size (virt_addr / page_size)
      access m found (virt_addr % page_size) size writing
