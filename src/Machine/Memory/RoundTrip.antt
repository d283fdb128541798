-- ===== src/Machine/Memory/RoundTrip.antt =====
-- code/machine/translate.cc: `WriteMem` followed by `ReadMem` at one address.
use mathlib.Core.Option
use nachos_system_design.Base.{
  ℕ, ◌+◌, ◌*◌, ◌/◌, ◌%◌, ◌^◌, ◌≤◌, ◌<◌, ◌≡◌, refl, ap, sym, subst, ◌∙◌, Bool, true, false, none,
  some, List, set, length, length-set, Run, arith, Returns, get_or-set,
}
use nachos_system_design.Machine.{
  Machine, TranslationEntry, blank_entry, ExceptionType, memory_size, page_size, num_phys_pages,
}
use nachos_system_design.Machine.Translate.{touch, store_entry}
use nachos_system_design.Machine.Translate.Laws.{IsSize, IsMapped, entry_of, translate-IsMapped}
use nachos_system_design.Machine.Memory.{read_mem, write_mem}
use nachos_system_design.Machine.Memory.Laws.{Stores, loaded, store-Stores}

-- A machine that runs a user program over a page table.
pub record IsPaged (m : Machine) (table : List TranslationEntry) : Type 0 where
  pub no_tlb : m.tlb ≡ none
  pub has_table : m.page_table ≡ some table
  pub covers : m.page_table_size ≤ length table
  pub memory : length m.main_memory ≡ memory_size

abbrev pub physical : List TranslationEntry → ℕ → ℕ
physical table va = (entry_of table va).physical_page * page_size + va % page_size

-- A successful write: the entry is touched, and the word is in memory.
pub record Writes (m : Machine) (table : List TranslationEntry) (va size value : ℕ)
    (r : Machine × Bool) : Type 0 where
  pub succeeds : r.1 ≡ true
  pub paged : IsPaged r.0 (set table (va / page_size) (touch (entry_of table va) true))
  pub same_size : (r.0).page_table_size ≡ m.page_table_size
  pub same_registers : (r.0).registers ≡ m.registers
  pub memory : Stores m.main_memory (physical table va) size value (r.0).main_memory

module _ (handler : ExceptionType → Machine → Run Machine) (m : Machine)
    (table : List TranslationEntry) (va size : ℕ) (p : IsPaged m table) (h : IsSize size) where
  physical-le :
      {writing : Bool}
      → IsMapped table m.page_table_size va size writing
      → physical table va + size ≤ memory_size
  physical-le t = ground (arith, h, t.aligned, t.framed)

  pub write_mem-Writes :
      (value : ℕ)
      → value < 2 ^ 32
      → IsMapped table m.page_table_size va size true
      → Returns (write_mem handler m va size value) (Writes m table va size value)
  unfolding write_mem store_entry
  write_mem-Writes value small t =
      let fits : physical table va + size ≤ length m.main_memory =
        omega (arith, physical-le t, p.memory) in
      let (mem, run, s) = store-Stores m.main_memory (physical table va) value size h fits small in
      rw (translate-IsMapped m table va size true p.no_tlb p.has_table h t, run)
        (
          _,
          refl,
          record {
            succeeds = refl;
            paged = record {
              no_tlb = ap (Option.map _) p.no_tlb;
              has_table = ap (Option.map _) p.has_table;
              covers = omega (
                arith,
                p.covers,
                length-set table (va / page_size) (touch (entry_of table va) true),
              );
              memory = s.same_length ∙ p.memory;
            };
            same_size = refl;
            same_registers = refl;
            memory = s;
          },
        )

  touched : TranslationEntry
  touched = touch (entry_of table va) true

  remapped : List TranslationEntry
  remapped = set table (va / page_size) touched

  entry_of-remapped : va / page_size < length table → entry_of remapped va ≡ touched
  unfolding remapped
  entry_of-remapped lt =
      get_or-set table (va / page_size) (va / page_size) touched blank_entry lt ∙ ground arith

  remapped-IsMapped :
      IsMapped table m.page_table_size va size true
      → IsMapped remapped m.page_table_size va size false
  unfolding touched
  remapped-IsMapped t =
      let e = entry_of-remapped (omega (arith, t.inside, p.covers)) in
      record {
        aligned = t.aligned;
        inside = t.inside;
        present = ap (λ x. x.valid) e ∙ t.present;
        allowed = ground arith;
        framed = subst (λ x. x.physical_page < num_phys_pages) (sym e) t.framed;
      }

  -- On a machine with a page table and all of its memory, a write of 1, 2 or 4 bytes to a mapped,
  -- writable address succeeds, and a read of the same size there then succeeds and gives the value
  -- back: the whole word, the low half, or the low byte with its sign.
  pub write_mem-read_mem :
      (value : ℕ)
      → value < 2 ^ 32
      → IsMapped table m.page_table_size va size true
      → Returns (write_mem handler m va size value) λ w.
        (w.1 ≡ true) × Returns (read_mem handler w.0 va size) λ r. r.1 ≡ some (loaded size value)
  unfolding read_mem touched remapped store_entry
  write_mem-read_mem value small t =
      let (w, run, ws) = write_mem-Writes value small t in
      let t' : IsMapped remapped (w.0).page_table_size va size false =
        rw ws.same_size (remapped-IsMapped t) in
      let e = entry_of-remapped (omega (arith, t.inside, p.covers)) in
      let same : physical remapped va ≡ physical table va =
        ap (λ x. x.physical_page * page_size + va % page_size) e in
      (
        w,
        run,
        (
          ws.succeeds,
          rw
              (
                translate-IsMapped w.0 remapped va size false ws.paged.no_tlb ws.paged.has_table h
                    t',
                same,
                ws.memory.fetched,
              )
              (_, refl, refl),
        ),
      )
