-- ===== src/VirtualMemory.antt =====
-- Project2/code: the page faults of threads/kernel.cc, and the end of an address space in
-- userprog/addrspace.cc. Only whole pages move, so main memory and the swap files are given page by
-- page. A swap file is a file of the host, which gives back what was last written.
pub mod Consistent
pub mod Evict
pub mod Evicted
pub mod Faults
pub mod Install
pub mod Release
pub mod Round
use nachos_system_design.Base.{
  ℕ, zero, suc, ◌+◌, ◌-◌, ◌/◌, ◌^◌, true, false, Option, none, some, List, ◌++◌, length, drop,
  replicate, if◌then◌else◌, Run, ok, ◌>>=◌,
}
use nachos_system_design.Bitmap.{Bitmap, find_and_set}
use nachos_system_design.Bitmap
use nachos_system_design.Machine.Word.{add32, less}
use nachos_system_design.Machine.{TranslationEntry, page_size, num_phys_pages}
use nachos_system_design.Scheduler.{with_entry}

-- `PhysicalPageEntry`; `none` is a thread that is NULL.
pub record Frame : Type 0 where
  pub virtual_page : ℕ
  pub page_order : ℕ
  pub thread : Option ℕ

-- The page table and the swap file of each thread's address space, by virtual page.
pub record Paging : Type 0 where
  pub ppt : ℕ → Frame
  pub memory_manager : Bitmap
  pub page_order : ℕ
  pub tables : ℕ → ℕ → TranslationEntry
  pub swap : ℕ → ℕ → List ℕ
  pub main_memory : ℕ → List ℕ

-- An entry of a table of tables changed.
abbrev pub with_page {ℓ} : {A : Type ℓ} → (ℕ → ℕ → A) → ℕ → ℕ → A → ℕ → ℕ → A
with_page table t v e = with_entry table t (with_entry (table t) v e)

-- The loop that looks for the frame that was given out first, with the best so far.
unfoldable pub oldest_from : ℕ → ℕ → (ℕ → Frame) → ℕ → ℕ → ℕ
oldest_from zero i ppt order ppn = ppn
oldest_from (suc n) i ppt order ppn =
    if less (ppt i).page_order order
    then oldest_from n (i + 1) ppt (ppt i).page_order i
    else oldest_from n (i + 1) ppt order ppn

unfoldable pub oldest : (ℕ → Frame) → ℕ
oldest ppt = oldest_from num_phys_pages 0 ppt (ppt 0).page_order 0

-- The page goes back to the swap file if it is dirty.
unfoldable pub write_back_page : Paging → ℕ → ℕ → ℕ → Paging
write_back_page s ppn t v =
    if (s.tables t v).dirty
    then record s {
      swap = with_page s.swap t v (s.main_memory ppn);
      tables = with_page s.tables t v (record (s.tables t v) { dirty = false });
    }
    else s

abbrev pub invalidate : Paging → ℕ → ℕ → Paging
invalidate s t v = record s {
  tables = with_page s.tables t v (record (s.tables t v) { valid = false });
}

unfoldable pub evict_from : Paging → ℕ → Option ℕ → Paging
evict_from s ppn none = s
evict_from s ppn (some t) =
    let v = (s.ppt ppn).virtual_page in invalidate (write_back_page s ppn t v) t v

unfoldable pub evict : Paging → ℕ → Paging
evict s ppn = evict_from s ppn (s.ppt ppn).thread

-- A frame for the page: a free one, or the oldest, cleared of the page that it held.
unfoldable pub frame_for : Paging → Run (ℕ × Paging)
frame_for s = do
  (found, map) ← find_and_set s.memory_manager
  let s' = record s { memory_manager = map }
  ok (elim found [ some ppn ↦ (ppn, s') | none ↦ (oldest s'.ppt, evict s' (oldest s'.ppt)) ])

abbrev pub zero_page : List ℕ
zero_page = replicate page_size 0

-- What a read of `bytes` leaves of a buffer.
abbrev pub overlay : List ℕ → List ℕ → List ℕ
overlay bytes buffer = bytes ++ drop (length bytes) buffer

-- The page `v` of the thread `t` comes into the frame.
unfoldable pub install : ℕ → ℕ → ℕ → Paging → Paging
install t v ppn s = record s {
  tables = with_page s.tables t v (record {
    virtual_page = v;
    physical_page = ppn;
    valid = true;
    read_only = false;
    used = false;
    dirty = false;
  });
  ppt =
      with_entry s.ppt ppn
        (record { virtual_page = v; page_order = s.page_order; thread = some t });
  page_order = add32 s.page_order 1;
  main_memory = with_entry s.main_memory ppn (overlay (s.swap t v) zero_page);
}

-- `allocatePage` by the current thread `t`, up to `machine->Run()`.
unfoldable pub allocate_page : ℕ → Paging → ℕ → Run Paging
allocate_page t s address = do (ppn, s') ← frame_for s; ok (install t (address / page_size) ppn s')

-- One round of the loop in `~AddrSpace`, for the page `v` of the thread `t`. The -1 that becomes
-- the virtual page is its bit pattern.
unfoldable pub release_page : ℕ → ℕ → Paging → Run Paging
release_page t v s =
    let ppn = (s.tables t v).physical_page in
    let release = do
      map ← Bitmap.clear s.memory_manager ppn
      ok (record s {
        ppt =
            with_entry s.ppt ppn (record (s.ppt ppn) { virtual_page = 2 ^ 32 - 1; thread = none });
        main_memory = with_entry s.main_memory ppn zero_page;
        memory_manager = map;
      })
    in if (s.tables t v).valid then release else ok s

unfoldable pub release_pages : ℕ → ℕ → ℕ → Paging → Run Paging
release_pages t zero v s = ok s
release_pages t (suc n) v s = do s' ← release_page t v s; release_pages t n (v + 1) s'

-- An entry of a page table that is deleted: no page of the thread is left.
abbrev pub no_entry : TranslationEntry
no_entry = record {
  virtual_page = 0;
  physical_page = 0;
  valid = false;
  read_only = false;
  used = false;
  dirty = false;
}

-- `~AddrSpace` of the thread `t`, whose address space has `num_pages` pages.
unfoldable pub end_space : ℕ → ℕ → Paging → Run Paging
end_space t num_pages s = do
  s' ← release_pages t num_pages 0 s
  ok (record s' { tables = with_entry s'.tables t λ _. no_entry })
