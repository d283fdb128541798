-- ===== src/VirtualMemory/Faults.antt =====
-- Project2/code/threads/kernel.cc: page faults from end to end.
use nachos_system_design.Base.{
  ℕ, zero, suc, ◌+◌, ◌/◌, ◌<◌, ◌≡◌, refl, ap, ◌∙◌, inl, inr, true, false, Option, none, some, map,
  arith, eq→==, Bool-cases, ok, Returns,
}
use nachos_system_design.Bitmap.{Bitmap}
use nachos_system_design.Bitmap.Bits.{is_marked, Writes}
use nachos_system_design.Bitmap.Search.{Finds, full, free, find_and_set-Finds}
use nachos_system_design.Machine.{page_size, num_phys_pages}
use nachos_system_design.Synch.Owner.{clash}
use nachos_system_design.VirtualMemory.{
  Paging, Frame, oldest_from, oldest, evict, frame_for, install, allocate_page,
}
use nachos_system_design.Machine.Word.{less, is_neg}
use nachos_system_design.VirtualMemory.Consistent.{contents, IsConsistent, IsVacant}
use nachos_system_design.VirtualMemory.Evict.{evict-IsVacant}
use nachos_system_design.VirtualMemory.Install.{install-IsConsistent}

-- None of the first `n` frames has a smaller `pageOrder`, as an int.
abbrev pub IsOldest : (ℕ → Frame) → ℕ → ℕ → Type 0
IsOldest ppt n p = (j : ℕ) → j < n → less (ppt j).page_order (ppt p).page_order ≡ false

oldest_from-IsOldest :
    (n i : ℕ) (ppt : ℕ → Frame) (order p m : ℕ)
    → order ≡ (ppt p).page_order
    → i + n ≡ m
    → p < m
    → IsOldest ppt i p
    → (oldest_from n i ppt order p < m) × IsOldest ppt m (oldest_from n i ppt order p)
unfolding oldest_from less is_neg
oldest_from-IsOldest zero i ppt order p m e size below old = (below, λ j lt. old j (omega arith))
oldest_from-IsOldest (suc n) i ppt order p m e size below old =
    elim (Bool-cases (less (ppt i).page_order order)) [
      | inl lt ↦ rw lt (
          oldest_from-IsOldest n (i + 1) ppt (ppt i).page_order i m refl (omega arith) (omega arith)
            λ j h. ground (arith, old j, here i j))
      | inr ge ↦ rw ge (
          oldest_from-IsOldest n (i + 1) ppt order p m e (omega arith) below
            λ j h. ground (arith, old j, here i j))
    ]
  where
    here : (i j : ℕ) → i ≡ j → (ppt i).page_order ≡ (ppt j).page_order
    here i j e = ap (λ k. (ppt k).page_order) e

-- The frame that `allocatePage` gives up is one of the machine's, and no frame has a smaller
-- `pageOrder`, in the signed order of 32-bit ints.
pub oldest-IsOldest :
    (ppt : ℕ → Frame) → (oldest ppt < num_phys_pages) × IsOldest ppt num_phys_pages (oldest ppt)
unfolding oldest
oldest-IsOldest ppt =
    oldest_from-IsOldest num_phys_pages 0 ppt (ppt 0).page_order 0 num_phys_pages refl (omega arith)
      (omega arith) λ j h. absurd (omega arith)

-- What `frame_for` leaves.
abbrev Prepared : Paging → ℕ × Paging → Type 0
Prepared s (p, s') =
    IsVacant p s'
    × ((t v : ℕ) → contents s' t v ≡ contents s t v)
    × ((t v : ℕ) → (s.tables t v).valid ≡ false → (s'.tables t v).valid ≡ false)

-- A free frame is vacant once it is marked.
free-Prepared :
    (s : Paging) (p : ℕ) (map : Bitmap)
    → IsConsistent s
    → p < s.memory_manager.num_bits
    → is_marked s.memory_manager p ≡ false
    → Writes s.memory_manager p true map
    → Prepared s (p, record s { memory_manager = map })
unfolding contents
free-Prepared s p map c below unmarked w = (
  record {
    sound = record {
      clean = c.sound.clean;
      in_memory = c.sound.in_memory;
      in_swap = c.sound.in_swap;
      map_valid = w.valid;
      map_sized = w.same_size ∙ c.sound.map_sized;
    };
    below = omega (arith, c.sound.map_sized);
    in_use = w.reads p ∙ rw (eq→== p p refl) refl;
    mapped = λ t v here.
        let m = c.mapped t v here in
        record {
          in_range = m.in_range;
          marked = still (s.tables t v).physical_page m.marked;
          by_thread = m.by_thread;
          by_page = m.by_page;
        };
    apart = λ t v here e.
        clash (is_marked s.memory_manager (s.tables t v).physical_page) (c.mapped t v here).marked
          (ap (λ q. is_marked s.memory_manager q) e ∙ unmarked);
    back = λ q t ne held. c.back q t held;
  },
  λ t v. refl,
  λ t v e. e,
)
  where
    still : (q : ℕ) → is_marked s.memory_manager q ≡ true → is_marked map q ≡ true
    still q e = w.reads q ∙ ground arith

frame_for-Prepared : (s : Paging) → IsConsistent s → Returns (frame_for s) (Prepared s)
unfolding frame_for
frame_for-Prepared s c =
    let (r, run, found) = find_and_set-Finds s.memory_manager c.sound.map_valid in
    rw run (prepared r found)
  where
    prepared :
        (r : Option ℕ × Bitmap)
        → Finds s.memory_manager r
        → Returns
            (ok (elim r.0 [
              | some ppn ↦ (ppn, record s { memory_manager = r.1 })
              | none ↦ (oldest s.ppt, evict (record s { memory_manager = r.1 }) (oldest s.ppt))
            ]))
            (Prepared s)
    prepared _ (full all) =
        let below = (oldest-IsOldest s.ppt).0 in
        (
          (oldest s.ppt, evict s (oldest s.ppt)),
          refl,
          evict-IsVacant s (oldest s.ppt) c below
              (all (oldest s.ppt) (omega (arith, c.sound.map_sized))),
        )
    prepared _ (free i map below unmarked before w) =
        ((i, record s { memory_manager = map }), refl, free-Prepared s i map c below unmarked w)

-- If the frames, the page tables and the swap files agree and the faulting page of the current
-- thread is not valid, then `allocatePage` trips no check; they agree again, the page is valid, and
-- every page of every thread holds what it held, in its frame or in its swap file.
pub allocate_page-contents :
    (t : ℕ) (s : Paging) (address : ℕ)
    → IsConsistent s
    → (s.tables t (address / page_size)).valid ≡ false
    → Returns (allocate_page t s address) λ s'.
      IsConsistent s'
      × ((s'.tables t (address / page_size)).valid ≡ true)
      × ((u v : ℕ) → contents s' u v ≡ contents s u v)
unfolding allocate_page
allocate_page-contents t s address c out =
    let ((p, s1), run, (vacant, same, stays)) = frame_for-Prepared s c in
    let (consistent, same', valid) =
      install-IsConsistent s1 t (address / page_size) p vacant
        (stays t (address / page_size) out) in
    rw run (
      (
        install t (address / page_size) p s1,
        refl,
        (consistent, valid, λ u v. same' u v ∙ same u v),
      ))
