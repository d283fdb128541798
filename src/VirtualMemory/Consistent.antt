-- ===== src/VirtualMemory/Consistent.antt =====
-- Project2/code/threads/kernel.cc: how the frames, the page tables and the swap files agree, and what
-- a page of a thread holds, wherever it is.
use nachos_system_design.Base.{
  ℕ, ◌<◌, ◌≡◌, refl, ap, ◌≢◌, ◌⊎◌, inl, inr, Bool, true, false, ◌&&◌, some, List, arith, length,
  if◌then◌else◌, ◌==◌, ne→==, eq→==, ==→eq, Bool-cases,
}
use nachos_system_design.Bitmap.{Bitmap}
use nachos_system_design.Bitmap.Bits.{IsValid, is_marked}
use nachos_system_design.Machine.{TranslationEntry, page_size, num_phys_pages}
use nachos_system_design.Scheduler.{with_entry}
use nachos_system_design.VirtualMemory.{Paging, Frame, with_page}

-- The bytes of a page: in its frame, or in the swap file.
unfoldable pub contents : Paging → ℕ → ℕ → List ℕ
contents s t v =
    if (s.tables t v).valid then s.main_memory (s.tables t v).physical_page else s.swap t v

-- The frame of a page's entry is in use, and names the page.
pub record MappedTo (ppt : ℕ → Frame) (map : Bitmap) (e : TranslationEntry) (t v : ℕ) : Type 0 where
  pub in_range : e.physical_page < num_phys_pages
  pub marked : is_marked map e.physical_page ≡ true
  pub by_thread : (ppt e.physical_page).thread ≡ some t
  pub by_page : (ppt e.physical_page).virtual_page ≡ v

abbrev pub Mapped : Paging → ℕ → ℕ → Type 0
Mapped s t v = MappedTo s.ppt s.memory_manager (s.tables t v) t v

-- The page that a frame names is mapped to it.
abbrev pub Holds : Paging → ℕ → ℕ → Type 0
Holds s p t =
    ((s.tables t (s.ppt p).virtual_page).valid ≡ true)
    × ((s.tables t (s.ppt p).virtual_page).physical_page ≡ p)

-- Pages have their size, the map of frames is sound, and a page that is not dirty is in its file.
pub record IsSound (s : Paging) : Type 0 where
  pub clean :
      (t v : ℕ)
      → (s.tables t v).valid ≡ true
      → (s.tables t v).dirty ≡ false
      → s.main_memory (s.tables t v).physical_page ≡ s.swap t v
  pub in_memory : (p : ℕ) → length (s.main_memory p) ≡ page_size
  pub in_swap : (t v : ℕ) → length (s.swap t v) ≡ page_size
  pub map_valid : IsValid s.memory_manager
  pub map_sized : s.memory_manager.num_bits ≡ num_phys_pages

pub record IsConsistent (s : Paging) : Type 0 where
  pub sound : IsSound s
  pub mapped : (t v : ℕ) → (s.tables t v).valid ≡ true → Mapped s t v
  pub back : (p t : ℕ) → (s.ppt p).thread ≡ some t → Holds s p t

-- The same, but for the frame `p`, which is in use and to which no page is mapped.
pub record IsVacant (p : ℕ) (s : Paging) : Type 0 where
  pub sound : IsSound s
  pub below : p < num_phys_pages
  pub in_use : is_marked s.memory_manager p ≡ true
  pub mapped : (t v : ℕ) → (s.tables t v).valid ≡ true → Mapped s t v
  pub apart : (t v : ℕ) → (s.tables t v).valid ≡ true → (s.tables t v).physical_page ≢ p
  pub back : (q t : ℕ) → q ≢ p → (s.ppt q).thread ≡ some t → Holds s q t

module _ {ℓ} {A : Type ℓ} (table : ℕ → A) (i : ℕ) (a : A) where
  pub entry_at : with_entry table i a i ≡ a
  entry_at = rw (eq→== i i refl) refl

  pub entry_off : (j : ℕ) → i ≢ j → with_entry table i a j ≡ table j
  entry_off j ne = rw (ne→== i j ne) refl

abbrev pub is_page : ℕ → ℕ → ℕ → ℕ → Bool
is_page t v t' v' = (t == t') && (v == v')

module _ {ℓ} {A : Type ℓ} (table : ℕ → ℕ → A) (t v : ℕ) (a : A) where
  pub page_at : with_page table t v a t v ≡ a
  page_at = rw (eq→== t t refl, eq→== v v refl) refl

  pub page_off : (t' v' : ℕ) → is_page t v t' v' ≡ false → with_page table t v a t' v' ≡ table t' v'
  page_off t' v' ne = elim (Bool-cases (t == t')) [
    | inr e ↦ rw e refl
    | inl e ↦
        (let other : (v == v') ≡ false = ground arith in
          rw (e, other) (ap (λ u. table u v') (==→eq t t' e)))
  ]

  -- To split on whether a page is the one that changes.
  pub page_cases :
      (t' v' : ℕ)
      → ((t ≡ t') × (v ≡ v') × (with_page table t v a t' v' ≡ a))
        ⊎ ((is_page t v t' v' ≡ false) × (with_page table t v a t' v' ≡ table t' v'))
  page_cases t' v' = elim (Bool-cases (is_page t v t' v')) [
    | inr e ↦ inr (e, page_off t' v' e)
    | inl e ↦
        (let et : t ≡ t' = ground arith in
          let ev : v ≡ v' = ground arith in inl (et, ev, rw (← et, ← ev) page_at))
  ]
