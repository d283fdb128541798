-- ===== src/VirtualMemory/Release.antt =====
-- Project2/code/userprog/addrspace.cc: the end of an address space.
use nachos_system_design.Base.{
  ℕ, zero, suc, ◌+◌, ◌≤◌, ◌<◌, ◌≡◌, refl, sym, ap, ◌∙◌, subst, ◌≢◌, inl, inr, true, false, some,
  map, arith, length, if◌then◌else◌, Bool-cases, Returns,
}
use nachos_system_design.Bitmap.Bits.{clear-Writes}
use nachos_system_design.Machine.{TranslationEntry, page_size}
use nachos_system_design.Scheduler.{with_entry}
use nachos_system_design.Synch.Owner.{clash}
use nachos_system_design.VirtualMemory.{Paging, release_page, release_pages, end_space, no_entry}
use nachos_system_design.VirtualMemory.Consistent.{
  contents, MappedTo, Mapped, IsConsistent, entry_at, entry_off,
}
use nachos_system_design.VirtualMemory.Round.{
  IsReleasing, is_live, start-IsReleasing, skip-IsReleasing, release-IsReleasing,
}

release_page-IsReleasing :
    (s₀ s : Paging) (t k : ℕ)
    → IsReleasing s₀ t k s
    → Returns (release_page t k s) (IsReleasing s₀ t (k + 1))
unfolding release_page
release_page-IsReleasing s₀ s t k x = elim (Bool-cases (s.tables t k).valid) [
  | inr out ↦ rw out ((s, refl, skip-IsReleasing s₀ s t k x out))
  | inl here ↦
      (let at : Mapped s t k = x.mapped t k (ground arith) here in
        let in_map : (s.tables t k).physical_page < s.memory_manager.num_bits =
          omega (arith, at.in_range, x.map_sized) in
        let (map, run, w) =
          clear-Writes s.memory_manager x.map_valid (s.tables t k).physical_page in_map in
        rw (here, run) ((_, refl, release-IsReleasing s₀ s t k x here map w)))
]

release_pages-IsReleasing :
    (s₀ : Paging) (n : ℕ) (s : Paging) (t k j : ℕ)
    → k + n ≡ j
    → IsReleasing s₀ t k s
    → Returns (release_pages t n k s) (IsReleasing s₀ t j)
unfolding release_pages
release_pages-IsReleasing s₀ zero s t k j e x =
    (s, refl, subst (λ m. IsReleasing s₀ t m s) (omega arith) x)
release_pages-IsReleasing s₀ (suc n) s t k j e x =
    let (s', run, y) = release_page-IsReleasing s₀ s t k x in
    let (s'', runs, z) = release_pages-IsReleasing s₀ n s' t (k + 1) j (omega arith) y in
    rw (run, runs) ((s'', refl, z))

-- The state with the page table of `t` deleted, after a loop that reached every valid page.
module _ (s₀ s : Paging) (t n : ℕ) (x : IsReleasing s₀ t n s)
    (swap_sized : (u v : ℕ) → length (s₀.swap u v) ≡ page_size)
    (beyond : (v : ℕ) → n ≤ v → (s₀.tables t v).valid ≡ false) where
  abbrev ended : Paging
  ended = record s { tables = with_entry s.tables t λ _. no_entry }

  names_other : (q : ℕ) → (s.ppt q).thread ≢ some t
  names_other q held =
      let ((here, at), live) = x.back q t held in
      let far : n ≤ (s.ppt q).virtual_page = ground arith in
      clash (s.tables t (s.ppt q).virtual_page).valid here (
        ap (λ f. (f t (s.ppt q).virtual_page).valid) x.same_tables
        ∙ beyond (s.ppt q).virtual_page far)

  other_table : (u : ℕ) → u ≢ t → ended.tables u ≡ s.tables u
  other_table u ne = entry_off s.tables t (λ _. no_entry) u λ e. ne (sym e)

  not_ended : (u v : ℕ) → (ended.tables u v).valid ≡ true → u ≢ t
  not_ended u v valid e =
      let gone : (ended.tables u v).valid ≡ false =
        ap (λ w. (ended.tables w v).valid) e
        ∙ ap (λ f. (f v).valid) (entry_at s.tables t λ _. no_entry) in
      clash (ended.tables u v).valid valid gone

  others_live : (u v : ℕ) → u ≢ t → is_live t n u v ≡ true
  others_live u v ne = ground arith

  ended-IsConsistent : IsConsistent ended
  ended-IsConsistent = record {
    sound = record {
      clean = λ u v valid tidy.
          let ne = not_ended u v valid in
          let e = ap (λ f. f v) (other_table u ne) in
          ap (λ f. s.main_memory f.physical_page) e
          ∙ x.clean u v (others_live u v ne) (ap (λ f. f.valid) (sym e) ∙ valid)
              (ap (λ f. f.dirty) (sym e) ∙ tidy);
      in_memory = x.in_memory;
      in_swap = λ u v. ap (λ f. length (f u v)) x.same_swap ∙ swap_sized u v;
      map_valid = x.map_valid;
      map_sized = x.map_sized;
    };
    mapped = λ u v valid.
        let ne = not_ended u v valid in
        let e = ap (λ f. f v) (other_table u ne) in
        subst (λ f. MappedTo s.ppt s.memory_manager f u v) (sym e)
          (x.mapped u v (others_live u v ne) (ap (λ f. f.valid) (sym e) ∙ valid));
    back = λ q u held.
        let ne : u ≢ t = λ e. names_other q (subst (λ w. (s.ppt q).thread ≡ some w) e held) in
        let e = ap (λ f. f (s.ppt q).virtual_page) (other_table u ne) in
        subst (λ (f : TranslationEntry). (f.valid ≡ true) × (f.physical_page ≡ q)) (sym e)
          (x.back q u held).0;
  }

  ended-contents : (u v : ℕ) → u ≢ t → contents ended u v ≡ contents s₀ u v
  unfolding contents
  ended-contents u v ne =
      ap (λ f. if (f v).valid then s.main_memory (f v).physical_page else s.swap u v)
        (other_table u ne)
      ∙ x.kept u v (others_live u v ne)

-- If the frames, the page tables and the swap files agree and no page of the thread `t` from
-- `num_pages` on is valid, then the end of its address space trips no check; they agree again, no
-- frame names the thread, and every page of every other thread holds what it held.
pub end_space-IsConsistent :
    (t num_pages : ℕ) (s : Paging)
    → IsConsistent s
    → ((v : ℕ) → num_pages ≤ v → (s.tables t v).valid ≡ false)
    → Returns (end_space t num_pages s) λ s'.
      IsConsistent s'
      × ((q : ℕ) → (s'.ppt q).thread ≢ some t)
      × ((u v : ℕ) → u ≢ t → contents s' u v ≡ contents s u v)
unfolding end_space
end_space-IsConsistent t num_pages s c beyond =
    let (s', run, x) =
      release_pages-IsReleasing s num_pages s t 0 num_pages (omega arith)
        (start-IsReleasing s t c) in
    rw run (
      (
        ended s s' t num_pages x c.sound.in_swap beyond,
        refl,
        (
          ended-IsConsistent s s' t num_pages x c.sound.in_swap beyond,
          names_other s s' t num_pages x c.sound.in_swap beyond,
          ended-contents s s' t num_pages x c.sound.in_swap beyond,
        ),
      ))
