-- ===== src/VirtualMemory/Evicted.antt =====
-- Project2/code/threads/kernel.cc: what becomes of the page that a frame gives up.
use nachos_system_design.Base.{
  ℕ, ◌<◌, ◌≡◌, refl, sym, ap, ap₂, ◌∙◌, ◌≢◌, inl, inr, true, false, some, arith, eq→==, Bool-cases,
}
use nachos_system_design.Bitmap.Bits.{is_marked}
use nachos_system_design.Machine.{num_phys_pages}
use nachos_system_design.Synch.Owner.{clash}
use nachos_system_design.VirtualMemory.{Paging, with_page, write_back_page, invalidate}
use nachos_system_design.VirtualMemory.Consistent.{
  contents, Mapped, IsSound, IsConsistent, IsVacant, page_at, page_off, is_page,
}

-- What becomes of the page `v` of the thread `t`, which the frame `p` holds, and of nothing else.
pub record IsEvicted (s : Paging) (p t v : ℕ) (s' : Paging) : Type 0 where
  pub gone : (s'.tables t v).valid ≡ false
  pub saved : s'.swap t v ≡ s.main_memory p
  pub other_entries : (t' v' : ℕ) → is_page t v t' v' ≡ false → s'.tables t' v' ≡ s.tables t' v'
  pub other_pages : (t' v' : ℕ) → is_page t v t' v' ≡ false → s'.swap t' v' ≡ s.swap t' v'
  pub same_frames : s'.ppt ≡ s.ppt
  pub same_memory : s'.main_memory ≡ s.main_memory
  pub same_map : s'.memory_manager ≡ s.memory_manager

module _ (s : Paging) (p t v : ℕ) where
  abbrev saving : Paging
  saving = record s {
    swap = with_page s.swap t v (s.main_memory p);
    tables = with_page s.tables t v (record (s.tables t v) { dirty = false });
  }

  write_back_dirty : (s.tables t v).dirty ≡ true → write_back_page s p t v ≡ saving
  unfolding write_back_page
  write_back_dirty e = rw e refl

  write_back_clean : (s.tables t v).dirty ≡ false → write_back_page s p t v ≡ s
  unfolding write_back_page
  write_back_clean e = rw e refl

  saving-IsEvicted : IsEvicted s p t v (invalidate saving t v)
  saving-IsEvicted = record {
    gone = ap (λ e. e.valid) (page_at saving.tables t v _);
    saved = page_at s.swap t v (s.main_memory p);
    other_entries =
        λ t' v' ne. page_off saving.tables t v _ t' v' ne ∙ page_off s.tables t v _ t' v' ne;
    other_pages = λ t' v' ne. page_off s.swap t v _ t' v' ne;
    same_frames = refl;
    same_memory = refl;
    same_map = refl;
  }

  clean-IsEvicted : s.main_memory p ≡ s.swap t v → IsEvicted s p t v (invalidate s t v)
  clean-IsEvicted e = record {
    gone = ap (λ e. e.valid) (page_at s.tables t v _);
    saved = sym e;
    other_entries = λ t' v' ne. page_off s.tables t v _ t' v' ne;
    other_pages = λ t' v' ne. refl;
    same_frames = refl;
    same_memory = refl;
    same_map = refl;
  }

  pub invalidate-IsEvicted :
      IsSound s
      → (s.tables t v).valid ≡ true
      → (s.tables t v).physical_page ≡ p
      → IsEvicted s p t v (invalidate (write_back_page s p t v) t v)
  invalidate-IsEvicted sound here at = elim (Bool-cases (s.tables t v).dirty) [
    | inl e ↦ rw (write_back_dirty e) saving-IsEvicted
    | inr e ↦
        rw (write_back_clean e)
          (clean-IsEvicted (ap s.main_memory (sym at) ∙ sound.clean t v here e))
  ]

-- A page that is still valid is another one.
module _ {s s' : Paging} {p t v : ℕ} (x : IsEvicted s p t v s') where
  still_other : (t' v' : ℕ) → (s'.tables t' v').valid ≡ true → is_page t v t' v' ≡ false
  still_other t' v' e = elim (Bool-cases (is_page t v t' v')) [
    | inr ne ↦ ne
    | inl same ↦
        (let et : t ≡ t' = ground arith in
          let ev : v ≡ v' = ground arith in
          let e' : (s'.tables t v).valid ≡ true = rw (et, ev) e in
          clash (s'.tables t v).valid e' x.gone)
  ]

  pub evicted-contents :
      IsConsistent s
      → (s.tables t v).valid ≡ true
      → (s.tables t v).physical_page ≡ p
      → (t' v' : ℕ) → contents s' t' v' ≡ contents s t' v'
  unfolding contents
  evicted-contents c here at t' v' = elim (Bool-cases (is_page t v t' v')) [
    | inr ne ↦ rw (x.other_entries t' v' ne, x.other_pages t' v' ne, x.same_memory) refl
    | inl same ↦
        (let et : t ≡ t' = ground arith in
          let ev : v ≡ v' = ground arith in rw (← et, ← ev, x.gone, here, x.saved, at) refl)
  ]

  evicted-Mapped : (t' v' : ℕ) → is_page t v t' v' ≡ false → Mapped s t' v' → Mapped s' t' v'
  evicted-Mapped t' v' ne m = rw (x.other_entries t' v' ne, x.same_frames, x.same_map) m

  evicted-IsSound : IsSound s → IsSound s'
  evicted-IsSound o = record {
    clean = λ t' v' here tidy. let ne = still_other t' v' here in clean_at t' v' ne here tidy;
    in_memory = λ q. rw x.same_memory (o.in_memory q);
    in_swap = λ t' v'. elim (Bool-cases (is_page t v t' v')) [
      | inr ne ↦ rw (x.other_pages t' v' ne) (o.in_swap t' v')
      | inl same ↦
          (let et : t ≡ t' = ground arith in
            let ev : v ≡ v' = ground arith in rw (← et, ← ev, x.saved) (o.in_memory p))
    ];
    map_valid = rw x.same_map o.map_valid;
    map_sized = rw x.same_map o.map_sized;
  }
    where
      clean_at :
          (t' v' : ℕ)
          → is_page t v t' v' ≡ false
          → (s'.tables t' v').valid ≡ true
          → (s'.tables t' v').dirty ≡ false
          → s'.main_memory (s'.tables t' v').physical_page ≡ s'.swap t' v'
      clean_at t' v' ne =
          rw (x.other_entries t' v' ne, x.other_pages t' v' ne, x.same_memory) (o.clean t' v')

  -- A frame that names another page than the evicted one is another frame.
  other_frame :
      IsConsistent s
      → (s.tables t v).physical_page ≡ p
      → (q t' : ℕ) → q ≢ p
      → (s.ppt q).thread ≡ some t'
      → is_page t v t' (s.ppt q).virtual_page ≡ false
  other_frame c at q t' ne held = elim (Bool-cases (is_page t v t' (s.ppt q).virtual_page)) [
    | inr e ↦ e
    | inl same ↦
        (let et : t ≡ t' = ground arith in
          let ev : v ≡ (s.ppt q).virtual_page = ground arith in
          let (_, there) = c.back q t' held in
          absurd
            (ne (sym there ∙ ap₂ (λ a b. (s.tables a b).physical_page) (sym et) (sym ev) ∙ at)))
  ]

  was_valid : (t' v' : ℕ) → (s'.tables t' v').valid ≡ true → (s.tables t' v').valid ≡ true
  was_valid t' v' here =
      ap (λ e. e.valid) (sym (x.other_entries t' v' (still_other t' v' here))) ∙ here

  pub evicted_invalid :
      (t' v' : ℕ) → (s.tables t' v').valid ≡ false → (s'.tables t' v').valid ≡ false
  evicted_invalid t' v' e = elim (Bool-cases (s'.tables t' v').valid) [
    | inr gone ↦ gone
    | inl here ↦ clash (s.tables t' v').valid (was_valid t' v' here) e
  ]

  pub evicted-IsVacant :
      IsConsistent s
      → (s.ppt p).thread ≡ some t
      → (s.ppt p).virtual_page ≡ v
      → (s.tables t v).physical_page ≡ p
      → p < num_phys_pages
      → is_marked s.memory_manager p ≡ true
      → IsVacant p s'
  evicted-IsVacant c thread_is page_is at below in_use = record {
    sound = evicted-IsSound c.sound;
    below = below;
    in_use = rw x.same_map in_use;
    mapped = λ t' v' here.
        let ne = still_other t' v' here in
        evicted-Mapped t' v' ne (c.mapped t' v' (was_valid t' v' here));
    apart = λ t' v' here e.
        let ne = still_other t' v' here in
        let at' = ap (λ e. e.physical_page) (sym (x.other_entries t' v' ne)) ∙ e in
        clash (is_page t v t' v') (is_the_page t' v' (c.mapped t' v' (was_valid t' v' here)) at')
          ne;
    back = λ q t' ne held.
        let held' = ap (λ f. (f q).thread) (sym x.same_frames) ∙ held in
        let ne_page = other_frame c at q t' ne held' in
        rw (x.same_frames, x.other_entries t' (s.ppt q).virtual_page ne_page) (c.back q t' held');
  }
    where
      is_the_page :
          (t' v' : ℕ)
          → Mapped s t' v'
          → (s.tables t' v').physical_page ≡ p
          → is_page t v t' v' ≡ true
      is_the_page t' v' m at' =
          let by : some t ≡ some t' =
            sym thread_is ∙ ap (λ q. (s.ppt q).thread) (sym at') ∙ m.by_thread in
          let page : v ≡ v' =
            sym page_is ∙ ap (λ q. (s.ppt q).virtual_page) (sym at') ∙ m.by_page in
          let same : t ≡ t' = cc in rw (eq→== t t' same, eq→== v v' page) refl
