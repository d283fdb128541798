-- ===== src/VirtualMemory/Install.antt =====
-- Project2/code/threads/kernel.cc: a page comes into a vacant frame.
use nachos_system_design.Base.{
  ℕ, zero, suc, ◌≤◌, ◌≡◌, refl, sym, ap, ap₂, ◌∙◌, ◌≢◌, ◌⊎◌, inl, inr, true, false, some, List, [],
  ◌∷◌, ◌++◌, arith, length, drop, length-replicate, ◌==◌, ==→eq, Bool-cases,
}
use nachos_system_design.Machine.{TranslationEntry, page_size}
use nachos_system_design.Synch.Owner.{clash}
use nachos_system_design.VirtualMemory.{Paging, overlay, zero_page, install}
use nachos_system_design.VirtualMemory.Consistent.{
  contents, Mapped, Holds, IsSound, IsConsistent, IsVacant, page_at, page_off, is_page, entry_at,
  entry_off,
}

drop_all : {A : Type 0} (n : ℕ) (xs : List A) → length xs ≤ n → drop n xs ≡ []
drop_all zero [] le = refl
drop_all zero (x ∷ xs) le = absurd (omega arith)
drop_all (suc n) [] le = refl
drop_all (suc n) (x ∷ xs) le = drop_all n xs (omega arith)

append_nil : {A : Type 0} (xs : List A) → (xs ++ []) ≡ xs
append_nil [] = refl
append_nil (x ∷ xs) = ap (λ t. x ∷ t) (append_nil xs)

-- A whole page read leaves nothing of the zeros.
overlay_page : (bytes : List ℕ) → length bytes ≡ page_size → overlay bytes zero_page ≡ bytes
overlay_page bytes e =
    rw (drop_all (length bytes) zero_page (omega (arith, length-replicate {A = ℕ} page_size 0)))
      (append_nil bytes)

-- The entry and the frame that `install` writes.
abbrev entry_in : ℕ → ℕ → TranslationEntry
entry_in v p = record {
  virtual_page = v;
  physical_page = p;
  valid = true;
  read_only = false;
  used = false;
  dirty = false;
}

module _ (s : Paging) (t v p : ℕ) (x : IsVacant p s) (out : (s.tables t v).valid ≡ false) where
  abbrev after : Paging
  after = install t v p s

  table_at : after.tables t v ≡ entry_in v p
  unfolding install
  table_at = page_at s.tables t v (entry_in v p)

  table_off : (t' v' : ℕ) → is_page t v t' v' ≡ false → after.tables t' v' ≡ s.tables t' v'
  unfolding install
  table_off = page_off s.tables t v (entry_in v p)

  frame_at : ((after.ppt p).thread ≡ some t) × ((after.ppt p).virtual_page ≡ v)
  unfolding install
  frame_at = let e = entry_at s.ppt p _ in (ap (λ f. f.thread) e, ap (λ f. f.virtual_page) e)

  frame_off : (q : ℕ) → q ≢ p → after.ppt q ≡ s.ppt q
  unfolding install
  frame_off q ne = entry_off s.ppt p _ q (λ e. ne (sym e))

  memory_at : after.main_memory p ≡ s.swap t v
  unfolding install
  memory_at = entry_at s.main_memory p _ ∙ overlay_page (s.swap t v) (x.sound.in_swap t v)

  memory_off : (q : ℕ) → q ≢ p → after.main_memory q ≡ s.main_memory q
  unfolding install
  memory_off q ne = entry_off s.main_memory p _ q (λ e. ne (sym e))

  same_swap : after.swap ≡ s.swap
  unfolding install
  same_swap = refl

  same_map : after.memory_manager ≡ s.memory_manager
  unfolding install
  same_map = refl

  -- A valid page is the new one, or one that was valid, in another frame.
  valid_cases :
      (t' v' : ℕ)
      → (after.tables t' v').valid ≡ true
      → ((t ≡ t') × (v ≡ v'))
        ⊎ ((is_page t v t' v' ≡ false)
            × ((s.tables t' v').valid ≡ true)
            × ((s.tables t' v').physical_page ≢ p))
  valid_cases t' v' here = elim (Bool-cases (is_page t v t' v')) [
    | inl same ↦ inl (ground arith, ground arith)
    | inr ne ↦
        (let was : (s.tables t' v').valid ≡ true =
            ap (λ e. e.valid) (sym (table_off t' v' ne)) ∙ here in
          inr (ne, was, x.apart t' v' was))
  ]

  install-Mapped : (t' v' : ℕ) → (after.tables t' v').valid ≡ true → Mapped after t' v'
  install-Mapped t' v' here = elim (valid_cases t' v' here) [
    | inl (et, ev) ↦
        rw (← et, ← ev, table_at)
          (record {
            in_range = x.below;
            marked = rw same_map x.in_use;
            by_thread = frame_at.0;
            by_page = frame_at.1;
          })
    | inr (ne, was, apart) ↦ rw (table_off t' v' ne) (
        let m = x.mapped t' v' was in
        record {
          in_range = m.in_range;
          marked = rw same_map m.marked;
          by_thread = rw (frame_off (s.tables t' v').physical_page apart) m.by_thread;
          by_page = rw (frame_off (s.tables t' v').physical_page apart) m.by_page;
        })
  ]

  install-IsSound : IsSound after
  install-IsSound = record {
    clean = λ t' v' here tidy. elim (valid_cases t' v' here) [
      | inl (et, ev) ↦ rw (← et, ← ev, table_at, same_swap) memory_at
      | inr (ne, was, apart) ↦
          (let tidy' = ap (λ e. e.dirty) (sym (table_off t' v' ne)) ∙ tidy in
            rw (table_off t' v' ne, memory_off (s.tables t' v').physical_page apart, same_swap)
              (x.sound.clean t' v' was tidy'))
    ];
    in_memory = λ q. elim (Bool-cases (q == p)) [
      | inl e ↦ rw (==→eq q p e, memory_at) (x.sound.in_swap t v)
      | inr e ↦ rw (memory_off q (ground arith)) (x.sound.in_memory q)
    ];
    in_swap = λ t' v'. rw same_swap (x.sound.in_swap t' v');
    map_valid = rw same_map x.sound.map_valid;
    map_sized = rw same_map x.sound.map_sized;
  }

  install-Holds : (q t' : ℕ) → (after.ppt q).thread ≡ some t' → Holds after q t'
  install-Holds q t' held = elim (Bool-cases (q == p)) [
    | inl e ↦
        (let here : q ≡ p = ==→eq q p e in
          rw here (new_page t' (ap (λ f. (after.ppt f).thread) (sym here) ∙ held)))
    | inr e ↦
        (let ne : q ≢ p = ground arith in
          let held' : (s.ppt q).thread ≡ some t' =
            ap (λ f. f.thread) (sym (frame_off q ne)) ∙ held in
          rw (frame_off q ne, table_off t' (s.ppt q).virtual_page (other q t' ne held'))
            (x.back q t' ne held'))
  ]
    where
      new_page : (t' : ℕ) → (after.ppt p).thread ≡ some t' → Holds after p t'
      new_page t' by =
          let both : some t ≡ some t' = sym frame_at.0 ∙ by in
          let same : t ≡ t' = cc in rw (frame_at.1, ← same, table_at) (refl, refl)

      other :
          (q t' : ℕ)
          → q ≢ p
          → (s.ppt q).thread ≡ some t'
          → is_page t v t' (s.ppt q).virtual_page ≡ false
      other q t' ne by = elim (Bool-cases (is_page t v t' (s.ppt q).virtual_page)) [
        | inr e ↦ e
        | inl same ↦
            (let et : t ≡ t' = ground arith in
              let ev : v ≡ (s.ppt q).virtual_page = ground arith in
              let here : (s.tables t v).valid ≡ true =
                ap₂ (λ a b. (s.tables a b).valid) et ev ∙ (x.back q t' ne by).0 in
              clash (s.tables t v).valid here out)
      ]

  install-contents : (t' v' : ℕ) → contents after t' v' ≡ contents s t' v'
  unfolding contents
  install-contents t' v' = elim (Bool-cases (is_page t v t' v')) [
    | inl same ↦
        (let et : t ≡ t' = ground arith in
          let ev : v ≡ v' = ground arith in rw (← et, ← ev, table_at, out) memory_at)
    | inr ne ↦ rw (table_off t' v' ne) (elim (Bool-cases (s.tables t' v').valid) [
      | inl was ↦ rw was (memory_off (s.tables t' v').physical_page (x.apart t' v' was))
      | inr gone ↦ rw (gone, same_swap) refl
    ])
  ]

  -- A page that comes into a vacant frame leaves everything consistent and every page as it was.
  pub install-IsConsistent :
      IsConsistent after
      × ((t' v' : ℕ) → contents after t' v' ≡ contents s t' v')
      × ((after.tables t v).valid ≡ true)
  install-IsConsistent = (
    record { sound = install-IsSound; mapped = install-Mapped; back = install-Holds },
    install-contents,
    ap (λ e. e.valid) table_at,
  )
