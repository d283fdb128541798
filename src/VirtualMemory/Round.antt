-- ===== src/VirtualMemory/Round.antt =====
-- Project2/code/userprog/addrspace.cc: one round of the loop that gives the frames of a thread back.
use nachos_system_design.Base.{
  ℕ, ◌+◌, ◌-◌, ◌^◌, ◌≡◌, refl, sym, ap, ap₂, ◌∙◌, subst, ◌≢◌, inl, inr, Bool, true, false, not,
  ◌&&◌, none, some, arith, length, length-replicate, ◌==◌, ltb, ne→==, ==→eq, Bool-cases,
}
use nachos_system_design.Bitmap.{Bitmap}
use nachos_system_design.Bitmap.Bits.{IsValid, Writes}
use nachos_system_design.Machine.{page_size, num_phys_pages}
use nachos_system_design.Scheduler.{with_entry}
use nachos_system_design.Synch.Owner.{clash}
use nachos_system_design.VirtualMemory.{Paging, Frame, zero_page}
use nachos_system_design.VirtualMemory.Consistent.{
  contents, Mapped, Holds, IsConsistent, entry_at, entry_off,
}

-- The pages that the loop has not reached: those of other threads, and those from `k` on.
abbrev pub is_live : ℕ → ℕ → ℕ → ℕ → Bool
is_live t k u v = not (u == t && ltb v k)

-- The state after `k` rounds of the loop of the thread `t`, with the state `s₀` before the loop.
pub record IsReleasing (s₀ : Paging) (t k : ℕ) (s : Paging) : Type 0 where
  pub clean :
      (u v : ℕ)
      → is_live t k u v ≡ true
      → (s.tables u v).valid ≡ true
      → (s.tables u v).dirty ≡ false
      → s.main_memory (s.tables u v).physical_page ≡ s.swap u v
  pub in_memory : (p : ℕ) → length (s.main_memory p) ≡ page_size
  pub map_valid : IsValid s.memory_manager
  pub map_sized : s.memory_manager.num_bits ≡ num_phys_pages
  pub mapped : (u v : ℕ) → is_live t k u v ≡ true → (s.tables u v).valid ≡ true → Mapped s u v
  pub back :
      (q u : ℕ)
      → (s.ppt q).thread ≡ some u
      → Holds s q u × (is_live t k u (s.ppt q).virtual_page ≡ true)
  pub same_tables : s.tables ≡ s₀.tables
  pub same_swap : s.swap ≡ s₀.swap
  pub kept : (u v : ℕ) → is_live t k u v ≡ true → contents s u v ≡ contents s₀ u v

all_live : (t u v : ℕ) → is_live t 0 u v ≡ true
all_live t u v = ground arith

pub start-IsReleasing : (s : Paging) (t : ℕ) → IsConsistent s → IsReleasing s t 0 s
start-IsReleasing s t c = record {
  clean = λ u v live. c.sound.clean u v;
  in_memory = c.sound.in_memory;
  map_valid = c.sound.map_valid;
  map_sized = c.sound.map_sized;
  mapped = λ u v live. c.mapped u v;
  back = λ q u held. (c.back q u held, all_live t u (s.ppt q).virtual_page);
  same_tables = refl;
  same_swap = refl;
  kept = λ u v live. refl;
}

-- The next round.
live_before : (t k u v : ℕ) → is_live t (k + 1) u v ≡ true → is_live t k u v ≡ true
live_before t k u v live = ground arith

module _ (s₀ s : Paging) (t k : ℕ) (x : IsReleasing s₀ t k s) where
  -- Nothing to release.
  pub skip-IsReleasing : (s.tables t k).valid ≡ false → IsReleasing s₀ t (k + 1) s
  skip-IsReleasing out = record {
    clean = λ u v live. x.clean u v (live_before t k u v live);
    in_memory = x.in_memory;
    map_valid = x.map_valid;
    map_sized = x.map_sized;
    mapped = λ u v live. x.mapped u v (live_before t k u v live);
    back = λ q u held. (
      (x.back q u held).0,
      later u (s.ppt q).virtual_page (x.back q u held).1 (x.back q u held).0.0,
    );
    same_tables = x.same_tables;
    same_swap = x.same_swap;
    kept = λ u v live. x.kept u v (live_before t k u v live);
  }
    where
      later :
          (u v : ℕ)
          → is_live t k u v ≡ true
          → (s.tables u v).valid ≡ true
          → is_live t (k + 1) u v ≡ true
      later u v live here = elim (Bool-cases (is_live t (k + 1) u v)) [
        | inl e ↦ e
        | inr e ↦
            (let eu : u ≡ t = ground arith in
              let ev : v ≡ k = ground arith in
              clash (s.tables t k).valid
                (ap₂ (λ a b. (s.tables a b).valid) (sym eu) (sym ev) ∙ here) out)
      ]

  module _ (here : (s.tables t k).valid ≡ true) (map : Bitmap) where
    abbrev frame : ℕ
    frame = (s.tables t k).physical_page

    abbrev released : Paging
    released = record s {
      ppt =
          with_entry s.ppt frame
            (record (s.ppt frame) { virtual_page = 2 ^ 32 - 1; thread = none });
      main_memory = with_entry s.main_memory frame zero_page;
      memory_manager = map;
    }

    at_k : Mapped s t k
    at_k = x.mapped t k (ground arith) here

    -- A page that stays live is in another frame.
    elsewhere :
        (u v : ℕ)
        → is_live t (k + 1) u v ≡ true
        → (s.tables u v).valid ≡ true
        → (s.tables u v).physical_page ≢ frame
    elsewhere u v live valid e =
        let m = x.mapped u v (live_before t k u v live) valid in
        let by : some t ≡ some u =
          sym at_k.by_thread ∙ ap (λ q. (s.ppt q).thread) (sym e) ∙ m.by_thread in
        let page : k ≡ v =
          sym at_k.by_page ∙ ap (λ q. (s.ppt q).virtual_page) (sym e) ∙ m.by_page in
        let same : t ≡ u = cc in ground arith

    frame_apart : (q : ℕ) → q ≢ frame → released.ppt q ≡ s.ppt q
    frame_apart q ne = entry_off s.ppt frame _ q λ e. ne (sym e)

    memory_apart : (q : ℕ) → q ≢ frame → released.main_memory q ≡ s.main_memory q
    memory_apart q ne = entry_off s.main_memory frame zero_page q λ e. ne (sym e)

    -- A frame that still names a thread is another one.
    not_released : (q u : ℕ) → (released.ppt q).thread ≡ some u → q ≢ frame
    not_released q u held e =
        let gone : (released.ppt q).thread ≡ none =
          ap (λ p. (released.ppt p).thread) e ∙ ap (λ f. f.thread) (entry_at s.ppt frame _) in
        let both : none ≡ some u = sym gone ∙ held in cc

    contents_apart :
        (u v : ℕ) → is_live t (k + 1) u v ≡ true → contents released u v ≡ contents s u v
    unfolding contents
    contents_apart u v live = elim (Bool-cases (s.tables u v).valid) [
      | inl e ↦ rw e (memory_apart (s.tables u v).physical_page (elsewhere u v live e))
      | inr e ↦ rw e refl
    ]

    -- The page that another frame names is still live.
    live_after :
        (q u : ℕ)
        → q ≢ frame
        → (s.ppt q).thread ≡ some u
        → is_live t (k + 1) u (s.ppt q).virtual_page ≡ true
    live_after q u ne held = elim (Bool-cases (is_live t (k + 1) u (s.ppt q).virtual_page)) [
      | inl e ↦ e
      | inr e ↦
          (let ((_, at), live) = x.back q u held in
            let eu : u ≡ t = ground arith in
            let ev : (s.ppt q).virtual_page ≡ k = ground arith in
            absurd (ne (sym at ∙ ap₂ (λ a b. (s.tables a b).physical_page) eu ev)))
    ]

    back_after :
        (q u : ℕ)
        → q ≢ frame
        → (released.ppt q).thread ≡ some u
        → Holds released q u × (is_live t (k + 1) u (released.ppt q).virtual_page ≡ true)
    back_after q u ne held =
        let e = frame_apart q ne in
        let held' = ap (λ f. f.thread) (sym e) ∙ held in
        subst
          (λ (f : Frame).
            (((s.tables u f.virtual_page).valid ≡ true)
              × ((s.tables u f.virtual_page).physical_page ≡ q))
            × (is_live t (k + 1) u f.virtual_page ≡ true))
          (sym e) ((x.back q u held').0, live_after q u ne held')

    pub release-IsReleasing :
        Writes s.memory_manager frame false map → IsReleasing s₀ t (k + 1) released
    release-IsReleasing w = record {
      clean = λ u v live valid tidy.
          memory_apart (s.tables u v).physical_page (elsewhere u v live valid)
          ∙ x.clean u v (live_before t k u v live) valid tidy;
      in_memory = λ q. elim (Bool-cases (q == frame)) [
        | inl e ↦
            (let at : q ≡ frame = ==→eq q frame e in
              ap length (ap released.main_memory at ∙ entry_at s.main_memory frame zero_page)
              ∙ length-replicate {A = ℕ} page_size 0)
        | inr e ↦ ap length (memory_apart q (ground arith)) ∙ x.in_memory q
      ];
      map_valid = w.valid;
      map_sized = w.same_size ∙ x.map_sized;
      mapped = λ u v live valid.
          let m = x.mapped u v (live_before t k u v live) valid in
          let ne = elsewhere u v live valid in
          record {
            in_range = m.in_range;
            marked =
                w.reads (s.tables u v).physical_page
                ∙ rw (ne→== frame (s.tables u v).physical_page (λ e. ne (sym e))) m.marked;
            by_thread =
                ap (λ f. f.thread) (frame_apart (s.tables u v).physical_page ne) ∙ m.by_thread;
            by_page =
                ap (λ f. f.virtual_page) (frame_apart (s.tables u v).physical_page ne) ∙ m.by_page;
          };
      back = λ q u held. back_after q u (not_released q u held) held;
      same_tables = x.same_tables;
      same_swap = x.same_swap;
      kept = λ u v live. contents_apart u v live ∙ x.kept u v (live_before t k u v live);
    }
