-- ===== src/VirtualMemory/Evict.antt =====
-- Project2/code/threads/kernel.cc: giving up the page of a frame.
use nachos_system_design.Base.{
  ℕ, ◌<◌, ◌≡◌, refl, sym, ap, ◌∙◌, inl, inr, true, false, none, some, Option-cases,
}
use nachos_system_design.Bitmap.Bits.{is_marked}
use nachos_system_design.Machine.{num_phys_pages}
use nachos_system_design.VirtualMemory.{Paging, evict_from, evict}
use nachos_system_design.VirtualMemory.Consistent.{contents, IsConsistent, IsVacant}
use nachos_system_design.VirtualMemory.Evicted.{
  invalidate-IsEvicted, evicted-contents, evicted_invalid, evicted-IsVacant,
}

none_is_not_some : {t : ℕ} → none ≡ some t → ⊥
none_is_not_some e = cc

-- Giving up a frame in use leaves it vacant and every page with what it held.
pub evict-IsVacant :
    (s : Paging) (p : ℕ)
    → IsConsistent s
    → p < num_phys_pages
    → is_marked s.memory_manager p ≡ true
    → IsVacant p (evict s p)
      × ((t v : ℕ) → contents (evict s p) t v ≡ contents s t v)
      × ((t v : ℕ) → (s.tables t v).valid ≡ false → ((evict s p).tables t v).valid ≡ false)
unfolding evict evict_from
evict-IsVacant s p c below in_use = elim (Option-cases (s.ppt p).thread) [
  | inl none_there ↦
      rw (none_there, evict_from)
        (
          record {
            sound = c.sound;
            below = below;
            in_use = in_use;
            mapped = c.mapped;
            apart = λ t v here e.
                let by : none ≡ some t =
                  sym none_there
                  ∙ ap (λ q. (s.ppt q).thread) (sym e)
                  ∙ (c.mapped t v here).by_thread in
                none_is_not_some by;
            back = λ q t ne held. c.back q t held;
          },
          λ t v. refl,
          λ t v e. e,
        )
  | inr (t, there) ↦
      rw (there, evict_from)
        (let v : ℕ = (s.ppt p).virtual_page in
          let (here, at) = c.back p t there in
          let x = invalidate-IsEvicted s p t v c.sound here at in
          (
            evicted-IsVacant x c there refl at below in_use,
            evicted-contents x c here at,
            evicted_invalid x,
          ))
]
