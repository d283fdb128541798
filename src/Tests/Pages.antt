-- ===== src/Tests/Pages.antt =====
-- Project2/code/threads/kernel.cc with every frame taken by a page of thread 0, none of them clean.
use nachos_system_design.Base.{all_below, all_below_sound}
use nachos_system_design.Base.{
  ℕ, zero, suc, ◌+◌, ◌-◌, ◌*◌, ◌/◌, ◌%◌, ◌^◌, ◌≤◌, ◌<◌, min, max, ◌≡◌, refl, sym, ap, ap₂, ◌∙◌,
  subst, fun_ext, ◌≢◌, ◌↔◌, ◌⊎◌, inl, inr, Bool, true, false, not, ◌&&◌, ◌||◌, Option, none, some,
  List, [], ◌∷◌, ◌++◌, map, arith, length, get_or, set, take, drop, replicate, All, length-append,
  length-set, length-replicate, get_or-set, All-set, All-get_or, All-replicate, if◌then◌else◌, ◌==◌,
  ltb, leb, ne→==, eq→==, ==→eq, lt→ltb, ltb→lt, Bool-cases, Option-cases, Run, ok, aborted, ◌>>=◌,
  ◌>>◌, assert, Returns,
}
use nachos_system_design.Bitmap.{Bitmap}
use nachos_system_design.Bitmap.Bits.{IsValid, is_marked}
use nachos_system_design.Machine.{TranslationEntry}
use nachos_system_design.Machine.Word.{less, is_neg}
use nachos_system_design.VirtualMemory.Release.{end_space-IsConsistent}
use nachos_system_design.VirtualMemory.{
  end_space, Paging, Frame, allocate_page, oldest, oldest_from,
}
use nachos_system_design.VirtualMemory.Consistent.{contents, IsConsistent}
use nachos_system_design.VirtualMemory.Faults.{allocate_page-contents, oldest-IsOldest, IsOldest}

abbrev full_map : Bitmap
full_map = record { num_bits = 128; num_words = 4; map = replicate 4 (2 ^ 32 - 1) }

full_map-IsValid : IsValid full_map
full_map-IsValid = record {
  nonempty = omega arith;
  counted = refl;
  sized = refl;
  words = (omega arith, (omega arith, (omega arith, (omega arith, tt))));
}

every_bit : all_below 128 (is_marked full_map) ≡ true
unfolding all_below is_marked nachos_system_design.Base.Bits.bit
every_bit = refl

full_map_marks : (p : ℕ) → p < 128 → is_marked full_map p ≡ true
full_map_marks p h = all_below_sound 128 (is_marked full_map) p every_bit h

dirty_not_clean : true ≡ false → ⊥
dirty_not_clean e = cc

abbrev frames : ℕ → Frame
frames p = record {
  virtual_page = p;
  page_order = 128 - p;
  thread = if ltb p 128 then some 0 else none;
}

abbrev entries : ℕ → ℕ → TranslationEntry
entries t v = record {
  virtual_page = v;
  physical_page = v;
  valid = t == 0 && ltb v 128;
  read_only = false;
  used = true;
  dirty = true;
}

entry_valid : (b : Bool) (t : ℕ) → (if b then some 0 else none) ≡ some t → (t == 0 && b) ≡ true
entry_valid false t e = absurd (none_some e)
  where
    none_some : {u : ℕ} → none ≡ some u → ⊥
    none_some e = cc
entry_valid true t e = rw (eq→== t 0 (sym (some_injective e))) refl
  where
    some_injective : {a b : ℕ} → some a ≡ some b → a ≡ b
    some_injective e = cc

abbrev crowded : Paging
crowded = record {
  ppt = frames;
  memory_manager = full_map;
  page_order = 129;
  tables = entries;
  swap = λ t v. replicate 128 t;
  main_memory = λ p. replicate 128 p;
}

crowded-IsConsistent : IsConsistent crowded
crowded-IsConsistent = record {
  sound = record {
    clean = λ t v here tidy. absurd (dirty_not_clean tidy);
    in_memory = λ p. length-replicate 128 p;
    in_swap = λ t v. length-replicate 128 t;
    map_valid = full_map-IsValid;
    map_sized = refl;
  };
  mapped = λ t v here. record {
    in_range = ground arith;
    marked = full_map_marks v (ground arith);
    by_thread = ground arith;
    by_page = refl;
  };
  back = λ p t held. (entry_valid (ltb p 128) t held, refl);
}

allocate_page-contents_example : Returns (allocate_page 0 crowded 25600) λ s'.
    IsConsistent s'
    × ((s'.tables 0 200).valid ≡ true)
    × ((u v : ℕ) → contents s' u v ≡ contents crowded u v)
allocate_page-contents_example = allocate_page-contents 0 crowded 25600 crowded-IsConsistent refl

-- The last frame has the lowest number here.
oldest_is_last : oldest frames ≡ 127
unfolding oldest oldest_from less is_neg
oldest_is_last = refl

oldest-IsOldest_example : (oldest frames < 128) × IsOldest frames 128 (oldest frames)
oldest-IsOldest_example = oldest-IsOldest frames

beyond_128 : (v : ℕ) → 128 ≤ v → (crowded.tables 0 v).valid ≡ false
beyond_128 v h = ground arith

end_space-IsConsistent_example : Returns (end_space 0 128 crowded) λ s'.
    IsConsistent s'
    × ((q : ℕ) → (s'.ppt q).thread ≢ some 0)
    × ((u v : ℕ) → u ≢ 0 → contents s' u v ≡ contents crowded u v)
end_space-IsConsistent_example =
    end_space-IsConsistent 0 128 crowded crowded-IsConsistent beyond_128
