-- ===== src/FileHeader/Extend/Overwrites.antt =====
-- code/filesys/filehdr.cc: `FileHeader::extendFileSize` on a file within the direct table.
use native.Mathlib.Nat.{zero-add}
use nachos_system_design.Base.{
  ℕ, zero, suc, ◌+◌, ◌/◌, ◌^◌, ◌≤◌, ◌<◌, ◌≡◌, refl, sym, ap, ◌∙◌, true, false, List, ltb, lt→ltb,
  le→ltb, get_or, set, set_all, get_or-set_all, length, ok, ◌>>=◌, assert, Returns, bind-bind,
  bind_congr, arith,
}
use nachos_system_design.Bitmap.{Bitmap}
use nachos_system_design.Bitmap
use nachos_system_design.Bitmap.Bits.{IsValid, is_marked}
use nachos_system_design.Bitmap.Search.{clears, num_clear-clears}
use nachos_system_design.Disk.{Disk, sector_size, num_sectors_on_disk}
use nachos_system_design.FileHeader.{
  FileHeader, num_direct, int_of, allocate_direct, byte_to_sector,
}
use nachos_system_design.FileHeader.Extend.{extend_direct, extend_rest, extend_file_size}
use nachos_system_design.FileHeader.Chain.{Fills, allocate_direct-Fills, listed-get_or}
use nachos_system_design.FileHeader.Direct.{sectors_for}

-- While sectors are wanted, the loop does what the loop of `Allocate` does.
extend_direct-allocate_direct :
    (k n i extra : ℕ) (sectors : List ℕ) (b : Bitmap)
    → i + k ≡ extra
    → k ≤ n
    → extend_direct n i extra sectors b
      ≡ (allocate_direct k i sectors b >>= λ r. ok (r.0, r.1, extra))
unfolding extend_direct allocate_direct
extend_direct-allocate_direct zero zero i extra sectors b e le =
    ap (λ n. ok (sectors, b, n)) (omega (arith, e))
extend_direct-allocate_direct zero (suc n) i extra sectors b e le =
    rw (le→ltb i extra (omega (arith, e))) (ap (λ n. ok (sectors, b, n)) (omega (arith, e)))
extend_direct-allocate_direct (suc k) zero i extra sectors b e le = absurd (omega arith)
extend_direct-allocate_direct (suc k) (suc n) i extra sectors b e le =
    rw (lt→ltb i extra (omega (arith, e))) (
      bind_congr (Bitmap.find_and_set b) _ _ (λ p.
        bind_congr (assert (ltb (int_of p.0) (2 ^ 31))) _ _ (λ _.
          extend_direct-allocate_direct k n (i + 1) extra (set sectors i (int_of p.0)) p.1
            (omega arith) (omega arith))
        ∙ sym (bind-bind (assert (ltb (int_of p.0) (2 ^ 31))) _ _))
      ∙ sym (bind-bind (Bitmap.find_and_set b) _ _))

module _ (h : FileHeader) (b : Bitmap) (disk : Disk) (size : ℕ) (v : IsValid b)
    (fits : b.num_bits ≤ num_sectors_on_disk)
    (enough : sectors_for size ≤ clears b.num_bits (is_marked b))
    (few_more : sectors_for size < num_direct) (there : sectors_for h.num_bytes < num_direct)
    (table : num_direct ≤ length h.data_sectors) where
  placed_at :
      (q : List ℕ × Bitmap) (f : Fills b (sectors_for size) 0 h.data_sectors q) (k : ℕ)
      → k < sectors_for size
      → get_or q.0 k 0 ≡ get_or f.sectors k 0
  placed_at q f k lt =
      ap (λ ds. get_or ds k 0) f.placed
      ∙ ap (λ n. get_or (set_all h.data_sectors 0 f.sectors) n 0) (sym (zero-add k))
      ∙ get_or-set_all f.sectors h.data_sectors 0 k 0 (omega (arith, f.count))
          (omega (arith, f.count, lt))

  moved :
      (q : List ℕ × Bitmap) (f : Fills b (sectors_for size) 0 h.data_sectors q) (offset : ℕ)
      → offset / sector_size < sectors_for size
      → Returns
          (byte_to_sector
            (record h {
              num_bytes = h.num_bytes + size;
              num_sectors = h.num_sectors + sectors_for size;
              data_sectors = q.0;
            })
            disk
            offset)
          λ s. is_marked b s ≡ false
  unfolding byte_to_sector
  moved q f offset lt =
      let k = offset / sector_size in
      let inside : k < length f.sectors = omega (arith, f.count, lt) in
      let at : get_or q.0 k 0 ≡ get_or f.sectors k 0 = placed_at q f k lt in
      rw (lt→ltb k num_direct (omega (arith, lt))) (
        _,
        refl,
        rw at (f.takes.were_free (get_or f.sectors k 0) (listed-get_or f.sectors k inside)).1,
      )

  -- In a valid map no larger than the disk, with enough sectors clear, `extendFileSize` of a file in
  -- the direct table by fewer than 29 sectors succeeds and adds to the length; but every byte of the
  -- first blocks of the file, as many as were added, then leads to a sector that was free before.
  pub extend-overwrites : Returns (extend_file_size h b disk size) λ r.
      (r.0 ≡ true)
      × ((r.1).0.num_bytes ≡ h.num_bytes + size)
      × ((offset : ℕ)
          → offset / sector_size < sectors_for size
          → Returns (byte_to_sector (r.1).0 (r.1).2 offset) λ s. is_marked b s ≡ false)
  unfolding extend_file_size extend_rest
  extend-overwrites =
      let (q, run, f) =
        allocate_direct-Fills (sectors_for size) 0 h.data_sectors b v (omega (arith, fits))
          enough in
      rw
        (
          num_clear-clears b,
          le→ltb _ _ enough,
          lt→ltb (sectors_for h.num_bytes) num_direct there,
          le→ltb num_sectors_on_disk (sectors_for h.num_bytes + sectors_for size) (omega arith),
          extend_direct-allocate_direct (sectors_for size) num_direct 0 (sectors_for size)
              h.data_sectors b (zero-add (sectors_for size)) (omega arith),
          run,
          le→ltb (sectors_for size) (sectors_for size) (omega arith),
        )
        (_, refl, (refl, refl, λ offset lt. moved q f offset lt))
