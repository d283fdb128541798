-- ===== src/FileHeader/Direct.antt =====
-- code/filesys/filehdr.cc: files that the direct table holds, from `Allocate` to `Deallocate`.
use native.Mathlib.Nat.{zero-add}
use nachos_system_design.Base.{
  ok_injective, ◌↔◌, set_all, get_or-set_all, lt→ltb, le→ltb, subst, sym, ℕ, ◌/◌, ◌^◌, ◌≤◌, ◌<◌,
  ◌≡◌, refl, ap, ◌∙◌, Bool, true, false, get_or, length, ok, ◌>>=◌, Returns, arith,
}
use nachos_system_design.Bitmap.{Bitmap, div_round_up}
use nachos_system_design.Bitmap.Bits.{IsValid, is_marked}
use nachos_system_design.Bitmap.Search.{clears, num_clear-clears}
use nachos_system_design.Disk.{Disk, sector_size}
use nachos_system_design.FileHeader.{
  FileHeader, Storage, num_direct, allocate, deallocate, byte_to_sector, clear_direct,
}
use nachos_system_design.FileHeader.Chain.{
  Fills, allocate_direct-Fills, clear_direct-Gives, IsDistinct-get_or, listed-get_or,
}

abbrev pub sectors_for : ℕ → ℕ
sectors_for size = div_round_up size sector_size

-- What `Allocate` of a file in the direct table does.
pub record Allocates (h : FileHeader) (b : Bitmap) (disk : Disk) (size : ℕ) (r : Bool × Storage)
    : Type 0 where
  pub accepted : r.0 ≡ true
  pub fills : Fills b (sectors_for size) 0 h.data_sectors ((r.1).0.data_sectors, (r.1).1)
  pub bytes : (r.1).0.num_bytes ≡ size
  pub count : (r.1).0.num_sectors ≡ sectors_for size
  pub same_doubly : (r.1).0.doubly_indirect_sector ≡ h.doubly_indirect_sector
  pub same_disk : (r.1).2 ≡ disk

deallocate_direct :
    (h : FileHeader) (b : Bitmap) (disk : Disk)
    → h.num_sectors < num_direct
    → deallocate h b disk ≡ (clear_direct h.num_sectors 0 h.data_sectors b >>= λ b'. ok (h, b'))
unfolding deallocate
deallocate_direct h b disk direct = rw (lt→ltb _ _ direct)

module _ (h : FileHeader) (b : Bitmap) (disk : Disk) (size : ℕ) where
  -- Without enough free sectors `Allocate` returns FALSE and takes none.
  pub allocate_refuses :
      clears b.num_bits (is_marked b) < sectors_for size
      → allocate h b disk size
        ≡ ok (false, (record h { num_bytes = size; num_sectors = sectors_for size }, b, disk))
  unfolding allocate
  allocate_refuses few = rw (num_clear-clears b, lt→ltb _ _ few)

  module _ (v : IsValid b) (small : b.num_bits ≤ 2 ^ 31)
      (enough : sectors_for size ≤ clears b.num_bits (is_marked b))
      (direct : sectors_for size < num_direct) where
    pub allocate-Allocates : Returns (allocate h b disk size) (Allocates h b disk size)
    unfolding allocate
    allocate-Allocates =
        let (r, run, f) =
          allocate_direct-Fills (sectors_for size) 0 h.data_sectors b v small enough in
        rw (num_clear-clears b, le→ltb _ _ enough, lt→ltb _ _ direct, run)
          (
            _,
            refl,
            record {
              accepted = refl;
              fills = f;
              bytes = refl;
              count = refl;
              same_doubly = refl;
              same_disk = refl;
            },
          )

    module _ (room : num_direct ≤ length h.data_sectors) where
      pub sector_at :
          {r : Bool × Storage} (a : Allocates h b disk size r) (k : ℕ)
          → k < sectors_for size
          → get_or (r.1).0.data_sectors k 0 ≡ get_or a.fills.sectors k 0
      sector_at a k lt =
          ap (λ ds. get_or ds k 0) a.fills.placed
          ∙ ap (λ n. get_or (set_all h.data_sectors 0 a.fills.sectors) n 0) (sym (zero-add k))
          ∙ get_or-set_all a.fills.sectors h.data_sectors 0 k 0 (omega (arith, a.fills.count))
              (omega (arith, a.fills.count))

      pub deallocate-Allocates :
          {r : Bool × Storage} (disk' : Disk)
          → Allocates h b disk size r
          → Returns (deallocate (r.1).0 (r.1).1 disk') λ q.
            IsValid q.1 × (q.1.num_bits ≡ b.num_bits) × ((j : ℕ) → is_marked q.1 j ≡ is_marked b j)
      deallocate-Allocates {r} disk' a =
          let f = a.fills in
          let t = f.takes in
          let (b', run, g) =
            clear_direct-Gives f.sectors (r.1).0.data_sectors 0 (r.1).1 t.valid
              (λ j l. subst (λ n. j < n) (sym t.same_size) (t.were_free j l).0)
              (λ k lt.
                ap (λ n. get_or (r.1).0.data_sectors n 0) (zero-add k)
                ∙ sector_at a k (omega (arith, f.count))) in
          let n = f.count ∙ sym a.count in
          rw (deallocate_direct (r.1).0 (r.1).1 disk' (omega (arith, a.count)), ← n, run)
            (
              _,
              refl,
              (
                g.valid,
                g.same_size ∙ t.same_size,
                λ j. ground (arith, g.reads j, t.reads j, t.were_free j),
              ),
            )

      -- For a file of fewer than 29 sectors and a valid map of at most 2 ^ 31 bits with as many
      -- clear, `Allocate` returns and `Deallocate` of the header it leaves undoes it: the map is
      -- valid again, of the same size, and every sector is as free or used as it was before.
      pub allocate-deallocate : Returns (allocate h b disk size) λ r.
          Returns (deallocate (r.1).0 (r.1).1 (r.1).2) λ q.
            IsValid q.1 × (q.1.num_bits ≡ b.num_bits) × ((j : ℕ) → is_marked q.1 j ≡ is_marked b j)
      allocate-deallocate =
          let (r, run, a) = allocate-Allocates in (r, run, deallocate-Allocates (r.1).2 a)

      located :
          {r : Bool × Storage}
          → Allocates h b disk size r
          → (offset : ℕ) → offset < size
          → (offset / sector_size < sectors_for size)
            × (byte_to_sector (r.1).0 (r.1).2 offset
                ≡ ok (get_or (r.1).0.data_sectors (offset / sector_size) 0))
      unfolding byte_to_sector
      located a offset lt =
          let inside : offset / sector_size < sectors_for size = ground arith in
          (inside, rw (lt→ltb (offset / sector_size) num_direct (omega (arith, inside, direct))))

      -- For a file of fewer than 29 sectors and a valid map of at most 2 ^ 31 bits with as many
      -- clear, `Allocate` returns, and then every byte of the file has a sector, which was free and
      -- is in use, and two bytes of it share a sector exactly when they stand in the same block of
      -- 128.
      pub allocate-byte_to_sector : Returns (allocate h b disk size) λ r.
          (offset : ℕ)
          → offset < size
          → Returns (byte_to_sector (r.1).0 (r.1).2 offset) λ s.
            (is_marked b s ≡ false)
            × (is_marked (r.1).1 s ≡ true)
            × ((other : ℕ)
                → other < size
                → (byte_to_sector (r.1).0 (r.1).2 other ≡ ok s)
                  ↔ (other / sector_size ≡ offset / sector_size))
      allocate-byte_to_sector =
          let (r, run, a) = allocate-Allocates in
          let f = a.fills in
          (
            r,
            run,
            λ offset lt.
                let (inside, at) = located a offset lt in
                let k = offset / sector_size in
                let here = sector_at a k inside in
                let in_list = listed-get_or f.sectors k (omega (arith, f.count, inside)) in
                (
                  _,
                  at,
                  (
                    rw here (f.takes.were_free _ in_list).1,
                    rw here (ground (arith, f.takes.reads (get_or f.sectors k 0), in_list)),
                    λ other lt'.
                        let (inside', at') = located a other lt' in
                        let there = sector_at a (other / sector_size) inside' in
                        (
                          λ e.
                              IsDistinct-get_or f.sectors (other / sector_size) k f.distinct
                                (omega (arith, f.count, inside')) (omega (arith, f.count, inside))
                                (sym there ∙ ok_injective (sym at' ∙ e) ∙ here),
                          λ e. at' ∙ ap (λ n. ok (get_or (r.1).0.data_sectors n 0)) e,
                        ),
                  ),
                ),
          )
