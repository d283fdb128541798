-- ===== src/FileHeader/Indirect.antt =====
-- code/filesys/filehdr.cc: files that fill the direct table or go beyond it.
use nachos_system_design.Base.{
  bind_aborted, get_or-set, length-set, lt→ltb, le→ltb, eq→==, ne→==, ℕ, zero, suc, ◌+◌, ◌^◌, ◌≤◌,
  ◌<◌, ◌≡◌, ◌≢◌, refl, ap, ◌∙◌, true, Option, List, get_or, set, length, All, All-set, ok, aborted,
  Returns, arith,
}
use nachos_system_design.Bitmap.{Bitmap}
use nachos_system_design.Bitmap.Bits.{IsValid, is_marked}
use nachos_system_design.Bitmap.Search.{clears, num_clear-clears, clears-Writes}
use nachos_system_design.Disk.{
  Disk, num_sectors_on_disk, read_sector, with_sector, to_bytes, to_words-to_bytes,
}
use nachos_system_design.FileHeader.{
  FileHeader, num_direct, minus_one, int_of, allocate, deallocate, clear_direct, allocate_indirect,
  allocate_rest, fetch_pointers,
}
use nachos_system_design.FileHeader.Chain.{allocate_direct-Fills, Took, took, find_and_set-Took}
use nachos_system_design.FileHeader.Direct.{sectors_for}

-- Pointers that were written to a sector are fetched from it.
pub fetch-with_sector :
    (disk : Disk) (s : ℕ) (pointers : List ℕ)
    → s < num_sectors_on_disk
    → All (λ w. w < 2 ^ 32) pointers
    → fetch_pointers (with_sector disk s (to_bytes pointers)) s ≡ ok pointers
unfolding fetch_pointers read_sector
fetch-with_sector disk s pointers h words =
    rw (lt→ltb s num_sectors_on_disk h, eq→== s s refl, to_words-to_bytes pointers words)

pub fetch-with_sector_other :
    (disk : Disk) (s t : ℕ) (bytes : List ℕ)
    → s ≢ t
    → fetch_pointers (with_sector disk s bytes) t ≡ fetch_pointers disk t
unfolding fetch_pointers read_sector
fetch-with_sector_other disk s t bytes h = rw (ne→== s t h)

fetch_pointers_bad : (disk : Disk) → fetch_pointers disk minus_one ≡ aborted
unfolding fetch_pointers read_sector
fetch_pointers_bad disk = refl

deallocate_full :
    (h : FileHeader) (b : Bitmap) (disk : Disk)
    → h.num_sectors ≡ num_direct
    → h.doubly_indirect_sector ≡ minus_one
    → deallocate h b disk ≡ aborted
unfolding deallocate
deallocate_full h b disk full unset =
    let bad : fetch_pointers disk h.doubly_indirect_sector ≡ aborted =
      ap (fetch_pointers disk) unset ∙ fetch_pointers_bad disk in
    rw (le→ltb h.num_sectors num_direct (omega arith))
      (bind_aborted (clear_direct num_direct 0 h.data_sectors b) _ (λ b'. rw bad))

-- In a valid map of at most 2 ^ 31 bits with 29 clear, and a header without a doubly indirect
-- sector, a file of exactly 29 sectors is allocated; `Deallocate` of it then aborts.
pub deallocate_full_aborts :
    (h : FileHeader) (b : Bitmap) (disk : Disk) (size : ℕ)
    → IsValid b
    → b.num_bits ≤ 2 ^ 31
    → num_direct ≤ clears b.num_bits (is_marked b)
    → sectors_for size ≡ num_direct
    → h.doubly_indirect_sector ≡ minus_one
    → Returns
        (allocate h b disk size)
        λ r. (r.0 ≡ true) × (deallocate (r.1).0 (r.1).1 (r.1).2 ≡ aborted)
unfolding allocate allocate_rest
deallocate_full_aborts h b disk size v small enough full unset =
    let (r, run, f) = allocate_direct-Fills num_direct 0 h.data_sectors b v small enough in
    rw
      (
        num_clear-clears b,
        le→ltb (clears b.num_bits (is_marked b)) (sectors_for size) (omega arith),
        le→ltb (sectors_for size) num_direct (omega arith),
        run,
        le→ltb num_direct (sectors_for size) (omega arith),
      )
      (_, refl, (refl, deallocate_full _ _ _ full unset))

-- What the loop over one indirect header leaves when the free map suffices: the pointers from the
-- last allocated one on are as before.
pub record Partly (b : Bitmap) (i count wanted : ℕ) (old : List ℕ) (r : List ℕ × Bitmap × ℕ)
    : Type 0 where
  pub reached : r.2 ≡ wanted
  pub length_same : length r.0 ≡ length old
  pub words : All (λ w. w < 2 ^ 32) r.0
  pub untouched : (k : ℕ) → i + count ≤ k → get_or r.0 k 0 ≡ get_or old k 0
  pub valid : IsValid r.1
  pub same_size : (r.1).num_bits ≡ b.num_bits

pub allocate_indirect-Partly :
    (n i allocated wanted count : ℕ) (old : List ℕ) (b : Bitmap)
    → allocated + count ≡ wanted
    → count ≤ n
    → i + count ≤ length old
    → All (λ w. w < 2 ^ 32) old
    → IsValid b
    → b.num_bits ≤ 2 ^ 31
    → count ≤ clears b.num_bits (is_marked b)
    → Returns (allocate_indirect n i wanted allocated old b) (Partly b i count wanted old)
unfolding allocate_indirect
allocate_indirect-Partly zero i allocated wanted count old b sum le room words v small enough = (
  _,
  refl,
  record {
    reached = omega arith;
    length_same = refl;
    words = words;
    untouched = λ k h. refl;
    valid = v;
    same_size = refl;
  },
)
allocate_indirect-Partly (suc n) i allocated wanted zero old b sum le room words v small enough =
    rw (le→ltb allocated wanted (omega arith)) (
      _,
      refl,
      record {
        reached = omega arith;
        length_same = refl;
        words = words;
        untouched = λ k h. refl;
        valid = v;
        same_size = refl;
      },
    )
allocate_indirect-Partly (suc n) i allocated wanted (suc count) old b sum le room words v small
      enough =
    let (r, run, t) = find_and_set-Took b v (omega arith) in
    rw (lt→ltb allocated wanted (omega arith), run)
      (continue r t (allocate_indirect-Partly n (i + 1) (allocated + 1) wanted count))
  where
    continue :
        (r : Option ℕ × Bitmap)
        → Took b r
        → ((old : List ℕ) (b : Bitmap)
            → allocated + 1 + count ≡ wanted
            → count ≤ n
            → i + 1 + count ≤ length old
            → All (λ w. w < 2 ^ 32) old
            → IsValid b
            → b.num_bits ≤ 2 ^ 31
            → count ≤ clears b.num_bits (is_marked b)
            → Returns
                (allocate_indirect n (i + 1) wanted (allocated + 1) old b)
                (Partly b (i + 1) count wanted old))
        → Returns
            (allocate_indirect n (i + 1) wanted (allocated + 1) (set old i (int_of r.0)) r.1)
            (Partly b i (suc count) wanted old)
    continue r (took s b' lt unused w) ih =
        let same = length-set old i s in
        let (q, run, p) =
          ih (set old i s) b' (omega arith) (omega arith) (omega (arith, same))
            (All-set (λ w. w < 2 ^ 32) old i s words (omega arith)) w.valid
            (omega (arith, w.same_size)) (omega (arith, clears-Writes s lt unused w)) in
        (
          q,
          run,
          record {
            reached = p.reached;
            length_same = p.length_same ∙ same;
            words = p.words;
            untouched = λ k h.
                p.untouched k (omega arith) ∙ ground (arith, get_or-set old i k s 0 (omega arith));
            valid = p.valid;
            same_size = p.same_size ∙ w.same_size;
          },
        )
