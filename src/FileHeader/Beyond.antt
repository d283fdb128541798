-- ===== src/FileHeader/Beyond.antt =====
-- code/filesys/filehdr.cc: files a little larger than the direct table, whose sectors past it one
-- indirect header holds. `Allocate` fills that header from its start, while `ByteToSector` reads
-- it from the place that the whole file's numbering gives.
use nachos_system_design.Base.{
  lt→ltb, le→ltb, eq→==, ℕ, ◌+◌, ◌*◌, ◌-◌, ◌/◌, ◌%◌, ◌^◌, ◌≤◌, ◌<◌, ◌≡◌, ◌≢◌, refl, ap, ◌∙◌, true,
  false, List, get_or, set, length, All, All-set, All-replicate, Run, ok, ◌>>=◌, Returns, arith,
}
use nachos_system_design.Bitmap.{Bitmap}
use nachos_system_design.Bitmap.Bits.{IsValid, is_marked}
use nachos_system_design.Bitmap.Search.{clears, num_clear-clears, clears-Writes}
use nachos_system_design.Disk.{
  Disk, sector_size, num_sectors_on_disk, write_sector, with_sector, to_bytes,
}
use nachos_system_design.FileHeader.{
  FileHeader, Storage, num_direct, minus_one, no_pointers, sector_per_indirect, allocate,
  byte_to_sector, allocate_direct, allocate_doubly, allocate_rest, fetch_pointers, write_pointers,
}
use nachos_system_design.FileHeader.Chain.{allocate_direct-Fills, Taken, find_and_set-Taken}
use nachos_system_design.FileHeader.Direct.{sectors_for}
use nachos_system_design.FileHeader.Indirect.{
  fetch-with_sector, fetch-with_sector_other, allocate_indirect-Partly,
}

abbrev first_block : ℕ
first_block = num_direct

no_pointers-words : All (λ w. w < 2 ^ 32) no_pointers
unfolding no_pointers
no_pointers-words = All-replicate (λ w. w < 2 ^ 32) 32 minus_one (omega arith)

no_pointers-unset : get_or no_pointers first_block 0 ≡ minus_one
unfolding no_pointers
no_pointers-unset = refl

no_pointers-room : {n : ℕ} → n ≤ 32 → 0 + n ≤ length no_pointers
unfolding no_pointers
no_pointers-room h = omega arith

-- One turn of the loop over the doubly indirect header, which takes all that is wanted.
record Once (b : Bitmap) (disk : Disk) (r : List ℕ × Bitmap × Disk) : Type 0 where
  sector : ℕ
  pointers : List ℕ
  in_range : sector < b.num_bits
  was_free : is_marked b sector ≡ false
  doubly : r.0 ≡ set no_pointers 0 sector
  written : r.2 ≡ with_sector disk sector (to_bytes pointers)
  words : All (λ w. w < 2 ^ 32) pointers
  unset : get_or pointers first_block 0 ≡ minus_one

write_pointers_lem :
    (pointers : List ℕ) (disk : Disk) (s : ℕ)
    → s < num_sectors_on_disk
    → write_pointers pointers disk s ≡ ok (with_sector disk s (to_bytes pointers))
unfolding write_pointers write_sector
write_pointers_lem pointers disk s h = rw (lt→ltb s num_sectors_on_disk h)

module _ (b : Bitmap) (v : IsValid b) (fits : b.num_bits ≤ num_sectors_on_disk) (disk : Disk)
    (wanted : ℕ) (over : num_direct < wanted) (few : wanted ≤ 58) where
  allocate_doubly-Once :
      wanted - num_direct < clears b.num_bits (is_marked b)
      → Returns
          (allocate_doubly sector_per_indirect 0 wanted num_direct no_pointers b disk)
          (Once b disk)
  unfolding allocate_doubly
  allocate_doubly-Once enough =
      let t = find_and_set-Taken b v (omega arith) in
      let w = t.writes in
      let left = clears-Writes t.sector t.in_range t.was_free w in
      let (q, run, p) =
        allocate_indirect-Partly sector_per_indirect 0 num_direct wanted (wanted - num_direct)
          no_pointers t.after (omega arith) (omega arith) (no_pointers-room (omega arith))
          no_pointers-words w.valid (omega (arith, w.same_size)) (omega (arith, left)) in
      let wrote = write_pointers_lem q.0 disk t.sector (omega (arith, t.in_range)) in
      rw
        (
          lt→ltb num_direct wanted over,
          t.run,
          run,
          wrote,
          le→ltb q.2 wanted (omega (arith, p.reached)),
        )
        (
          _,
          refl,
          record {
            sector = t.sector;
            pointers = q.0;
            in_range = t.in_range;
            was_free = t.was_free;
            doubly = refl;
            written = refl;
            words = p.words;
            unset = p.untouched first_block (omega arith) ∙ no_pointers-unset;
          },
        )

-- A header whose doubly indirect sector D points at one indirect sector I, on a disk that holds
-- both.
module _ (disk : Disk) (d i : ℕ) (pointers : List ℕ) (d_in : d < num_sectors_on_disk)
    (i_in : i < num_sectors_on_disk) (apart : d ≢ i) (words : All (λ w. w < 2 ^ 32) pointers) where
  doubly : List ℕ
  doubly = set no_pointers 0 i

  disk_with : Disk
  disk_with =
      with_sector (with_sector disk i (to_bytes pointers)) d (to_bytes (set no_pointers 0 i))

  fetch_doubly : fetch_pointers disk_with d ≡ ok (set no_pointers 0 i)
  unfolding disk_with
  fetch_doubly =
      fetch-with_sector (with_sector disk i (to_bytes pointers)) d (set no_pointers 0 i) d_in
        (All-set (λ w. w < 2 ^ 32) no_pointers 0 i no_pointers-words (omega arith))

  fetch_indirect : fetch_pointers disk_with i ≡ ok pointers
  unfolding disk_with
  fetch_indirect =
      fetch-with_sector_other (with_sector disk i (to_bytes pointers)) d i
        (to_bytes (set no_pointers 0 i)) apart
      ∙ fetch-with_sector disk i pointers i_in words

  first_doubly : get_or (set no_pointers 0 i) 0 0 ≡ i
  unfolding no_pointers
  first_doubly = refl

  byte_to_sector_first :
      (h : FileHeader) (offset : ℕ)
      → h.doubly_indirect_sector ≡ d
      → offset / sector_size ≡ first_block
      → byte_to_sector h disk_with offset ≡ ok (get_or pointers first_block 0)
  unfolding byte_to_sector
  byte_to_sector_first h offset hd block = rw block (
      ap (λ s. fetch_pointers disk_with s >>= after) hd
      ∙ rw (fetch_doubly, first_doubly, fetch_indirect))
    where
      after : List ℕ → Run ℕ
      after doubly =
          fetch_pointers disk_with (get_or doubly (first_block / sector_per_indirect) 0)
          >>= λ indirect. ok (get_or indirect (first_block % sector_per_indirect) 0)

abbrev Misses : Storage → Type 0
Misses r =
    (offset : ℕ) → offset / sector_size ≡ first_block → byte_to_sector r.0 r.2 offset ≡ ok minus_one

module _ (h : FileHeader) (b : Bitmap) (disk : Disk) (fits : b.num_bits ≤ num_sectors_on_disk)
    (over : num_direct < h.num_sectors) where
  rest-Misses :
      (t : Taken b) (q : List ℕ × Bitmap × Disk)
      → allocate_doubly sector_per_indirect 0 h.num_sectors num_direct no_pointers t.after disk
        ≡ ok q
      → Once t.after disk q
      → Returns (allocate_rest h b disk) Misses
  unfolding allocate_rest disk_with
  rest-Misses t q run o =
      let w = t.writes in
      let d_in : t.sector < num_sectors_on_disk = omega (arith, t.in_range) in
      let i_in : o.sector < num_sectors_on_disk = omega (arith, o.in_range, w.same_size) in
      let apart : t.sector ≢ o.sector =
        λ e. ground (arith, e, o.was_free, w.reads o.sector, eq→== t.sector o.sector e) in
      rw
        (lt→ltb num_direct h.num_sectors over, t.run, run, write_pointers_lem q.0 q.2 t.sector d_in)
        (
          _,
          refl,
          λ offset block.
              rw (o.doubly, o.written)
                (byte_to_sector_first disk t.sector o.sector o.pointers d_in i_in apart o.words
                    (record h { doubly_indirect_sector = t.sector }) offset refl block
                  ∙ ap ok o.unset),
        )

  allocate_rest-Misses :
      IsValid b
      → h.num_sectors ≤ 58
      → h.num_sectors - num_direct + 2 ≤ clears b.num_bits (is_marked b)
      → Returns (allocate_rest h b disk) Misses
  allocate_rest-Misses v few enough =
      let t = find_and_set-Taken b v (omega arith) in
      let (q, run, o) =
        allocate_doubly-Once t.after t.writes.valid (omega (arith, t.writes.same_size)) disk
          h.num_sectors over few
          (omega (arith, clears-Writes t.sector t.in_range t.was_free t.writes)) in
      rest-Misses t q run o

module _ (h : FileHeader) (b : Bitmap) (disk : Disk) (size : ℕ) where
  staged : List ℕ → FileHeader
  staged sectors = record h {
    num_bytes = size;
    num_sectors = sectors_for size;
    data_sectors = sectors;
  }

  allocate_over :
      (r : List ℕ × Bitmap) (s : Storage)
      → num_direct < sectors_for size
      → sectors_for size ≤ clears b.num_bits (is_marked b)
      → allocate_direct num_direct 0 h.data_sectors b ≡ ok r
      → allocate_rest (staged r.0) r.1 disk ≡ ok s
      → allocate h b disk size ≡ ok (true, s)
  unfolding allocate staged
  allocate_over r s over enough run run' = rw (
    num_clear-clears b,
    le→ltb (clears b.num_bits (is_marked b)) (sectors_for size) enough,
    le→ltb (sectors_for size) num_direct (omega (arith, over)),
    run,
    run',
  )

  -- In a valid map no larger than the disk, a file of 30 to 58 sectors is allocated, given two
  -- sectors to spare; but the header then gives -1 as the sector of the bytes of its thirtieth
  -- block, which the file has.
  pub allocate_misses :
      IsValid b
      → b.num_bits ≤ num_sectors_on_disk
      → num_direct < sectors_for size
      → sectors_for size ≤ 58
      → sectors_for size + 2 ≤ clears b.num_bits (is_marked b)
      → Returns (allocate h b disk size) λ r.
        (r.0 ≡ true)
        × (num_direct * sector_size < size)
        × ((offset : ℕ)
            → offset / sector_size ≡ num_direct
            → byte_to_sector (r.1).0 (r.1).2 offset ≡ ok minus_one)
  unfolding staged
  allocate_misses v fits over few enough =
      let (r, run, f) =
        allocate_direct-Fills num_direct 0 h.data_sectors b v (omega arith) (omega arith) in
      let (s, run', misses) =
        allocate_rest-Misses (staged r.0) r.1 disk (omega (arith, f.takes.same_size, fits)) over
          f.takes.valid few (omega (arith, f.takes.left, f.count, enough, over)) in
      (
        (true, s),
        allocate_over r s over (omega (arith, enough)) run run',
        (refl, ground arith, misses),
      )
