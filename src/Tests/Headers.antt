-- ===== src/Tests/Headers.antt =====
-- code/filesys/filehdr.cc at a free map of 128 sectors, of which two are in use.
use nachos_system_design.Base.{
  ℕ, ◌≡◌, ◌<◌, ◌/◌, ◌*◌, ◌↔◌, refl, true, false, [], ◌∷◌, arith, ok, aborted, Returns, replicate,
}
use nachos_system_design.Base.Bits.{bit}
use nachos_system_design.Bitmap.{Bitmap}
use nachos_system_design.Bitmap.Bits.{IsValid, is_marked}
use nachos_system_design.Bitmap.Search.{clears}
use nachos_system_design.Disk.{Disk, sector_size, to_words, to_bytes, to_words-to_bytes}
use nachos_system_design.FileHeader.{
  FileHeader, num_direct, minus_one, allocate, deallocate, byte_to_sector,
}
use nachos_system_design.FileHeader.Direct.{allocate-deallocate, allocate-byte_to_sector}
use nachos_system_design.FileHeader.Indirect.{deallocate_full_aborts}
use nachos_system_design.FileHeader.Beyond.{allocate_misses}
use nachos_system_design.FileHeader.Extend.{extend_file_size}
use nachos_system_design.FileHeader.Extend.Overwrites.{extend-overwrites}
use nachos_system_design.FileHeader.Direct.{sectors_for}

abbrev sample : Bitmap
sample = record { num_bits = 128; num_words = 4; map = 3 ∷ 0 ∷ 0 ∷ 0 ∷ [] }

sample-IsValid : IsValid sample
sample-IsValid = record {
  nonempty = omega arith;
  counted = refl;
  sized = refl;
  words = omega arith;
}

sample-clears : clears 128 (is_marked sample) ≡ 126
unfolding clears is_marked bit
sample-clears = refl

abbrev header : FileHeader
header = record {
  num_bytes = 0;
  num_sectors = 0;
  data_sectors = replicate 29 0;
  doubly_indirect_sector = minus_one;
}

abbrev blank_disk : Disk
blank_disk s = []

allocate-deallocate_example : Returns (allocate header sample blank_disk 1000) λ r.
    Returns
      (deallocate (r.1).0 (r.1).1 (r.1).2)
      λ q. IsValid q.1 × (q.1.num_bits ≡ 128) × ((j : ℕ) → is_marked q.1 j ≡ is_marked sample j)
allocate-deallocate_example =
    allocate-deallocate header sample blank_disk 1000 sample-IsValid (omega arith)
      (omega (arith, sample-clears)) (omega arith) (omega arith)

allocate-byte_to_sector_example : Returns (allocate header sample blank_disk 1000) λ r.
    (offset : ℕ)
    → offset < 1000
    → Returns (byte_to_sector (r.1).0 (r.1).2 offset) λ s.
      (is_marked sample s ≡ false)
      × (is_marked (r.1).1 s ≡ true)
      × ((other : ℕ)
          → other < 1000
          → (byte_to_sector (r.1).0 (r.1).2 other ≡ ok s)
            ↔ (other / sector_size ≡ offset / sector_size))
allocate-byte_to_sector_example =
    allocate-byte_to_sector header sample blank_disk 1000 sample-IsValid (omega arith)
      (omega (arith, sample-clears)) (omega arith) (omega arith)

deallocate_full_aborts_example :
    Returns
      (allocate header sample blank_disk 3712)
      λ r. (r.0 ≡ true) × (deallocate (r.1).0 (r.1).1 (r.1).2 ≡ aborted)
deallocate_full_aborts_example =
    deallocate_full_aborts header sample blank_disk 3712 sample-IsValid (omega arith)
      (omega (arith, sample-clears)) refl refl

allocate_misses_example : Returns (allocate header sample blank_disk 4000) λ r.
    (r.0 ≡ true)
    × (num_direct * sector_size < 4000)
    × ((offset : ℕ)
        → offset / sector_size ≡ num_direct
        → byte_to_sector (r.1).0 (r.1).2 offset ≡ ok minus_one)
allocate_misses_example =
    allocate_misses header sample blank_disk 4000 sample-IsValid (omega arith) (omega arith)
      (omega arith) (omega (arith, sample-clears))

words_come_back : to_words (to_bytes (1 ∷ minus_one ∷ [])) ≡ 1 ∷ minus_one ∷ []
words_come_back = to_words-to_bytes (1 ∷ minus_one ∷ []) (omega arith)

-- A file of ten sectors, from the third on.
abbrev ten_sectors : FileHeader
ten_sectors = record {
  num_bytes = 1280;
  num_sectors = 10;
  data_sectors = 2 ∷ 3 ∷ 4 ∷ 5 ∷ 6 ∷ 7 ∷ 8 ∷ 9 ∷ 10 ∷ 11 ∷ replicate 19 0;
  doubly_indirect_sector = minus_one;
}

abbrev in_use : Bitmap
in_use = record { num_bits = 128; num_words = 4; map = 0xfff ∷ 0 ∷ 0 ∷ 0 ∷ [] }

in_use-IsValid : IsValid in_use
in_use-IsValid = record {
  nonempty = omega arith;
  counted = refl;
  sized = refl;
  words = omega arith;
}

in_use-clears : clears 128 (is_marked in_use) ≡ 116
unfolding clears is_marked bit
in_use-clears = refl

extend-overwrites_example : Returns (extend_file_size ten_sectors in_use blank_disk 200) λ r.
    (r.0 ≡ true)
    × ((r.1).0.num_bytes ≡ 1480)
    × ((offset : ℕ)
        → offset / sector_size < sectors_for 200
        → Returns (byte_to_sector (r.1).0 (r.1).2 offset) λ s. is_marked in_use s ≡ false)
extend-overwrites_example =
    extend-overwrites ten_sectors in_use blank_disk 200 in_use-IsValid (omega arith)
      (omega (arith, in_use-clears)) (omega arith) (omega arith) (omega arith)
