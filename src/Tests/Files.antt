-- ===== src/Tests/Files.antt =====
-- code/filesys/openfile.cc at a file of ten sectors, on a disk whose sectors hold their numbers.
use nachos_system_design.Base.{
  [], ◌∷◌, List, ◌≡◌, refl, ℕ, ◌<◌, ◌*◌, ◌/◌, arith, ok, get_or, lt→ltb, replicate, length,
  length-replicate, All-get_or, Returns,
}
use nachos_system_design.Disk.{Disk, num_sectors_on_disk}
use nachos_system_design.FileHeader.{FileHeader, minus_one, num_direct, byte_to_sector}
use nachos_system_design.OpenFile.{read_at}
use nachos_system_design.OpenFile.Reads.{Reads, read_at-Reads}
use nachos_system_design.WriteAt.{write_range}
use nachos_system_design.WriteAt.OneSector.{Wrote, write_range-Wrote}

abbrev header : FileHeader
header = record {
  num_bytes = 1280;
  num_sectors = 10;
  data_sectors = 2 ∷ 3 ∷ 4 ∷ 5 ∷ 6 ∷ 7 ∷ 8 ∷ 9 ∷ 10 ∷ 11 ∷ replicate 19 0;
  doubly_indirect_sector = minus_one;
}

abbrev disk : Disk
disk s = replicate 128 s

abbrev sector : ℕ → ℕ
sector i = get_or header.data_sectors i 0

disk-full : (s : ℕ) → s < num_sectors_on_disk → length (disk s) ≡ 128
disk-full s h = length-replicate 128 s

header-leads :
    (i : ℕ)
    → i * 128 < 1280
    → (byte_to_sector header disk (i * 128) ≡ ok (sector i)) × (sector i < num_sectors_on_disk)
unfolding byte_to_sector
header-leads i h =
    let block : i * 128 / 128 ≡ i = omega arith in
    (
      rw (block, lt→ltb i num_direct (omega arith)) refl,
      All-get_or (λ s. s < num_sectors_on_disk) header.data_sectors i 0 (omega arith) (omega arith),
    )

read_at-Reads_example :
    Returns
      (read_at header disk 300 1100)
      (Reads header disk sector disk-full header-leads 300 1100)
read_at-Reads_example =
    read_at-Reads header disk sector disk-full header-leads 300 1100 (omega arith)

abbrev memory : List ℕ
memory = replicate 128 9

-- Bytes 261 to 263 of the file.
write_range-Wrote_example : Returns (write_range memory header disk (1 ∷ 2 ∷ 3 ∷ []) 261) (
    Wrote header disk sector disk-full header-leads memory
      (length-replicate {A = ℕ} 128 9)
      2
      5
      3
      (omega arith)
      (omega arith)
      (omega arith)
      (1 ∷ 2 ∷ 3 ∷ []))
write_range-Wrote_example =
    write_range-Wrote header disk sector disk-full header-leads memory
      (length-replicate {A = ℕ} 128 9) 2 5 3 (omega arith) (omega arith) (omega arith)
      (1 ∷ 2 ∷ 3 ∷ []) refl
