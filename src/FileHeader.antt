-- ===== src/FileHeader.antt =====
-- code/filesys/filehdr.cc and filehdr.h of the distributed file system project: which sectors of
-- the disk hold a file. An `int` is its 32-bit pattern.
pub mod Extend
pub mod Image
pub mod Chain
pub mod Direct
pub mod Indirect
pub mod Beyond
use nachos_system_design.Base.{
  ℕ, zero, suc, ◌+◌, ◌-◌, ◌/◌, ◌%◌, ◌^◌, Bool, true, false, Option, none, some, List, [], ◌∷◌, ◌++◌,
  ltb, ◌==◌, if◌then◌else◌, get_or, set, take, drop, replicate, Run, ok, ◌>>=◌, ◌>>◌, assert,
}
use nachos_system_design.Bitmap.{Bitmap, div_round_up}
use nachos_system_design.Bitmap
use nachos_system_design.Disk.{Disk, sector_size, read_sector, write_sector, to_bytes, to_words}

abbrev pub sector_per_indirect : ℕ
sector_per_indirect = 32

abbrev pub num_direct : ℕ
num_direct = 29

-- The `int` -1.
abbrev pub minus_one : ℕ
minus_one = 2 ^ 32 - 1

-- What `FindAndSet` returns, as an `int`.
abbrev pub int_of : Option ℕ → ℕ
int_of none = minus_one
int_of (some s) = s

pub record FileHeader : Type 0 where
  pub num_bytes : ℕ
  pub num_sectors : ℕ
  pub data_sectors : List ℕ
  pub doubly_indirect_sector : ℕ

-- The 32 integers of the object, in the order of its fields, fill a sector.
unfoldable pub image : FileHeader → List ℕ
image h = h.num_bytes ∷ h.num_sectors ∷ h.data_sectors ++ h.doubly_indirect_sector ∷ []

unfoldable pub of_image : List ℕ → FileHeader
of_image ws = record {
  num_bytes = get_or ws 0 0;
  num_sectors = get_or ws 1 0;
  data_sectors = take num_direct (drop 2 ws);
  doubly_indirect_sector = get_or ws 31 0;
}

unfoldable pub fetch_from : Disk → ℕ → Run FileHeader
unfolding of_image
fetch_from disk sector = do bytes ← read_sector disk sector; ok (of_image (to_words bytes))

unfoldable pub write_back : FileHeader → Disk → ℕ → Run Disk
unfolding image
write_back h disk sector = write_sector disk sector (to_bytes (image h))

-- An indirect or doubly indirect header: the 32 pointers of it that a sector holds.
unfoldable pub no_pointers : List ℕ
no_pointers = replicate sector_per_indirect minus_one

unfoldable pub fetch_pointers : Disk → ℕ → Run (List ℕ)
fetch_pointers disk sector = do bytes ← read_sector disk sector; ok (to_words bytes)

unfoldable pub write_pointers : List ℕ → Disk → ℕ → Run Disk
write_pointers pointers disk sector = write_sector disk sector (to_bytes pointers)

-- The loop over the direct table, from index `i` on.
unfoldable pub allocate_direct : ℕ → ℕ → List ℕ → Bitmap → Run (List ℕ × Bitmap)
allocate_direct zero i sectors free_map = ok (sectors, free_map)
allocate_direct (suc n) i sectors free_map = do
  (found, free_map') ← Bitmap.find_and_set free_map
  let sector = int_of found
  assert (ltb sector (2 ^ 31))
  allocate_direct n (i + 1) (set sectors i sector) free_map'

-- The loop over one indirect header; it stops when `wanted` sectors are allocated.
unfoldable pub allocate_indirect : ℕ → ℕ → ℕ → ℕ → List ℕ → Bitmap → Run (List ℕ × Bitmap × ℕ)
allocate_indirect zero i wanted allocated pointers free_map = ok (pointers, free_map, allocated)
allocate_indirect (suc n) i wanted allocated pointers free_map =
    let next = do
      (found, free_map') ← Bitmap.find_and_set free_map
      allocate_indirect n (i + 1) wanted (allocated + 1) (set pointers i (int_of found)) free_map'
    in if ltb allocated wanted then next else ok (pointers, free_map, allocated)

-- The loop over the doubly indirect header: each turn allocates and writes an indirect header.
unfoldable pub allocate_doubly :
    ℕ → ℕ → ℕ → ℕ → List ℕ → Bitmap → Disk → Run (List ℕ × Bitmap × Disk)
allocate_doubly zero i wanted allocated pointers free_map disk = ok (pointers, free_map, disk)
allocate_doubly (suc n) i wanted allocated pointers free_map disk =
    let next = do
      (found, free_map₁) ← Bitmap.find_and_set free_map
      let sector = int_of found
      (indirect, free_map₂, allocated') ←
          allocate_indirect sector_per_indirect 0 wanted allocated no_pointers free_map₁
      disk' ← write_pointers indirect disk sector
      allocate_doubly n (i + 1) wanted allocated' (set pointers i sector) free_map₂ disk'
    in if ltb allocated wanted then next else ok (pointers, free_map, disk)

abbrev pub Storage : Type 0
Storage = FileHeader × Bitmap × Disk

-- The part of `Allocate` past the direct table.
unfoldable pub allocate_rest : FileHeader → Bitmap → Disk → Run Storage
allocate_rest h free_map disk =
    let rest = do
      (found, free_map₁) ← Bitmap.find_and_set free_map
      let sector = int_of found
      (pointers, free_map₂, disk₁) ←
          allocate_doubly sector_per_indirect 0 h.num_sectors num_direct no_pointers free_map₁ disk
      disk₂ ← write_pointers pointers disk₁ sector
      ok (record h { doubly_indirect_sector = sector }, free_map₂, disk₂)
    in if ltb num_direct h.num_sectors then rest else ok (h, free_map, disk)

-- `fileSize` is no negative int. The result is the returned Boolean, with the header, the free map and
-- the disk.
unfoldable pub allocate : FileHeader → Bitmap → Disk → ℕ → Run (Bool × Storage)
allocate h free_map disk file_size = do
  let wanted = div_round_up file_size sector_size
  let h₁ : FileHeader = record h { num_bytes = file_size; num_sectors = wanted }
  clear ← Bitmap.num_clear free_map
  let fits_direct = do
    (sectors, free_map') ← allocate_direct wanted 0 h.data_sectors free_map
    ok (true, (record h₁ { data_sectors = sectors }, free_map', disk))
  let needs_more = do
    (sectors, free_map') ← allocate_direct num_direct 0 h.data_sectors free_map
    s ← allocate_rest (record h₁ { data_sectors = sectors }) free_map' disk
    ok (true, s)
  if ltb clear wanted
      then ok (false, (h₁, free_map, disk))
      else (if ltb wanted num_direct then fits_direct else needs_more)

-- The loop that clears the direct table, from index `i` on.
unfoldable pub clear_direct : ℕ → ℕ → List ℕ → Bitmap → Run Bitmap
clear_direct zero i sectors free_map = ok free_map
clear_direct (suc n) i sectors free_map = do
  free_map' ← Bitmap.clear free_map (get_or sectors i 0)
  clear_direct n (i + 1) sectors free_map'

unfoldable pub clear_pointers : List ℕ → Bitmap → Run Bitmap
clear_pointers [] free_map = ok free_map
clear_pointers (p ∷ ps) free_map = do
  free_map' ← (if p == minus_one then ok free_map else Bitmap.clear free_map p)
  clear_pointers ps free_map'

unfoldable pub clear_indirect : List ℕ → Bitmap → Disk → Run Bitmap
unfolding clear_pointers
clear_indirect [] free_map disk = ok free_map
clear_indirect (p ∷ ps) free_map disk = do
  free_map' ←
      (if p == minus_one then ok free_map else do
        pointers ← fetch_pointers disk p
        cleared ← clear_pointers pointers free_map
        Bitmap.clear cleared p)
  clear_indirect ps free_map' disk

unfoldable pub deallocate : FileHeader → Bitmap → Disk → Run (FileHeader × Bitmap)
unfolding clear_direct clear_indirect
deallocate h free_map disk =
    if ltb h.num_sectors num_direct
    then (do free_map' ← clear_direct h.num_sectors 0 h.data_sectors free_map; ok (h, free_map'))
    else do
      free_map₁ ← clear_direct num_direct 0 h.data_sectors free_map
      pointers ← fetch_pointers disk h.doubly_indirect_sector
      free_map₂ ← clear_indirect pointers free_map₁ disk
      free_map₃ ← Bitmap.clear free_map₂ h.doubly_indirect_sector
      ok (record h { doubly_indirect_sector = 0 }, free_map₃)

-- The entries behind the pointers of a doubly indirect sector, which the code leaves unset, read as 0.
unfoldable pub byte_to_sector : FileHeader → Disk → ℕ → Run ℕ
byte_to_sector h disk offset =
    let sector_offset = offset / sector_size in
    if ltb sector_offset num_direct then ok (get_or h.data_sectors sector_offset 0) else do
      doubly ← fetch_pointers disk h.doubly_indirect_sector
      indirect ← fetch_pointers disk (get_or doubly (sector_offset / sector_per_indirect) 0)
      ok (get_or indirect (sector_offset % sector_per_indirect) 0)

abbrev pub file_length : FileHeader → ℕ
file_length h = h.num_bytes
