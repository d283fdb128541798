-- ===== src/FileHeader/Extend.antt =====
-- code/filesys/filehdr.cc: `FileHeader::extendFileSize`.
pub mod Overwrites
use nachos_system_design.Base.{
  ℕ, zero, suc, ◌+◌, ◌^◌, Bool, true, false, List, ltb, ◌==◌, if◌then◌else◌, get_or, set, Run, ok,
  ◌>>=◌, ◌>>◌, assert,
}
use nachos_system_design.Bitmap.{Bitmap, div_round_up}
use nachos_system_design.Bitmap
use nachos_system_design.Disk.{Disk, sector_size, num_sectors_on_disk}
use nachos_system_design.FileHeader.{
  FileHeader, Storage, sector_per_indirect, num_direct, minus_one, int_of, no_pointers,
  fetch_pointers, write_pointers,
}

-- The loop over the direct table from index `i` on: it writes every entry, used or not.
unfoldable pub extend_direct : ℕ → ℕ → ℕ → List ℕ → Bitmap → Run (List ℕ × Bitmap × ℕ)
extend_direct zero i extra sectors free_map = ok (sectors, free_map, i)
extend_direct (suc n) i extra sectors free_map =
    let next = do
      (found, free_map') ← Bitmap.find_and_set free_map
      let sector = int_of found
      assert (ltb sector (2 ^ 31))
      extend_direct n (i + 1) extra (set sectors i sector) free_map'
    in if ltb i extra then next else ok (sectors, free_map, i)

-- The loop over one indirect header: a pointer in use is passed over.
unfoldable pub extend_indirect : ℕ → ℕ → ℕ → ℕ → List ℕ → Bitmap → Run (List ℕ × Bitmap × ℕ)
extend_indirect zero i extra allocated pointers free_map = ok (pointers, free_map, allocated)
extend_indirect (suc n) i extra allocated pointers free_map =
    let fill = do
      (found, free_map') ← Bitmap.find_and_set free_map
      extend_indirect n (i + 1) extra (allocated + 1) (set pointers i (int_of found)) free_map'
    in let pass = extend_indirect n (i + 1) extra allocated pointers free_map in
      if ltb allocated extra
      then (if get_or pointers i 0 == minus_one then fill else pass)
      else ok (pointers, free_map, allocated)

-- The header that a doubly indirect pointer leads to, allocated if there is none.
unfoldable pub open_indirect : ℕ → Bitmap → Disk → Run (ℕ × List ℕ × Bitmap)
open_indirect pointer free_map disk =
    let fresh = do
      (found, free_map') ← Bitmap.find_and_set free_map
      ok (int_of found, no_pointers, free_map')
    in let there = (do pointers ← fetch_pointers disk pointer; ok (pointer, pointers, free_map)) in
      if pointer == minus_one then fresh else there

unfoldable pub extend_doubly : ℕ → ℕ → ℕ → ℕ → List ℕ → Bitmap → Disk → Run (List ℕ × Bitmap × Disk)
extend_doubly zero i extra allocated pointers free_map disk = ok (pointers, free_map, disk)
extend_doubly (suc n) i extra allocated pointers free_map disk =
    let next = do
      (sector, indirect, free_map₁) ← open_indirect (get_or pointers i 0) free_map disk
      (indirect', free_map₂, allocated') ←
          extend_indirect sector_per_indirect 0 extra allocated indirect free_map₁
      disk' ← write_pointers indirect' disk sector
      extend_doubly n (i + 1) extra allocated' (set pointers i sector) free_map₂ disk'
    in if ltb allocated extra then next else ok (pointers, free_map, disk)

-- The part past the direct table.
unfoldable pub extend_rest : FileHeader → ℕ → ℕ → Bitmap → Disk → Run Storage
extend_rest h extra allocated free_map disk =
    let rest = do
      (sector, pointers, free_map₁) ← open_indirect h.doubly_indirect_sector free_map disk
      (pointers', free_map₂, disk₁) ←
          extend_doubly sector_per_indirect 0 extra allocated pointers free_map₁ disk
      disk₂ ← write_pointers pointers' disk₁ sector
      ok (record h { doubly_indirect_sector = sector }, free_map₂, disk₂)
    in if ltb allocated extra then rest else ok (h, free_map, disk)

-- `fileSize` is no negative int.
unfoldable pub extend_file_size : FileHeader → Bitmap → Disk → ℕ → Run (Bool × Storage)
extend_file_size h free_map disk file_size = do
  let original = div_round_up h.num_bytes sector_size
  let extra = div_round_up file_size sector_size
  clear ← Bitmap.num_clear free_map
  let extend = do
    (sectors, free_map', allocated) ←
        (if ltb original num_direct
          then extend_direct num_direct 0 extra h.data_sectors free_map
          else ok (h.data_sectors, free_map, 0))
    (h', free_map'', disk') ←
        extend_rest (record h { data_sectors = sectors }) extra allocated free_map' disk
    ok (
      true,
      (
        record h' { num_bytes = h'.num_bytes + file_size; num_sectors = h'.num_sectors + extra },
        free_map'',
        disk',
      ),
    )
  if ltb clear extra
      then ok (false, (h, free_map, disk))
      else (if ltb num_sectors_on_disk (original + extra)
          then ok (false, (h, free_map, disk))
          else extend)
