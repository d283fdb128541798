-- ===== src/FileSystem.antt =====
-- code/filesys/filesys.cc: creating, opening and removing files. The files that hold the directory
-- and the bitmap of free sectors are kept open, and only these functions change them: here they
-- are the directory and the bitmap that `FetchFrom` would give.
pub mod RoundTrip
use nachos_system_design.Base.{
  ℕ, Bool, true, false, Option, none, some, List, if◌then◌else◌, Run, ok, ◌>>=◌,
}
use nachos_system_design.Bitmap.{Bitmap}
use nachos_system_design.Bitmap
use nachos_system_design.Directory.{Directory}
use nachos_system_design.Directory
use nachos_system_design.Disk.{Disk}
use nachos_system_design.FileHeader.{
  FileHeader, Storage, allocate, deallocate, fetch_from, write_back,
}
use nachos_system_design.FileHeader.Extend.{extend_file_size}
use nachos_system_design.OpenFile.{OpenFile}
use nachos_system_design.OpenFile

pub record FileSystem : Type 0 where
  pub directory : Directory
  pub free_map : Bitmap
  pub disk : Disk

-- `fresh` is what `new FileHeader` allocates: only its doubly indirect sector is set, to -1.
module _ (fresh : FileHeader) where
  -- The end of `Create`, with what `Allocate` gave.
  unfoldable pub finish_create :
      FileSystem → Directory → ℕ → Bool × Storage → Run (Bool × FileSystem)
  finish_create fs directory sector (false, stored) = ok (false, fs)
  finish_create fs directory sector (true, (h, free_map, disk)) = do
    disk' ← write_back h disk sector
    ok (true, record { directory = directory; free_map = free_map; disk = disk' })

  -- With a sector for the header and what `Add` gave.
  unfoldable pub enter_file :
      FileSystem → ℕ → Bitmap → ℕ → Directory × Bool → Run (Bool × FileSystem)
  enter_file fs sector free_map size (directory, false) = ok (false, fs)
  enter_file fs sector free_map size (directory, true) = do
    r ← allocate fresh free_map fs.disk size
    finish_create fs directory sector r

  unfoldable pub with_sector_found :
      FileSystem → List ℕ → ℕ → Option ℕ × Bitmap → Run (Bool × FileSystem)
  with_sector_found fs name size (none, free_map) = ok (false, fs)
  with_sector_found fs name size (some sector, free_map) =
      enter_file fs sector free_map size (Directory.add fs.directory name sector)

  unfoldable pub create : FileSystem → List ℕ → ℕ → Run (Bool × FileSystem)
  unfolding with_sector_found
  create fs name size = elim (Directory.find fs.directory name) [
    | some sector ↦ ok (false, fs)
    | none ↦ do r ← Bitmap.find_and_set fs.free_map; with_sector_found fs name size r
  ]

-- `none` is the return value NULL.
unfoldable pub open_file : FileSystem → List ℕ → Run (Option OpenFile)
open_file fs name = elim (Directory.find fs.directory name) [
  | none ↦ ok none
  | some sector ↦ do f ← OpenFile.new fs.disk sector; ok (some f)
]

unfoldable pub remove_file : FileSystem → List ℕ → Run (Bool × FileSystem)
remove_file fs name = elim (Directory.find fs.directory name) [
  | none ↦ ok (false, fs)
  | some sector ↦ do
    h ← fetch_from fs.disk sector
    (h', free_map) ← deallocate h fs.free_map fs.disk
    free_map' ← Bitmap.clear free_map sector
    ok (
      true,
      record fs { directory = (Directory.remove fs.directory name).0; free_map = free_map' },
    )
]

-- `FileSystem::extend` for an open file: its header changes, and the bitmap when it succeeds.
unfoldable pub extend : FileSystem → FileHeader → ℕ → Run (Bool × FileHeader × FileSystem)
extend fs h num_bytes = do
  (result, (h', free_map, disk)) ← extend_file_size h fs.free_map fs.disk num_bytes
  let written = record fs { free_map = free_map; disk = disk }
  let unwritten = record fs { disk = disk }
  ok (result, h', (if result then written else unwritten))
