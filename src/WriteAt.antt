-- ===== src/WriteAt.antt =====
-- code/filesys/openfile.cc: `WriteAt` and `Write`, which have the file system extend a file.
pub mod OneSector
use nachos_system_design.Base.{
  ℕ, zero, suc, ◌+◌, ◌-◌, ◌*◌, ◌/◌, not, ◌&&◌, ◌||◌, List, length, ltb, ◌==◌, if◌then◌else◌, set,
  set_all, take, drop, Run, ok, ◌>>=◌,
}
use nachos_system_design.Disk.{Disk, sector_size, write_sector}
use nachos_system_design.FileHeader.{FileHeader, byte_to_sector, file_length}
use nachos_system_design.OpenFile.{OpenFile, read_at}
use nachos_system_design.FileSystem.{FileSystem, extend}

-- A read into the buffer at an offset.
unfoldable pub read_into : FileHeader → Disk → List ℕ → ℕ → ℕ → Run (List ℕ)
read_into h disk buf offset position = do
  bytes ← read_at h disk sector_size position
  ok (set_all buf offset bytes)

-- The buffer with its first and last sector read in, if they are to be partially modified.
unfoldable pub read_edges : FileHeader → Disk → List ℕ → ℕ → ℕ → Run (List ℕ)
read_edges h disk memory num_bytes position = do
  let first_sector = position / sector_size
  let last_sector = (position + num_bytes - 1) / sector_size
  let first_aligned = position == first_sector * sector_size
  let last_aligned = position + num_bytes == (last_sector + 1) * sector_size
  buf ←
      (if not first_aligned
        then read_into h disk memory 0 (first_sector * sector_size)
        else ok memory)
  if not last_aligned && (not (first_sector == last_sector) || first_aligned)
      then read_into h disk buf ((last_sector - first_sector) * sector_size)
          (last_sector * sector_size)
      else ok buf

-- The bytes to write, and a 0 behind them. A 0 that falls behind the buffer is not kept.
unfoldable pub filled_buffer : List ℕ → List ℕ → ℕ → List ℕ
filled_buffer buf from offset = set (set_all buf offset from) (offset + length from) 0

-- The loop that writes sectors, from sector `i` of the file and the start of the buffer on.
unfoldable pub write_sectors : ℕ → ℕ → FileHeader → List ℕ → Disk → Run Disk
write_sectors zero i h buf disk = ok disk
write_sectors (suc n) i h buf disk = do
  sector ← byte_to_sector h disk (i * sector_size)
  disk' ← write_sector disk sector (take sector_size buf)
  write_sectors n (i + 1) h (drop sector_size buf) disk'

-- `WriteAt` once the file is long enough. `memory` is what `new char[...]` allocates.
unfoldable pub write_range : List ℕ → FileHeader → Disk → List ℕ → ℕ → Run Disk
write_range memory h disk from position = do
  let first_sector = position / sector_size
  let last_sector = (position + length from - 1) / sector_size
  buf ← read_edges h disk memory (length from) position
  write_sectors (1 + last_sector - first_sector) first_sector h
      (filled_buffer buf from (position - first_sector * sector_size)) disk

-- The result is the number of bytes written, with the header and the file system.
unfoldable pub write_at :
    List ℕ → FileSystem → FileHeader → List ℕ → ℕ → Run (ℕ × FileHeader × FileSystem)
write_at memory fs h from position =
    let enlarge = do
      (result, h', fs') ← extend fs h (position + length from - file_length h + 4000)
      disk ← write_range memory h' fs'.disk from position
      ok (length from, h', record fs' { disk = disk })
    in let within = do
      disk ← write_range memory h fs.disk from position
      ok (length from, h, record fs { disk = disk })
      in if length from == 0
        then ok (0, h, fs)
        else (if ltb (file_length h) (position + length from) then enlarge else within)

unfoldable pub write : List ℕ → FileSystem → OpenFile → List ℕ → Run (ℕ × OpenFile × FileSystem)
write memory fs f from = do
  (result, h, fs') ← write_at memory fs f.hdr from f.seek_position
  ok (result, record { hdr = h; seek_position = f.seek_position + result }, fs')
