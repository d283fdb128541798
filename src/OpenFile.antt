-- ===== src/OpenFile.antt =====
-- code/filesys/openfile.cc: reading an open file. A count that is negative in the code is 0 here,
-- which it treats alike.
pub mod Reads
use nachos_system_design.Base.{
  ℕ, zero, suc, ◌+◌, ◌-◌, ◌*◌, ◌/◌, not, ◌&&◌, ◌||◌, List, [], ◌++◌, length, ltb, leb, ◌==◌,
  if◌then◌else◌, take, drop, Run, ok, ◌>>=◌,
}
use nachos_system_design.Disk.{Disk, sector_size, read_sector}
use nachos_system_design.Machine.Word.{add32, is_neg}
use nachos_system_design.FileHeader.{FileHeader, fetch_from, byte_to_sector, file_length}

pub record OpenFile : Type 0 where
  pub hdr : FileHeader
  pub seek_position : ℕ

unfoldable pub new : Disk → ℕ → Run OpenFile
new disk sector = do h ← fetch_from disk sector; ok (record { hdr = h; seek_position = 0 })

unfoldable pub seek : OpenFile → ℕ → OpenFile
seek f position = record f { seek_position = position }

-- The loop that fills the buffer, for the given number of sectors from sector `i` of the file on.
unfoldable pub read_sectors : ℕ → ℕ → FileHeader → Disk → Run (List ℕ)
read_sectors zero i h disk = ok []
read_sectors (suc n) i h disk = do
  sector ← byte_to_sector h disk (i * sector_size)
  bytes ← read_sector disk sector
  rest ← read_sectors n (i + 1) h disk
  ok (bytes ++ rest)

-- How many bytes a request gets. `position + numBytes` is an `int`: the sum may be negative, and
-- then it is not above the length of the file, which is none.
unfoldable pub clipped : ℕ → ℕ → ℕ → ℕ
clipped file_length num_bytes position =
    let end = add32 position num_bytes in
    if not (is_neg end) && ltb file_length end then file_length - position else num_bytes

-- The bytes that are copied to the caller; their number is what `ReadAt` returns.
unfoldable pub read_at : FileHeader → Disk → ℕ → ℕ → Run (List ℕ)
read_at h disk num_bytes position =
    let count = clipped (file_length h) num_bytes position in
    let first_sector = position / sector_size in
    let last_sector = (position + count - 1) / sector_size in
    let copied = do
      buf ← read_sectors (1 + last_sector - first_sector) first_sector h disk
      ok (take count (drop (position - first_sector * sector_size) buf))
    in if num_bytes == 0 || leb (file_length h) position then ok [] else copied

unfoldable pub read : OpenFile → Disk → ℕ → Run (List ℕ × OpenFile)
read f disk num_bytes = do
  bytes ← read_at f.hdr disk num_bytes f.seek_position
  ok (bytes, record f { seek_position = f.seek_position + length bytes })
