-- ===== src/Disk.antt =====
-- code/machine/disk.h and the sector transfers of code/filesys/synchdisk.cc: the disk as an array
-- of sectors. A transfer ends before the next begins; `ReadRequest` and `WriteRequest` of
-- code/machine/disk.cc check the sector number.
use nachos_system_design.Base.{
  ℕ, ◌+◌, ◌*◌, ◌/◌, ◌%◌, ◌^◌, ◌<◌, ◌≡◌, refl, ap₂, List, [], ◌∷◌, ltb, ◌==◌, if◌then◌else◌, All,
  length, arith, Run, ok, ◌>>◌, assert,
}

abbrev pub sector_size : ℕ
sector_size = 128

abbrev pub num_sectors_on_disk : ℕ
num_sectors_on_disk = 32 * 32

-- A sector number leads to the bytes of the sector.
abbrev pub Disk : Type 0
Disk = ℕ → List ℕ

unfoldable pub read_sector : Disk → ℕ → Run (List ℕ)
read_sector disk sector = do assert (ltb sector num_sectors_on_disk); ok (disk sector)

abbrev pub with_sector : Disk → ℕ → List ℕ → Disk
with_sector disk sector bytes s = if sector == s then bytes else disk s

unfoldable pub write_sector : Disk → ℕ → List ℕ → Run Disk
write_sector disk sector bytes = do
  assert (ltb sector num_sectors_on_disk)
  ok (with_sector disk sector bytes)

-- The memory image of an array of 32-bit integers, lowest byte first.
unfoldable pub to_bytes : List ℕ → List ℕ
to_bytes [] = []
to_bytes (w ∷ ws) =
    (w % 256) ∷ (w / 256 % 256) ∷ (w / 65536 % 256) ∷ (w / 16777216 % 256) ∷ to_bytes ws

unfoldable pub to_words : List ℕ → List ℕ
to_words (a ∷ b ∷ c ∷ d ∷ bytes) = (a + b * 256 + c * 65536 + d * 16777216) ∷ to_words bytes
to_words bytes = []

-- Integers below 2 ^ 32 that are written out as bytes read back as they were.
pub to_words-to_bytes : (ws : List ℕ) → All (λ w. w < 2 ^ 32) ws → to_words (to_bytes ws) ≡ ws
unfolding to_words to_bytes
to_words-to_bytes [] h = refl
to_words-to_bytes (w ∷ ws) h = ap₂ ◌∷◌ (omega arith) (to_words-to_bytes ws h.1)

pub length-to_bytes : (ws : List ℕ) → length (to_bytes ws) ≡ 4 * length ws
unfolding to_bytes
length-to_bytes [] = refl
length-to_bytes (w ∷ ws) = omega (arith, length-to_bytes ws)
