-- ===== src/OpenFile/Reads.antt =====
-- code/filesys/openfile.cc: what `ReadAt` and `Read` give.
use native.Mathlib.Nat.{zero-add}
use nachos_system_design.Base.{
  ℕ, zero, suc, ◌+◌, ◌-◌, ◌*◌, ◌/◌, ◌%◌, ◌≤◌, ◌<◌, ◌≡◌, refl, sym, ap, ◌∙◌, ◌⊎◌, ◌^◌, Bool, true,
  false, not, ◌&&◌, ◌||◌, List, [], ◌∷◌, ◌++◌, length, length-append, get_or, take, drop, ltb, leb,
  ◌==◌, lt→ltb, ltb→lt, ltb→le, ok, Returns, arith, Bool-cases, inl, inr, min, length-take,
  length-drop,
}
use nachos_system_design.Machine.Word.{add32, is_neg}
use nachos_system_design.Machine.Word.Laws.{add32-sum}
use nachos_system_design.Disk.{Disk, sector_size, num_sectors_on_disk, read_sector}
use nachos_system_design.FileHeader.{FileHeader, byte_to_sector, file_length}
use nachos_system_design.OpenFile.{read_sectors, clipped, read_at}

get_or-append_left :
    (xs ys : List ℕ) (i d : ℕ) → i < length xs → get_or (xs ++ ys) i d ≡ get_or xs i d
get_or-append_left [] ys i d h = absurd (omega arith)
get_or-append_left (x ∷ xs) ys zero d h = refl
get_or-append_left (x ∷ xs) ys (suc i) d h = get_or-append_left xs ys i d (omega arith)

get_or-append_right :
    (xs ys : List ℕ) (i d : ℕ) → get_or (xs ++ ys) (length xs + i) d ≡ get_or ys i d
get_or-append_right [] ys i d = ap (λ n. get_or ys n d) (zero-add i)
get_or-append_right (x ∷ xs) ys i d =
    let e : length (x ∷ xs) + i ≡ suc (length xs + i) = omega arith in
    ap (λ n. get_or (x ∷ xs ++ ys) n d) e ∙ get_or-append_right xs ys i d

pub get_or-take : (n i d : ℕ) (xs : List ℕ) → i < n → get_or (take n xs) i d ≡ get_or xs i d
get_or-take zero i d xs h = absurd (omega arith)
get_or-take (suc n) i d [] h = refl
get_or-take (suc n) zero d (x ∷ xs) h = refl
get_or-take (suc n) (suc i) d (x ∷ xs) h = get_or-take n i d xs (omega arith)

get_or-drop : (n i d : ℕ) (xs : List ℕ) → get_or (drop n xs) i d ≡ get_or xs (n + i) d
get_or-drop zero i d xs = sym (ap (λ k. get_or xs k d) (zero-add i))
get_or-drop (suc n) i d [] = refl
get_or-drop (suc n) i d (x ∷ xs) =
    let e : suc n + i ≡ suc (n + i) = omega arith in
    get_or-drop n i d xs ∙ sym (ap (λ k. get_or (x ∷ xs) k d) e)

right_of : (a b : Bool) → (a && b) ≡ true → b ≡ true
right_of true b e = e
right_of false b e = cc

-- The file's header leads every sector of the file to a sector of the disk; the sectors are full.
module _ (h : FileHeader) (disk : Disk) (sector : ℕ → ℕ)
    (full : (s : ℕ) → s < num_sectors_on_disk → length (disk s) ≡ sector_size)
    (leads : (i : ℕ)
      → i * sector_size < file_length h
      → (byte_to_sector h disk (i * sector_size) ≡ ok (sector i))
        × (sector i < num_sectors_on_disk)) where
  -- The byte of the file at an offset.
  abbrev pub file_byte : ℕ → ℕ
  file_byte offset = get_or (disk (sector (offset / sector_size))) (offset % sector_size) 0

  record Buffer (n i : ℕ) (buf : List ℕ) : Type 0 where
    size : length buf ≡ n * sector_size
    bytes : (j : ℕ) → j < n * sector_size → get_or buf j 0 ≡ file_byte (i * sector_size + j)

  joined :
      (n i : ℕ) (rest : List ℕ)
      → length (disk (sector i)) ≡ sector_size
      → Buffer n (i + 1) rest
      → (j : ℕ) → j < suc n * sector_size
      → get_or (disk (sector i) ++ rest) j 0 ≡ file_byte (i * sector_size + j)
  joined n i rest here b j lt = elim (Bool-cases (ltb j sector_size)) [
    | inl first ↦
        let below : j < sector_size = ltb→lt j sector_size first in
        let block : (i * sector_size + j) / sector_size ≡ i = omega (arith, below) in
        let place : (i * sector_size + j) % sector_size ≡ j = omega (arith, below) in
        get_or-append_left (disk (sector i)) rest j 0 (omega (arith, below, here))
        ∙ rw (block, place) refl
    | inr later ↦
        let above : sector_size ≤ j = ltb→le j sector_size later in
        let split : j ≡ length (disk (sector i)) + (j - sector_size) = omega (arith, above, here) in
        let same : (i + 1) * sector_size + (j - sector_size) ≡ i * sector_size + j =
          omega (arith, above) in
        ap (λ k. get_or (disk (sector i) ++ rest) k 0) split
        ∙ get_or-append_right (disk (sector i)) rest (j - sector_size) 0
        ∙ b.bytes (j - sector_size) (omega (arith, above))
        ∙ ap file_byte same
  ]

  read_sectors-Buffer :
      (n i : ℕ)
      → (0 < n → (i + n - 1) * sector_size < file_length h)
      → Returns (read_sectors n i h disk) (Buffer n i)
  unfolding read_sectors read_sector
  read_sectors-Buffer zero i inside =
      ([], refl, record { size = refl; bytes = λ j h. absurd (omega arith) })
  read_sectors-Buffer (suc n) i inside =
      let last : (i + suc n - 1) * sector_size < file_length h = inside (omega arith) in
      let (found, in_range) = leads i (omega (arith, last)) in
      let (rest, run, b) = read_sectors-Buffer n (i + 1) (λ _. omega (arith, last)) in
      let here = full (sector i) in_range in
      rw (found, lt→ltb (sector i) num_sectors_on_disk in_range, run)
        (
          disk (sector i) ++ rest,
          refl,
          record {
            size = omega (arith, length-append (disk (sector i)) rest, here, b.size);
            bytes = joined n i rest here b;
          },
        )

  -- What `ReadAt` of a number of bytes at a position gives.
  pub record Reads (num_bytes position : ℕ) (bytes : List ℕ) : Type 0 where
    pub size : length bytes ≡ min num_bytes (file_length h - position)
    pub same : (j : ℕ) → j < length bytes → get_or bytes j 0 ≡ file_byte (position + j)

  -- A number of bytes of the file from a position on.
  pub record Copied (position count : ℕ) (bytes : List ℕ) : Type 0 where
    pub size : length bytes ≡ count
    pub same : (j : ℕ) → j < length bytes → get_or bytes j 0 ≡ file_byte (position + j)

  -- Whatever the sum is as an int, the request is left as it is, or cut at the end of the file.
  pub clipped-cases :
      (num_bytes position : ℕ)
      → (clipped (file_length h) num_bytes position ≡ num_bytes)
        ⊎ ((file_length h < position + num_bytes)
            × (clipped (file_length h) num_bytes position ≡ file_length h - position))
  unfolding clipped add32
  clipped-cases num_bytes position =
      let end : ℕ = (position + num_bytes) % 2 ^ 32 in
      elim (Bool-cases (not (is_neg end) && ltb (file_length h) end)) [
        | inl cut ↦
            let over : ltb (file_length h) end ≡ true = right_of (not (is_neg end)) _ cut in
            let below : file_length h < end = ltb→lt (file_length h) end over in
            inr (omega (arith, below), rw cut refl)
        | inr kept ↦ inl (rw kept refl)
      ]

  clipped-min :
      (num_bytes position : ℕ)
      → position < file_length h
      → position + num_bytes < 2 ^ 31
      → clipped (file_length h) num_bytes position ≡ min num_bytes (file_length h - position)
  unfolding clipped is_neg
  clipped-min num_bytes position inside small =
      rw (add32-sum position num_bytes small, lt→ltb (position + num_bytes) (2 ^ 31) small)
        (ground arith)

  take-Copied :
      (position count : ℕ) (buf : List ℕ)
      → 0 < count
      → Buffer
          (1 + (position + count - 1) / sector_size - position / sector_size)
          (position / sector_size)
          buf
      → Copied position count
          (take count (drop (position - position / sector_size * sector_size) buf))
  take-Copied position count buf pos b =
      let skip = position - position / sector_size * sector_size in
      let all_there : length (take count (drop skip buf)) ≡ count =
        omega (arith, length-take count (drop skip buf), length-drop skip buf, b.size, pos) in
      record {
        size = all_there;
        same = λ j lt.
            let within : j < count = omega (arith, lt, all_there) in
            let same_place : position / sector_size * sector_size + (skip + j) ≡ position + j =
              omega arith in
            get_or-take count j 0 (drop skip buf) within
            ∙ get_or-drop skip j 0 buf
            ∙ b.bytes (skip + j) (omega (arith, within))
            ∙ ap file_byte same_place;
      }

  -- A request whose last byte stands in a sector of the file.
  pub read_at-Copied :
      (num_bytes position : ℕ)
      → (num_bytes == 0 || leb (file_length h) position) ≡ false
      → 0 < clipped (file_length h) num_bytes position
      → (position + clipped (file_length h) num_bytes position - 1) / sector_size * sector_size
        < file_length h
      → Returns
          (read_at h disk num_bytes position)
          (Copied position (clipped (file_length h) num_bytes position))
  unfolding read_at
  read_at-Copied num_bytes position served pos last =
      let count = clipped (file_length h) num_bytes position in
      let (buf, run, b) =
        read_sectors-Buffer (1 + (position + count - 1) / sector_size - position / sector_size)
          (position / sector_size) (λ _. omega (arith, last, pos)) in
      rw (served, run) (_, refl, take-Copied position count buf pos b)

  serves :
      (num_bytes position : ℕ)
      → (num_bytes == 0 || leb (file_length h) position) ≡ false
      → (0 < num_bytes) × (position < file_length h)
  serves num_bytes position e = ground arith

  refuses :
      (num_bytes position : ℕ)
      → (num_bytes == 0 || leb (file_length h) position) ≡ true
      → 0 ≡ min num_bytes (file_length h - position)
  refuses num_bytes position e = ground arith

  -- When the header leads every sector of the file to a sector of the disk, the disk's sectors are
  -- full, and the position and the number of bytes add up to less than 2 ^ 31, `ReadAt` trips no
  -- check: it gives as many bytes as are asked for and as the file has from the position on, and they
  -- are the file's.
  pub read_at-Reads :
      (num_bytes position : ℕ)
      → position + num_bytes < 2 ^ 31
      → Returns (read_at h disk num_bytes position) (Reads num_bytes position)
  unfolding read_at
  read_at-Reads num_bytes position small =
      elim (Bool-cases (num_bytes == 0 || leb (file_length h) position)) [
        | inl nothing ↦ rw nothing (
          [],
          refl,
          record { size = refuses num_bytes position nothing; same = λ j lt. absurd (omega arith) },
        )
        | inr some_bytes ↦
            let (asked, there) = serves num_bytes position some_bytes in
            let e = clipped-min num_bytes position there small in
            let (bytes, run, copied) =
              read_at-Copied num_bytes position some_bytes (omega (arith, e, asked, there))
                (omega (arith, e, asked, there)) in
            (bytes, run, record { size = copied.size ∙ e; same = copied.same })
      ]
