-- ===== src/WriteAt/OneSector.antt =====
-- code/filesys/openfile.cc: `WriteAt` of bytes that stand in one sector of the file.
use native.Mathlib.Nat.{zero-add}
use nachos_system_design.Base.{
  ℕ, zero, suc, ◌+◌, ◌-◌, ◌*◌, ◌/◌, ◌%◌, ◌≤◌, ◌<◌, ◌≡◌, ◌≢◌, refl, sym, ap, ◌∙◌, ◌⊎◌, List, length,
  length-set, length-set_all, get_or, get_or-set, get_or-set_all, get_or-set_all_outside, set,
  set_all, take, ltb, lt→ltb, eq→==, ne→==, ◌==◌, if◌then◌else◌, ok, Returns, arith, [], ◌∷◌,
  length-take, ltb→lt, ltb→le, leb, false, ◌||◌, Bool-cases, inl, inr,
}
use nachos_system_design.Disk.{Disk, sector_size, num_sectors_on_disk, with_sector, write_sector}
use nachos_system_design.FileHeader.{FileHeader, byte_to_sector, file_length}
use nachos_system_design.OpenFile.Reads.{file_byte, read_at-Copied, clipped-cases, get_or-take}
use nachos_system_design.WriteAt.{read_into, read_edges, filled_buffer, write_sectors, write_range}

set_past : (xs : List ℕ) (i v : ℕ) → length xs ≤ i → set xs i v ≡ xs
set_past [] i v h = refl
set_past (x ∷ xs) zero v h = absurd (omega arith)
set_past (x ∷ xs) (suc i) v h = ap (λ t. x ∷ t) (set_past xs i v (omega arith))

served_at : (position size : ℕ) → position < size → (sector_size == 0 || leb size position) ≡ false
served_at position size lt = ground arith

module _ (h : FileHeader) (disk : Disk) (sector : ℕ → ℕ)
    (full : (s : ℕ) → s < num_sectors_on_disk → length (disk s) ≡ sector_size)
    (leads : (i : ℕ)
      → i * sector_size < file_length h
      → (byte_to_sector h disk (i * sector_size) ≡ ok (sector i))
        × (sector i < num_sectors_on_disk))
    (memory : List ℕ) (memory_size : length memory ≡ sector_size) (k off n : ℕ)
    (inside : off + n ≤ sector_size) (some_bytes : 0 < n)
    (there : k * sector_size + off + n ≤ file_length h) where
  -- The buffer holds what the file has outside of the bytes to write.
  record Holds (buf : List ℕ) : Type 0 where
    size : length buf ≡ sector_size
    same :
        (j : ℕ)
        → k * sector_size + j < file_length h
        → (j < off) ⊎ ((off + n ≤ j) × (j < sector_size))
        → get_or buf j 0 ≡ file_byte h disk sector full leads (k * sector_size + j)

  read_into-Holds : Returns (read_into h disk memory 0 (k * sector_size)) Holds
  unfolding read_into
  read_into-Holds =
      let served = served_at (k * sector_size) (file_length h) (omega (arith, there, some_bytes)) in
      let kinds = clipped-cases h disk sector full leads sector_size (k * sector_size) in
      let (bytes, run, r) =
        read_at-Copied h disk sector full leads sector_size (k * sector_size) served
          (ground (arith, kinds, there, some_bytes)) (ground (arith, kinds, there, some_bytes)) in
      rw run (
        set_all memory 0 bytes,
        refl,
        record {
          size = length-set_all bytes memory 0 ∙ memory_size;
          same = λ j lt outside.
              let among : j < length bytes = ground (arith, r.size, kinds) in
              ap (λ i. get_or (set_all memory 0 bytes) i 0) (sym (zero-add j))
              ∙ get_or-set_all bytes memory 0 j 0 (ground (arith, r.size, kinds, memory_size)) among
              ∙ r.same j among;
        },
      )

  abbrev pub position : ℕ
  position = k * sector_size + off

  read_edges-Holds : Returns (read_edges h disk memory n position) Holds
  unfolding read_edges
  read_edges-Holds =
      let first : position / sector_size ≡ k = omega arith in
      let last : (position + n - 1) / sector_size ≡ k = omega arith in
      let (buf, run, holds) = read_into-Holds in
      let start : (k - k) * sector_size ≡ 0 = omega arith in
      rw (first, last, eq→== k k refl)
        (elim (Bool-cases (position == k * sector_size)) [
          | inr unaligned ↦ elim (Bool-cases (position + n == (k + 1) * sector_size)) [
            | inl ends ↦ rw (unaligned, ends, run) (buf, refl, holds)
            | inr stops ↦ rw (unaligned, stops, run) (buf, refl, holds)
          ]
          | inl aligned ↦ elim (Bool-cases (position + n == (k + 1) * sector_size)) [
            | inl ends ↦
                rw (aligned, ends)
                  (
                    memory,
                    refl,
                    record {
                      size = memory_size;
                      same = λ j lt outside. absurd (ground (arith, aligned, ends));
                    },
                  )
            | inr stops ↦ rw (aligned, stops, start, run) (buf, refl, holds)
          ]
        ])

  -- What a write of the bytes leaves on the disk.
  pub record Wrote (from : List ℕ) (disk' : Disk) : Type 0 where
    pub others : (t : ℕ) → t ≢ sector k → disk' t ≡ disk t
    pub size : length (disk' (sector k)) ≡ sector_size
    pub written : (j : ℕ) → j < n → get_or (disk' (sector k)) (off + j) 0 ≡ get_or from j 0
    pub behind : off + n < sector_size → get_or (disk' (sector k)) (off + n) 0 ≡ 0
    pub kept :
        (j : ℕ)
        → k * sector_size + j < file_length h
        → (j < off) ⊎ ((off + n < j) × (j < sector_size))
        → get_or (disk' (sector k)) j 0 ≡ get_or (disk (sector k)) j 0

  -- The sector that is written, from a buffer that holds the rest.
  abbrev written_sector : List ℕ → List ℕ → List ℕ
  written_sector buf from = take sector_size (set (set_all buf off from) (off + n) 0)

  written-entry :
      (buf from : List ℕ) (j : ℕ)
      → length buf ≡ sector_size
      → j < sector_size
      → get_or (written_sector buf from) j 0
        ≡ (if off + n == j then 0 else get_or (set_all buf off from) j 0)
  written-entry buf from j size lt =
      get_or-take sector_size j 0 (set (set_all buf off from) (off + n) 0) lt
      ∙ elim (Bool-cases (ltb (off + n) sector_size)) [
        | inl room ↦
            get_or-set (set_all buf off from) (off + n) j 0 0
              (omega (arith, length-set_all from buf off, size, ltb→lt (off + n) sector_size room))
        | inr full_up ↦
            let at_end = ltb→le (off + n) sector_size full_up in
            let same =
              set_past (set_all buf off from) (off + n) 0
                (omega (arith, length-set_all from buf off, size, at_end)) in
            ap (λ xs. get_or xs j 0) same ∙ rw (ne→== (off + n) j (omega (arith, at_end, lt))) refl
      ]

  with_sector-Wrote :
      (buf from : List ℕ)
      → length from ≡ n
      → Holds buf
      → Wrote from (with_sector disk (sector k) (written_sector buf from))
  with_sector-Wrote buf from e holds =
      let here = eq→== (sector k) (sector k) refl in
      let fits : off + length from ≤ length buf = omega (arith, e, inside, holds.size) in
      let entry = λ (j : ℕ) (lt : j < sector_size). written-entry buf from j holds.size lt in
      let outside = λ (j : ℕ). get_or-set_all_outside from buf off j 0 fits in
      record {
        others = λ t apart. rw (ne→== (sector k) t (λ same. apart (sym same))) refl;
        size = rw here (
            omega (
              arith,
              length-take sector_size (set (set_all buf off from) (off + n) 0),
              length-set (set_all buf off from) (off + n) 0,
              length-set_all from buf off,
              holds.size,
            ));
        written = λ j lt. rw here (
            entry (off + j) (omega (arith, lt, inside))
            ∙ rw (ne→== (off + n) (off + j) (omega (arith, lt)))
                (get_or-set_all from buf off j 0 fits (omega (arith, lt, e))));
        behind = λ lt. rw here (entry (off + n) lt ∙ rw (eq→== (off + n) (off + n) refl) refl);
        kept = λ j within apart.
            let below : j < sector_size = ground (arith, inside) in
            let clear : (j < off) ⊎ (off + length from ≤ j) = ground (arith, e) in
            let clear' : (j < off) ⊎ ((off + n ≤ j) × (j < sector_size)) = ground arith in
            let block : (k * sector_size + j) / sector_size ≡ k = omega (arith, below) in
            let place : (k * sector_size + j) % sector_size ≡ j = omega (arith, below) in
            rw here (
              entry j below
              ∙ rw (ne→== (off + n) j (ground arith)) (outside j clear)
              ∙ holds.same j within clear'
              ∙ rw (block, place) refl);
      }

  -- In a file of which the header leads every sector to a full sector of the disk, a write of some
  -- bytes that the file has and that stand in one sector changes that sector only: it then holds the
  -- bytes, a 0 behind them if they do not end the sector, and the file's bytes before them and after
  -- that 0.
  pub write_range-Wrote :
      (from : List ℕ)
      → length from ≡ n
      → Returns (write_range memory h disk from position) (Wrote from)
  unfolding write_range write_sectors write_sector filled_buffer
  write_range-Wrote from e =
      let first : position / sector_size ≡ k = omega arith in
      let last : (position + n - 1) / sector_size ≡ k = omega arith in
      let skip : position - k * sector_size ≡ off = omega arith in
      let once : 1 + k - k ≡ 1 = omega arith in
      let (buf, run, holds) = read_edges-Holds in
      let (found, lt) = leads k (omega (arith, there, some_bytes)) in
      rw (e, first, last, once, run, found, lt→ltb (sector k) num_sectors_on_disk lt, skip)
        (_, refl, with_sector-Wrote buf from e holds)
