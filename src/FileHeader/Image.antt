-- ===== src/FileHeader/Image.antt =====
-- code/filesys/filehdr.cc: a header that is written to a sector is fetched from it.
use nachos_system_design.Base.{
  ℕ, zero, suc, ◌+◌, ◌^◌, ◌<◌, ◌≡◌, refl, ap, ap₂, true, List, [], ◌∷◌, ◌++◌, All, All-set, length,
  take, get_or, set, set_all, lt→ltb, eq→==, ok, arith,
}
use nachos_system_design.Disk.{
  Disk, num_sectors_on_disk, read_sector, with_sector, to_bytes, to_words-to_bytes,
}
use nachos_system_design.FileHeader.{FileHeader, num_direct, image, of_image, fetch_from}
use nachos_system_design.FileHeader.Chain.{listed}

-- What the object is in memory: 29 table entries, and integers of 32 bits.
pub record IsHeader (h : FileHeader) : Type 0 where
  pub table : length h.data_sectors ≡ num_direct
  pub bytes_lt : h.num_bytes < 2 ^ 32
  pub sectors_lt : h.num_sectors < 2 ^ 32
  pub entries_lt : All (λ w. w < 2 ^ 32) h.data_sectors
  pub doubly_lt : h.doubly_indirect_sector < 2 ^ 32

All-append {κ} : (P : ℕ → Type κ) (xs ys : List ℕ) → All P xs → All P ys → All P (xs ++ ys)
All-append P [] ys h h' = h'
All-append P (x ∷ xs) ys h h' = (h.0, All-append P xs ys h.1 h')

image-words : (h : FileHeader) → IsHeader h → All (λ w. w < 2 ^ 32) (image h)
unfolding image
image-words h i = (
  i.bytes_lt,
  (
    i.sectors_lt,
    All-append (λ w. w < 2 ^ 32) h.data_sectors (h.doubly_indirect_sector ∷ []) i.entries_lt
        (i.doubly_lt, tt),
  ),
)

take-append : (n : ℕ) (xs ys : List ℕ) → length xs ≡ n → take n (xs ++ ys) ≡ xs
take-append zero [] ys e = refl
take-append zero (x ∷ xs) ys e = absurd (omega (arith, e))
take-append (suc n) [] ys e = absurd (omega (arith, e))
take-append (suc n) (x ∷ xs) ys e = ap (λ t. x ∷ t) (take-append n xs ys (omega (arith, e)))

last_entry : (n : ℕ) (xs : List ℕ) (d z : ℕ) → length xs ≡ n → get_or (xs ++ d ∷ []) n z ≡ d
last_entry zero [] d z e = refl
last_entry zero (x ∷ xs) d z e = absurd (omega (arith, e))
last_entry (suc n) [] d z e = absurd (omega (arith, e))
last_entry (suc n) (x ∷ xs) d z e = last_entry n xs d z (omega (arith, e))

of_image-image : (h : FileHeader) → length h.data_sectors ≡ num_direct → of_image (image h) ≡ h
unfolding of_image image
of_image-image h e =
    ap₂
      (λ ds d. record {
        num_bytes = h.num_bytes;
        num_sectors = h.num_sectors;
        data_sectors = ds;
        doubly_indirect_sector = d;
      })
      (take-append num_direct h.data_sectors (h.doubly_indirect_sector ∷ []) e)
      (last_entry num_direct h.data_sectors h.doubly_indirect_sector 0 e)

pub fetch_from-with_sector :
    (h : FileHeader) (disk : Disk) (s : ℕ)
    → IsHeader h
    → s < num_sectors_on_disk
    → fetch_from (with_sector disk s (to_bytes (image h))) s ≡ ok h
unfolding fetch_from read_sector
fetch_from-with_sector h disk s i lt =
    rw
      (
        lt→ltb s num_sectors_on_disk lt,
        eq→== s s refl,
        to_words-to_bytes (image h) (image-words h i),
      )
      (ap ok (of_image-image h i.table))

pub All-set_all {κ} :
    (P : ℕ → Type κ) (vs xs : List ℕ) (i : ℕ) → All P xs → All P vs → All P (set_all xs i vs)
unfolding set_all
All-set_all P [] xs i h h' = h
All-set_all P (v ∷ vs) xs i h h' =
    All-set_all P vs (set xs i v) (i + 1) (All-set P xs i v h h'.0) h'.1

pub All-listed {κ} :
    (P : ℕ → Type κ) (ss : List ℕ) → ((j : ℕ) → listed j ss ≡ true → P j) → All P ss
unfolding listed
All-listed P [] h = tt
All-listed P (s ∷ ss) h = (h s (ground arith), All-listed P ss (λ j e. h j (ground arith)))
