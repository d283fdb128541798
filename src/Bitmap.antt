-- ===== src/Bitmap.antt =====
-- code/lib/bitmap.cc: an array of bits kept in 32-bit words.
pub mod Bits
pub mod Search
use nachos_system_design.Base.{
  ℕ, zero, suc, ◌+◌, ◌-◌, ◌/◌, ◌%◌, ◌^◌, Bool, not, Option, none, some, List, [], ◌∷◌, ◌==◌, ltb,
  if◌then◌else◌, get_or, set, replicate, bit_and, bit_or, Run, ok, ◌>>=◌, ◌>>◌, assert,
}

abbrev pub bits_in_word : ℕ
bits_in_word = 32

abbrev pub div_round_up : ℕ → ℕ → ℕ
div_round_up n s = n / s + (if ltb 0 (n % s) then 1 else 0)

pub record Bitmap : Type 0 where
  pub num_bits : ℕ
  pub num_words : ℕ
  pub map : List ℕ

-- A negative argument reaches these functions as its 32-bit pattern, which is no smaller than
-- any number of bits, so one comparison stands for both halves of the range check.
unfoldable pub test : Bitmap → ℕ → Run Bool
test b which = do
  assert (ltb which b.num_bits)
  ok (not (bit_and (get_or b.map (which / bits_in_word) 0) (2 ^ (which % bits_in_word)) == 0))

-- `map[which / 32] |= 1 << (which % 32)`
pub set_bit : Bitmap → ℕ → Bitmap
set_bit b which =
    let i = which / bits_in_word in
    record b { map = set b.map i (bit_or (get_or b.map i 0) (2 ^ (which % bits_in_word))) }

-- `map[which / 32] &= ~(1 << (which % 32))`
pub reset_bit : Bitmap → ℕ → Bitmap
reset_bit b which =
    let i = which / bits_in_word in
    let mask = 2 ^ 32 - 1 - 2 ^ (which % bits_in_word) in
    record b { map = set b.map i (bit_and (get_or b.map i 0) mask) }

unfoldable pub mark : Bitmap → ℕ → Run Bitmap
unfolding set_bit
mark b which = do
  assert (ltb which b.num_bits)
  let b' = set_bit b which
  now ← test b' which
  assert now
  ok b'

unfoldable pub clear : Bitmap → ℕ → Run Bitmap
unfolding reset_bit
clear b which = do
  assert (ltb which b.num_bits)
  let b' = reset_bit b which
  now ← test b' which
  assert (not now)
  ok b'

-- The loops count up from `i` for the given number of rounds.
unfoldable pub clear_from : ℕ → ℕ → Bitmap → Run Bitmap
clear_from zero i b = ok b
clear_from (suc n) i b = do b' ← clear b i; clear_from n (i + 1) b'

unfoldable pub new : ℕ → Run Bitmap
new num_items = do
  assert (ltb 0 num_items)
  let words = div_round_up num_items bits_in_word
  clear_from num_items 0
      (record { num_bits = num_items; num_words = words; map = replicate words 0 })

unfoldable pub find_from : ℕ → ℕ → Bitmap → Run (Option ℕ × Bitmap)
find_from zero i b = ok (none, b)
find_from (suc n) i b = do
  used ← test b i
  let rest = find_from n (i + 1) b
  let take_it = do b' ← mark b i; ok (some i, b')
  if used then rest else take_it

-- `none` is the return value -1.
unfoldable pub find_and_set : Bitmap → Run (Option ℕ × Bitmap)
find_and_set b = find_from b.num_bits 0 b

unfoldable pub count_from : ℕ → ℕ → ℕ → Bitmap → Run ℕ
count_from zero i count b = ok count
count_from (suc n) i count b = do
  used ← test b i
  count_from n (i + 1) (if used then count else count + 1) b

unfoldable pub num_clear : Bitmap → Run ℕ
num_clear b = count_from b.num_bits 0 0 b

unfoldable pub print_from : ℕ → ℕ → Bitmap → Run (List ℕ)
print_from zero i b = ok []
print_from (suc n) i b = do
  used ← test b i
  rest ← print_from n (i + 1) b
  ok (if used then i ∷ rest else rest)

-- The numbers that `Print` writes.
unfoldable pub print : Bitmap → Run (List ℕ)
print b = print_from b.num_bits 0 b
