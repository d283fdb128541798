-- ===== src/Tests/Bitmaps.antt =====
-- code/lib/bitmap.cc at a map of 40 bits, of which 0, 1 and 3 are set.
use nachos_system_design.Base.{◌≡◌, refl, true, false, some, [], ◌∷◌, ok, aborted, Returns, arith}
use nachos_system_design.Bitmap.{
  Bitmap, new, test, mark, clear, find_and_set, find_from, num_clear, count_from, clear_from, print,
  print_from,
}
use nachos_system_design.Bitmap.Bits.{
  IsValid, is_marked, Writes, mark-Writes, clear-Writes, out_of_range,
}
use nachos_system_design.Bitmap.Search.{
  Finds, find_and_set-Finds, clears, num_clear-clears, IsFresh, new-IsFresh, marked_from,
  print-marked_from,
}

abbrev sample : Bitmap
sample = record { num_bits = 40; num_words = 2; map = 0b1011 ∷ 0 ∷ [] }

sample-IsValid : IsValid sample
sample-IsValid = record {
  nonempty = omega arith;
  counted = refl;
  sized = refl;
  words = omega arith;
}

program : Unit {0}
unfolding test mark clear find_from find_and_set count_from num_clear clear_from new print_from
    print
program = tt

find_and_set_run :
    find_and_set sample
    ≡ ok (some 2, record { num_bits = 40; num_words = 2; map = 0b1111 ∷ 0 ∷ [] })
unfolding program
find_and_set_run = refl

num_clear_run : num_clear sample ≡ ok 37
unfolding program
num_clear_run = refl

print_run : print sample ≡ ok (0 ∷ 1 ∷ 3 ∷ [])
unfolding program
print_run = refl

new_run : new 33 ≡ ok (record { num_bits = 33; num_words = 2; map = 0 ∷ 0 ∷ [] })
unfolding program
new_run = refl

mark-Writes_example : Returns (mark sample 33) (Writes sample 33 true)
mark-Writes_example = mark-Writes sample sample-IsValid 33 (omega arith)

bit_three_off : Returns (clear sample 3) (Writes sample 3 false)
bit_three_off = clear-Writes sample sample-IsValid 3 (omega arith)

past_the_end : (test sample 40 ≡ aborted) × (mark sample 40 ≡ aborted) × (clear sample 40 ≡ aborted)
past_the_end = out_of_range sample 40 (omega arith)

find_and_set-Finds_example : Returns (find_and_set sample) (Finds sample)
find_and_set-Finds_example = find_and_set-Finds sample sample-IsValid

clear_bits_counted : num_clear sample ≡ ok (clears 40 (is_marked sample))
clear_bits_counted = num_clear-clears sample

bits_of_new_map : Returns (new 128) (IsFresh 128)
bits_of_new_map = new-IsFresh 128 (omega arith)

print-sample : print sample ≡ ok (marked_from 40 0 (is_marked sample))
print-sample = print-marked_from sample
