-- ===== src/Bitmap/Bits.antt =====
-- The bitmap of code/lib/bitmap.cc as a function from positions to Booleans: the single-bit
-- operations.
use native.Mathlib.Nat.{pow-suc}
use nachos_system_design.Base.{
  ℕ, zero, suc, ◌-◌, ◌*◌, ◌/◌, ◌%◌, ◌^◌, ◌≤◌, ◌<◌, ◌≡◌, refl, Bool, true, false, not, arith, ltb,
  ◌==◌, if◌then◌else◌, lt→ltb, ltb→lt, all_below, all_below_sound, aborted, length, get_or, set,
  All, All-set, All-get_or, length-set, get_or-set, bit_and, bit_or, ok, Returns,
}
use nachos_system_design.Base.Bits.{
  bit, bit-bit_and, bit-bit_or, bit-le-one, bit_and-pow, bit-one_hot, bit-holed, bit_or-lt,
  bit_and-lt,
}
use nachos_system_design.Bitmap.{
  Bitmap, bits_in_word, div_round_up, test, set_bit, reset_bit, mark, clear,
}

pub record IsValid (b : Bitmap) : Type 0 where
  pub nonempty : 0 < b.num_bits
  pub counted : b.num_words ≡ div_round_up b.num_bits bits_in_word
  pub sized : length b.map ≡ b.num_words
  pub words : All (λ w. w < 2 ^ 32) b.map

unfoldable pub is_marked : Bitmap → ℕ → Bool
is_marked b i = bit (get_or b.map (i / 32) 0) (i % 32) == 1

pow_pos : (k : ℕ) → 0 < 2 ^ k
pow_pos zero = omega arith
pow_pos (suc k) = omega (arith, pow-suc 2 k, pow_pos k)

pow_lt_table : all_below 32 (λ k. ltb (2 ^ k) (2 ^ 32)) ≡ true
unfolding all_below
pow_lt_table = refl

pow_lt_word : (i : ℕ) → 2 ^ (i % 32) < 2 ^ 32
pow_lt_word i =
    ltb→lt _ _ (all_below_sound 32 (λ k. ltb (2 ^ k) (2 ^ 32)) (i % 32) pow_lt_table (omega arith))

mul_pos_test : (d p : ℕ) → d ≤ 1 → 0 < p → not (d * p == 0) ≡ d == 1
mul_pos_test zero p h q = ground arith
mul_pos_test (suc zero) p h q = ground arith
mul_pos_test (suc (suc d)) p h q = absurd (omega arith)

-- `Test` reads the abstract bit.
pub test-is_marked : (b : Bitmap) (i : ℕ) → i < b.num_bits → test b i ≡ ok (is_marked b i)
unfolding test is_marked
test-is_marked b i h =
    let w = get_or b.map (i / 32) 0 in
    rw (lt→ltb _ _ h, bit_and-pow w (i % 32))
      (rw (mul_pos_test (bit w (i % 32)) (2 ^ (i % 32)) (bit-le-one w (i % 32)) (pow_pos (i % 32))))

word_index : (b : Bitmap) (i : ℕ) → IsValid b → i < b.num_bits → i / 32 < length b.map
word_index b i v h = ground arith

same_bit : (i j : ℕ) → (i == j) ≡ (if i / 32 == j / 32 then i % 32 == j % 32 else false)
same_bit i j = ground arith

-- A write of one word, seen bit by bit.
module _ (b : Bitmap) (v : IsValid b) (i : ℕ) (h : i < b.num_bits) (w : ℕ) where
  wrote : Bitmap
  wrote = record b { map = set b.map (i / 32) w }

  is_marked-wrote :
      (j : ℕ)
      → is_marked wrote j ≡ (if i / 32 == j / 32 then bit w (j % 32) == 1 else is_marked b j)
  unfolding wrote is_marked
  is_marked-wrote j = ground (arith, get_or-set b.map (i / 32) (j / 32) w 0 (word_index b i v h))

  wrote-IsValid : w < 2 ^ 32 → IsValid wrote
  unfolding wrote
  wrote-IsValid q = record {
    nonempty = v.nonempty;
    counted = v.counted;
    sized = omega (arith, length-set b.map (i / 32) w, v.sized);
    words = All-set (λ w. w < 2 ^ 32) b.map (i / 32) w v.words q;
  }

module _ (b : Bitmap) (v : IsValid b) (i : ℕ) (h : i < b.num_bits) where
  old : ℕ
  old = get_or b.map (i / 32) 0

  old-lt : old < 2 ^ 32
  unfolding old
  old-lt = All-get_or (λ w. w < 2 ^ 32) b.map (i / 32) 0 v.words (omega arith)

  is_marked-set_bit : (j : ℕ) → is_marked (set_bit b i) j ≡ (if i == j then true else is_marked b j)
  unfolding set_bit old wrote is_marked
  is_marked-set_bit j = ground (
    arith,
    is_marked-wrote b v i h (bit_or old (2 ^ (i % 32))) j,
    same_bit i j,
    bit-bit_or old (2 ^ (i % 32)) (j % 32),
    bit-one_hot (i % 32) (j % 32),
    bit-le-one old (j % 32),
  )

  is_marked-reset_bit :
      (j : ℕ) → is_marked (reset_bit b i) j ≡ (if i == j then false else is_marked b j)
  unfolding reset_bit old wrote is_marked
  is_marked-reset_bit j = ground (
    arith,
    is_marked-wrote b v i h (bit_and old (2 ^ 32 - 1 - 2 ^ (i % 32))) j,
    same_bit i j,
    bit-bit_and old (2 ^ 32 - 1 - 2 ^ (i % 32)) (j % 32),
    bit-holed (i % 32) (j % 32),
    bit-le-one old (j % 32),
  )

-- `b'` is `b` with the bit at `i` set to `value`.
pub record Writes (b : Bitmap) (i : ℕ) (value : Bool) (b' : Bitmap) : Type 0 where
  pub valid : IsValid b'
  pub same_size : b'.num_bits ≡ b.num_bits
  pub reads : (j : ℕ) → is_marked b' j ≡ (if i == j then value else is_marked b j)

module _ (b : Bitmap) (v : IsValid b) (i : ℕ) (h : i < b.num_bits) where
  set_bit-Writes : Writes b i true (set_bit b i)
  unfolding set_bit old wrote
  set_bit-Writes = record {
    valid =
        wrote-IsValid b v i h (bit_or (old b v i h) (2 ^ (i % 32)))
          (bit_or-lt 32 _ _ (old-lt b v i h) (pow_lt_word i));
    same_size = refl;
    reads = is_marked-set_bit b v i h;
  }

  reset_bit-Writes : Writes b i false (reset_bit b i)
  unfolding reset_bit old wrote
  reset_bit-Writes = record {
    valid =
        wrote-IsValid b v i h (bit_and (old b v i h) (2 ^ 32 - 1 - 2 ^ (i % 32)))
          (bit_and-lt 32 _ _ (old-lt b v i h));
    same_size = refl;
    reads = is_marked-reset_bit b v i h;
  }

  -- In a valid map, at a bit in range, `Mark` passes its own last check, keeps the map valid and
  -- sets that bit only.
  pub mark-Writes : Returns (mark b i) (Writes b i true)
  unfolding mark set_bit
  mark-Writes = (
    set_bit b i,
    ground (arith, test-is_marked (set_bit b i) i h, is_marked-set_bit b v i h i),
    set_bit-Writes,
  )

  -- In a valid map, at a bit in range, `Clear` passes its own last check, keeps the map valid and
  -- resets that bit only.
  pub clear-Writes : Returns (clear b i) (Writes b i false)
  unfolding clear reset_bit
  clear-Writes = (
    reset_bit b i,
    ground (arith, test-is_marked (reset_bit b i) i h, is_marked-reset_bit b v i h i),
    reset_bit-Writes,
  )

-- At a bit past the map's size `Test`, `Mark` and `Clear` abort.
pub out_of_range :
    (b : Bitmap) (i : ℕ)
    → b.num_bits ≤ i
    → (test b i ≡ aborted) × (mark b i ≡ aborted) × (clear b i ≡ aborted)
unfolding test mark clear
out_of_range b i h = ground arith
