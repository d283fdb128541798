-- ===== src/Bitmap/Search.antt =====
-- The loops of code/lib/bitmap.cc: the search for a clear bit, the count of clear bits, and the
-- constructor.
use nachos_system_design.Base.{
  ℕ, zero, suc, ◌+◌, ◌/◌, ◌%◌, ◌^◌, ◌≤◌, ◌<◌, ◌≡◌, refl, ap, ◌∙◌, ◌⊎◌, inl, inr, Bool, true, false,
  List, [], ◌∷◌, arith, ◌==◌, if◌then◌else◌, lt→ltb, All-replicate, length-replicate,
  get_or-replicate, replicate, Bool-cases, Option, none, some, ok, aborted, Returns,
}
use native.Mathlib.Decide.{dec_lt}
use native.Mathlib.Numerals.{add-one}
use nachos_system_design.Base.Bits.{bit-zero}
use nachos_system_design.Bitmap.{
  Bitmap, bits_in_word, div_round_up, clear_from, new, find_from, find_and_set, count_from,
  num_clear, print_from, print,
}
use nachos_system_design.Bitmap.Bits.{
  IsValid, is_marked, Writes, test-is_marked, mark-Writes, clear-Writes,
}

-- What a search leaves: nothing when every bit is set, else the first clear bit, now set.
pub data Finds (b : Bitmap) : Option ℕ × Bitmap → Type 0 where
  full : ((j : ℕ) → j < b.num_bits → is_marked b j ≡ true) → Finds b (none, b)
  free :
      (i : ℕ) (b' : Bitmap)
      → i < b.num_bits
      → is_marked b i ≡ false
      → ((j : ℕ) → j < i → is_marked b j ≡ true)
      → Writes b i true b'
      → Finds b (some i, b')

module _ (b : Bitmap) (v : IsValid b) where
  find_from-Finds :
      (n i : ℕ)
      → i + n ≡ b.num_bits
      → ((j : ℕ) → j < i → is_marked b j ≡ true)
      → Returns (find_from n i b) (Finds b)
  unfolding find_from
  find_from-Finds zero i e below = ((none, b), refl, full (λ j h. below j (omega arith)))
  find_from-Finds (suc n) i e below = elim (Bool-cases (is_marked b i)) [
    | inl used ↦
        rw (test-is_marked b i (omega arith), used)
          (find_from-Finds n (i + 1) (omega arith) (λ j h. elim_last j h used))
    | inr unused ↦
        let (b', run, w) = mark-Writes b v i (omega arith) in
        rw (test-is_marked b i (omega arith), unused, run)
          ((some i, b'), refl, free i b' (omega arith) unused below w)
  ]
    where
      elim_last : (j : ℕ) → j < i + 1 → is_marked b i ≡ true → is_marked b j ≡ true
      elim_last j h used = ground (arith, below j)

  -- On a valid map `FindAndSet` trips no check: it returns the first clear bit, and sets that bit
  -- only; or -1 when all bits are set, and leaves the map alone.
  pub find_and_set-Finds : Returns (find_and_set b) (Finds b)
  unfolding find_and_set
  find_and_set-Finds = find_from-Finds b.num_bits 0 (omega arith) (λ j h. absurd (omega arith))

-- The clear positions below `n`.
unfoldable pub clears : ℕ → (ℕ → Bool) → ℕ
clears zero f = 0
clears (suc n) f = clears n f + (if f n then 0 else 1)

clears_step : (i : ℕ) (f : ℕ → Bool) → clears (i + 1) f ≡ clears i f + (if f i then 0 else 1)
unfolding clears
clears_step i f = rw (add-one i)

pub clears-congr :
    (n : ℕ) (f g : ℕ → Bool) → ((j : ℕ) → j < n → g j ≡ f j) → clears n g ≡ clears n f
unfolding clears
clears-congr zero f g h = refl
clears-congr (suc n) f g h = rw (h n (omega arith), clears-congr n f g (λ j q. h j (omega arith)))

count_from-clears :
    (b : Bitmap) (n i : ℕ)
    → i + n ≡ b.num_bits
    → count_from n i (clears i (is_marked b)) b ≡ ok (clears b.num_bits (is_marked b))
unfolding count_from
count_from-clears b zero i e = ground arith
count_from-clears b (suc n) i e =
    let next = count_from-clears b n (i + 1) (omega arith) in
    rw (test-is_marked b i (omega arith)) (ground (arith, clears_step i (is_marked b), next))

-- `NumClear` trips no check and counts the clear bits below the map's size.
pub num_clear-clears : (b : Bitmap) → num_clear b ≡ ok (clears b.num_bits (is_marked b))
unfolding num_clear clears
num_clear-clears b = count_from-clears b b.num_bits 0 (omega arith)

pub clears-set :
    (n i : ℕ) (f g : ℕ → Bool)
    → i < n
    → f i ≡ false
    → ((j : ℕ) → g j ≡ (if i == j then true else f j))
    → clears n g + 1 ≡ clears n f
unfolding clears
clears-set zero i f g h e eq = absurd (omega arith)
clears-set (suc n) i f g h e eq = elim (dec_lt i n) [
  | yes below ↦ ground (arith, clears-set n i f g below e eq, eq n)
  | no last ↦
      let same = clears-congr n f g (λ j q. ground (arith, eq j)) in ground (arith, same, eq n)
]

pub clears_full : (n : ℕ) (f : ℕ → Bool) → ((j : ℕ) → j < n → f j ≡ true) → clears n f ≡ 0
unfolding clears
clears_full zero f all = refl
clears_full (suc n) f all = rw (all n (omega arith), clears_full n f (λ j h. all j (omega arith)))

-- A new bit leaves one clear bit less.
pub clears-Writes :
    {b b' : Bitmap} (i : ℕ)
    → i < b.num_bits
    → is_marked b i ≡ false
    → Writes b i true b'
    → clears b'.num_bits (is_marked b') + 1 ≡ clears b.num_bits (is_marked b)
clears-Writes {b} {b'} i h e w =
    ap (λ n. clears n (is_marked b') + 1) w.same_size
    ∙ clears-set b.num_bits i (is_marked b) (is_marked b') h e w.reads

-- The search gives a bit exactly when `NumClear` is not 0, and the count then drops by one.
pub Finds-clears :
    {b : Bitmap} {o : Option ℕ} {b' : Bitmap}
    → Finds b (o, b')
    → ((o ≡ none) × (clears b.num_bits (is_marked b) ≡ 0))
      ⊎ ((i : ℕ) × (o ≡ some i)
          × (clears b'.num_bits (is_marked b') + 1 ≡ clears b.num_bits (is_marked b)))
Finds-clears {b} (full all) = inl (refl, clears_full b.num_bits (is_marked b) all)
Finds-clears (free i b' h e below w) = inr (i, refl, clears-Writes i h e w)

-- The constructor.
module _ (n : ℕ) where
  fresh : Bitmap
  fresh = record {
    num_bits = n;
    num_words = div_round_up n bits_in_word;
    map = replicate (div_round_up n bits_in_word) 0;
  }

  fresh-clear : (j : ℕ) → is_marked fresh j ≡ false
  unfolding fresh is_marked
  fresh-clear j =
      rw (get_or-replicate {A = ℕ} (div_round_up n bits_in_word) (j / 32) 0, bit-zero (j % 32))

  fresh-IsValid : 0 < n → IsValid fresh
  unfolding fresh
  fresh-IsValid h = record {
    nonempty = h;
    counted = refl;
    sized = length-replicate (div_round_up n bits_in_word) 0;
    words = All-replicate (λ w. w < 2 ^ 32) (div_round_up n bits_in_word) 0 (omega arith);
  }

-- A bitmap of `n` bits, all clear.
pub record IsFresh (n : ℕ) (b : Bitmap) : Type 0 where
  pub valid : IsValid b
  pub same_size : b.num_bits ≡ n
  pub clear : (j : ℕ) → is_marked b j ≡ false

clear_from-IsFresh :
    (m n i : ℕ) (b : Bitmap) → i + n ≡ m → IsFresh m b → Returns (clear_from n i b) (IsFresh m)
unfolding clear_from
clear_from-IsFresh m zero i b e f = (b, refl, f)
clear_from-IsFresh m (suc n) i b e f =
    let (b', run, w) = clear-Writes b f.valid i (omega (arith, f.same_size)) in
    rw run (
      clear_from-IsFresh m n (i + 1) b' (omega arith) (record {
        valid = w.valid;
        same_size = w.same_size ∙ f.same_size;
        clear = λ j. ground (arith, w.reads j, f.clear j);
      }))

-- For a positive size the constructor trips no check and ends with a valid map of that size that
-- has every bit clear.
pub new-IsFresh : (n : ℕ) → 0 < n → Returns (new n) (IsFresh n)
unfolding new fresh
new-IsFresh n h = rw (lt→ltb _ _ h) (
    clear_from-IsFresh n n 0 (fresh n) (omega arith)
      (record { valid = fresh-IsValid n h; same_size = refl; clear = fresh-clear n }))

pub new-zero : new 0 ≡ aborted
unfolding new
new-zero = refl

-- The list that `Print` writes.
unfoldable pub marked_from : ℕ → ℕ → (ℕ → Bool) → List ℕ
marked_from zero i f = []
marked_from (suc n) i f = if f i then i ∷ marked_from n (i + 1) f else marked_from n (i + 1) f

print_from-marked_from :
    (n i : ℕ) (b : Bitmap)
    → i + n ≤ b.num_bits
    → print_from n i b ≡ ok (marked_from n i (is_marked b))
unfolding print_from marked_from
print_from-marked_from zero i b h = refl
print_from-marked_from (suc n) i b h =
    rw (test-is_marked b i (omega arith), print_from-marked_from n (i + 1) b (omega arith))
      (ground arith)

-- `Print` trips no check and writes the numbers of the set bits, in order.
pub print-marked_from : (b : Bitmap) → print b ≡ ok (marked_from b.num_bits 0 (is_marked b))
unfolding print
print-marked_from b = print_from-marked_from b.num_bits 0 b (omega arith)
