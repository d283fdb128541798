-- ===== src/Base/Bits.antt =====
-- Binary digits of a machine word, and how the native `&` and `|` act on them.
use Prim.Native.Nat.{
  ℕ, zero, suc, ◌+◌, ◌-◌, ◌*◌, ◌/◌, ◌%◌, ◌^◌, ◌≤◌, ◌<◌, min, max, bit_and, bit_or, bit_xor, differ,
  digits, bit_and-bitwise, bit_or-bitwise, bit_xor-bitwise,
}
use mathlib.Core.Path.{◌≡◌, refl, ap}
use mathlib.Core.Bool.{Bool, true, not}
use native.Mathlib.Omega.{arith}
use native.Mathlib.Nat.{pow-suc}
use nachos_system_design.Base.Tests.{ltb, ◌==◌, if◌then◌else◌, ==→eq}
use nachos_system_design.Base.Lists.{all_below, all_below_sound}

-- The digit of weight 2 ^ k.
unfoldable pub bit : ℕ → ℕ → ℕ
bit w zero = w % 2
bit w (suc k) = bit (w / 2) k

-- A native operation goes through the digits of the first number, with that number as its count.
-- One digit can be split off each side.
module _ (rest : ℕ → ℕ) (combine : ℕ → ℕ → ℕ) where
  count_spare :
      (bound count a b : ℕ)
      → count ≤ bound
      → a ≤ count
      → digits rest combine count a b ≡ digits rest combine a a b
  count_spare bound zero zero b le enough = refl
  count_spare bound zero (suc a) b le enough = absurd (omega arith)
  count_spare bound (suc count) zero b le enough = refl
  count_spare zero (suc count) (suc a) b le enough = absurd (omega arith)
  count_spare (suc bound) (suc count) (suc a) b le enough =
      let half = count_spare bound count (suc a / 2) (b / 2) (omega arith) (omega arith) in
      let own = count_spare bound a (suc a / 2) (b / 2) (omega arith) (omega arith) in
      rw (half, own)

  split_digit :
      (op : ℕ → ℕ → ℕ)
      → ((a b : ℕ) → op a b ≡ digits rest combine a a b)
      → ((b : ℕ) → rest b ≡ rest (b / 2) * 2 + combine 0 (b % 2))
      → (a b : ℕ) → op a b ≡ op (a / 2) (b / 2) * 2 + combine (a % 2) (b % 2)
  split_digit op means last zero b = omega (arith, means 0 b, means 0 (b / 2), last b)
  split_digit op means last (suc a) b =
      let spare = count_spare a a (suc a / 2) (b / 2) (omega arith) (omega arith) in
      omega (arith, means (suc a) b, means (suc a / 2) (b / 2), spare)

pub bit_and_step : (a b : ℕ) → bit_and a b ≡ bit_and (a / 2) (b / 2) * 2 + min (a % 2) (b % 2)
bit_and_step = split_digit (λ _. 0) min bit_and bit_and-bitwise (λ b. omega arith)

pub bit_or_step : (a b : ℕ) → bit_or a b ≡ bit_or (a / 2) (b / 2) * 2 + max (a % 2) (b % 2)
bit_or_step = split_digit (λ b. b) max bit_or bit_or-bitwise (λ b. omega arith)

pub bit_xor_step : (a b : ℕ) → bit_xor a b ≡ bit_xor (a / 2) (b / 2) * 2 + differ (a % 2) (b % 2)
bit_xor_step = split_digit (λ b. b) differ bit_xor bit_xor-bitwise (λ b. omega arith)

pub bit-bit_and : (a b k : ℕ) → bit (bit_and a b) k ≡ min (bit a k) (bit b k)
unfolding bit
bit-bit_and a b zero = omega (arith, bit_and_step a b)
bit-bit_and a b (suc k) =
    let e : bit_and a b / 2 ≡ bit_and (a / 2) (b / 2) = omega (arith, bit_and_step a b) in
    rw e (bit-bit_and (a / 2) (b / 2) k)

pub bit-bit_or : (a b k : ℕ) → bit (bit_or a b) k ≡ max (bit a k) (bit b k)
unfolding bit
bit-bit_or a b zero = omega (arith, bit_or_step a b)
bit-bit_or a b (suc k) =
    let e : bit_or a b / 2 ≡ bit_or (a / 2) (b / 2) = omega (arith, bit_or_step a b) in
    rw e (bit-bit_or (a / 2) (b / 2) k)

differ-le-one : (a b : ℕ) → a ≤ 1 → b ≤ 1 → differ a b ≤ 1
differ-le-one zero b p q = q
differ-le-one (suc zero) zero p q = omega arith
differ-le-one (suc zero) (suc zero) p q = omega arith
differ-le-one (suc zero) (suc (suc b)) p q = absurd (omega arith)
differ-le-one (suc (suc a)) b p q = absurd (omega arith)

pub bit-bit_xor : (a b k : ℕ) → bit (bit_xor a b) k ≡ differ (bit a k) (bit b k)
unfolding bit
bit-bit_xor a b zero =
    let low : differ (a % 2) (b % 2) ≤ 1 =
      differ-le-one (a % 2) (b % 2) (omega arith) (omega arith) in
    omega (arith, bit_xor_step a b, low)
bit-bit_xor a b (suc k) =
    let low : differ (a % 2) (b % 2) ≤ 1 =
      differ-le-one (a % 2) (b % 2) (omega arith) (omega arith) in
    let e : bit_xor a b / 2 ≡ bit_xor (a / 2) (b / 2) = omega (arith, bit_xor_step a b, low) in
    rw e (bit-bit_xor (a / 2) (b / 2) k)

pub bit-le-one : (w k : ℕ) → bit w k ≤ 1
unfolding bit
bit-le-one w zero = omega arith
bit-le-one w (suc k) = bit-le-one (w / 2) k

pub bit-zero : (k : ℕ) → bit 0 k ≡ 0
unfolding bit
bit-zero zero = refl
bit-zero (suc k) = bit-zero k

bit_and_zero_fuel : (n a : ℕ) → a ≤ n → bit_and a 0 ≡ 0
bit_and_zero_fuel zero a h =
    omega (arith, bit_and-bitwise 0 0, ap (λ x. bit_and x 0) (zero_of_le a h))
  where
    zero_of_le : (a : ℕ) → a ≤ 0 → a ≡ 0
    zero_of_le a h = omega arith
bit_and_zero_fuel (suc n) zero h = refl
bit_and_zero_fuel (suc n) (suc a) h =
    omega (arith, bit_and_step (suc a) 0, bit_and_zero_fuel n (suc a / 2) (omega arith))

-- One bit of a word, isolated by a mask.
pub bit_and-pow : (w k : ℕ) → bit_and w (2 ^ k) ≡ bit w k * 2 ^ k
unfolding bit
bit_and-pow w zero =
    omega (arith, bit_and_step w 1, bit_and_zero_fuel (w / 2) (w / 2) (omega arith))
bit_and-pow w (suc k) =
    let e : 2 ^ suc k ≡ 2 ^ k * 2 = pow-suc 2 k in
    let half : 2 ^ suc k / 2 ≡ 2 ^ k = omega (arith, e) in
    let step = bit_and_step w (2 ^ suc k) in
    omega (arith, e, rw half at step, bit_and-pow (w / 2) k, ap (λ (t : ℕ). bit (w / 2) k * t) e)

-- The masks `1 << j` and `~(1 << j)` of a 32-bit word, at every pair of positions.
abbrev one_hot : ℕ → ℕ → Bool
one_hot j k = bit (2 ^ j) k == (if j == k then 1 else 0)

abbrev holed : ℕ → ℕ → Bool
holed j k = bit (2 ^ 32 - 1 - 2 ^ j) k == (if j == k then 0 else 1)

one_hot_table : all_below 32 (λ j. all_below 32 (one_hot j)) ≡ true
unfolding bit all_below
one_hot_table = refl

holed_table : all_below 32 (λ j. all_below 32 (holed j)) ≡ true
unfolding bit all_below
holed_table = refl

table_entry :
    (p : ℕ → ℕ → Bool) (j k : ℕ)
    → all_below 32 (λ j. all_below 32 (p j)) ≡ true
    → j < 32
    → k < 32
    → p j k ≡ true
table_entry p j k e h h' =
    all_below_sound 32 (p j) k (all_below_sound 32 (λ j. all_below 32 (p j)) j e h) h'

pub bit-one_hot : (j k : ℕ) → j < 32 → k < 32 → bit (2 ^ j) k ≡ (if j == k then 1 else 0)
bit-one_hot j k h h' = ==→eq _ _ (table_entry one_hot j k one_hot_table h h')

pub bit-holed : (j k : ℕ) → j < 32 → k < 32 → bit (2 ^ 32 - 1 - 2 ^ j) k ≡ (if j == k then 0 else 1)
bit-holed j k h h' = ==→eq _ _ (table_entry holed j k holed_table h h')

-- The operations stay within a word.
pub bit_or-lt : (n a b : ℕ) → a < 2 ^ n → b < 2 ^ n → bit_or a b < 2 ^ n
bit_or-lt zero zero b h h' = omega (arith, bit_or-bitwise 0 b)
bit_or-lt zero (suc a) b h h' = absurd (omega arith)
bit_or-lt (suc n) a b h h' =
    let e : 2 ^ suc n ≡ 2 ^ n * 2 = pow-suc 2 n in
    omega
      (arith, e, bit_or_step a b, bit_or-lt n (a / 2) (b / 2) (omega (arith, e)) (omega (arith, e)))

pub bit_and-lt : (n a b : ℕ) → a < 2 ^ n → bit_and a b < 2 ^ n
bit_and-lt zero zero b h = omega (arith, bit_and-bitwise 0 b)
bit_and-lt zero (suc a) b h = absurd (omega arith)
bit_and-lt (suc n) a b h =
    let e : 2 ^ suc n ≡ 2 ^ n * 2 = pow-suc 2 n in
    omega (arith, e, bit_and_step a b, bit_and-lt n (a / 2) (b / 2) (omega (arith, e)))

pub bit_and-one : (a : ℕ) → bit_and a 1 ≡ a % 2
bit_and-one a = omega (arith, bit_and_step a 1, bit_and_zero_fuel (a / 2) (a / 2) (omega arith))

pub bit_and_three : (a : ℕ) → bit_and a 3 ≡ a % 4
bit_and_three a = omega (arith, bit_and_step a 3, bit_and-one (a / 2))

bit_or_zero_bound : (n a : ℕ) → a ≤ n → bit_or a 0 ≡ a
bit_or_zero_bound n zero h = omega (arith, bit_or-bitwise 0 0)
bit_or_zero_bound zero (suc a) h = absurd (omega arith)
bit_or_zero_bound (suc n) (suc a) h =
    omega (arith, bit_or_step (suc a) 0, bit_or_zero_bound n (suc a / 2) (omega arith))

pub bit_or-even_one : (a : ℕ) → bit_or (2 * a) 1 ≡ 2 * a + 1
bit_or-even_one a =
    let half : 2 * a / 2 ≡ a = omega arith in
    let step = bit_or_step (2 * a) 1 in
    omega (arith, rw half at step, bit_or_zero_bound a a (omega arith))

-- Masks of all digits but none above, and of the top digit.
pub bit_and-all : (n a m : ℕ) → m + 1 ≡ 2 ^ n → a < 2 ^ n → bit_and a m ≡ a
bit_and-all zero a m e h =
    let none_left : a ≡ 0 = omega (arith, e) in rw none_left (omega (arith, bit_and-bitwise 0 m))
bit_and-all (suc n) a m e h =
    let p : 2 ^ suc n ≡ 2 ^ n * 2 = pow-suc 2 n in
    omega (
      arith,
      e,
      p,
      bit_and_step a m,
      bit_and-all n (a / 2) (m / 2) (omega (arith, e, p)) (omega (arith, p)),
    )

pub bit_and-top :
    (n a : ℕ) → a < 2 ^ n * 2 → bit_and a (2 ^ n) ≡ (if ltb a (2 ^ n) then 0 else 2 ^ n)
bit_and-top zero a h = ground (arith, bit_and-one a)
bit_and-top (suc n) a h =
    let p : 2 ^ suc n ≡ 2 ^ n * 2 = pow-suc 2 n in
    let half : 2 ^ suc n / 2 ≡ 2 ^ n = omega (arith, p) in
    let step = bit_and_step a (2 ^ suc n) in
    ground (arith, p, rw half at step, bit_and-top n (a / 2) (omega (arith, p)))

-- The top digit of an exclusive or says whether the top digits differ.
pub bit_xor-top :
    (n a b : ℕ)
    → a < 2 ^ n * 2
    → b < 2 ^ n * 2
    → (bit_xor a b < 2 ^ n * 2)
      × (ltb (bit_xor a b) (2 ^ n) ≡ (if ltb a (2 ^ n) then ltb b (2 ^ n) else not (ltb b (2 ^ n))))
bit_xor-top zero zero zero h h' = (omega arith, refl)
bit_xor-top zero zero (suc zero) h h' = (omega arith, refl)
bit_xor-top zero (suc zero) zero h h' = (omega arith, refl)
bit_xor-top zero (suc zero) (suc zero) h h' = (omega arith, refl)
bit_xor-top zero (suc (suc a)) b h h' = absurd (omega arith)
bit_xor-top zero zero (suc (suc b)) h h' = absurd (omega arith)
bit_xor-top zero (suc zero) (suc (suc b)) h h' = absurd (omega arith)
bit_xor-top (suc n) a b h h' =
    let p : 2 ^ suc n ≡ 2 ^ n * 2 = pow-suc 2 n in
    let (lt, top) = bit_xor-top n (a / 2) (b / 2) (omega (arith, p)) (omega (arith, p)) in
    let low = differ-le-one (a % 2) (b % 2) (omega arith) (omega arith) in
    let step = bit_xor_step a b in
    (omega (arith, p, step, lt, low), ground (arith, p, step, top, low))
