-- ===== src/Machine/Word.antt =====
-- The operations of C on 32-bit integers, as code/machine/mipssim.cc uses them. An integer is its
-- bit pattern, a number below 2 ^ 32.
pub mod Laws
use nachos_system_design.Base.{
  ℕ, ◌+◌, ◌-◌, ◌*◌, ◌/◌, ◌%◌, ◌^◌, Bool, true, false, not, ltb, ◌==◌, if◌then◌else◌, bit_and,
}

-- Sums and differences wrap around.
unfoldable pub add32 : ℕ → ℕ → ℕ
add32 a b = (a + b) % 2 ^ 32

unfoldable pub sub32 : ℕ → ℕ → ℕ
sub32 a b = (a + (2 ^ 32 - b)) % 2 ^ 32

unfoldable pub neg32 : ℕ → ℕ
neg32 a = (2 ^ 32 - a) % 2 ^ 32

unfoldable pub not32 : ℕ → ℕ
not32 a = 2 ^ 32 - 1 - a

-- `a & SIGN_BIT`, as a condition.
unfoldable pub sign_bit : ℕ → Bool
sign_bit a = not (bit_and a (2 ^ 31) == 0)

-- `a < 0` on `int`.
unfoldable pub is_neg : ℕ → Bool
is_neg a = not (ltb a (2 ^ 31))

-- `a < b` on `int`.
unfoldable pub less : ℕ → ℕ → Bool
less a b =
    if is_neg a then (if is_neg b then ltb a b else true) else (if is_neg b then false else ltb a b)

-- `a << k`, `a >> k` on `int`, and `a >> k` on `unsigned int`.
unfoldable pub shift_left : ℕ → ℕ → ℕ
shift_left a k = a * 2 ^ k % 2 ^ 32

unfoldable pub shift_right : ℕ → ℕ → ℕ
shift_right a k = if is_neg a then 2 ^ 32 - 1 - (2 ^ 32 - 1 - a) / 2 ^ k else a / 2 ^ k

abbrev pub shift_right_unsigned : ℕ → ℕ → ℕ
shift_right_unsigned a k = a / 2 ^ k

-- `a / b` and `a % b` on `int`, towards zero.
unfoldable pub magnitude : ℕ → ℕ
magnitude a = if is_neg a then 2 ^ 32 - a else a

unfoldable pub quotient : ℕ → ℕ → ℕ
quotient a b =
    let q = magnitude a / magnitude b in
    if (if is_neg a then is_neg b else not (is_neg b)) then q else neg32 q

unfoldable pub remainder : ℕ → ℕ → ℕ
remainder a b = let r = magnitude a % magnitude b in if is_neg a then neg32 r else r
