-- ===== src/Machine/Word/Laws.antt =====
-- The operations on 32-bit integers, as arithmetic.
use native.Mathlib.Nat.{pow-suc, zero-add, suc-add, one-mul}
use nachos_system_design.Base.{
  ℕ, zero, suc, ◌+◌, ◌-◌, ◌*◌, ◌/◌, ◌%◌, ◌^◌, ◌<◌, ◌≤◌, ◌≡◌, refl, sym, ap, ◌∙◌, ltb, lt→ltb, arith,
  bit_and, Bool-cases, inl, inr,
}
use nachos_system_design.Base.Bits.{bit_and-all, bit_and-top, bit_and_step}
use nachos_system_design.Machine.Word.{add32, less, sign_bit, is_neg, shift_right}

pub sign_bit-is_neg : (a : ℕ) → a < 2 ^ 32 → sign_bit a ≡ is_neg a
unfolding sign_bit is_neg
sign_bit-is_neg a h = ground (arith, bit_and-top 31 a h)

pub bit_and_rest : (a : ℕ) → a < 2 ^ 32 → bit_and a 0xfffffffe ≡ a / 2 * 2
bit_and_rest a h =
    omega (arith, bit_and_step a 0xfffffffe, bit_and-all 31 (a / 2) 0x7fffffff refl (omega arith))

-- The number of the lowest digits.
unfoldable pub low : ℕ → ℕ → ℕ
low zero a = 0
low (suc n) a = a % 2 + 2 * low n (a / 2)

pub low-add : (n a c : ℕ) → low n (a + 2 ^ n * c) ≡ low n a
unfolding low
low-add zero a c = refl
low-add (suc n) a c =
    let p : 2 ^ suc n * c ≡ 2 * (2 ^ n * c) = simp pow-suc (omega arith) in
    let even : (a + 2 ^ suc n * c) % 2 ≡ a % 2 = omega (arith, p) in
    let half : (a + 2 ^ suc n * c) / 2 ≡ a / 2 + 2 ^ n * c = omega (arith, p) in
    rw (even, half, low-add n (a / 2) c)

pub low-lt : (n a : ℕ) → a < 2 ^ n → low n a ≡ a
unfolding low
low-lt zero a h = omega arith
low-lt (suc n) a h = omega (arith, pow-suc 2 n, low-lt n (a / 2) (omega (arith, pow-suc 2 n)))

pow_split : (n k : ℕ) → 2 ^ (n + k) ≡ 2 ^ n * 2 ^ k
pow_split zero k = ap (λ (t : ℕ). 2 ^ t) (zero-add k) ∙ sym (one-mul (2 ^ k))
pow_split (suc n) k =
    let p : 2 ^ suc n * 2 ^ k ≡ 2 * (2 ^ n * 2 ^ k) = simp pow-suc (omega arith) in
    let q : 2 ^ (suc n + k) ≡ 2 ^ (n + k) * 2 =
      ap (λ (t : ℕ). 2 ^ t) (suc-add n k) ∙ pow-suc 2 (n + k) in
    omega (arith, p, q, pow_split n k)

-- A shift with the sign in front leaves the digits below as a plain division does.
pub low-shift_right : (n a : ℕ) → n ≤ 31 → a < 2 ^ 32 → low n (shift_right a 1) ≡ low n (a / 2)
unfolding shift_right is_neg
low-shift_right n a small h =
    let k : n + (31 - n) ≡ 31 = omega arith in
    let top : 2 ^ 31 ≡ 2 ^ n * 2 ^ (31 - n) =
      sym (ap (λ (t : ℕ). 2 ^ t) k) ∙ pow_split n (31 - n) in
    let high = low-add n (a / 2) (2 ^ (31 - n)) in
    elim (Bool-cases (ltb a (2 ^ 31))) [
      | inl below ↦ rw below refl
      | inr above ↦
          let sum : 2 ^ 32 - 1 - (2 ^ 32 - 1 - a) / 2 ≡ a / 2 + 2 ^ n * 2 ^ (31 - n) =
            ground (arith, top) in
          rw above (ap (low n) sum ∙ high)
    ]

pub shift_right-lt : (a : ℕ) → a < 2 ^ 32 → shift_right a 1 < 2 ^ 32
unfolding shift_right is_neg
shift_right-lt a h = ground arith

pub less-ltb : (a b : ℕ) → a < 2 ^ 31 → b < 2 ^ 31 → less a b ≡ ltb a b
unfolding less is_neg
less-ltb a b h k = rw (lt→ltb a (2 ^ 31) h, lt→ltb b (2 ^ 31) k) refl

pub add32-sum : (a b : ℕ) → a + b < 2 ^ 31 → add32 a b ≡ a + b
unfolding add32
add32-sum a b h = omega arith
