-- ===== src/Machine/Multiply/Laws.antt =====
-- code/machine/mipssim.cc: the product that `Mult` computes.
use native.Mathlib.Nat.{zero-mul, mul-zero, mul-le-mul_left}
use nachos_system_design.Base.{
  ℕ, ◌+◌, ◌-◌, ◌*◌, ◌%◌, ◌^◌, ◌<◌, ◌≤◌, ◌≡◌, refl, sym, ap, ap₂, ◌∙◌, ==→eq, Bool, true, false, not,
  ◌||◌, if◌then◌else◌, ◌==◌, arith, Bool-cases, inl, inr,
}
use nachos_system_design.Machine.Word.{add32, neg32, not32, is_neg, magnitude}
use nachos_system_design.Machine.Word.Laws.{low, low-lt}
use nachos_system_design.Machine.Multiply.{Product, multiply, negate, mult}
use nachos_system_design.Machine.Multiply.Loop.{IsWords, total, rest, multiply-total}

start : ℕ → ℕ → Product
start x y = record { a = x; b_lo = y; b_hi = 0; lo = 0; hi = 0 }

product-lt : (x y : ℕ) → x < 2 ^ 32 → y < 2 ^ 32 → x * y < 2 ^ 64
product-lt x y h h' = omega (arith, mul-le-mul_left x (the_le h'), ap (λ (t : ℕ). x * t) refl)
  where
    the_le : y < 2 ^ 32 → y ≤ 2 ^ 32 - 1
    the_le h = omega arith

abbrev IsProduct : ℕ → Product → Type 0
IsProduct n p = IsWords p × (total p ≡ n)

multiply-start : (x y : ℕ) → x < 2 ^ 32 → y < 2 ^ 32 → IsProduct (x * y) (multiply 32 (start x y))
unfolding start
multiply-start x y h h' =
    let digits : low 32 x ≡ x = low-lt 32 x h in
    let left : rest 32 (start x y) ≡ x * y = ap₂ (λ (s t : ℕ). s * t) digits (omega arith) in
    let words : IsWords (start x y) = record {
      a_lt = h;
      b_lo_lt = h';
      b_hi_lt = omega arith;
      lo_lt = omega arith;
      hi_lt = omega arith;
    } in
    let (w, t) =
      multiply-total 32 (start x y) (omega arith) words (omega arith)
        (omega (arith, left, product-lt x y h h')) in
    (w, omega (arith, t, left))

-- The double word that a pair of words makes.
abbrev pub double_word : ℕ × ℕ → ℕ
double_word (hi, lo) = hi * 2 ^ 32 + lo

negate-double_word :
    (hi lo : ℕ)
    → hi < 2 ^ 32
    → lo < 2 ^ 32
    → double_word (negate (hi, lo)) ≡ (2 ^ 64 - double_word (hi, lo)) % 2 ^ 64
unfolding negate add32 not32
negate-double_word hi lo h h' = ground arith

zero-product : (a b : ℕ) → ((a == 0) || (b == 0)) ≡ true → a * b ≡ 0
zero-product a b h = elim (Bool-cases (a == 0)) [
  | inl first ↦ ap (λ (t : ℕ). t * b) (==→eq a 0 first) ∙ zero-mul b
  | inr other ↦ ap (λ (t : ℕ). a * t) (==→eq b 0 (rw other at h)) ∙ mul-zero a
]

-- On words `Mult` without signs gives the whole product.
pub mult_unsigned : (a b : ℕ) → a < 2 ^ 32 → b < 2 ^ 32 → double_word (mult a b false) ≡ a * b
unfolding mult start
mult_unsigned a b h h' = elim (Bool-cases ((a == 0) || (b == 0))) [
  | inl gone ↦ rw gone (sym (zero-product a b gone))
  | inr there ↦ rw there ((multiply-start a b h h').1)
]

-- What the code multiplies in place of `a`, and the result of a product by its sign.
abbrev operand : Bool → ℕ → ℕ
operand flip a = if flip then neg32 a else a

operand-magnitude :
    (a : ℕ) → a < 2 ^ 32 → (operand (is_neg a) a ≡ magnitude a) × (magnitude a < 2 ^ 32)
unfolding neg32 magnitude is_neg
operand-magnitude a h = ground arith

abbrev pub signed_product : ℕ → ℕ → ℕ
signed_product a b =
    let m = magnitude a * magnitude b in
    if (if is_neg a then not (is_neg b) else is_neg b) then (2 ^ 64 - m) % 2 ^ 64 else m

magnitude-zero : (a b : ℕ) → ((a == 0) || (b == 0)) ≡ true → magnitude a * magnitude b ≡ 0
unfolding magnitude is_neg
magnitude-zero a b h = elim (Bool-cases (a == 0)) [
  | inl first ↦ rw (==→eq a 0 first) (zero-mul (magnitude b))
  | inr other ↦ rw (==→eq b 0 (rw other at h)) (mul-zero (magnitude a))
]

signed_zero : (a b : ℕ) → magnitude a * magnitude b ≡ 0 → 0 ≡ signed_product a b
signed_zero a b e = rw e (either (if is_neg a then not (is_neg b) else is_neg b))
  where
    either : (differ : Bool) → 0 ≡ (if differ then (2 ^ 64 - 0) % 2 ^ 64 else 0)
    either true = refl
    either false = refl

multiply-operands :
    (a b : ℕ)
    → a < 2 ^ 32
    → b < 2 ^ 32
    → IsProduct
        (magnitude a * magnitude b)
        (multiply 32 (start (operand (is_neg a) a) (operand (is_neg b) b)))
multiply-operands a b h h' =
    let (ea, la) = operand-magnitude a h in
    let (eb, lb) = operand-magnitude b h' in
    rw (ea, eb) (multiply-start (magnitude a) (magnitude b) la lb)

signed_result :
    (differ : Bool) (n : ℕ) (p : Product)
    → IsProduct n p
    → double_word (if differ then negate (p.hi, p.lo) else (p.hi, p.lo))
      ≡ (if differ then (2 ^ 64 - n) % 2 ^ 64 else n)
signed_result false n p (w, t) = t
signed_result true n p (w, t) =
    negate-double_word p.hi p.lo w.hi_lt w.lo_lt ∙ ap (λ (x : ℕ). (2 ^ 64 - x) % 2 ^ 64) t

-- On words `Mult` with signs gives the product of the signed numbers, as a 64-bit pattern: that
-- of the magnitudes, with its two's complement taken when exactly one of the numbers is negative.
pub mult_signed :
    (a b : ℕ) → a < 2 ^ 32 → b < 2 ^ 32 → double_word (mult a b true) ≡ signed_product a b
unfolding mult start
mult_signed a b h h' = elim (Bool-cases ((a == 0) || (b == 0))) [
  | inl gone ↦ rw gone (signed_zero a b (magnitude-zero a b gone))
  | inr there ↦ rw there (
      signed_result (if is_neg a then not (is_neg b) else is_neg b) (magnitude a * magnitude b) _
        (multiply-operands a b h h'))
]
