-- ===== src/Machine/Multiply/Loop.antt =====
-- code/machine/mipssim.cc: the loop of `Mult`.
use native.Mathlib.Nat.{zero-mul, one-mul, pow-suc, mul-le-mul_left, one-le-pow}
use nachos_system_design.Base.{
  ℕ, zero, suc, ◌+◌, ◌*◌, ◌/◌, ◌%◌, ◌^◌, ◌<◌, ◌≤◌, ◌≡◌, ap, ap₂, ◌∙◌, ==→eq, true, false, ltb, ◌==◌,
  arith, Bool-cases, inl, inr,
}
use nachos_system_design.Base.Bits.{bit_and-one, bit_or-even_one}
use nachos_system_design.Machine.Word.{add32, is_neg, shift_left}
use nachos_system_design.Machine.Word.Laws.{
  sign_bit-is_neg, bit_and_rest, low, low-lt, low-shift_right, shift_right-lt,
}
use nachos_system_design.Machine.Multiply.{Product, add_in, shift, multiply}

pub record IsWords (p : Product) : Type 0 where
  pub a_lt : p.a < 2 ^ 32
  pub b_lo_lt : p.b_lo < 2 ^ 32
  pub b_hi_lt : p.b_hi < 2 ^ 32
  pub lo_lt : p.lo < 2 ^ 32
  pub hi_lt : p.hi < 2 ^ 32

-- The two double words.
abbrev pub total : Product → ℕ
total p = p.hi * 2 ^ 32 + p.lo

abbrev pub factor : Product → ℕ
factor p = p.b_hi * 2 ^ 32 + p.b_lo

add_in-total :
    (p : Product)
    → IsWords p
    → total p + factor p < 2 ^ 64
    → IsWords (add_in p) × (total (add_in p) ≡ total p + factor p)
unfolding add_in add32
add_in-total p w h =
    let s = (p.lo + p.b_lo) % 2 ^ 32 in
    (
      record {
        a_lt = w.a_lt;
        b_lo_lt = w.b_lo_lt;
        b_hi_lt = w.b_hi_lt;
        lo_lt = omega arith;
        hi_lt = omega arith;
      },
      ground (arith, w.b_lo_lt, w.b_hi_lt, w.lo_lt, w.hi_lt),
    )

shift-factor :
    (p : Product)
    → IsWords p
    → factor p < 2 ^ 63
    → IsWords (shift p) × (factor (shift p) ≡ 2 * factor p)
unfolding shift shift_left is_neg
shift-factor p w h =
    let high : p.b_hi * 2 % 2 ^ 32 ≡ 2 * p.b_hi = omega (arith, w.b_lo_lt) in
    let carried = bit_or-even_one p.b_hi in
    let sign = sign_bit-is_neg p.b_lo w.b_lo_lt in
    let words : (hi : ℕ) → hi < 2 ^ 32 → IsWords (record (shift p) { b_hi = hi }) = λ hi fits.
      record {
        a_lt = shift_right-lt p.a w.a_lt;
        b_lo_lt = omega arith;
        b_hi_lt = fits;
        lo_lt = w.lo_lt;
        hi_lt = w.hi_lt;
      } in
    elim (Bool-cases (ltb p.b_lo (2 ^ 31))) [
      | inl below ↦ rw (sign, below, high) (words (2 * p.b_hi) (omega arith), ground arith)
      | inr above ↦
          rw (sign, above, high, carried) (words (2 * p.b_hi + 1) (omega arith), ground arith)
    ]

-- The product of the digits of `a` still to come with the factor.
abbrev pub rest : ℕ → Product → ℕ
rest n p = low n p.a * factor p

rest-suc :
    (n : ℕ) (p : Product) → rest (suc n) p ≡ p.a % 2 * factor p + low n (p.a / 2) * (2 * factor p)
unfolding low
rest-suc n p = grind arith

-- The loop of `n` rounds adds what is still to come.
abbrev Completes : ℕ → Product → Type 0
Completes n p =
    IsWords p
    → factor p * 2 ^ n < 2 ^ 64
    → total p + rest n p < 2 ^ 64
    → IsWords (multiply n p) × (total (multiply n p) ≡ total p + rest n p)

-- After a round that only shifts, or has added already.
shifted :
    (n : ℕ) (p : Product)
    → n ≤ 31
    → Completes n (shift p)
    → IsWords p
    → factor p * 2 ^ suc n < 2 ^ 64
    → total p + low n (p.a / 2) * (2 * factor p) < 2 ^ 64
    → IsWords (multiply n (shift p))
      × (total (multiply n (shift p)) ≡ total p + low n (p.a / 2) * (2 * factor p))
unfolding shift
shifted n p small ih w fits room =
    let doubled : factor p * 2 ^ suc n ≡ 2 * factor p * 2 ^ n = simp pow-suc (grind arith) in
    let below : factor p < 2 ^ 63 =
      omega (arith, fits, doubled, mul-le-mul_left (2 * factor p) (one-le-pow n 2 (omega arith))) in
    let (ws, f) = shift-factor p w below in
    let left : rest n (shift p) ≡ low n (p.a / 2) * (2 * factor p) =
      ap₂ (λ (x y : ℕ). x * y) (low-shift_right n p.a small w.a_lt) f in
    let (ws', t) =
      ih ws (omega (arith, ap (λ (x : ℕ). x * 2 ^ n) f, fits, doubled))
        (omega (arith, left, room)) in
    (ws', omega (arith, t, left))

odd_one : (a : ℕ) → (a % 2 == 0) ≡ false → a % 2 ≡ 1
odd_one a h = ground arith

half_zero : (a : ℕ) → (a / 2 * 2 == 0) ≡ true → a / 2 ≡ 0
half_zero a h = ground arith

low-none : (n a : ℕ) → a ≡ 0 → low n a ≡ 0
low-none n a e = rw e (low-lt n 0 (one-le-pow n 2 (omega arith)))

pub multiply-total : (n : ℕ) (p : Product) → n ≤ 32 → Completes n p
unfolding multiply low add_in
multiply-total zero p small w fits room = (w, omega arith)
multiply-total (suc n) p small w fits room =
    let split = rest-suc n p in
    let odd = bit_and-one p.a in
    elim (Bool-cases (p.a % 2 == 0)) [
      | inl even ↦
          let none : p.a % 2 * factor p ≡ 0 =
            ap (λ (x : ℕ). x * factor p) (==→eq (p.a % 2) 0 even) ∙ zero-mul (factor p) in
          let (ws, t) =
            shifted n p (omega arith) (multiply-total n (shift p) (omega arith)) w fits
              (omega (arith, split, none, room)) in
          rw (odd, even) (ws, omega (arith, t, split, none))
      | inr set ↦
          let once : p.a % 2 * factor p ≡ factor p =
            ap (λ (x : ℕ). x * factor p) (odd_one p.a set) ∙ one-mul (factor p) in
          let (added, sum) = add_in-total p w (omega (arith, split, once, room)) in
          let more = bit_and_rest p.a w.a_lt in
          elim (Bool-cases (p.a / 2 * 2 == 0)) [
            | inl last ↦
                let none : low n (p.a / 2) * (2 * factor p) ≡ 0 =
                  ap (λ (x : ℕ). x * (2 * factor p)) (low-none n (p.a / 2) (half_zero p.a last))
                  ∙ zero-mul (2 * factor p) in
                rw (odd, set, more, last) (added, omega (arith, sum, split, once, none))
            | inr goes_on ↦
                let (ws, t) =
                  shifted n (add_in p) (omega arith)
                    (multiply-total n (shift (add_in p)) (omega arith)) added fits
                    (omega (arith, split, once, sum, room)) in
                rw (odd, set, more, goes_on) (ws, omega (arith, t, split, once, sum))
          ]
    ]
