-- ===== src/Machine/Multiply.antt =====
-- code/machine/mipssim.cc: `Mult`.
pub mod Loop
pub mod Laws
use nachos_system_design.Base.{
  ℕ, zero, suc, ◌+◌, ◌%◌, ◌^◌, Bool, true, false, not, ◌&&◌, ◌||◌, ltb, ◌==◌, if◌then◌else◌,
  bit_and, bit_or,
}
use nachos_system_design.Machine.Word.{
  add32, neg32, not32, is_neg, shift_left, shift_right, sign_bit,
}

-- The variables of the loop.
pub record Product : Type 0 where
  pub a : ℕ
  pub b_lo : ℕ
  pub b_hi : ℕ
  pub lo : ℕ
  pub hi : ℕ

-- What the loop does for a bit of `a` that is set.
unfoldable pub add_in : Product → Product
add_in p =
    let lo = add32 p.lo p.b_lo in
    let carried = if ltb lo p.b_lo then add32 p.hi 1 else p.hi in
    record p { lo = lo; hi = add32 carried p.b_hi }

-- The shifts at the end of a round. `a` is an `int`, and keeps its sign.
unfoldable pub shift : Product → Product
shift p =
    let doubled = shift_left p.b_hi 1 in
    record p {
      b_hi = if sign_bit p.b_lo then bit_or doubled 1 else doubled;
      b_lo = shift_left p.b_lo 1;
      a = shift_right p.a 1;
    }

unfoldable pub multiply : ℕ → Product → Product
multiply zero p = p
multiply (suc n) p =
    let added = add_in p in
    let next = multiply n (shift added) in
    let skipped = multiply n (shift p) in
    if bit_and p.a 1 == 0 then skipped else (if bit_and p.a 0xfffffffe == 0 then added else next)

-- The two's complement of the double word.
unfoldable pub negate : ℕ × ℕ → ℕ × ℕ
negate (hi, lo) =
    let lo' = add32 (not32 lo) 1 in (if lo' == 0 then add32 (not32 hi) 1 else not32 hi, lo')

-- The words at `hiPtr` and `loPtr`.
unfoldable pub mult : ℕ → ℕ → Bool → ℕ × ℕ
mult a b signed =
    let flip_a = signed && is_neg a in
    let flip_b = signed && is_neg b in
    let p = multiply 32 (record {
      a = if flip_a then neg32 a else a;
      b_lo = if flip_b then neg32 b else b;
      b_hi = 0;
      lo = 0;
      hi = 0;
    }) in
    if a == 0 || b == 0
    then (0, 0)
    else (if (if flip_a then not flip_b else flip_b) then negate (p.hi, p.lo) else (p.hi, p.lo))
