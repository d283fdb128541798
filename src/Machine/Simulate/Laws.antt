-- ===== src/Machine/Simulate/Laws.antt =====
-- code/machine/mipssim.cc: the instructions that check for overflow, and the shifts.
use native.Mathlib.Omega.{div_any}
use native.Mathlib.Nat.{pow-suc, mul-le-mul_right, one-le-pow}
use nachos_system_design.Base.{
  ℕ, zero, suc, ◌+◌, ◌-◌, ◌*◌, ◌/◌, ◌%◌, ◌^◌, ◌<◌, ◌≤◌, ◌≡◌, ◌≢◌, refl, ◌⊎◌, Bool, true, false, not,
  ◌&&◌, if◌then◌else◌, ltb, arith, bit_xor, Run,
}
use nachos_system_design.Base.Bits.{bit_xor-top}
use nachos_system_design.Machine.{Machine, ExceptionType, overflow_exception}
use nachos_system_design.Machine.Word.{
  add32, sub32, is_neg, sign_bit, shift_right, shift_right_unsigned,
}
use nachos_system_design.Machine.Word.Laws.{sign_bit-is_neg}
use nachos_system_design.Machine.Simulate.{Executed, assign, raise, add, add_immediate, subtract}

-- The `int` with the pattern `a`, plus 2 ^ 31.
abbrev pub biased : ℕ → ℕ
biased a = (a + 2 ^ 31) % 2 ^ 32

-- The signs of two words differ.
abbrev differs : ℕ → ℕ → Bool
differs a b = if ltb a (2 ^ 31) then not (ltb b (2 ^ 31)) else ltb b (2 ^ 31)

sign_bit-bit_xor : (a b : ℕ) → a < 2 ^ 32 → b < 2 ^ 32 → sign_bit (bit_xor a b) ≡ differs a b
unfolding is_neg
sign_bit-bit_xor a b h h' =
    let (lt, top) = bit_xor-top 31 a b h h' in ground (arith, sign_bit-is_neg (bit_xor a b) lt, top)

module _ (handler : ExceptionType → Machine → Run Machine) (m : Machine) (r a b pc_after : ℕ)
    (h : a < 2 ^ 32) (h' : b < 2 ^ 32) where
  -- An instruction stores a result that is exact, or raises the overflow exception.
  pub data Checks (result : ℕ) (exact overflows : Type 0) : Run Executed → Type 0 where
    stores : exact → Checks result exact overflows (assign m r result pc_after)
    traps : overflows → Checks result exact overflows (raise handler m overflow_exception 0)

  abbrev pub Adds : Run Executed → Type 0
  Adds =
      Checks (add32 a b) (biased (add32 a b) + 2 ^ 31 ≡ biased a + biased b)
        ((biased a + biased b < 2 ^ 31) ⊎ (2 ^ 31 + 2 ^ 32 ≤ biased a + biased b))

  abbrev pub Subtracts : Run Executed → Type 0
  Subtracts =
      Checks (sub32 a b) (biased (sub32 a b) + biased b ≡ biased a + 2 ^ 31)
        ((biased a + 2 ^ 31 < biased b) ⊎ (2 ^ 32 + biased b ≤ biased a + 2 ^ 31))

  checked :
      (test : Bool) (result : ℕ) (exact overflows : Type 0)
      → (test ≡ true → overflows)
      → (test ≡ false → exact)
      → Checks result exact overflows
          (if test then raise handler m overflow_exception 0 else assign m r result pc_after)
  checked true result exact overflows o e = traps (o refl)
  checked false result exact overflows o e = stores (e refl)

  add-Adds : Adds (add handler m r a b pc_after)
  unfolding add add32
  add-Adds =
      rw (sign_bit-bit_xor a b h h', sign_bit-bit_xor a ((a + b) % 2 ^ 32) h (omega arith))
        (checked (not (differs a b) && differs a ((a + b) % 2 ^ 32)) ((a + b) % 2 ^ 32) _ _
          (λ t. ground arith) (λ t. ground arith))

  add_immediate-Adds : Adds (add_immediate handler m r a b pc_after)
  unfolding add_immediate add32
  add_immediate-Adds =
      rw (sign_bit-bit_xor a b h h', sign_bit-bit_xor b ((a + b) % 2 ^ 32) h' (omega arith))
        (checked (not (differs a b) && differs b ((a + b) % 2 ^ 32)) ((a + b) % 2 ^ 32) _ _
          (λ t. ground arith) (λ t. ground arith))

  subtract-Subtracts : Subtracts (subtract handler m r a b pc_after)
  unfolding subtract sub32
  subtract-Subtracts =
      let d = (a + (2 ^ 32 - b)) % 2 ^ 32 in
      rw (sign_bit-bit_xor a b h h', sign_bit-bit_xor a d h (omega arith))
        (checked (differs a b && differs a d) d _ _ (λ t. ground arith) (λ t. ground arith))

  -- On words ADD and ADDI store the exact sum of the two `int`s, or raise the overflow exception
  -- because it is no `int`; SUB does the same for the difference.
  pub checked_arithmetic :
      Adds (add handler m r a b pc_after)
      × Adds (add_immediate handler m r a b pc_after)
      × Subtracts (subtract handler m r a b pc_after)
  checked_arithmetic = (add-Adds, add_immediate-Adds, subtract-Subtracts)

halved : (b k : ℕ) → b < 2 ^ 32 → b / 2 ^ suc k < 2 ^ 31
halved b k h =
    let fact : 2 ^ suc k * (b / 2 ^ suc k) + b % 2 ^ suc k ≡ b = div_any b (2 ^ suc k) in
    let two : 2 ≤ 2 ^ suc k = omega (arith, pow-suc 2 k, one-le-pow k 2 (omega arith)) in
    omega (arith, fact, mul-le-mul_right (b / 2 ^ suc k) two)

-- A shift of an `int` keeps the sign: of a word with its top bit set it makes a word with
-- its top bit set, at every distance, and so never the word shifted with zeros in front.
pub shift_right-is_neg :
    (b k : ℕ)
    → 2 ^ 31 ≤ b
    → b < 2 ^ 32
    → 0 < k
    → (is_neg (shift_right b k) ≡ true) × (shift_right b k ≢ shift_right_unsigned b k)
unfolding shift_right is_neg
shift_right-is_neg b zero h h' pos = absurd (omega arith)
shift_right-is_neg b (suc k) h h' pos =
    let small = halved b k h' in
    let part : (2 ^ 32 - 1 - b) / 2 ^ suc k < 2 ^ 31 = halved (2 ^ 32 - 1 - b) k (omega arith) in
    (ground (arith, part), ground (arith, part, small))
