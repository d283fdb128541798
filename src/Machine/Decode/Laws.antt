-- ===== src/Machine/Decode/Laws.antt =====
-- code/machine/mipssim.cc: what `Decode` gives for any word.
use nachos_system_design.Base.{
  ℕ, ◌*◌, ◌/◌, ◌%◌, ◌^◌, ◌<◌, ◌≡◌, refl, Bool, true, false, get_or, All-get_or, arith,
}
use nachos_system_design.Machine.Decode.{
  OpCode, Format, ifmt, jfmt, rfmt, Instruction, decode, resolve, branch_code, extra_of, op_table,
  special_table, op_rfe, special, bcond, op_res,
}

-- The codes that a case of the `switch` of `OneInstruction` serves.
unfoldable pub is_served : OpCode → Bool
is_served op_rfe = false
is_served special = false
is_served bcond = false
is_served op = true

-- The codes of the first table, those that lead to another table included.
unfoldable is_listed : OpCode → Bool
is_listed op_rfe = false
is_listed op = true

branch_code-is_served : (i : ℕ) → is_served (branch_code i) ≡ true
unfolding branch_code is_served
branch_code-is_served i = ground arith

special-is_served : (k : ℕ) → is_served (get_or special_table k op_res) ≡ true
unfolding special_table is_served
special-is_served k =
    All-get_or (λ op. is_served op ≡ true) special_table k op_res (ground arith) refl

resolve-is_served :
    (op : OpCode) (value : ℕ) → is_listed op ≡ true → is_served (resolve op value) ≡ true
unfolding is_listed is_served resolve
resolve-is_served special value h = special-is_served (value % 2 ^ 6)
resolve-is_served bcond value h = branch_code-is_served (value / 2 ^ 16 % 2 ^ 5 * 2 ^ 16)
resolve-is_served op_rfe value h = cc
resolve-is_served op value h = ground arith

op_table-is_listed : (k : ℕ) → is_listed (get_or op_table k (op_res, ifmt)).0 ≡ true
unfolding op_table is_listed
op_table-is_listed k =
    All-get_or (λ e. is_listed e.0 ≡ true) op_table k (op_res, ifmt) (ground arith) refl

extra_of-lt : (format : Format) (value : ℕ) → extra_of format value < 2 ^ 32
unfolding extra_of
extra_of-lt ifmt value = ground arith
extra_of-lt rfmt value = omega arith
extra_of-lt jfmt value = omega arith

-- What `OneInstruction` relies on in an instruction.
pub record IsDecoded (i : Instruction) : Type 0 where
  pub served : is_served i.op_code ≡ true
  pub rs_lt : i.rs < 32
  pub rt_lt : i.rt < 32
  pub rd_lt : i.rd < 32
  pub extra_lt : i.extra < 2 ^ 32

-- Of every word `Decode` makes an instruction whose code the `switch` serves, whose registers are
-- general registers, and whose operand is a word.
pub decode-IsDecoded : (value : ℕ) → IsDecoded (decode value)
unfolding decode
decode-IsDecoded value =
    let entry = get_or op_table (value / 2 ^ 26 % 2 ^ 6) (op_res, ifmt) in
    record {
      served = resolve-is_served entry.0 value (op_table-is_listed (value / 2 ^ 26 % 2 ^ 6));
      rs_lt = omega arith;
      rt_lt = omega arith;
      rd_lt = omega arith;
      extra_lt = extra_of-lt entry.1 value;
    }
