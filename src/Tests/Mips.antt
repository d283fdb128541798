-- ===== src/Tests/Mips.antt =====
-- code/machine/mipssim.cc at a machine that runs a few instructions.
use nachos_system_design.Base.{ℕ, ◌≡◌, ◌≢◌, ◌*◌, refl, true, false, arith, Run, ok}
use nachos_system_design.Machine.{Machine, ExceptionType, new}
use nachos_system_design.Machine.Word.{is_neg, shift_right_unsigned}
use nachos_system_design.Machine.Decode.{Instruction, decode, extra_of, op_table, op_srl}
use nachos_system_design.Machine.Decode.Laws.{IsDecoded, decode-IsDecoded}
use nachos_system_design.Machine.Multiply.{mult}
use nachos_system_design.Machine.Multiply.Laws.{
  double_word, signed_product, mult_unsigned, mult_signed,
}
use nachos_system_design.Machine.Simulate.{assign, add, add_immediate, subtract}
use nachos_system_design.Machine.Simulate.Execute.{execute}
use nachos_system_design.Machine.Simulate.Laws.{Adds, Subtracts, checked_arithmetic}
use nachos_system_design.Machine.Simulate.Shifts.{srl_keeps_sign}

-- A kernel that leaves the machine as it is.
abbrev handler : ExceptionType → Machine → Run Machine
handler which m = ok m

-- `srl $2, $3, 4`
abbrev srl_instruction : Instruction
srl_instruction = decode 0x00031102

decode-IsDecoded_example : IsDecoded (decode 0x00031102)
decode-IsDecoded_example = decode-IsDecoded 0x00031102

mult_unsigned_example : double_word (mult 0xffffffff 0xfffffffe false) ≡ 0xffffffff * 0xfffffffe
mult_unsigned_example = mult_unsigned 0xffffffff 0xfffffffe (omega arith) (omega arith)

mult_signed_example : double_word (mult 0xffffffff 7 true) ≡ signed_product 0xffffffff 7
mult_signed_example = mult_signed 0xffffffff 7 (omega arith) (omega arith)

checked_arithmetic_example :
    Adds handler new 2 0x7fffffff 1 8 (omega arith) (omega arith) (add handler new 2 0x7fffffff 1 8)
    × Adds handler new 2 0x7fffffff 1 8
        (omega arith)
        (omega arith)
        (add_immediate handler new 2 0x7fffffff 1 8)
    × Subtracts handler new 2 0x7fffffff 1 8
        (omega arith)
        (omega arith)
        (subtract handler new 2 0x7fffffff 1 8)
checked_arithmetic_example =
    checked_arithmetic handler new 2 0x7fffffff 1 8 (omega arith) (omega arith)

shifted_by_four : srl_instruction.extra ≡ 4
unfolding decode extra_of op_table
shifted_by_four = refl

srl_keeps_sign_example :
    (v : ℕ) × (execute handler op_srl new srl_instruction 0 0x80000000 0 8
      ≡ assign new srl_instruction.rd v 8)
    × (is_neg v ≡ true)
    × (v ≢ shift_right_unsigned 0x80000000 srl_instruction.extra)
srl_keeps_sign_example =
    srl_keeps_sign handler new srl_instruction 0 0x80000000 0 8 (omega arith) (omega arith)
      (omega (arith, shifted_by_four))
