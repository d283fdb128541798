-- ===== src/Machine/Simulate/Execute.antt =====
-- code/machine/mipssim.cc: the `switch` of `Machine::OneInstruction`, and what stands around it.
use nachos_system_design.Base.{
  ℕ, Bool, true, false, not, ◌&&◌, ◌||◌, Option, none, some, ltb, ◌==◌, if◌then◌else◌, bit_and,
  bit_or, bit_xor, Run, ok, aborted, ◌>>=◌,
}
use nachos_system_design.Machine.{
  Machine, ExceptionType, syscall_exception, illegal_instr_exception, reg, set_reg, delayed_load,
  pc_reg, next_pc_reg, prev_pc_reg,
}
use nachos_system_design.Machine.Word.{
  add32, sub32, not32, sign_bit, is_neg, less, shift_left, shift_right,
}
use nachos_system_design.Machine.Memory.{read_mem}
use nachos_system_design.Machine.Decode.{
  Instruction, OpCode, decode, op_add, op_addi, op_addiu, op_addu, op_and, op_andi, op_beq, op_bgez,
  op_bgezal, op_bgtz, op_blez, op_bltz, op_bltzal, op_bne, op_div, op_divu, op_j, op_jal, op_jalr,
  op_jr, op_lb, op_lbu, op_lh, op_lhu, op_lui, op_lw, op_lwl, op_lwr, op_mfhi, op_mflo, op_mthi,
  op_mtlo, op_mult, op_multu, op_nor, op_or, op_ori, op_sb, op_sh, op_sll, op_sllv, op_slt, op_slti,
  op_sltiu, op_sltu, op_sra, op_srav, op_srl, op_srlv, op_sub, op_subu, op_sw, op_swl, op_swr,
  op_xor, op_xori, op_syscall, op_unimp, op_res,
}
use nachos_system_design.Machine.Multiply.{mult}
use nachos_system_design.Machine.Simulate.{
  Executed, advanced, returned, hi_reg, lo_reg, r31, assign, branch, link, jump_target, divide,
  divide_unsigned, merge_left, merge_right, insert_left, insert_right, raise, writing, add,
  add_immediate, subtract, load_byte, load_half, load_word, load_part, store_part,
}

-- The product in the two registers.
unfoldable pub multiply_into : Machine → ℕ → ℕ → Bool → Machine
multiply_into m a b signed =
    let (hi, lo) = mult a b signed in set_reg (set_reg m hi_reg hi) lo_reg lo

module _ (handler : ExceptionType → Machine → Run Machine) where
  -- `a` and `b` are the registers rs and rt, `addr` is the address of a load or a store.
  unfoldable pub execute : OpCode → Machine → Instruction → ℕ → ℕ → ℕ → ℕ → Run Executed
  execute op_add m i a b addr pc_after = add handler m i.rd a b pc_after
  execute op_addi m i a b addr pc_after = add_immediate handler m i.rt a i.extra pc_after
  execute op_addiu m i a b addr pc_after = assign m i.rt (add32 a i.extra) pc_after
  execute op_addu m i a b addr pc_after = assign m i.rd (add32 a b) pc_after
  execute op_and m i a b addr pc_after = assign m i.rd (bit_and a b) pc_after
  execute op_andi m i a b addr pc_after =
      assign m i.rt (bit_and a (bit_and i.extra 0xffff)) pc_after
  execute op_beq m i a b addr pc_after = branch m i (a == b) pc_after
  execute op_bgezal m i a b addr pc_after =
      branch (link m r31) i (not (sign_bit (reg (link m r31) i.rs))) pc_after
  execute op_bgez m i a b addr pc_after = branch m i (not (sign_bit a)) pc_after
  execute op_bgtz m i a b addr pc_after = branch m i (not (is_neg a) && not (a == 0)) pc_after
  execute op_blez m i a b addr pc_after = branch m i (is_neg a || a == 0) pc_after
  execute op_bltzal m i a b addr pc_after =
      branch (link m r31) i (sign_bit (reg (link m r31) i.rs)) pc_after
  execute op_bltz m i a b addr pc_after = branch m i (sign_bit a) pc_after
  execute op_bne m i a b addr pc_after = branch m i (not (a == b)) pc_after
  execute op_div m i a b addr pc_after = divide m a b pc_after
  execute op_divu m i a b addr pc_after = ok (advanced (divide_unsigned m a b) pc_after 0 0)
  execute op_jal m i a b addr pc_after = ok (advanced (link m r31) (jump_target pc_after i) 0 0)
  execute op_j m i a b addr pc_after = ok (advanced m (jump_target pc_after i) 0 0)
  execute op_jalr m i a b addr pc_after = ok (advanced (link m i.rd) (reg (link m i.rd) i.rs) 0 0)
  execute op_jr m i a b addr pc_after = ok (advanced m a 0 0)
  execute op_lb m i a b addr pc_after = load_byte handler m addr i.rt true pc_after
  execute op_lbu m i a b addr pc_after = load_byte handler m addr i.rt false pc_after
  execute op_lh m i a b addr pc_after = load_half handler m addr i.rt true pc_after
  execute op_lhu m i a b addr pc_after = load_half handler m addr i.rt false pc_after
  execute op_lui m i a b addr pc_after = assign m i.rt (shift_left i.extra 16) pc_after
  execute op_lw m i a b addr pc_after = load_word handler m addr i.rt pc_after
  execute op_lwl m i a b addr pc_after = load_part handler merge_left m addr i.rt pc_after
  execute op_lwr m i a b addr pc_after = load_part handler merge_right m addr i.rt pc_after
  execute op_mfhi m i a b addr pc_after = assign m i.rd (reg m hi_reg) pc_after
  execute op_mflo m i a b addr pc_after = assign m i.rd (reg m lo_reg) pc_after
  execute op_mthi m i a b addr pc_after = assign m hi_reg a pc_after
  execute op_mtlo m i a b addr pc_after = assign m lo_reg a pc_after
  execute op_mult m i a b addr pc_after = ok (advanced (multiply_into m a b true) pc_after 0 0)
  execute op_multu m i a b addr pc_after = ok (advanced (multiply_into m a b false) pc_after 0 0)
  execute op_nor m i a b addr pc_after = assign m i.rd (not32 (bit_or a b)) pc_after
  execute op_or m i a b addr pc_after = assign m i.rd (bit_or a b) pc_after
  execute op_ori m i a b addr pc_after = assign m i.rt (bit_or a (bit_and i.extra 0xffff)) pc_after
  execute op_sb m i a b addr pc_after = writing handler m addr 1 b pc_after
  execute op_sh m i a b addr pc_after = writing handler m addr 2 b pc_after
  execute op_sll m i a b addr pc_after = assign m i.rd (shift_left b i.extra) pc_after
  execute op_sllv m i a b addr pc_after = assign m i.rd (shift_left b (bit_and a 0x1f)) pc_after
  execute op_slt m i a b addr pc_after = assign m i.rd (if less a b then 1 else 0) pc_after
  execute op_slti m i a b addr pc_after = assign m i.rt (if less a i.extra then 1 else 0) pc_after
  execute op_sltiu m i a b addr pc_after = assign m i.rt (if ltb a i.extra then 1 else 0) pc_after
  execute op_sltu m i a b addr pc_after = assign m i.rd (if ltb a b then 1 else 0) pc_after
  execute op_sra m i a b addr pc_after = assign m i.rd (shift_right b i.extra) pc_after
  execute op_srav m i a b addr pc_after = assign m i.rd (shift_right b (bit_and a 0x1f)) pc_after
  execute op_srl m i a b addr pc_after = assign m i.rd (shift_right b i.extra) pc_after
  execute op_srlv m i a b addr pc_after = assign m i.rd (shift_right b (bit_and a 0x1f)) pc_after
  execute op_sub m i a b addr pc_after = subtract handler m i.rd a b pc_after
  execute op_subu m i a b addr pc_after = assign m i.rd (sub32 a b) pc_after
  execute op_sw m i a b addr pc_after = writing handler m addr 4 b pc_after
  execute op_swl m i a b addr pc_after = store_part handler insert_left m addr i.rt pc_after
  execute op_swr m i a b addr pc_after = store_part handler insert_right m addr i.rt pc_after
  execute op_syscall m i a b addr pc_after = raise handler m syscall_exception 0
  execute op_xor m i a b addr pc_after = assign m i.rd (bit_xor a b) pc_after
  execute op_xori m i a b addr pc_after =
      assign m i.rt (bit_xor a (bit_and i.extra 0xffff)) pc_after
  execute op_res m i a b addr pc_after = raise handler m illegal_instr_exception 0
  execute op_unimp m i a b addr pc_after = raise handler m illegal_instr_exception 0
  execute other m i a b addr pc_after = aborted

  -- The delayed load and the program counters, after an instruction that did not return early.
  unfoldable pub finish : Executed → Machine
  finish (returned m) = m
  finish (advanced m pc_after load_to load_value) =
      let m₁ = delayed_load m load_to load_value in
      let m₂ = set_reg m₁ prev_pc_reg (reg m₁ pc_reg) in
      let m₃ = set_reg m₂ pc_reg (reg m₂ next_pc_reg) in set_reg m₃ next_pc_reg pc_after

  unfoldable pub run_decoded : Machine × Option ℕ → Run Machine
  run_decoded (m, none) = ok m
  run_decoded (m, some raw) = do
    let i = decode raw
    let pc_after = add32 (reg m next_pc_reg) 4
    let addr = add32 (reg m i.rs) i.extra
    done ← execute i.op_code m i (reg m i.rs) (reg m i.rt) addr pc_after
    ok (finish done)

  unfoldable pub one_instruction : Machine → Run Machine
  unfolding run_decoded
  one_instruction m = do fetched ← read_mem handler m (reg m pc_reg) 4; run_decoded fetched
