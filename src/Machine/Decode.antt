-- ===== src/Machine/Decode.antt =====
-- code/machine/mipssim.h and mipssim.cc: the operation codes, the decoding tables and `Decode`.
pub mod Laws
use nachos_system_design.Base.{
  ℕ, ◌+◌, ◌*◌, ◌/◌, ◌%◌, ◌^◌, List, [], ◌∷◌, ltb, ◌==◌, if◌then◌else◌, get_or,
}

pub data OpCode : Type 0 where
  op_add op_addi op_addiu op_addu op_and op_andi op_beq op_bgez op_bgezal op_bgtz : OpCode
  op_blez op_bltz op_bltzal op_bne op_div op_divu op_j op_jal op_jalr op_jr : OpCode
  op_lb op_lbu op_lh op_lhu op_lui op_lw op_lwl op_lwr op_mfhi op_mflo op_mthi op_mtlo : OpCode
  op_mult op_multu op_nor op_or op_ori op_rfe op_sb op_sh op_sll op_sllv op_slt op_slti : OpCode
  op_sltiu op_sltu op_sra op_srav op_srl op_srlv op_sub op_subu op_sw op_swl op_swr : OpCode
  op_xor op_xori op_syscall op_unimp op_res special bcond : OpCode

pub data Format : Type 0 where
  ifmt jfmt rfmt : Format

pub record Instruction : Type 0 where
  pub value : ℕ
  pub op_code : OpCode
  pub rs : ℕ
  pub rt : ℕ
  pub rd : ℕ
  pub extra : ℕ

unfoldable pub op_table : List (OpCode × Format)
op_table =
    (special, rfmt)
    ∷ (bcond, ifmt)
    ∷ (op_j, jfmt)
    ∷ (op_jal, jfmt)
    ∷ (op_beq, ifmt)
    ∷ (op_bne, ifmt)
    ∷ (op_blez, ifmt)
    ∷ (op_bgtz, ifmt)
    ∷ (op_addi, ifmt)
    ∷ (op_addiu, ifmt)
    ∷ (op_slti, ifmt)
    ∷ (op_sltiu, ifmt)
    ∷ (op_andi, ifmt)
    ∷ (op_ori, ifmt)
    ∷ (op_xori, ifmt)
    ∷ (op_lui, ifmt)
    ∷ (op_unimp, ifmt)
    ∷ (op_unimp, ifmt)
    ∷ (op_unimp, ifmt)
    ∷ (op_unimp, ifmt)
    ∷ (op_res, ifmt)
    ∷ (op_res, ifmt)
    ∷ (op_res, ifmt)
    ∷ (op_res, ifmt)
    ∷ (op_res, ifmt)
    ∷ (op_res, ifmt)
    ∷ (op_res, ifmt)
    ∷ (op_res, ifmt)
    ∷ (op_res, ifmt)
    ∷ (op_res, ifmt)
    ∷ (op_res, ifmt)
    ∷ (op_res, ifmt)
    ∷ (op_lb, ifmt)
    ∷ (op_lh, ifmt)
    ∷ (op_lwl, ifmt)
    ∷ (op_lw, ifmt)
    ∷ (op_lbu, ifmt)
    ∷ (op_lhu, ifmt)
    ∷ (op_lwr, ifmt)
    ∷ (op_res, ifmt)
    ∷ (op_sb, ifmt)
    ∷ (op_sh, ifmt)
    ∷ (op_swl, ifmt)
    ∷ (op_sw, ifmt)
    ∷ (op_res, ifmt)
    ∷ (op_res, ifmt)
    ∷ (op_swr, ifmt)
    ∷ (op_res, ifmt)
    ∷ (op_unimp, ifmt)
    ∷ (op_unimp, ifmt)
    ∷ (op_unimp, ifmt)
    ∷ (op_unimp, ifmt)
    ∷ (op_res, ifmt)
    ∷ (op_res, ifmt)
    ∷ (op_res, ifmt)
    ∷ (op_res, ifmt)
    ∷ (op_unimp, ifmt)
    ∷ (op_unimp, ifmt)
    ∷ (op_unimp, ifmt)
    ∷ (op_unimp, ifmt)
    ∷ (op_res, ifmt)
    ∷ (op_res, ifmt)
    ∷ (op_res, ifmt)
    ∷ (op_res, ifmt)
    ∷ []

unfoldable pub special_table : List OpCode
special_table =
    op_sll ∷ op_res ∷ op_srl ∷ op_sra ∷ op_sllv ∷ op_res ∷ op_srlv ∷ op_srav ∷ op_jr ∷ op_jalr
    ∷ op_res ∷ op_res ∷ op_syscall ∷ op_unimp ∷ op_res ∷ op_res ∷ op_mfhi ∷ op_mthi ∷ op_mflo
    ∷ op_mtlo ∷ op_res ∷ op_res ∷ op_res ∷ op_res ∷ op_mult ∷ op_multu ∷ op_div ∷ op_divu ∷ op_res
    ∷ op_res ∷ op_res ∷ op_res ∷ op_add ∷ op_addu ∷ op_sub ∷ op_subu ∷ op_and ∷ op_or ∷ op_xor
    ∷ op_nor ∷ op_res ∷ op_res ∷ op_slt ∷ op_sltu ∷ op_res ∷ op_res ∷ op_res ∷ op_res ∷ op_res
    ∷ op_res ∷ op_res ∷ op_res ∷ op_res ∷ op_res ∷ op_res ∷ op_res ∷ op_res ∷ op_res ∷ op_res
    ∷ op_res ∷ op_res ∷ op_res ∷ op_res ∷ op_res ∷ []

-- A shift by constants and a mask of low bits, on an unsigned word.
unfoldable pub extra_of : Format → ℕ → ℕ
extra_of ifmt value = let low = value % 2 ^ 16 in if ltb low 0x8000 then low else low + 0xffff0000
extra_of rfmt value = value / 2 ^ 6 % 2 ^ 5
extra_of jfmt value = value % 2 ^ 26

-- `i` is `value & 0x1f0000`.
unfoldable pub branch_code : ℕ → OpCode
branch_code i =
    if i == 0
    then op_bltz
    else (if i == 0x10000
        then op_bgez
        else (if i == 0x100000 then op_bltzal else (if i == 0x110000 then op_bgezal else op_unimp)))

unfoldable pub resolve : OpCode → ℕ → OpCode
resolve special value = get_or special_table (value % 2 ^ 6) op_res
resolve bcond value = branch_code (value / 2 ^ 16 % 2 ^ 5 * 2 ^ 16)
resolve op value = op

unfoldable pub decode : ℕ → Instruction
decode value =
    let (op, format) = get_or op_table (value / 2 ^ 26 % 2 ^ 6) (op_res, ifmt) in
    record {
      value = value;
      op_code = resolve op value;
      rs = value / 2 ^ 21 % 2 ^ 5;
      rt = value / 2 ^ 16 % 2 ^ 5;
      rd = value / 2 ^ 11 % 2 ^ 5;
      extra = extra_of format value;
    }
