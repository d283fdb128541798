-- ===== src/Machine/Simulate.antt =====
-- code/machine/mipssim.cc: `Machine::OneInstruction`, compiled with SIM_FIX as the makefiles do.
pub mod Execute
pub mod Laws
pub mod Shifts
use nachos_system_design.Base.{
  ℕ, zero, suc, ◌+◌, ◌-◌, ◌/◌, ◌%◌, ◌^◌, Bool, true, false, not, ◌&&◌, ◌||◌, Option, none, some,
  ◌==◌, if◌then◌else◌, bit_and, bit_or, bit_xor, Run, ok, aborted, ◌>>=◌,
}
use nachos_system_design.Machine.{
  Machine, ExceptionType, overflow_exception, address_error_exception, reg, set_reg,
  raise_exception, next_pc_reg, load_reg, load_value_reg,
}
use nachos_system_design.Machine.Word.{
  add32, sub32, sign_bit, shift_left, shift_right, quotient, remainder,
}
use nachos_system_design.Machine.Memory.{read_mem, write_mem}
use nachos_system_design.Machine.Decode.{Instruction}

abbrev pub hi_reg : ℕ
hi_reg = 32

abbrev pub lo_reg : ℕ
lo_reg = 33

abbrev pub r31 : ℕ
r31 = 31

-- An instruction ends with the next program counter and the delayed load; or `OneInstruction`
-- returns early.
pub data Executed : Type 0 where
  advanced : Machine → ℕ → ℕ → ℕ → Executed
  returned : Machine → Executed

-- `IndexToAddr`
abbrev pub index_to_addr : ℕ → ℕ
index_to_addr x = shift_left x 2

-- A register gets a value, and there is no delayed load.
abbrev pub assign : Machine → ℕ → ℕ → ℕ → Run Executed
assign m r value pc_after = ok (advanced (set_reg m r value) pc_after 0 0)

-- A conditional branch of an instruction.
unfoldable pub branch : Machine → Instruction → Bool → ℕ → Run Executed
branch m i taken pc_after =
    let target = add32 (reg m next_pc_reg) (index_to_addr i.extra) in
    ok (advanced m (if taken then target else pc_after) 0 0)

-- The registers of a jump and link.
unfoldable pub link : Machine → ℕ → Machine
link m r = set_reg m r (add32 (reg m next_pc_reg) 4)

unfoldable pub jump_target : ℕ → Instruction → ℕ
jump_target pc_after i = bit_or (bit_and pc_after 0xf0000000) (index_to_addr i.extra)

-- The quotient of -2 ^ 31 by -1 is no `int`: the host's division traps.
unfoldable pub divide : Machine → ℕ → ℕ → ℕ → Run Executed
divide m a b pc_after =
    if b == 0
    then ok (advanced (set_reg (set_reg m lo_reg 0) hi_reg 0) pc_after 0 0)
    else (if a == 2 ^ 31 && b == 2 ^ 32 - 1
        then aborted
        else ok (
            advanced (set_reg (set_reg m lo_reg (quotient a b)) hi_reg (remainder a b)) pc_after 0
              0))

unfoldable pub divide_unsigned : Machine → ℕ → ℕ → Machine
divide_unsigned m a b =
    if b == 0
    then set_reg (set_reg m lo_reg 0) hi_reg 0
    else set_reg (set_reg m lo_reg (a / b)) hi_reg (a % b)

-- The value that a load finds: the byte or the half word, extended with its sign or with zeros.
unfoldable pub extend_byte : Bool → ℕ → ℕ
extend_byte signed value =
    if not (bit_and value 0x80 == 0) && signed then bit_or value 0xffffff00 else bit_and value 0xff

unfoldable pub extend_half : Bool → ℕ → ℕ
extend_half signed value =
    if not (bit_and value 0x8000 == 0) && signed
    then bit_or value 0xffff0000
    else bit_and value 0xffff

-- The four cases of LWL and LWR by `3 - byte`: what is merged is the old register and the word.
unfoldable pub merge_left : ℕ → ℕ → ℕ → ℕ
merge_left zero old value = value
merge_left (suc zero) old value = bit_or (bit_and old 0xff) (shift_left value 8)
merge_left (suc (suc zero)) old value = bit_or (bit_and old 0xffff) (shift_left value 16)
merge_left (suc (suc (suc n))) old value = bit_or (bit_and old 0xffffff) (shift_left value 24)

unfoldable pub merge_right : ℕ → ℕ → ℕ → ℕ
merge_right zero old value = bit_or (bit_and old 0xffffff00) (bit_and (shift_right value 24) 0xff)
merge_right (suc zero) old value =
    bit_or (bit_and old 0xffff0000) (bit_and (shift_right value 16) 0xffff)
merge_right (suc (suc zero)) old value =
    bit_or (bit_and old 0xff000000) (bit_and (shift_right value 8) 0xffffff)
merge_right (suc (suc (suc n))) old value = value

-- The four cases of SWL and SWR: the word in memory and the register.
unfoldable pub insert_left : ℕ → ℕ → ℕ → ℕ
insert_left zero value r = r
insert_left (suc zero) value r =
    bit_or (bit_and value 0xff000000) (bit_and (shift_right r 8) 0xffffff)
insert_left (suc (suc zero)) value r =
    bit_or (bit_and value 0xffff0000) (bit_and (shift_right r 16) 0xffff)
insert_left (suc (suc (suc n))) value r =
    bit_or (bit_and value 0xffffff00) (bit_and (shift_right r 24) 0xff)

unfoldable pub insert_right : ℕ → ℕ → ℕ → ℕ
insert_right zero value r = bit_or (bit_and value 0xffffff) (shift_left r 24)
insert_right (suc zero) value r = bit_or (bit_and value 0xffff) (shift_left r 16)
insert_right (suc (suc zero)) value r = bit_or (bit_and value 0xff) (shift_left r 8)
insert_right (suc (suc (suc n))) value r = r

-- The value of the target register with a load to it that is under way.
unfoldable pub pending : Machine → ℕ → ℕ
pending m r = if reg m load_reg == r then reg m load_value_reg else reg m r

module _ (handler : ExceptionType → Machine → Run Machine) where
  unfoldable pub raise : Machine → ExceptionType → ℕ → Run Executed
  raise m which bad_vaddr = do m' ← raise_exception handler m which bad_vaddr; ok (returned m')

  -- `ReadMem` or `WriteMem`, with the early return on FALSE.
  after_read : Machine × Option ℕ → (Machine → ℕ → Run Executed) → Run Executed
  after_read (m, none) k = ok (returned m)
  after_read (m, some value) k = k m value

  unfoldable pub reading : Machine → ℕ → ℕ → (Machine → ℕ → Run Executed) → Run Executed
  unfolding after_read
  reading m addr size k = do r ← read_mem handler m addr size; after_read r k

  unfoldable pub writing : Machine → ℕ → ℕ → ℕ → ℕ → Run Executed
  writing m addr size value pc_after = do
    (m', done) ← write_mem handler m addr size value
    ok (if done then advanced m' pc_after 0 0 else returned m')

  unfoldable pub add : Machine → ℕ → ℕ → ℕ → ℕ → Run Executed
  add m r a b pc_after =
      let sum = add32 a b in
      if not (sign_bit (bit_xor a b)) && sign_bit (bit_xor a sum)
      then raise m overflow_exception 0
      else assign m r sum pc_after

  -- ADDI compares the sign of the sum with the immediate operand's.
  unfoldable pub add_immediate : Machine → ℕ → ℕ → ℕ → ℕ → Run Executed
  add_immediate m r a extra pc_after =
      let sum = add32 a extra in
      if not (sign_bit (bit_xor a extra)) && sign_bit (bit_xor extra sum)
      then raise m overflow_exception 0
      else assign m r sum pc_after

  unfoldable pub subtract : Machine → ℕ → ℕ → ℕ → ℕ → Run Executed
  subtract m r a b pc_after =
      let diff = sub32 a b in
      if sign_bit (bit_xor a b) && sign_bit (bit_xor a diff)
      then raise m overflow_exception 0
      else assign m r diff pc_after

  unfoldable pub load_byte : Machine → ℕ → ℕ → Bool → ℕ → Run Executed
  load_byte m addr r signed pc_after =
      reading m addr 1 (λ m' value. ok (advanced m' pc_after r (extend_byte signed value)))

  unfoldable pub load_half : Machine → ℕ → ℕ → Bool → ℕ → Run Executed
  load_half m addr r signed pc_after =
      if not (bit_and addr 1 == 0)
      then raise m address_error_exception addr
      else reading m addr 2 (λ m' value. ok (advanced m' pc_after r (extend_half signed value)))

  unfoldable pub load_word : Machine → ℕ → ℕ → ℕ → Run Executed
  load_word m addr r pc_after =
      if not (bit_and addr 3 == 0)
      then raise m address_error_exception addr
      else reading m addr 4 (λ m' value. ok (advanced m' pc_after r value))

  unfoldable pub load_part : (ℕ → ℕ → ℕ → ℕ) → Machine → ℕ → ℕ → ℕ → Run Executed
  load_part merge m addr r pc_after =
      let byte = bit_and addr 3 in
      reading m (addr - byte) 4
        (λ m' value. ok (advanced m' pc_after r (merge (3 - byte) (pending m' r) value)))

  unfoldable pub store_part : (ℕ → ℕ → ℕ → ℕ) → Machine → ℕ → ℕ → ℕ → Run Executed
  store_part insert m addr r pc_after =
      let byte = bit_and addr 3 in
      reading m (addr - byte) 4
        (λ m' value. writing m' (addr - byte) 4 (insert (3 - byte) value (reg m' r)) pc_after)
