-- ===== src/Machine.antt =====
-- code/machine of the distributed file system project: machine.h, translate.h and the register
-- access of machine.cc. A 32-bit `int` is its bit pattern, a number below 2 ^ 32.
pub mod Word
pub mod Decode
pub mod Multiply
pub mod Translate
pub mod Memory
pub mod Simulate
use nachos_system_design.Base.{
  ℕ, ◌+◌, ◌*◌, Bool, true, false, Option, none, some, List, [], ltb, get_or, set, replicate, Run,
  ok, ◌>>=◌, ◌>>◌, assert,
}

abbrev pub page_size : ℕ
page_size = 128

abbrev pub num_phys_pages : ℕ
num_phys_pages = 128

abbrev pub memory_size : ℕ
memory_size = num_phys_pages * page_size

abbrev pub tlb_size : ℕ
tlb_size = 4

abbrev pub num_total_regs : ℕ
num_total_regs = 40

-- The registers that the kernel and the simulator name.
abbrev pub stack_reg : ℕ
stack_reg = 29

abbrev pub pc_reg : ℕ
pc_reg = 34

abbrev pub next_pc_reg : ℕ
next_pc_reg = 35

abbrev pub prev_pc_reg : ℕ
prev_pc_reg = 36

abbrev pub load_reg : ℕ
load_reg = 37

abbrev pub load_value_reg : ℕ
load_value_reg = 38

abbrev pub bad_vaddr_reg : ℕ
bad_vaddr_reg = 39

pub data ExceptionType : Type 0 where
  no_exception syscall_exception page_fault_exception read_only_exception : ExceptionType
  bus_error_exception address_error_exception overflow_exception : ExceptionType
  illegal_instr_exception : ExceptionType

-- `used` is the field `use`.
pub record TranslationEntry : Type 0 where
  pub virtual_page : ℕ
  pub physical_page : ℕ
  pub valid : Bool
  pub read_only : Bool
  pub used : Bool
  pub dirty : Bool

-- What a read past a table would give; a table holds as many entries as its size says.
abbrev pub blank_entry : TranslationEntry
blank_entry = record {
  virtual_page = 0;
  physical_page = 0;
  valid = false;
  read_only = false;
  used = false;
  dirty = false;
}

-- `none` is a table pointer that is NULL. The memory is a list of bytes.
pub record Machine : Type 0 where
  pub main_memory : List ℕ
  pub tlb : Option (List TranslationEntry)
  pub page_table : Option (List TranslationEntry)
  pub page_table_size : ℕ
  pub registers : List ℕ

-- Compiled without USE_TLB.
unfoldable pub new : Machine
new = record {
  main_memory = replicate memory_size 0;
  tlb = none;
  page_table = none;
  page_table_size = 0;
  registers = replicate num_total_regs 0;
}

abbrev pub reg : Machine → ℕ → ℕ
reg m num = get_or m.registers num 0

abbrev pub set_reg : Machine → ℕ → ℕ → Machine
set_reg m num value = record m { registers = set m.registers num value }

unfoldable pub read_register : Machine → ℕ → Run ℕ
read_register m num = do assert (ltb num num_total_regs); ok (reg m num)

unfoldable pub write_register : Machine → ℕ → ℕ → Run Machine
write_register m num value = do assert (ltb num num_total_regs); ok (set_reg m num value)

-- A pending load reaches its register, and the next one is noted.
unfoldable pub delayed_load : Machine → ℕ → ℕ → Machine
delayed_load m next_reg next_value =
    let m₁ = set_reg m (reg m load_reg) (reg m load_value_reg) in
    let m₂ = set_reg m₁ load_reg next_reg in
    let m₃ = set_reg m₂ load_value_reg next_value in set_reg m₃ 0 0

-- The kernel's handler is an argument; the interrupt mode that is set around it is not kept.
unfoldable pub raise_exception :
    (ExceptionType → Machine → Run Machine) → Machine → ExceptionType → ℕ → Run Machine
unfolding delayed_load
raise_exception handler m which bad_vaddr =
    handler which (delayed_load (set_reg m bad_vaddr_reg bad_vaddr) 0 0)
