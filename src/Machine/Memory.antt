-- ===== src/Machine/Memory.antt =====
-- code/machine/translate.cc: `Machine::ReadMem` and `Machine::WriteMem`, on a little-endian host.
pub mod Laws
pub mod RoundTrip
use nachos_system_design.Base.{
  set_all, ℕ, zero, suc, ◌+◌, ◌-◌, ◌*◌, ◌/◌, ◌%◌, ◌^◌, Bool, true, false, Option, none, some, List,
  [], ◌∷◌, ltb, ◌==◌, if◌then◌else◌, get_or, set, bit_and, Run, ok, aborted, ◌>>=◌, ◌>>◌, assert,
}
use nachos_system_design.Machine.{Machine, ExceptionType, raise_exception}
use nachos_system_design.Machine.Translate.{translate, Translated, at, fault}

-- A byte of main memory.
abbrev pub byte_at : List ℕ → ℕ → ℕ
byte_at mem pa = get_or mem pa 0

-- `mainMemory` is an array of `char`, which is signed: a byte from 0x80 up reads as negative.
unfoldable pub sign_extend_byte : ℕ → ℕ
sign_extend_byte b = if ltb b 128 then b else 2 ^ 32 - 256 + b

-- The words that a little-endian host reads; `WordToHost` and `ShortToHost` change nothing there.
unfoldable pub fetch : List ℕ → ℕ → ℕ → Run ℕ
unfolding sign_extend_byte
fetch mem pa size =
    if size == 1
    then ok (sign_extend_byte (byte_at mem pa))
    else (if size == 2
        then ok (byte_at mem pa + byte_at mem (pa + 1) * 256)
        else (if size == 4
            then ok (
                byte_at mem pa
                + byte_at mem (pa + 1) * 256
                + byte_at mem (pa + 2) * 65536
                + byte_at mem (pa + 3) * 16777216)
            else aborted))

-- The bytes of the word, lowest first.
unfoldable pub store : List ℕ → ℕ → ℕ → ℕ → Run (List ℕ)
store mem pa size value =
    if size == 1
    then ok (set_all mem pa ((value % 256) ∷ []))
    else (if size == 2
        then ok (set_all mem pa ((value % 256) ∷ (value / 256 % 256) ∷ []))
        else (if size == 4
            then ok (
                set_all mem pa (
                  (value % 256)
                  ∷ (value / 256 % 256)
                  ∷ (value / 65536 % 256)
                  ∷ (value / 16777216 % 256)
                  ∷ []))
            else aborted))

module _ (handler : ExceptionType → Machine → Run Machine) where
  finish_read : Machine × Translated → ℕ → ℕ → Run (Machine × Option ℕ)
  finish_read (m, fault x) addr size = do m' ← raise_exception handler m x addr; ok (m', none)
  finish_read (m, at pa) addr size = do v ← fetch m.main_memory pa size; ok (m, some v)

  -- `none` is the return value FALSE, else the value that is stored in `*value`.
  unfoldable pub read_mem : Machine → ℕ → ℕ → Run (Machine × Option ℕ)
  unfolding finish_read
  read_mem m addr size = do r ← translate m addr size false; finish_read r addr size

  finish_write : Machine × Translated → ℕ → ℕ → ℕ → Run (Machine × Bool)
  finish_write (m, fault x) addr size value = do
    m' ← raise_exception handler m x addr
    ok (m', false)
  finish_write (m, at pa) addr size value = do
    mem ← store m.main_memory pa size value
    ok (record m { main_memory = mem }, true)

  unfoldable pub write_mem : Machine → ℕ → ℕ → ℕ → Run (Machine × Bool)
  unfolding finish_write
  write_mem m addr size value = do r ← translate m addr size true; finish_write r addr size value
