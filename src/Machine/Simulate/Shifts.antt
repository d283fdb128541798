-- ===== src/Machine/Simulate/Shifts.antt =====
-- code/machine/mipssim.cc: SRL and SRLV, which shift the `int` variable `tmp`.
use nachos_system_design.Base.{ℕ, ◌^◌, ◌<◌, ◌≤◌, ◌≡◌, ◌≢◌, refl, true, Run}
use nachos_system_design.Machine.{Machine, ExceptionType}
use nachos_system_design.Machine.Word.{is_neg, shift_right, shift_right_unsigned}
use nachos_system_design.Machine.Decode.{Instruction, op_srl}
use nachos_system_design.Machine.Simulate.{assign}
use nachos_system_design.Machine.Simulate.Execute.{execute}
use nachos_system_design.Machine.Simulate.Laws.{shift_right-is_neg}

-- SRL of a word with its top bit set, by one place or more, stores a word with its top bit set:
-- never the word shifted with zeros in front, which the MIPS instruction means.
pub srl_keeps_sign :
    (handler : ExceptionType → Machine → Run Machine) (m : Machine) (i : Instruction)
    (a b addr pc_after : ℕ)
    → 2 ^ 31 ≤ b
    → b < 2 ^ 32
    → 0 < i.extra
    → (v : ℕ) × (execute handler op_srl m i a b addr pc_after ≡ assign m i.rd v pc_after)
      × (is_neg v ≡ true)
      × (v ≢ shift_right_unsigned b i.extra)
unfolding execute
srl_keeps_sign handler m i a b addr pc_after h h' pos =
    let (neg, other) = shift_right-is_neg b i.extra h h' pos in
    (shift_right b i.extra, refl, neg, other)
