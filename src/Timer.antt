-- ===== src/Timer.antt =====
-- machine/timer.cc and threads/alarm.cc: the timer device and the software alarm, which slices the
-- time. What their handlers ask of the interrupts is a list of requests.
pub mod Slices
use nachos_system_design.Base.{
  ℕ, suc, ◌+◌, ◌*◌, ◌%◌, Bool, true, false, not, ◌&&◌, List, [], ◌∷◌, ◌++◌, if◌then◌else◌, ◌==◌,
}
use nachos_system_design.Interrupt.{
  MachineStatus, idle_mode, timer_int, Request, to_schedule, to_yield,
}

-- `call_periodically` is the alarm.
pub record Timer : Type 0 where
  pub randomize : Bool
  pub disable : Bool

abbrev pub timer_ticks : ℕ
timer_ticks = 100

abbrev pub is_idle : MachineStatus → Bool
is_idle idle_mode = true
is_idle _ = false

-- `Alarm::CallBack`
unfoldable pub alarm_call_back : MachineStatus → List Request
alarm_call_back status = if is_idle status then [] else to_yield ∷ []

-- `SetInterrupt` of the timer at the address `this`, with the number that `RandomNumber` returns.
unfoldable pub set_interrupt : (this random : ℕ) → Timer → List Request
set_interrupt this random t =
    let delay = if t.randomize then 1 + random % (timer_ticks * 2) else timer_ticks in
    if t.disable then [] else to_schedule this delay timer_int ∷ []

-- `Timer::CallBack`
unfoldable pub timer_call_back : (this random : ℕ) → Timer → MachineStatus → List Request
timer_call_back this random t status = alarm_call_back status ++ set_interrupt this random t

-- The handlers when the timer at the address `this` is the only device. `random` is the sequence
-- that `RandomNumber` returns, and the number of its calls so far stands beside the timer.
unfoldable pub timer_device :
    (this : ℕ) (random : ℕ → ℕ) → ℕ → MachineStatus → Timer × ℕ → (Timer × ℕ) × List Request
timer_device this random obj status (t, n) =
    let drawn = if t.randomize && not t.disable then suc n else n in
    if obj == this then ((t, drawn), timer_call_back this (random n) t status) else ((t, n), [])
