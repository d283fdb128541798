-- ===== src/Timer/Slices.antt =====
-- Time slices: the timer of machine/timer.cc makes `OneTick` of machine/interrupt.cc yield.
use nachos_system_design.Base.{
  ℕ, ◌+◌, ◌%◌, ◌≤◌, ◌<◌, ◌≡◌, refl, ◌∙◌, inl, inr, true, false, some, [], ◌∷◌, arith, All, ◌==◌,
  eq→==, Bool-cases, Run, ok, ◌>>=◌,
}
use nachos_system_design.Machine.Word.{add32, less}
use nachos_system_design.Interrupt.{
  int_on, MachineStatus, system_mode, user_mode, timer_int, PendingInterrupt, Interrupt,
  advance_ticks, check_if_due, check_front, fire_all, fire, call, grant_all, grant, yield_on_return,
  schedule, pull, is_due, insert_pending, catch_up, finish_tick, one_tick,
}
use nachos_system_design.Base.{bind-bind}
use nachos_system_design.Machine.Word.Laws.{less-ltb, add32-sum}
use nachos_system_design.Interrupt.Pending.{limit}
use nachos_system_design.Interrupt.Firing.{IsMild}
use nachos_system_design.Timer.{
  Timer, is_idle, alarm_call_back, set_interrupt, timer_call_back, timer_device,
}

all_mild :
    (this random : ℕ) (t : Timer) (status : MachineStatus)
    → All (IsMild 200) (timer_call_back this random t status)
unfolding timer_call_back alarm_call_back set_interrupt
all_mild this random t status =
    let random_delay : (0 < 1 + random % 200) × (1 + random % 200 ≤ 200) =
      (omega arith, omega arith) in
    elim (Bool-cases (is_idle status)) [
      | inl e ↦ elim (Bool-cases t.disable) [
        | inl d ↦ rw (e, d) tt
        | inr d ↦ elim (Bool-cases t.randomize) [
          | inl r ↦ rw (e, d, r) (random_delay, tt)
          | inr r ↦ rw (e, d, r) ((omega arith, omega arith), tt)
        ]
      ]
      | inr e ↦ elim (Bool-cases t.disable) [
        | inl d ↦ rw (e, d) (tt, tt)
        | inr d ↦ elim (Bool-cases t.randomize) [
          | inl r ↦ rw (e, d, r) (tt, (random_delay, tt))
          | inr r ↦ rw (e, d, r) (tt, ((omega arith, omega arith), tt))
        ]
      ]
    ]

-- The timer schedules its next interrupt for 1 to 200 ticks later.
pub timer_device-IsMild :
    (this : ℕ) (random : ℕ → ℕ) (obj : ℕ) (status : MachineStatus) (w : Timer × ℕ)
    → All (IsMild 200) (timer_device this random obj status w).1
unfolding timer_device
timer_device-IsMild this random obj status (t, n) = elim (Bool-cases (obj == this)) [
  | inr e ↦ rw e tt
  | inl e ↦ rw e (all_mild this (random n) t status)
]

abbrev pub timer_at : ℕ → ℕ → PendingInterrupt
timer_at this time = record { call_on_interrupt = this; when = time; type = timer_int }

module _ (this : ℕ) (random : ℕ → ℕ)
    (yield : Timer × ℕ → Interrupt → Run ((Timer × ℕ) × Interrupt)) where
  abbrev pub steady : Timer
  steady = record { randomize = false; disable = false }

  -- In system mode one tick later, with interrupts on and the next interrupt of the timer pending.
  abbrev pub switched : Interrupt → Interrupt
  switched s = record s {
    level = int_on;
    pending = timer_at this (s.total_ticks + 101) ∷ [];
    in_handler = false;
    yields_on_return = false;
    status = system_mode;
    total_ticks = s.total_ticks + 1;
    user_ticks = add32 s.user_ticks 1;
  }

  pub one_tick-yield :
      (n : ℕ) (s : Interrupt)
      → s.status ≡ user_mode
      → s.pending ≡ timer_at this (s.total_ticks + 1) ∷ []
      → s.total_ticks + 101 < limit
      → one_tick (timer_device this random) yield (steady, n) s ≡ (do
        (w', s') ← yield (steady, n) (switched s)
        ok (some (w', record s' { status = user_mode })))
  unfolding one_tick advance_ticks check_if_due check_front fire_all fire call grant_all grant
      yield_on_return schedule pull is_due insert_pending catch_up finish_tick timer_device
      timer_call_back alarm_call_back set_interrupt
  one_tick-yield n s user only room =
      let now : add32 s.total_ticks 1 ≡ s.total_ticks + 1 =
        add32-sum s.total_ticks 1 (omega arith) in
      let next : add32 (s.total_ticks + 1) 100 ≡ s.total_ticks + 101 =
        add32-sum (s.total_ticks + 1) 100 (omega arith) ∙ omega arith in
      let due : less (s.total_ticks + 1) (s.total_ticks + 1) ≡ false =
        less-ltb (s.total_ticks + 1) (s.total_ticks + 1) (omega arith) (omega arith)
        ∙ ground arith in
      let positive : less 0 100 ≡ true = less-ltb 0 100 (omega arith) (omega arith) in
      let later : less (s.total_ticks + 1) (s.total_ticks + 101) ≡ true =
        less-ltb (s.total_ticks + 1) (s.total_ticks + 101) (omega arith) (omega arith)
        ∙ ground arith in
      rw (user, only, now, due)
        (rw (eq→== this this refl, next, positive, later)
          (bind-bind (yield (steady, n) (switched s))
            (λ r. ok (r.0, record r.1 { status = user_mode })) (λ r. ok (some r))))
