-- ===== src/Tests/Interrupts.antt =====
-- Tests of machine/interrupt.cc with the timer of machine/timer.cc at address 7.
use nachos_system_design.Base.{
  ℕ, ◌+◌, ◌*◌, ◌≡◌, refl, true, false, some, [], ◌∷◌, arith, Run, ok, ◌>>=◌, Returns,
}
use nachos_system_design.Interrupt.{
  int_off, user_mode, idle_mode, Interrupt, is_due, check_if_due, idle, one_tick,
}
use nachos_system_design.Interrupt.Advance.{IsCalm, caught}
use nachos_system_design.Interrupt.Due.{Fires, check_if_due-Fires}
use nachos_system_design.Interrupt.Clock.{left_by, is_none_pending, idle-Fires}
use nachos_system_design.Timer.{Timer, timer_device}
use nachos_system_design.Timer.Slices.{
  timer_device-IsMild, timer_at, steady, switched, one_tick-yield,
}

abbrev random : ℕ → ℕ
random n = n * 37

abbrev no_switch : Timer × ℕ → Interrupt → Run ((Timer × ℕ) × Interrupt)
no_switch w s = ok (w, s)

-- A user program at time 99, with the timer set for 100.
abbrev running : Interrupt
running = record {
  level = int_off;
  pending = timer_at 7 (99 + 1) ∷ timer_at 7 400 ∷ [];
  in_handler = false;
  yields_on_return = false;
  status = user_mode;
  total_ticks = 99;
  idle_ticks = 0;
  system_ticks = 90;
  user_ticks = 9;
}

abbrev running_alone : Interrupt
running_alone = record running { pending = timer_at 7 (99 + 1) ∷ [] }

abbrev restless : Timer
restless = record { randomize = true; disable = false }

running-IsCalm : IsCalm 200 running
running-IsCalm = record {
  off = refl;
  unhandled = refl;
  early = omega arith;
  ordered = ((omega arith, tt), (tt, tt));
  small = (omega arith, (omega arith, tt));
}

check_if_due-Fires_example :
    Returns (check_if_due (timer_device 7 random) no_switch true (restless, 3) running) λ r.
      (w' : Timer × ℕ) × (s' : Interrupt) × (r
        ≡ some (w', s', is_due (caught true running running.pending).total_ticks running.pending))
      × Fires 200
          (timer_device 7 random)
          no_switch
          (timer_device-IsMild 7 random)
          (restless, 3)
          (caught true running running.pending)
          w'
          s'
check_if_due-Fires_example =
    check_if_due-Fires 200 (timer_device 7 random) no_switch (timer_device-IsMild 7 random) true
      (restless, 3) running running-IsCalm

idle-Fires_example : Returns (idle (timer_device 7 random) no_switch (restless, 3) running) λ r.
    (w' : Timer × ℕ) × (s' : Interrupt) × (r
      ≡ some (w', left_by s' (is_none_pending running.pending), is_none_pending running.pending))
    × Fires 200
        (timer_device 7 random)
        no_switch
        (timer_device-IsMild 7 random)
        (restless, 3)
        (caught true (record running { status = idle_mode }) running.pending)
        w'
        s'
idle-Fires_example =
    idle-Fires 200 (timer_device 7 random) no_switch (timer_device-IsMild 7 random) (restless, 3)
      running running-IsCalm

one_tick-yield_example :
    one_tick (timer_device 7 random) no_switch (steady 7 random no_switch, 3) running_alone ≡ (do
      (w', s') ←
          no_switch (steady 7 random no_switch, 3) (switched 7 random no_switch running_alone)
      ok (some (w', record s' { status = user_mode })))
one_tick-yield_example = one_tick-yield 7 random no_switch 3 running_alone refl refl (omega arith)
