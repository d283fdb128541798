-- ===== src/Interrupt/Clock.antt =====
-- `Idle` of machine/interrupt.cc.
use nachos_system_design.Base.{
  ℕ, ◌≡◌, refl, sym, ap, ◌∙◌, subst, inl, inr, Bool, true, false, not, some, List, [], ◌∷◌, arith,
  All, le→ltb, Bool-cases, Run, Returns,
}
use nachos_system_design.Interrupt.{
  MachineStatus, idle_mode, system_mode, PendingInterrupt, Interrupt, Request, is_due, catch_up,
  idle,
}
use nachos_system_design.Machine.Word.Laws.{less-ltb}
use nachos_system_design.Interrupt.Pending.{Small}
use nachos_system_design.Interrupt.Firing.{IsMild}
use nachos_system_design.Interrupt.Advance.{IsCalm, caught, caught-IsCalm, catch_up-At}
use nachos_system_design.Interrupt.Due.{Fires, check_if_due-Fires}

abbrev pub is_none_pending : List PendingInterrupt → Bool
is_none_pending [] = true
is_none_pending (_ ∷ _) = false

-- Idle goes back to system mode when it does not halt.
abbrev pub left_by : Interrupt → Bool → Interrupt
left_by s true = s
left_by s false = record s { status = system_mode }

due_when_caught :
    (room : ℕ) (s : Interrupt) (ps : List PendingInterrupt)
    → s.pending ≡ ps
    → IsCalm room s
    → is_due (caught true s ps).total_ticks ps ≡ not (is_none_pending ps)
unfolding is_due
due_when_caught room s [] e c = refl
due_when_caught room s (p ∷ ps) e c =
    let (at, _) = catch_up-At room s p ps e c in
    let calm : IsCalm room (catch_up p.when s) = caught-IsCalm room true s (p ∷ ps) e c in
    let (small, _) = subst (All (Small room)) e c.small in
    rw
      (less-ltb (catch_up p.when s).total_ticks p.when (omega (arith, calm.early)) (omega arith)
        ∙ le→ltb (catch_up p.when s).total_ticks p.when at)
      refl

module _ {W : Type 0} (room : ℕ) (call_back : ℕ → MachineStatus → W → W × List Request)
    (yield : W → Interrupt → Run (W × Interrupt))
    (mild : (obj : ℕ) (status : MachineStatus) (w : W)
      → All (IsMild room) (call_back obj status w).1) where
  -- With interrupts off and no handler running, the list in order, and the clock and the times in
  -- the list at least `room` below 2 ^ 31: when every handler leaves interrupts off and schedules for
  -- 1 to `room` ticks from then only, Idle trips no check. It halts exactly when nothing is pending;
  -- otherwise it advances the clock to the first interrupt when this is later, calls the handlers of
  -- exactly the interrupts that are due then, in idle mode and in the order of the list, and leaves
  -- a list in order in which none is due, and the machine in system mode.
  pub idle-Fires :
      (w : W) (s : Interrupt)
      → IsCalm room s
      → Returns (idle call_back yield w s) λ r.
        (w' : W) × (s' : Interrupt) × (r
          ≡ some (w', left_by s' (is_none_pending s.pending), is_none_pending s.pending))
        × Fires room call_back yield mild w
            (caught true (record s { status = idle_mode }) s.pending)
            w'
            s'
  unfolding idle
  idle-Fires w s c =
      let s0 : Interrupt = record s { status = idle_mode } in
      let c0 : IsCalm room s0 = record {
        off = c.off;
        unhandled = c.unhandled;
        early = c.early;
        ordered = c.ordered;
        small = c.small;
      } in
      let (r, e, (w', s', found, fires)) =
        check_if_due-Fires room call_back yield mild true w s0 c0 in
      let due = due_when_caught room s0 s.pending refl c0 in
      elim (Bool-cases (is_none_pending s.pending)) [
        | inl none_there ↦ (
          some (w', s', true),
          rw (e, found, due, none_there) refl,
          (w', s', ap (λ b. some (w', left_by s' b, b)) (sym none_there), fires),
        )
        | inr some_there ↦ (
          some (w', record s' { status = system_mode }, false),
          rw (e, found, due, some_there) refl,
          (w', s', ap (λ b. some (w', left_by s' b, b)) (sym some_there), fires),
        )
      ]
