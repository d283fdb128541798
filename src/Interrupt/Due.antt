-- ===== src/Interrupt/Due.antt =====
-- `CheckIfDue` of machine/interrupt.cc: which handlers it calls, and what it leaves.
use nachos_system_design.Base.{
  All-imp, ℕ, ◌≤◌, ◌<◌, ◌≡◌, refl, sym, ap, ◌∙◌, subst, inl, inr, Bool, true, false, some, List, [],
  ◌∷◌, ◌++◌, arith, length, All, length-append, le→ltb, ltb→lt, Bool-cases, Run, ok, Returns,
}
use nachos_system_design.Machine.Word.{less}
use nachos_system_design.Interrupt.{
  int_off, MachineStatus, PendingInterrupt, Interrupt, Request, is_off, is_due, catch_up, fire,
  fire_all, check_front, check_if_due,
}
use nachos_system_design.Machine.Word.Laws.{less-ltb}
use nachos_system_design.Interrupt.Pending.{limit, At, After, Small, IsOrdered, split_due}
use nachos_system_design.Interrupt.Firing.{IsMild, IsServing, serve, fire-serve}
use nachos_system_design.Interrupt.Advance.{
  IsCalm, All-right, caught, caught-IsCalm, catch_up-same, catch_up-At,
}

module _ {W : Type 0} (room : ℕ) (call_back : ℕ → MachineStatus → W → W × List Request)
    (yield : W → Interrupt → Run (W × Interrupt))
    (mild : (obj : ℕ) (status : MachineStatus) (w : W)
      → All (IsMild room) (call_back obj status w).1) where
  -- `due` is the part of the list up to the time of the clock, and its handlers have run, in order.
  pub record Fires (w : W) (s : Interrupt) (w' : W) (s' : Interrupt) : Type 0 where
    pub due : List PendingInterrupt
    pub later : List PendingInterrupt
    pub parts : s.pending ≡ due ++ later
    pub at_time : All (At s.total_ticks) due
    pub not_yet : All (After s.total_ticks) later
    pub served :
        serve room call_back yield mild due w (record s { in_handler = true; pending = later })
        ≡ ok (w', record s' { in_handler = true })
    pub same_ticks : s'.total_ticks ≡ s.total_ticks
    pub off : s'.level ≡ int_off
    pub unhandled : s'.in_handler ≡ false
    pub ordered : IsOrdered s'.pending
    pub none_left : All (After s'.total_ticks) s'.pending

  -- Nothing is due.
  nothing-Fires :
      (w : W) (s : Interrupt) → IsCalm room s → All (After s.total_ticks) s.pending → Fires w s w s
  nothing-Fires w s c after = record {
    due = [];
    later = s.pending;
    parts = refl;
    at_time = tt;
    not_yet = after;
    served = refl;
    same_ticks = refl;
    off = c.off;
    unhandled = c.unhandled;
    ordered = c.ordered;
    none_left = after;
  }

  -- The front of the list is due.
  fire_all-Fires :
      (w : W) (s : Interrupt) (p : PendingInterrupt) (ps : List PendingInterrupt)
      → s.pending ≡ p ∷ ps
      → At s.total_ticks p
      → IsCalm room s
      → Returns
          (fire_all call_back yield w s)
          λ r. (w' : W) × (s' : Interrupt) × (r ≡ some (w', s', true)) × Fires w s w' s'
  unfolding fire_all
  fire_all-Fires w s p ps e at c =
      let (first, o) = subst IsOrdered e c.ordered in
      let (due, later, parts, d, l, o') = split_due s.total_ticks ps o in
      let whole : s.pending ≡ (p ∷ due) ++ later = e ∙ ap (λ q. p ∷ q) parts in
      let rest : All (Small room) later =
        All-right (Small room) (p ∷ due) later (subst (All (Small room)) whole c.small) in
      let start : Interrupt = record s { in_handler = true; pending = later } in
      let serving : IsServing room start = record {
        off = c.off;
        handling = refl;
        early = c.early;
        ordered = o';
        later = l;
        small = All-imp (Small room) (λ q. q.when < limit) later (λ q h. omega arith) rest;
      } in
      let rounds : length due < length s.pending =
        omega (arith, ap length whole, length-append (p ∷ due) later) in
      let ((w', s'), served, (serves, fired)) =
        fire-serve room call_back yield mild p due (length s.pending) w start serving (at, d)
          rounds in
      let fired' : fire call_back yield (length s.pending) w (record s { in_handler = true })
          ≡ ok (some (w', s')) =
        ap
          (λ q.
            fire call_back yield (length s.pending) w (record s { in_handler = true; pending = q }))
          whole
        ∙ fired in
      let s'' : Interrupt = record s' { in_handler = false } in
      (
        some (w', s'', true),
        rw fired' refl,
        (
          w',
          s'',
          refl,
          record {
            due = p ∷ due;
            later = later;
            parts = whole;
            at_time = (at, d);
            not_yet = l;
            served =
                served ∙ ap (λ b. ok (w', record s' { in_handler = b })) serves.serving.handling;
            same_ticks = serves.same_ticks;
            off = serves.serving.off;
            unhandled = refl;
            ordered = serves.serving.ordered;
            none_left = serves.serving.later;
          },
        ),
      )

  check_front-Fires :
      (advance : Bool) (w : W) (s : Interrupt) (ps : List PendingInterrupt)
      → s.pending ≡ ps
      → IsCalm room s
      → Returns (check_front call_back yield advance w s ps) λ r.
        (w' : W) × (s' : Interrupt) × (r
          ≡ some (w', s', is_due (caught advance s ps).total_ticks ps))
        × Fires w (caught advance s ps) w' s'
  unfolding check_front is_due
  check_front-Fires true w s [] e c = (
    some (w, s, false),
    refl,
    (w, s, refl, nothing-Fires w s c (subst (All (After s.total_ticks)) (sym e) tt)),
  )
  check_front-Fires false w s [] e c = (
    some (w, s, false),
    refl,
    (w, s, refl, nothing-Fires w s c (subst (All (After s.total_ticks)) (sym e) tt)),
  )
  check_front-Fires true w s (p ∷ ps) e c =
      let (at, e') = catch_up-At room s p ps e c in
      let calm : IsCalm room (catch_up p.when s) = caught-IsCalm room true s (p ∷ ps) e c in
      let (small, _) = subst (All (Small room)) e c.small in
      let not_later : less (catch_up p.when s).total_ticks p.when ≡ false =
        less-ltb (catch_up p.when s).total_ticks p.when (omega (arith, calm.early)) (omega arith)
        ∙ le→ltb (catch_up p.when s).total_ticks p.when at in
      let found = fire_all-Fires w (catch_up p.when s) p ps e' at calm in
      elim (Bool-cases (less s.total_ticks p.when)) [
        | inl h ↦ rw (not_later, h) found
        | inr h ↦ rw (not_later, h) found
      ]
  check_front-Fires false w s (p ∷ ps) e c =
      let (small, _) = subst (All (Small room)) e c.small in
      let (first, _) = subst IsOrdered e c.ordered in
      let narrow = less-ltb s.total_ticks p.when (omega (arith, c.early)) (omega arith) in
      elim (Bool-cases (less s.total_ticks p.when)) [
        | inl h ↦
            let after : After s.total_ticks p = ltb→lt s.total_ticks p.when (sym narrow ∙ h) in
            let all_after : All (After s.total_ticks) (p ∷ ps) = (
              after,
              All-imp (λ q. p.when ≤ q.when) (After s.total_ticks) ps (λ q l. omega arith) first,
            ) in
            rw h (
              some (w, s, false),
              refl,
              (
                w,
                s,
                refl,
                nothing-Fires w s c (subst (All (After s.total_ticks)) (sym e) all_after),
              ),
            )
        | inr h ↦
            let at : At s.total_ticks p = ground (arith, narrow, h) in
            rw (h, catch_up-same p.when s h) (fire_all-Fires w s p ps e at c)
      ]

  -- With interrupts off and no handler running, the list in order, and the clock and the times in
  -- the list at least `room` below 2 ^ 31: when every handler leaves interrupts off and schedules for
  -- 1 to `room` ticks from then only, CheckIfDue trips no check and needs no more rounds than the
  -- list is long; it advances the clock to the first interrupt if it is asked to, calls the handlers
  -- of exactly the interrupts that are due then, in the order of the list, and answers whether there
  -- are any; and it leaves a list in order in which none is due.
  pub check_if_due-Fires :
      (advance : Bool) (w : W) (s : Interrupt)
      → IsCalm room s
      → Returns (check_if_due call_back yield advance w s) λ r.
        (w' : W) × (s' : Interrupt) × (r
          ≡ some (w', s', is_due (caught advance s s.pending).total_ticks s.pending))
        × Fires w (caught advance s s.pending) w' s'
  unfolding check_if_due
  check_if_due-Fires advance w s c =
      rw (ap is_off c.off) (check_front-Fires advance w s s.pending refl c)
