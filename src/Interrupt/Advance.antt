-- ===== src/Interrupt/Advance.antt =====
-- The clock of machine/interrupt.cc, advanced to the next pending interrupt.
use nachos_system_design.Base.{
  ℕ, ◌+◌, ◌≤◌, ◌<◌, ◌≡◌, refl, ◌∙◌, subst, inl, inr, Bool, true, false, List, [], ◌∷◌, ◌++◌, arith,
  All, Bool-cases,
}
use nachos_system_design.Machine.Word.{less}
use nachos_system_design.Interrupt.{int_off, PendingInterrupt, Interrupt, catch_up}
use nachos_system_design.Machine.Word.Laws.{less-ltb}
use nachos_system_design.Interrupt.Pending.{limit, At, Small, IsOrdered}

-- The state between two interrupts: interrupts are off, no handler runs, the list is in order, and
-- the clock and the times in the list are at least `room` below the largest `int`.
pub record IsCalm (room : ℕ) (s : Interrupt) : Type 0 where
  pub off : s.level ≡ int_off
  pub unhandled : s.in_handler ≡ false
  pub early : s.total_ticks + room < limit
  pub ordered : IsOrdered s.pending
  pub small : All (Small room) s.pending

pub All-right :
    (P : PendingInterrupt → Type 0) (a b : List PendingInterrupt) → All P (a ++ b) → All P b
All-right P [] b h = h
All-right P (x ∷ a) b (_, h) = All-right P a b h

-- The clock that is advanced when `advance_clock` asks for it.
abbrev pub caught : Bool → Interrupt → List PendingInterrupt → Interrupt
caught true s (p ∷ _) = catch_up p.when s
caught true s [] = s
caught false s _ = s

pub caught-IsCalm :
    (room : ℕ) (advance : Bool) (s : Interrupt) (ps : List PendingInterrupt)
    → s.pending ≡ ps
    → IsCalm room s
    → IsCalm room (caught advance s ps)
unfolding catch_up
caught-IsCalm room false s ps e c = c
caught-IsCalm room true s [] e c = c
caught-IsCalm room true s (p ∷ ps) e c =
    let (small, _) = subst (All (Small room)) e c.small in
    elim (Bool-cases (less s.total_ticks p.when)) [
      | inl h ↦ rw h (record {
        off = c.off;
        unhandled = c.unhandled;
        early = small;
        ordered = c.ordered;
        small = c.small;
      })
      | inr h ↦ rw h c
    ]

catch_up-later :
    (when : ℕ) (s : Interrupt)
    → less s.total_ticks when ≡ true
    → ((catch_up when s).total_ticks ≡ when) × ((catch_up when s).pending ≡ s.pending)
unfolding catch_up
catch_up-later when s h = rw h (refl, refl)

pub catch_up-same :
    (when : ℕ) (s : Interrupt) → less s.total_ticks when ≡ false → catch_up when s ≡ s
unfolding catch_up
catch_up-same when s h = rw h refl

-- The clock at the time of the next interrupt.
pub catch_up-At :
    (room : ℕ) (s : Interrupt) (p : PendingInterrupt) (ps : List PendingInterrupt)
    → s.pending ≡ p ∷ ps
    → IsCalm room s
    → At (catch_up p.when s).total_ticks p × ((catch_up p.when s).pending ≡ p ∷ ps)
catch_up-At room s p ps e c =
    let (small, _) = subst (All (Small room)) e c.small in
    let narrow = less-ltb s.total_ticks p.when (omega (arith, c.early)) (omega arith) in
    elim (Bool-cases (less s.total_ticks p.when)) [
      | inl h ↦ let (ticks, same) = catch_up-later p.when s h in (omega (arith, ticks), same ∙ e)
      | inr h ↦
          let at : p.when ≤ s.total_ticks = ground (arith, narrow, h) in
          rw (catch_up-same p.when s h) (at, e)
    ]
