-- ===== src/Interrupt/Firing.antt =====
-- The loop of `CheckIfDue` in machine/interrupt.cc, and the handlers that it calls.
use nachos_system_design.Base.{
  ℕ, zero, suc, ◌+◌, ◌≤◌, ◌<◌, ◌≡◌, refl, sym, ap, ◌∙◌, subst, true, false, some, List, [], ◌∷◌,
  ◌++◌, arith, length, All, le→ltb, lt→ltb, Run, ok, ◌>>=◌, Returns,
}
use nachos_system_design.Machine.Word.{add32, less}
use nachos_system_design.Interrupt.{
  IntStatus, int_off, int_on, MachineStatus, PendingInterrupt, Interrupt, Request, to_schedule,
  to_yield, to_level, is_off, insert_pending, pull, enter_level, yield_on_return, schedule, grant,
  grant_all, is_due, call, fire,
}
use nachos_system_design.Machine.Word.Laws.{less-ltb, add32-sum}
use nachos_system_design.Interrupt.Pending.{
  limit, At, After, IsOrdered, insert_pending-All, insert_pending-IsOrdered, insert_pending-behind,
}

-- A handler's request that trips no check: it leaves interrupts off, and schedules for a later time
-- that is at most `room` away.
abbrev pub IsMild : ℕ → Request → Type 0
IsMild room (to_schedule obj from_now type) = (0 < from_now) × (from_now ≤ room)
IsMild room to_yield = Unit
IsMild room (to_level now) = is_off now ≡ true

-- The state in a handler, apart from what is due.
pub record IsServing (room : ℕ) (s : Interrupt) : Type 0 where
  pub off : s.level ≡ int_off
  pub handling : s.in_handler ≡ true
  pub early : s.total_ticks + room < limit
  pub ordered : IsOrdered s.pending
  pub later : All (After s.total_ticks) s.pending
  pub small : All (λ p. p.when < limit) s.pending

pub record Serves (room : ℕ) (s s' : Interrupt) : Type 0 where
  pub serving : IsServing room s'
  pub same_ticks : s'.total_ticks ≡ s.total_ticks
  pub same_status : s'.status ≡ s.status

abbrev pub with_due : List PendingInterrupt → Interrupt → Interrupt
with_due due s = record s { pending = due ++ s.pending }

is_off-eq : (now : IntStatus) → is_off now ≡ true → now ≡ int_off
is_off-eq int_off e = refl
is_off-eq int_on e = cc

none_in :
    (t : ℕ) (ps : List PendingInterrupt)
    → t < limit
    → All (After t) ps
    → All (λ p. p.when < limit) ps
    → is_due t ps ≡ false
unfolding is_due
none_in t [] h later small = refl
none_in t (p ∷ ps) h (after, _) (small, _) =
    rw (less-ltb t p.when h small, lt→ltb t p.when after) refl

due_now :
    (t : ℕ) (p : PendingInterrupt) (ps : List PendingInterrupt)
    → At t p
    → t < limit
    → is_due t (p ∷ ps) ≡ true
unfolding is_due
due_now t p ps at h = rw (less-ltb t p.when h (omega arith), le→ltb t p.when at) refl

module _ (room : ℕ) where
  -- What is due does not matter to a request, and stays in front.
  grant-Serves :
      (r : Request) (s : Interrupt)
      → IsMild room r
      → IsServing room s
      → Returns (grant r s) λ s'.
        Serves room s s'
        × ((due : List PendingInterrupt)
            → All (At s.total_ticks) due
            → grant r (with_due due s) ≡ ok (with_due due s'))
  unfolding grant schedule yield_on_return enter_level
  grant-Serves (to_schedule obj from_now type) s (soon, near) i =
      let p : PendingInterrupt = record {
        call_on_interrupt = obj;
        when = add32 s.total_ticks from_now;
        type = type;
      } in
      let positive : less 0 from_now ≡ true =
        less-ltb 0 from_now (omega arith) (omega (arith, i.early)) ∙ lt→ltb 0 from_now soon in
      let sum : p.when ≡ s.total_ticks + from_now =
        add32-sum s.total_ticks from_now (omega (arith, i.early)) in
      let small : p.when < limit = omega (arith, sum, i.early) in
      let after : After s.total_ticks p = omega (arith, sum) in
      (
        record s { pending = insert_pending p s.pending },
        rw positive refl,
        (
          record {
            serving = record {
              off = i.off;
              handling = i.handling;
              early = i.early;
              ordered = insert_pending-IsOrdered p s.pending small i.small i.ordered;
              later = insert_pending-All (After s.total_ticks) p s.pending after i.later;
              small = insert_pending-All (λ q. q.when < limit) p s.pending small i.small;
            };
            same_ticks = refl;
            same_status = refl;
          },
          λ due d. rw positive (
              ap (λ l. ok (record s { pending = l }))
                (insert_pending-behind s.total_ticks p due s.pending (omega (arith, i.early)) small
                  after d)),
        ),
      )
  grant-Serves to_yield s mild i = (
    record s { yields_on_return = true },
    rw i.handling refl,
    (
      record {
        serving = record {
          off = i.off;
          handling = i.handling;
          early = i.early;
          ordered = i.ordered;
          later = i.later;
          small = i.small;
        };
        same_ticks = refl;
        same_status = refl;
      },
      λ due d. rw i.handling refl,
    ),
  )
  grant-Serves (to_level now) s mild i = (
    record s { level = now },
    rw mild refl,
    (
      record {
        serving = record {
          off = is_off-eq now mild;
          handling = i.handling;
          early = i.early;
          ordered = i.ordered;
          later = i.later;
          small = i.small;
        };
        same_ticks = refl;
        same_status = refl;
      },
      λ due d. rw mild refl,
    ),
  )

  Serves-trans : (s s' s'' : Interrupt) → Serves room s s' → Serves room s' s'' → Serves room s s''
  Serves-trans s s' s'' a b = record {
    serving = b.serving;
    same_ticks = b.same_ticks ∙ a.same_ticks;
    same_status = b.same_status ∙ a.same_status;
  }

  grant_all-Serves :
      (rs : List Request) (s : Interrupt)
      → All (IsMild room) rs
      → IsServing room s
      → Returns (grant_all rs s) λ s'.
        Serves room s s'
        × ((due : List PendingInterrupt)
            → All (At s.total_ticks) due
            → grant_all rs (with_due due s) ≡ ok (with_due due s'))
  unfolding grant_all
  grant_all-Serves [] s mild i =
      (s, refl, (record { serving = i; same_ticks = refl; same_status = refl }, λ due d. refl))
  grant_all-Serves (r ∷ rs) s (m, mild) i =
      let (s', e, (one, framed)) = grant-Serves r s m i in
      let (s'', e', (rest, framed')) = grant_all-Serves rs s' mild one.serving in
      (
        s'',
        rw e e',
        (
          Serves-trans s s' s'' one rest,
          λ due d.
              rw (framed due d) (framed' due (subst (λ t. All (At t) due) (sym one.same_ticks) d)),
        ),
      )

  module _ {W : Type 0} (call_back : ℕ → MachineStatus → W → W × List Request)
      (yield : W → Interrupt → Run (W × Interrupt))
      (mild : (obj : ℕ) (status : MachineStatus) (w : W)
        → All (IsMild room) (call_back obj status w).1) where
    -- The handlers of a list of interrupts, one after the other.
    abbrev pub serve : List PendingInterrupt → W → Interrupt → Run (W × Interrupt)
    serve [] w s = ok (w, s)
    serve (p ∷ ps) w s = do (w', s') ← call call_back yield p w s; serve ps w' s'

    call-Serves :
        (p : PendingInterrupt) (w : W) (s : Interrupt)
        → IsServing room s
        → Returns (call call_back yield p w s) λ (w', s').
          Serves room s s'
          × ((due : List PendingInterrupt)
              → All (At s.total_ticks) due
              → call call_back yield p w (with_due due s) ≡ ok (w', with_due due s'))
    unfolding call
    call-Serves p w s i =
        let requests : List Request = (call_back p.call_on_interrupt s.status w).1 in
        let w' : W = (call_back p.call_on_interrupt s.status w).0 in
        let (s', e, (serves, framed)) =
          grant_all-Serves requests s (mild p.call_on_interrupt s.status w) i in
        ((w', s'), rw e refl, (serves, λ due d. rw (framed due d) refl))

    none_due : (s : Interrupt) → IsServing room s → is_due s.total_ticks s.pending ≡ false
    none_due s i = none_in s.total_ticks s.pending (omega (arith, i.early)) i.later i.small

    -- The loop serves what is due, in its order, in as many rounds.
    pub fire-serve :
        (p : PendingInterrupt) (due : List PendingInterrupt) (n : ℕ) (w : W) (s : Interrupt)
        → IsServing room s
        → All (At s.total_ticks) (p ∷ due)
        → length due < n
        → Returns (serve (p ∷ due) w s) λ (w', s').
          Serves room s s' × (fire call_back yield n w (with_due (p ∷ due) s) ≡ ok (some (w', s')))
    unfolding fire pull
    fire-serve p due zero w s i d fuel = absurd (omega arith)
    fire-serve p [] (suc n) w s i d fuel =
        let ((w', s'), e, (serves, framed)) = call-Serves p w s i in
        ((w', s'), rw e refl, (serves, rw (framed [] tt, none_due s' serves.serving) refl))
    fire-serve p (q ∷ due) (suc n) w s i (at, (at', d)) fuel =
        let ((w', s'), e, (serves, framed)) = call-Serves p w s i in
        let d' = subst (λ t. All (At t) (q ∷ due)) (sym serves.same_ticks) (at', d) in
        let ((w'', s''), e', (rest, fired)) =
          fire-serve q due n w' s' serves.serving d' (omega arith) in
        (
          (w'', s''),
          rw e e',
          (
            Serves-trans s s' s'' serves rest,
            rw
                (
                  framed (q ∷ due) (at', d),
                  due_now s'.total_ticks q (due ++ s'.pending) d'.0
                      (omega (arith, serves.serving.early)),
                )
                fired,
          ),
        )
