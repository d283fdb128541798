-- ===== src/Synch/Exclusion.antt =====
-- code/threads/synch.cc: at most one thread owns the lock, in every order of steps.
use nachos_system_design.Base.{
  ℕ, ◌+◌, ◌≡◌, refl, sym, ap, ◌∙◌, subst, true, false, none, some, List, [], ◌∷◌, ok, ok_injective,
  ◌==◌, ==→eq, eq→==, ◌↔◌, Bool-cases, Option-cases, inl, inr,
}
use nachos_system_design.Scheduler.{Kernel, with_entry}
use nachos_system_design.Synch.{
  Semaphore, Lock, p_turn, v, v_from, new_lock, set_holder, clear_holder, is_held_by,
}
use nachos_system_design.Synch.Steps.{
  Phase, outside, waiting, passed, holding, releasing, System, try, own, disown, signal, Step,
  acquires, tries_again, owns, releases, signals, yields, Reachable, start, after,
}
use nachos_system_design.Synch.Owner.{
  in_section, is_holding, Owned, free, taken, IsExclusive, clash, waits-Owned, passes-Owned,
  stays-Owned, leaves-Owned,
}

try-IsExclusive :
    (s : System) (t : ℕ) → in_section (s.phase t) ≡ false → IsExclusive s → IsExclusive (try t s)
unfolding try p_turn
try-IsExclusive s t away x = elim (Bool-cases (s.lock.semaphore.value == 0)) [
  | inl gone ↦ rw gone (waits-Owned _ _ s.phase t away x)
  | inr more ↦ rw more (passes-Owned _ _ s.phase t more x)
]

v_from-value : (ts : List ℕ) (s : Semaphore) (k : Kernel) → (v_from ts s k).0.value ≡ s.value + 1
unfolding v_from
v_from-value [] s k = refl
v_from-value (t ∷ ts) s k = refl

-- A V adds one, whoever waits.
pub v-value : (s : Semaphore) (k : Kernel) → (v s k).0.value ≡ s.value + 1
unfolding v
v-value s k = v_from-value s.queue s k

signal-IsExclusive :
    (s : System) (t : ℕ) → s.phase t ≡ releasing → IsExclusive s → IsExclusive (signal t s)
unfolding signal
signal-IsExclusive s t at x =
    subst (λ n. Owned n s.lock.lock_holder (with_entry s.phase t outside))
      (sym (v-value s.lock.semaphore s.kernel))
      (leaves-Owned _ _ s.phase t (ap in_section at) (ap is_holding at) x)

is_held_by-eq-some : (t : ℕ) (l : Lock) → is_held_by t l ≡ true → l.lock_holder ≡ some t
unfolding is_held_by
is_held_by-eq-some t l e = elim (Option-cases l.lock_holder) [
  | inl unheld ↦ clash false (rw unheld at e) refl
  | inr (u, held) ↦ held ∙ ap some (==→eq u t (rw held at e))
]

clear_holder-eq-ok :
    (t : ℕ) (l l' : Lock)
    → clear_holder t l ≡ ok l'
    → (l.lock_holder ≡ some t) × (record l { lock_holder = none } ≡ l')
unfolding clear_holder
clear_holder-eq-ok t l l' e = elim (Bool-cases (is_held_by t l)) [
  | inl held ↦ (is_held_by-eq-some t l held, ok_injective (rw held at e))
  | inr not_held ↦ cc
]

named_is_holding :
    (s : System) (t : ℕ)
    → IsExclusive s
    → s.lock.lock_holder ≡ some t
    → is_holding (s.phase t) ≡ true
named_is_holding s t (free one unheld all_out) named = cc
named_is_holding s t (taken o gone here only holds) named =
    elim (Bool-cases (is_holding (s.phase o))) [
      | inl yes_holding ↦
          let held : s.lock.lock_holder ≡ some o = rw yes_holding at holds in
          let mine : o ≡ t = some_injective (sym held ∙ named) in
          ap (λ x. is_holding (s.phase x)) (sym mine) ∙ yes_holding
      | inr not_holding ↦ let unheld : s.lock.lock_holder ≡ none = rw not_holding at holds in cc
    ]
  where
    some_injective : {a b : ℕ} → some a ≡ some b → a ≡ b
    some_injective e = cc

is_holding-in_section : (p : Phase) → is_holding p ≡ true → in_section p ≡ true
is_holding-in_section holding e = refl
is_holding-in_section passed e = refl
is_holding-in_section releasing e = refl
is_holding-in_section outside e = cc
is_holding-in_section waiting e = cc

disown-IsExclusive :
    (s : System) (t : ℕ) (lock : Lock)
    → clear_holder t s.lock ≡ ok lock
    → IsExclusive s
    → IsExclusive (disown t s lock)
unfolding disown
disown-IsExclusive s t lock ends x =
    let (named, result) = clear_holder-eq-ok t s.lock lock ends in
    let inside = is_holding-in_section (s.phase t) (named_is_holding s t x named) in
    subst (λ l. Owned l.semaphore.value l.lock_holder (with_entry s.phase t releasing)) result
      (stays-Owned _ _ s.phase t releasing inside refl x)

Step-IsExclusive : {s s' : System} → Step s s' → IsExclusive s → IsExclusive s'
unfolding own set_holder
Step-IsExclusive {s} (acquires t now at) x = try-IsExclusive s t (ap in_section at) x
Step-IsExclusive {s} (tries_again t now at) x = try-IsExclusive s t (ap in_section at) x
Step-IsExclusive {s} (owns t now at) x = stays-Owned _ _ s.phase t holding (ap in_section at) refl x
Step-IsExclusive {s} (releases t lock now ends) x = disown-IsExclusive s t lock ends x
Step-IsExclusive {s} (signals t now at) x = signal-IsExclusive s t at x
Step-IsExclusive {s} (yields t now awake) x = x

Reachable-IsExclusive : {k : Kernel} {s : System} → Reachable k s → IsExclusive s
unfolding new_lock
Reachable-IsExclusive start = free refl refl (λ t. refl)
Reachable-IsExclusive (after r step) = Step-IsExclusive step (Reachable-IsExclusive r)

unique :
    (s : System)
    → IsExclusive s
    → (t u : ℕ) → in_section (s.phase t) ≡ true
    → in_section (s.phase u) ≡ true
    → t ≡ u
unique s (free one unheld all_out) t u here there = clash (in_section (s.phase t)) here (all_out t)
unique s (taken o gone here only holds) t u at at' = only t at ∙ sym (only u at')

holder_is_held :
    (s : System) (t : ℕ)
    → IsExclusive s
    → is_holding (s.phase t) ≡ true
    → is_held_by t s.lock ≡ true
unfolding is_held_by
holder_is_held s t (free one unheld all_out) inside =
    clash (in_section (s.phase t)) (is_holding-in_section (s.phase t) inside) (all_out t)
holder_is_held s t (taken o gone here only holds) inside =
    let mine : t ≡ o = only t (is_holding-in_section (s.phase t) inside) in
    let held : s.lock.lock_holder ≡ some o =
      holds ∙ rw (ap (λ x. is_holding (s.phase x)) (sym mine) ∙ inside) refl in
    rw held (eq→== o t (sym mine))

-- In every system that is reached from a free lock, two threads that are past the `P` of `Acquire`
-- and not yet through the `V` of `Release` are the same thread.
pub Reachable-unique :
    {k : Kernel} {s : System}
    → Reachable k s
    → (t u : ℕ) → in_section (s.phase t) ≡ true
    → in_section (s.phase u) ≡ true
    → t ≡ u
Reachable-unique {k} {s} r t u = unique s (Reachable-IsExclusive r) t u

-- In every system that is reached from a free lock, the check of `Release` passes for a thread
-- exactly when it has come out of `Acquire` and not entered `Release` since.
pub Reachable-release :
    {k : Kernel} {s : System}
    → Reachable k s
    → (t : ℕ) → (is_held_by t s.lock ≡ true) ↔ (is_holding (s.phase t) ≡ true)
Reachable-release {k} {s} r t = (
  λ held. named_is_holding s t (Reachable-IsExclusive r) (is_held_by-eq-some t s.lock held),
  holder_is_held s t (Reachable-IsExclusive r),
)
