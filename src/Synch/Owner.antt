-- ===== src/Synch/Owner.antt =====
-- code/threads/synch.cc: the owner of a lock, and what becomes of it when a thread moves on.
use nachos_system_design.Base.{
  ℕ, ◌+◌, ◌-◌, ◌≡◌, ◌≢◌, refl, sym, ap, ◌∙◌, Bool, true, false, Option, none, some, if◌then◌else◌,
  ◌==◌, ==→eq, Bool-cases, inl, inr, ◌⊎◌, arith,
}
use nachos_system_design.Scheduler.{with_entry}
use nachos_system_design.Synch.Steps.{Phase, outside, waiting, passed, holding, releasing, System}

-- The thread is past `P` and not yet through `V`.
abbrev pub in_section : Phase → Bool
in_section outside = false
in_section waiting = false
in_section passed = true
in_section holding = true
in_section releasing = true

abbrev pub is_holding : Phase → Bool
is_holding holding = true
is_holding phase = false

-- The lock is free, or one thread is in its section, which the lock names while the thread holds it.
pub data Owned (value : ℕ) (holder : Option ℕ) (phase : ℕ → Phase) : Type 0 where
  free :
      value ≡ 1
      → holder ≡ none
      → ((t : ℕ) → in_section (phase t) ≡ false)
      → Owned value holder phase
  taken :
      (o : ℕ)
      → value ≡ 0
      → in_section (phase o) ≡ true
      → ((t : ℕ) → in_section (phase t) ≡ true → t ≡ o)
      → holder ≡ (if is_holding (phase o) then some o else none)
      → Owned value holder phase

abbrev pub IsExclusive : System → Type 0
IsExclusive s = Owned s.lock.semaphore.value s.lock.lock_holder s.phase

pub clash {ℓ} : {A : Type ℓ} (b : Bool) → b ≡ true → b ≡ false → A
clash true e e' = cc
clash false e e' = cc

-- What becomes of the owner when a thread enters another phase.
module _ (value : ℕ) (holder : Option ℕ) (phase : ℕ → Phase) (t : ℕ) where
  entry-cases :
      (p : Phase) (u : ℕ)
      → ((u ≡ t) × (with_entry phase t p u ≡ p)) ⊎ ((t ≢ u) × (with_entry phase t p u ≡ phase u))
  entry-cases p u = elim (Bool-cases (t == u)) [
    | inl here ↦ inl (sym (==→eq t u here), rw here refl)
    | inr there ↦ inr (ground arith, rw there refl)
  ]

  own_entry : (p : Phase) → with_entry phase t p t ≡ p
  own_entry p = elim (entry-cases p t) [ inl (_, e) ↦ e | inr (h, _) ↦ absurd (h refl) ]

  -- A thread outside its section starts to wait.
  pub waits-Owned :
      in_section (phase t) ≡ false
      → Owned value holder phase
      → Owned value holder (with_entry phase t waiting)
  waits-Owned away (free one unheld all_out) = free one unheld λ u. elim (entry-cases waiting u) [
    | inl (_, e) ↦ ap in_section e
    | inr (_, e) ↦ ap in_section e ∙ all_out u
  ]
  waits-Owned away (taken o gone here only holds) = elim (entry-cases waiting o) [
    | inl (e, _) ↦ clash (in_section (phase o)) here (ap (λ x. in_section (phase x)) e ∙ away)
    | inr (_, kept) ↦
        taken o gone (ap in_section kept ∙ here)
          (λ u inside. elim (entry-cases waiting u) [
            | inl (_, e) ↦
                clash (in_section (with_entry phase t waiting u)) inside (ap in_section e)
            | inr (_, e) ↦ only u (sym (ap in_section e) ∙ inside)
          ])
          (holds ∙ ap (λ x. if is_holding x then some o else none) (sym kept))
  ]

  -- A thread takes the one share of the semaphore.
  pub passes-Owned :
      (value == 0) ≡ false
      → Owned value holder phase
      → Owned (value - 1) holder (with_entry phase t passed)
  passes-Owned more (taken o gone here only holds) = absurd (ground arith)
  passes-Owned more (free one unheld all_out) =
      taken t (omega (arith, one)) (ap in_section (own_entry passed))
        (λ u inside. elim (entry-cases passed u) [
          | inl (e, _) ↦ e
          | inr (_, e) ↦ clash (in_section (phase u)) (sym (ap in_section e) ∙ inside) (all_out u)
        ])
        (unheld ∙ ap (λ x. if is_holding x then some t else none) (sym (own_entry passed)))

  -- The owner goes on within its section.
  pub stays-Owned :
      (p : Phase)
      → in_section (phase t) ≡ true
      → in_section p ≡ true
      → Owned value holder phase
      → Owned value (if is_holding p then some t else none) (with_entry phase t p)
  stays-Owned p inside still (free one unheld all_out) =
      clash (in_section (phase t)) inside (all_out t)
  stays-Owned p inside still (taken o gone here only holds) =
      taken t gone (ap in_section (own_entry p) ∙ still)
        (λ u within. elim (entry-cases p u) [
          | inl (e, _) ↦ e
          | inr (_, e) ↦ only u (sym (ap in_section e) ∙ within) ∙ sym (only t inside)
        ])
        (ap (λ x. if is_holding x then some t else none) (sym (own_entry p)))

  -- The owner leaves, and the semaphore has its share back.
  pub leaves-Owned :
      in_section (phase t) ≡ true
      → is_holding (phase t) ≡ false
      → Owned value holder phase
      → Owned (value + 1) holder (with_entry phase t outside)
  leaves-Owned inside idle (free one unheld all_out) =
      clash (in_section (phase t)) inside (all_out t)
  leaves-Owned inside idle (taken o gone here only holds) =
      let mine : o ≡ t = sym (only t inside) in
      free (omega (arith, gone))
        (holds ∙ ap (λ x. if is_holding (phase x) then some x else none) mine ∙ rw idle refl)
        (λ u. elim (entry-cases outside u) [
          | inl (_, e) ↦ ap in_section e
          | inr (h, e) ↦ elim (Bool-cases (in_section (phase u))) [
            | inl within ↦ absurd (h (only t inside ∙ sym (only u within)))
            | inr out ↦ ap in_section e ∙ out
          ]
        ])
