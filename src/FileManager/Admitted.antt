-- ===== src/FileManager/Admitted.antt =====
-- threads/filemanager.cc: at most one thread past `RequestWriteAt` of a file, as threads move on.
use nachos_system_design.Base.{
  ℕ, ◌+◌, ◌-◌, ◌≤◌, ◌≡◌, refl, sym, ap, ◌∙◌, ◌≢◌, inl, inr, Bool, true, false, arith, ◌==◌, ==→eq,
  Bool-cases,
}
use nachos_system_design.Scheduler.{with_entry}
use nachos_system_design.FileManager.Steps.{
  Stage, idle, wants_w, wants_r, admitted, reading, writing_as_reader,
}

-- The thread is past `RequestWriteAt`, and its admitted has not ended.
abbrev pub is_admitted : Stage → Bool
is_admitted idle = false
is_admitted wants_w = false
is_admitted wants_r = false
is_admitted admitted = true
is_admitted reading = false
is_admitted writing_as_reader = false

-- No thread is admitted; or one is, and the semaphore of the writers is taken.
pub data AtMostOne (value : ℕ) (stage : ℕ → Stage) : Type 0 where
  nobody : value ≤ 1 → ((t : ℕ) → is_admitted (stage t) ≡ false) → AtMostOne value stage
  somebody :
      (o : ℕ) → value ≡ 0 → ((t : ℕ) → is_admitted (stage t) ≡ true → t ≡ o) → AtMostOne value stage

pub clear : (b : Bool) → b ≡ true → b ≢ false
clear true e e' = cc
clear false e e' = cc

module _ (stage : ℕ → Stage) (t : ℕ) (p : Stage) where
  pub entry_here : (u : ℕ) → (t == u) ≡ true → with_entry stage t p u ≡ p
  entry_here u e = rw e refl

  pub entry_there : (u : ℕ) → (t == u) ≡ false → with_entry stage t p u ≡ stage u
  entry_there u e = rw e refl

  pub entry_quiet :
      is_admitted p ≡ false
      → (u : ℕ) → is_admitted (stage u) ≡ false
      → is_admitted (with_entry stage t p u) ≡ false
  entry_quiet e u q = elim (Bool-cases (t == u)) [
    | inl here ↦ rw (entry_here u here) e
    | inr there ↦ rw (entry_there u there) q
  ]

  -- A thread that is admitted when `t` has moved on to another stage.
  pub entry_writer :
      is_admitted p ≡ false
      → (u : ℕ) → is_admitted (with_entry stage t p u) ≡ true
      → (t ≢ u) × (is_admitted (stage u) ≡ true)
  entry_writer e u q = elim (Bool-cases (t == u)) [
    | inl here ↦ absurd (clear (is_admitted p) (ap is_admitted (sym (entry_here u here)) ∙ q) e)
    | inr there ↦ (ground arith, ap is_admitted (sym (entry_there u there)) ∙ q)
  ]

  pub moves :
      (value : ℕ)
      → is_admitted p ≡ false
      → AtMostOne value stage
      → AtMostOne value (with_entry stage t p)
  moves value e (nobody le quiet) = nobody le λ u. entry_quiet e u (quiet u)
  moves value e (somebody o zero_left one) =
      somebody o zero_left λ u q. one u (entry_writer e u q).1

  pub enters :
      (value : ℕ)
      → (value == 0) ≡ false
      → AtMostOne value stage
      → AtMostOne (value - 1) (with_entry stage t p)
  enters value some_left (somebody o zero_left one) = absurd (ground arith)
  enters value some_left (nobody le quiet) = somebody t (ground arith) λ u q.
      elim (Bool-cases (t == u)) [
        | inl here ↦ sym (==→eq t u here)
        | inr there ↦ absurd (
            clear (is_admitted (stage u)) (ap is_admitted (sym (entry_there u there)) ∙ q)
              (quiet u))
      ]

  pub leaves :
      (value : ℕ)
      → is_admitted p ≡ false
      → is_admitted (stage t) ≡ true
      → AtMostOne value stage
      → AtMostOne (value + 1) (with_entry stage t p)
  leaves value e w (nobody le quiet) = absurd (clear (is_admitted (stage t)) w (quiet t))
  leaves value e w (somebody o zero_left one) = nobody (omega arith) λ u.
      elim (Bool-cases (is_admitted (with_entry stage t p u))) [
        | inr quiet ↦ quiet
        | inl q ↦
            (let (other, w') = entry_writer e u q in absurd (other (one t w ∙ sym (one u w'))))
      ]
