-- ===== src/FileManager/Writers.antt =====
-- threads/filemanager.cc: who is past `RequestWriteAt` of a file.
use nachos_system_design.Base.{
  ℕ, ◌+◌, ◌-◌, ◌≡◌, refl, sym, ap, ◌∙◌, subst, inl, inr, true, false, arith, ◌==◌, eq→==,
  Bool-cases,
}
use nachos_system_design.Scheduler.{Kernel, with_entry}
use nachos_system_design.Synch.{Semaphore, p_turn}
use nachos_system_design.FileManager.{
  FileManager, p_on_w, p_on_r, add_reader, drop_reader, drop_writer,
}
use nachos_system_design.Synch.Exclusion.{v-value}
use nachos_system_design.FileManager.Steps.{
  Stage, idle, wants_w, wants_r, admitted, reading, writing_as_reader, Users, FileStep, Later, now,
  after, asks, asks_again, asks_r, server_ends, write_to_ends, reads, read_ends, writes_as_reader,
  write_ends, yields, try_w, try_r, end_write, end_read, start_read, start_write, users_of,
}
use nachos_system_design.FileManager.Admitted.{
  is_admitted, AtMostOne, nobody, somebody, clear, moves, enters, leaves,
}

entry_self : (table : ℕ → Semaphore) (i : ℕ) (s : Semaphore) → with_entry table i s i ≡ s
entry_self table i s = rw (eq→== i i refl) refl

module _ (i : ℕ) where
  abbrev pub left_of : Users → ℕ
  left_of s = (s.manager.semaphore_r i).value

  -- The steps, by what they do to the semaphore of the writers and to the stages.
  pub try_w_keeps : (t : ℕ) (s : Users) → left_of (try_w i t s) ≡ left_of s
  unfolding try_w p_on_w
  try_w_keeps t s = refl

  pub try_w_stage :
      (t : ℕ) (s : Users)
      → (p : Stage) × (is_admitted p ≡ false) × ((try_w i t s).stage ≡ with_entry s.stage t p)
  unfolding try_w p_on_w
  try_w_stage t s = elim (Bool-cases (p_turn t (s.manager.semaphore_w i) s.kernel).0) [
    | inl e ↦ (wants_r, refl, rw e refl)
    | inr e ↦ (wants_w, refl, rw e refl)
  ]

  -- The P on the semaphore of the writers waits, or takes what is there.
  pub try_r_waits :
      (t : ℕ) (s : Users)
      → (left_of s == 0) ≡ true
      → (left_of (try_r i t s) ≡ left_of s) × ((try_r i t s).stage ≡ with_entry s.stage t wants_r)
  unfolding try_r p_on_r p_turn
  try_r_waits t s e = rw e (ap (λ x. x.value) (entry_self s.manager.semaphore_r i _), refl)

  try_r_takes :
      (t : ℕ) (s : Users)
      → (left_of s == 0) ≡ false
      → (left_of (try_r i t s) ≡ left_of s - 1)
        × ((try_r i t s).stage ≡ with_entry s.stage t admitted)
  unfolding try_r p_on_r p_turn
  try_r_takes t s e = rw e (ap (λ x. x.value) (entry_self s.manager.semaphore_r i _), refl)

  end_write_gives : (t : ℕ) (s : Users) → left_of (end_write i t s) ≡ left_of s + 1
  unfolding end_write drop_writer
  end_write_gives t s =
      ap (λ x. x.value) (entry_self s.manager.semaphore_r i _) ∙ v-value (s.manager.semaphore_r i) _

  end_write_stage : (t : ℕ) (s : Users) → (end_write i t s).stage ≡ with_entry s.stage t idle
  unfolding end_write drop_writer
  end_write_stage t s = refl

  pub end_read_keeps :
      (t : ℕ) (s : Users)
      → (left_of (end_read i t s) ≡ left_of s)
        × ((end_read i t s).stage ≡ with_entry s.stage t idle)
  unfolding end_read drop_reader
  end_read_keeps t s = (refl, refl)

  pub start_read_keeps :
      (t : ℕ) (s : Users)
      → (left_of (start_read i t s) ≡ left_of s)
        × ((start_read i t s).stage ≡ with_entry s.stage t reading)
  unfolding start_read add_reader
  start_read_keeps t s = (refl, refl)

  pub start_write_keeps :
      (t : ℕ) (s : Users)
      → (left_of (start_write i t s) ≡ left_of s)
        × ((start_write i t s).stage ≡ with_entry s.stage t writing_as_reader)
  unfolding start_write add_reader
  start_write_keeps t s = (refl, refl)

  abbrev pub IsExclusive : Users → Type 0
  IsExclusive s = AtMostOne (left_of s) s.stage

  -- A step that leaves the semaphore and takes `t` to a stage in which it is not admitted.
  passes :
      (t : ℕ) (s s' : Users) (p : Stage)
      → is_admitted p ≡ false
      → left_of s' ≡ left_of s
      → s'.stage ≡ with_entry s.stage t p
      → IsExclusive s
      → IsExclusive s'
  passes t s s' p quiet same staged inv =
      subst (λ f. AtMostOne (left_of s') f) (sym staged)
        (subst (λ n. AtMostOne n (with_entry s.stage t p)) (sym same)
          (moves s.stage t p (left_of s) quiet inv))

  pub admitted_is : (t : ℕ) (s : Users) → s.stage t ≡ admitted → is_admitted (s.stage t) ≡ true
  admitted_is t s e = ap is_admitted e

  try_w-IsExclusive : (t : ℕ) (s : Users) → IsExclusive s → IsExclusive (try_w i t s)
  try_w-IsExclusive t s inv =
      let (p, quiet, staged) = try_w_stage t s in
      passes t s (try_w i t s) p quiet (try_w_keeps t s) staged inv

  try_r-IsExclusive : (t : ℕ) (s : Users) → IsExclusive s → IsExclusive (try_r i t s)
  try_r-IsExclusive t s inv = elim (Bool-cases (left_of s == 0)) [
    | inl e ↦ passes t s (try_r i t s) wants_r refl (try_r_waits t s e).0 (try_r_waits t s e).1 inv
    | inr e ↦
        subst (λ f. AtMostOne (left_of (try_r i t s)) f) (sym (try_r_takes t s e).1)
          (subst (λ n. AtMostOne n (with_entry s.stage t admitted)) (sym (try_r_takes t s e).0)
            (enters s.stage t admitted (left_of s) e inv))
  ]

  end_write-IsExclusive :
      (t : ℕ) (s : Users) → s.stage t ≡ admitted → IsExclusive s → IsExclusive (end_write i t s)
  end_write-IsExclusive t s e inv =
      subst (λ f. AtMostOne (left_of (end_write i t s)) f) (sym (end_write_stage t s))
        (subst (λ n. AtMostOne n (with_entry s.stage t idle)) (sym (end_write_gives t s))
          (leaves s.stage t idle (left_of s) refl (admitted_is t s e) inv))

  FileStep-IsExclusive : (s s' : Users) → FileStep i s s' → IsExclusive s → IsExclusive s'
  FileStep-IsExclusive s _ (asks t c e) inv = try_w-IsExclusive t s inv
  FileStep-IsExclusive s _ (asks_again t c e) inv = try_w-IsExclusive t s inv
  FileStep-IsExclusive s _ (asks_r t c e) inv = try_r-IsExclusive t s inv
  FileStep-IsExclusive s _ (server_ends t c e) inv = end_write-IsExclusive t s e inv
  FileStep-IsExclusive s _ (write_to_ends t c e) inv =
      passes t s (end_read i t s) idle refl (end_read_keeps t s).0 (end_read_keeps t s).1 inv
  FileStep-IsExclusive s _ (reads t c e) inv =
      passes t s (start_read i t s) reading refl (start_read_keeps t s).0 (start_read_keeps t s).1
        inv
  FileStep-IsExclusive s _ (read_ends t c e) inv =
      passes t s (end_read i t s) idle refl (end_read_keeps t s).0 (end_read_keeps t s).1 inv
  FileStep-IsExclusive s _ (writes_as_reader t c e) inv =
      passes t s (start_write i t s) writing_as_reader refl (start_write_keeps t s).0
        (start_write_keeps t s).1 inv
  FileStep-IsExclusive s _ (write_ends t c e) inv =
      passes t s (end_read i t s) idle refl (end_read_keeps t s).0 (end_read_keeps t s).1 inv
  FileStep-IsExclusive s _ (yields t c) inv = inv

  pub Later-IsExclusive : (s s' : Users) → Later i s s' → IsExclusive s → IsExclusive s'
  Later-IsExclusive s s' now inv = inv
  Later-IsExclusive s _ (after {s'} l step) inv =
      FileStep-IsExclusive s' _ step (Later-IsExclusive s s' l inv)

  pub users_of-IsExclusive :
      (m : FileManager) (k : Kernel) → (m.semaphore_r i).value ≡ 1 → IsExclusive (users_of m k)
  users_of-IsExclusive m k e = nobody (omega arith) λ t. refl

  -- When threads start from a table in which the file's semaphore for its second P stands at 1, and
  -- read and write the file in any order through the system calls and the server, two threads that
  -- are past RequestWriteAt of the file, and have not ended that writing, are the same thread. (The
  -- system call Write does not call RequestWriteAt.)
  pub Later-unique :
      (m : FileManager) (k : Kernel) (s : Users) (t u : ℕ)
      → (m.semaphore_r i).value ≡ 1
      → Later i (users_of m k) s
      → s.stage t ≡ admitted
      → s.stage u ≡ admitted
      → t ≡ u
  Later-unique m k s t u one l e f =
      same (Later-IsExclusive (users_of m k) s l (users_of-IsExclusive m k one))
    where
      same : IsExclusive s → t ≡ u
      same (nobody le quiet) =
          absurd (clear (is_admitted (s.stage t)) (admitted_is t s e) (quiet t))
      same (somebody o zero_left one') =
          one' t (admitted_is t s e) ∙ sym (one' u (admitted_is u s f))
