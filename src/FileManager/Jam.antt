-- ===== src/FileManager/Jam.antt =====
-- threads/filemanager.cc: when nobody ever gets through `RequestWriteAt` of a file again.
use nachos_system_design.Base.{ℕ, ◌≡◌, refl, sym, ap, ◌∙◌, ◌≢◌, inl, inr, false, eq→==, Bool-cases}
use nachos_system_design.Scheduler.{Kernel, with_entry}
use nachos_system_design.FileManager.{FileManager}
use nachos_system_design.FileManager.Steps.{
  Stage, idle, wants_r, admitted, reading, writing_as_reader, Users, FileStep, Later, now, after,
  asks, asks_again, asks_r, server_ends, write_to_ends, reads, read_ends, writes_as_reader,
  write_ends, yields, try_w, try_r, end_read, start_read, start_write, users_of,
}
use nachos_system_design.FileManager.Admitted.{
  is_admitted, nobody, somebody, entry_quiet, entry_writer, clear,
}
use nachos_system_design.FileManager.Writers.{
  left_of, try_w_keeps, try_w_stage, try_r_waits, end_read_keeps, start_read_keeps,
  start_write_keeps, admitted_is, Later-IsExclusive, users_of-IsExclusive, IsExclusive,
}

module _ (i : ℕ) where
  -- The semaphore is taken, and nobody is past `RequestWriteAt`.
  abbrev IsJammed : Users → Type 0
  IsJammed s = (left_of i s ≡ 0) × ((t : ℕ) → is_admitted (s.stage t) ≡ false)

  stays :
      (t : ℕ) (s s' : Users) (p : Stage)
      → is_admitted p ≡ false
      → left_of i s' ≡ left_of i s
      → s'.stage ≡ with_entry s.stage t p
      → IsJammed s
      → IsJammed s'
  stays t s s' p quiet same staged (zero_left, still) = (
    same ∙ zero_left,
    λ u. ap (λ f. is_admitted (f u)) staged ∙ entry_quiet s.stage t p quiet u (still u),
  )

  not_admitted : (t : ℕ) (s : Users) → s.stage t ≡ admitted → is_admitted (s.stage t) ≢ false
  not_admitted t s e = clear (is_admitted (s.stage t)) (admitted_is i t s e)

  FileStep-IsJammed : (s s' : Users) → FileStep i s s' → IsJammed s → IsJammed s'
  FileStep-IsJammed s _ (asks t c e) j =
      let (p, quiet, staged) = try_w_stage i t s in
      stays t s (try_w i t s) p quiet (try_w_keeps i t s) staged j
  FileStep-IsJammed s _ (asks_again t c e) j =
      let (p, quiet, staged) = try_w_stage i t s in
      stays t s (try_w i t s) p quiet (try_w_keeps i t s) staged j
  FileStep-IsJammed s _ (asks_r t c e) j =
      let waits = try_r_waits i t s (eq→== (left_of i s) 0 j.0) in
      stays t s (try_r i t s) wants_r refl waits.0 waits.1 j
  FileStep-IsJammed s _ (server_ends t c e) j = absurd (not_admitted t s e (j.1 t))
  FileStep-IsJammed s _ (write_to_ends t c e) j = absurd (not_admitted t s e (j.1 t))
  FileStep-IsJammed s _ (reads t c e) j =
      stays t s (start_read i t s) reading refl (start_read_keeps i t s).0
        (start_read_keeps i t s).1 j
  FileStep-IsJammed s _ (read_ends t c e) j =
      stays t s (end_read i t s) idle refl (end_read_keeps i t s).0 (end_read_keeps i t s).1 j
  FileStep-IsJammed s _ (writes_as_reader t c e) j =
      stays t s (start_write i t s) writing_as_reader refl (start_write_keeps i t s).0
        (start_write_keeps i t s).1 j
  FileStep-IsJammed s _ (write_ends t c e) j =
      stays t s (end_read i t s) idle refl (end_read_keeps i t s).0 (end_read_keeps i t s).1 j
  FileStep-IsJammed s _ (yields t c) j = j

  Later-IsJammed : (s s' : Users) → Later i s s' → IsJammed s → IsJammed s'
  Later-IsJammed s s' now j = j
  Later-IsJammed s _ (after {s'} l step) j = FileStep-IsJammed s' _ step (Later-IsJammed s s' l j)

  -- The only thread that is admitted ends its writing with `ReleaseReadAt`.
  end_read-IsJammed :
      (t : ℕ) (s : Users) → s.stage t ≡ admitted → IsExclusive i s → IsJammed (end_read i t s)
  end_read-IsJammed t s e (nobody le quiet) = absurd (not_admitted t s e (quiet t))
  end_read-IsJammed t s e (somebody o zero_left one) = (
    (end_read_keeps i t s).0 ∙ zero_left,
    λ u. elim (Bool-cases (is_admitted ((end_read i t s).stage u))) [
      | inr quiet ↦ quiet
      | inl q ↦
          (let (other, w) =
              entry_writer s.stage t idle refl u
                (ap (λ f. is_admitted (f u)) (sym (end_read_keeps i t s).1) ∙ q) in
            absurd (other (one t (admitted_is i t s e) ∙ sym (one u w))))
    ],
  )

  -- When threads start from a table in which the file's semaphore for its second P stands at 1 and
  -- come to a point where a thread that is past RequestWriteAt of the file ends its writing with
  -- ReleaseReadAt, as the system call WriteTo does, then from there on no thread ever gets through
  -- RequestWriteAt of the file again.
  pub write_to-last :
      (m : FileManager) (k : Kernel) (s s' : Users) (t u : ℕ)
      → (m.semaphore_r i).value ≡ 1
      → Later i (users_of m k) s
      → s.stage t ≡ admitted
      → Later i (end_read i t s) s'
      → s'.stage u ≢ admitted
  write_to-last m k s s' t u one l e l' f =
      let inv = Later-IsExclusive i (users_of m k) s l (users_of-IsExclusive i m k one) in
      let j = Later-IsJammed (end_read i t s) s' l' (end_read-IsJammed t s e inv) in
      not_admitted u s' f (j.1 u)
