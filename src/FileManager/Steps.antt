-- ===== src/FileManager/Steps.antt =====
-- threads/filemanager.cc with the calls that userprog/exception.cc makes: threads that read and write
-- one file, at the index `i` of the table, in any order of steps.
use nachos_system_design.Base.{ℕ, ◌≡◌, some, if◌then◌else◌}
use nachos_system_design.Scheduler.{Kernel, with_entry, yield}
use nachos_system_design.FileManager.{
  FileManager, p_on_w, p_on_r, add_reader, drop_reader, drop_writer,
}

-- Where a thread is: outside, in one of the loops of `RequestWriteAt`, past it, or past
-- `RequestReadAt`, to read the file or, as the system call Write, to write it.
pub data Stage : Type 0 where
  idle wants_w wants_r admitted reading writing_as_reader : Stage

pub record Users : Type 0 where
  pub manager : FileManager
  pub kernel : Kernel
  pub stage : ℕ → Stage

module _ (i : ℕ) where
  unfoldable pub try_w : ℕ → Users → Users
  try_w t s =
      let (through, m, k) = p_on_w i t s.manager s.kernel in
      record {
        manager = m;
        kernel = k;
        stage = with_entry s.stage t (if through then wants_r else wants_w);
      }

  unfoldable pub try_r : ℕ → Users → Users
  try_r t s =
      let (through, m, k) = p_on_r i t s.manager s.kernel in
      record {
        manager = m;
        kernel = k;
        stage = with_entry s.stage t (if through then admitted else wants_r);
      }

  abbrev left : ℕ → Users → FileManager × Kernel → Users
  left t s (m, k) = record { manager = m; kernel = k; stage = with_entry s.stage t idle }

  -- `ReleaseWriteAt`
  unfoldable pub end_write : ℕ → Users → Users
  end_write t s = left t s (drop_writer i s.manager s.kernel)

  -- `ReleaseReadAt`
  unfoldable pub end_read : ℕ → Users → Users
  end_read t s = left t s (drop_reader i s.manager s.kernel)

  -- `RequestReadAt`
  unfoldable pub start_read : ℕ → Users → Users
  start_read t s = record s { manager = add_reader s.manager; stage = with_entry s.stage t reading }

  -- `RequestReadAt` in the system call Write, which writes the file then.
  unfoldable pub start_write : ℕ → Users → Users
  start_write t s = record s {
    manager = add_reader s.manager;
    stage = with_entry s.stage t writing_as_reader;
  }

  -- The steps of the current thread `t`. The system call WriteTo ends its writing with
  -- `ReleaseReadAt`; the server of the remote requests ends it with `ReleaseWriteAt`. The system call
  -- Write asks for leave to read and gives that back.
  pub data FileStep (s : Users) : Users → Type 0 where
    asks : (t : ℕ) → s.kernel.current_thread ≡ some t → s.stage t ≡ idle → FileStep s (try_w t s)
    asks_again :
        (t : ℕ) → s.kernel.current_thread ≡ some t → s.stage t ≡ wants_w → FileStep s (try_w t s)
    asks_r :
        (t : ℕ) → s.kernel.current_thread ≡ some t → s.stage t ≡ wants_r → FileStep s (try_r t s)
    server_ends :
        (t : ℕ)
        → s.kernel.current_thread ≡ some t
        → s.stage t ≡ admitted
        → FileStep s (end_write t s)
    write_to_ends :
        (t : ℕ)
        → s.kernel.current_thread ≡ some t
        → s.stage t ≡ admitted
        → FileStep s (end_read t s)
    reads :
        (t : ℕ) → s.kernel.current_thread ≡ some t → s.stage t ≡ idle → FileStep s (start_read t s)
    read_ends :
        (t : ℕ) → s.kernel.current_thread ≡ some t → s.stage t ≡ reading → FileStep s (end_read t s)
    writes_as_reader :
        (t : ℕ) → s.kernel.current_thread ≡ some t → s.stage t ≡ idle → FileStep s (start_write t s)
    write_ends :
        (t : ℕ)
        → s.kernel.current_thread ≡ some t
        → s.stage t ≡ writing_as_reader
        → FileStep s (end_read t s)
    yields :
        (t : ℕ)
        → s.kernel.current_thread ≡ some t
        → FileStep s (record s { kernel = yield t s.kernel })

  -- What may follow.
  pub data Later (s : Users) : Users → Type 0 where
    now : Later s s
    after : {s' s'' : Users} → Later s s' → FileStep s' s'' → Later s s''

-- A new table and threads that use no file yet.
abbrev pub users_of : FileManager → Kernel → Users
users_of m k = record { manager = m; kernel = k; stage = λ _. idle }
