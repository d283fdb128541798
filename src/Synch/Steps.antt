-- ===== src/Synch/Steps.antt =====
-- code/threads/synch.cc: threads that acquire and release one lock, in any order of steps. A step
-- is what a thread does with interrupts off, or between two points where it may be interrupted.
use nachos_system_design.Base.{ℕ, ◌≡◌, ◌≢◌, some, ok, if◌then◌else◌}
use nachos_system_design.Scheduler.{Kernel, with_entry, yield}
use nachos_system_design.Synch.{Lock, p_turn, v, new_lock, set_holder, clear_holder}

-- Where a thread is: outside, in the loop of `P`, past `P` in `Acquire`, past `Acquire`, or in
-- `Release` before its `V`.
pub data Phase : Type 0 where
  outside waiting passed holding releasing : Phase

pub record System : Type 0 where
  pub kernel : Kernel
  pub lock : Lock
  pub phase : ℕ → Phase

-- A turn of `P`.
unfoldable pub try : ℕ → System → System
try t s =
    let (through, semaphore, kernel) = p_turn t s.lock.semaphore s.kernel in
    record {
      kernel = kernel;
      lock = record s.lock { semaphore = semaphore };
      phase = with_entry s.phase t (if through then passed else waiting);
    }

unfoldable pub own : ℕ → System → System
own t s = record s { lock = set_holder t s.lock; phase = with_entry s.phase t holding }

unfoldable pub disown : ℕ → System → Lock → System
disown t s lock = record s { lock = lock; phase = with_entry s.phase t releasing }

unfoldable pub signal : ℕ → System → System
signal t s =
    let (semaphore, kernel) = v s.lock.semaphore s.kernel in
    record {
      kernel = kernel;
      lock = record s.lock { semaphore = semaphore };
      phase = with_entry s.phase t outside;
    }

-- The steps of the current thread `t`.
pub data Step (s : System) : System → Type 0 where
  acquires : (t : ℕ) → s.kernel.current_thread ≡ some t → s.phase t ≡ outside → Step s (try t s)
  tries_again : (t : ℕ) → s.kernel.current_thread ≡ some t → s.phase t ≡ waiting → Step s (try t s)
  owns : (t : ℕ) → s.kernel.current_thread ≡ some t → s.phase t ≡ passed → Step s (own t s)
  releases :
      (t : ℕ) (lock : Lock)
      → s.kernel.current_thread ≡ some t
      → clear_holder t s.lock ≡ ok lock
      → Step s (disown t s lock)
  signals : (t : ℕ) → s.kernel.current_thread ≡ some t → s.phase t ≡ releasing → Step s (signal t s)
  yields :
      (t : ℕ)
      → s.kernel.current_thread ≡ some t
      → s.phase t ≢ waiting
      → Step s (record s { kernel = yield t s.kernel })

-- The system that starts with a free lock, whatever threads there are.
abbrev pub initial : Kernel → System
initial k = record { kernel = k; lock = new_lock; phase = λ _. outside }

pub data Reachable (k : Kernel) : System → Type 0 where
  start : Reachable k (initial k)
  after : {s s' : System} → Reachable k s → Step s s' → Reachable k s'
