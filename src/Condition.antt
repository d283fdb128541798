-- ===== src/Condition.antt =====
-- threads/synch.cc: condition variables. A waiter is the address of the semaphore that `Wait`
-- allocates for its thread.
pub mod Apart
pub mod Wakes
use nachos_system_design.Base.{
  ℕ, zero, suc, Bool, true, false, not, Option, none, some, List, [], ◌∷◌, ◌++◌, if◌then◌else◌,
  ◌==◌, Run, ok, ◌>>=◌, ◌>>◌, assert,
}
use nachos_system_design.Scheduler.{Kernel, is_in}
use nachos_system_design.Synch.{Semaphore, v, Lock, is_held_by, clear_holder}

abbrev pub Semaphores : Type 0
Semaphores = ℕ → Semaphore

abbrev pub with_semaphore : Semaphores → ℕ → Semaphore → Semaphores
with_semaphore table w s u = if u == w then s else table u

-- The object with what it reaches: the semaphores of the waiters and the threads.
pub record Condition : Type 0 where
  pub wait_queue : List ℕ
  pub semaphores : Semaphores
  pub kernel : Kernel

-- `Wait` by the thread `t` up to its `P`, with `waiter` the address that `new` returns: the rest is
-- the `P` of the waiter and `Acquire`.
unfoldable pub begin_wait : (t waiter : ℕ) → Lock → Condition → Run (Lock × Condition)
begin_wait t waiter lock c = do
  assert (is_held_by t lock)
  assert (not (is_in waiter c.wait_queue))
  let queued = c.wait_queue ++ waiter ∷ []
  let fresh = with_semaphore c.semaphores waiter (record { value = 0; queue = [] })
  lock' ← clear_holder t lock
  let (semaphore, kernel) = v lock'.semaphore c.kernel
  ok (
    record lock' { semaphore = semaphore },
    record { wait_queue = queued; semaphores = fresh; kernel = kernel },
  )

unfoldable pub wake : Condition → List ℕ → Condition
wake c [] = c
wake c (waiter ∷ ws) =
    let (s, kernel) = v (c.semaphores waiter) c.kernel in
    record { wait_queue = ws; semaphores = with_semaphore c.semaphores waiter s; kernel = kernel }

unfoldable pub signal_one : ℕ → Lock → Condition → Run Condition
signal_one t lock c = do assert (is_held_by t lock); ok (wake c c.wait_queue)

abbrev is_nobody : List ℕ → Bool
is_nobody [] = true
is_nobody (_ ∷ _) = false

-- The loop of `Broadcast`; `none` when the rounds given run out.
unfoldable pub broadcast : ℕ → ℕ → Lock → Condition → Run (Option Condition)
broadcast zero t lock c = ok none
broadcast (suc n) t lock c =
    let round = do c' ← signal_one t lock c; broadcast n t lock c'
    in if is_nobody c.wait_queue then ok (some c) else round
