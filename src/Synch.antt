-- ===== src/Synch.antt =====
-- code/threads/synch.cc: semaphores and locks.
pub mod Steps
pub mod Owner
pub mod Exclusion
use nachos_system_design.Base.{
  ℕ, ◌+◌, ◌-◌, Bool, true, false, Option, none, some, List, [], ◌∷◌, ◌++◌, ◌==◌, if◌then◌else◌, Run,
  ok, ◌>>=◌, ◌>>◌, assert,
}
use nachos_system_design.Scheduler.{Kernel, ready_to_run, sleep, check_append}

pub record Semaphore : Type 0 where
  pub value : ℕ
  pub queue : List ℕ

-- One turn of the loop of `P` by the current thread `t`: the thread goes to sleep, and tests again
-- when it is back (`false`), or it takes its share and leaves the loop (`true`).
unfoldable pub p_turn : ℕ → Semaphore → Kernel → Bool × Semaphore × Kernel
p_turn t s k =
    if s.value == 0
    then (false, record s { queue = s.queue ++ t ∷ [] }, sleep t (check_append t s.queue k))
    else (true, record s { value = s.value - 1 }, k)

unfoldable pub v_from : List ℕ → Semaphore → Kernel → Semaphore × Kernel
v_from [] s k = (record s { value = s.value + 1 }, k)
v_from (t ∷ ts) s k = (record { value = s.value + 1; queue = ts }, ready_to_run k t)

unfoldable pub v : Semaphore → Kernel → Semaphore × Kernel
unfolding v_from
v s k = v_from s.queue s k

pub record Lock : Type 0 where
  pub semaphore : Semaphore
  pub lock_holder : Option ℕ

unfoldable pub new_lock : Lock
new_lock = record { semaphore = record { value = 1; queue = [] }; lock_holder = none }

-- `Acquire` after its `P`.
unfoldable pub set_holder : ℕ → Lock → Lock
set_holder t l = record l { lock_holder = some t }

unfoldable pub is_held_by : ℕ → Lock → Bool
is_held_by t l = elim l.lock_holder [ none ↦ false | some u ↦ u == t ]

-- `Release` by the current thread `t`, before its `V`.
unfoldable pub clear_holder : ℕ → Lock → Run Lock
unfolding is_held_by
clear_holder t l = do assert (is_held_by t l); ok (record l { lock_holder = none })
