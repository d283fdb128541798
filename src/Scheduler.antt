-- ===== src/Scheduler.antt =====
-- code/threads/scheduler.cc and thread.cc: the ready list, and the switches between threads. They
-- run with interrupts off; the checks of the interrupt level are left out. That a thread is appended
-- to a list which has it already fails an ASSERT of List, and ends the program: from then on
-- `assert_failed` is set, and what the model does is no longer what the program does.
use nachos_system_design.Base.{
  ℕ, Bool, false, ◌||◌, Option, none, some, List, [], ◌∷◌, ◌++◌, ◌==◌, if◌then◌else◌,
}

pub data ThreadStatus : Type 0 where
  just_created running ready blocked : ThreadStatus

-- `current_thread` is `none` while the machine idles for want of a ready thread.
pub record Kernel : Type 0 where
  pub current_thread : Option ℕ
  pub ready_list : List ℕ
  pub status : ℕ → ThreadStatus
  pub assert_failed : Bool

unfoldable pub is_in : ℕ → List ℕ → Bool
is_in t [] = false
is_in t (u ∷ us) = u == t || is_in t us

-- The check of `Append` to the list.
unfoldable pub check_append : ℕ → List ℕ → Kernel → Kernel
check_append t list k = record k { assert_failed = k.assert_failed || is_in t list }

-- A table of threads with one entry changed.
abbrev pub with_entry {ℓ} : {A : Type ℓ} → (ℕ → A) → ℕ → A → ℕ → A
with_entry table t value u = if t == u then value else table u

unfoldable pub ready_to_run : Kernel → ℕ → Kernel
ready_to_run k t = record (check_append t k.ready_list k) {
  ready_list = k.ready_list ++ t ∷ [];
  status = with_entry k.status t ready;
}

next_of : Kernel → List ℕ → Option ℕ × Kernel
next_of k [] = (none, k)
next_of k (t ∷ ts) = (some t, record k { ready_list = ts })

unfoldable pub find_next_to_run : Kernel → Option ℕ × Kernel
unfolding next_of
find_next_to_run k = next_of k k.ready_list

unfoldable pub run : Kernel → ℕ → Kernel
run k next = record k { current_thread = some next; status = with_entry k.status next running }

-- `Yield` of the current thread `t`.
yield_to : ℕ → Kernel → Option ℕ × Kernel → Kernel
yield_to t k (none, k') = k
yield_to t k (some next, k') = run (ready_to_run k' t) next

unfoldable pub yield : ℕ → Kernel → Kernel
unfolding yield_to
yield t k = yield_to t k (find_next_to_run k)

-- `Sleep` of the current thread `t`, up to the switch. `Idle` waits for an interrupt.
sleep_to : Option ℕ × Kernel → Kernel
sleep_to (none, k) = record k { current_thread = none }
sleep_to (some next, k) = run k next

unfoldable pub sleep : ℕ → Kernel → Kernel
unfolding sleep_to
sleep t k = sleep_to (find_next_to_run (record k { status = with_entry k.status t blocked }))
