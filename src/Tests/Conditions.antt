-- ===== src/Tests/Conditions.antt =====
-- Tests of the condition variables in threads/synch.cc: thread 1 waits, with 40 its waiter's address,
-- behind the waiter at 30; thread 2 broadcasts.
use nachos_system_design.Base.{false, ℕ, some, [], ◌∷◌}
use nachos_system_design.Scheduler.{Kernel, ready}
use nachos_system_design.Synch.{Lock}
use nachos_system_design.Condition.{Condition}

abbrev kernel : Kernel
kernel = record {
  current_thread = some 1;
  ready_list = 2 ∷ [];
  status = λ _. ready;
  assert_failed = false;
}

abbrev held_by : ℕ → Lock
held_by t = record { semaphore = record { value = 0; queue = [] }; lock_holder = some t }

abbrev condition : Condition
condition = record {
  wait_queue = 30 ∷ [];
  semaphores = λ _. record { value = 0; queue = 3 ∷ [] };
  kernel = kernel;
}
