-- ===== src/Tests/Locks.antt =====
-- code/threads/synch.cc with two threads, of which the first is running.
use nachos_system_design.Base.{ℕ, false, ◌≡◌, ◌↔◌, refl, true, some, [], ◌∷◌}
use nachos_system_design.Scheduler.{
  Kernel, running, ready, with_entry, run, yield, sleep, ready_to_run, find_next_to_run,
}
use nachos_system_design.Synch.{new_lock, p_turn, set_holder, is_held_by}
use nachos_system_design.Synch.Owner.{in_section, is_holding}
use nachos_system_design.Synch.Steps.{
  System, Reachable, start, after, acquires, owns, initial, try, own, waiting,
}
use nachos_system_design.Synch.Exclusion.{Reachable-unique, Reachable-release}

abbrev kernel : Kernel
kernel = record {
  current_thread = some 1;
  ready_list = 2 ∷ [];
  assert_failed = false;
  status = with_entry (λ _. ready) 1 running;
}

-- Thread 1 has the lock.
abbrev locked : System
locked = own 1 (try 1 (initial kernel))

locked-Reachable : Reachable kernel locked
unfolding try own new_lock p_turn
locked-Reachable = after (after start (acquires 1 refl refl)) (owns 1 refl refl)

-- Thread 2 runs in its place, and has to wait.
contended : (try 2 (record locked { kernel = yield 1 locked.kernel })).phase 2 ≡ waiting
unfolding try own new_lock p_turn yield run ready_to_run find_next_to_run sleep set_holder
contended = refl

locked_inside : in_section (locked.phase 1) ≡ true
unfolding own
locked_inside = refl

abbrev owner : ℕ
owner = 1

Reachable-unique_example : owner ≡ owner
Reachable-unique_example = Reachable-unique locked-Reachable owner owner locked_inside locked_inside

Reachable-release_example : (is_held_by 1 locked.lock ≡ true) ↔ (is_holding (locked.phase 1) ≡ true)
Reachable-release_example = Reachable-release locked-Reachable 1
