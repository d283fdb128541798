-- ===== src/Tests/FileTables.antt =====
-- threads/filemanager.cc with one file, whose name is the letter f, and two threads.
use nachos_system_design.Base.{ℕ, false, ◌≡◌, refl, ◌≢◌, none, some, List, [], ◌∷◌, ok}
use nachos_system_design.CString.{strcmp_eq}
use nachos_system_design.Scheduler.{
  Kernel, running, ready, with_entry, run, yield, ready_to_run, find_next_to_run,
}
use nachos_system_design.Synch.{p_turn, v, v_from}
use nachos_system_design.FileManager.{
  FileManager, new, spacing, add_new_file, appended, search_null, get_file_index, search_table,
  delete_at, finish_delete, found_index, enters, p_on_w, p_on_r, drop_reader,
}
use nachos_system_design.FileManager.Table.{delete_at-found}
use nachos_system_design.FileManager.Steps.{
  Users, Later, now, after, asks, asks_r, yields, users_of, try_w, try_r, end_read, admitted,
  wants_r,
}
use nachos_system_design.FileManager.Writers.{Later-unique}
use nachos_system_design.FileManager.Jam.{write_to-last}

abbrev f : List ℕ
f = 102 ∷ []

abbrev g : List ℕ
g = 103 ∷ []

abbrev unused : FileManager
unused = new (λ _. none) λ _. spacing

abbrev one_file : FileManager
one_file = appended unused f

one_file_added : add_new_file unused f ≡ some one_file
unfolding new add_new_file search_null
one_file_added = refl

abbrev kernel : Kernel
kernel = record {
  current_thread = some 1;
  ready_list = 2 ∷ [];
  assert_failed = false;
  status = with_entry (λ _. ready) 1 running;
}

-- `DeleteAt` by a thread that finds both semaphores free.
abbrev deleted : FileManager
deleted = finish_delete ((p_on_r 0 1 (p_on_w 0 1 one_file kernel).1 kernel).1) 0 f

f_is_deleted : delete_at 1 one_file kernel f ≡ ok (enters deleted kernel)
unfolding new add_new_file search_null get_file_index search_table strcmp_eq delete_at found_index
    p_on_w p_on_r p_turn
f_is_deleted = refl

delete_at-found_example : get_file_index deleted f ≡ get_file_index one_file f
delete_at-found_example = delete_at-found 1 one_file deleted kernel kernel f f f_is_deleted

one_left : (one_file.semaphore_r 0).value ≡ 1
unfolding new add_new_file search_null
one_left = refl

-- Thread 1 writes.
abbrev writer_in : Users
writer_in = try_r 0 1 (try_w 0 1 (users_of one_file kernel))

writer_in-Later : Later 0 (users_of one_file kernel) writer_in
unfolding try_w try_r p_on_w p_on_r p_turn new add_new_file search_null
writer_in-Later = after (after now (asks 1 refl refl)) (asks_r 1 refl refl)

writer_in_writes : writer_in.stage 1 ≡ admitted
unfolding try_w try_r p_on_w p_on_r p_turn new add_new_file search_null
writer_in_writes = refl

abbrev writer : ℕ
writer = 1

Later-unique_example : writer ≡ writer
Later-unique_example =
    Later-unique 0 one_file kernel writer_in writer writer one_left writer_in-Later writer_in_writes
      writer_in_writes

-- Thread 2 runs, and writes by the system call Write.
abbrev other_runs : Users
other_runs = record writer_in { kernel = yield 1 writer_in.kernel }

-- It ends with `ReleaseReadAt`, and thread 2 asks to write.
abbrev asked : Users
asked =
    let out = end_read 0 1 writer_in in
    try_r 0 2 (try_w 0 2 (record out { kernel = yield 1 out.kernel }))

asked-Later : Later 0 (end_read 0 1 writer_in) asked
unfolding try_w try_r p_on_w p_on_r p_turn new add_new_file search_null end_read drop_reader v
    v_from yield ready_to_run find_next_to_run run
asked-Later = after (after (after now (yields 1 refl)) (asks 2 refl refl)) (asks_r 2 refl refl)

asked_waits : asked.stage 2 ≡ wants_r
unfolding try_w try_r p_on_w p_on_r p_turn new add_new_file search_null end_read drop_reader v
    v_from yield ready_to_run find_next_to_run run
asked_waits = refl

write_to-last_example : asked.stage 2 ≢ admitted
write_to-last_example =
    write_to-last 0 one_file kernel writer_in asked 1 2 one_left writer_in-Later writer_in_writes
      asked-Later
