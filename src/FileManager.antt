-- ===== src/FileManager.antt =====
-- threads/filemanager.cc: the table of the files' semaphores. The arrays of FILEMAXNUMBER entries are
-- functions of the index, whose values from there on stand for the memory behind the arrays that the
-- code, which checks no index, reads; a write of `AddNewFile` there has no result. A name is the list of its characters.
pub mod Admitted
pub mod Beside
pub mod Jam
pub mod Table
pub mod Steps
pub mod Writers
use nachos_system_design.Base.{
  Run, ok, aborted, ◌>>=◌, ℕ, zero, suc, ◌+◌, ◌-◌, ◌%◌, ◌^◌, Bool, true, false, Option, none, some,
  List, [], ltb, if◌then◌else◌,
}
use nachos_system_design.CString.{strcmp_eq}
use nachos_system_design.Scheduler.{Kernel, with_entry}
use nachos_system_design.Synch.{Semaphore, p_turn, v}

-- FILEMAXNUMBER
abbrev pub file_max_number : ℕ
file_max_number = 100

pub data FileStatus : Type 0 where
  reading writing spacing : FileStatus

-- `none` is a NULL entry of `filetables`. `num_of_reader` is an int, as its bit pattern.
pub record FileManager : Type 0 where
  pub stats : ℕ → FileStatus
  pub semaphore_w : ℕ → Semaphore
  pub semaphore_r : ℕ → Semaphore
  pub filetables : ℕ → Option (List ℕ)
  pub curr_index : ℕ
  pub num_of_reader : ℕ

abbrev pub new_semaphore : Semaphore
new_semaphore = record { value = 1; queue = [] }

-- The constructor fills neither `filetables` nor `stats`: what their memory holds is an argument.
unfoldable pub new : (ℕ → Option (List ℕ)) → (ℕ → FileStatus) → FileManager
new memory statuses = record {
  stats = statuses;
  semaphore_w = λ _. new_semaphore;
  semaphore_r = λ _. new_semaphore;
  filetables = memory;
  curr_index = 0;
  num_of_reader = 0;
}

-- Does the entry hold the name?
abbrev pub entry_is : Option (List ℕ) → List ℕ → Bool
entry_is none name = false
entry_is (some s) name = strcmp_eq s name

-- The first of `n` entries from `i` on that holds the name.
unfoldable pub search_table : ℕ → ℕ → (ℕ → Option (List ℕ)) → List ℕ → Option ℕ
search_table zero i table name = none
search_table (suc n) i table name =
    if entry_is (table i) name then some i else search_table n (i + 1) table name

-- `none` is -1. The loop runs to `currIndex` and includes it.
unfoldable pub get_file_index : FileManager → List ℕ → Option ℕ
get_file_index m name = search_table (m.curr_index + 1) 0 m.filetables name

-- `none` is a read in front of the array.
unfoldable pub read_status : FileManager → List ℕ → Option FileStatus
read_status m name = elim (get_file_index m name) [ none ↦ none | some i ↦ some (m.stats i) ]

-- The index, once the ASSERT has passed.
unfoldable pub found_index : FileManager → List ℕ → Run ℕ
found_index m name = elim (get_file_index m name) [ none ↦ aborted | some i ↦ ok i ]

-- The test of the `if` is an assignment of 0, so it fails and no semaphore is waited for.
unfoldable pub add_reader : FileManager → FileManager
add_reader m =
    let m' = record m { num_of_reader = 0 } in
    record m' { num_of_reader = (m'.num_of_reader + 1) % 2 ^ 32 }

unfoldable pub request_read_at : FileManager → List ℕ → Run FileManager
request_read_at m name = do i ← found_index m name; ok (add_reader m)

abbrev pub set_w : FileManager → ℕ → Semaphore → FileManager
set_w m i s = record m { semaphore_w = with_entry m.semaphore_w i s }

abbrev pub set_r : FileManager → ℕ → Semaphore → FileManager
set_r m i s = record m { semaphore_r = with_entry m.semaphore_r i s }

-- `ReleaseReadAt` of the file at an index. The `if` governs an empty statement, so the V behind
-- it runs for every count.
unfoldable pub drop_reader : ℕ → FileManager → Kernel → FileManager × Kernel
drop_reader i m k =
    let m' = record m { num_of_reader = (m.num_of_reader + (2 ^ 32 - 1)) % 2 ^ 32 } in
    let (s, k') = v (m'.semaphore_w i) k in (set_w m' i s, k')

unfoldable pub release_read_at : FileManager → Kernel → List ℕ → Run (FileManager × Kernel)
release_read_at m k name = do i ← found_index m name; ok (drop_reader i m k)

-- One turn of the two loops of P in `RequestWriteAt` and `DeleteAt`, by the thread `t`.
unfoldable pub p_on_w : ℕ → ℕ → FileManager → Kernel → Bool × FileManager × Kernel
p_on_w i t m k = let (through, s, k') = p_turn t (m.semaphore_w i) k in (through, set_w m i s, k')

unfoldable pub p_on_r : ℕ → ℕ → FileManager → Kernel → Bool × FileManager × Kernel
p_on_r i t m k = let (through, s, k') = p_turn t (m.semaphore_r i) k in (through, set_r m i s, k')

-- How far a request of the thread `t` to write gets at once: into the file, or to a P that waits.
pub data Progress : Type 0 where
  waits_for_w : FileManager → Kernel → Progress
  waits_for_r : FileManager → Kernel → Progress
  enters : FileManager → Kernel → Progress

abbrev pub at_r : Bool × FileManager × Kernel → Progress
at_r (false, m, k) = waits_for_r m k
at_r (true, m, k) = enters m k

abbrev pub at_w : ℕ → ℕ → Bool × FileManager × Kernel → Progress
at_w i t (false, m, k) = waits_for_w m k
at_w i t (true, m, k) = at_r (p_on_r i t m k)

unfoldable pub request_write_at : ℕ → FileManager → Kernel → List ℕ → Run Progress
request_write_at t m k name = do i ← found_index m name; ok (at_w i t (p_on_w i t m k))

unfoldable pub drop_writer : ℕ → FileManager → Kernel → FileManager × Kernel
drop_writer i m k =
    let (w, k') = v (m.semaphore_w i) k in
    let m' = set_w m i w in let (r, k'') = v (m'.semaphore_r i) k' in (set_r m' i r, k'')

unfoldable pub release_write_at : FileManager → Kernel → List ℕ → Run (FileManager × Kernel)
release_write_at m k name = do i ← found_index m name; ok (drop_writer i m k)

-- The loop of `DeleteFile`. `filetables[i]==NULL` is a comparison whose value is dropped.
unfoldable pub delete_from : ℕ → ℕ → FileManager → List ℕ → FileManager
delete_from zero i m name = m
delete_from (suc n) i m name =
    if entry_is (m.filetables i) name then m else delete_from n (i + 1) m name

unfoldable pub delete_file : FileManager → List ℕ → FileManager
delete_file m name = delete_from (m.curr_index - 1) 0 m name

-- `DeleteAt` behind its two P's.
unfoldable pub finish_delete : FileManager → ℕ → List ℕ → FileManager
finish_delete m i name =
    let m' = delete_file m name in set_w (set_r m' i new_semaphore) i new_semaphore

abbrev pub delete_at_once : ℕ → List ℕ → Progress → Progress
delete_at_once i name (enters m k) = enters (finish_delete m i name) k
delete_at_once i name (waits_for_w m k) = waits_for_w m k
delete_at_once i name (waits_for_r m k) = waits_for_r m k

unfoldable pub delete_at : ℕ → FileManager → Kernel → List ℕ → Run Progress
delete_at t m k name = do
  i ← found_index m name
  ok (delete_at_once i name (at_w i t (p_on_w i t m k)))

abbrev pub is_null : Option (List ℕ) → Bool
is_null none = true
is_null (some s) = false

-- The first of `n` entries from `i` on that is NULL.
unfoldable pub search_null : ℕ → ℕ → (ℕ → Option (List ℕ)) → Option ℕ
search_null zero i table = none
search_null (suc n) i table = if is_null (table i) then some i else search_null n (i + 1) table

-- A new entry behind the last.
abbrev pub appended : FileManager → List ℕ → FileManager
appended m name = record m {
  filetables = with_entry m.filetables m.curr_index (some name);
  stats = with_entry m.stats m.curr_index spacing;
  curr_index = m.curr_index + 1;
}

-- `name` here is the copy that `strcpy` makes. With a full table the entry is written behind the
-- arrays, over the other members: `none`.
unfoldable pub add_new_file : FileManager → List ℕ → Option FileManager
add_new_file m name = elim (search_null (m.curr_index - 1) 0 m.filetables) [
  | some i ↦ some (record m { filetables = with_entry m.filetables i (some name) })
  | none ↦ (if ltb m.curr_index file_max_number then some (appended m name) else none)
]
