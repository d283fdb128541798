-- ===== src/FileManager/Table.antt =====
-- threads/filemanager.cc: what the table finds, and what the calls do to it.
use nachos_system_design.Base.{
  ok_injective, >>=-eq-ok, Returns, Run, ok, ◌>>=◌, ℕ, zero, suc, ◌+◌, ◌-◌, ◌≡◌, refl, sym, ap, ◌∙◌,
  Bool, true, false, some, List, arith, Run, ok, ◌>>=◌, Returns,
}
use nachos_system_design.Scheduler.{Kernel}
use nachos_system_design.Synch.{Semaphore, p_turn}
use nachos_system_design.FileManager.{
  FileManager, get_file_index, found_index, request_read_at, release_read_at, delete_from,
  delete_file, finish_delete, delete_at, Progress, enters, waits_for_w, waits_for_r, p_on_w, p_on_r,
  set_w, set_r, at_w, at_r, delete_at_once,
}

delete_from-id : (n i : ℕ) (m : FileManager) (name : List ℕ) → delete_from n i m name ≡ m
unfolding delete_from
delete_from-id zero i m name = refl
delete_from-id (suc n) i m name = ground (arith, delete_from-id n (i + 1) m name)

-- Deleting a file leaves the table as it is: the name, like every other, leads where it led.
finish_delete-found :
    (m : FileManager) (i : ℕ) (name other : List ℕ)
    → get_file_index (finish_delete m i name) other ≡ get_file_index m other
unfolding finish_delete delete_file get_file_index
finish_delete-found m i name other = rw (delete_from-id (m.curr_index - 1) 0 m name) refl

abbrev manager_of : FileManager → Progress → FileManager
manager_of m (enters m' k) = m'
manager_of m (waits_for_w m' k) = m
manager_of m (waits_for_r m' k) = m

delete_at_once-enters :
    (i : ℕ) (m' : FileManager) (k' : Kernel) (name : List ℕ) (p : Progress)
    → delete_at_once i name p ≡ enters m' k'
    → (m : FileManager) × (p ≡ enters m k') × (m' ≡ finish_delete m i name)
unfolding finish_delete
delete_at_once-enters i m' k' name (enters m k) e =
    (m, ap (enters m) (kernels e), sym (ap (manager_of m) e))
  where
    kernels : {a b : FileManager} {c d : Kernel} → enters a c ≡ enters b d → c ≡ d
    kernels e = cc
delete_at_once-enters i m' k' name (waits_for_w m k) e = absurd (cc)
delete_at_once-enters i m' k' name (waits_for_r m k) e = absurd (cc)

-- A P changes no name.
at_r-enters :
    (i : ℕ) (m m' : FileManager) (k' : Kernel) (other : List ℕ) (r : Bool × Semaphore × Kernel)
    → at_r (r.0, set_r m i r.1, r.2) ≡ enters m' k'
    → get_file_index m' other ≡ get_file_index m other
unfolding get_file_index
at_r-enters i m m' k' other (false, s, k) e = absurd (cc)
at_r-enters i m m' k' other (true, s, k) e = sym (ap (λ p. get_file_index (manager_of m p) other) e)

at_w-enters :
    (i t : ℕ) (m m' : FileManager) (k' : Kernel) (other : List ℕ) (r : Bool × Semaphore × Kernel)
    → at_w i t (r.0, set_w m i r.1, r.2) ≡ enters m' k'
    → get_file_index m' other ≡ get_file_index m other
unfolding get_file_index p_on_r
at_w-enters i t m m' k' other (false, s, k) e = absurd (cc)
at_w-enters i t m m' k' other (true, s, k) e =
    at_r-enters i (set_w m i s) m' k' other (p_turn t (m.semaphore_r i) k) e

-- If `DeleteAt` of a file gets through both of its P's, then `getFileIndex` gives afterwards, for
-- the deleted name and every other, what it gave before.
pub delete_at-found :
    (t : ℕ) (m m' : FileManager) (k k' : Kernel) (name other : List ℕ)
    → delete_at t m k name ≡ ok (enters m' k')
    → get_file_index m' other ≡ get_file_index m other
unfolding delete_at p_on_w
delete_at-found t m m' k k' name other e =
    let (i, found, now) = >>=-eq-ok (found_index m name) _ e in
    let (m1, entered, is) = delete_at_once-enters i m' k' name _ (ok_injective now) in
    rw is (
      finish_delete-found m1 i name other
      ∙ at_w-enters i t m m1 k' other (p_turn t (m.semaphore_w i) k) entered)

-- `n` reads, each of them a `RequestReadAt` followed by a `ReleaseReadAt`.
unfoldable pub reads : ℕ → FileManager → Kernel → List ℕ → Run (FileManager × Kernel)
reads zero m k name = ok (m, k)
reads (suc n) m k name = do
  m' ← request_read_at m name
  (m'', k') ← release_read_at m' k name
  reads n m'' k' name

found :
    (m : FileManager) (name : List ℕ) (i : ℕ)
    → get_file_index m name ≡ some i
    → found_index m name ≡ ok i
unfolding found_index
found m name i e = rw (e, found_index) refl
