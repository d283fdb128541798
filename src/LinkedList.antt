-- ===== src/LinkedList.antt =====
-- lib/list.cc and lib/list.h: the singly linked `List`. The handle is the object itself; its
-- elements are nodes of the heap. `new` returns the address `fresh`. A loop runs on fuel, one round
-- more than the elements count_in.
pub mod Admit
pub mod Chain
pub mod Ends
pub mod Erase
pub mod Queue
pub mod Snoc
pub mod Without
use nachos_system_design.Base.{
  List, [], ◌∷◌, ℕ, zero, suc, ◌+◌, ◌-◌, Bool, true, false, not, if◌then◌else◌, ◌==◌,
}
use nachos_system_design.NodeHeap.{
  Ptr, null, Cmd, pure, ◌>>=◌, ◌>>◌, require, deref, new_element, link_to, delete, no_fuel,
}

pub record LinkedList : Type 0 where
  pub first : Ptr
  pub last : Ptr
  pub num_in_list : ℕ

abbrev pub handle : Ptr → Ptr → ℕ → LinkedList
handle p q n = record { first = p; last = q; num_in_list = n }

abbrev pub new_list : LinkedList
new_list = handle null null 0

unfoldable pub is_empty : LinkedList → Bool
is_empty l = l.num_in_list == 0

abbrev pub rounds : LinkedList → ℕ
rounds l = l.num_in_list + 1

-- The loop of `IsInList`.
unfoldable pub search_from : ℕ → Ptr → ℕ → Cmd Bool
search_from zero ptr item = λ _. no_fuel
search_from (suc k) ptr item =
    if ptr == null
    then pure false
    else do n ← deref ptr; if item == n.item then pure true else search_from k n.next item

unfoldable pub is_in_list : LinkedList → ℕ → Cmd Bool
is_in_list l item = search_from (rounds l) l.first item

-- `Apply`: the items that the function is called on, in order.
unfoldable pub apply_from : ℕ → Ptr → Cmd (List ℕ)
apply_from zero ptr = λ _. no_fuel
apply_from (suc k) ptr =
    if ptr == null
    then pure []
    else do n ← deref ptr; rest ← apply_from k n.next; pure (n.item ∷ rest)

unfoldable pub apply : LinkedList → Cmd (List ℕ)
apply l = apply_from (rounds l) l.first

unfoldable pub front : LinkedList → Cmd ℕ
front l = do n ← deref l.first; pure n.item

-- The branch of `Append`: `element` becomes the only node, or the one after `last`.
unfoldable pub link_last : LinkedList → Ptr → Cmd LinkedList
link_last l fresh =
    if is_empty l
    then pure (handle fresh fresh l.num_in_list)
    else do link_to l.last fresh; pure (handle l.first fresh l.num_in_list)

-- The branch of `Prepend`.
unfoldable pub link_first : LinkedList → Ptr → Cmd LinkedList
link_first l fresh =
    if is_empty l
    then pure (handle fresh fresh l.num_in_list)
    else do link_to fresh l.first; pure (handle fresh l.last l.num_in_list)

-- What `Append`, `Prepend` and the end of `Insert` share: count, then check.
unfoldable pub count_in : LinkedList → ℕ → Cmd LinkedList
count_in l item = do
  let l' = record l { num_in_list = l.num_in_list + 1 }
  found ← is_in_list l' item
  require found
  pure l'

-- `element` is allocated before the first ASSERT.
unfoldable pub admit : LinkedList → (fresh : Ptr) → ℕ → Cmd (Unit {0})
admit l fresh item = do new_element fresh item; found ← is_in_list l item; require (not found)

unfoldable pub append : LinkedList → (fresh : Ptr) → ℕ → Cmd LinkedList
append l fresh item = do admit l fresh item; l' ← link_last l fresh; count_in l' item

unfoldable pub prepend : LinkedList → (fresh : Ptr) → ℕ → Cmd LinkedList
prepend l fresh item = do admit l fresh item; l' ← link_first l fresh; count_in l' item

unfoldable pub remove_front : LinkedList → Cmd (ℕ × LinkedList)
remove_front l = do
  require (not (is_empty l))
  n ← deref l.first
  let l' =
      if l.first == l.last
      then handle null null (l.num_in_list - 1)
      else handle n.next l.last (l.num_in_list - 1)
  delete l.first
  pure (n.item, l')

-- The body of the `if` in the loop of `Remove`: `prev` now leads to `next`.
unfoldable pub splice_out : LinkedList → (prev ptr next : Ptr) → Cmd (Bool × LinkedList)
splice_out l prev ptr next = do
  link_to prev next
  delete ptr
  pure (true, handle l.first (if next == null then prev else l.last) (l.num_in_list - 1))

-- The loop of `Remove`, which breaks at the node found. The flag is its `ptr != NULL` at the end.
unfoldable pub remove_from : ℕ → LinkedList → (prev ptr : Ptr) → ℕ → Cmd (Bool × LinkedList)
remove_from zero l prev ptr item = λ _. no_fuel
remove_from (suc k) l prev ptr item = if ptr == null then pure (false, l) else do
  n ← deref ptr
  if item == n.item then splice_out l prev ptr n.next else remove_from k l ptr n.next item

-- The two branches of `Remove`: the first element goes by `RemoveFront`, another by the loop.
unfoldable pub unlink_first : LinkedList → ℕ → Cmd LinkedList
unlink_first l item = do (removed, l') ← remove_front l; require (item == removed); pure l'

unfoldable pub unlink_later : LinkedList → Ptr → ℕ → Cmd LinkedList
unlink_later l next item = do
  (found, l') ← remove_from (rounds l) l l.first next item
  require found
  pure l'

unfoldable pub unlink : LinkedList → ℕ → Cmd LinkedList
unlink l item = do
  n ← deref l.first
  if item == n.item then unlink_first l item else unlink_later l n.next item

unfoldable pub remove : LinkedList → ℕ → Cmd LinkedList
remove l item = do
  found ← is_in_list l item
  require found
  l' ← unlink l item
  still ← is_in_list l' item
  require (not still)
  pure l'
