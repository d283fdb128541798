-- ===== src/SortedList.antt =====
-- lib/list.cc and lib/list.h: `Insert` of `SortedList`, and `SanityCheck` of both classes. The
-- function `compare` is the one that the constructor is given; only the sign of its value counts.
pub mod Cells
pub mod Insert
pub mod Loop
pub mod Order
pub mod Sanity
use nachos_system_design.Base.{
  ℕ, zero, suc, ◌+◌, Bool, true, false, not, ◌&&◌, if◌then◌else◌, ◌==◌, leb,
}
use nachos_system_design.NodeHeap.{
  Ptr, null, Cmd, pure, ◌>>=◌, ◌>>◌, require, deref, link_to, no_fuel,
}
use nachos_system_design.LinkedList.{LinkedList, handle, is_empty, rounds, count_in, admit}

-- The sign of an int.
pub data Sign : Type 0 where
  negative : Sign
  null_sign : Sign
  positive : Sign

abbrev pub is_negative : Sign → Bool
is_negative negative = true
is_negative null_sign = false
is_negative positive = false

abbrev pub is_positive : Sign → Bool
is_positive positive = true
is_positive null_sign = false
is_positive negative = false

-- `SanityCheck` of `List`: the loop that counts the elements up to `last`.
unfoldable pub count_to_last : ℕ → LinkedList → (ptr : Ptr) → ℕ → Cmd ℕ
count_to_last zero l ptr num_found = λ _. no_fuel
count_to_last (suc k) l ptr num_found = if ptr == l.last then pure num_found else do
  require (leb (num_found + 1) l.num_in_list)
  n ← deref ptr
  count_to_last k l n.next (num_found + 1)

unfoldable pub last_is_end : LinkedList → Cmd (Unit {0})
last_is_end l = do n ← deref l.last; require (n.next == null)

unfoldable pub sanity_check : LinkedList → Cmd (Unit {0})
sanity_check l =
    if l.first == null
    then require (is_empty l && (l.last == null))
    else if l.first == l.last
    then (do require (l.num_in_list == 1); last_is_end l)
    else do
      num_found ← count_to_last (rounds l) l l.first 1
      require (num_found == l.num_in_list)
      last_is_end l

module _ (compare : ℕ → ℕ → Sign) where
  -- The loop of `Insert`. True is the `return` inside it.
  unfoldable pub insert_from : ℕ → (fresh ptr : Ptr) → ℕ → Cmd Bool
  insert_from zero fresh ptr item = λ _. no_fuel
  insert_from (suc k) fresh ptr item = do
    n ← deref ptr
    if n.next == null then pure false else do
      m ← deref n.next
      if is_negative (compare item m.item)
          then (do link_to fresh n.next; link_to ptr fresh; pure true)
          else insert_from k fresh n.next item

  -- The last branch of `Insert`: inside the loop, or behind the last element.
  unfoldable pub insert_behind : LinkedList → (fresh : Ptr) → ℕ → Cmd LinkedList
  insert_behind l fresh item = do
    inside ← insert_from (rounds l) fresh l.first item
    if inside
        then pure (record l { num_in_list = l.num_in_list + 1 })
        else (do link_to l.last fresh; count_in (handle l.first fresh l.num_in_list) item)

  unfoldable pub insert : LinkedList → (fresh : Ptr) → ℕ → Cmd LinkedList
  insert l fresh item = do
    admit l fresh item
    if is_empty l then count_in (handle fresh fresh l.num_in_list) item else do
      n ← deref l.first
      if is_negative (compare item n.item)
          then (do link_to fresh l.first; count_in (handle fresh l.last l.num_in_list) item)
          else insert_behind l fresh item

  -- The loop of `SanityCheck` of `SortedList`.
  unfoldable pub ordered_from : ℕ → (prev ptr : Ptr) → Cmd (Unit {0})
  ordered_from zero prev ptr = λ _. no_fuel
  ordered_from (suc k) prev ptr = if ptr == null then pure tt else do
    p ← deref prev
    n ← deref ptr
    require (not (is_positive (compare p.item n.item)))
    ordered_from k ptr n.next

  unfoldable pub sorted_sanity_check : LinkedList → Cmd (Unit {0})
  sorted_sanity_check l = do
    sanity_check l
    if l.first == l.last
        then pure tt
        else do n ← deref l.first; ordered_from (rounds l) l.first n.next
