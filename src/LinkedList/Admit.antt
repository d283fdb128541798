-- ===== src/LinkedList/Admit.antt =====
-- What `Append`, `Prepend` and `Insert` of lib/list.cc do first and last.
use nachos_system_design.Base.{ℕ, suc, ◌+◌, ◌≡◌, refl, true, false, none, some, arith, length}
use nachos_system_design.NodeHeap.{Ptr, null, Heap, element, put, done, assert_failed, new_element}
use nachos_system_design.LinkedList.{LinkedList, handle, is_empty, count_in, admit}
use nachos_system_design.LinkedList.Chain.{
  Cells, head_of, last_of, items, contains, IsChain, IsChain-put, uses_free, Keeps, handle_of,
  is_in_list-contains,
}

pub is_empty-suc : (p q : Ptr) (n : ℕ) → is_empty (handle p q (suc n)) ≡ false
unfolding is_empty
is_empty-suc p q n = ground arith

module _ (h : Heap) (xs : Cells) (fresh : Ptr) (v : ℕ) (free : h fresh ≡ none)
    (c : IsChain h xs) where
  admitted : IsChain (put h fresh (some (element v null))) xs
  admitted = IsChain-put h fresh (some (element v null)) xs (uses_free h fresh xs free c) c

  pub admit_new :
      contains v (items xs) ≡ false
      → admit (handle_of xs) fresh v h ≡ done tt (put h fresh (some (element v null)))
  unfolding admit new_element
  admit_new out =
      rw (is_in_list-contains (put h fresh (some (element v null))) xs v admitted, out) refl

  pub admit_again : contains v (items xs) ≡ true → admit (handle_of xs) fresh v h ≡ assert_failed
  unfolding admit new_element
  admit_again in_list =
      rw (is_in_list-contains (put h fresh (some (element v null))) xs v admitted, in_list) refl

pub count_in-contains :
    (h : Heap) (xs : Cells) (p q : Ptr) (n v : ℕ)
    → IsChain h xs
    → contains v (items xs) ≡ true
    → p ≡ head_of xs
    → q ≡ last_of null xs
    → n + 1 ≡ length xs
    → count_in (handle p q n) v h ≡ done (handle_of xs) h
unfolding count_in
count_in-contains h xs p q n v c in_list ep eq en =
    rw (ep, eq, en, is_in_list-contains h xs v c, in_list) refl

-- What `Append` and `Prepend` leave: the nodes `ys`, at most `fresh` newly in use.
abbrev pub Now : Ptr → Heap → Cells → LinkedList → Heap → Type 0
Now fresh h ys l g = (l ≡ handle_of ys) × IsChain g ys × Keeps fresh h g
