-- ===== src/Tests/Lists.antt =====
-- lib/list.cc with a list of two numbers.
use nachos_system_design.Base.{
  ℕ, ◌≡◌, refl, true, false, none, some, List, [], ◌∷◌, arith, if◌then◌else◌, ◌==◌, ltb,
}
use nachos_system_design.NodeHeap.{Ptr, Heap, null, element, put, Outcome, done, assert_failed}
use nachos_system_design.LinkedList.{LinkedList, handle, new_list}
use nachos_system_design.LinkedList.Chain.{Cells, IsChain, NoRepeat, Ends, handle_of, items}
use nachos_system_design.LinkedList.Queue.{
  Call, call_append, call_prepend, call_remove_front, call_remove, call_is_in_list, Reply, item,
  void, answer, perform_all, expected_all, Supply, AgreesOnAll, perform_all_refines,
}
use nachos_system_design.SortedList.{
  Sign, negative, null_sign, positive, is_negative, is_positive, insert, sanity_check,
  sorted_sanity_check,
}
use nachos_system_design.SortedList.Insert.{HoldsAlso, insert-HoldsAlso}
use nachos_system_design.SortedList.Order.{sorted}
use nachos_system_design.SortedList.Sanity.{sorted_sanity_check-sorted}

abbrev two_numbers : Cells
two_numbers = (1, 10) ∷ (2, 30) ∷ []

abbrev memory : Heap
memory = put (put (λ _. none) 1 (some (element 10 2))) 2 (some (element 30 null))

two_numbers-IsChain : IsChain memory two_numbers
unfolding IsChain
two_numbers-IsChain = (omega arith, refl, refl, (omega arith, refl, refl, tt))

two_numbers-NoRepeat : NoRepeat (items two_numbers)
unfolding NoRepeat
two_numbers-NoRepeat = (refl, (refl, tt))

-- `compare` on ints that are not negative
abbrev by_value : ℕ → ℕ → Sign
by_value x y = if ltb x y then negative else if x == y then null_sign else positive

by_value_total : (x y : ℕ) → is_negative (by_value x y) ≡ false → is_positive (by_value y x) ≡ false
by_value_total x y e = ground arith

two_numbers-sorted : sorted by_value (items two_numbers) ≡ true
unfolding sorted nachos_system_design.SortedList.Order.sorted_behind
two_numbers-sorted = refl

abbrev calls : List (Ptr × Call)
calls =
    (3, call_append 20) ∷ (4, call_remove_front) ∷ (5, call_prepend 7) ∷ (6, call_remove 30) ∷ []

calls-Supply : Supply memory calls
unfolding Supply
calls-Supply = (
  omega arith,
  refl,
  (omega arith, (omega arith, (omega arith, tt))),
  (
    omega arith,
    refl,
    (omega arith, (omega arith, tt)),
    (omega arith, refl, (omega arith, tt), (omega arith, refl, tt, tt)),
  ),
)

calls_expected :
    expected_all (10 ∷ 30 ∷ []) calls ≡ some (void ∷ item 10 ∷ void ∷ void ∷ [], 7 ∷ 20 ∷ [])
unfolding expected_all nachos_system_design.LinkedList.Queue.expected
    nachos_system_design.LinkedList.Without.erase
calls_expected = refl

perform_all_refines_example :
    AgreesOnAll
      (perform_all (handle_of two_numbers) calls memory)
      (expected_all (10 ∷ 30 ∷ []) calls)
perform_all_refines_example =
    perform_all_refines calls memory two_numbers two_numbers-IsChain two_numbers-NoRepeat
      calls-Supply

insert-HoldsAlso_example :
    Ends
      (insert by_value (handle_of two_numbers) 3 20 memory)
      (HoldsAlso by_value 20 (10 ∷ 30 ∷ []))
insert-HoldsAlso_example =
    insert-HoldsAlso by_value by_value_total memory two_numbers 3 20 two_numbers-IsChain
      two_numbers-sorted two_numbers-NoRepeat refl (omega arith) refl

-- A circle of two nodes: the loop of the check passes `numInList`.
abbrev circle : Heap
circle = put memory 2 (some (element 30 1))

circle_fails : sanity_check (handle 1 9 2) circle ≡ assert_failed
unfolding sanity_check nachos_system_design.SortedList.count_to_last
    nachos_system_design.NodeHeap.deref
circle_fails = refl

sorted_sanity_check-sorted_example :
    sorted_sanity_check by_value (handle_of two_numbers) memory
    ≡ (if sorted by_value (10 ∷ 30 ∷ []) then done tt memory else assert_failed)
sorted_sanity_check-sorted_example =
    sorted_sanity_check-sorted by_value memory two_numbers two_numbers-IsChain
