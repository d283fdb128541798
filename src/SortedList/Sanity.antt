-- ===== src/SortedList/Sanity.antt =====
-- `SanityCheck` of lib/list.cc: what it accepts, and that its loop ends on any heap.
use nachos_system_design.Base.{
  ℕ, zero, suc, ◌+◌, ◌<◌, ◌≡◌, refl, sym, ap, subst, ◌≢◌, inl, inr, Bool, true, false, some, [],
  ◌∷◌, arith, length, if◌then◌else◌, ◌==◌, leb, ne→==, eq→==, Bool-cases,
}
use nachos_system_design.NodeHeap.{
  null, Heap, element, Outcome, done, assert_failed, no_fuel, fault, deref-node,
}
use nachos_system_design.LinkedList.{LinkedList, is_empty}
use nachos_system_design.LinkedList.Chain.{
  Cells, head_of, last_of, items, IsChain, handle_of, first_node,
}
use nachos_system_design.LinkedList.Snoc.{last_of-other}
use nachos_system_design.SortedList.{
  Sign, is_positive, count_to_last, last_is_end, sanity_check, ordered_from, sorted_sanity_check,
}
use nachos_system_design.SortedList.Order.{sorted_behind, sorted}

-- Did the command end within its fuel?
abbrev pub terminates : {A : Type 0} → Outcome A → Bool
terminates assert_failed = true
terminates fault = true
terminates no_fuel = false
terminates (done a h) = true

pub count_to_last-chain :
    (k : ℕ) (h : Heap) (l : LinkedList) (p u n : ℕ) (xs : Cells)
    → IsChain h ((p, u) ∷ xs)
    → l.last ≡ last_of p xs
    → n + length xs ≡ l.num_in_list
    → length xs < k
    → count_to_last k l p n h ≡ done l.num_in_list h
unfolding count_to_last IsChain
count_to_last-chain zero h l p u n xs c end size fuel = absurd (omega arith)
count_to_last-chain (suc k) h l p u n [] c end size fuel =
    rw (eq→== p l.last (sym end)) (ap (λ m. done m h) (omega arith))
count_to_last-chain (suc k) h l p u n ((a, w) ∷ xs) (ne, at, out, c) end size fuel =
    let far : (p == l.last) ≡ false =
      ne→== p l.last (subst (λ q. p ≢ q) (sym end) (last_of-other p a w xs out)) in
    let count_in : leb (n + 1) l.num_in_list ≡ true = ground arith in
    rw (far, count_in, deref-node p u a h ne at)
      (count_to_last-chain k h l a w (n + 1) xs c end (omega arith) (omega arith))

last_node :
    (h : Heap) (p u : ℕ) (xs : Cells)
    → IsChain h ((p, u) ∷ xs)
    → (w : ℕ) × (last_of p xs ≢ null) × (h (last_of p xs) ≡ some (element w null))
unfolding IsChain
last_node h p u [] (ne, at, out, c) = (u, ne, at)
last_node h p u ((a, w) ∷ xs) (ne, at, out, c) = last_node h a w xs c

last_is_end-chain :
    (h : Heap) (p u : ℕ) (xs : Cells)
    → IsChain h ((p, u) ∷ xs)
    → last_is_end (handle_of ((p, u) ∷ xs)) h ≡ done tt h
unfolding last_is_end
last_is_end-chain h p u xs c =
    let (w, ne, at) = last_node h p u xs c in rw (deref-node (last_of p xs) w null h ne at) refl

first_set : (h : Heap) (p u : ℕ) (xs : Cells) → IsChain h ((p, u) ∷ xs) → (p == null) ≡ false
unfolding IsChain
first_set h p u xs (ne, at, out, c) = ne→== p null ne

first_not_last :
    (h : Heap) (p u a w : ℕ) (xs : Cells)
    → IsChain h ((p, u) ∷ (a, w) ∷ xs)
    → (p == last_of a xs) ≡ false
unfolding IsChain
first_not_last h p u a w xs (ne, at, out, c) = ne→== p (last_of a xs) (last_of-other p a w xs out)

pub sanity_check-chain :
    (h : Heap) (xs : Cells) → IsChain h xs → sanity_check (handle_of xs) h ≡ done tt h
unfolding sanity_check is_empty
sanity_check-chain h [] c = refl
sanity_check-chain h ((p, u) ∷ []) c =
    rw (first_set h p u [] c, eq→== p p refl, last_is_end-chain h p u [] c) refl
sanity_check-chain h ((p, u) ∷ (a, w) ∷ xs) c =
    rw
      (
        first_set h p u ((a, w) ∷ xs) c,
        first_not_last h p u a w xs c,
        count_to_last-chain (length ((p, u) ∷ (a, w) ∷ xs) + 1) h (handle_of ((p, u) ∷ (a, w) ∷ xs))
            p u 1 ((a, w) ∷ xs) c refl (omega arith) (omega arith),
        eq→== (length ((p, u) ∷ (a, w) ∷ xs)) _ refl,
        last_is_end-chain h p u ((a, w) ∷ xs) c,
      )
      refl

module _ (compare : ℕ → ℕ → Sign) where
  ordered_from-sorted :
      (k : ℕ) (h : Heap) (p u : ℕ) (xs : Cells)
      → IsChain h ((p, u) ∷ xs)
      → length xs < k
      → ordered_from compare k p (head_of xs) h
        ≡ (if sorted_behind compare u (items xs) then done tt h else assert_failed)
  unfolding ordered_from sorted_behind IsChain
  ordered_from-sorted zero h p u xs c fuel = absurd (omega arith)
  ordered_from-sorted (suc k) h p u [] c fuel = refl
  ordered_from-sorted (suc k) h p u ((a, w) ∷ xs) (ne, at, out, (ne', at', out', c)) fuel =
      rw (ne→== a null ne', deref-node p u a h ne at, deref-node a w (head_of xs) h ne' at')
        (elim (Bool-cases (is_positive (compare u w))) [
          | inl e ↦ rw e refl
          | inr e ↦ rw e (ordered_from-sorted k h a w xs (ne', at', out', c) (omega arith))
        ])

  nothing_behind :
      {h : Heap} (u : ℕ)
      → done tt h ≡ (if sorted_behind compare u [] then done tt h else assert_failed)
  unfolding sorted_behind
  nothing_behind u = refl

  -- On a list that holds the nodes `xs`, `SanityCheck` of `SortedList` fails an ASSERT exactly when
  -- some item compares above the one behind it, and otherwise changes nothing.
  pub sorted_sanity_check-sorted :
      (h : Heap) (xs : Cells)
      → IsChain h xs
      → sorted_sanity_check compare (handle_of xs) h
        ≡ (if sorted compare (items xs) then done tt h else assert_failed)
  unfolding sorted_sanity_check sorted
  sorted_sanity_check-sorted h [] c = rw (sanity_check-chain h [] c) refl
  sorted_sanity_check-sorted h ((p, u) ∷ []) c =
      rw (sanity_check-chain h ((p, u) ∷ []) c, eq→== p p refl) (nothing_behind u)
  sorted_sanity_check-sorted h ((p, u) ∷ (a, w) ∷ xs) c =
      rw
        (
          sanity_check-chain h ((p, u) ∷ (a, w) ∷ xs) c,
          first_not_last h p u a w xs c,
          first_node h p u ((a, w) ∷ xs) c,
        )
        (ordered_from-sorted _ h p u ((a, w) ∷ xs) c (omega arith))
