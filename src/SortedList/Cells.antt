-- ===== src/SortedList/Cells.antt =====
-- The nodes that `Insert` of lib/list.cc makes, and the branches that it shares with the other calls.
use nachos_system_design.Base.{
  ℕ, ◌+◌, ◌≡◌, refl, ap, ◌∙◌, inl, inr, true, false, [], ◌∷◌, ◌++◌, arith, length, if◌then◌else◌,
  ◌==◌, Bool-cases,
}
use nachos_system_design.NodeHeap.{
  Ptr, Heap, done, assert_failed, link_to, Outcome, pure, continue, no_fuel, fault, Cmd,
}
use nachos_system_design.LinkedList.{handle, link_last, link_first, is_empty}
use nachos_system_design.LinkedList.Chain.{Cells, last_of, items, uses, handle_of}
use nachos_system_design.LinkedList.Admit.{is_empty-suc}
use nachos_system_design.SortedList.{Sign, is_negative}
use nachos_system_design.SortedList.Order.{insert_sorted, has_place}

pub continue-pure :
    {A B C : Type 0} (m : Outcome A) (b : B) (k : B → Cmd C)
    → continue (continue m λ _. pure b) k ≡ continue m λ _. k b
continue-pure assert_failed b k = refl
continue-pure fault b k = refl
continue-pure no_fuel b k = refl
continue-pure (done a g) b k = refl

pub is_empty_nil : is_empty (handle_of []) ≡ true
unfolding is_empty
is_empty_nil = refl

module _ (h : Heap) where
  pub link_last_nil :
      (fresh : Ptr) → link_last (handle_of []) fresh h ≡ done (handle fresh fresh 0) h
  unfolding link_last is_empty
  link_last_nil fresh = refl

  pub link_last_cons :
      (a w : ℕ) (xs : Cells) (fresh : Ptr)
      → link_last (handle_of ((a, w) ∷ xs)) fresh h
        ≡ continue
            (link_to (last_of a xs) fresh h)
            λ _. pure (handle a fresh (length ((a, w) ∷ xs)))
  unfolding link_last
  link_last_cons a w xs fresh = rw (is_empty-suc a (last_of a xs) (length xs)) refl

  pub link_first_any :
      (a w : ℕ) (xs : Cells) (fresh : Ptr)
      → link_first (handle_of ((a, w) ∷ xs)) fresh h
        ≡ continue
            (link_to fresh a h)
            λ _. pure (handle fresh (last_of a xs) (length ((a, w) ∷ xs)))
  unfolding link_first
  link_first_any a w xs fresh = rw (is_empty-suc a (last_of a xs) (length xs)) refl

module _ (compare : ℕ → ℕ → Sign) (fresh : Ptr) (v : ℕ) where
  -- The nodes with the new one in front of the first whose item `v` is below.
  unfoldable pub insert_cell : Cells → Cells
  insert_cell [] = (fresh, v) ∷ []
  insert_cell ((a, w) ∷ xs) =
      if is_negative (compare v w) then (fresh, v) ∷ (a, w) ∷ xs else (a, w) ∷ insert_cell xs

  pub items-insert_cell : (xs : Cells) → items (insert_cell xs) ≡ insert_sorted compare v (items xs)
  unfolding insert_cell insert_sorted
  items-insert_cell [] = refl
  items-insert_cell ((a, w) ∷ xs) = ground (arith, items-insert_cell xs)

  pub insert_cell_miss :
      (a : Ptr) (w : ℕ) (xs : Cells)
      → is_negative (compare v w) ≡ false
      → insert_cell ((a, w) ∷ xs) ≡ (a, w) ∷ insert_cell xs
  unfolding insert_cell
  insert_cell_miss a w xs e = rw e refl

  pub insert_cell_hit :
      (a : Ptr) (w : ℕ) (xs : Cells)
      → is_negative (compare v w) ≡ true
      → insert_cell ((a, w) ∷ xs) ≡ (fresh, v) ∷ (a, w) ∷ xs
  unfolding insert_cell
  insert_cell_hit a w xs e = rw e refl

  pub insert_cell-append :
      (xs : Cells)
      → has_place compare v (items xs) ≡ false
      → insert_cell xs ≡ xs ++ ((fresh, v) ∷ [])
  unfolding insert_cell
  insert_cell-append [] out = refl
  insert_cell-append ((a, w) ∷ xs) out =
      insert_cell_miss a w xs (ground arith)
      ∙ ap (λ t. (a, w) ∷ t) (insert_cell-append xs (ground arith))

  pub length-insert_cell : (xs : Cells) → length (insert_cell xs) ≡ length xs + 1
  unfolding insert_cell
  length-insert_cell [] = omega arith
  length-insert_cell ((a, w) ∷ xs) = ground (arith, length-insert_cell xs)

  pub last_of-insert_cell :
      (p : Ptr) (xs : Cells)
      → has_place compare v (items xs) ≡ true
      → last_of p (insert_cell xs) ≡ last_of p xs
  unfolding insert_cell
  last_of-insert_cell p [] place = absurd (cc)
  last_of-insert_cell p ((a, w) ∷ xs) place = elim (Bool-cases (is_negative (compare v w))) [
    | inl e ↦ rw e refl
    | inr e ↦ rw e (last_of-insert_cell a xs (ground arith))
  ]

  pub uses-insert_cell :
      (b : Ptr) (xs : Cells)
      → (b == fresh) ≡ false
      → uses b xs ≡ false
      → uses b (insert_cell xs) ≡ false
  unfolding insert_cell
  uses-insert_cell b [] other out = ground arith
  uses-insert_cell b ((a, w) ∷ xs) other out = ground (arith, uses-insert_cell b xs)
