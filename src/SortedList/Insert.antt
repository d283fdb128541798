-- ===== src/SortedList/Insert.antt =====
-- `Insert` of lib/list.cc on the nodes that a list represents.
use nachos_system_design.Base.{
  ℕ, ◌+◌, ◌≡◌, refl, sym, ap, ◌∙◌, ◌≢◌, inl, inr, true, false, none, some, List, [], ◌∷◌, arith,
  length, ne→==, Bool-cases,
}
use mathlib.Core.List.{Perm}
use nachos_system_design.NodeHeap.{Ptr, null, Heap, element, put, assert_failed, link_to}
use nachos_system_design.LinkedList.{LinkedList, handle, append, prepend}
use nachos_system_design.LinkedList.Chain.{
  Cells, last_of, items, uses, contains, NoRepeat, IsChain, IsChain-put, uses_free, Ends, handle_of,
  first_node,
}
use nachos_system_design.LinkedList.Admit.{Now, admit_new, admit_again, is_empty-suc}
use nachos_system_design.LinkedList.Ends.{append_new, prepend_new}
use nachos_system_design.SortedList.{Sign, is_negative, is_positive, insert_behind, insert}
use nachos_system_design.SortedList.Order.{
  insert_sorted, has_place, sorted, insert_sorted-Perm, NoRepeat-insert_sorted, sorted-insert,
}
use nachos_system_design.SortedList.Cells.{
  insert_cell, items-insert_cell, insert_cell_miss, insert_cell_hit, insert_cell-append,
  length-insert_cell, last_of-insert_cell, continue-pure, is_empty_nil, link_last_nil,
  link_last_cons, link_first_any,
}
use nachos_system_design.SortedList.Loop.{insert_from_none, insert_from-Placed}

module _ (compare : ℕ → ℕ → Sign) (fresh : Ptr) (v : ℕ) where
  module _ (some_fresh : fresh ≢ null) (h : Heap) (free : h fresh ≡ none) where
    insert_behind-Now :
        (a w : ℕ) (xs : Cells)
        → IsChain h ((a, w) ∷ xs)
        → has_place compare v (items xs) ≡ true
        → Ends
            (insert_behind compare
              (handle_of ((a, w) ∷ xs))
              fresh
              v
              (put h fresh (some (element v null))))
            (Now fresh h ((a, w) ∷ insert_cell compare fresh v xs))
    unfolding insert_behind
    insert_behind-Now a w xs c place =
        let apart : uses fresh ((a, w) ∷ xs) ≡ false = uses_free h fresh ((a, w) ∷ xs) free c in
        let h1 : Heap = put h fresh (some (element v null)) in
        let c1 : IsChain h1 ((a, w) ∷ xs) =
          IsChain-put h fresh (some (element v null)) ((a, w) ∷ xs) apart c in
        let (inside, g, runs, (got, chain, same)) =
          insert_from-Placed compare fresh v some_fresh (length ((a, w) ∷ xs) + 1) h1 a w xs c1
            (ground arith) apart place (omega arith) in
        (
          handle a (last_of a xs) (length ((a, w) ∷ xs) + 1),
          g,
          rw (runs, got) refl,
          (
            rw (last_of-insert_cell compare fresh v a xs place) (
                ap (handle a (last_of a xs))
                  (omega (arith, length-insert_cell compare fresh v xs))),
            chain,
            λ b other gone.
                same b (ne→== b fresh other) (uses_free h b ((a, w) ∷ xs) gone c)
                ∙ (rw (ne→== b fresh other) gone),
          ),
        )

    -- Without an item that `v` is below, `Insert` does what `Append` does.
    insert-append :
        (xs : Cells)
        → IsChain h xs
        → has_place compare v (items xs) ≡ false
        → contains v (items xs) ≡ false
        → insert compare (handle_of xs) fresh v h ≡ append (handle_of xs) fresh v h
    unfolding insert append insert_behind
    insert-append [] c out new =
        rw
          (
            admit_new h [] fresh v free c new,
            link_last_nil (put h fresh (some (element v null))) fresh,
            is_empty_nil,
          )
          refl
    insert-append ((a, w) ∷ xs) c out new =
        let h1 : Heap = put h fresh (some (element v null)) in
        let c1 : IsChain h1 ((a, w) ∷ xs) =
          IsChain-put h fresh (some (element v null)) ((a, w) ∷ xs)
            (uses_free h fresh ((a, w) ∷ xs) free c) c in
        let above : is_negative (compare v w) ≡ false = ground arith in
        rw
          (
            admit_new h ((a, w) ∷ xs) fresh v free c new,
            is_empty-suc a (last_of a xs) (length xs),
            first_node h1 a w xs c1,
            above,
            insert_from_none compare fresh v (length ((a, w) ∷ xs) + 1) h1 a w xs c1 (ground arith)
                (omega arith),
            link_last_cons h1 a w xs fresh,
          )
          (sym (continue-pure (link_to (last_of a xs) fresh h1) _ _))

    -- With `v` below the first item, it does what `Prepend` does.
    insert-prepend :
        (a w : ℕ) (xs : Cells)
        → IsChain h ((a, w) ∷ xs)
        → is_negative (compare v w) ≡ true
        → contains v (items ((a, w) ∷ xs)) ≡ false
        → insert compare (handle_of ((a, w) ∷ xs)) fresh v h
          ≡ prepend (handle_of ((a, w) ∷ xs)) fresh v h
    unfolding insert prepend
    insert-prepend a w xs c below new =
        let h1 : Heap = put h fresh (some (element v null)) in
        let c1 : IsChain h1 ((a, w) ∷ xs) =
          IsChain-put h fresh (some (element v null)) ((a, w) ∷ xs)
            (uses_free h fresh ((a, w) ∷ xs) free c) c in
        rw
          (
            admit_new h ((a, w) ∷ xs) fresh v free c new,
            is_empty-suc a (last_of a xs) (length xs),
            first_node h1 a w xs c1,
            below,
            link_first_any h1 a w xs fresh,
          )
          (sym (continue-pure (link_to fresh a h1) _ _))

    insert_inside :
        (a w : ℕ) (xs : Cells)
        → IsChain h ((a, w) ∷ xs)
        → is_negative (compare v w) ≡ false
        → has_place compare v (items xs) ≡ true
        → contains v (items ((a, w) ∷ xs)) ≡ false
        → Ends
            (insert compare (handle_of ((a, w) ∷ xs)) fresh v h)
            (Now fresh h ((a, w) ∷ insert_cell compare fresh v xs))
    unfolding insert
    insert_inside a w xs c above place new =
        let h1 : Heap = put h fresh (some (element v null)) in
        let c1 : IsChain h1 ((a, w) ∷ xs) =
          IsChain-put h fresh (some (element v null)) ((a, w) ∷ xs)
            (uses_free h fresh ((a, w) ∷ xs) free c) c in
        rw
          (
            admit_new h ((a, w) ∷ xs) fresh v free c new,
            is_empty-suc a (last_of a xs) (length xs),
            first_node h1 a w xs c1,
            above,
          )
          (insert_behind-Now a w xs c place)

    -- `Insert` puts the new node in front of the first whose item `v` is below.
    pub insert_new :
        (xs : Cells)
        → IsChain h xs
        → contains v (items xs) ≡ false
        → Ends
            (insert compare (handle_of xs) fresh v h)
            (Now fresh h (insert_cell compare fresh v xs))
    insert_new [] c new =
        rw (insert-append [] c refl new, insert_cell-append compare fresh v [] refl)
          (append_new h fresh v some_fresh free [] c new)
    insert_new ((a, w) ∷ xs) c new = elim (Bool-cases (is_negative (compare v w))) [
      | inl e ↦
          rw (insert-prepend a w xs c e new, insert_cell_hit compare fresh v a w xs e)
            (prepend_new h fresh v some_fresh free ((a, w) ∷ xs) c new)
      | inr e ↦ elim (Bool-cases (has_place compare v (items xs))) [
        | inr out ↦
            let out' : has_place compare v (items ((a, w) ∷ xs)) ≡ false = ground arith in
            rw
              (
                insert-append ((a, w) ∷ xs) c out' new,
                insert_cell-append compare fresh v ((a, w) ∷ xs) out',
              )
              (append_new h fresh v some_fresh free ((a, w) ∷ xs) c new)
        | inl place ↦
            rw (insert_cell_miss compare fresh v a w xs e) (insert_inside a w xs c e place new)
      ]
    ]

-- `Insert` fails its first ASSERT on a number that the list holds.
pub insert_again :
    (compare : ℕ → ℕ → Sign) (h : Heap) (xs : Cells) (fresh : Ptr) (v : ℕ)
    → h fresh ≡ none
    → IsChain h xs
    → contains v (items xs) ≡ true
    → insert compare (handle_of xs) fresh v h ≡ assert_failed
unfolding insert
insert_again compare h xs fresh v free c held = rw (admit_again h xs fresh v free c held) refl

-- The list `l` in the heap `g` holds exactly `v` and the items of `xs`, each once and in order.
abbrev pub HoldsAlso : (ℕ → ℕ → Sign) → ℕ → List ℕ → LinkedList → Heap → Type 0
HoldsAlso compare v xs l g =
    (ys : Cells) × (l ≡ handle_of ys)
    × IsChain g ys
    × (sorted compare (items ys) ≡ true)
    × Perm (items ys) (v ∷ xs)
    × NoRepeat (items ys)

-- If `compare` never finds `y` above `x` when it does not find `x` below `y`, the list is in order
-- without repetition and without `v`, and `new` returns a free address, then `Insert` ends normally
-- and leaves a list in order of `v` and the items that were there, each once.
pub insert-HoldsAlso :
    (compare : ℕ → ℕ → Sign)
    → ((x y : ℕ) → is_negative (compare x y) ≡ false → is_positive (compare y x) ≡ false)
    → (h : Heap) (xs : Cells) (fresh : Ptr) (v : ℕ) → IsChain h xs
    → sorted compare (items xs) ≡ true
    → NoRepeat (items xs)
    → contains v (items xs) ≡ false
    → fresh ≢ null
    → h fresh ≡ none
    → Ends (insert compare (handle_of xs) fresh v h) (HoldsAlso compare v (items xs))
insert-HoldsAlso compare total h xs fresh v c s d new some_fresh free =
    let (l, g, runs, (now, chain, keeps)) = insert_new compare fresh v some_fresh h free xs c new in
    let e : items (insert_cell compare fresh v xs) ≡ insert_sorted compare v (items xs) =
      items-insert_cell compare fresh v xs in
    (
      l,
      g,
      runs,
      (
        insert_cell compare fresh v xs,
        now,
        chain,
        rw e (sorted-insert compare total v (items xs) s),
        rw e (insert_sorted-Perm compare v (items xs)),
        rw e (NoRepeat-insert_sorted compare v (items xs) new d),
      ),
    )
