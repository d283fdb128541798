-- ===== src/SortedList/Loop.antt =====
-- The loop of `Insert` of lib/list.cc: where it stops, and what it links there.
use nachos_system_design.Base.{
  ℕ, zero, suc, ◌<◌, ◌≡◌, refl, ◌∙◌, ◌≢◌, inl, inr, Bool, true, false, some, [], ◌∷◌, arith, length,
  ◌==◌, ne→==, Bool-cases,
}
use nachos_system_design.NodeHeap.{
  Ptr, null, Heap, element, put, done, deref-node, link_to-node, link_to, Outcome, ◌>>◌, pure,
}
use nachos_system_design.LinkedList.Chain.{
  Cells, head_of, items, uses, IsChain, IsChain-frame, Ends,
}
use nachos_system_design.SortedList.{Sign, is_negative, insert_from}
use nachos_system_design.SortedList.Order.{has_place}
use nachos_system_design.SortedList.Cells.{
  insert_cell, insert_cell_miss, insert_cell_hit, uses-insert_cell,
}

module _ (compare : ℕ → ℕ → Sign) (fresh : Ptr) (v : ℕ) where
  pub insert_from_none :
      (k : ℕ) (h : Heap) (p u : ℕ) (xs : Cells)
      → IsChain h ((p, u) ∷ xs)
      → has_place compare v (items xs) ≡ false
      → length xs < k
      → insert_from compare k fresh p v h ≡ done false h
  unfolding insert_from IsChain
  insert_from_none zero h p u xs c out fuel = absurd (omega arith)
  insert_from_none (suc k) h p u [] (ne, at, _, c) out fuel = rw (deref-node p u null h ne at) refl
  insert_from_none (suc k) h p u ((a, w) ∷ xs) (ne, at, apart, (ne', at', apart', c)) out fuel =
      let below : is_negative (compare v w) ≡ false = ground arith in
      rw (deref-node p u a h ne at, ne→== a null ne', deref-node a w (head_of xs) h ne' at', below)
        (insert_from_none k h a w xs (ne', at', apart', c) (ground arith) (omega arith))

  -- What the loop of `Insert` has done from `ptr` on when it returns.
  abbrev pub Placed : Ptr → ℕ → Cells → Heap → Bool → Heap → Type 0
  Placed p u xs h inside g =
      (inside ≡ true)
      × IsChain g ((p, u) ∷ insert_cell compare fresh v xs)
      × ((b : Ptr) → (b == fresh) ≡ false → uses b ((p, u) ∷ xs) ≡ false → g b ≡ h b)

  module _ (some_fresh : fresh ≢ null) where
    -- Here the loop links the new node behind `p`.
    here :
        {h : Heap} {p u : ℕ} (ys : Cells)
        → p ≢ null
        → h p ≡ some (element u (head_of ys))
        → uses p ys ≡ false
        → IsChain h ys
        → h fresh ≡ some (element v null)
        → uses fresh ((p, u) ∷ ys) ≡ false
        → Ends ((link_to fresh (head_of ys) >> (link_to p fresh >> pure true)) h) (λ inside g.
          (inside ≡ true)
          × IsChain g ((p, u) ∷ (fresh, v) ∷ ys)
          × ((b : Ptr) → (b == fresh) ≡ false → uses b ((p, u) ∷ ys) ≡ false → g b ≡ h b))
    unfolding IsChain
    here {h} {p} {u} ys ne at out c new apart =
        let h1 : Heap = put h fresh (some (element v (head_of ys))) in
        let at1 : h1 p ≡ some (element u (head_of ys)) = ground arith in
        let g : Heap = put h1 p (some (element u fresh)) in
        let same : (b : Ptr) → uses b ys ≡ true → g b ≡ h b = λ b i. ground arith in
        (
          true,
          g,
          rw
              (
                link_to-node fresh v null h some_fresh new (head_of ys),
                link_to-node p u (head_of ys) h1 ne at1 fresh,
              )
              refl,
          (
            refl,
            (
              ne,
              ground arith,
              ground arith,
              (some_fresh, ground arith, ground arith, IsChain-frame h g ys same c),
            ),
            λ b other spared. ground arith,
          ),
        )

    -- What the rest of the loop does leaves `p` where it is.
    further :
        {h : Heap} {p u a : ℕ} (w : ℕ) (xs : Cells) {m : Outcome Bool}
        → p ≢ null
        → h p ≡ some (element u a)
        → uses p ((a, w) ∷ xs) ≡ false
        → uses fresh ((p, u) ∷ (a, w) ∷ xs) ≡ false
        → Ends m (Placed a w xs h)
        → Ends m (λ inside g.
          (inside ≡ true)
          × IsChain g ((p, u) ∷ (a, w) ∷ insert_cell compare fresh v xs)
          × ((b : Ptr) → (b == fresh) ≡ false → uses b ((p, u) ∷ (a, w) ∷ xs) ≡ false → g b ≡ h b))
    unfolding IsChain
    further {p} w xs ne at out apart (inside, g, runs, (got, chain, same)) =
        let other : (p == fresh) ≡ false = ground arith in
        (
          inside,
          g,
          runs,
          (
            got,
            (
              ne,
              same p other out ∙ at,
              ground (arith, uses-insert_cell compare fresh v p xs other),
              chain,
            ),
            λ b b_other spared. same b b_other (ground arith),
          ),
        )

    pub insert_from-Placed :
        (k : ℕ) (h : Heap) (p u : ℕ) (xs : Cells)
        → IsChain h ((p, u) ∷ xs)
        → h fresh ≡ some (element v null)
        → uses fresh ((p, u) ∷ xs) ≡ false
        → has_place compare v (items xs) ≡ true
        → length xs < k
        → Ends (insert_from compare k fresh p v h) (Placed p u xs h)
    unfolding insert_from IsChain
    insert_from-Placed k h p u [] c new apart place fuel = absurd (cc)
    insert_from-Placed zero h p u (x ∷ xs) c new apart place fuel = absurd (omega arith)
    insert_from-Placed (suc k) h p u ((a, w) ∷ xs) (ne, at, out, (ne', at', out', c)) new apart
          place fuel =
        rw (deref-node p u a h ne at, ne→== a null ne', deref-node a w (head_of xs) h ne' at')
          (elim (Bool-cases (is_negative (compare v w))) [
            | inl e ↦
                rw (e, insert_cell_hit compare fresh v a w xs e)
                  (here ((a, w) ∷ xs) ne at out (ne', at', out', c) new apart)
            | inr e ↦
                rw (e, insert_cell_miss compare fresh v a w xs e)
                  (further w xs ne at out apart (
                    insert_from-Placed k h a w xs (ne', at', out', c) new (ground arith)
                      (ground arith) (omega arith)))
          ])
