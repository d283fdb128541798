-- ===== src/LinkedList/Erase.antt =====
-- `Remove` of lib/list.cc, on the nodes that a list represents.
use nachos_system_design.Base.{
  ℕ, zero, suc, ◌+◌, ◌-◌, ◌<◌, ◌≡◌, refl, ap, ◌∙◌, inl, inr, Bool, true, false, none, some, [], ◌∷◌,
  arith, length, if◌then◌else◌, ◌==◌, ne→==, Bool-cases,
}
use nachos_system_design.NodeHeap.{
  Ptr, null, Heap, element, put, assert_failed, deref-node, link_to-node, delete-node,
}
use nachos_system_design.LinkedList.{
  LinkedList, handle, splice_out, remove_from, unlink, unlink_first, unlink_later, remove,
}
use nachos_system_design.LinkedList.Chain.{
  Cells, head_of, last_of, items, uses, contains, NoRepeat, IsChain, IsChain-put, IsChain-frame,
  Ends, handle_of, is_in_list-contains, first_node,
}
use nachos_system_design.LinkedList.Ends.{remove_front_cons}
use nachos_system_design.LinkedList.Without.{
  uses-erase_cell, length-erase_cell, erase_cell_miss, erase_cell_hit, erase_cell, erase_cell_miss,
  items-erase_cell, length-erase_cell, contains-erase, erase_cell_hit,
}

-- `g` differs from `h` at most at the nodes of `xs`, and no node of it has come into use.
abbrev Within : Cells → Heap → Heap → Type 0
Within xs h g = ((a : Ptr) → uses a xs ≡ false → g a ≡ h a) × ((a : Ptr) → h a ≡ none → g a ≡ none)

-- What the loop of `Remove` has done from `prev` on when it breaks.
abbrev Erased : LinkedList → ℕ → Ptr → ℕ → Cells → Heap → Bool × LinkedList → Heap → Type 0
Erased l v p u xs h (found, l') g =
    (found ≡ true)
    × (l' ≡ handle l.first (last_of p (erase_cell v xs)) (l.num_in_list - 1))
    × IsChain g ((p, u) ∷ erase_cell v xs)
    × Within ((p, u) ∷ xs) h g

splice_out-Erased :
    (h : Heap) (l : LinkedList) (v p u a w : ℕ) (xs : Cells)
    → (v == w) ≡ true
    → l.last ≡ last_of a xs
    → IsChain h ((p, u) ∷ (a, w) ∷ xs)
    → Ends (splice_out l p a (head_of xs) h) (Erased l v p u ((a, w) ∷ xs) h)
unfolding splice_out erase_cell IsChain
splice_out-Erased h l v p u a w xs hit end (ne, at, out, (ne', at', out', c)) =
    let g : Heap = put h p (some (element u (head_of xs))) in
    let there : g a ≡ some (element w (head_of xs)) = ground arith in
    (
      (true, handle l.first (if head_of xs == null then p else l.last) (l.num_in_list - 1)),
      put g a none,
      rw (link_to-node p u a h ne at (head_of xs), delete-node a w (head_of xs) g ne' there) refl,
      (
        refl,
        rw hit (ap (λ q. handle l.first q (l.num_in_list - 1)) (new_last xs end c)),
        rw hit (
          ne,
          ground arith,
          ground arith,
          IsChain-frame h (put g a none) xs (λ b i. ground arith) c,
        ),
        (λ b o. ground arith, λ b o. ground arith),
      ),
    )
  where
    new_last :
        (ys : Cells)
        → l.last ≡ last_of a ys
        → IsChain h ys
        → (if head_of ys == null then p else l.last) ≡ last_of p ys
    new_last [] e k = refl
    new_last ((b, t) ∷ ys) e (nb, at_b, out_b, k) = rw (ne→== b null nb) e

remove_from-Erased :
    (k : ℕ) (h : Heap) (l : LinkedList) (v p u : ℕ) (xs : Cells)
    → contains v (items xs) ≡ true
    → l.last ≡ last_of p xs
    → IsChain h ((p, u) ∷ xs)
    → length xs < k
    → Ends (remove_from k l p (head_of xs) v h) (Erased l v p u xs h)
unfolding remove_from IsChain
remove_from-Erased k h l v p u [] in_list end c fuel = absurd (cc)
remove_from-Erased zero h l v p u (x ∷ xs) in_list end c fuel = absurd (omega arith)
remove_from-Erased (suc k) h l v p u ((a, w) ∷ xs) in_list end (ne, at, out, (ne', at', out', c))
      fuel =
    rw (ne→== a null ne', deref-node a w (head_of xs) h ne' at')
      (elim (Bool-cases (v == w)) [
        | inl e ↦ rw e (splice_out-Erased h l v p u a w xs e end (ne, at, out, (ne', at', out', c)))
        | inr e ↦ rw e (
            further e (
              remove_from-Erased k h l v a w xs (ground arith) end (ne', at', out', c)
                (omega arith)))
      ])
  where
    further :
        (v == w) ≡ false
        → Ends (remove_from k l a (head_of xs) v h) (Erased l v a w xs h)
        → Ends (remove_from k l a (head_of xs) v h) (Erased l v p u ((a, w) ∷ xs) h)
    further miss ((found, l'), g, runs, (got, now, chain, (same, free))) = (
      (found, l'),
      g,
      runs,
      (
        got,
        rw (erase_cell_miss v a w xs miss) now,
        rw (erase_cell_miss v a w xs miss)
            (ne, same p (ground arith) ∙ at, ground (arith, uses-erase_cell p v xs), chain),
        (λ b o. same b (ground arith), free),
      ),
    )

-- What `Remove` leaves: the nodes `ys`, and no address newly in use.
abbrev pub Left : Heap → Cells → LinkedList → Heap → Type 0
Left h ys l g = (l ≡ handle_of ys) × IsChain g ys × ((a : Ptr) → h a ≡ none → g a ≡ none)

pub without_first :
    (h : Heap) (a : Ptr) (w : ℕ) (xs : Cells) → IsChain h ((a, w) ∷ xs) → IsChain (put h a none) xs
unfolding IsChain
without_first h a w xs (ne, at, out, c) = IsChain-put h a none xs out c

unlink_first-Left :
    (h : Heap) (v : ℕ) (a : Ptr) (w : ℕ) (xs : Cells)
    → (v == w) ≡ true
    → IsChain h ((a, w) ∷ xs)
    → Ends (unlink_first (handle_of ((a, w) ∷ xs)) v h) (Left h xs)
unfolding unlink_first
unlink_first-Left h v a w xs hit c = (
  handle_of xs,
  put h a none,
  rw (remove_front_cons h a w xs c, hit) refl,
  (refl, without_first h a w xs c, ground arith),
)

unlink_later-Left :
    (h : Heap) (v : ℕ) (a : Ptr) (w : ℕ) (xs : Cells)
    → contains v (items xs) ≡ true
    → IsChain h ((a, w) ∷ xs)
    → Ends
        (unlink_later (handle_of ((a, w) ∷ xs)) (head_of xs) v h)
        (Left h ((a, w) ∷ erase_cell v xs))
unfolding unlink_later
unlink_later-Left h v a w xs in_list c =
    let ((found, l'), g, runs, (got, now, chain, (same, free))) =
      remove_from-Erased (length ((a, w) ∷ xs) + 1) h (handle_of ((a, w) ∷ xs)) v a w xs in_list
        refl c (omega arith) in
    (
      l',
      g,
      rw (runs, got) refl,
      (
        now
            ∙ ap (handle a (last_of a (erase_cell v xs)))
                (omega (arith, length-erase_cell v xs in_list)),
        chain,
        free,
      ),
    )

pub unlink-Left :
    (h : Heap) (v : ℕ) (xs : Cells)
    → contains v (items xs) ≡ true
    → IsChain h xs
    → Ends (unlink (handle_of xs) v h) (Left h (erase_cell v xs))
unfolding unlink
unlink-Left h v [] in_list c = absurd (cc)
unlink-Left h v ((a, w) ∷ xs) in_list c = rw (first_node h a w xs c) (elim (Bool-cases (v == w)) [
  | inl e ↦ rw (e, erase_cell_hit v a w xs e) (unlink_first-Left h v a w xs e c)
  | inr e ↦ rw (e, erase_cell_miss v a w xs e) (unlink_later-Left h v a w xs (ground arith) c)
])

-- `Remove` unlinks and frees the node of an item that the list holds.
pub remove_held :
    (h : Heap) (v : ℕ) (xs : Cells)
    → contains v (items xs) ≡ true
    → NoRepeat (items xs)
    → IsChain h xs
    → Ends (remove (handle_of xs) v h) (Left h (erase_cell v xs))
unfolding remove
remove_held h v xs in_list d c =
    let (l, g, runs, (now, chain, free)) = unlink-Left h v xs in_list c in
    let gone : contains v (items (erase_cell v xs)) ≡ false =
      rw (items-erase_cell v xs) (contains-erase v (items xs) d) in
    (
      l,
      g,
      rw
          (
            is_in_list-contains h xs v c,
            in_list,
            runs,
            now,
            is_in_list-contains g (erase_cell v xs) v chain,
            gone,
          )
          refl,
      (now, chain, free),
    )

-- It fails its first ASSERT on another.
pub remove_missing :
    (h : Heap) (v : ℕ) (xs : Cells)
    → contains v (items xs) ≡ false
    → IsChain h xs
    → remove (handle_of xs) v h ≡ assert_failed
unfolding remove
remove_missing h v xs out c = rw (is_in_list-contains h xs v c, out) refl
