-- ===== src/LinkedList/Ends.antt =====
-- `Append`, `Prepend` and `RemoveFront` of lib/list.cc, on the nodes that a list represents.
use nachos_system_design.Base.{
  ℕ, suc, ◌-◌, ◌≡◌, refl, sym, subst, ◌≢◌, true, false, none, some, [], ◌∷◌, ◌++◌, arith, length,
  length-append, ◌==◌, ne→==, eq→==,
}
use nachos_system_design.NodeHeap.{
  Ptr, null, Heap, element, put, done, assert_failed, link_to-node, deref-node, delete-node,
}
use nachos_system_design.LinkedList.{
  handle, is_empty, link_last, link_first, append, prepend, remove_front,
}
use nachos_system_design.LinkedList.Chain.{
  Cells, IsChain-drop, IsChain-frame, head_of, last_of, items, uses, contains, IsChain, IsChain-put,
  IsChain-relink, uses_free, Ends, handle_of, last_of-append,
}
use nachos_system_design.LinkedList.Snoc.{
  uses-last, uses_prefix, snoc_cases, append_assoc, head_of-snoc, contains-last, last_of-other,
}
use nachos_system_design.LinkedList.Admit.{
  is_empty-suc, admit_new, admit_again, count_in-contains, Now,
}

module _ (h : Heap) (fresh : Ptr) (v : ℕ) (some_fresh : fresh ≢ null) (free : h fresh ≡ none) where
  abbrev with_new : Heap
  with_new = put h fresh (some (element v null))

  link_last-snoc :
      (ys : Cells) (a : Ptr) (w : ℕ)
      → IsChain h (ys ++ ((a, w) ∷ []))
      → link_last (handle_of (ys ++ ((a, w) ∷ []))) fresh with_new
        ≡ done
            (handle (head_of (ys ++ ((a, w) ∷ []))) fresh (length (ys ++ ((a, w) ∷ []))))
            (put with_new a (some (element w fresh)))
  unfolding link_last is_empty IsChain
  link_last-snoc ys a w c =
      let (ne, at, _, _) = IsChain-drop h ys ((a, w) ∷ []) c in
      let apart : uses fresh (ys ++ ((a, w) ∷ [])) ≡ false = uses_free h fresh _ free c in
      let other : (a == fresh) ≡ false = ground (arith, uses-last ys a w) in
      let at' : with_new a ≡ some (element w null) = rw other at in
      let size : (length (ys ++ ((a, w) ∷ [])) == 0) ≡ false =
        ground (arith, length-append ys ((a, w) ∷ [])) in
      rw (size, last_of-append null ys ((a, w) ∷ []), link_to-node a w null with_new ne at' fresh)
        refl

  new_only : IsChain with_new ((fresh, v) ∷ [])
  unfolding IsChain
  new_only = (some_fresh, ground arith, refl, tt)

  -- the chain with the new node linked behind its last one
  snoc-IsChain :
      (ys : Cells) (a : Ptr) (w : ℕ)
      → IsChain h (ys ++ ((a, w) ∷ []))
      → IsChain
          (put with_new a (some (element w fresh)))
          ((ys ++ ((a, w) ∷ [])) ++ ((fresh, v) ∷ []))
  snoc-IsChain ys a w c =
      let apart : uses fresh (ys ++ ((a, w) ∷ [])) ≡ false = uses_free h fresh _ free c in
      let other : (a == fresh) ≡ false = ground (arith, uses-last ys a w) in
      rw append_assoc (
        IsChain-relink with_new ys a w [] ((fresh, v) ∷ [])
          (IsChain-put h fresh (some (element v null)) (ys ++ ((a, w) ∷ [])) apart c) new_only
          (ground arith) (λ b i. ground (arith, uses_prefix fresh ys ((a, w) ∷ []))))

  append_snoc :
      (ys : Cells) (a : Ptr) (w : ℕ)
      → IsChain h (ys ++ ((a, w) ∷ []))
      → contains v (items (ys ++ ((a, w) ∷ []))) ≡ false
      → Ends
          (append (handle_of (ys ++ ((a, w) ∷ []))) fresh v h)
          (Now fresh h ((ys ++ ((a, w) ∷ [])) ++ ((fresh, v) ∷ [])))
  unfolding append
  append_snoc ys a w c out =
      let full : IsChain _ _ = snoc-IsChain ys a w c in
      (
        handle_of ((ys ++ ((a, w) ∷ [])) ++ ((fresh, v) ∷ [])),
        put with_new a (some (element w fresh)),
        rw (admit_new h (ys ++ ((a, w) ∷ [])) fresh v free c out, link_last-snoc ys a w c)
            (count_in-contains (put with_new a (some (element w fresh)))
              ((ys ++ ((a, w) ∷ [])) ++ ((fresh, v) ∷ [])) _ fresh _ v full
              (contains-last (ys ++ ((a, w) ∷ [])) fresh v)
              (sym (rw append_assoc (head_of-snoc ys (a, w) (fresh, v))))
              (sym (last_of-append null (ys ++ ((a, w) ∷ [])) ((fresh, v) ∷ [])))
              (sym (length-append (ys ++ ((a, w) ∷ [])) ((fresh, v) ∷ [])))),
        (
          refl,
          full,
          λ b other gone.
              ground (arith, uses-last ys a w, uses_free h b (ys ++ ((a, w) ∷ [])) gone c),
        ),
      )

  append_cons :
      (p : Ptr × ℕ) (xs : Cells)
      → IsChain h (p ∷ xs)
      → contains v (items (p ∷ xs)) ≡ false
      → Ends (append (handle_of (p ∷ xs)) fresh v h) (Now fresh h ((p ∷ xs) ++ ((fresh, v) ∷ [])))
  append_cons p xs =
      let (ys, a, w, e) = snoc_cases p xs in
      subst
        (λ t.
          IsChain h t
          → contains v (items t) ≡ false
          → Ends (append (handle_of t) fresh v h) (Now fresh h (t ++ ((fresh, v) ∷ []))))
        (sym e) (append_snoc ys a w)

  pub append_new :
      (xs : Cells)
      → IsChain h xs
      → contains v (items xs) ≡ false
      → Ends (append (handle_of xs) fresh v h) (Now fresh h (xs ++ ((fresh, v) ∷ [])))
  unfolding append link_last is_empty
  append_new (p ∷ xs) c out = append_cons p xs c out
  append_new [] c out = (
    handle fresh fresh 1,
    with_new,
    rw (admit_new h [] fresh v free c out) (
        count_in-contains with_new ((fresh, v) ∷ []) fresh fresh 0 v new_only (ground arith) refl
          refl refl),
    (refl, new_only, ground arith),
  )

  link_first_nil : link_first (handle_of []) fresh with_new ≡ done (handle fresh fresh 0) with_new
  unfolding link_first is_empty
  link_first_nil = refl

  link_first_cons :
      (a : Ptr) (w : ℕ) (xs : Cells)
      → link_first (handle_of ((a, w) ∷ xs)) fresh with_new
        ≡ done
            (handle fresh (last_of a xs) (length ((a, w) ∷ xs)))
            (put with_new fresh (some (element v a)))
  unfolding link_first
  link_first_cons a w xs =
      rw
        (
          is_empty-suc a (last_of a xs) (length xs),
          link_to-node fresh v null with_new some_fresh (ground arith) a,
        )
        refl

  pub prepend_new :
      (xs : Cells)
      → IsChain h xs
      → contains v (items xs) ≡ false
      → Ends (prepend (handle_of xs) fresh v h) (Now fresh h ((fresh, v) ∷ xs))
  unfolding prepend IsChain
  prepend_new [] c out = (
    handle fresh fresh 1,
    with_new,
    rw (admit_new h [] fresh v free c out, link_first_nil)
        (count_in-contains with_new ((fresh, v) ∷ []) fresh fresh 0 v new_only (ground arith) refl
          refl refl),
    (refl, new_only, ground arith),
  )
  prepend_new ((a, w) ∷ xs) c out =
      let apart : uses fresh ((a, w) ∷ xs) ≡ false = uses_free h fresh ((a, w) ∷ xs) free c in
      let g : Heap = put with_new fresh (some (element v a)) in
      let full : IsChain g ((fresh, v) ∷ (a, w) ∷ xs) = (
        some_fresh,
        ground arith,
        apart,
        IsChain-frame h g ((a, w) ∷ xs) (λ b i. ground arith) c,
      ) in
      (
        handle_of ((fresh, v) ∷ (a, w) ∷ xs),
        g,
        rw (admit_new h ((a, w) ∷ xs) fresh v free c out, link_first_cons a w xs)
            (count_in-contains g ((fresh, v) ∷ (a, w) ∷ xs) fresh _ _ v full (ground arith) refl
              refl (omega arith)),
        (refl, full, λ b other gone. ground arith),
      )

-- `Append` and `Prepend` fail their first ASSERT on a number that the list holds.
module _ (h : Heap) (xs : Cells) (fresh : Ptr) (v : ℕ) (free : h fresh ≡ none)
    (c : IsChain h xs) where
  pub append_again : contains v (items xs) ≡ true → append (handle_of xs) fresh v h ≡ assert_failed
  unfolding append
  append_again in_list = rw (admit_again h xs fresh v free c in_list) refl

  pub prepend_again :
      contains v (items xs) ≡ true → prepend (handle_of xs) fresh v h ≡ assert_failed
  unfolding prepend
  prepend_again in_list = rw (admit_again h xs fresh v free c in_list) refl

suc_less : (n : ℕ) → suc (suc n) - 1 ≡ suc n
suc_less n = omega arith

-- `RemoveFront` returns the first item, frees its node and leaves the others.
pub remove_front_cons :
    (h : Heap) (a : Ptr) (v : ℕ) (xs : Cells)
    → IsChain h ((a, v) ∷ xs)
    → remove_front (handle_of ((a, v) ∷ xs)) h ≡ done (v, handle_of xs) (put h a none)
unfolding remove_front IsChain
remove_front_cons h a v [] (ne, at, out, c) =
    rw
      (
        is_empty-suc a a 0,
        deref-node a v null h ne at,
        delete-node a v null h ne at,
        eq→== a a refl,
      )
      refl
remove_front_cons h a v ((b, w) ∷ xs) (ne, at, out, c) =
    let apart : (a == last_of b xs) ≡ false = ne→== a (last_of b xs) (last_of-other a b w xs out) in
    rw
      (
        is_empty-suc a (last_of b xs) (suc (length xs)),
        deref-node a v b h ne at,
        delete-node a v b h ne at,
        apart,
        suc_less (length xs),
      )
      refl

pub remove_front_nil : (h : Heap) → remove_front (handle_of []) h ≡ assert_failed
unfolding remove_front is_empty
remove_front_nil h = refl
