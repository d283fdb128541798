-- ===== src/LinkedList/Queue.antt =====
-- What `List` of lib/list.h promises: a sequence without repetition, without nodes or pointers.
-- A client is a sequence of calls; each carries the address that `new` returns if it allocates.
use nachos_system_design.Base.{
  ℕ, ◌≡◌, refl, sym, subst, ◌≢◌, inl, inr, Bool, Option, none, some, List, [], ◌∷◌, ◌++◌, arith,
  All, if◌then◌else◌, Bool-cases,
}
use nachos_system_design.NodeHeap.{
  Ptr, null, Heap, Outcome, Cmd, pure, ◌>>=◌, continue, put, done, assert_failed,
}
use nachos_system_design.LinkedList.{LinkedList, append, prepend, remove_front, remove, is_in_list}
use nachos_system_design.LinkedList.Chain.{
  Cells, items, contains, NoRepeat, NoRepeat-snoc, IsChain, Keeps, handle_of, is_in_list-contains,
  items-append,
}
use nachos_system_design.LinkedList.Ends.{
  append_new, append_again, prepend_new, prepend_again, remove_front_cons, remove_front_nil,
}
use nachos_system_design.LinkedList.Erase.{remove_held, remove_missing, without_first}
use nachos_system_design.LinkedList.Without.{erase, erase_cell, items-erase_cell, NoRepeat-erase}

pub data Call : Type 0 where
  call_append : ℕ → Call
  call_prepend : ℕ → Call
  call_remove_front : Call
  call_remove : ℕ → Call
  call_is_in_list : ℕ → Call

pub data Reply : Type 0 where
  void : Reply
  item : ℕ → Reply
  answer : Bool → Reply

-- A call of the class.
unfoldable pub perform : LinkedList → (fresh : Ptr) → Call → Cmd (Reply × LinkedList)
perform l fresh (call_append v) = do l' ← append l fresh v; pure (void, l')
perform l fresh (call_prepend v) = do l' ← prepend l fresh v; pure (void, l')
perform l fresh call_remove_front = do (v, l') ← remove_front l; pure (item v, l')
perform l fresh (call_remove v) = do l' ← remove l v; pure (void, l')
perform l fresh (call_is_in_list v) = do found ← is_in_list l v; pure (answer found, l)

-- The same call on the sequence. `none` is a failed ASSERT.
unfoldable pub expected : List ℕ → Call → Option (Reply × List ℕ)
expected xs (call_append v) = if contains v xs then none else some (void, xs ++ (v ∷ []))
expected xs (call_prepend v) = if contains v xs then none else some (void, v ∷ xs)
expected [] call_remove_front = none
expected (x ∷ xs) call_remove_front = some (item x, xs)
expected xs (call_remove v) = if contains v xs then some (void, erase v xs) else none
expected xs (call_is_in_list v) = some (answer (contains v xs), xs)

unfoldable pub perform_all : LinkedList → List (Ptr × Call) → Cmd (List Reply × LinkedList)
perform_all l [] = pure ([], l)
perform_all l ((fresh, call) ∷ calls) = do
  (reply, l') ← perform l fresh call
  (replies, l'') ← perform_all l' calls
  pure (reply ∷ replies, l'')

abbrev after :
    Option (Reply × List ℕ) → (List ℕ → Option (List Reply × List ℕ)) → Option (List Reply × List ℕ)
after none k = none
after (some (reply, ys)) k = elim (k ys) [
  | none ↦ none
  | some (replies, zs) ↦ some (reply ∷ replies, zs)
]

unfoldable pub expected_all : List ℕ → List (Ptr × Call) → Option (List Reply × List ℕ)
expected_all xs [] = some ([], xs)
expected_all xs ((fresh, call) ∷ calls) = after (expected xs call) λ ys. expected_all ys calls

-- The outcome of a call is the one expected, and the heap holds the sequence expected.
unfoldable pub Agrees :
    {A : Type 0} → Ptr → Heap → Outcome (A × LinkedList) → Option (A × List ℕ) → Type 0
Agrees fresh h m none = m ≡ assert_failed
Agrees fresh h m (some (a, ys)) =
    (xs : Cells) × (g : Heap) × (m ≡ done (a, handle_of xs) g)
    × (IsChain g xs × (items xs ≡ ys) × NoRepeat ys × Keeps fresh h g)

module _ (h : Heap) (xs : Cells) (c : IsChain h xs) (d : NoRepeat (items xs)) where
  append_refines :
      (fresh : Ptr) (v : ℕ)
      → fresh ≢ null
      → h fresh ≡ none
      → Agrees fresh h
          (perform (handle_of xs) fresh (call_append v) h)
          (expected (items xs) (call_append v))
  unfolding perform expected Agrees
  append_refines fresh v ne free = elim (Bool-cases (contains v (items xs))) [
    | inl held ↦ rw (append_again h xs fresh v free c held, held) refl
    | inr new ↦
        (let (l, g, runs, (now, chain, keeps)) = append_new h fresh v ne free xs c new in
          rw (runs, now, new)
            ((
              xs ++ ((fresh, v) ∷ []),
              g,
              refl,
              (chain, items-append xs ((fresh, v) ∷ []), NoRepeat-snoc v (items xs) new d, keeps),
            )))
  ]

  prepend_refines :
      (fresh : Ptr) (v : ℕ)
      → fresh ≢ null
      → h fresh ≡ none
      → Agrees fresh h
          (perform (handle_of xs) fresh (call_prepend v) h)
          (expected (items xs) (call_prepend v))
  unfolding perform expected Agrees NoRepeat
  prepend_refines fresh v ne free = elim (Bool-cases (contains v (items xs))) [
    | inl held ↦ rw (prepend_again h xs fresh v free c held, held) refl
    | inr new ↦
        (let (l, g, runs, (now, chain, keeps)) = prepend_new h fresh v ne free xs c new in
          rw (runs, now, new) (((fresh, v) ∷ xs, g, refl, (chain, refl, (new, d), keeps))))
  ]

  remove_refines :
      (fresh : Ptr) (v : ℕ)
      → Agrees fresh h
          (perform (handle_of xs) fresh (call_remove v) h)
          (expected (items xs) (call_remove v))
  unfolding perform expected Agrees
  remove_refines fresh v = elim (Bool-cases (contains v (items xs))) [
    | inr out ↦ rw (remove_missing h v xs out c, out) refl
    | inl held ↦
        (let (l, g, runs, (now, chain, keeps)) = remove_held h v xs held d c in
          rw (runs, now, held)
            ((
              erase_cell v xs,
              g,
              refl,
              (chain, items-erase_cell v xs, NoRepeat-erase v (items xs) d, λ a other. keeps a),
            )))
  ]

  is_in_list_refines :
      (fresh : Ptr) (v : ℕ)
      → Agrees fresh h
          (perform (handle_of xs) fresh (call_is_in_list v) h)
          (expected (items xs) (call_is_in_list v))
  unfolding perform expected Agrees
  is_in_list_refines fresh v =
      rw (is_in_list-contains h xs v c) ((xs, h, refl, (c, refl, d, λ a other free. free)))

NoRepeat-tail : (v : ℕ) (xs : List ℕ) → NoRepeat (v ∷ xs) → NoRepeat xs
unfolding NoRepeat
NoRepeat-tail v xs d = d.1

remove_front_refines :
    (h : Heap) (xs : Cells) (fresh : Ptr)
    → IsChain h xs
    → NoRepeat (items xs)
    → Agrees fresh h
        (perform (handle_of xs) fresh call_remove_front h)
        (expected (items xs) call_remove_front)
unfolding perform expected Agrees
remove_front_refines h [] fresh c d = rw (remove_front_nil h) refl
remove_front_refines h ((a, v) ∷ xs) fresh c d = rw (remove_front_cons h a v xs c) (
    (
      xs,
      put h a none,
      refl,
      (without_first h a v xs c, refl, NoRepeat-tail v (items xs) d, ground arith),
    ))

module _ (h : Heap) (xs : Cells) (fresh : Ptr) (ne : fresh ≢ null) (free : h fresh ≡ none) where
  pub perform_refines :
      (call : Call)
      → IsChain h xs
      → NoRepeat (items xs)
      → Agrees fresh h (perform (handle_of xs) fresh call h) (expected (items xs) call)
  perform_refines (call_append v) c d = append_refines h xs c d fresh v ne free
  perform_refines (call_prepend v) c d = prepend_refines h xs c d fresh v ne free
  perform_refines call_remove_front c d = remove_front_refines h xs fresh c d
  perform_refines (call_remove v) c d = remove_refines h xs c d fresh v
  perform_refines (call_is_in_list v) c d = is_in_list_refines h xs c d fresh v

-- The addresses that `new` returns are free, and all different.
unfoldable pub Supply : Heap → List (Ptr × Call) → Type 0
Supply h [] = Unit
Supply h ((p, call) ∷ calls) =
    (p ≢ null) × (h p ≡ none) × All (λ (q, other). q ≢ p) calls × Supply h calls

Supply-Keeps :
    (p : Ptr) (h g : Heap) (calls : List (Ptr × Call))
    → Keeps p h g
    → All (λ (q, other). q ≢ p) calls
    → Supply h calls
    → Supply g calls
unfolding Supply
Supply-Keeps p h g [] keeps apart s = tt
Supply-Keeps p h g ((q, call) ∷ calls) keeps (other, apart) (ne, free, all, s) =
    (ne, keeps q other free, all, Supply-Keeps p h g calls keeps apart s)

-- The outcome of a sequence of calls is the one expected.
unfoldable pub AgreesOnAll :
    Outcome (List Reply × LinkedList) → Option (List Reply × List ℕ) → Type 0
AgreesOnAll m none = m ≡ assert_failed
AgreesOnAll m (some (replies, ys)) =
    (xs : Cells) × (g : Heap) × (m ≡ done (replies, handle_of xs) g)
    × (IsChain g xs × (items xs ≡ ys) × NoRepeat ys)

-- One call and what follows it.
step-AgreesOnAll :
    (h : Heap) (p : Ptr) (m : Outcome (Reply × LinkedList)) (o : Option (Reply × List ℕ))
    (calls : List (Ptr × Call))
    → Agrees p h m o
    → ((g : Heap) (ys : Cells)
        → IsChain g ys
        → NoRepeat (items ys)
        → Keeps p h g
        → AgreesOnAll (perform_all (handle_of ys) calls g) (expected_all (items ys) calls))
    → AgreesOnAll
        (continue m
          λ (reply, l). perform_all l calls >>= λ (replies, l'). pure (reply ∷ replies, l'))
        (after o λ ys. expected_all ys calls)
unfolding Agrees AgreesOnAll
step-AgreesOnAll h p m none calls now later = rw now refl
step-AgreesOnAll h p m (some (reply, ys)) calls (xs, g, runs, (c, e, d, keeps)) later = rw runs (
    both (expected_all ys calls) (perform_all (handle_of xs) calls g) (
      subst (λ t. AgreesOnAll (perform_all (handle_of xs) calls g) (expected_all t calls)) e
        (later g xs c (subst (λ t. NoRepeat t) (sym e) d) keeps)))
  where
    both :
        (o : Option (List Reply × List ℕ)) (n : Outcome (List Reply × LinkedList))
        → AgreesOnAll n o
        → AgreesOnAll
            (continue n λ (replies, l'). pure (reply ∷ replies, l'))
            (elim o [ none ↦ none | some (replies, zs) ↦ some (reply ∷ replies, zs) ])
    both none n now = rw now refl
    both (some (replies, zs)) n (ws, k, ends, rest) = rw ends ((ws, k, refl, rest))

-- From a list that holds a sequence without repetition, given free and different addresses, any
-- sequence of `Append`, `Prepend`, `RemoveFront`, `Remove` and `IsInList` gives the replies that the
-- same calls give on the sequence and leaves a list that holds what they leave. It fails an ASSERT
-- exactly when they do, and it never follows a bad pointer and never runs out of the fuel given.
pub perform_all_refines :
    (calls : List (Ptr × Call)) (h : Heap) (xs : Cells)
    → IsChain h xs
    → NoRepeat (items xs)
    → Supply h calls
    → AgreesOnAll (perform_all (handle_of xs) calls h) (expected_all (items xs) calls)
unfolding perform_all expected_all AgreesOnAll Supply
perform_all_refines [] h xs c d s = (xs, h, refl, (c, refl, d))
perform_all_refines ((p, call) ∷ calls) h xs c d (ne, free, apart, s) =
    step-AgreesOnAll h p (perform (handle_of xs) p call h) (expected (items xs) call) calls
      (perform_refines h xs p ne free call c d)
      λ g ys c' d' keeps.
        perform_all_refines calls g ys c' d' (Supply-Keeps p h g calls keeps apart s)
