-- ===== src/LinkedList/Chain.antt =====
-- What a heap and a handle of lib/list.h represent: the nodes in order, with their items.
use nachos_system_design.Base.{
  ℕ, zero, suc, ◌+◌, ◌<◌, ◌≡◌, refl, ap, ◌∙◌, ◌≢◌, inl, inr, Bool, true, false, ◌||◌, none, some,
  List, [], ◌∷◌, ◌++◌, arith, length, ◌==◌, ne→==, Bool-cases,
}
use nachos_system_design.NodeHeap.{Ptr, null, Heap, element, put, Outcome, done, deref, deref-node}
use nachos_system_design.LinkedList.{LinkedList, handle, apply_from, apply, search_from, is_in_list}

abbrev pub Cells : Type 0
Cells = List (Ptr × ℕ)

abbrev pub head_of : Cells → Ptr
head_of [] = null
head_of ((a, v) ∷ xs) = a

-- the address of the last of `xs`, `p` if there is none
abbrev pub last_of : Ptr → Cells → Ptr
last_of p [] = p
last_of p ((a, v) ∷ xs) = last_of a xs

abbrev pub items : Cells → List ℕ
items [] = []
items ((a, v) ∷ xs) = v ∷ items xs

-- Does a node of `xs` stand at the address `a`?
abbrev pub uses : Ptr → Cells → Bool
uses a [] = false
uses a ((p, v) ∷ xs) = (a == p) || uses a xs

-- Is the number on the list?
abbrev pub contains : ℕ → List ℕ → Bool
contains x [] = false
contains x (y ∷ ys) = (x == y) || contains x ys

-- The nodes of `xs` lead from one to the next and to NULL, and stand at different addresses.
unfoldable pub IsChain : Heap → Cells → Type 0
IsChain h [] = Unit
IsChain h ((a, v) ∷ xs) =
    (a ≢ null) × (h a ≡ some (element v (head_of xs))) × (uses a xs ≡ false) × IsChain h xs

module _ where
  pub uses-append : (a : Ptr) (xs ys : Cells) → uses a (xs ++ ys) ≡ (uses a xs || uses a ys)
  uses-append a [] ys = refl
  uses-append a ((p, v) ∷ xs) ys = ground (arith, uses-append a xs ys)

  pub items-append : (xs ys : Cells) → items (xs ++ ys) ≡ items xs ++ items ys
  items-append [] ys = refl
  items-append ((p, v) ∷ xs) ys = ap (λ t. v ∷ t) (items-append xs ys)

  pub last_of-append : (p : Ptr) (xs ys : Cells) → last_of p (xs ++ ys) ≡ last_of (last_of p xs) ys
  last_of-append p [] ys = refl
  last_of-append p ((a, v) ∷ xs) ys = last_of-append a xs ys

  pub length-items : (xs : Cells) → length (items xs) ≡ length xs
  length-items [] = refl
  length-items (x ∷ xs) = ap suc (length-items xs)

  head_of-append :
      (xs ys zs : Cells) → head_of ys ≡ head_of zs → head_of (xs ++ ys) ≡ head_of (xs ++ zs)
  head_of-append [] ys zs e = e
  head_of-append (x ∷ xs) ys zs e = refl

-- A chain survives a change that spares its nodes.
pub IsChain-frame :
    (h g : Heap) (xs : Cells)
    → ((a : Ptr) → uses a xs ≡ true → g a ≡ h a)
    → IsChain h xs
    → IsChain g xs
unfolding IsChain
IsChain-frame h g [] same c = tt
IsChain-frame h g ((a, v) ∷ xs) same (ne, at, out, c) =
    (ne, same a (ground arith) ∙ at, out, IsChain-frame h g xs (λ b i. same b (ground arith)) c)

pub IsChain-put :
    (h : Heap) (p : Ptr) (c : _) (xs : Cells)
    → uses p xs ≡ false
    → IsChain h xs
    → IsChain (put h p c) xs
IsChain-put h p c xs out = IsChain-frame h (put h p c) xs λ a i. ground arith

-- The end of a chain is one.
pub IsChain-drop : (h : Heap) (xs ys : Cells) → IsChain h (xs ++ ys) → IsChain h ys
unfolding IsChain
IsChain-drop h [] ys c = c
IsChain-drop h ((a, v) ∷ xs) ys (ne, at, out, c) = IsChain-drop h xs ys c

-- Rewriting the `next` of one node turns the chain into the part before it and a new end.
pub IsChain-relink :
    (h : Heap) (xs : Cells) (a : Ptr) (v : ℕ) (ys zs : Cells)
    → IsChain h (xs ++ ((a, v) ∷ ys))
    → IsChain h zs
    → uses a zs ≡ false
    → ((b : Ptr) → uses b xs ≡ true → uses b zs ≡ false)
    → IsChain (put h a (some (element v (head_of zs)))) (xs ++ ((a, v) ∷ zs))
unfolding IsChain
IsChain-relink h [] a v ys zs (ne, at, out, c) d new apart =
    (ne, ground arith, new, IsChain-put h a _ zs new d)
IsChain-relink h ((b, w) ∷ xs) a v ys zs (ne, at, out, c) d new apart =
    let before : uses b (xs ++ ((a, v) ∷ ys)) ≡ false = out in
    let clear : uses b zs ≡ false = apart b (ground arith) in
    (
      ne,
      ground (arith, uses-append b xs ((a, v) ∷ ys))
          ∙ at
          ∙ ap (λ q. some (element w q)) (head_of-append xs ((a, v) ∷ ys) ((a, v) ∷ zs) refl),
      ground (arith, uses-append b xs ((a, v) ∷ ys), uses-append b xs ((a, v) ∷ zs)),
      IsChain-relink h xs a v ys zs c d new (λ e i. apart e (ground arith)),
    )

-- No number occurs twice.
unfoldable pub NoRepeat : List ℕ → Type 0
NoRepeat [] = Unit
NoRepeat (x ∷ xs) = (contains x xs ≡ false) × NoRepeat xs

pub contains-append :
    (x : ℕ) (xs ys : List ℕ) → contains x (xs ++ ys) ≡ (contains x xs || contains x ys)
contains-append x [] ys = refl
contains-append x (y ∷ xs) ys = ground (arith, contains-append x xs ys)

pub NoRepeat-snoc :
    (x : ℕ) (xs : List ℕ) → contains x xs ≡ false → NoRepeat xs → NoRepeat (xs ++ (x ∷ []))
unfolding NoRepeat
NoRepeat-snoc x [] out d = (refl, tt)
NoRepeat-snoc x (y ∷ xs) out (new, d) =
    (ground (arith, contains-append y xs (x ∷ [])), NoRepeat-snoc x xs (ground arith) d)

-- A free address is not a node of the chain.
pub uses_free : (h : Heap) (a : Ptr) (xs : Cells) → h a ≡ none → IsChain h xs → uses a xs ≡ false
unfolding IsChain
uses_free h a [] free c = refl
uses_free h a ((p, v) ∷ xs) free (ne, at, out, c) = ground (arith, uses_free h a xs)

-- How a command ends normally: a value and a heap that satisfy `Q`.
abbrev pub Ends : {A : Type 0} → Outcome A → (A → Heap → Type 0) → Type 0
Ends {A} m Q = (a : A) × (g : Heap) × (m ≡ done a g) × Q a g

-- Only `fresh` may have come into use.
abbrev pub Keeps : Ptr → Heap → Heap → Type 0
Keeps fresh h g = (a : Ptr) → a ≢ fresh → h a ≡ none → g a ≡ none

-- The object that stands for the nodes `xs`.
abbrev pub handle_of : Cells → LinkedList
handle_of xs = handle (head_of xs) (last_of null xs) (length xs)

pub search_from-contains :
    (k : ℕ) (h : Heap) (xs : Cells) (v : ℕ)
    → IsChain h xs
    → length xs < k
    → search_from k (head_of xs) v h ≡ done (contains v (items xs)) h
unfolding search_from IsChain
search_from-contains zero h xs v c fuel = absurd (omega arith)
search_from-contains (suc k) h [] v c fuel = refl
search_from-contains (suc k) h ((a, w) ∷ xs) v (ne, at, out, c) fuel =
    rw (ne→== a null ne, deref-node a w (head_of xs) h ne at)
      (elim (Bool-cases (v == w)) [
        | inl e ↦ rw e refl
        | inr e ↦ rw e (search_from-contains k h xs v c (omega arith))
      ])

pub is_in_list-contains :
    (h : Heap) (xs : Cells) (v : ℕ)
    → IsChain h xs
    → is_in_list (handle_of xs) v h ≡ done (contains v (items xs)) h
unfolding is_in_list
is_in_list-contains h xs v c = search_from-contains (length xs + 1) h xs v c (omega arith)

pub first_node :
    (h : Heap) (a : Ptr) (w : ℕ) (xs : Cells)
    → IsChain h ((a, w) ∷ xs)
    → deref a h ≡ done (element w (head_of xs)) h
unfolding IsChain
first_node h a w xs (ne, at, out, c) = deref-node a w (head_of xs) h ne at

apply_from-items :
    (k : ℕ) (h : Heap) (xs : Cells)
    → IsChain h xs
    → length xs < k
    → apply_from k (head_of xs) h ≡ done (items xs) h
unfolding apply_from IsChain
apply_from-items zero h xs c fuel = absurd (omega arith)
apply_from-items (suc k) h [] c fuel = refl
apply_from-items (suc k) h ((a, w) ∷ xs) (ne, at, out, c) fuel =
    rw
      (
        ne→== a null ne,
        deref-node a w (head_of xs) h ne at,
        apply_from-items k h xs c (omega arith),
      )
      refl

-- `Apply` reaches every item once, in the order of the list.
pub apply-items :
    (h : Heap) (xs : Cells) → IsChain h xs → apply (handle_of xs) h ≡ done (items xs) h
unfolding apply
apply-items h xs c = apply_from-items (length xs + 1) h xs c (omega arith)
