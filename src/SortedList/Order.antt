-- ===== src/SortedList/Order.antt =====
-- The sequence that `Insert` of lib/list.cc makes, and the order that it keeps.
use nachos_system_design.Base.{
  ℕ, ◌≡◌, refl, inl, inr, Bool, true, false, not, ◌&&◌, ◌||◌, List, [], ◌∷◌, ◌++◌, arith,
  if◌then◌else◌, ◌==◌, Bool-cases,
}
use mathlib.Core.List.{Perm}
use mathlib.Core.List.Perm
use nachos_system_design.SortedList.{Sign, is_negative, is_positive}
use nachos_system_design.LinkedList.Chain.{contains, NoRepeat}

negative_or : (s : Sign) → is_negative s ≡ true → is_positive s ≡ false
negative_or Sign.negative e = refl
negative_or Sign.null_sign e = refl
negative_or Sign.positive e = absurd (cc)

module _ (compare : ℕ → ℕ → Sign) where
  -- `v` in front of the first item that it is below.
  unfoldable pub insert_sorted : ℕ → List ℕ → List ℕ
  insert_sorted v [] = v ∷ []
  insert_sorted v (x ∷ xs) =
      if is_negative (compare v x) then v ∷ x ∷ xs else x ∷ insert_sorted v xs

  -- Is `v` below an item?
  abbrev pub has_place : ℕ → List ℕ → Bool
  has_place v [] = false
  has_place v (x ∷ xs) = is_negative (compare v x) || has_place v xs

  -- No item is above the one behind it.
  unfoldable pub sorted_behind : ℕ → List ℕ → Bool
  sorted_behind x [] = true
  sorted_behind x (y ∷ ys) = not (is_positive (compare x y)) && sorted_behind y ys

  unfoldable pub sorted : List ℕ → Bool
  sorted [] = true
  sorted (x ∷ xs) = sorted_behind x xs

  pub insert_sorted-append :
      (v : ℕ) (xs : List ℕ) → has_place v xs ≡ false → insert_sorted v xs ≡ xs ++ (v ∷ [])
  unfolding insert_sorted
  insert_sorted-append v [] out = refl
  insert_sorted-append v (x ∷ xs) out = ground (arith, insert_sorted-append v xs)

  pub insert_sorted-Perm : (v : ℕ) (xs : List ℕ) → Perm (insert_sorted v xs) (v ∷ xs)
  unfolding insert_sorted
  insert_sorted-Perm v [] = Perm.rfl
  insert_sorted-Perm v (x ∷ xs) = elim (Bool-cases (is_negative (compare v x))) [
    | inl e ↦ rw e Perm.rfl
    | inr e ↦ rw e (Perm.trans (Perm.cons x (insert_sorted-Perm v xs)) (Perm.swap v x xs))
  ]

  pub contains-insert_sorted :
      (u v : ℕ) (xs : List ℕ) → contains u (insert_sorted v xs) ≡ ((u == v) || contains u xs)
  unfolding insert_sorted
  contains-insert_sorted u v [] = refl
  contains-insert_sorted u v (x ∷ xs) = ground (arith, contains-insert_sorted u v xs)

  pub NoRepeat-insert_sorted :
      (v : ℕ) (xs : List ℕ) → contains v xs ≡ false → NoRepeat xs → NoRepeat (insert_sorted v xs)
  unfolding insert_sorted NoRepeat
  NoRepeat-insert_sorted v [] new d = (refl, tt)
  NoRepeat-insert_sorted v (x ∷ xs) new (other, d) = elim (Bool-cases (is_negative (compare v x))) [
    | inl e ↦ rw e (new, (other, d))
    | inr e ↦ rw e (
      ground (arith, contains-insert_sorted x v xs),
      NoRepeat-insert_sorted v xs (ground arith) d,
    )
  ]

  -- What `compare` promises: if `x` is not below `y` then `y` is not above `x`.
  module _
      (total : (x y : ℕ)
        → is_negative (compare x y) ≡ false
        → is_positive (compare y x) ≡ false) where
    sorted_behind-insert :
        (x v : ℕ) (ys : List ℕ)
        → is_positive (compare x v) ≡ false
        → sorted_behind x ys ≡ true
        → sorted_behind x (insert_sorted v ys) ≡ true
    unfolding insert_sorted sorted_behind
    sorted_behind-insert x v [] le s = ground arith
    sorted_behind-insert x v (y ∷ ys) le s = elim (Bool-cases (is_negative (compare v y))) [
      | inl e ↦ rw e (ground (arith, negative_or (compare v y) e))
      | inr e ↦ rw e (ground (arith, sorted_behind-insert y v ys (total v y e)))
    ]

    pub sorted-insert :
        (v : ℕ) (xs : List ℕ) → sorted xs ≡ true → sorted (insert_sorted v xs) ≡ true
    unfolding insert_sorted sorted sorted_behind
    sorted-insert v [] s = refl
    sorted-insert v (x ∷ xs) s = elim (Bool-cases (is_negative (compare v x))) [
      | inl e ↦ rw e (ground (arith, negative_or (compare v x) e))
      | inr e ↦ rw e (sorted_behind-insert x v xs (total v x e) s)
    ]
