-- ===== src/LinkedList/Without.antt =====
-- A list and its nodes without the first occurrence of an item.
use nachos_system_design.Base.{
  ℕ, ◌+◌, ◌≡◌, refl, inl, inr, true, false, List, [], ◌∷◌, arith, length, if◌then◌else◌, ◌==◌,
  Bool-cases,
}
use nachos_system_design.NodeHeap.{Ptr}
use nachos_system_design.LinkedList.Chain.{Cells, items, uses, contains, NoRepeat}

-- The list without the first occurrence of `v`.
unfoldable pub erase : ℕ → List ℕ → List ℕ
erase v [] = []
erase v (x ∷ xs) = if v == x then xs else x ∷ erase v xs

unfoldable pub erase_cell : ℕ → Cells → Cells
erase_cell v [] = []
erase_cell v ((a, w) ∷ xs) = if v == w then xs else (a, w) ∷ erase_cell v xs

pub erase_cell_miss :
    (v : ℕ) (a : Ptr) (w : ℕ) (xs : Cells)
    → (v == w) ≡ false
    → erase_cell v ((a, w) ∷ xs) ≡ (a, w) ∷ erase_cell v xs
unfolding erase_cell
erase_cell_miss v a w xs miss = rw miss refl

pub items-erase_cell : (v : ℕ) (xs : Cells) → items (erase_cell v xs) ≡ erase v (items xs)
unfolding erase_cell erase
items-erase_cell v [] = refl
items-erase_cell v ((a, w) ∷ xs) = ground (arith, items-erase_cell v xs)

pub uses-erase_cell :
    (a : Ptr) (v : ℕ) (xs : Cells) → uses a xs ≡ false → uses a (erase_cell v xs) ≡ false
unfolding erase_cell
uses-erase_cell a v [] out = refl
uses-erase_cell a v ((b, w) ∷ xs) out = ground (arith, uses-erase_cell a v xs)

pub length-erase_cell :
    (v : ℕ) (xs : Cells) → contains v (items xs) ≡ true → length (erase_cell v xs) + 1 ≡ length xs
unfolding erase_cell
length-erase_cell v [] in_list = absurd (cc)
length-erase_cell v ((b, w) ∷ xs) in_list = ground (arith, length-erase_cell v xs)

pub contains-erase_other :
    (u v : ℕ) (xs : List ℕ) → contains u xs ≡ false → contains u (erase v xs) ≡ false
unfolding erase
contains-erase_other u v [] out = refl
contains-erase_other u v (x ∷ xs) out = ground (arith, contains-erase_other u v xs)

pub contains-erase : (v : ℕ) (xs : List ℕ) → NoRepeat xs → contains v (erase v xs) ≡ false
unfolding erase NoRepeat
contains-erase v [] d = refl
contains-erase v (x ∷ xs) (new, d) = ground (arith, contains-erase v xs d)

pub NoRepeat-erase : (v : ℕ) (xs : List ℕ) → NoRepeat xs → NoRepeat (erase v xs)
unfolding erase NoRepeat
NoRepeat-erase v [] d = tt
NoRepeat-erase v (x ∷ xs) (new, d) = elim (Bool-cases (v == x)) [
  | inl e ↦ rw e d
  | inr e ↦ rw e (contains-erase_other x v xs new, NoRepeat-erase v xs d)
]

pub erase_cell_hit :
    (v : ℕ) (a : Ptr) (w : ℕ) (xs : Cells) → (v == w) ≡ true → erase_cell v ((a, w) ∷ xs) ≡ xs
unfolding erase_cell
erase_cell_hit v a w xs hit = rw hit refl
