-- ===== src/LinkedList/Snoc.antt =====
-- Chains of nodes seen from their last one.
use nachos_system_design.Base.{ℕ, ◌≡◌, refl, sym, ap, subst, ◌≢◌, true, false, [], ◌∷◌, ◌++◌, arith}
use nachos_system_design.NodeHeap.{Ptr}
use nachos_system_design.LinkedList.Chain.{Cells, head_of, last_of, items, uses, contains}

-- The last node and what comes before it.
pub snoc_cases :
    (p : Ptr × ℕ) (xs : Cells)
    → (ys : Cells) × (a : Ptr) × (w : ℕ) × ((p ∷ xs) ≡ (ys ++ ((a, w) ∷ [])))
snoc_cases (a, w) [] = ([], a, w, refl)
snoc_cases p (q ∷ xs) = let (ys, a, w, e) = snoc_cases q xs in (p ∷ ys, a, w, ap (λ t. p ∷ t) e)

pub append_assoc :
    (ys : Cells) (a b : Ptr × ℕ) → ((ys ++ (a ∷ [])) ++ (b ∷ [])) ≡ (ys ++ (a ∷ b ∷ []))
append_assoc [] a b = refl
append_assoc (y ∷ ys) a b = ap (λ t. y ∷ t) (append_assoc ys a b)

pub head_of-snoc :
    (ys : Cells) (a b : Ptr × ℕ) → head_of (ys ++ (a ∷ b ∷ [])) ≡ head_of (ys ++ (a ∷ []))
head_of-snoc [] a b = refl
head_of-snoc (y ∷ ys) a b = refl

pub uses-last : (ys : Cells) (a : Ptr) (w : ℕ) → uses a (ys ++ ((a, w) ∷ [])) ≡ true
uses-last [] a w = ground arith
uses-last (y ∷ ys) a w = ground (arith, uses-last ys a w)

pub uses_prefix : (b : Ptr) (ys zs : Cells) → uses b (ys ++ zs) ≡ false → uses b ys ≡ false
uses_prefix b [] zs out = refl
uses_prefix b ((p, v) ∷ ys) zs out = ground (arith, uses_prefix b ys zs)

pub contains-last : (ys : Cells) (b : Ptr) (v : ℕ) → contains v (items (ys ++ ((b, v) ∷ []))) ≡ true
contains-last [] b v = ground arith
contains-last (y ∷ ys) b v = ground (arith, contains-last ys b v)

pub last_of-uses : (p : Ptr) (u : ℕ) (ys : Cells) → uses (last_of p ys) ((p, u) ∷ ys) ≡ true
last_of-uses p u [] = ground arith
last_of-uses p u ((q, t) ∷ ys) = ground (arith, last_of-uses q t ys)

pub last_of-other :
    (a b : Ptr) (w : ℕ) (xs : Cells) → uses a ((b, w) ∷ xs) ≡ false → a ≢ last_of b xs
last_of-other a b w xs out e =
    let hit : uses a ((b, w) ∷ xs) ≡ true =
      subst (λ t. uses t ((b, w) ∷ xs) ≡ true) (sym e) (last_of-uses b w xs) in
    absurd (cc)
