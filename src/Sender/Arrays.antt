-- ===== src/Sender/Arrays.antt =====
-- Strings in arrays, as network/sender.cc reads and writes them.
use nachos_system_design.Base.{
  ℕ, zero, suc, ◌+◌, ◌-◌, ◌≤◌, ◌<◌, ◌≡◌, refl, sym, ap, ◌∙◌, ◌≢◌, List, [], ◌∷◌, ◌++◌, arith,
  length, get_or, set, take, drop, All, length-append, ne→==, ok,
}
use nachos_system_design.Sender.{strlen, copy_chars, until_slash, slash}

-- What an array holds: the characters in front of the first 0.
abbrev pub string_of : List ℕ → List ℕ
string_of a = take (strlen a) a

-- Characters other than 0.
abbrev pub IsText : List ℕ → Type 0
IsText = All (λ c. c ≢ 0)

pub strlen-text : (s rest : List ℕ) → IsText s → strlen (s ++ (0 ∷ rest)) ≡ length s
unfolding strlen
strlen-text [] rest t = refl
strlen-text (c ∷ s) rest (ne, t) = rw (ne→== c 0 ne) (ap suc (strlen-text s rest t))

pub take-append : (s rest : List ℕ) → take (length s) (s ++ rest) ≡ s
take-append [] rest = refl
take-append (c ∷ s) rest = ap (λ t. c ∷ t) (take-append s rest)

pub string_of-text : (s rest : List ℕ) → IsText s → string_of (s ++ (0 ∷ rest)) ≡ s
string_of-text s rest t = rw (strlen-text s rest t) (take-append s (0 ∷ rest))

pub get_or-middle : (a b : List ℕ) (c d : ℕ) → get_or (a ++ (c ∷ b)) (length a) d ≡ c
get_or-middle [] b c d = refl
get_or-middle (x ∷ a) b c d = get_or-middle a b c d

pub set-middle : (p q : List ℕ) (o c : ℕ) → set (p ++ (o ∷ q)) (length p) c ≡ p ++ (c ∷ q)
set-middle [] q o c = refl
set-middle (x ∷ p) q o c = ap (λ t. x ∷ t) (set-middle p q o c)

pub snoc_append : (a b : List ℕ) (c : ℕ) → ((a ++ (c ∷ [])) ++ b) ≡ a ++ (c ∷ b)
snoc_append [] b c = refl
snoc_append (x ∷ a) b c = ap (λ t. x ∷ t) (snoc_append a b c)

-- A string in the middle of an array is copied into the middle of another.
pub copy_chars-append :
    (s a b p old : List ℕ) (n j i : ℕ)
    → n ≡ length s
    → j ≡ length a
    → i ≡ length p
    → length s ≤ length old
    → copy_chars n (a ++ (s ++ b)) j (p ++ old) i ≡ p ++ (s ++ drop (length s) old)
unfolding copy_chars
copy_chars-append [] a b p old n j i en ej ei fits = rw en refl
copy_chars-append (c ∷ s) a b p [] n j i en ej ei fits = absurd (omega arith)
copy_chars-append (c ∷ s) a b p (o ∷ old) zero j i en ej ei fits = absurd (omega arith)
copy_chars-append (c ∷ s) a b p (o ∷ old) (suc n) j i en ej ei fits =
    rw (ej, ei, get_or-middle a (s ++ b) c 0, set-middle p old o c)
      (rw
        (
          ← snoc_append a (s ++ b) c,
          ← snoc_append p old c,
          ← snoc_append p (s ++ drop (length s) old) c,
        )
        (copy_chars-append s (a ++ (c ∷ [])) b (p ++ (c ∷ [])) old n (length a + 1) (length p + 1)
          (omega arith) (sym (length-append a (c ∷ []) ∙ omega arith))
          (sym (length-append p (c ∷ []) ∙ omega arith)) (omega arith)))

pub append_assoc : (a b c : List ℕ) → ((a ++ b) ++ c) ≡ a ++ (b ++ c)
append_assoc [] b c = refl
append_assoc (x ∷ a) b c = ap (λ t. x ∷ t) (append_assoc a b c)

-- What is left of an array that is not used up.
pub drop_cons :
    (n : ℕ) (xs : List ℕ)
    → n < length xs
    → (o : ℕ) × (q : List ℕ) × (drop n xs ≡ o ∷ q) × (length q + n + 1 ≡ length xs)
drop_cons n [] h = absurd (omega arith)
drop_cons zero (x ∷ xs) h = (x, xs, refl, omega arith)
drop_cons (suc n) (x ∷ xs) h =
    let (o, q, e, l) = drop_cons n xs (omega arith) in (o, q, e, omega arith)

-- A string copied to an array that is longer than it, with a character set behind it.
pub copy_then_set :
    (s a b p old : List ℕ) (n j i k e : ℕ)
    → n ≡ length s
    → j ≡ length a
    → i ≡ length p
    → k ≡ length p + length s
    → length s < length old
    → (q : List ℕ) × (set (copy_chars n (a ++ (s ++ b)) j (p ++ old) i) k e ≡ p ++ (s ++ (e ∷ q)))
      × (length q + length s + 1 ≡ length old)
copy_then_set s a b p old n j i k e en ej ei ek fits =
    let (o, q, rest, l) = drop_cons (length s) old fits in
    (
      q,
      rw
          (
            copy_chars-append s a b p old n j i en ej ei (omega arith),
            rest,
            ← append_assoc p s (o ∷ q),
            ← append_assoc p s (e ∷ q),
            ek ∙ sym (length-append p s),
          )
          (set-middle (p ++ s) q o e),
      l,
    )

-- The loop that looks for the slash copies what stands in front of it.
pub until_slash-append :
    (s a b p old : List ℕ) (k i : ℕ)
    → All (λ c. c ≢ slash) s
    → i ≡ length a
    → i ≡ length p + 2
    → length s < k
    → length s ≤ length old
    → until_slash k i (a ++ (s ++ (slash ∷ b))) (p ++ old)
      ≡ ok (i + length s, p ++ (s ++ drop (length s) old))
unfolding until_slash
until_slash-append s a b p old zero i none_there ea ep fuel fits = absurd (omega arith)
until_slash-append [] a b p old (suc k) i none_there ea ep fuel fits =
    rw (ea, get_or-middle a b slash 0) (ap (λ m. ok (m, p ++ old)) (omega arith))
until_slash-append (c ∷ s) a b p [] (suc k) i none_there ea ep fuel fits = absurd (omega arith)
until_slash-append (c ∷ s) a b p (o ∷ old) (suc k) i (ne, none_there) ea ep fuel fits =
    let here : i - 2 ≡ length p = omega arith in
    let there : get_or (a ++ (c ∷ (s ++ (slash ∷ b)))) i 0 ≡ c =
      rw ea (get_or-middle a (s ++ (slash ∷ b)) c 0) in
    rw (there, ne→== c slash ne, here, set-middle p old o c)
      (rw
        (
          ← snoc_append a (s ++ (slash ∷ b)) c,
          ← snoc_append p old c,
          ← snoc_append p (s ++ drop (length s) old) c,
        )
        (until_slash-append s (a ++ (c ∷ [])) b (p ++ (c ∷ [])) old k (i + 1) none_there
            (sym (length-append a (c ∷ []) ∙ omega arith))
            (sym (ap (λ m. m + 2) (length-append p (c ∷ [])) ∙ omega arith)) (omega arith)
            (omega arith)
          ∙ ap (λ m. ok (m, (p ++ (c ∷ [])) ++ (s ++ drop (length s) old))) (omega arith)))

pub All-append {κ} : (P : ℕ → Type κ) (a b : List ℕ) → All P a → All P b → All P (a ++ b)
All-append P [] b h k = k
All-append P (x ∷ a) b (p, h) k = (p, All-append P a b h k)
