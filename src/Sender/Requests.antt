-- ===== src/Sender/Requests.antt =====
-- What `WriteTo` and `ReadFrom` of network/sender.cc put into their requests.
use nachos_system_design.Base.{
  ℕ, ◌+◌, ◌≤◌, ◌<◌, ◌≡◌, refl, sym, ap, ◌∙◌, List, [], ◌∷◌, ◌++◌, arith, length, set, length-append,
}
use nachos_system_design.Sender.{write_request, read_request, slash, bar, digit_zero, digit_one}
use nachos_system_design.Sender.Arrays.{
  IsText, strlen-text, append_assoc, snoc_append, copy_then_set,
}

-- An array of four or more with its first two entries set.
two_set :
    (a b : ℕ) (memory : List ℕ)
    → 2 ≤ length memory
    → (old : List ℕ) × (set (set memory 0 a) 1 b ≡ a ∷ b ∷ old) × (length old + 2 ≡ length memory)
two_set a b [] h = absurd (omega arith)
two_set a b (x ∷ []) h = absurd (omega arith)
two_set a b (x ∷ y ∷ old) h = (old, refl, omega arith)

abbrev pub request_text : ℕ → List ℕ → List ℕ
request_text type body = type ∷ bar ∷ body

pub request_again :
    (name content rest : List ℕ)
    → request_text digit_one (name ++ (slash ∷ [])) ++ (content ++ (0 ∷ rest))
      ≡ request_text digit_one (name ++ (slash ∷ content)) ++ (0 ∷ rest)
request_again name content rest = ap (request_text digit_one) (
    snoc_append name (content ++ (0 ∷ rest)) slash
    ∙ sym (append_assoc name (slash ∷ content) (0 ∷ rest)))

module _ (memory name behind : List ℕ) (name_text : IsText name) where
  -- What `ReadFrom` sends.
  pub read_request-text :
      length memory ≡ 100
      → length name < 98
      → (rest : List ℕ) × (read_request memory (name ++ (0 ∷ behind))
          ≡ request_text digit_zero name ++ (0 ∷ rest))
  unfolding read_request
  read_request-text size fits =
      let (old, head, l) = two_set digit_zero bar memory (omega arith) in
      let (rest, e, _) =
        copy_then_set name [] (0 ∷ behind) (digit_zero ∷ bar ∷ []) old (length name) 0 2
          (length name + 2) 0 refl refl refl (omega arith) (omega arith) in
      (rest, rw (strlen-text name behind name_text, head) e)

  -- What `WriteTo` sends.
  pub write_request-text :
      (content behind' : List ℕ)
      → IsText content
      → length memory ≡ 100
      → length name + length content < 97
      → (rest : List ℕ) × (write_request memory (name ++ (0 ∷ behind)) (content ++ (0 ∷ behind'))
          ≡ request_text digit_one (name ++ (slash ∷ content)) ++ (0 ∷ rest))
  unfolding write_request
  write_request-text content behind' content_text size fits =
      let (old, head, l) = two_set digit_one bar memory (omega arith) in
      let (q, e, l') =
        copy_then_set name [] (0 ∷ behind) (digit_one ∷ bar ∷ []) old (length name) 0 2
          (length name + 2) slash refl refl refl (omega arith) (omega arith) in
      let front : List ℕ = request_text digit_one (name ++ (slash ∷ [])) in
      let e' : (digit_one ∷ bar ∷ (name ++ (slash ∷ q))) ≡ front ++ q =
        ap (request_text digit_one) (sym (snoc_append name q slash)) in
      let (rest, e'', _) =
        copy_then_set content [] (0 ∷ behind') front q (length content) 0 (length name + 3)
          (length name + length content + 3) 0 refl refl
          (omega (arith, length-append name (slash ∷ [])))
          (omega (arith, length-append name (slash ∷ []))) (omega arith) in
      (
        rest,
        rw
            (
              strlen-text name behind name_text,
              strlen-text content behind' content_text,
              head,
              e,
              e',
              e'',
            )
            (request_again name content rest),
      )
