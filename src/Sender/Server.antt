-- ===== src/Sender/Server.antt =====
-- What the server reads: `ParseAddress` and the two branches of `TrasferString` in network/sender.cc.
use nachos_system_design.Base.{
  ℕ, zero, suc, ◌+◌, ◌-◌, ◌≤◌, ◌<◌, ◌≡◌, refl, ap, ◌∙◌, ◌≢◌, true, some, List, [], ◌∷◌, ◌++◌, arith,
  length, set, take, drop, replicate, All, length-append, leb, le→ltb, ok,
}
use nachos_system_design.Sender.{
  strlen, behind_two, sent, received, until_slash, split_at, parse_address, slash, digit_zero,
  digit_one,
}
use nachos_system_design.Sender.Arrays.{
  IsText, strlen-text, string_of-text, append_assoc, copy_then_set, until_slash-append, set-middle,
  drop_cons,
}
use nachos_system_design.Sender.Requests.{request_text, request_again}

take_all : (n : ℕ) (s : List ℕ) → length s ≤ n → take n s ≡ s
take_all zero [] h = refl
take_all zero (x ∷ s) h = absurd (omega arith)
take_all (suc n) [] h = refl
take_all (suc n) (x ∷ s) h = ap (λ t. x ∷ t) (take_all n s (omega arith))

zeros : (n : ℕ) → 0 < n → replicate {A = ℕ} n 0 ≡ 0 ∷ replicate (n - 1) 0
zeros zero h = absurd (omega arith)
zeros (suc n) h = ap (λ k. 0 ∷ replicate k 0) (omega arith)

-- A text that is sent arrives with zeros behind it.
pub received_text :
    (s rest : List ℕ)
    → IsText s
    → length s < 1024
    → received (sent (s ++ (0 ∷ rest))) ≡ s ++ (0 ∷ replicate (1024 - length s - 1) 0)
unfolding received
received_text s rest t small =
    rw
      (
        string_of-text s rest t,
        take_all 1024 s (omega arith),
        zeros (1024 - length s) (omega arith),
      )
      refl

-- The name of a request goes into an array that is longer than it.
pub behind_two-text :
    (a b : ℕ) (name arrived filename : List ℕ)
    → IsText (a ∷ b ∷ name)
    → length name < length filename
    → (q : List ℕ) × (behind_two ((a ∷ b ∷ name) ++ (0 ∷ arrived)) filename ≡ name ++ (0 ∷ q))
unfolding behind_two
behind_two-text a b name arrived filename t room =
    let (q, e, _) =
      copy_then_set name (a ∷ b ∷ []) (0 ∷ arrived) [] filename (length name) 2 0 (length name) 0
        refl refl refl (omega arith) room in
    let long : suc (suc (length name)) - 2 ≡ length name = omega arith in
    (
      q,
      rw
          (
            strlen-text (a ∷ b ∷ name) arrived t,
            le→ltb (suc (suc (length name))) 2 (omega arith),
            long,
          )
          e,
    )

-- The request of `WriteTo`, from its third character on.
pub split_at-text :
    (name content arrived filename contents : List ℕ)
    → All (λ c. c ≢ slash) name
    → IsText (request_text digit_one (name ++ (slash ∷ content)))
    → length name < length filename
    → length content < length contents
    → let request = request_text digit_one (name ++ (slash ∷ content)) ++ (0 ∷ arrived) in
      (r : ℕ × List ℕ) × (q : List ℕ) × (q' : List ℕ) × (until_slash
          (length request - 2)
          2
          request
          filename
        ≡ ok r)
      × (split_at request contents r ≡ (name ++ (0 ∷ q), content ++ (0 ∷ q')))
unfolding split_at
split_at-text name content arrived filename contents no_slash t room room' =
    let body : List ℕ = request_text digit_one (name ++ (slash ∷ content)) in
    let front : List ℕ = request_text digit_one (name ++ (slash ∷ [])) in
    let long : length body ≡ length name + length content + 3 =
      omega (arith, length-append name (slash ∷ content)) in
    let whole : (body ++ (0 ∷ arrived))
        ≡ request_text digit_one [] ++ (name ++ (slash ∷ (content ++ (0 ∷ arrived)))) =
      ap (request_text digit_one) (append_assoc name (slash ∷ content) (0 ∷ arrived)) in
    let longer : length name < length (body ++ (0 ∷ arrived)) - 2 =
      omega (arith, length-append body (0 ∷ arrived), long) in
    let found =
      until_slash-append name (request_text digit_one []) (content ++ (0 ∷ arrived)) [] filename
        (length (body ++ (0 ∷ arrived)) - 2) 2 no_slash refl refl longer (omega arith) in
    let (o, q, left, _) = drop_cons (length name) filename room in
    let (q', copied, _) =
      copy_then_set content front (0 ∷ arrived) [] contents (length content) (2 + length name + 1) 0
        (length content) 0 refl (omega (arith, length-append name (slash ∷ []))) refl (omega arith)
        room' in
    let again : (front ++ (content ++ (0 ∷ arrived))) ≡ body ++ (0 ∷ arrived) =
      request_again name content arrived in
    let size : strlen (body ++ (0 ∷ arrived)) ≡ length name + length content + 3 =
      strlen-text body arrived t ∙ long in
    let count : length name + length content + 3 - (2 + length name + 1) ≡ length content =
      omega arith in
    let slash_at : 2 + length name - 2 ≡ length name = omega arith in
    let cut : set (name ++ drop (length name) filename) (length name) 0 ≡ name ++ (0 ∷ q) =
      rw left (set-middle name q o 0) in
    (
      (2 + length name, name ++ drop (length name) filename),
      q,
      q',
      ap (λ m. until_slash (length (body ++ (0 ∷ arrived)) - 2) 2 m filename) whole ∙ found,
      rw (size, count, slash_at, cut) (ap (λ c. (name ++ (0 ∷ q), c)) (rw (← again) copied)),
    )

-- The address of a file: the digit of its node, a slash and its name.
abbrev pub address_text : ℕ → List ℕ → List ℕ → List ℕ
address_text node name behind = (digit_zero + node) ∷ slash ∷ (name ++ (0 ∷ behind))

pub parse_address-text :
    (node : ℕ) (name behind filename : List ℕ)
    → node < 10
    → IsText name
    → length name < length filename
    → (q : List ℕ) × (parse_address (address_text node name behind) filename
        ≡ (some node, name ++ (0 ∷ q)))
unfolding parse_address
parse_address-text node name behind filename digit t room =
    let (q, e) =
      behind_two-text (digit_zero + node) slash name behind filename
        (λ z. absurd (omega (arith, z)), (λ z. absurd (omega (arith, z)), t)) room in
    let low : leb digit_zero (digit_zero + node) ≡ true = ground arith in
    let high : leb (digit_zero + node) 57 ≡ true = ground arith in
    (q, rw (e, low, high) (ap (λ n. (some n, name ++ (0 ∷ q))) (omega arith)))
