-- ===== src/Tests/Messages.antt =====
-- Tests of network/sender.cc: the messages to node 3.
use nachos_system_design.Base.{
  ℕ, ◌<◌, ◌≡◌, refl, ◌≢◌, some, List, [], ◌∷◌, ◌++◌, arith, replicate, All, length-replicate,
  Returns,
}
use nachos_system_design.Sender.{
  read_request, parse_address, behind_two, strlen, copy_chars, read_from, write_to, received,
  transfer_string, digit_zero, digit_one, slash,
}
use nachos_system_design.Sender.Arrays.{string_of, IsText}
use nachos_system_design.Sender.RoundTrip.{read_from-transfer_string, write_to-transfer_string}

-- "abc"
abbrev name : List ℕ
name = 97 ∷ 98 ∷ 99 ∷ []

-- "hi/ho", with a slash in it.
abbrev content : List ℕ
content = 104 ∷ 105 ∷ slash ∷ 104 ∷ 111 ∷ []

abbrev address : List ℕ
address = 51 ∷ slash ∷ 97 ∷ 98 ∷ 99 ∷ 0 ∷ []

abbrev of_size : ℕ → List ℕ
of_size n = replicate n 7

zero_free : (c : ℕ) → 0 < c → c ≢ 0
zero_free c h z = absurd (omega arith)

slash_free : (c : ℕ) → slash < c → c ≢ slash
slash_free c h z = absurd (omega arith)

name-IsText : IsText name
name-IsText =
    (zero_free 97 (omega arith), (zero_free 98 (omega arith), (zero_free 99 (omega arith), tt)))

name_without_slash : All (λ c. c ≢ slash) name
name_without_slash =
    (slash_free 97 (omega arith), (slash_free 98 (omega arith), (slash_free 99 (omega arith), tt)))

content-IsText : IsText content
content-IsText = (
  zero_free 104 (omega arith),
  (
    zero_free 105 (omega arith),
    (zero_free 47 (omega arith), (zero_free 104 (omega arith), (zero_free 111 (omega arith), tt))),
  ),
)

message_of_read_from : (read_from (of_size 20) (of_size 100) address).1 ≡ 48 ∷ 124 ∷ name
unfolding read_from read_request parse_address behind_two strlen copy_chars
message_of_read_from = refl

read_from-transfer_string_example :
    let (to, message) = read_from (of_size 20) (of_size 100) address in
    (to ≡ some 3)
    × Returns
        (transfer_string (received message) (of_size 20) (of_size 1000))
        (λ (type, f, c). (type ≡ digit_zero) × (string_of f ≡ name) × (c ≡ of_size 1000))
read_from-transfer_string_example =
    read_from-transfer_string (of_size 20) (of_size 100) 3 name [] (of_size 20) (of_size 1000)
      (omega arith) name-IsText (length-replicate {A = ℕ} 100 7) (omega arith) (omega arith)
      (omega arith)

write_to-transfer_string_example :
    let (to, message) = write_to (of_size 20) (of_size 100) address (content ++ (0 ∷ [])) in
    (to ≡ some 3)
    × Returns
        (transfer_string (received message) (of_size 20) (of_size 1000))
        (λ (type, f, c). (type ≡ digit_one) × (string_of f ≡ name) × (string_of c ≡ content))
write_to-transfer_string_example =
    write_to-transfer_string (of_size 20) (of_size 100) 3 name [] content [] (of_size 20)
      (of_size 1000) (omega arith) name-IsText content-IsText name_without_slash
      (length-replicate {A = ℕ} 100 7) (omega arith) (omega arith) (omega arith)
      (omega (arith, length-replicate {A = ℕ} 1000 7))
