-- ===== src/Sender/RoundTrip.antt =====
-- network/sender.cc: what the server reads out of the requests of `WriteTo` and `ReadFrom`.
use nachos_system_design.Base.{
  ℕ, ◌+◌, ◌-◌, ◌<◌, ◌≡◌, refl, ◌≢◌, some, List, ◌∷◌, ◌++◌, arith, length, replicate, All,
  length-append, Returns,
}
use nachos_system_design.Sender.{
  write_request, read_request, sent, received, transfer_string, write_to, read_from, slash, bar,
  digit_zero, digit_one,
}
use nachos_system_design.Sender.Arrays.{string_of, IsText, All-append, string_of-text}
use nachos_system_design.Sender.Requests.{request_text, read_request-text, write_request-text}
use nachos_system_design.Sender.Server.{
  received_text, behind_two-text, split_at-text, address_text, parse_address-text,
}

module _ (memory name behind : List ℕ) (name_text : IsText name) where
  read_request-transfer_string :
      (filename contents : List ℕ)
      → length memory ≡ 100
      → length name < 98
      → length name < length filename
      → Returns
          (transfer_string
            (received (sent (read_request memory (name ++ (0 ∷ behind)))))
            filename
            contents)
          (λ (type, f, c). (type ≡ digit_zero) × (string_of f ≡ name) × (c ≡ contents))
  unfolding transfer_string
  read_request-transfer_string filename contents size fits room =
      let (rest, e) = read_request-text memory name behind name_text size fits in
      let body : List ℕ = request_text digit_zero name in
      let body_text : IsText body =
        (λ z. absurd (omega (arith, z)), (λ z. absurd (omega (arith, z)), name_text)) in
      let arrived : List ℕ = replicate (1024 - length body - 1) 0 in
      let (q, copied) = behind_two-text digit_zero bar name arrived filename body_text room in
      rw (e, received_text body rest body_text (omega arith), copied)
        (
          (digit_zero, name ++ (0 ∷ q), contents),
          refl,
          (refl, string_of-text name q name_text, refl),
        )

  write_request-transfer_string :
      (content behind' filename contents : List ℕ)
      → IsText content
      → All (λ c. c ≢ slash) name
      → length memory ≡ 100
      → length name + length content < 97
      → length name < length filename
      → length content < length contents
      → Returns
          (transfer_string
            (received
              (sent (write_request memory (name ++ (0 ∷ behind)) (content ++ (0 ∷ behind')))))
            filename
            contents)
          (λ (type, f, c). (type ≡ digit_one) × (string_of f ≡ name) × (string_of c ≡ content))
  unfolding transfer_string
  write_request-transfer_string content behind' filename contents content_text no_slash size fits
        room room' =
      let (rest, e) =
        write_request-text memory name behind name_text content behind' content_text size fits in
      let body : List ℕ = request_text digit_one (name ++ (slash ∷ content)) in
      let long : length body ≡ length name + length content + 3 =
        omega (arith, length-append name (slash ∷ content)) in
      let body_text : IsText body = (
        λ z. absurd (omega (arith, z)),
        (
          λ z. absurd (omega (arith, z)),
          All-append (λ c. c ≢ 0) name (slash ∷ content) name_text
              (λ z. absurd (omega (arith, z)), content_text),
        ),
      ) in
      let arrived : List ℕ = replicate (1024 - length body - 1) 0 in
      let (r, q, q', found, split) =
        split_at-text name content arrived filename contents no_slash body_text room room' in
      rw (e, received_text body rest body_text (omega arith), found, split)
        (
          (digit_one, name ++ (0 ∷ q), content ++ (0 ∷ q')),
          refl,
          (refl, string_of-text name q name_text, string_of-text content q' content_text),
        )

module _ (real_file_name memory : List ℕ) (node : ℕ) (name behind : List ℕ) where
  -- `ReadFrom`, with 100 bytes for its request, at the address of a node from 0 to 9 and a name
  -- turns to this node, and the server takes the name out of the request again: for a name of
  -- characters other than 0 that is shorter than 98, than the array that `ReadFrom` has for it and
  -- than the one of the server.
  pub read_from-transfer_string :
      (filename contents : List ℕ)
      → node < 10
      → IsText name
      → length memory ≡ 100
      → length name < 98
      → length name < length real_file_name
      → length name < length filename
      → let (to, message) = read_from real_file_name memory (address_text node name behind) in
        (to ≡ some node)
        × Returns
            (transfer_string (received message) filename contents)
            (λ (type, f, c). (type ≡ digit_zero) × (string_of f ≡ name) × (c ≡ contents))
  unfolding read_from
  read_from-transfer_string filename contents digit t size fits room room' =
      let (q, e) = parse_address-text node name behind real_file_name digit t room in
      rw e (refl, read_request-transfer_string memory name q t filename contents size fits room')

  -- `WriteTo`, with 100 bytes for its request, at the address of a node from 0 to 9 and a name
  -- turns to this node, and the server
  -- takes the name and the contents out of the request again: for a name and contents of
  -- characters other than 0, with no slash in the name, that are together shorter than 97, the name
  -- shorter than the array that `WriteTo` has for it, and each shorter than the array of the server
  -- for it.
  pub write_to-transfer_string :
      (content behind' filename contents : List ℕ)
      → node < 10
      → IsText name
      → IsText content
      → All (λ c. c ≢ slash) name
      → length memory ≡ 100
      → length name + length content < 97
      → length name < length real_file_name
      → length name < length filename
      → length content < length contents
      → let (to, message) =
          write_to real_file_name memory
            (address_text node name behind)
            (content ++ (0 ∷ behind')) in
        (to ≡ some node)
        × Returns
            (transfer_string (received message) filename contents)
            (λ (type, f, c). (type ≡ digit_one) × (string_of f ≡ name) × (string_of c ≡ content))
  unfolding write_to
  write_to-transfer_string content behind' filename contents digit t t' no_slash size fits room
        room' room'' =
      let (q, e) = parse_address-text node name behind real_file_name digit t room in
      rw e (
        refl,
        write_request-transfer_string memory name q t content behind' filename contents t' no_slash
            size fits room' room'',
      )
