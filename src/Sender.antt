-- ===== src/Sender.antt =====
-- network/sender.cc: the messages of the distributed file system. A string is an array that holds
-- its characters and a 0 behind them; a character that is written behind the end of its array is left
-- out. The sockets are left out too: a message is the bytes that
-- `send` is given, and the server in userprog/exception.cc reads it into an array of zeros.
pub mod Arrays
pub mod Requests
pub mod Server
pub mod RoundTrip
use nachos_system_design.Base.{
  ℕ, zero, suc, ◌+◌, ◌-◌, ◌&&◌, Option, none, some, List, [], ◌∷◌, ◌++◌, length, get_or, set, take,
  replicate, if◌then◌else◌, ◌==◌, ltb, leb, Run, ok, aborted, ◌>>=◌, ◌>>◌,
}

abbrev pub slash : ℕ
slash = 47

abbrev pub bar : ℕ
bar = 124

abbrev pub digit_zero : ℕ
digit_zero = 48

abbrev pub digit_one : ℕ
digit_one = 49

-- Up to the first 0, or to the end of the array.
unfoldable pub strlen : List ℕ → ℕ
strlen [] = 0
strlen (c ∷ s) = if c == 0 then 0 else suc (strlen s)

-- for (k = 0; k < n; k++) dst[i + k] = src[j + k];
unfoldable pub copy_chars : ℕ → List ℕ → ℕ → List ℕ → ℕ → List ℕ
copy_chars zero src j dst i = dst
copy_chars (suc n) src j dst i = copy_chars n src (j + 1) (set dst i (get_or src j 0)) (i + 1)

-- The characters of `name` from the third on, with a 0 behind them. With fewer than two characters
-- the 0 goes in front of the array.
unfoldable pub behind_two : List ℕ → List ℕ → List ℕ
behind_two name filename =
    let size = strlen name in
    if ltb size 2 then filename else set (copy_chars (size - 2) name 2 filename 0) (size - 2) 0

-- `none` is the node -1.
unfoldable pub parse_address : List ℕ → List ℕ → Option ℕ × List ℕ
parse_address address filename =
    let first = get_or address 0 0 in
    (
      if leb digit_zero first && leb first (digit_zero + 9)
          then some (first - digit_zero)
          else none,
      behind_two address filename,
    )

-- The request of `WriteTo`. `memory` is what `new char[100]` allocates.
unfoldable pub write_request : (memory : List ℕ) → List ℕ → List ℕ → List ℕ
write_request memory name content =
    let head = set (set memory 0 digit_one) 1 bar in
    let named = copy_chars (strlen name) name 0 head 2 in
    let parted = set named (strlen name + 2) slash in
    let full = copy_chars (strlen content) content 0 parted (strlen name + 3) in
    set full (strlen name + strlen content + 3) 0

-- The request of `ReadFrom`.
unfoldable pub read_request : (memory : List ℕ) → List ℕ → List ℕ
read_request memory name =
    let head = set (set memory 0 digit_zero) 1 bar in
    set (copy_chars (strlen name) name 0 head 2) (strlen name + 2) 0

-- `send(sock, request, strlen(request), 0)`
abbrev pub sent : List ℕ → List ℕ
sent request = take (strlen request) request

-- `WriteTo` with what `new char[20]` and `new char[100]` allocate, up to the answer: the node that it
-- connects to, and its message.
unfoldable pub write_to : (real_file_name memory : List ℕ) → List ℕ → List ℕ → Option ℕ × List ℕ
write_to real_file_name memory address content =
    let (node, name) = parse_address address real_file_name in
    (node, sent (write_request memory name content))

-- `ReadFrom`, up to the answer.
unfoldable pub read_from : (real_file_name memory : List ℕ) → List ℕ → Option ℕ × List ℕ
read_from real_file_name memory address =
    let (node, name) = parse_address address real_file_name in
    (node, sent (read_request memory name))

-- `read` into `request[1024] = {0}`.
unfoldable pub received : List ℕ → List ℕ
received message = take 1024 message ++ replicate (1024 - length message) 0

-- The first loop of `TrasferString`. It has no bound: it runs out of the array without a slash.
unfoldable pub until_slash : ℕ → ℕ → List ℕ → List ℕ → Run (ℕ × List ℕ)
until_slash zero i name filename = aborted
until_slash (suc k) i name filename =
    let curr = get_or name i 0 in
    if curr == slash
    then ok (i, filename)
    else until_slash k (i + 1) name (set filename (i - 2) curr)

-- The rest of the second branch, from the slash at `i` on.
unfoldable pub split_at : List ℕ → List ℕ → ℕ × List ℕ → List ℕ × List ℕ
split_at name content (i, filename) =
    let count = strlen name - (i + 1) in
    (set filename (i - 2) 0, set (copy_chars count name (i + 1) content 0) count 0)

-- The type of the request, and the arrays for the name and the content.
unfoldable pub transfer_string : List ℕ → List ℕ → List ℕ → Run (ℕ × List ℕ × List ℕ)
transfer_string name filename content =
    let type = get_or name 0 0 in
    let write = do
      r ← until_slash (length name - 2) 2 name filename
      let (f, c) = split_at name content r
      ok (type, f, c)
    in if type == digit_zero
      then ok (type, behind_two name filename, content)
      else (if type == digit_one then write else ok (type, filename, content))
