-- ===== src/Irc/Message.antt =====
-- irc/src/message.h and message.c: a message is read up to the end of a line and taken apart. A string
-- is the list of its characters, without the zero that ends it.
pub mod Tokens
pub mod Parse
pub mod Lines
pub mod Split
use chi.Prelude.{
  ℕ, zero, suc, ◌+◌, Bool, true, false, ltb, leb, ◌==◌, ◌&&◌, if◌then◌else◌, Option, none, some,
  List, [], ◌∷◌, ◌++◌, length, take, drop,
}
use chi.Db.Run.{Run, returns, undefined, ◌>>=◌}

-- `none` is the null pointer. Of the 15 pointers of `args`, those that are not null come first.
pub record Message : Type 0 where
  pub prefix : Option (List ℕ)
  pub cmd : Option (List ℕ)
  pub args : List (List ℕ)

unfoldable pub skip_spaces : List ℕ → List ℕ
skip_spaces [] = []
skip_spaces (c ∷ cs) = let rest = skip_spaces cs in if c == b' ' then rest else c ∷ cs

unfoldable pub word : List ℕ → List ℕ
word [] = []
word (c ∷ cs) = let rest = word cs in if c == b' ' then [] else c ∷ rest

unfoldable pub after_word : List ℕ → List ℕ
after_word [] = []
after_word (c ∷ cs) = let rest = after_word cs in if c == b' ' then cs else rest

-- `strtok(s, " ")`: the next token, and the text that the next call goes on with.
abbrev pub token_of : List ℕ → Option (List ℕ × List ℕ)
token_of [] = none
token_of (c ∷ cs) = some (word (c ∷ cs), after_word (c ∷ cs))

unfoldable pub strtok : List ℕ → Option (List ℕ × List ℕ)
strtok s = token_of (skip_spaces s)

abbrev pub starts_colon : List ℕ → Bool
starts_colon [] = false
starts_colon (c ∷ cs) = c == b':'

-- A token that starts with a colon, without it, and all the text that follows.
abbrev pub trailing : List ℕ → List ℕ → List ℕ
trailing token [] = drop 1 token
trailing token (c ∷ cs) = drop 1 token ++ (b' ' ∷ c ∷ cs)

-- The memory of an argument that does not start with a colon is one byte short, which is not followed.
unfoldable pub parse_args : ℕ → Option (List ℕ × List ℕ) → List (List ℕ)
parse_args zero token = []
parse_args (suc n) none = []
parse_args (suc n) (some (token, s)) =
    let rest = parse_args n (strtok s) in
    if starts_colon token then trailing token s ∷ [] else token ∷ rest

abbrev pub parse_command : Option (List ℕ × List ℕ) → Message → Message
parse_command none msg = record msg { args = [] }
parse_command (some (token, s)) msg = record msg {
  cmd = some token;
  args = parse_args 15 (strtok s);
}

abbrev pub parse_prefix : Option (List ℕ × List ℕ) → Message → Message
parse_prefix none msg = parse_command none msg
parse_prefix (some (token, s)) msg =
    if starts_colon token
    then parse_command (strtok s) (record msg { prefix = some (drop 1 token) })
    else parse_command (some (token, s)) msg

unfoldable pub parse_message : List ℕ → Message → Message
parse_message buffer msg = parse_prefix (strtok (take 512 buffer)) msg

abbrev pub is_none : Option (List ℕ) → Bool
is_none none = true
is_none (some s) = false

unfoldable pub is_valid : Message → Bool
is_valid msg = if is_none msg.cmd then false else true

-- Where the first `strtok` has put a zero, the string in the buffer ends.
unfoldable pub parsed_buffer : List ℕ → List ℕ
parsed_buffer [] = []
parsed_buffer (c ∷ cs) =
    let rest = parsed_buffer cs in if c == b' ' then c ∷ rest else word (c ∷ cs)

-- The character at `i`, and the zero at the end.
abbrev pub char_at : List ℕ → ℕ → ℕ
char_at [] i = 0
char_at (c ∷ cs) zero = c
char_at (c ∷ cs) (suc i) = char_at cs i

unfoldable pub find_cr_from : ℕ → ℕ → List ℕ → ℕ → ℕ
find_cr_from zero i str size = i + 1
find_cr_from (suc rounds) i str size =
    let rest = find_cr_from rounds (i + 1) str size in
    if ltb (i + 1) size
    then if char_at str i == b'\r' && char_at str (i + 1) == b'\n' then i else rest
    else i + 1

-- As many rounds as `size` are enough.
unfoldable pub find_cr : List ℕ → ℕ → ℕ
find_cr str size = find_cr_from size 0 str size

-- What a call of `recv` brings: bytes, the end of the stream, or an error.
pub data Recv : Type 0 where
  chunk : List ℕ → Recv
  closed failed : Recv

-- How `read_full_message` ends, with the calls of `recv` that are left. `waits` is a `recv` that has
-- not returned.
pub data Reading : Type 0 where
  full : List ℕ → List ℕ → List Recv → Reading
  ended : Reading
  waits : List ℕ → Reading

-- `strncat` stops at a zero.
unfoldable pub until_zero : List ℕ → List ℕ
until_zero [] = []
until_zero (c ∷ cs) = let rest = until_zero cs in if c == 0 then [] else c ∷ rest

abbrev pub buffer_size : ℕ
buffer_size = 4096

-- `strncat`, in a buffer of 4,096 bytes.
abbrev pub strncat : List ℕ → List ℕ → Run (List ℕ)
strncat message buffer =
    if ltb (length message + length (until_zero buffer)) buffer_size
    then returns (message ++ until_zero buffer)
    else undefined

-- The text before the line end at `cr_index`, and the text behind it.
abbrev pub cut : List ℕ → ℕ → List Recv → Reading
cut message cr_index left = full (take cr_index message) (drop (cr_index + 2) message) left

unfoldable pub read_full_message : List Recv → List ℕ → Run Reading
read_full_message [] message =
    let cr_index = find_cr message (length message) in
    if ltb cr_index (length message)
    then returns (cut message cr_index [])
    else returns (waits message)
read_full_message (chunk buffer ∷ left) message =
    let cr_index = find_cr message (length message) in
    let rest = strncat message buffer >>= λ longer. read_full_message left longer in
    if ltb cr_index (length message)
    then returns (cut message cr_index (chunk buffer ∷ left))
    else rest
read_full_message (closed ∷ left) message =
    let cr_index = find_cr message (length message) in
    if ltb cr_index (length message)
    then returns (cut message cr_index (closed ∷ left))
    else returns ended
read_full_message (failed ∷ left) message =
    let cr_index = find_cr message (length message) in
    if ltb cr_index (length message)
    then returns (cut message cr_index (failed ∷ left))
    else returns ended
