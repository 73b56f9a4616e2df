-- ===== src/Irc/Reply/Send.antt =====
-- The state of the server, and send_reply of irc/src/reply.c. What is sent is an event of the state; a
-- send is taken to be complete.
use chi.Prelude.{
  ℕ, zero, suc, ◌+◌, ◌-◌, ◌/◌, ◌%◌, ◌^◌, ltb, leb, ◌==◌, if◌then◌else◌, Option, none, some, List,
  [], ◌∷◌, ◌++◌, length, take, codes,
}
use chi.Db.Run.{Run, returns, undefined}
use chi.Irc.Users.{Server}
use chi.Irc.Channels.{Channel}
use chi.Irc.Message.{Message}

-- `archived_msg`, with the sender's address.
pub record Archived : Type 0 where
  pub msg : Message
  pub sender : ℕ

-- Bytes that are sent to a user, or the end of the user's connection.
pub data Event : Type 0 where
  sent : ℕ → List ℕ → Event
  closes : ℕ → Event

-- The globals and the memory behind their addresses. `next` is what `malloc` gives next, and
-- `num_unregisterred` is a word.
pub record State : Type 0 where
  pub server : Server
  pub channel_heap : ℕ → Channel
  pub channels : ℕ → ℕ
  pub archive : ℕ → Archived
  pub next : ℕ
  pub num_unregisterred : ℕ
  pub events : List Event

abbrev pub emit : Event → State → State
emit event s = record s { events = s.events ++ (event ∷ []) }

abbrev pub format : List (List ℕ) → List ℕ
format [] = []
format (part ∷ parts) = part ++ format parts

-- `%s`, which the null pointer is not for.
abbrev pub with_string : Option (List ℕ) → (List ℕ → Run State) → Run State
with_string none f = undefined
with_string (some s) f = f s

-- `%d` of a word that stands for an `int`.
unfoldable pub digits : ℕ → ℕ → List ℕ
digits zero n = []
digits (suc rounds) n =
    let rest = digits rounds (n / 10) in
    if ltb n 10 then (n + b'0') ∷ [] else rest ++ ((n % 10 + b'0') ∷ [])

unfoldable pub decimal : ℕ → List ℕ
decimal n = if ltb n (2 ^ 31) then digits 10 n else b'-' ∷ digits 10 (2 ^ 32 - n)

abbrev pub server_name : List ℕ
server_name = codes "localhost"

abbrev pub version : List ℕ
version = codes "v3.14"

abbrev pub created : List ℕ
created = codes "yesterday"

abbrev pub user_modes : List ℕ
user_modes = codes "ao"

abbrev pub channel_modes : List ℕ
channel_modes = codes "mtov"

abbrev pub full_reply : List ℕ → List ℕ
full_reply reply = format (codes ":" ∷ server_name ∷ codes " " ∷ reply ∷ codes "\r\n" ∷ [])

-- Of 513 characters the last is cut, and the zero behind the others is sent. Of more than that, more is
-- sent than there is in `full_reply`.
unfoldable pub send_reply : ℕ → List ℕ → State → Run State
send_reply client reply s =
    let full = full_reply reply in
    if leb (length full) 512
    then returns (emit (sent client full) s)
    else if length full == 513
    then returns (emit (sent client (take 512 full ++ (0 ∷ []))) s)
    else undefined

-- `sprintf` into 512 characters, then `send_reply`.
unfoldable pub put_reply : ℕ → List ℕ → State → Run State
put_reply client reply s = if ltb (length reply) 512 then send_reply client reply s else undefined

abbrev pub nick_of : ℕ → State → Option (List ℕ)
nick_of client s = (s.server.heap client).nick

abbrev pub username_of : ℕ → State → Option (List ℕ)
username_of client s = (s.server.heap client).username

abbrev pub full_name_of : ℕ → State → Option (List ℕ)
full_name_of client s = (s.server.heap client).full_name

abbrev pub hostname_of : ℕ → State → Option (List ℕ)
hostname_of client s = (s.server.heap client).hostname

-- A reply whose first two words are a code and the client's nick.
unfoldable pub numeric : List ℕ → ℕ → List (List ℕ) → State → Run State
numeric code client parts s =
    with_string (nick_of client s)
      (λ nick. put_reply client (format (code ∷ codes " " ∷ nick ∷ parts)) s)
