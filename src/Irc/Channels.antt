-- ===== src/Irc/Channels.antt =====
-- irc/src/channel.h and channel.c: the members and the messages of a channel.
pub mod Members
use chi.Prelude.{
  ℕ, zero, suc, ◌+◌, Bool, true, false, ◌==◌, if◌then◌else◌, Option, none, some, List, length, take,
  ltb,
}
use chi.Db.Run.{Run, returns, undefined, ◌>>=◌}
use chi.Irc.Users.{User, user_is, same_string}

abbrev pub max_channel_members : ℕ
max_channel_members = 100

abbrev pub max_saved_msgs : ℕ
max_saved_msgs = 100

-- `members` and `msgs` hold addresses; 0 is the null pointer.
pub record Channel : Type 0 where
  pub name : List ℕ
  pub members : ℕ → ℕ
  pub msgs : ℕ → ℕ

-- A name of more than 50 characters is cut to 49. Behind one of exactly 50 there is no zero, which is
-- not followed.
abbrev pub cut_name : List ℕ → List ℕ
cut_name name = if ltb 50 (length name) then take 49 name else name

unfoldable pub init_channel : List ℕ → Channel
init_channel name = record { name = cut_name name; members = λ i. 0; msgs = λ i. 0 }

-- The first null pointer of an array from index `i` on.
unfoldable pub first_null : ℕ → ℕ → (ℕ → ℕ) → Option ℕ
first_null zero i f = none
first_null (suc rounds) i f =
    let rest = first_null rounds (i + 1) f in if f i == 0 then some i else rest

abbrev pub put : (ℕ → ℕ) → ℕ → Option ℕ → ℕ → ℕ
put f p none j = f j
put f p (some i) j = if j == i then p else f j

-- Where there is no room the code prints that and goes on.
unfoldable pub add_msg : ℕ → Channel → Channel
add_msg msg channel = record channel {
  msgs = put channel.msgs msg (first_null max_saved_msgs 0 channel.msgs);
}

unfoldable pub add_member : ℕ → Channel → Channel
add_member member channel = record channel {
  members = put channel.members member (first_null max_channel_members 0 channel.members);
}

-- `strcmp` of a member's nick, where one of the two is null.
abbrev pub member_is : Option (List ℕ) → Option (List ℕ) → Run Bool
member_is none nick = undefined
member_is (some n) nick = user_is (some n) nick

unfoldable pub is_member_from : ℕ → ℕ → (ℕ → User) → User → Channel → Run Bool
is_member_from zero i heap user channel = returns false
is_member_from (suc rounds) i heap user channel =
    let rest = is_member_from rounds (i + 1) heap user channel in
    if channel.members i == 0
    then rest
    else (member_is (heap (channel.members i)).nick user.nick >>= λ b.
        if b then returns true else rest)

unfoldable pub is_member : (ℕ → User) → User → Channel → Run Bool
is_member heap user channel = is_member_from max_channel_members 0 heap user channel

abbrev pub max_channels : ℕ
max_channels = 100

-- The array CHANNELS from index `i` on, with the structs behind its addresses.
unfoldable pub get_channel_from : ℕ → ℕ → (ℕ → Channel) → (ℕ → ℕ) → List ℕ → ℕ
get_channel_from zero i heap channels name = 0
get_channel_from (suc rounds) i heap channels name =
    let rest = get_channel_from rounds (i + 1) heap channels name in
    if channels i == 0
    then rest
    else if same_string (heap (channels i)).name name
    then channels i
    else rest

unfoldable pub get_channel : (ℕ → Channel) → (ℕ → ℕ) → List ℕ → ℕ
get_channel heap channels name = get_channel_from max_channels 0 heap channels name

unfoldable pub add_channel : ℕ → (ℕ → ℕ) → ℕ → ℕ
add_channel new_channel channels = put channels new_channel (first_null max_channels 0 channels)
