-- ===== src/Irc/Tests.antt =====
-- A server with one user in its table, and the theorems on the server at it.
mod Messages
mod Serving
use native.Mathlib.Decide.{ℕ_discrete}
use chi.Prelude.{
  ℕ, ◌<◌, ◌≡◌, refl, ◌⊎◌, true, false, ◌==◌, if◌then◌else◌, none, some, List, [], ◌∷◌, arith,
}
use chi.Db.Run.{returns, undefined}
use chi.Irc.Users.{
  User, Server, max_users, get_user, set_slot, register_user, update_nick, delete_user,
}
use chi.Irc.Users.Nicks.{HasNick, IsFull, Unique}
use chi.Prelude.{inl, inr}
use chi.Irc.Channels.{Channel, max_channel_members, add_member, is_member}
use chi.Irc.Channels.Members
use chi.Irc.Channels.Members.{Named, add_member_lem}
use chi.Irc.Users.Table.{register_user_lem, update_nick_lem, delete_user_lem}

abbrev ann : List ℕ
ann = 97 ∷ 110 ∷ 110 ∷ []

abbrev bob : List ℕ
bob = 98 ∷ 111 ∷ 98 ∷ []

abbrev named : List ℕ → User
named n = record {
  is_registered = false;
  hostname = none;
  nick = some n;
  username = none;
  full_name = none;
}

-- The users at the addresses 1 and 2, the first of them in slot 3.
abbrev server : Server
server = record {
  heap = λ p. if p == 1 then named ann else named bob;
  users = λ i. if i == 3 then 1 else 0;
}

only_slot : (i : ℕ) (n : List ℕ) → HasNick server i n → i ≡ 3
only_slot i n h = ground (arith, h.0)

server-Unique : Unique server
server-Unique i j n hi hj a b = omega (arith, only_slot i n a, only_slot j n b)

ann-HasNick : HasNick server 3 ann
ann-HasNick = (omega arith, refl)

register_user_lem_example :
    ((j : ℕ) × (j < max_users)
      × HasNick server j bob
      × (register_user server 2 ≡ returns (false, server)))
    ⊎ ((i : ℕ) × (i < max_users)
        × (server.users i ≡ 0)
        × (register_user server 2 ≡ returns (true, set_slot server i 2))
        × Unique (set_slot server i 2)
        × (get_user (set_slot server i 2) (some bob) ≡ returns 2))
    ⊎ (IsFull server × (register_user server 2 ≡ undefined))
register_user_lem_example = register_user_lem server 2 bob (omega arith) refl server-Unique

update_nick_lem_example : update_nick server bob 1 ≡ returns (false, server)
update_nick_lem_example = update_nick_lem server 3 ann bob (omega arith) ann-HasNick

delete_user_lem_example :
    (delete_user server 1 ≡ returns (set_slot server 3 0))
    × Unique (set_slot server 3 0)
    × (get_user (set_slot server 3 0) (some ann) ≡ returns 0)
delete_user_lem_example = delete_user_lem server 3 ann (omega arith) ann-HasNick server-Unique

-- A channel with the first user as its only member.
abbrev channel : Channel
channel = record { name = 35 ∷ []; members = λ i. if i == 0 then 1 else 0; msgs = λ i. 0 }

channel-Named : Named server.heap channel
channel-Named j = elim (ℕ_discrete j 0) [
  | yes e ↦ inr (ann, rw e ((omega arith), refl))
  | no ne ↦ inl (ground (arith, ne))
]

add_member_lem_example :
    ((i : ℕ) × (i < max_channel_members)
      × (channel.members i ≡ 0)
      × (((add_member 2 channel).members i ≡ 2)
          × Named server.heap (add_member 2 channel)
          × (is_member server.heap (server.heap 2) (add_member 2 channel) ≡ returns true)))
    ⊎ (Members.IsFull channel × (add_member 2 channel ≡ channel))
add_member_lem_example = add_member_lem server.heap channel 2 bob (omega arith) refl channel-Named
