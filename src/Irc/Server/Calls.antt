-- ===== src/Irc/Server/Calls.antt =====
-- The calls that the server makes of user.c and channel.c do not run out of fuel.
use chi.Prelude.{ℕ, zero, suc, false, Option, none, some, List}
use chi.Db.Run.{Run, returns, ◌>>=◌}
use chi.Irc.Users.{
  User, Server, user_is, get_user_from, get_user, put_user, register_user, delete_null, delete_user,
  update_nick,
}
use chi.Irc.Channels.{Channel, member_is, is_member_from, is_member}
use chi.Irc.Server.Replies.{Ends, bind-Ends, either-Ends, undefined-Ends}

abbrev pub IsAny : {A : Type 0} → A → Type 0
IsAny a = Unit

IsAny-returns : {A : Type 0} (a : A) → Ends IsAny (returns a)
IsAny-returns a = record { result = tt }

IsAny-bind :
    {A B : Type 0} (run : Run A) (f : A → Run B)
    → Ends IsAny run
    → ((a : A) → Ends IsAny (f a))
    → Ends IsAny (run >>= f)
IsAny-bind run f h k = bind-Ends IsAny IsAny h (λ a u. k a)

ruleset any_rules = (IsAny-returns, IsAny-bind, either-Ends, undefined-Ends)

user_is-Ends : (x nick : Option (List ℕ)) → Ends IsAny (user_is x nick)
user_is-Ends none nick = IsAny-returns false
user_is-Ends (some n) none = undefined-Ends IsAny
user_is-Ends (some n) (some m) = record { result = tt }

get_user_from-Ends :
    (rounds i : ℕ) (server : Server) (nick : Option (List ℕ))
    → Ends IsAny (get_user_from rounds i server nick)
unfolding get_user_from
get_user_from-Ends zero i server nick = IsAny-returns 0
get_user_from-Ends (suc rounds) i server nick =
    search (any_rules, user_is-Ends, get_user_from-Ends rounds)

pub get_user-Ends : (server : Server) (nick : Option (List ℕ)) → Ends IsAny (get_user server nick)
unfolding get_user
get_user-Ends server nick = get_user_from-Ends _ 0 server nick

put_user-Ends :
    (server : Server) (client : ℕ) (i : Option ℕ) → Ends IsAny (put_user server client i)
put_user-Ends server client none = undefined-Ends IsAny
put_user-Ends server client (some i) = record { result = tt }

pub register_user-Ends : (server : Server) (client : ℕ) → Ends IsAny (register_user server client)
unfolding register_user
register_user-Ends server client = search (any_rules, get_user-Ends, put_user-Ends)

delete_null-Ends : (server : Server) (i : Option ℕ) → Ends IsAny (delete_null server i)
delete_null-Ends server none = IsAny-returns server
delete_null-Ends server (some i) = undefined-Ends IsAny

pub delete_user-Ends : (server : Server) (client : ℕ) → Ends IsAny (delete_user server client)
unfolding delete_user
delete_user-Ends server client = search (any_rules, delete_null-Ends)

pub update_nick-Ends :
    (server : Server) (nick : List ℕ) (client : ℕ) → Ends IsAny (update_nick server nick client)
unfolding update_nick
update_nick-Ends server nick client = search (any_rules, get_user-Ends)

member_is-Ends : (x nick : Option (List ℕ)) → Ends IsAny (member_is x nick)
member_is-Ends none nick = undefined-Ends IsAny
member_is-Ends (some n) nick = user_is-Ends (some n) nick

is_member_from-Ends :
    (rounds i : ℕ) (heap : ℕ → User) (user : User) (channel : Channel)
    → Ends IsAny (is_member_from rounds i heap user channel)
unfolding is_member_from
is_member_from-Ends zero i heap user channel = IsAny-returns false
is_member_from-Ends (suc rounds) i heap user channel =
    search (any_rules, member_is-Ends, is_member_from-Ends rounds)

pub is_member-Ends :
    (heap : ℕ → User) (user : User) (channel : Channel) → Ends IsAny (is_member heap user channel)
unfolding is_member
is_member-Ends heap user channel = is_member_from-Ends _ 0 heap user channel
