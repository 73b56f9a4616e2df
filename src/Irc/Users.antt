-- ===== src/Irc/Users.antt =====
-- irc/src/user.h and user.c: the table of users. Each call holds the lock of the table throughout, so
-- that the calls follow one another.
pub mod Nicks
pub mod Table
use chi.Prelude.{
  ℕ, zero, suc, ◌+◌, Bool, true, false, ◌&&◌, ◌==◌, if◌then◌else◌, Option, none, some, List, [],
  ◌∷◌,
}
use chi.Db.Run.{Run, returns, undefined, ◌>>=◌}

abbrev pub max_users : ℕ
max_users = 100

-- `strcmp(a, b) == 0`
unfoldable pub same_string : List ℕ → List ℕ → Bool
same_string [] [] = true
same_string [] (b ∷ bs) = false
same_string (a ∷ as') [] = false
same_string (a ∷ as') (b ∷ bs) = let rest = same_string as' bs in a == b && rest

-- The fields of the socket and its address are not modelled. `none` is the null pointer.
pub record User : Type 0 where
  pub is_registered : Bool
  pub hostname : Option (List ℕ)
  pub nick : Option (List ℕ)
  pub username : Option (List ℕ)
  pub full_name : Option (List ℕ)

-- A user is known by the address of its struct, which is not 0. `users` is the array USERS.
pub record Server : Type 0 where
  pub heap : ℕ → User
  pub users : ℕ → ℕ

unfoldable pub init_user : User
init_user = record {
  is_registered = false;
  hostname = none;
  nick = none;
  username = none;
  full_name = none;
}

abbrev pub is_some : Option (List ℕ) → Bool
is_some none = false
is_some (some s) = true

unfoldable pub is_user_complete : User → Bool
is_user_complete client = is_some client.nick && is_some client.username && is_some client.full_name

-- `strcmp` with a nick that is not null: `none` is the null pointer that `get_user` was given.
abbrev pub nick_is : Option (List ℕ) → List ℕ → Run Bool
nick_is none n = undefined
nick_is (some m) n = returns (same_string n m)

-- The nick of a user against the one that is sought.
abbrev pub user_is : Option (List ℕ) → Option (List ℕ) → Run Bool
user_is none nick = returns false
user_is (some n) nick = nick_is nick n

abbrev pub slot_is : Server → ℕ → Option (List ℕ) → Run Bool
slot_is s i nick = if s.users i == 0 then returns false else user_is (s.heap (s.users i)).nick nick

-- The slots from index `i` on.
unfoldable pub get_user_from : ℕ → ℕ → Server → Option (List ℕ) → Run ℕ
get_user_from zero i s nick = returns 0
get_user_from (suc rounds) i s nick =
    let rest = get_user_from rounds (i + 1) s nick in
    slot_is s i nick >>= λ b. if b then returns (s.users i) else rest

unfoldable pub get_user : Server → Option (List ℕ) → Run ℕ
get_user s nick = get_user_from max_users 0 s nick

-- The first empty slot from index `i` on.
unfoldable pub free_slot : ℕ → ℕ → Server → Option ℕ
free_slot zero i s = none
free_slot (suc rounds) i s =
    let rest = free_slot rounds (i + 1) s in if s.users i == 0 then some i else rest

abbrev pub set_slot : Server → ℕ → ℕ → Server
set_slot s i p = record s { users = λ j. if j == i then p else s.users j }

-- Where the table is full the function ends without a value and without giving up the lock.
abbrev pub put_user : Server → ℕ → Option ℕ → Run (Bool × Server)
put_user s client none = undefined
put_user s client (some i) = returns (true, set_slot s i client)

unfoldable pub register_user : Server → ℕ → Run (Bool × Server)
register_user s client = get_user s (s.heap client).nick >>= λ found.
    if found == 0 then put_user s client (free_slot max_users 0 s) else returns (false, s)

-- The memory of the user is free from then on.
unfoldable pub delete_user_from : ℕ → ℕ → Server → ℕ → Server
delete_user_from zero i s client = s
delete_user_from (suc rounds) i s client =
    let rest = delete_user_from rounds (i + 1) s client in
    if s.users i == client then set_slot s i 0 else rest

-- Where the null pointer is given, an empty slot matches, and `free_user` reads its fields.
abbrev pub delete_null : Server → Option ℕ → Run Server
delete_null s none = returns s
delete_null s (some i) = undefined

unfoldable pub delete_user : Server → ℕ → Run Server
delete_user s client =
    if client == 0
    then delete_null s (free_slot max_users 0 s)
    else returns (delete_user_from max_users 0 s client)

-- The new string is copied into memory that is one byte short, which is not followed.
unfoldable pub update_nick : Server → List ℕ → ℕ → Run (Bool × Server)
update_nick s new_nick client = get_user s (s.heap client).nick >>= λ found.
    if found == 0
    then returns (
      true,
      record s {
        heap = λ p. if p == client then record (s.heap p) { nick = some new_nick } else s.heap p;
      },
    )
    else returns (false, s)

unfoldable pub count_users : ℕ → ℕ → Server → ℕ
count_users zero i s = 0
count_users (suc rounds) i s =
    let rest = count_users rounds (i + 1) s in if s.users i == 0 then rest else suc rest

unfoldable pub get_num_users : Server → ℕ
get_num_users s = count_users max_users 0 s
