-- ===== src/Irc/Tests/Serving.antt =====
-- A server with a registered client and a new one, what it does with their messages, and its theorems
-- there.
use chi.Prelude.{
  ℕ, ◌≤◌, ◌<◌, ◌≡◌, ◌≢◌, ◌⊎◌, inr, refl, sym, ◌∙◌, ap, true, false, ◌==◌, if◌then◌else◌, none, some,
  List, [], ◌∷◌, length, codes, arith,
}
use chi.Db.Run.{returns}
use chi.Irc.Users.{User, max_users, get_user, get_user_from, set_slot, same_string}
use chi.Irc.Users.Nicks.{HasNick, Unique}
use chi.Irc.Channels.{init_channel}
use chi.Irc.Message.{Message}
use chi.Irc.Reply.{State, sent, closes, emit, full_reply, clipped}
use chi.Irc.Server.{command_of, handle_privmsg_msg}
use chi.Irc.Server.Joining.{join_existing}
use chi.Irc.Server.Registration.{handle_registration, handle_valid}
use chi.Irc.Server.Replies.{Ends}
use chi.Irc.Server.Addressed.{Addressed}
use chi.Irc.Server.Safety.{handle_valid-Addressed}
use chi.Irc.Server.Messages.{relayed, privmsg_lem}
use chi.Irc.Server.Leaving.{handle_valid-nick, handle_valid-quit}
use chi.Irc.Server.Slots.{OutsideOrIn, IsSound, IsInside}
use chi.Irc.Server.Enrolled.{registers}
use chi.Irc.Server.Registered.{handle_registration_lem}

abbrev ann_user : User
ann_user = record {
  is_registered = true;
  hostname = some (codes "home");
  nick = some (codes "ann");
  username = some (codes "a");
  full_name = some (codes "Ann");
}

abbrev new_user : User
new_user = record {
  is_registered = false;
  hostname = some (codes "cafe");
  nick = none;
  username = some (codes "b");
  full_name = some (codes "Bob");
}

-- Ann's address is 1, in slot 0; the new client's is 2.
abbrev state : State
state = record {
  server = record {
    heap = λ p. if p == 1 then ann_user else new_user;
    users = λ i. if i == 0 then 1 else 0;
  };
  channel_heap = λ p. init_channel [];
  channels = λ i. 0;
  archive = λ p. record { msg = record { prefix = none; cmd = none; args = [] }; sender = 0 };
  next = 3;
  num_unregisterred = 1;
  events = [];
}

abbrev message : List ℕ → List (List ℕ) → Message
message cmd args = record { prefix = none; cmd = some cmd; args = args }

has_ann : HasNick state.server 0 (codes "ann")
has_ann = ((λ z. absurd (omega arith)), refl)

only_slot : (i : ℕ) → state.server.users i ≢ 0 → i ≡ 0
only_slot i h = ground arith

unique : Unique state.server
unique i j n li lj ki kj = only_slot i ki.0 ∙ sym (only_slot j kj.0)

sound_at :
    (j : ℕ)
    → j < max_users
    → state.server.users j ≢ 0
    → (state.server.heap (state.server.users j)).is_registered ≡ true
sound_at j lt h =
    ap (λ (i : ℕ). (state.server.heap (state.server.users i)).is_registered) (only_slot j h)

new_is_outside : (j : ℕ) → j < max_users → state.server.users j ≢ 2
new_is_outside j lt h = ground arith

handle_valid-Addressed_example :
    Ends
      (Addressed 1 state)
      (handle_valid none 1 (message (codes "WHOIS") (codes "ann" ∷ [])) state)
unfolding command_of same_string
handle_valid-Addressed_example =
    handle_valid-Addressed none 1 (message (codes "WHOIS") (codes "ann" ∷ [])) (codes "WHOIS") state
      refl (inr ((λ e. ground arith), (λ e. ground arith)))

privmsg_lem_example :
    ((j : ℕ) × (bytes : List ℕ) × (j < max_users)
      × HasNick state.server j (codes "bob")
      × (bytes
          ≡ clipped (
              relayed
                (codes "ann")
                (codes "a")
                (codes "home")
                (codes "PRIVMSG")
                (codes "bob")
                (codes "hi")))
      × (length bytes ≤ 512)
      × (handle_privmsg_msg (message (codes "PRIVMSG") (codes "bob" ∷ codes "hi" ∷ [])) 1 state
          ≡ returns (emit (sent (state.server.users j) bytes) state)))
    ⊎ (((j : ℕ) → j < max_users → HasNick state.server j (codes "bob") → ⊥)
        × (handle_privmsg_msg (message (codes "PRIVMSG") (codes "bob" ∷ codes "hi" ∷ [])) 1 state
            ≡ returns
                (emit (sent 1 (full_reply (codes "401 ann bob :No such nick/channel"))) state)))
privmsg_lem_example =
    privmsg_lem state 1 (message (codes "PRIVMSG") (codes "bob" ∷ codes "hi" ∷ [])) (codes "ann")
      (codes "a") (codes "home") (codes "bob") (codes "hi") [] (refl, refl, refl) refl (omega arith)

handle_valid-nick_example :
    handle_valid none 1 (message (codes "NICK") (codes "eve" ∷ [])) state
    ≡ returns (emit (sent 1 (full_reply (codes "433 ann eve :Nickname is already in use"))) state)
handle_valid-nick_example =
    handle_valid-nick none 0 (message (codes "NICK") (codes "eve" ∷ [])) (codes "ann") (codes "eve")
      [] state (omega arith) has_ann refl refl refl (omega arith)

handle_valid-quit_example :
    (t : State) × (handle_valid none 1 (message (codes "QUIT") []) state ≡ returns t)
    × (t.server ≡ set_slot state.server 0 0)
    × (get_user t.server (some (codes "ann")) ≡ returns 0)
    × Unique t.server
    × (t.events
        ≡ sent 1 (full_reply (codes "ERROR :Closing Link: home (Client Quit)")) ∷ closes 1 ∷ [])
handle_valid-quit_example =
    handle_valid-quit none 0 (message (codes "QUIT") []) (codes "ann") (codes "home") state
      (omega arith) has_ann unique refl refl refl (omega arith)

handle_registration_lem_example :
    Ends
      (λ (t : State). OutsideOrIn 2 t.server)
      (handle_registration none (message (codes "NICK") (codes "bob" ∷ [])) 2 state)
handle_registration_lem_example =
    handle_registration_lem none (message (codes "NICK") (codes "bob" ∷ [])) 2 state
      (λ z. absurd (omega arith)) (unique, sound_at) (refl, new_is_outside)

-- The server with a channel that has no members, in the second slot.
abbrev with_channel : State
with_channel = record state {
  channel_heap = λ p. init_channel (codes "#a");
  channels = λ i. if i == 1 then 9 else 0;
}

join_existing_example :
    handle_valid none 1 (message (codes "JOIN") (codes "#a" ∷ [])) with_channel
    ≡ returns with_channel
unfolding init_channel
join_existing_example =
    join_existing none 1 1 (message (codes "JOIN") (codes "#a" ∷ [])) (codes "#a") [] with_channel
      (omega arith) ((λ z. absurd (omega arith)), refl) refl refl refl

-- The same server before the new client has sent anything.
abbrev early : State
early = record state {
  server = record state.server {
    heap = λ p. if p == 1 then ann_user else record new_user { username = none; full_name = none };
  };
}

early-Unique : Unique early.server
early-Unique i j n li lj ki kj = only_slot i ki.0 ∙ sym (only_slot j kj.0)

early_sound :
    (j : ℕ)
    → j < max_users
    → early.server.users j ≢ 0
    → (early.server.heap (early.server.users j)).is_registered ≡ true
early_sound j lt h =
    ap (λ (i : ℕ). (early.server.heap (early.server.users i)).is_registered) (only_slot j h)

bob_unused : get_user early.server (some (codes "bob")) ≡ returns 0
unfolding get_user get_user_from same_string
bob_unused = refl

registers_example :
    (t : State) × (handle_valid none 2 (message (codes "NICK") (codes "bob" ∷ [])) early
      ≡ returns t)
    × (u : State) × (handle_valid none 2
          (message (codes "USER") (codes "b" ∷ codes "0" ∷ codes "*" ∷ codes "Bob" ∷ []))
          t
        ≡ returns u)
    × IsSound u.server
    × IsInside 2 u.server
registers_example =
    registers none 2 1 (codes "bob") (codes "b") (codes "cafe") (codes "Bob") (codes "0")
      (codes "*") [] [] (message (codes "NICK") (codes "bob" ∷ []))
      (message (codes "USER") (codes "b" ∷ codes "0" ∷ codes "*" ∷ codes "Bob" ∷ [])) early
      (λ z. absurd (omega arith)) (early-Unique, early_sound) (refl, new_is_outside) refl refl
      bob_unused (omega arith) refl (omega arith, omega arith, omega arith) tt refl refl refl refl
