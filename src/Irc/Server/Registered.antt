-- ===== src/Irc/Server/Registered.antt =====
-- irc/src/server.c: a client stays out of the table until it is registered, and then its nick finds it.
use mathlib.Core.Bool.{true≢false}
use chi.Prelude.{
  ℕ, ◌≡◌, ◌≢◌, inl, inr, refl, sym, ◌∙◌, ap, subst, true, ◌==◌, ◌&&◌, if◌then◌else◌, Option, none,
  some, List, codes, arith, ne→==, Bool-cases,
}
use chi.Db.Run.{Run, returns, ◌>>=◌}
use chi.Irc.Users.{
  User, Server, max_users, set_slot, register_user, delete_user, is_user_complete, is_some,
}
use chi.Irc.Users.Table.{register_user_lem, delete_user_from-none}
use chi.Irc.Message.{Message}
use chi.Irc.Reply.{State, closes, emit, nick_of, send_quit_response}
use chi.Irc.Server.{
  Command, nick_msg, user_msg, quit_msg, privmsg_msg, notice_msg, whois_msg, join_msg, ping_msg,
  pong_msg, motd_msg, lusers_msg, unknown_msg, command_of, arg, with_server, handle_quit_msg,
}
use chi.Irc.Server.Replies.{
  Ends, bind-Ends, map-Ends, either-Ends, with_string-Ends, undefined-Ends, Replies,
  nicknameinuse-Replies, put_reply-Replies,
}
use chi.Irc.Server.Calls.{IsAny, get_user-Ends}
use chi.Irc.Server.Safety.{greetings-Replies}
use chi.Irc.Server.Registration.{
  registration_nick, registration_user, registration_step, register_result, registered,
  complete_registration, handle_registration,
}
use chi.Irc.Server.Slots.{
  IsSound, IsOutside, OutsideOrIn, Outside, set_user-Outside, registered-Inside,
}

Replies-server :
    (client : ℕ) (s : State) (P : Server → Type 0) (run : Run State)
    → P s.server
    → Ends (Replies client s) run
    → Ends (λ (t : State). P t.server) run
Replies-server client s P run p h =
    map-Ends (Replies client s) (λ (t : State). P t.server)
      (λ t (es, a, e). subst P (sym (ap (λ (x : State). x.server) e)) p) h

-- A client that is not in the table leaves it as it is.
delete_user-Outside :
    (client : ℕ) (s : State)
    → client ≢ 0
    → Outside client s
    → delete_user s.server client ≡ returns s.server
unfolding delete_user
delete_user-Outside client s not_null (sound, (r, out)) =
    rw (ne→== client 0 not_null)
      (ap returns (delete_user_from-none max_users 0 s.server client (λ j lt. out j (omega arith))))

quit-Outside :
    (msg : Message) (client : ℕ) (s : State)
    → client ≢ 0
    → Outside client s
    → Ends (Outside client) (handle_quit_msg msg client s)
unfolding handle_quit_msg send_quit_response
quit-Outside msg client s not_null o =
    bind-Ends (Outside client) (Outside client)
      (Replies-server client s (λ x. IsSound x × IsOutside client x) _ o
        (with_string-Ends (Replies client s) _ _ (λ h. put_reply-Replies client _ s)))
      (λ t p.
        subst
          (λ x. Ends (Outside client) (x >>= λ v. returns (with_server (emit (closes client) t) v)))
          (sym (delete_user-Outside client t not_null p)) (record { result = p }))

nick-Outside :
    (msg : Message) (client : ℕ) (s : State)
    → Outside client s
    → Ends (Outside client) (registration_nick msg client s)
unfolding registration_nick
nick-Outside msg client s o =
    bind-Ends IsAny (Outside client) (get_user-Ends s.server (arg 0 msg)) (λ found u.
      either-Ends (Outside client) (found == 0) _ _
        (with_string-Ends (Outside client) (arg 0 msg) _ (λ nick. record {
          result =
              set_user-Outside client (record (s.server.heap client) { nick = some nick }) s o
                o.1.0;
        }))
        (Replies-server client s (λ x. IsSound x × IsOutside client x) _ o
          (nicknameinuse-Replies client (some (codes "*")) (arg 0 msg) s)))

step-Outside :
    (c : Command) (msg : Message) (client : ℕ) (s : State)
    → client ≢ 0
    → Outside client s
    → Ends (Outside client) (registration_step c msg client s)
unfolding registration_user
step-Outside nick_msg msg client s z o = nick-Outside msg client s o
step-Outside user_msg msg client s z o = with_string-Ends (Outside client) (arg 0 msg) _ (λ name.
    with_string-Ends (Outside client) (arg 3 msg) _ (λ full_name. record {
      result =
          set_user-Outside client
            (record (s.server.heap client) { username = some name; full_name = some full_name }) s o
            o.1.0;
    }))
step-Outside quit_msg msg client s z o = quit-Outside msg client s z o
step-Outside privmsg_msg msg client s z o = record { result = o }
step-Outside notice_msg msg client s z o = record { result = o }
step-Outside whois_msg msg client s z o = record { result = o }
step-Outside join_msg msg client s z o = record { result = o }
step-Outside ping_msg msg client s z o = record { result = o }
step-Outside pong_msg msg client s z o = record { result = o }
step-Outside motd_msg msg client s z o = record { result = o }
step-Outside lusers_msg msg client s z o = record { result = o }
step-Outside unknown_msg msg client s z o = record { result = o }

complete-named : (user : User) → is_user_complete user ≡ true → (n : List ℕ) × (user.nick ≡ some n)
unfolding is_user_complete
complete-named user h = by_nick user.nick refl
  where
    by_nick : (x : Option (List ℕ)) → user.nick ≡ x → (n : List ℕ) × (user.nick ≡ some n)
    by_nick none e = absurd (
        true≢false (
          sym h
          ∙ ap
              (λ (x : Option (List ℕ)).
                is_some x && is_some user.username && is_some user.full_name)
              e))
    by_nick (some n) e = (n, e)

complete-Inside :
    (file : Option (List (List ℕ))) (client : ℕ) (s : State)
    → client ≢ 0
    → Outside client s
    → Ends (λ (t : State). OutsideOrIn client t.server) (complete_registration file client s)
unfolding complete_registration
complete-Inside file client s z (sound, out) =
    elim (Bool-cases (is_user_complete (s.server.heap client))) [
      | inr f ↦
          subst (λ b. Ends P (if b then the_register else returns s)) (sym f)
            (record { result = (sound, inl out) })
      | inl t ↦
          let (n, named) = complete-named (s.server.heap client) t in
          subst (λ b. Ends P (if b then the_register else returns s)) (sym t)
            (elim (register_user_lem s.server client n z named sound.0) [
              | inl (j, lt, k, e) ↦
                  subst (λ x. Ends P (x >>= register_result file client s)) (sym e)
                    (Replies-server client s (OutsideOrIn client) _ (sound, inl out)
                      (nicknameinuse-Replies client (some (codes "*")) (nick_of client s) s))
              | inr (inl (i, lt, empty, e, u, found)) ↦
                  let (sd, ins) = registered-Inside client i n s z (sound, out) named lt u in
                  subst (λ x. Ends P (x >>= register_result file client s)) (sym e)
                    (Replies-server client (registered client s (set_slot s.server i client))
                      (OutsideOrIn client) _ (sd, inr ins)
                      (greetings-Replies file client
                        (registered client s (set_slot s.server i client))))
              | inr (inr (full, e)) ↦
                  subst (λ x. Ends P (x >>= register_result file client s)) (sym e)
                    (undefined-Ends P)
            ])
    ]
  where
    P : State → Type 0
    P t = OutsideOrIn client t.server

    the_register : Run State
    the_register = register_user s.server client >>= register_result file client s

-- Whatever message a client sends that is not registered, where the handling returns, the nicks of the
-- table are different and all its users are registered, as before, and the client is not registered
-- and not in the table, or it is registered and its nick finds it.
pub handle_registration_lem :
    (file : Option (List (List ℕ))) (msg : Message) (client : ℕ) (s : State)
    → client ≢ 0
    → IsSound s.server
    → IsOutside client s.server
    → Ends (λ (t : State). OutsideOrIn client t.server) (handle_registration file msg client s)
unfolding handle_registration
handle_registration_lem file msg client s z sound out =
    with_string-Ends (λ (t : State). OutsideOrIn client t.server) msg.cmd _
      (λ cmd.
        bind-Ends (Outside client) (λ (t : State). OutsideOrIn client t.server)
          (step-Outside (command_of cmd) msg client s z (sound, out))
          (λ t p. complete-Inside file client t z p))
