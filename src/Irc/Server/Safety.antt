-- ===== src/Irc/Server/Safety.antt =====
-- irc/src/server.c: whom the server sends something to.
use chi.Prelude.{ℕ, ◌≡◌, ◌⊎◌, inl, inr, refl, sym, subst, Bool, true, false, Option, some, List}
use chi.Db.Run.{returns}
use chi.Irc.Users.{User, Server}
use chi.Irc.Message.{Message}
use chi.Irc.Reply.{State, with_string, send_rpl_yourhost, send_rpl_created, send_rpl_myinfo}
use chi.Irc.Server.{
  Command, nick_msg, user_msg, quit_msg, privmsg_msg, notice_msg, whois_msg, join_msg, ping_msg,
  pong_msg, motd_msg, lusers_msg, unknown_msg, command_of, handle_command, handle_msg,
}
use chi.Irc.Server.Replies.{
  reply_rules, Ends, either-Ends, Replies, lusers-Replies, motd-Replies, welcome-Replies,
}
use chi.Irc.Server.Registration.{
  registration_nick, registration_user, registration_step, register_result, registered, greetings,
  complete_registration, handle_registration, set_user, handle_valid,
}
use chi.Irc.Server.Addressed.{
  addressed_rules, Addressed, AddressedCommand, Replies-Addressed, same-Addressed,
  nicknameinuse-Addressed, quit-Addressed, unchanged-Addressed, command-Addressed,
}

set_user-Addressed :
    (client : ℕ) (user : User) (s : State)
    → Ends (Addressed client s) (returns (set_user client user s))
set_user-Addressed client user s = same-Addressed client s (set_user client user s) refl

pub greetings-Replies :
    (file : Option (List (List ℕ))) (client : ℕ) (s : State)
    → Ends (Replies client s) (greetings file client s)
unfolding send_rpl_yourhost send_rpl_created send_rpl_myinfo
greetings-Replies file client s =
    search (reply_rules, welcome-Replies, lusers-Replies, motd-Replies file) depth 12

registration_nick-Addressed :
    (msg : Message) (client : ℕ) (s : State)
    → Ends (Addressed client s) (registration_nick msg client s)
unfolding registration_nick
registration_nick-Addressed msg client s =
    search (addressed_rules, nicknameinuse-Addressed, set_user-Addressed)

registration_step-Addressed :
    (c : Command) (msg : Message) (client : ℕ) (s : State)
    → Ends (Addressed client s) (registration_step c msg client s)
unfolding registration_user
registration_step-Addressed nick_msg msg client s = registration_nick-Addressed msg client s
registration_step-Addressed user_msg msg client s = search (addressed_rules, set_user-Addressed)
registration_step-Addressed quit_msg msg client s = quit-Addressed msg client s
registration_step-Addressed privmsg_msg msg client s = unchanged-Addressed client s
registration_step-Addressed notice_msg msg client s = unchanged-Addressed client s
registration_step-Addressed whois_msg msg client s = unchanged-Addressed client s
registration_step-Addressed join_msg msg client s = unchanged-Addressed client s
registration_step-Addressed ping_msg msg client s = unchanged-Addressed client s
registration_step-Addressed pong_msg msg client s = unchanged-Addressed client s
registration_step-Addressed motd_msg msg client s = unchanged-Addressed client s
registration_step-Addressed lusers_msg msg client s = unchanged-Addressed client s
registration_step-Addressed unknown_msg msg client s = unchanged-Addressed client s

register_result-Addressed :
    (file : Option (List (List ℕ))) (client : ℕ) (s : State) (r : Bool × Server)
    → Ends (Addressed client s) (register_result file client s r)
register_result-Addressed file client s (false, server) = nicknameinuse-Addressed client _ _ s
register_result-Addressed file client s (true, server) =
    Replies-Addressed client (registered client s server) _
      (greetings-Replies file client (registered client s server))

registration-Addressed :
    (file : Option (List (List ℕ))) (msg : Message) (client : ℕ) (s : State)
    → Ends (Addressed client s) (handle_registration file msg client s)
unfolding handle_registration complete_registration
registration-Addressed file msg client s =
    search
      (addressed_rules, registration_step-Addressed, register_result-Addressed, unchanged-Addressed)
      depth 8

-- Where handling a message returns, all that has been sent since, and every connection that was ended,
-- is the client's own: for any message of a client that is not registered, and for any message of a
-- registered client that is neither a PRIVMSG nor a NOTICE. The other members of a channel are so not
-- told of a JOIN, which test_channel.py in irc/tests expects.
pub handle_valid-Addressed :
    (file : Option (List (List ℕ))) (client : ℕ) (msg : Message) (cmd : List ℕ) (s : State)
    → msg.cmd ≡ some cmd
    → ((s.server.heap client).is_registered ≡ false) ⊎ AddressedCommand (command_of cmd)
    → Ends (Addressed client s) (handle_valid file client msg s)
unfolding handle_valid handle_msg
handle_valid-Addressed file client msg cmd s e (inl out) =
    rw out (registration-Addressed file msg client s)
handle_valid-Addressed file client msg cmd s e (inr a) =
    either-Ends (Addressed client s) (s.server.heap client).is_registered _ _
      (subst
        (λ x.
          Ends (Addressed client s)
            (with_string x (λ c. handle_command file (command_of c) c msg client s)))
        (sym e) (command-Addressed file (command_of cmd) cmd msg client s a))
      (registration-Addressed file msg client s)
