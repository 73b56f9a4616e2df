-- ===== src/Irc/Server/Addressed.antt =====
-- irc/src/server.c: the replies to a registered client's message go to that client.
use mathlib.Core.List.{append_assoc, append-nil}
use chi.Prelude.{
  ℕ, ◌≡◌, ◌≢◌, refl, sym, ◌∙◌, ap, Bool, true, false, ◌==◌, Option, List, [], ◌∷◌, ◌++◌,
}
use chi.Db.Run.{Run, returns, ◌>>=◌}
use chi.Irc.Users.{Server}
use chi.Irc.Message.{Message}
use chi.Irc.Reply.{
  State, Event, sent, closes, emit, put_reply, numeric, send_err_alreadyregistred,
  send_err_nicknameinuse, send_rpl_whoisuser, send_rpl_whoisserver, send_rpl_endofwhois,
  send_err_nosuchnick, send_err_unknowncommand, send_quit_response, send_pong,
}
use chi.Irc.Server.{
  Command, nick_msg, user_msg, quit_msg, privmsg_msg, notice_msg, whois_msg, join_msg, ping_msg,
  pong_msg, motd_msg, lusers_msg, unknown_msg, handle_command, handle_nick_msg, nick_result,
  handle_user_msg, handle_quit_msg, handle_whois_msg, handle_join_msg, handle_ping_msg, with_server,
  arg, join_channel, joined_channel, new_channel,
}
use chi.Irc.Channels.{get_channel, is_member, cut_name}
use chi.Irc.Server.Replies.{
  join_replies-Replies, reply_rules, Ends, bind-Ends, map-Ends, either-Ends, with_string-Ends,
  undefined-Ends, AllTo, AllTo-append, Replies, put_reply-Replies, numeric-Replies,
  nicknameinuse-Replies, lusers-Replies, motd-Replies, welcome-Replies,
}
use chi.Irc.Server.Calls.{
  IsAny, get_user-Ends, update_nick-Ends, delete_user-Ends, register_user-Ends, is_member-Ends,
}

-- A state with more events, all of them for the client.
abbrev pub Addressed : ℕ → State → State → Type 0
Addressed client s t = (es : List Event) × AllTo client es × (t.events ≡ s.events ++ es)

pub Replies-Addressed :
    (client : ℕ) (s : State) (run : Run State)
    → Ends (Replies client s) run
    → Ends (Addressed client s) run
Replies-Addressed client s run h =
    map-Ends (Replies client s) (Addressed client s)
      (λ t (es, a, e). (es, a, ap (λ (x : State). x.events) e)) h

Addressed-trans :
    (client : ℕ) (s t u : State)
    → Addressed client s t
    → Addressed client t u
    → Addressed client s u
Addressed-trans client s t u (es, a, e) (fs, b, f) = (
  es ++ fs,
  AllTo-append client es fs a b,
  f ∙ ap (λ (x : List Event). x ++ fs) e ∙ append_assoc s.events es fs,
)

pub same-Addressed :
    (client : ℕ) (s t : State) → t.events ≡ s.events → Ends (Addressed client s) (returns t)
same-Addressed client s t e = record { result = ([], tt, e ∙ sym (append-nil s.events)) }

pub then-Addressed :
    (client : ℕ) (s : State) (run : Run State) (f : State → Run State)
    → Ends (Addressed client s) run
    → ((t : State) → Ends (Addressed client t) (f t))
    → Ends (Addressed client s) (run >>= f)
then-Addressed client s run f h k = bind-Ends (Addressed client s) (Addressed client s) h (λ t r.
    map-Ends (Addressed client t) (Addressed client s) (λ u q. Addressed-trans client s t u r q)
      (k t))

pub ask-Addressed :
    {A : Type 0} (client : ℕ) (s : State) (run : Run A) (f : A → Run State)
    → Ends IsAny run
    → ((a : A) → Ends (Addressed client s) (f a))
    → Ends (Addressed client s) (run >>= f)
ask-Addressed client s run f h k = bind-Ends IsAny (Addressed client s) h (λ a u. k a)

pub put_reply-Addressed :
    (client : ℕ) (reply : List ℕ) (s : State) → Ends (Addressed client s) (put_reply client reply s)
put_reply-Addressed client reply s = Replies-Addressed client s _ (put_reply-Replies client reply s)

pub numeric-Addressed :
    (code : List ℕ) (client : ℕ) (parts : List (List ℕ)) (s : State)
    → Ends (Addressed client s) (numeric code client parts s)
numeric-Addressed code client parts s =
    Replies-Addressed client s _ (numeric-Replies code client parts s)

pub sent-Addressed :
    (client : ℕ) (bytes : List ℕ) (s : State)
    → Ends (Addressed client s) (returns (emit (sent client bytes) s))
sent-Addressed client bytes s = record { result = (sent client bytes ∷ [], (refl, tt), refl) }

pub ruleset addressed_rules = (
  either-Ends, with_string-Ends, undefined-Ends, put_reply-Addressed, numeric-Addressed,
  then-Addressed, ask-Addressed, sent-Addressed, same-Addressed, get_user-Ends, update_nick-Ends,
  delete_user-Ends, register_user-Ends, is_member-Ends,
)

pub nicknameinuse-Addressed :
    (client : ℕ) (old new : Option (List ℕ)) (s : State)
    → Ends (Addressed client s) (send_err_nicknameinuse client old new s)
nicknameinuse-Addressed client old new s =
    Replies-Addressed client s _ (nicknameinuse-Replies client old new s)

nick_result-Addressed :
    (client : ℕ) (nick : List ℕ) (s : State) (r : Bool × Server)
    → Ends (Addressed client s) (nick_result client nick s r)
nick_result-Addressed client nick s (true, server) = same-Addressed client s _ refl
nick_result-Addressed client nick s (false, server) = nicknameinuse-Addressed client _ _ s

pub nick-Addressed :
    (msg : Message) (client : ℕ) (s : State)
    → Ends (Addressed client s) (handle_nick_msg msg client s)
unfolding handle_nick_msg
nick-Addressed msg client s = search (addressed_rules, nick_result-Addressed)

closed-Addressed :
    (client : ℕ) (s : State) (server : Server)
    → Ends (Addressed client s) (returns (with_server (emit (closes client) s) server))
closed-Addressed client s server = record { result = (closes client ∷ [], (refl, tt), refl) }

pub quit-Addressed :
    (msg : Message) (client : ℕ) (s : State)
    → Ends (Addressed client s) (handle_quit_msg msg client s)
unfolding handle_quit_msg send_quit_response
quit-Addressed msg client s = search (addressed_rules, closed-Addressed)

whoisuser-Addressed :
    (client target : ℕ) (s : State) → Ends (Addressed client s) (send_rpl_whoisuser client target s)
unfolding send_rpl_whoisuser
whoisuser-Addressed client target s = search addressed_rules

whoisserver-Addressed :
    (client : ℕ) (target : Option (List ℕ)) (s : State)
    → Ends (Addressed client s) (send_rpl_whoisserver client target s)
unfolding send_rpl_whoisserver
whoisserver-Addressed client target s = search addressed_rules

endofwhois-Addressed :
    (client : ℕ) (target : Option (List ℕ)) (s : State)
    → Ends (Addressed client s) (send_rpl_endofwhois client target s)
unfolding send_rpl_endofwhois
endofwhois-Addressed client target s = search addressed_rules

nosuchnick-Addressed :
    (client : ℕ) (nick : Option (List ℕ)) (s : State)
    → Ends (Addressed client s) (send_err_nosuchnick client nick s)
unfolding send_err_nosuchnick
nosuchnick-Addressed client nick s = search addressed_rules

whois-Addressed :
    (msg : Message) (client : ℕ) (s : State)
    → Ends (Addressed client s) (handle_whois_msg msg client s)
unfolding handle_whois_msg
whois-Addressed msg client s = search (
  addressed_rules, whoisuser-Addressed, whoisserver-Addressed, endofwhois-Addressed,
  nosuchnick-Addressed,
)

pub unchanged-Addressed : (client : ℕ) (s : State) → Ends (Addressed client s) (returns s)
unchanged-Addressed client s = same-Addressed client s s refl

-- The state that the replies start from has the same events.
join_channel-Addressed :
    (msg : Message) (client channel : ℕ) (name : List ℕ) (s : State)
    → Ends (Addressed client s) (join_channel msg client channel name s)
join_channel-Addressed msg client channel name s =
    Replies-Addressed client (joined_channel msg client channel s) _
      (join_replies-Replies channel client name (joined_channel msg client channel s))

join-Addressed :
    (msg : Message) (client : ℕ) (s : State)
    → Ends (Addressed client s) (handle_join_msg msg client s)
unfolding handle_join_msg
join-Addressed msg client s = with_string-Ends (Addressed client s) (arg 0 msg) _ (λ name.
    either-Ends (Addressed client s) (get_channel s.channel_heap s.channels name == 0) _ (returns s)
      (ask-Addressed client s
        (is_member s.server.heap (s.server.heap client) ((new_channel name s).channel_heap s.next))
        _
        (is_member-Ends s.server.heap (s.server.heap client)
          ((new_channel name s).channel_heap s.next))
        (λ member.
          either-Ends (Addressed client s) member (returns (new_channel name s))
            (join_channel msg client s.next (cut_name name) (new_channel name s))
            (same-Addressed client s (new_channel name s) refl)
            (join_channel-Addressed msg client s.next (cut_name name) (new_channel name s))))
      (unchanged-Addressed client s))

abbrev pub AddressedCommand : Command → Type 0
AddressedCommand c = (c ≢ privmsg_msg) × (c ≢ notice_msg)

pub command-Addressed :
    (file : Option (List (List ℕ))) (c : Command) (cmd : List ℕ) (msg : Message) (client : ℕ)
    (s : State)
    → AddressedCommand c
    → Ends (Addressed client s) (handle_command file c cmd msg client s)
unfolding handle_user_msg handle_ping_msg send_err_alreadyregistred send_pong
    send_err_unknowncommand
command-Addressed file nick_msg cmd msg client s a = nick-Addressed msg client s
command-Addressed file user_msg cmd msg client s a = search addressed_rules
command-Addressed file quit_msg cmd msg client s a = quit-Addressed msg client s
command-Addressed file privmsg_msg cmd msg client s a = absurd (a.0 refl)
command-Addressed file notice_msg cmd msg client s a = absurd (a.1 refl)
command-Addressed file whois_msg cmd msg client s a = whois-Addressed msg client s
command-Addressed file join_msg cmd msg client s a = join-Addressed msg client s
command-Addressed file ping_msg cmd msg client s a = search addressed_rules
command-Addressed file pong_msg cmd msg client s a = unchanged-Addressed client s
command-Addressed file motd_msg cmd msg client s a =
    Replies-Addressed client s _ (motd-Replies file client s)
command-Addressed file lusers_msg cmd msg client s a =
    Replies-Addressed client s _ (lusers-Replies client s)
command-Addressed file unknown_msg cmd msg client s a = search addressed_rules
