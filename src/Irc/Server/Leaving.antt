-- ===== src/Irc/Server/Leaving.antt =====
-- irc/src/server.c: a registered client's NICK and QUIT.
use chi.Prelude.{
  ℕ, ◌+◌, ◌≤◌, ◌<◌, ◌≡◌, refl, ◌∙◌, ap, true, Bool, if◌then◌else◌, Option, some, List, [], ◌∷◌,
  ◌++◌, length, length-append, get_elem?, codes, arith,
}
use mathlib.Core.List.{append_assoc}
use chi.Db.Run.{Run, returns, ◌>>=◌}
use chi.Irc.Users.{Server, max_users, get_user, set_slot, delete_user, same_string, update_nick}
use chi.Irc.Users.Nicks.{HasNick, Unique}
use chi.Irc.Users.Table.{update_nick_lem, delete_user_lem}
use chi.Irc.Message.{Message}
use chi.Irc.Reply.{
  State, sent, closes, emit, format, full_reply, with_string, put_reply, send_err_nicknameinuse,
  send_quit_response, quit_reason,
}
use chi.Irc.Server.{
  arg, command_of, handle_command, handle_nick_msg, handle_quit_msg, handle_msg, with_server,
  nick_result,
}
use chi.Irc.Server.Messages.{put_reply-eq}
use chi.Irc.Server.Registration.{handle_valid, handle_registration}

-- A registered client's message is handled by its command.
pub handle_valid-registered :
    (file : Option (List (List ℕ))) (client : ℕ) (msg : Message) (cmd : List ℕ) (s : State)
    → (s.server.heap client).is_registered ≡ true
    → msg.cmd ≡ some cmd
    → handle_valid file client msg s ≡ handle_command file (command_of cmd) cmd msg client s
unfolding handle_valid handle_msg
handle_valid-registered file client msg cmd s r e =
    ap
      (λ (b : Bool).
        if b then handle_msg file msg client s else handle_registration file msg client s)
      r
    ∙ ap
        (λ (x : Option (List ℕ)).
          with_string x (λ c. handle_command file (command_of c) c msg client s))
        e

-- A registered client of the table that asks for another nick is told that it is in use, whether it is
-- or not, in one reply, and nothing else changes: not even the nick.
pub handle_valid-nick :
    (file : Option (List (List ℕ))) (i : ℕ) (msg : Message) (nick new : List ℕ)
    (more : List (List ℕ)) (s : State)
    → i < max_users
    → HasNick s.server i nick
    → (s.server.heap (s.server.users i)).is_registered ≡ true
    → msg.cmd ≡ some (codes "NICK")
    → msg.args ≡ new ∷ more
    → length nick + length new ≤ 400
    → handle_valid file (s.server.users i) msg s
      ≡ returns (
          emit
            (sent (s.server.users i) (
              full_reply (
                format (
                  codes "433 "
                  ∷ nick
                  ∷ codes " "
                  ∷ new
                  ∷ codes " :Nickname is already in use"
                  ∷ []))))
            s)
unfolding handle_nick_msg send_err_nicknameinuse command_of same_string
handle_valid-nick file i msg nick new more s lt k r e args short =
    let first : arg 0 msg ≡ some new = ap (λ (l : List (List ℕ)). get_elem? l 0) args in
    let client = s.server.users i in
    handle_valid-registered file (s.server.users i) msg (codes "NICK") s r e
    ∙ ap
        (λ (x : Option (List ℕ)).
          with_string x
            (λ n. update_nick s.server n (s.server.users i) >>= nick_result (s.server.users i) n s))
        first
    ∙ ap (λ (x : Run (Bool × Server)). x >>= nick_result (s.server.users i) new s)
        (update_nick_lem s.server i nick new lt k)
    ∙ ap (λ (x : Option (List ℕ)). send_err_nicknameinuse (s.server.users i) x (some new) s) k.1
    ∙ put_reply-eq (s.server.users i)
        (format (codes "433 " ∷ nick ∷ codes " " ∷ new ∷ codes " :Nickname is already in use" ∷ []))
        s
        (omega (
          arith,
          length-append nick (codes " " ++ (new ++ codes " :Nickname is already in use")),
          length-append new (codes " :Nickname is already in use"),
        ))

-- What a QUIT does once the client is told.
abbrev leave : ℕ → State → Run State
leave client t =
    delete_user t.server client >>= λ server. returns (with_server (emit (closes client) t) server)

-- A registered client of the table that quits is told so, its connection ends, and it alone leaves the
-- table: its nick finds nobody, and the nicks of the table are still different.
pub handle_valid-quit :
    (file : Option (List (List ℕ))) (i : ℕ) (msg : Message) (nick hostname : List ℕ) (s : State)
    → i < max_users
    → HasNick s.server i nick
    → Unique s.server
    → (s.server.heap (s.server.users i)).is_registered ≡ true
    → (s.server.heap (s.server.users i)).hostname ≡ some hostname
    → msg.cmd ≡ some (codes "QUIT")
    → length hostname + length (quit_reason (arg 0 msg)) ≤ 400
    → (t : State) × (handle_valid file (s.server.users i) msg s ≡ returns t)
      × (t.server ≡ set_slot s.server i 0)
      × (get_user t.server (some nick) ≡ returns 0)
      × Unique t.server
      × (t.events
          ≡ s.events
            ++ (sent (s.server.users i) (
                  full_reply (
                    format (
                      codes "ERROR :Closing Link: "
                      ∷ hostname
                      ∷ codes " ("
                      ∷ quit_reason (arg 0 msg)
                      ∷ codes ")"
                      ∷ [])))
                ∷ closes (s.server.users i)
                ∷ []))
unfolding handle_quit_msg send_quit_response command_of same_string
handle_valid-quit file i msg nick hostname s lt k u r h e short =
    let (gone, u', absent) = delete_user_lem s.server i nick lt k u in
    let reply = format (
      codes "ERROR :Closing Link: "
      ∷ hostname
      ∷ codes " ("
      ∷ quit_reason (arg 0 msg)
      ∷ codes ")"
      ∷ []) in
    let told = emit (sent (s.server.users i) (full_reply reply)) s in
    (
      with_server (emit (closes (s.server.users i)) told) (set_slot s.server i 0),
      handle_valid-registered file (s.server.users i) msg (codes "QUIT") s r e
          ∙ ap
              (λ (x : Option (List ℕ)).
                with_string x (λ n.
                  put_reply (s.server.users i)
                    (format (
                      codes "ERROR :Closing Link: "
                      ∷ n
                      ∷ codes " ("
                      ∷ quit_reason (arg 0 msg)
                      ∷ codes ")"
                      ∷ []))
                    s)
                >>= leave (s.server.users i))
              h
          ∙ ap (λ (x : Run State). x >>= leave (s.server.users i))
              (put_reply-eq (s.server.users i) reply s (
                omega (
                  arith,
                  length-append hostname (codes " (" ++ (quit_reason (arg 0 msg) ++ codes ")")),
                  length-append (quit_reason (arg 0 msg)) (codes ")"),
                )))
          ∙ ap
              (λ (x : Run Server). x >>= λ server.
                returns (with_server (emit (closes (s.server.users i)) told) server))
              gone,
      refl,
      absent,
      u',
      append_assoc s.events (sent (s.server.users i) (full_reply reply) ∷ [])
          (closes (s.server.users i) ∷ []),
    )
