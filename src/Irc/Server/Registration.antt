-- ===== src/Irc/Server/Registration.antt =====
-- irc/src/server.c: what the server does with a message of a client that is not registered.
use chi.Prelude.{
  ℕ, ◌+◌, ◌-◌, ◌%◌, ◌^◌, Bool, true, false, ◌==◌, if◌then◌else◌, Option, some, List, codes,
}
use chi.Db.Run.{Run, returns, ◌>>=◌}
use chi.Irc.Users.{User, Server, is_user_complete, get_user, register_user}
use chi.Irc.Message.{Message}
use chi.Irc.Reply.{
  State, with_string, nick_of, send_rpl_welcome, send_rpl_yourhost, send_rpl_created,
  send_rpl_myinfo, send_err_nicknameinuse,
}
use chi.Irc.Server.{
  arg, with_server, handle_quit_msg, handle_lusers_msg, handle_motd_msg, handle_msg, Command,
  nick_msg, user_msg, quit_msg, command_of,
}

abbrev pub set_user : ℕ → User → State → State
set_user client user s =
    with_server s (record s.server { heap = λ p. if p == client then user else s.server.heap p })

unfoldable pub registration_nick : Message → ℕ → State → Run State
registration_nick msg client s = get_user s.server (arg 0 msg) >>= λ found.
    if found == 0
    then with_string (arg 0 msg)
        (λ nick. returns (set_user client (record (s.server.heap client) { nick = some nick }) s))
    else send_err_nicknameinuse client (some (codes "*")) (arg 0 msg) s

unfoldable pub registration_user : Message → ℕ → State → Run State
registration_user msg client s = with_string (arg 0 msg) (λ username.
    with_string (arg 3 msg) (λ full_name. returns (
      set_user client
        (record (s.server.heap client) { username = some username; full_name = some full_name })
        s)))

abbrev pub registration_step : Command → Message → ℕ → State → Run State
registration_step nick_msg msg client s = registration_nick msg client s
registration_step user_msg msg client s = registration_user msg client s
registration_step quit_msg msg client s = handle_quit_msg msg client s
registration_step _ msg client s = returns s

-- `num_unregisterred--`
abbrev pub registered : ℕ → State → Server → State
registered client s server =
    let t = with_server s server in
    record (set_user client (record (server.heap client) { is_registered = true }) t) {
      num_unregisterred = (s.num_unregisterred + (2 ^ 32 - 1)) % 2 ^ 32;
    }

abbrev pub greetings : Option (List (List ℕ)) → ℕ → State → Run State
greetings file client s = send_rpl_welcome client s >>= λ t. send_rpl_yourhost client t >>= λ u.
    send_rpl_created client u >>= λ v. send_rpl_myinfo client v >>= λ w.
    handle_lusers_msg client w >>= λ x. handle_motd_msg file client x

abbrev pub register_result : Option (List (List ℕ)) → ℕ → State → Bool × Server → Run State
register_result file client s (true, server) = greetings file client (registered client s server)
register_result file client s (false, server) =
    send_err_nicknameinuse client (some (codes "*")) (nick_of client s) s

unfoldable pub complete_registration : Option (List (List ℕ)) → ℕ → State → Run State
complete_registration file client s =
    if is_user_complete (s.server.heap client)
    then (register_user s.server client >>= register_result file client s)
    else returns s

unfoldable pub handle_registration : Option (List (List ℕ)) → Message → ℕ → State → Run State
handle_registration file msg client s =
    with_string msg.cmd
      (λ cmd. registration_step (command_of cmd) msg client s >>= complete_registration file client)

-- What `handle_client` does with a valid message.
unfoldable pub handle_valid : Option (List (List ℕ)) → ℕ → Message → State → Run State
handle_valid file client msg s =
    if (s.server.heap client).is_registered
    then handle_msg file msg client s
    else handle_registration file msg client s
