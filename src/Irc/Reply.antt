-- ===== src/Irc/Reply.antt =====
-- irc/src/reply.h and reply.c: the replies that the server sends.
mod Send
unfoldable pub use Send.*
use chi.Prelude.{
  ℕ, ◌+◌, ◌-◌, leb, if◌then◌else◌, Option, none, some, List, [], ◌∷◌, ◌++◌, length, take, get_elem?,
  codes,
}
use chi.Db.Run.{Run, returns}
use chi.Irc.Message.{Message}

unfoldable pub send_rpl_welcome : ℕ → State → Run State
send_rpl_welcome client s = with_string (nick_of client s) (λ nick.
    with_string (username_of client s) (λ username. with_string (hostname_of client s) (λ hostname.
      numeric (codes "001") client
        (codes " :Welcome to the Internet Relay Network "
          ∷ nick
          ∷ codes "!"
          ∷ username
          ∷ codes "@"
          ∷ hostname
          ∷ [])
        s)))

unfoldable pub send_rpl_yourhost : ℕ → State → Run State
send_rpl_yourhost client s =
    numeric (codes "002") client
      (codes " :Your host is " ∷ server_name ∷ codes ", running version " ∷ version ∷ []) s

unfoldable pub send_rpl_created : ℕ → State → Run State
send_rpl_created client s =
    numeric (codes "003") client (codes " :This server was created " ∷ created ∷ []) s

unfoldable pub send_rpl_myinfo : ℕ → State → Run State
send_rpl_myinfo client s =
    numeric (codes "004") client
      (codes " "
        ∷ server_name
        ∷ codes " "
        ∷ version
        ∷ codes " "
        ∷ user_modes
        ∷ codes " "
        ∷ channel_modes
        ∷ [])
      s

unfoldable pub send_rpl_motdstart : ℕ → State → Run State
send_rpl_motdstart client s =
    numeric (codes "375") client (codes " :- " ∷ server_name ∷ codes " Message of the day - " ∷ [])
      s

unfoldable pub send_rpl_motd : ℕ → List ℕ → State → Run State
send_rpl_motd client motd_line s = numeric (codes "372") client (codes " :- " ∷ motd_line ∷ []) s

unfoldable pub send_rpl_endofmotd : ℕ → State → Run State
send_rpl_endofmotd client s = numeric (codes "376") client (codes " :End of MOTD command" ∷ []) s

unfoldable pub send_err_nicknameinuse : ℕ → Option (List ℕ) → Option (List ℕ) → State → Run State
send_err_nicknameinuse client old_nick new_nick s = with_string old_nick (λ old.
    with_string new_nick (λ new.
      put_reply client
        (format (codes "433 " ∷ old ∷ codes " " ∷ new ∷ codes " :Nickname is already in use" ∷ []))
        s))

unfoldable pub send_err_alreadyregistred : ℕ → State → Run State
send_err_alreadyregistred client s =
    numeric (codes "462") client (codes " :Unauthorized command (already registered)" ∷ []) s

unfoldable pub send_rpl_luserclient : ℕ → ℕ → State → Run State
send_rpl_luserclient client num_users s =
    numeric (codes "251") client
      (codes " :There are " ∷ decimal num_users ∷ codes " users and 0 services on 1 servers" ∷ []) s

unfoldable pub send_rpl_luserop : ℕ → State → Run State
send_rpl_luserop client s = numeric (codes "252") client (codes " 0 :operator(s) online" ∷ []) s

unfoldable pub send_rpl_luserunknown : ℕ → ℕ → State → Run State
send_rpl_luserunknown client num_unknown s =
    numeric (codes "253") client
      (codes " " ∷ decimal num_unknown ∷ codes " :unknown connection(s)" ∷ []) s

unfoldable pub send_rpl_luserchannels : ℕ → State → Run State
send_rpl_luserchannels client s = numeric (codes "254") client (codes " 0 :channels formed" ∷ []) s

unfoldable pub send_rpl_luserme : ℕ → ℕ → State → Run State
send_rpl_luserme client num_clients s =
    numeric (codes "255") client
      (codes " :I have " ∷ decimal num_clients ∷ codes " clients and 1 servers" ∷ []) s

unfoldable pub send_rpl_whoisuser : ℕ → ℕ → State → Run State
send_rpl_whoisuser client target s = with_string (nick_of target s) (λ nick.
    with_string (username_of target s) (λ username.
      with_string (full_name_of target s) (λ full_name.
        numeric (codes "311") client
          (codes " "
            ∷ nick
            ∷ codes " "
            ∷ username
            ∷ codes " "
            ∷ server_name
            ∷ codes " * :"
            ∷ full_name
            ∷ [])
          s)))

unfoldable pub send_rpl_whoisserver : ℕ → Option (List ℕ) → State → Run State
send_rpl_whoisserver client target_nick s = with_string target_nick (λ target.
    numeric (codes "312") client
      (codes " " ∷ target ∷ codes " " ∷ server_name ∷ codes " :some server info" ∷ []) s)

unfoldable pub send_rpl_endofwhois : ℕ → Option (List ℕ) → State → Run State
send_rpl_endofwhois client target_nick s = with_string target_nick (λ target.
    numeric (codes "318") client (codes " " ∷ target ∷ codes " :End of WHOIS list" ∷ []) s)

unfoldable pub send_rpl_namreply : ℕ → List ℕ → State → Run State
send_rpl_namreply client channel s =
    numeric (codes "353") client (codes " = " ∷ channel ∷ codes " :name1 name2" ∷ []) s

unfoldable pub send_rpl_endofnames : ℕ → List ℕ → State → Run State
send_rpl_endofnames client channel s =
    numeric (codes "366") client (codes " " ∷ channel ∷ codes " :End of NAMES list" ∷ []) s

unfoldable pub send_err_nomotd : ℕ → State → Run State
send_err_nomotd client s = numeric (codes "422") client (codes " :MOTD File is missing" ∷ []) s

unfoldable pub send_err_nosuchnick : ℕ → Option (List ℕ) → State → Run State
send_err_nosuchnick client nick s =
    with_string nick
      (λ n. numeric (codes "401") client (codes " " ∷ n ∷ codes " :No such nick/channel" ∷ []) s)

unfoldable pub send_err_unknowncommand : ℕ → List ℕ → State → Run State
send_err_unknowncommand client cmd s =
    numeric (codes "421") client (codes " " ∷ cmd ∷ codes " :Unknown command" ∷ []) s

abbrev pub quit_reason : Option (List ℕ) → List ℕ
quit_reason none = codes "Client Quit"
quit_reason (some message) = message

unfoldable pub send_quit_response : ℕ → Option (List ℕ) → State → Run State
send_quit_response client message s = with_string (hostname_of client s) (λ hostname.
    put_reply client
      (format (
        codes "ERROR :Closing Link: "
        ∷ hostname
        ∷ codes " ("
        ∷ quit_reason message
        ∷ codes ")"
        ∷ []))
      s)

-- Of 513 characters the last is cut; of more than that, the last two are made the end of a line.
unfoldable pub clipped : List ℕ → List ℕ
clipped reply = if leb (length reply) 513 then take 512 reply else take 510 reply ++ codes "\r\n"

-- `:nick!username@hostname ` of a user.
abbrev pub with_source : ℕ → State → (List ℕ → Run State) → Run State
with_source client s f = with_string (nick_of client s) (λ nick.
    with_string (username_of client s) (λ username. with_string (hostname_of client s) (λ hostname.
      f (
        format (codes ":" ∷ nick ∷ codes "!" ∷ username ∷ codes "@" ∷ hostname ∷ codes " " ∷ [])))))

unfoldable pub send_privmsg : ℕ → ℕ → Option (List ℕ) → List ℕ → State → Run State
send_privmsg client recipient message message_type s = with_source client s (λ source.
    with_string (nick_of recipient s) (λ nick. with_string message (λ text.
      let reply =
        format (source ∷ message_type ∷ codes " " ∷ nick ∷ codes " :" ∷ text ∷ codes "\r\n" ∷ []) in
      returns (emit (sent recipient (clipped reply)) s))))

unfoldable pub send_pong : ℕ → State → Run State
send_pong client s = put_reply client (format (codes "PONG " ∷ server_name ∷ [])) s

abbrev pub first_arg : Message → Option (List ℕ)
first_arg msg = get_elem? msg.args 0

unfoldable pub send_archived_msg : ℕ → Archived → State → Run State
send_archived_msg client archived s = with_source archived.sender s (λ source.
    with_string archived.msg.cmd (λ cmd. with_string (first_arg archived.msg) (λ arg.
      let reply = format (source ∷ cmd ∷ codes " " ∷ arg ∷ codes "\r\n" ∷ []) in
      returns (emit (sent client (clipped reply)) s))))
