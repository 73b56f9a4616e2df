-- ===== src/Irc/Server.antt =====
-- irc/src/server.h and server.c: what the server does with a message.
pub mod Registration
pub mod Replies
pub mod Calls
pub mod Addressed
pub mod Safety
pub mod Messages
pub mod Leaving
pub mod Slots
pub mod Registered
pub mod Joining
pub mod Welcome
pub mod Enrolled
use chi.Prelude.{
  ℕ, zero, suc, ◌+◌, ◌-◌, ◌%◌, ◌^◌, Bool, true, false, ◌==◌, if◌then◌else◌, Option, none, some,
  List, [], ◌∷◌, ◌++◌, get_elem?, codes,
}
use chi.Db.Run.{Run, returns, undefined, ◌>>=◌}
use chi.Irc.Users.{
  User, Server, same_string, is_user_complete, get_user, register_user, delete_user, update_nick,
  get_num_users,
}
use chi.Irc.Channels.{
  Channel, max_saved_msgs, init_channel, get_channel, add_channel, is_member, add_member, add_msg,
  cut_name,
}
use chi.Irc.Message.{Message}
use chi.Irc.Reply.{
  State, Archived, closes, emit, with_string, nick_of, send_rpl_whoisuser, send_rpl_whoisserver,
  send_rpl_endofwhois, send_err_nicknameinuse, send_err_alreadyregistred, send_quit_response,
  send_err_nosuchnick, send_privmsg, send_archived_msg, send_rpl_namreply, send_rpl_endofnames,
  send_pong, send_rpl_motd, send_rpl_motdstart, send_rpl_endofmotd, send_err_nomotd,
  send_rpl_luserclient, send_rpl_luserop, send_rpl_luserunknown, send_rpl_luserchannels,
  send_rpl_luserme, send_err_unknowncommand,
}

-- `msg->args[i]`
abbrev pub arg : ℕ → Message → Option (List ℕ)
arg i msg = get_elem? msg.args i

abbrev pub with_server : State → Server → State
with_server s server = record s { server = server }

-- A client whose nick is refused is told so.
abbrev pub nick_result : ℕ → List ℕ → State → Bool × Server → Run State
nick_result client nick s (true, server) = returns (with_server s server)
nick_result client nick s (false, server) =
    send_err_nicknameinuse client (nick_of client s) (some nick) s

unfoldable pub handle_nick_msg : Message → ℕ → State → Run State
handle_nick_msg msg client s =
    with_string (arg 0 msg) (λ nick. update_nick s.server nick client >>= nick_result client nick s)

unfoldable pub handle_user_msg : Message → ℕ → State → Run State
handle_user_msg msg client s = send_err_alreadyregistred client s

unfoldable pub handle_quit_msg : Message → ℕ → State → Run State
handle_quit_msg msg client s = send_quit_response client (arg 0 msg) s >>= λ t.
    delete_user t.server client >>= λ server. returns (with_server (emit (closes client) t) server)

unfoldable pub handle_privmsg_msg : Message → ℕ → State → Run State
handle_privmsg_msg msg client s = get_user s.server (arg 0 msg) >>= λ recipient.
    if recipient == 0
    then send_err_nosuchnick client (arg 0 msg) s
    else send_privmsg client recipient (arg 1 msg) (codes "PRIVMSG") s

unfoldable pub handle_notice_msg : Message → ℕ → State → Run State
handle_notice_msg msg client s = get_user s.server (arg 0 msg) >>= λ recipient.
    if recipient == 0
    then returns s
    else send_privmsg client recipient (arg 1 msg) (codes "NOTICE") s

unfoldable pub handle_whois_msg : Message → ℕ → State → Run State
handle_whois_msg msg client s = get_user s.server (arg 0 msg) >>= λ target.
    if target == 0
    then send_err_nosuchnick client (arg 0 msg) s
    else (send_rpl_whoisuser client target s >>= λ t.
        send_rpl_whoisserver client (nick_of target t) t >>= λ u.
        send_rpl_endofwhois client (nick_of target u) u)

abbrev pub put_channel : ℕ → Channel → State → State
put_channel p channel s = record s {
  channel_heap = λ q. if q == p then channel else s.channel_heap q;
}

-- `malloc` of a channel that is then set up. The memory has the size of a pointer only, which is not
-- followed.
abbrev pub new_channel : List ℕ → State → State
new_channel name s = record (put_channel s.next (init_channel name) s) {
  next = s.next + 1;
  channels = add_channel s.next s.channels;
}

abbrev pub new_archived : Message → ℕ → State → State
new_archived msg client s = record s {
  archive = λ q. if q == s.next then record { msg = msg; sender = client } else s.archive q;
  next = s.next + 1;
}

-- The saved messages of a channel from index `i` on, up to the first that is null.
unfoldable pub send_archived_from : ℕ → ℕ → ℕ → ℕ → State → Run State
send_archived_from zero i client channel s = returns s
send_archived_from (suc rounds) i client channel s =
    let m = (s.channel_heap channel).msgs i in
    let more = send_archived_msg client (s.archive m) s >>= λ t.
    send_archived_from rounds (i + 1) client channel t in
    if m == 0 then returns s else more

-- The rest of a JOIN, with the name as it was cut, which the message holds too.
abbrev pub join_replies : ℕ → ℕ → List ℕ → State → Run State
join_replies channel client name s = send_archived_from max_saved_msgs 0 client channel s >>= λ t.
    send_rpl_namreply client name t >>= λ u. send_rpl_endofnames client name u

abbrev pub cut_first : Message → Message
cut_first msg = cut_args msg.args
  where
    cut_args : List (List ℕ) → Message
    cut_args [] = msg
    cut_args (name ∷ args) = record msg { args = cut_name name ∷ args }

-- The client is made a member, and the message is saved.
abbrev pub joined_channel : Message → ℕ → ℕ → State → State
joined_channel msg client channel s =
    let t = put_channel channel (add_member client (s.channel_heap channel)) s in
    let u = new_archived (cut_first msg) client t in
    put_channel channel (add_msg t.next (u.channel_heap channel)) u

abbrev pub join_channel : Message → ℕ → ℕ → List ℕ → State → Run State
join_channel msg client channel name s =
    join_replies channel client name (joined_channel msg client channel s)

abbrev pub join_named : Message → ℕ → State → List ℕ → Run State
join_named msg client s name =
    if get_channel s.channel_heap s.channels name == 0
    then (let t = new_channel name s in
        is_member t.server.heap (t.server.heap client) (t.channel_heap s.next) >>= λ member.
        if member then returns t else join_channel msg client s.next (cut_name name) t)
    else returns s

unfoldable pub handle_join_msg : Message → ℕ → State → Run State
handle_join_msg msg client s = with_string (arg 0 msg) (join_named msg client s)

unfoldable pub handle_ping_msg : ℕ → State → Run State
handle_ping_msg client s = send_pong client s

-- The lines of the file, each with its line end.
unfoldable pub send_lines : List (List ℕ) → ℕ → State → Run State
send_lines [] client s = returns s
send_lines (line ∷ lines) client s = send_rpl_motd client line s >>= λ t. send_lines lines client t

-- `none` is a file that cannot be opened.
unfoldable pub handle_motd_msg : Option (List (List ℕ)) → ℕ → State → Run State
handle_motd_msg none client s = send_err_nomotd client s
handle_motd_msg (some lines) client s = send_rpl_motdstart client s >>= λ t.
    send_lines lines client t >>= λ u. send_rpl_endofmotd client u

unfoldable pub handle_lusers_msg : ℕ → State → Run State
handle_lusers_msg client s =
    let num_registered = get_num_users s.server in
    send_rpl_luserclient client num_registered s >>= λ t. send_rpl_luserop client t >>= λ u.
    send_rpl_luserunknown client s.num_unregisterred u >>= λ v.
    send_rpl_luserchannels client v >>= λ w.
    send_rpl_luserme client ((s.num_unregisterred + num_registered) % 2 ^ 32) w

-- What a command is to the server.
pub data Command : Type 0 where
  nick_msg user_msg quit_msg privmsg_msg notice_msg whois_msg join_msg ping_msg pong_msg : Command
  motd_msg lusers_msg unknown_msg : Command

unfoldable pub command_of : List ℕ → Command
command_of cmd =
    if same_string cmd (codes "NICK")
    then nick_msg
    else if same_string cmd (codes "USER")
    then user_msg
    else if same_string cmd (codes "QUIT")
    then quit_msg
    else if same_string cmd (codes "PRIVMSG")
    then privmsg_msg
    else if same_string cmd (codes "NOTICE")
    then notice_msg
    else if same_string cmd (codes "WHOIS")
    then whois_msg
    else if same_string cmd (codes "JOIN")
    then join_msg
    else if same_string cmd (codes "PING")
    then ping_msg
    else if same_string cmd (codes "PONG")
    then pong_msg
    else if same_string cmd (codes "MOTD")
    then motd_msg
    else if same_string cmd (codes "LUSERS")
    then lusers_msg
    else unknown_msg

abbrev pub handle_command :
    Option (List (List ℕ)) → Command → List ℕ → Message → ℕ → State → Run State
handle_command file nick_msg cmd msg client s = handle_nick_msg msg client s
handle_command file user_msg cmd msg client s = handle_user_msg msg client s
handle_command file quit_msg cmd msg client s = handle_quit_msg msg client s
handle_command file privmsg_msg cmd msg client s = handle_privmsg_msg msg client s
handle_command file notice_msg cmd msg client s = handle_notice_msg msg client s
handle_command file whois_msg cmd msg client s = handle_whois_msg msg client s
handle_command file join_msg cmd msg client s = handle_join_msg msg client s
handle_command file ping_msg cmd msg client s = handle_ping_msg client s
handle_command file pong_msg cmd msg client s = returns s
handle_command file motd_msg cmd msg client s = handle_motd_msg file client s
handle_command file lusers_msg cmd msg client s = handle_lusers_msg client s
handle_command file unknown_msg cmd msg client s = send_err_unknowncommand client cmd s

unfoldable pub handle_msg : Option (List (List ℕ)) → Message → ℕ → State → Run State
handle_msg file msg client s =
    with_string msg.cmd (λ cmd. handle_command file (command_of cmd) cmd msg client s)
