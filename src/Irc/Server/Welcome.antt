-- ===== src/Irc/Server/Welcome.antt =====
-- irc/src/server.c: the replies that greet a client whose names are short are all sent.
use chi.Prelude.{
  ℕ, zero, suc, ◌+◌, ◌-◌, ◌/◌, ◌%◌, ◌^◌, ◌≤◌, ◌≡◌, refl, ◌∙◌, ap, Option, none, some, List, [], ◌∷◌,
  ◌++◌, length, length-append, codes, arith, ltb, if◌then◌else◌, Bool, true, false,
}
use chi.Db.Run.{Run, returns, ◌>>=◌}
use chi.Irc.Users.{Server, get_num_users}
use chi.Irc.Reply.{
  State, sent, emit, format, full_reply, with_string, numeric, nick_of, username_of, hostname_of,
  digits, decimal, send_rpl_welcome, send_rpl_yourhost, send_rpl_created, send_rpl_myinfo,
  send_rpl_motdstart, send_rpl_motd, send_rpl_endofmotd, send_rpl_luserclient, send_rpl_luserop,
  send_rpl_luserunknown, send_rpl_luserchannels, send_rpl_luserme, send_err_nomotd,
}
use chi.Irc.Server.{handle_lusers_msg, send_lines, handle_motd_msg}
use chi.Irc.Server.Messages.{numeric-eq, IsUser}
use chi.Irc.Server.Registration.{greetings}

abbrev total : List (List ℕ) → ℕ
total [] = 0
total (part ∷ parts) = length part + total parts

length-format : (parts : List (List ℕ)) → length (format parts) ≡ total parts
length-format [] = refl
length-format (part ∷ parts) = omega (arith, length-append part (format parts), length-format parts)

length-digits : (rounds n : ℕ) → length (digits rounds n) ≤ rounds
unfolding digits
length-digits zero n = omega arith
length-digits (suc rounds) n = by_test (ltb n 10) (length-digits rounds (n / 10))
  where
    by_test :
        (b : Bool)
        → length (digits rounds (n / 10)) ≤ rounds
        → length (if b then (n + b'0') ∷ [] else (digits rounds (n / 10) ++ ((n % 10 + b'0') ∷ [])))
          ≤ suc rounds
    by_test true h = omega arith
    by_test false h = omega (arith, length-append (digits rounds (n / 10)) ((n % 10 + b'0') ∷ []))

length-decimal : (n : ℕ) → length (decimal n) ≤ 11
unfolding decimal
length-decimal n = by_test (ltb n (2 ^ 31))
  where
    by_test : (b : Bool) → length (if b then digits 10 n else b'-' ∷ digits 10 (2 ^ 32 - n)) ≤ 11
    by_test true = omega (arith, length-digits 10 n)
    by_test false = omega (arith, length-digits 10 (2 ^ 32 - n))

-- The run returns, and the table of users stays.
abbrev pub Sends : State → Run State → Type 0
Sends s run = (t : State) × (run ≡ returns t) × (t.server ≡ s.server)

then-Sends :
    (s : State) (run : Run State) (f : State → Run State)
    → Sends s run
    → ((t : State) → t.server ≡ s.server → Sends t (f t))
    → Sends s (run >>= f)
then-Sends s run f (t, e, same) k =
    let (u, e', same') = k t same in (u, ap (λ (x : Run State). x >>= f) e ∙ e', same' ∙ same)

numeric-Sends :
    (code : List ℕ) (client : ℕ) (nick : List ℕ) (parts : List (List ℕ)) (s : State)
    → nick_of client s ≡ some nick
    → length code + length nick + total parts ≤ 490
    → Sends s (numeric code client parts s)
numeric-Sends code client nick parts s n short = (
  emit (sent client (full_reply (format (code ∷ codes " " ∷ nick ∷ parts)))) s,
  numeric-eq s client nick code parts n
      (omega (arith, length-format (code ∷ codes " " ∷ nick ∷ parts))),
  refl,
)

-- Names of at most 100 characters each.
abbrev pub AreShort : List ℕ → List ℕ → List ℕ → Type 0
AreShort nick username hostname =
    (length nick ≤ 100) × (length username ≤ 100) × (length hostname ≤ 100)

abbrev pub LinesAreShort : List (List ℕ) → Type 0
LinesAreShort [] = Unit
LinesAreShort (line ∷ lines) = (length line ≤ 300) × LinesAreShort lines

abbrev pub FileIsShort : Option (List (List ℕ)) → Type 0
FileIsShort none = Unit
FileIsShort (some lines) = LinesAreShort lines

module _ (client : ℕ) (nick username hostname : List ℕ)
    (short : AreShort nick username hostname) where
  nick_kept :
      (s t : State)
      → t.server ≡ s.server
      → nick_of client s ≡ some nick
      → nick_of client t ≡ some nick
  nick_kept s t e n = ap (λ (x : Server). (x.heap client).nick) e ∙ n

  abbrev welcome_to : Option (List ℕ) → Option (List ℕ) → Option (List ℕ) → State → Run State
  welcome_to x y z s = with_string x (λ a. with_string y (λ b. with_string z (λ c.
      numeric (codes "001") client
        (codes " :Welcome to the Internet Relay Network " ∷ a ∷ codes "!" ∷ b ∷ codes "@" ∷ c ∷ [])
        s)))

  welcome-Sends :
      (s : State) → IsUser s client nick username hostname → Sends s (send_rpl_welcome client s)
  unfolding send_rpl_welcome
  welcome-Sends s (n, u, h) =
      let (t, e, same) =
        numeric-Sends (codes "001") client nick
          (codes " :Welcome to the Internet Relay Network "
            ∷ nick
            ∷ codes "!"
            ∷ username
            ∷ codes "@"
            ∷ hostname
            ∷ [])
          s n (omega arith) in
      (
        t,
        ap (λ (x : Option (List ℕ)). welcome_to x (username_of client s) (hostname_of client s) s) n
            ∙ ap (λ (x : Option (List ℕ)). welcome_to (some nick) x (hostname_of client s) s) u
            ∙ ap (λ (x : Option (List ℕ)). welcome_to (some nick) (some username) x s) h
            ∙ e,
        same,
      )

  -- The next reply, in a state with the same table.
  step :
      (code : List ℕ) (parts : List (List ℕ)) (s t : State)
      → nick_of client s ≡ some nick
      → t.server ≡ s.server
      → length code + length nick + total parts ≤ 490
      → Sends t (numeric code client parts t)
  step code parts s t n e h = numeric-Sends code client nick parts t (nick_kept s t e n) h

  lusers-Sends : (s : State) → nick_of client s ≡ some nick → Sends s (handle_lusers_msg client s)
  unfolding handle_lusers_msg send_rpl_luserclient send_rpl_luserop send_rpl_luserunknown
      send_rpl_luserchannels send_rpl_luserme
  lusers-Sends s n =
      let users = get_num_users s.server in
      let d = length-decimal users in
      then-Sends s _ _
        (step (codes "251")
          (codes " :There are " ∷ decimal users ∷ codes " users and 0 services on 1 servers" ∷ []) s
          s n refl (omega arith))
        (λ t e. then-Sends t _ _ (step (codes "252") _ s t n e (omega arith)) (λ u f.
          then-Sends u _ _
            (step (codes "253")
              (codes " " ∷ decimal s.num_unregisterred ∷ codes " :unknown connection(s)" ∷ []) s u n
              (f ∙ e) (omega (arith, length-decimal s.num_unregisterred)))
            (λ v g. then-Sends v _ _ (step (codes "254") _ s v n (g ∙ f ∙ e) (omega arith)) (λ w h.
              step (codes "255")
                (codes " :I have "
                  ∷ decimal ((s.num_unregisterred + users) % 2 ^ 32)
                  ∷ codes " clients and 1 servers"
                  ∷ [])
                s w n (h ∙ g ∙ f ∙ e)
                (omega (arith, length-decimal ((s.num_unregisterred + users) % 2 ^ 32)))))))

  send_lines-Sends :
      (lines : List (List ℕ)) (s : State)
      → LinesAreShort lines
      → nick_of client s ≡ some nick
      → Sends s (send_lines lines client s)
  unfolding send_lines send_rpl_motd
  send_lines-Sends [] s l n = (s, refl, refl)
  send_lines-Sends (line ∷ lines) s l n =
      then-Sends s _ _ (step (codes "372") (codes " :- " ∷ line ∷ []) s s n refl (omega arith))
        (λ t e. send_lines-Sends lines t l.1 (nick_kept s t e n))

  motd-Sends :
      (file : Option (List (List ℕ))) (s : State)
      → FileIsShort file
      → nick_of client s ≡ some nick
      → Sends s (handle_motd_msg file client s)
  unfolding handle_motd_msg send_err_nomotd send_rpl_motdstart send_rpl_endofmotd
  motd-Sends none s l n = step (codes "422") _ s s n refl (omega arith)
  motd-Sends (some lines) s l n =
      then-Sends s _ _ (step (codes "375") _ s s n refl (omega arith)) (λ t e.
        then-Sends t _ _ (send_lines-Sends lines t l (nick_kept s t e n))
          (λ u f. step (codes "376") _ s u n (f ∙ e) (omega arith)))

  pub greetings-Sends :
      (file : Option (List (List ℕ))) (s : State)
      → FileIsShort file
      → IsUser s client nick username hostname
      → Sends s (greetings file client s)
  unfolding send_rpl_yourhost send_rpl_created send_rpl_myinfo
  greetings-Sends file s l user =
      let n = user.0 in
      then-Sends s _ _ (welcome-Sends s user) (λ t e.
        then-Sends t _ _ (step (codes "002") _ s t n e (omega arith)) (λ u f.
          then-Sends u _ _ (step (codes "003") _ s u n (f ∙ e) (omega arith)) (λ v g.
            then-Sends v _ _ (step (codes "004") _ s v n (g ∙ f ∙ e) (omega arith)) (λ w h.
              then-Sends w _ _ (lusers-Sends w (nick_kept s w (h ∙ g ∙ f ∙ e) n))
                (λ x i. motd-Sends file x l (nick_kept s x (i ∙ h ∙ g ∙ f ∙ e) n))))))
