-- ===== src/Irc/Server/Messages.antt =====
-- irc/src/server.c: what a registered client's PRIVMSG, NICK and QUIT, and a command that is not known,
-- do.
use chi.Prelude.{
  ℕ, zero, suc, ◌+◌, ◌≤◌, ◌<◌, ◌≡◌, ◌⊎◌, inl, inr, refl, ◌∙◌, ap, ap₂, Bool, true, false, ◌==◌,
  if◌then◌else◌, Option, some, List, [], ◌∷◌, ◌++◌, length, length-append, take, get_elem?, codes,
  arith, leb, ne→==, lt→ltb, le→leb,
}
use chi.Db.Run.{Run, returns, ◌>>=◌}
use chi.Irc.Users.{max_users, get_user, get_user_from}
use chi.Irc.Users.Nicks.{HasNick, get_user_from-lem}
use chi.Irc.Message.{Message}
use chi.Irc.Reply.{
  State, sent, emit, format, full_reply, send_reply, put_reply, numeric, with_string, clipped,
  nick_of, send_privmsg, send_err_nosuchnick,
}
use chi.Irc.Server.{arg, handle_privmsg_msg}

-- A user of the table whose strings are known.
abbrev pub IsUser : State → ℕ → List ℕ → List ℕ → List ℕ → Type 0
IsUser s client nick username hostname =
    ((s.server.heap client).nick ≡ some nick)
    × ((s.server.heap client).username ≡ some username)
    × ((s.server.heap client).hostname ≡ some hostname)

-- `:nick!username@hostname type target :text`, with the end of the line.
abbrev pub relayed : List ℕ → List ℕ → List ℕ → List ℕ → List ℕ → List ℕ → List ℕ
relayed nick username hostname message_type target text = format (
    format (codes ":" ∷ nick ∷ codes "!" ∷ username ∷ codes "@" ∷ hostname ∷ codes " " ∷ [])
    ∷ message_type
    ∷ codes " "
    ∷ target
    ∷ codes " :"
    ∷ text
    ∷ codes "\r\n"
    ∷ [])

length-take : (n : ℕ) (xs : List ℕ) → length (take n xs) ≤ n
length-take zero xs = omega arith
length-take (suc n) [] = omega arith
length-take (suc n) (x ∷ xs) = omega (arith, length-take n xs)

pub clipped-length : (reply : List ℕ) → length (clipped reply) ≤ 512
unfolding clipped
clipped-length reply = by_test (leb (length reply) 513)
  where
    by_test :
        (b : Bool) → length (if b then take 512 reply else take 510 reply ++ codes "\r\n") ≤ 512
    by_test true = length-take 512 reply
    by_test false =
        omega (arith, length-take 510 reply, length-append (take 510 reply) (codes "\r\n"))

send_privmsg-eq :
    (s : State) (client recipient : ℕ) (nick username hostname target text kind : List ℕ)
    → IsUser s client nick username hostname
    → nick_of recipient s ≡ some target
    → send_privmsg client recipient (some text) kind s
      ≡ returns
          (emit (sent recipient (clipped (relayed nick username hostname kind target text))) s)
unfolding send_privmsg
send_privmsg-eq s client recipient nick username hostname target text kind (n, u, h) t =
    rw (n, u, h, t) refl

-- A reply of at most 499 characters is sent whole.
pub put_reply-eq :
    (client : ℕ) (reply : List ℕ) (s : State)
    → length reply ≤ 499
    → put_reply client reply s ≡ returns (emit (sent client (full_reply reply)) s)
unfolding put_reply send_reply
put_reply-eq client reply s short =
    let whole : length (full_reply reply) ≤ 512 =
      omega (arith, length-append reply (codes "\r\n")) in
    rw (lt→ltb (length reply) 512 (omega arith), le→leb (length (full_reply reply)) 512 whole) refl

pub numeric-eq :
    (s : State) (client : ℕ) (nick code : List ℕ) (parts : List (List ℕ))
    → nick_of client s ≡ some nick
    → length (format (code ∷ codes " " ∷ nick ∷ parts)) ≤ 499
    → numeric code client parts s
      ≡ returns (emit (sent client (full_reply (format (code ∷ codes " " ∷ nick ∷ parts)))) s)
unfolding numeric
numeric-eq s client nick code parts n short =
    ap
      (λ (x : Option (List ℕ)).
        with_string x (λ m. put_reply client (format (code ∷ codes " " ∷ m ∷ parts)) s))
      n
    ∙ put_reply-eq client (format (code ∷ codes " " ∷ nick ∷ parts)) s short

-- What a PRIVMSG or a NOTICE does once the user is looked up.
abbrev deliver :
    State
    → ℕ
    → (Option (List ℕ) → Run State)
    → List ℕ
    → Option (List ℕ)
    → Option (List ℕ)
    → ℕ
    → Run State
deliver s client unknown kind nick text recipient =
    if recipient == 0 then unknown nick else send_privmsg client recipient text kind s

-- A PRIVMSG with a text to a nick of the table is sent to the user with that nick alone, in at most 512
-- bytes, and nothing else changes. For a nick that is not in the table, the client is sent one reply,
-- which is the code 401 where the nicks are not too long, and again nothing else changes.
pub privmsg_lem :
    (s : State) (client : ℕ) (msg : Message) (nick username hostname target text : List ℕ)
    (more : List (List ℕ))
    → IsUser s client nick username hostname
    → msg.args ≡ target ∷ text ∷ more
    → length nick + length target ≤ 400
    → ((j : ℕ) × (bytes : List ℕ) × (j < max_users)
        × HasNick s.server j target
        × (bytes ≡ clipped (relayed nick username hostname (codes "PRIVMSG") target text))
        × (length bytes ≤ 512)
        × (handle_privmsg_msg msg client s ≡ returns (emit (sent (s.server.users j) bytes) s)))
      ⊎ (((j : ℕ) → j < max_users → HasNick s.server j target → ⊥)
          × (handle_privmsg_msg msg client s
              ≡ returns (
                  emit
                    (sent client (
                      full_reply (
                        format (
                          codes "401"
                          ∷ codes " "
                          ∷ nick
                          ∷ codes " "
                          ∷ target
                          ∷ codes " :No such nick/channel"
                          ∷ []))))
                    s)))
unfolding handle_privmsg_msg get_user send_err_nosuchnick
privmsg_lem s client msg nick username hostname target text more is_user args short =
    let first : arg 0 msg ≡ some target = ap (λ (l : List (List ℕ)). get_elem? l 0) args in
    let second : arg 1 msg ≡ some text = ap (λ (l : List (List ℕ)). get_elem? l 1) args in
    elim (get_user_from-lem max_users 0 s.server target) [
      | inl (j, lo, hi, k, e) ↦ inl (
        j,
        clipped (relayed nick username hostname (codes "PRIVMSG") target text),
        omega arith,
        k,
        refl,
        clipped-length (relayed nick username hostname (codes "PRIVMSG") target text),
        ap₂
              (λ (x y : Option (List ℕ)).
                get_user_from max_users 0 s.server x
                >>= deliver s client (λ x. send_err_nosuchnick client x s) (codes "PRIVMSG") x y)
              first second
            ∙ ap
                (λ (r : Run ℕ).
                  r
                  >>= deliver s client (λ x. send_err_nosuchnick client x s) (codes "PRIVMSG")
                      (some target) (some text))
                e
            ∙ rw (ne→== (s.server.users j) 0 k.0) (
                send_privmsg-eq s client (s.server.users j) nick username hostname target text
                  (codes "PRIVMSG") is_user k.1),
      )
      | inr (absent, e) ↦ inr (
        (λ j h k. absent j (omega arith) (omega arith) k),
        ap₂
              (λ (x y : Option (List ℕ)).
                get_user_from max_users 0 s.server x
                >>= deliver s client (λ x. send_err_nosuchnick client x s) (codes "PRIVMSG") x y)
              first second
            ∙ ap
                (λ (r : Run ℕ).
                  r
                  >>= deliver s client (λ x. send_err_nosuchnick client x s) (codes "PRIVMSG")
                      (some target) (some text))
                e
            ∙ numeric-eq s client nick (codes "401")
                (codes " " ∷ target ∷ codes " :No such nick/channel" ∷ []) is_user.0
                (omega (
                  arith,
                  length-append nick (codes " " ++ (target ++ codes " :No such nick/channel")),
                  length-append target (codes " :No such nick/channel"),
                )),
      )
    ]
