-- ===== src/Irc/Server/Enrolled.antt =====
-- irc/src/server.c: a client that sends its nick and its names is registered.
use chi.Prelude.{
  ℕ, ◌<◌, ◌≡◌, ◌≢◌, inl, inr, refl, sym, ◌∙◌, ap, subst, Bool, true, false, ◌==◌, if◌then◌else◌,
  Option, none, some, List, ◌∷◌, codes, get_elem?,
}
use chi.Db.Run.{Run, returns, aborted, undefined, out_of_fuel, ◌>>=◌}
use chi.Irc.Users.{
  User, Server, max_users, get_user, set_slot, register_user, is_user_complete, same_string,
}
use chi.Irc.Users.Nicks.{HasNick, get_user-Unique}
use chi.Irc.Users.Table.{register_user_lem}
use chi.Irc.Message.{Message}
use chi.Irc.Reply.{State, with_string, send_err_nicknameinuse}
use chi.Irc.Server.{arg, command_of, handle_msg}
use chi.Irc.Server.Slots.{
  IsSound, IsOutside, IsInside, Outside, set_user-Outside, set_user_self, set_user-other,
  registered-Inside,
}
use chi.Irc.Server.Welcome.{AreShort, FileIsShort, greetings-Sends}
use chi.Irc.Server.Registration.{
  set_user, registration_nick, registration_user, registration_step, register_result, registered,
  complete_registration, handle_registration, handle_valid,
}

-- A message of a client that is not registered, by its command.
handle_valid-outside :
    (file : Option (List (List ℕ))) (client : ℕ) (msg : Message) (cmd : List ℕ) (s : State)
    → (s.server.heap client).is_registered ≡ false
    → msg.cmd ≡ some cmd
    → handle_valid file client msg s
      ≡ (registration_step (command_of cmd) msg client s >>= complete_registration file client)
unfolding handle_valid handle_registration
handle_valid-outside file client msg cmd s r e =
    ap
      (λ (b : Bool).
        if b then handle_msg file msg client s else handle_registration file msg client s)
      r
    ∙ ap
        (λ (x : Option (List ℕ)). with_string x (λ c.
          registration_step (command_of c) msg client s >>= complete_registration file client))
        e

incomplete :
    (file : Option (List (List ℕ))) (client : ℕ) (s : State)
    → (s.server.heap client).username ≡ none
    → complete_registration file client s ≡ returns s
unfolding complete_registration is_user_complete
incomplete file client s e = by_nick (s.server.heap client).nick refl
  where
    by_nick :
        (x : Option (List ℕ))
        → (s.server.heap client).nick ≡ x
        → complete_registration file client s ≡ returns s
    by_nick none n = rw n refl
    by_nick (some m) n = rw (n, e) refl

complete :
    (file : Option (List (List ℕ))) (client : ℕ) (nick username full : List ℕ) (s : State)
    → (s.server.heap client).nick ≡ some nick
    → (s.server.heap client).username ≡ some username
    → (s.server.heap client).full_name ≡ some full
    → complete_registration file client s
      ≡ (register_user s.server client >>= register_result file client s)
unfolding complete_registration is_user_complete
complete file client nick username full s n u f = rw (n, u, f) refl

abbrev returned : Run ℕ → ℕ
returned (returns a) = a
returned aborted = 0
returned undefined = 0
returned out_of_fuel = 0

-- The state once the client has sent its nick, and once it has sent its names.
abbrev with_nick : ℕ → List ℕ → State → State
with_nick client nick s = set_user client (record (s.server.heap client) { nick = some nick }) s

abbrev with_names : ℕ → List ℕ → List ℕ → State → State
with_names client username full s =
    set_user client
      (record (s.server.heap client) { username = some username; full_name = some full }) s

-- A client of a nick that no user of the table has is registered once its names are set.
enrolled :
    (file : Option (List (List ℕ))) (client i : ℕ) (nick username hostname full : List ℕ)
    (s : State)
    → client ≢ 0
    → Outside client s
    → (s.server.heap client).nick ≡ some nick
    → (s.server.heap client).username ≡ some username
    → (s.server.heap client).hostname ≡ some hostname
    → (s.server.heap client).full_name ≡ some full
    → ((j : ℕ) → j < max_users → HasNick s.server j nick → ⊥)
    → i < max_users
    → s.server.users i ≡ 0
    → AreShort nick username hostname
    → FileIsShort file
    → (u : State) × (complete_registration file client s ≡ returns u)
      × IsSound u.server
      × IsInside client u.server
enrolled file client i nick username hostname full s z o n us h f unused lt empty short lines =
    elim (register_user_lem s.server client nick z n o.0.0) [
      | inl (j, lt', k, e) ↦ absurd (unused j lt' k)
      | inr (inl (j, lt', free, e, uq, found)) ↦
          let (sd, ins) = registered-Inside client j nick s z o n lt' uq in
          let r = registered client s (set_slot s.server j client) in
          let self =
            set_user_self client (record (s.server.heap client) { is_registered = true }) s in
          let (u, run, same) =
            greetings-Sends client nick username hostname short file
              (registered client s (set_slot s.server j client)) lines
              (
                ap (λ (w : User). w.nick) self ∙ n,
                ap (λ (w : User). w.username) self ∙ us,
                ap (λ (w : User). w.hostname) self ∙ h,
              ) in
          (
            u,
            complete file client nick username full s n us f
                ∙ ap (λ (x : Run (Bool × Server)). x >>= register_result file client s) e
                ∙ run,
            subst IsSound (sym same) sd,
            subst (IsInside client) (sym same) ins,
          )
      | inr (inr (all, e)) ↦ absurd (all i lt empty)
    ]

-- A nick that nobody has in the table is not one that the client brings there itself.
still_unused :
    (client : ℕ) (nick : List ℕ) (one two : User) (s : State)
    → IsSound s.server
    → IsOutside client s.server
    → get_user s.server (some nick) ≡ returns 0
    → (j : ℕ) → j < max_users
    → HasNick (set_user client two (set_user client one s)).server j nick
    → ⊥
still_unused client nick one two s sound out unused j lt k =
    let kept =
      set_user-other client (s.server.users j) two (set_user client one s) (out.1 j lt)
      ∙ set_user-other client (s.server.users j) one s (out.1 j lt) in
    let before : HasNick s.server j nick = (k.0, ap (λ (w : User). w.nick) (sym kept) ∙ k.1) in
    k.0 (ap returned (sym (get_user-Unique s.server j nick sound.0 lt before) ∙ unused))

-- A client that has a hostname and no username yet, and sends NICK with a nick that no user of the table
-- has and then USER with its names, is registered, and its nick finds it: where the table has an empty
-- slot, the nick, the username and the hostname have at most 100 characters each, and the lines of the
-- message of the day at most 300.
pub registers :
    (file : Option (List (List ℕ))) (client i : ℕ) (nick username hostname full a b : List ℕ)
    (rest more : List (List ℕ)) (first second : Message) (s : State)
    → client ≢ 0
    → IsSound s.server
    → IsOutside client s.server
    → (s.server.heap client).hostname ≡ some hostname
    → (s.server.heap client).username ≡ none
    → get_user s.server (some nick) ≡ returns 0
    → i < max_users
    → s.server.users i ≡ 0
    → AreShort nick username hostname
    → FileIsShort file
    → first.cmd ≡ some (codes "NICK")
    → first.args ≡ nick ∷ rest
    → second.cmd ≡ some (codes "USER")
    → second.args ≡ username ∷ a ∷ b ∷ full ∷ more
    → (t : State) × (handle_valid file client first s ≡ returns t)
      × (u : State) × (handle_valid file client second t ≡ returns u)
      × IsSound u.server
      × IsInside client u.server
unfolding registration_nick registration_user command_of same_string
registers file client i nick username hostname full a b rest more first second s z sound out host
      no_name unused lt empty short lines c1 a1 c2 a2 =
    let first_arg : arg 0 first ≡ some nick = ap (λ (l : List (List ℕ)). get_elem? l 0) a1 in
    let t = with_nick client nick s in
    let v = with_names client username full t in
    let self_t = set_user_self client (record (s.server.heap client) { nick = some nick }) s in
    let self_v =
      set_user_self client
        (record (t.server.heap client) { username = some username; full_name = some full }) t in
    let outside_t =
      set_user-Outside client (record (s.server.heap client) { nick = some nick }) s (sound, out)
        out.0 in
    let outside_v =
      set_user-Outside client
        (record (t.server.heap client) { username = some username; full_name = some full }) t
        outside_t outside_t.1.0 in
    let (u, run, sd, ins) =
      enrolled file client i nick username hostname full v z outside_v
        (ap (λ (w : User). w.nick) self_v ∙ ap (λ (w : User). w.nick) self_t)
        (ap (λ (w : User). w.username) self_v)
        (ap (λ (w : User). w.hostname) self_v ∙ ap (λ (w : User). w.hostname) self_t ∙ host)
        (ap (λ (w : User). w.full_name) self_v)
        (λ j h k.
          still_unused client nick (record (s.server.heap client) { nick = some nick })
            (record (t.server.heap client) { username = some username; full_name = some full }) s
            sound out unused j h k)
        lt empty short lines in
    (
      t,
      handle_valid-outside file client first (codes "NICK") s out.0 c1
          ∙ ap
              (λ (x : Option (List ℕ)).
                (get_user s.server x >>= λ found.
                if found == 0
                then with_string x (λ n. returns (with_nick client n s))
                else send_err_nicknameinuse client (some (codes "*")) x s)
                >>= complete_registration file client)
              first_arg
          ∙ ap
              (λ (x : Run ℕ).
                (x >>= λ found.
                if found == 0
                then returns (with_nick client nick s)
                else send_err_nicknameinuse client (some (codes "*")) (some nick) s)
                >>= complete_registration file client)
              unused
          ∙ incomplete file client t (ap (λ (w : User). w.username) self_t ∙ no_name),
      u,
      handle_valid-outside file client second (codes "USER") t outside_t.1.0 c2
          ∙ ap
              (λ (x : List (List ℕ)).
                with_string (get_elem? x 0)
                  (λ n. with_string (get_elem? x 3) (λ m. returns (with_names client n m t)))
                >>= complete_registration file client)
              a2
          ∙ run,
      sd,
      ins,
    )
