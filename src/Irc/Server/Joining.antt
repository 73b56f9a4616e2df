-- ===== src/Irc/Server/Joining.antt =====
-- irc/src/server.c: a JOIN of a channel that there is.
use native.Mathlib.Decide.{ℕ_discrete}
use chi.Prelude.{
  ℕ, zero, suc, ◌+◌, ◌≤◌, ◌<◌, ◌≡◌, ◌≢◌, refl, sym, ◌∙◌, ap, true, Option, some, List, ◌∷◌, arith,
  get_elem?, codes, eq→==, ne→==, Bool-cases, inl, inr,
}
use chi.Db.Run.{returns}
use chi.Irc.Users.{same_string}
use chi.Irc.Users.Nicks.{same_string_self}
use chi.Irc.Channels.{Channel, max_channels, get_channel_from, get_channel}
use chi.Irc.Message.{Message}
use chi.Irc.Reply.{State, with_string}
use chi.Irc.Server.{arg, command_of, join_named, handle_join_msg}
use chi.Irc.Server.Registration.{handle_valid}
use chi.Irc.Server.Leaving.{handle_valid-registered}

get_channel_from-found :
    (rounds i j : ℕ) (heap : ℕ → Channel) (channels : ℕ → ℕ) (name : List ℕ)
    → i ≤ j
    → j < i + rounds
    → channels j ≢ 0
    → (heap (channels j)).name ≡ name
    → get_channel_from rounds i heap channels name ≢ 0
unfolding get_channel_from
get_channel_from-found zero i j heap channels name lo hi ne e = absurd (omega arith)
get_channel_from-found (suc rounds) i j heap channels name lo hi ne e = elim (ℕ_discrete i j) [
  | yes same ↦
      let at : channels i ≢ 0 = (λ z. ne (ap channels (sym same) ∙ z)) in
      let hit : same_string (heap (channels i)).name name ≡ true =
        ap (λ (x : ℕ). same_string (heap (channels x)).name name) same
        ∙ ap (λ (x : List ℕ). same_string x name) e
        ∙ same_string_self name in
      rw (ne→== (channels i) 0 at, hit) at
  | no apart ↦
      let later =
        get_channel_from-found rounds (i + 1) j heap channels name (omega arith) (omega arith) ne
          e in
      elim (ℕ_discrete (channels i) 0) [
        | yes empty ↦ rw (eq→== (channels i) 0 empty) later
        | no full ↦ elim (Bool-cases (same_string (heap (channels i)).name name)) [
          | inl t ↦ rw (ne→== (channels i) 0 full, t) full
          | inr f ↦ rw (ne→== (channels i) 0 full, f) later
        ]
      ]
]

-- The channel is in a slot of the array.
abbrev pub HasChannel : ℕ → List ℕ → State → Type 0
HasChannel i name s = (s.channels i ≢ 0) × ((s.channel_heap (s.channels i)).name ≡ name)

-- A JOIN by a registered client of a channel that is in a slot of the array changes nothing and sends
-- nothing, also where the client is not a member: nobody is made a member and nobody is told.
pub join_existing :
    (file : Option (List (List ℕ))) (client i : ℕ) (msg : Message) (name : List ℕ)
    (more : List (List ℕ)) (s : State)
    → i < max_channels
    → HasChannel i name s
    → (s.server.heap client).is_registered ≡ true
    → msg.cmd ≡ some (codes "JOIN")
    → msg.args ≡ name ∷ more
    → handle_valid file client msg s ≡ returns s
unfolding handle_join_msg get_channel command_of same_string
join_existing file client i msg name more s lt (ne, e) r cmd args =
    let first : arg 0 msg ≡ some name = ap (λ (l : List (List ℕ)). get_elem? l 0) args in
    let found =
      get_channel_from-found max_channels 0 i s.channel_heap s.channels name (omega arith)
        (omega arith) ne e in
    handle_valid-registered file client msg (codes "JOIN") s r cmd
    ∙ ap (λ (x : Option (List ℕ)). with_string x (join_named msg client s)) first
    ∙ rw (ne→== _ 0 found) refl
