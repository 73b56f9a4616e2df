-- ===== src/Irc/Server/Slots.antt =====
-- irc/src/server.c: the table while a client registers.
use native.Mathlib.Decide.{ℕ_discrete}
use chi.Prelude.{ℕ, ◌<◌, ◌≡◌, ◌≢◌, ◌⊎◌, refl, sym, ◌∙◌, ap, true, false, some, List, eq→==, ne→==}
use chi.Db.Run.{returns}
use chi.Irc.Users.{User, Server, max_users, get_user, set_slot}
use chi.Irc.Users.Nicks.{HasNick, Unique, get_user-Unique}
use chi.Irc.Reply.{State}
use chi.Irc.Server.{with_server}
use chi.Irc.Server.Registration.{registered, set_user}

-- The nicks of the table are different, and all its users are registered.
abbrev pub IsSound : Server → Type 0
IsSound server =
    Unique server
    × ((j : ℕ)
        → j < max_users
        → server.users j ≢ 0
        → (server.heap (server.users j)).is_registered ≡ true)

-- A client that is not registered is not in the table.
abbrev pub IsOutside : ℕ → Server → Type 0
IsOutside client server =
    ((server.heap client).is_registered ≡ false)
    × ((j : ℕ) → j < max_users → server.users j ≢ client)

-- A client that is registered is found by its nick.
abbrev pub IsInside : ℕ → Server → Type 0
IsInside client server =
    (nick : List ℕ) × ((server.heap client).nick ≡ some nick)
    × ((server.heap client).is_registered ≡ true)
    × (get_user server (some nick) ≡ returns client)

abbrev pub OutsideOrIn : ℕ → Server → Type 0
OutsideOrIn client server = IsSound server × (IsOutside client server ⊎ IsInside client server)

abbrev pub Outside : ℕ → State → Type 0
Outside client s = IsSound s.server × IsOutside client s.server

-- What another client is given is in the memory of that client only.
pub set_user-other :
    (client p : ℕ) (user : User) (s : State)
    → p ≢ client
    → (set_user client user s).server.heap p ≡ s.server.heap p
set_user-other client p user s ne = rw (ne→== p client ne) refl

pub set_user_self :
    (client : ℕ) (user : User) (s : State) → (set_user client user s).server.heap client ≡ user
set_user_self client user s = rw (eq→== client client refl) refl

-- Nicks are looked up alike where the table is the same and the nicks are.
HasNick-same :
    (a b : Server) (j : ℕ) (n : List ℕ)
    → a.users j ≡ b.users j
    → (a.heap (a.users j)).nick ≡ (b.heap (b.users j)).nick
    → HasNick a j n
    → HasNick b j n
HasNick-same a b j n same nicks k = ((λ z. k.0 (same ∙ z)), sym nicks ∙ k.1)

Unique-same :
    (a b : Server)
    → ((j : ℕ)
        → j < max_users
        → (a.users j ≡ b.users j) × ((a.heap (a.users j)).nick ≡ (b.heap (b.users j)).nick))
    → Unique a
    → Unique b
Unique-same a b same u i j n li lj ki kj =
    let (ui, ni) = same i li in
    let (uj, nj) = same j lj in
    u i j n li lj (HasNick-same b a i n (sym ui) (sym ni) ki)
      (HasNick-same b a j n (sym uj) (sym nj) kj)

pub set_user-Outside :
    (client : ℕ) (user : User) (s : State)
    → Outside client s
    → user.is_registered ≡ false
    → Outside client (set_user client user s)
set_user-Outside client user s ((u, reg), (r, out)) h = (
  (
    Unique-same s.server (set_user client user s).server
        (λ j lt. (
          refl,
          ap (λ (w : User). w.nick)
              (sym (set_user-other client (s.server.users j) user s (out j lt))),
        ))
        u,
    (λ j lt ne.
        ap (λ (w : User). w.is_registered)
          (set_user-other client (s.server.users j) user s (out j lt))
        ∙ reg j lt ne),
  ),
  (ap (λ (w : User). w.is_registered) (set_user_self client user s) ∙ h, out),
)

-- The state once a client is registered in an empty slot.
pub registered-Inside :
    (client i : ℕ) (nick : List ℕ) (s : State)
    → client ≢ 0
    → Outside client s
    → (s.server.heap client).nick ≡ some nick
    → i < max_users
    → Unique (set_slot s.server i client)
    → IsSound (registered client s (set_slot s.server i client)).server
      × IsInside client (registered client s (set_slot s.server i client)).server
registered-Inside client i nick s not_null ((u, reg), (r, out)) named lt u' =
    let t = with_server s (set_slot s.server i client) in
    let user = record (s.server.heap client) { is_registered = true } in
    let after = (set_user client user t).server in
    let nicks : (p : ℕ) → (t.server.heap p).nick ≡ (after.heap p).nick = (λ p.
      elim (ℕ_discrete p client) [
        | yes e ↦
            ap (λ (x : ℕ). (s.server.heap x).nick) e
            ∙ ap (λ (w : User). w.nick) (sym (set_user_self client user t) ∙ ap after.heap (sym e))
        | no ne ↦ ap (λ (w : User). w.nick) (sym (set_user-other client p user t ne))
      ]) in
    let unique : Unique after =
      Unique-same t.server after (λ j h. (refl, nicks (t.server.users j))) u' in
    let here : after.users i ≡ client = rw (eq→== i i refl) refl in
    let found : (after.heap client).nick ≡ some nick = sym (nicks client) ∙ named in
    (
      (
        unique,
        (λ j h ne. elim (ℕ_discrete j i) [
          | yes e ↦
              let at : after.users j ≡ client = rw (eq→== j i e) refl in
              ap (λ (x : ℕ). (after.heap x).is_registered) at
              ∙ ap (λ (w : User). w.is_registered) (set_user_self client user t)
          | no apart ↦
              let at : after.users j ≡ s.server.users j = rw (ne→== j i apart) refl in
              ap (λ (x : ℕ). (after.heap x).is_registered) at
              ∙ ap (λ (w : User). w.is_registered)
                  (set_user-other client (s.server.users j) user t (out j h))
              ∙ reg j h (λ z. ne (at ∙ z))
        ]),
      ),
      (
        nick,
        found,
        ap (λ (w : User). w.is_registered) (set_user_self client user t),
        get_user-Unique after i nick unique lt
              ((λ z. not_null (sym here ∙ z)), ap (λ (x : ℕ). (after.heap x).nick) here ∙ found)
            ∙ ap returns here,
      ),
    )
