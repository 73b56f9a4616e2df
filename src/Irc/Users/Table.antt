-- ===== src/Irc/Users/Table.antt =====
-- The calls of user.c that change the table of users.
use chi.Prelude.{
  ℕ, zero, suc, ◌+◌, ◌≤◌, ◌<◌, ◌≡◌, ◌≢◌, refl, sym, ap, ◌∙◌, ◌⊎◌, inl, inr, true, false, ◌==◌,
  if◌then◌else◌, some, List, arith, eq→==, ne→==,
}
use native.Mathlib.Decide.{ℕ_discrete}
use chi.Db.Run.{returns, undefined}
use chi.Irc.Users.{
  Server, max_users, get_user, set_slot, register_user, update_nick, delete_user_from, delete_user,
}
use chi.Irc.Users.Nicks.{
  HasNick, get_user_from-lem, free_slot-lem, IsFull, Unique, added_here, added-Unique,
  get_user-Unique,
}

-- Registering a user whose nick is in use is refused with no change. Otherwise the user is put in an
-- empty slot, the nicks of the table are still different and the nick finds the user; where there is
-- no empty slot the function ends without a value.
pub register_user_lem :
    (s : Server) (client : ℕ) (n : List ℕ)
    → client ≢ 0
    → (s.heap client).nick ≡ some n
    → Unique s
    → ((j : ℕ) × (j < max_users) × HasNick s j n × (register_user s client ≡ returns (false, s)))
      ⊎ ((i : ℕ) × (i < max_users)
          × (s.users i ≡ 0)
          × (register_user s client ≡ returns (true, set_slot s i client))
          × Unique (set_slot s i client)
          × (get_user (set_slot s i client) (some n) ≡ returns client))
      ⊎ (IsFull s × (register_user s client ≡ undefined))
unfolding register_user get_user
register_user_lem s client n not_null named u = elim (get_user_from-lem max_users 0 s n) [
  | inl (j, lo, hi, k, e) ↦ inl (j, omega arith, k, rw (named, e, ne→== _ 0 k.0) refl)
  | inr (absent, e) ↦ elim (free_slot-lem max_users 0 s) [
    | inl (i, lo, hi, empty, free) ↦ inr (
        inl (
          i,
          omega arith,
          empty,
          rw (named, e, free) refl,
          added-Unique s client i n not_null named (λ j h. absent j (omega arith) (omega arith)) u,
          get_user-Unique (set_slot s i client) i n
                (added-Unique s client i n not_null named
                  (λ j h. absent j (omega arith) (omega arith)) u)
                (omega arith) (added_here s client i n not_null named)
              ∙ ap returns (rw (eq→== i i refl) refl),
        ))
    | inr (full, free) ↦
        inr (inr ((λ j h. full j (omega arith) (omega arith)), rw (named, e, free) refl))
  ]
]

-- A user of the table that has a nick never gets another: the test for the nick in use finds the user
-- itself.
pub update_nick_lem :
    (s : Server) (i : ℕ) (n new_nick : List ℕ)
    → i < max_users
    → HasNick s i n
    → update_nick s new_nick (s.users i) ≡ returns (false, s)
unfolding update_nick get_user
update_nick_lem s i n new_nick h k = elim (get_user_from-lem max_users 0 s n) [
  | inl (j, lo, hi, kj, e) ↦ rw (k.1, e, ne→== _ 0 kj.0) refl
  | inr (absent, e) ↦ absurd (absent i (omega arith) (omega arith) k)
]

delete_user_from-lem :
    (rounds i : ℕ) (s : Server) (client : ℕ)
    → ((j : ℕ) × (i ≤ j)
        × (j < i + rounds)
        × (s.users j ≡ client)
        × (delete_user_from rounds i s client ≡ set_slot s j 0))
      ⊎ ((j : ℕ) → i ≤ j → j < i + rounds → s.users j ≢ client)
unfolding delete_user_from
delete_user_from-lem zero i s client = inr (λ j lo hi. absurd (omega arith))
delete_user_from-lem (suc rounds) i s client = elim (ℕ_discrete (s.users i) client) [
  | yes e ↦ inl (i, omega arith, omega arith, e, rw (eq→== _ _ e) refl)
  | no ne ↦ elim (delete_user_from-lem rounds (i + 1) s client) [
    | inl (j, lo, hi, e, r) ↦ inl (j, omega arith, omega arith, e, rw (ne→== _ _ ne) r)
    | inr other ↦ inr (λ j lo hi. elim (ℕ_discrete j i) [
      | yes same ↦ (λ z. ne (ap s.users (sym same) ∙ z))
      | no apart ↦ other j (omega arith) (omega arith)
    ])
  ]
]

pub delete_user_from-none :
    (rounds i : ℕ) (s : Server) (client : ℕ)
    → ((j : ℕ) → j < i + rounds → s.users j ≢ client)
    → delete_user_from rounds i s client ≡ s
unfolding delete_user_from
delete_user_from-none zero i s client h = refl
delete_user_from-none (suc rounds) i s client h =
    rw (ne→== (s.users i) client (h i (omega arith)))
      (delete_user_from-none rounds (i + 1) s client (λ j lt. h j (omega arith)))

removed-HasNick :
    (s : Server) (i j : ℕ) (m : List ℕ) → HasNick (set_slot s i 0) j m → (j ≢ i) × HasNick s j m
removed-HasNick s i j m h = elim (ℕ_discrete j i) [
  | yes e ↦
      let gone : (if j == i then 0 else s.users j) ≡ 0 = rw (eq→== _ _ e) refl in absurd (h.0 gone)
  | no ne ↦
      let there : (if j == i then 0 else s.users j) ≡ s.users j = rw (ne→== _ _ ne) refl in
      (ne, ((λ z. h.0 (there ∙ z)), ap (λ (p : ℕ). (s.heap p).nick) (sym there) ∙ h.1))
]

-- Deleting a user of the table takes that user, and no other, out of the table: the nicks are still
-- different, and the nick of the user finds nobody.
pub delete_user_lem :
    (s : Server) (i : ℕ) (n : List ℕ)
    → i < max_users
    → HasNick s i n
    → Unique s
    → (delete_user s (s.users i) ≡ returns (set_slot s i 0))
      × Unique (set_slot s i 0)
      × (get_user (set_slot s i 0) (some n) ≡ returns 0)
unfolding delete_user get_user
delete_user_lem s i n h k u = (
  elim (delete_user_from-lem max_users 0 s (s.users i)) [
    | inl (j, lo, hi, e, r) ↦
        let kj : HasNick s j n =
          ((λ z. k.0 (sym e ∙ z)), ap (λ (p : ℕ). (s.heap p).nick) e ∙ k.1) in
        let same : j ≡ i = u j i n (omega arith) h kj k in
        rw (ne→== _ 0 k.0) (ap returns (r ∙ ap (λ (x : ℕ). set_slot s x 0) same))
    | inr other ↦ absurd (other i (omega arith) (omega arith) refl)
  ],
  (λ a b m ha hb ka kb.
      u a b m ha hb (removed-HasNick s i a m ka).1 (removed-HasNick s i b m kb).1),
  elim (get_user_from-lem max_users 0 (set_slot s i 0) n) [
    | inl (j, lo, hi, kj, e) ↦
        let (ne, k') = removed-HasNick s i j n kj in absurd (ne (u j i n (omega arith) h k' k))
    | inr (absent, e) ↦ e
  ],
)
