-- ===== src/Irc/Channels/Members.antt =====
-- The members of a channel of channel.c.
use native.Mathlib.Decide.{ℕ_discrete}
use chi.Prelude.{
  ℕ, zero, suc, ◌+◌, ◌≤◌, ◌<◌, ◌≡◌, ◌≢◌, refl, sym, subst, ap, ◌∙◌, ◌⊎◌, inl, inr, true, false,
  none, some, List, arith, eq→==, ne→==,
}
use chi.Db.Run.{returns}
use chi.Irc.Users.{User}
use chi.Irc.Users.Nicks.{user_is-lem}
use chi.Irc.Channels.{
  Channel, max_channel_members, first_null, put, add_member, member_is, is_member_from, is_member,
}

first_null-lem :
    (rounds i : ℕ) (f : ℕ → ℕ)
    → ((j : ℕ) × (i ≤ j) × (j < i + rounds) × (f j ≡ 0) × (first_null rounds i f ≡ some j))
      ⊎ (((j : ℕ) → i ≤ j → j < i + rounds → f j ≢ 0) × (first_null rounds i f ≡ none))
unfolding first_null
first_null-lem zero i f = inr ((λ j lo hi. absurd (omega arith)), refl)
first_null-lem (suc rounds) i f = elim (ℕ_discrete (f i) 0) [
  | yes e ↦ inl (i, omega arith, omega arith, e, rw (eq→== _ _ e) refl)
  | no ne ↦ elim (first_null-lem rounds (i + 1) f) [
    | inl (j, lo, hi, e, r) ↦ inl (j, omega arith, omega arith, e, rw (ne→== _ _ ne) r)
    | inr (full, r) ↦ inr (
      (λ j lo hi. elim (ℕ_discrete j i) [
        | yes same ↦ (λ z. ne (ap f (sym same) ∙ z))
        | no other ↦ full j (omega arith) (omega arith)
      ]),
      rw (ne→== _ _ ne) r,
    )
  ]
]

-- A member of the channel with the nick.
abbrev pub IsMember : (ℕ → User) → Channel → List ℕ → ℕ → Type 0
IsMember heap channel n j = (channel.members j ≢ 0) × ((heap (channel.members j)).nick ≡ some n)

-- Every member of the channel has a nick.
abbrev pub Named : (ℕ → User) → Channel → Type 0
Named heap channel = (j : ℕ) → (channel.members j ≡ 0) ⊎ ((m : List ℕ) × IsMember heap channel m j)

-- What the comparison of one member's nick answers.
slot-lem :
    (heap : ℕ → User) (user : User) (channel : Channel) (n : List ℕ) (i : ℕ)
    → user.nick ≡ some n
    → (m : List ℕ) × IsMember heap channel m i
    → ((member_is (heap (channel.members i)).nick user.nick ≡ returns true)
        × IsMember heap channel n i)
      ⊎ ((member_is (heap (channel.members i)).nick user.nick ≡ returns false)
          × (IsMember heap channel n i → ⊥))
slot-lem heap user channel n i e (m, (ne, k)) = elim (user_is-lem (some m) n) [
  | inl (t, same) ↦ inl (rw (k, e) t, (ne, k ∙ same))
  | inr (f, other) ↦ inr (rw (k, e) f, (λ h. other (sym k ∙ h.1)))
]

abbrev pub IsFull : Channel → Type 0
IsFull channel = (j : ℕ) → j < max_channel_members → channel.members j ≢ 0

-- What is found behind a slot without the nick.
abbrev Finds : ℕ → ℕ → (ℕ → User) → User → Channel → List ℕ → Type 0
Finds rounds i heap user channel n =
    ((j : ℕ) × (i ≤ j)
      × (j < i + rounds)
      × IsMember heap channel n j
      × (is_member_from rounds i heap user channel ≡ returns true))
    ⊎ (((j : ℕ) → i ≤ j → j < i + rounds → IsMember heap channel n j → ⊥)
        × (is_member_from rounds i heap user channel ≡ returns false))

later :
    (rounds i : ℕ) (heap : ℕ → User) (user : User) (channel : Channel) (n : List ℕ)
    → (IsMember heap channel n i → ⊥)
    → is_member_from (suc rounds) i heap user channel
      ≡ is_member_from rounds (i + 1) heap user channel
    → Finds rounds (i + 1) heap user channel n
    → Finds (suc rounds) i heap user channel n
later rounds i heap user channel n h step (inl (j, lo, hi, k, e)) =
    inl (j, omega arith, omega arith, k, step ∙ e)
later rounds i heap user channel n h step (inr (absent, e)) = inr (
  (λ j lo hi k. elim (ℕ_discrete j i) [
    | yes same ↦ h (subst (IsMember heap channel n) same k)
    | no ne ↦ absent j (omega arith) (omega arith) k
  ]),
  step ∙ e,
)

is_member_from-lem :
    (rounds i : ℕ) (heap : ℕ → User) (user : User) (channel : Channel) (n : List ℕ)
    → user.nick ≡ some n
    → Named heap channel
    → ((j : ℕ) × (i ≤ j)
        × (j < i + rounds)
        × IsMember heap channel n j
        × (is_member_from rounds i heap user channel ≡ returns true))
      ⊎ (((j : ℕ) → i ≤ j → j < i + rounds → IsMember heap channel n j → ⊥)
          × (is_member_from rounds i heap user channel ≡ returns false))
unfolding is_member_from
is_member_from-lem zero i heap user channel n e named =
    inr ((λ j lo hi h. absurd (omega arith)), refl)
is_member_from-lem (suc rounds) i heap user channel n e named =
    let rest = is_member_from-lem rounds (i + 1) heap user channel n e named in
    elim (named i) [
      | inl empty ↦
          later rounds i heap user channel n (λ h. h.0 empty) (rw (eq→== _ _ empty) refl) rest
      | inr (m, k) ↦ elim (slot-lem heap user channel n i e (m, k)) [
        | inl (t, h) ↦ inl (i, omega arith, omega arith, h, rw (ne→== _ _ k.0, t) refl)
        | inr (f, h) ↦ later rounds i heap user channel n h (rw (ne→== _ _ k.0, f) refl) rest
      ]
    ]

module _ (heap : ℕ → User) (channel : Channel) (member i : ℕ) (n : List ℕ) (not_null : member ≢ 0)
    (nick : (heap member).nick ≡ some n) (named : Named heap channel)
    (lt : i < max_channel_members) where
  abbrev joined : Channel
  joined = record channel { members = put channel.members member (some i) }

  joined_self : joined.members i ≡ member
  joined_self = rw (eq→== i i refl) refl

  joined-IsMember : IsMember heap joined n i
  joined-IsMember =
      ((λ z. not_null (sym joined_self ∙ z)), ap (λ (p : ℕ). (heap p).nick) joined_self ∙ nick)

  joined-Named : Named heap joined
  joined-Named j = elim (ℕ_discrete j i) [
    | yes e ↦ inr (n, subst (IsMember heap joined n) (sym e) joined-IsMember)
    | no ne ↦
        let same : joined.members j ≡ channel.members j = rw (ne→== _ _ ne) refl in
        elim (named j) [
          | inl empty ↦ inl (same ∙ empty)
          | inr (m, k) ↦
              inr (m, ((λ z. k.0 (sym same ∙ z)), ap (λ (p : ℕ). (heap p).nick) same ∙ k.1))
        ]
  ]

  joined-is_member : is_member heap (heap member) joined ≡ returns true
  unfolding is_member
  joined-is_member =
      elim (is_member_from-lem max_channel_members 0 heap (heap member) joined n nick
        joined-Named) [
          | inl (j, lo, hi, k, e) ↦ e
          | inr (absent, e) ↦ absurd (absent i (omega arith) (omega arith) joined-IsMember)
        ]

-- A user with a nick who is added to a channel of users with nicks is a member of it from then on,
-- and its members still have nicks; a channel that has no room stays as it is.
pub add_member_lem :
    (heap : ℕ → User) (channel : Channel) (member : ℕ) (n : List ℕ)
    → member ≢ 0
    → (heap member).nick ≡ some n
    → Named heap channel
    → ((i : ℕ) × (i < max_channel_members)
        × (channel.members i ≡ 0)
        × (((add_member member channel).members i ≡ member)
            × Named heap (add_member member channel)
            × (is_member heap (heap member) (add_member member channel) ≡ returns true)))
      ⊎ (IsFull channel × (add_member member channel ≡ channel))
unfolding add_member
add_member_lem heap channel member n not_null nick named =
    elim (first_null-lem max_channel_members 0 channel.members) [
      | inr (full, e) ↦ inr ((λ j h. full j (omega arith) (omega arith)), rw e refl)
      | inl (i, lo, hi, empty, e) ↦
          let after : joined heap channel member i n not_null nick named (omega arith)
              ≡ add_member member channel =
            ap (λ o. record channel { members = put channel.members member o }) (sym e) in
          inl (
            i,
            omega arith,
            empty,
            subst
                (λ (c : Channel).
                  (c.members i ≡ member)
                  × Named heap c
                  × (is_member heap (heap member) c ≡ returns true))
                after
                (
                  joined_self heap channel member i n not_null nick named (omega arith),
                  joined-Named heap channel member i n not_null nick named (omega arith),
                  joined-is_member heap channel member i n not_null nick named (omega arith),
                ),
          )
    ]
