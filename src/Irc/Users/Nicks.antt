-- ===== src/Irc/Users/Nicks.antt =====
-- The nicks of the table of user.c are different, and a nick finds its user.
use chi.Prelude.{
  ℕ, zero, suc, ◌+◌, ◌≤◌, ◌<◌, ◌≡◌, ◌≢◌, refl, sym, subst, ap, ◌∙◌, ◌⊎◌, inl, inr, true, false,
  ◌==◌, if◌then◌else◌, Option, none, some, List, [], ◌∷◌, arith, Bool-cases, eq→==, ne→==,
}
use native.Mathlib.Decide.{ℕ_discrete}
use mathlib.Core.Option.{some-ne-none, some-injective}
use mathlib.Core.Bool.{true≢false}
use chi.Db.Run.{returns}
use chi.Irc.Users.{
  Server, max_users, same_string, slot_is, user_is, get_user_from, get_user, free_slot, set_slot,
}

pub same_string_self : (s : List ℕ) → same_string s s ≡ true
unfolding same_string
same_string_self [] = refl
same_string_self (a ∷ s) = ground (arith, same_string_self s)

same_string-eq : (s t : List ℕ) → same_string s t ≡ true → s ≡ t
unfolding same_string
same_string-eq [] [] e = refl
same_string-eq [] (b ∷ bs) e = ground (arith, e)
same_string-eq (a ∷ s) [] e = ground (arith, e)
same_string-eq (a ∷ s) (b ∷ t) e = ground (arith, same_string-eq s t, e)

-- The user in a slot of the table has a nick.
abbrev pub HasNick : Server → ℕ → List ℕ → Type 0
HasNick s i n = (s.users i ≢ 0) × ((s.heap (s.users i)).nick ≡ some n)

pub user_is-lem :
    (o : Option (List ℕ)) (n : List ℕ)
    → ((user_is o (some n) ≡ returns true) × (o ≡ some n))
      ⊎ ((user_is o (some n) ≡ returns false) × (o ≢ some n))
user_is-lem none n = inr (refl, (λ e. some-ne-none n (sym e)))
user_is-lem (some m) n = elim (Bool-cases (same_string m n)) [
  | inl t ↦ inl (ap returns t, ap some (same_string-eq m n t))
  | inr f ↦ inr (
    ap returns f,
    (λ e.
        let same : same_string m n ≡ true =
          subst (λ (k : List ℕ). same_string m k ≡ true) (some-injective m n e)
            (same_string_self m) in
        true≢false (sym same ∙ f)),
  )
]

slot_is-lem :
    (s : Server) (i : ℕ) (n : List ℕ)
    → ((slot_is s i (some n) ≡ returns true) × HasNick s i n)
      ⊎ ((slot_is s i (some n) ≡ returns false) × (HasNick s i n → ⊥))
slot_is-lem s i n = elim (ℕ_discrete (s.users i) 0) [
  | yes e ↦ inr (rw (eq→== _ _ e) refl, (λ h. h.0 e))
  | no ne ↦ elim (user_is-lem (s.heap (s.users i)).nick n) [
    | inl (t, h) ↦ inl (rw (ne→== _ _ ne, t) refl, (ne, h))
    | inr (f, h) ↦ inr (rw (ne→== _ _ ne, f) refl, (λ k. h k.1))
  ]
]

-- A search among some slots finds a user with the nick, or there is none.
pub get_user_from-lem :
    (rounds i : ℕ) (s : Server) (n : List ℕ)
    → ((j : ℕ) × (i ≤ j)
        × (j < i + rounds)
        × HasNick s j n
        × (get_user_from rounds i s (some n) ≡ returns (s.users j)))
      ⊎ (((j : ℕ) → i ≤ j → j < i + rounds → HasNick s j n → ⊥)
          × (get_user_from rounds i s (some n) ≡ returns 0))
unfolding get_user_from
get_user_from-lem zero i s n = inr ((λ j lo hi h. absurd (omega arith)), refl)
get_user_from-lem (suc rounds) i s n = elim (slot_is-lem s i n) [
  | inl (t, h) ↦ inl (i, omega arith, omega arith, h, rw t refl)
  | inr (f, h) ↦ elim (get_user_from-lem rounds (i + 1) s n) [
    | inl (j, lo, hi, k, e) ↦ inl (j, omega arith, omega arith, k, rw f e)
    | inr (absent, e) ↦ inr (
      (λ j lo hi k. elim (ℕ_discrete j i) [
        | yes same ↦ h (subst (λ (x : ℕ). HasNick s x n) same k)
        | no ne ↦ absent j (omega arith) (omega arith) k
      ]),
      rw f e,
    )
  ]
]

-- The first empty slot, or none.
pub free_slot-lem :
    (rounds i : ℕ) (s : Server)
    → ((j : ℕ) × (i ≤ j) × (j < i + rounds) × (s.users j ≡ 0) × (free_slot rounds i s ≡ some j))
      ⊎ (((j : ℕ) → i ≤ j → j < i + rounds → s.users j ≢ 0) × (free_slot rounds i s ≡ none))
unfolding free_slot
free_slot-lem zero i s = inr ((λ j lo hi. absurd (omega arith)), refl)
free_slot-lem (suc rounds) i s = elim (ℕ_discrete (s.users i) 0) [
  | yes e ↦ inl (i, omega arith, omega arith, e, rw (eq→== _ _ e) refl)
  | no ne ↦ elim (free_slot-lem rounds (i + 1) s) [
    | inl (j, lo, hi, e, r) ↦ inl (j, omega arith, omega arith, e, rw (ne→== _ _ ne) r)
    | inr (full, r) ↦ inr (
      (λ j lo hi. elim (ℕ_discrete j i) [
        | yes same ↦ (λ z. ne (ap s.users (sym same) ∙ z))
        | no other ↦ full j (omega arith) (omega arith)
      ]),
      rw (ne→== _ _ ne) r,
    )
  ]
]

abbrev pub IsFull : Server → Type 0
IsFull s = (j : ℕ) → j < max_users → s.users j ≢ 0

-- No two slots of the table hold users with the same nick.
abbrev pub Unique : Server → Type 0
Unique s =
    (i j : ℕ) (n : List ℕ) → i < max_users → j < max_users → HasNick s i n → HasNick s j n → i ≡ j

module _ (s : Server) (client i : ℕ) (n : List ℕ) (not_null : client ≢ 0)
    (named : (s.heap client).nick ≡ some n) where
  added-HasNick :
      (j : ℕ) (m : List ℕ)
      → HasNick (set_slot s i client) j m
      → ((j ≡ i) × (m ≡ n)) ⊎ ((j ≢ i) × HasNick s j m)
  added-HasNick j m h = elim (ℕ_discrete j i) [
    | yes e ↦
        let here : (if j == i then client else s.users j) ≡ client = rw (eq→== _ _ e) refl in
        inl (e, some-injective m n (sym h.1 ∙ ap (λ (p : ℕ). (s.heap p).nick) here ∙ named))
    | no ne ↦
        let there : (if j == i then client else s.users j) ≡ s.users j = rw (ne→== _ _ ne) refl in
        inr (ne, ((λ z. h.0 (there ∙ z)), ap (λ (p : ℕ). (s.heap p).nick) (sym there) ∙ h.1))
  ]

  pub added_here : HasNick (set_slot s i client) i n
  added_here =
      let here : (if i == i then client else s.users i) ≡ client = rw (eq→== i i refl) refl in
      ((λ z. not_null (sym here ∙ z)), ap (λ (p : ℕ). (s.heap p).nick) here ∙ named)

  pub added-Unique :
      ((j : ℕ) → j < max_users → HasNick s j n → ⊥) → Unique s → Unique (set_slot s i client)
  added-Unique absent u j k m hj hk a b = elim (added-HasNick j m a) [
    | inl (ej, mn) ↦ elim (added-HasNick k m b) [
      | inl (ek, mn') ↦ ej ∙ sym ek
      | inr (nk, hb) ↦ absurd (absent k hk (subst (HasNick s k) mn hb))
    ]
    | inr (nj, ha) ↦ elim (added-HasNick k m b) [
      | inl (ek, mn) ↦ absurd (absent j hj (subst (HasNick s j) mn ha))
      | inr (nk, hb) ↦ u j k m hj hk ha hb
    ]
  ]

-- A nick of a table with different nicks finds the user in its slot.
pub get_user-Unique :
    (s : Server) (i : ℕ) (n : List ℕ)
    → Unique s
    → i < max_users
    → HasNick s i n
    → get_user s (some n) ≡ returns (s.users i)
unfolding get_user
get_user-Unique s i n u h k = elim (get_user_from-lem max_users 0 s n) [
  | inl (j, lo, hi, kj, e) ↦ e ∙ ap (λ (x : ℕ). returns (s.users x)) (u j i n (omega arith) h kj k)
  | inr (absent, e) ↦ absurd (absent i (omega arith) (omega arith) k)
]
