-- ===== src/Irc/Message/Lines.antt =====
-- `find_cr` finds the first line end of a text.
use native.Mathlib.Decide.{dec_lt}
use chi.Prelude.{
  ℕ, zero, suc, ◌+◌, ◌≤◌, ◌≡◌, ◌⊎◌, inl, inr, refl, ◌∙◌, ap, ap₂, true, ◌==◌, ◌&&◌, if◌then◌else◌,
  Option, none, some, List, [], ◌∷◌, ◌++◌, length, arith, lt→ltb, ge→ltb, Bool-cases,
}
use chi.Irc.Message.{char_at, find_cr_from, find_cr}

-- The first line of a text, without its end, and what follows.
abbrev pub push : ℕ → Option (List ℕ × List ℕ) → Option (List ℕ × List ℕ)
push c none = none
push c (some (line, rest)) = some (c ∷ line, rest)

unfoldable pub split_line : List ℕ → Option (List ℕ × List ℕ)
split_line [] = none
split_line (c ∷ []) = none
split_line (c ∷ d ∷ s) =
    let more = push c (split_line (d ∷ s)) in
    if c == b'\r' && d == b'\n' then some ([], s) else more

abbrev pub line_end : List ℕ → List ℕ
line_end rest = b'\r' ∷ b'\n' ∷ rest

find_cr_from-shift :
    (rounds i c : ℕ) (s : List ℕ) (size : ℕ)
    → find_cr_from rounds (suc i) (c ∷ s) (suc size) ≡ suc (find_cr_from rounds i s size)
unfolding find_cr_from
find_cr_from-shift zero i c s size = omega arith
find_cr_from-shift (suc rounds) i c s size =
    let e : suc i + 1 ≡ suc (i + 1) = omega arith in
    elim (dec_lt (i + 1) size) [
      | yes h ↦ elim (Bool-cases (char_at s i == b'\r' && char_at s (i + 1) == b'\n')) [
        | inl t ↦
            rw (e, lt→ltb (suc (i + 1)) (suc size) (omega arith), lt→ltb (i + 1) size h, t) refl
        | inr f ↦
            rw (e, lt→ltb (suc (i + 1)) (suc size) (omega arith), lt→ltb (i + 1) size h, f)
              (find_cr_from-shift rounds (i + 1) c s size)
      ]
      | no n ↦
          rw (e, ge→ltb (suc (i + 1)) (suc size) (omega arith), ge→ltb (i + 1) size (omega arith))
            refl
    ]

pub find_cr-cons :
    (c d : ℕ) (s : List ℕ)
    → find_cr (c ∷ d ∷ s) (length (c ∷ d ∷ s))
      ≡ (if c == b'\r' && d == b'\n' then 0 else suc (find_cr (d ∷ s) (length (d ∷ s))))
unfolding find_cr find_cr_from
find_cr-cons c d s = rw (lt→ltb 1 (suc (suc (length s))) (omega arith)) (
    ap (λ (x : ℕ). if c == b'\r' && d == b'\n' then 0 else x)
      (find_cr_from-shift (suc (length s)) 0 c (d ∷ s) (suc (length s))))

find_cr-one : (c : ℕ) → find_cr (c ∷ []) 1 ≡ 1
unfolding find_cr find_cr_from
find_cr-one c = refl

pub is_end : (c d : ℕ) → (c == b'\r' && d == b'\n') ≡ true → (c ≡ b'\r') × (d ≡ b'\n')
is_end c d h = ground arith

-- A text has a line end, which `find_cr` finds, or none, and then `find_cr` gives its length or more.
abbrev pub Found : List ℕ → Type 0
Found s =
    ((line : List ℕ) × (rest : List ℕ) × (split_line s ≡ some (line, rest))
      × (s ≡ line ++ line_end rest)
      × (find_cr s (length s) ≡ length line))
    ⊎ ((split_line s ≡ none) × (length s ≤ find_cr s (length s)))

pub find_cr_lem : (s : List ℕ) → Found s
unfolding split_line
find_cr_lem [] = inr (refl, omega arith)
find_cr_lem (c ∷ []) = inr (refl, omega (arith, find_cr-one c))
find_cr_lem (c ∷ d ∷ s) = elim (Bool-cases (c == b'\r' && d == b'\n')) [
  | inl t ↦ inl (
    [],
    s,
    rw t refl,
    ap₂ (λ (x y : ℕ). x ∷ y ∷ s) (is_end c d t).0 (is_end c d t).1,
    find_cr-cons c d s ∙ rw t refl,
  )
  | inr f ↦ elim (find_cr_lem (d ∷ s)) [
    | inl (line, rest, e, whole, at) ↦ inl (
      c ∷ line,
      rest,
      rw f (ap (push c) e),
      ap (λ (x : List ℕ). c ∷ x) whole,
      find_cr-cons c d s ∙ rw f (ap suc at),
    )
    | inr (e, le) ↦ inr (
      rw f (ap (push c) e),
      (let step : find_cr (c ∷ d ∷ s) (length (c ∷ d ∷ s))
              ≡ suc (find_cr (d ∷ s) (length (d ∷ s))) =
            find_cr-cons c d s ∙ rw f refl in
          omega arith),
    )
  ]
]
