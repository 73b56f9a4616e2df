-- ===== src/Irc/Message/Split.antt =====
-- The first line of a text and more text.
use mathlib.Core.Option.{some-injective, some-ne-none}
use chi.Prelude.{
  ℕ, ◌+◌, ◌≤◌, ◌≡◌, inl, inr, refl, sym, ◌∙◌, ap, true, false, ◌==◌, ◌&&◌, Option, none, some, List,
  [], ◌∷◌, ◌++◌, length, drop, arith, Bool-cases,
}
use chi.Irc.Message.{char_at}
use chi.Irc.Message.Lines.{push, split_line, line_end}

split_line-end :
    (c d : ℕ) (s : List ℕ)
    → (c == b'\r' && d == b'\n') ≡ true
    → split_line (c ∷ d ∷ s) ≡ some ([], s)
unfolding split_line
split_line-end c d s t = rw t refl

split_line-cons :
    (c d : ℕ) (s : List ℕ)
    → (c == b'\r' && d == b'\n') ≡ false
    → split_line (c ∷ d ∷ s) ≡ push c (split_line (d ∷ s))
unfolding split_line
split_line-cons c d s f = rw f refl

split_line-short : (c : ℕ) → (split_line [] ≡ none) × (split_line (c ∷ []) ≡ none)
unfolding split_line
split_line-short c = (refl, refl)

push-some :
    (c : ℕ) (x : Option (List ℕ × List ℕ)) (line rest : List ℕ)
    → push c x ≡ some (line, rest)
    → (tail : List ℕ) × (c ∷ tail ≡ line) × (x ≡ some (tail, rest))
push-some c none line rest e = absurd (some-ne-none (line, rest) (sym e))
push-some c (some (a, b)) line rest e =
    let p = some-injective (c ∷ a, b) (line, rest) e in
    (a, ap (λ (z : List ℕ × List ℕ). z.0) p, ap (λ (z : List ℕ × List ℕ). some (a, z.1)) p)

push-none : (c : ℕ) (x : Option (List ℕ × List ℕ)) → push c x ≡ none → x ≡ none
push-none c none e = refl
push-none c (some (a, b)) e = absurd (some-ne-none (c ∷ a, b) e)

-- More text does not move the first line end.
pub split_line-append :
    (s more line rest : List ℕ)
    → split_line s ≡ some (line, rest)
    → split_line (s ++ more) ≡ some (line, rest ++ more)
split_line-append [] more line rest e =
    absurd (some-ne-none (line, rest) (sym e ∙ (split_line-short 0).0))
split_line-append (c ∷ []) more line rest e =
    absurd (some-ne-none (line, rest) (sym e ∙ (split_line-short c).1))
split_line-append (c ∷ d ∷ s) more line rest e = elim (Bool-cases (c == b'\r' && d == b'\n')) [
  | inl t ↦
      let p = some-injective ([], s) (line, rest) (sym (split_line-end c d s t) ∙ e) in
      split_line-end c d (s ++ more) t ∙ ap (λ (z : List ℕ × List ℕ). some (z.0, z.1 ++ more)) p
  | inr f ↦
      let (tail, whole, e') =
        push-some c (split_line (d ∷ s)) line rest (sym (split_line-cons c d s f) ∙ e) in
      split_line-cons c d (s ++ more) f
      ∙ ap (push c) (split_line-append (d ∷ s) more tail rest e')
      ∙ ap (λ (z : List ℕ). some (z, rest ++ more)) whole
]

-- A text with no line end in it is the first line where a line end follows.
pub split_line-line_end :
    (line rest : List ℕ)
    → split_line line ≡ none
    → split_line (line ++ line_end rest) ≡ some (line, rest)
split_line-line_end [] rest e = split_line-end b'\r' b'\n' rest refl
split_line-line_end (c ∷ []) rest e =
    split_line-cons c b'\r' (b'\n' ∷ rest) (ground arith)
    ∙ ap (push c) (split_line-end b'\r' b'\n' rest refl)
split_line-line_end (c ∷ d ∷ s) rest e = elim (Bool-cases (c == b'\r' && d == b'\n')) [
  | inl t ↦ absurd (some-ne-none ([], s) (sym (split_line-end c d s t) ∙ e))
  | inr f ↦
      split_line-cons c d (s ++ line_end rest) f
      ∙ ap (push c) (
          split_line-line_end (d ∷ s) rest
            (push-none c (split_line (d ∷ s)) (sym (split_line-cons c d s f) ∙ e)))
]

-- What has been read and has no line end yet is not much longer than the line.
pub unfinished_length :
    (s more line rest : List ℕ)
    → s ++ more ≡ line ++ line_end rest
    → split_line s ≡ none
    → length s ≤ length line + 1
unfinished_length [] more line rest e h = omega arith
unfinished_length (c ∷ []) more line rest e h = omega arith
unfinished_length (c ∷ d ∷ s) more [] rest e h =
    let t : (c == b'\r' && d == b'\n') ≡ true =
      rw (ap (λ (x : List ℕ). char_at x 0) e, ap (λ (x : List ℕ). char_at x 1) e) refl in
    absurd (some-ne-none ([], s) (sym (split_line-end c d s t) ∙ h))
unfinished_length (c ∷ d ∷ s) more (x ∷ line) rest e h =
    elim (Bool-cases (c == b'\r' && d == b'\n')) [
      | inl t ↦ absurd (some-ne-none ([], s) (sym (split_line-end c d s t) ∙ h))
      | inr f ↦
          let tail =
            unfinished_length (d ∷ s) more line rest (ap (drop 1) e)
              (push-none c (split_line (d ∷ s)) (sym (split_line-cons c d s f) ∙ h)) in
          omega arith
    ]

pub split_line-before : (s more : List ℕ) → split_line (s ++ more) ≡ none → split_line s ≡ none
split_line-before s more e = none_or (split_line s) refl
  where
    none_or : (x : Option (List ℕ × List ℕ)) → split_line s ≡ x → x ≡ none
    none_or none h = refl
    none_or (some (line, rest)) h =
        absurd (some-ne-none (line, rest ++ more) (sym (split_line-append s more line rest h) ∙ e))
