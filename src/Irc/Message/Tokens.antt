-- ===== src/Irc/Message/Tokens.antt =====
-- `strtok` with a space: it finds the words of a text.
use native.Mathlib.Decide.{ℕ_discrete}
use mathlib.Core.Bool.{true≢false}
use chi.Prelude.{
  ℕ, ◌≡◌, ◌≢◌, refl, sym, ◌∙◌, ap, ap₂, true, false, none, some, List, [], ◌∷◌, ◌++◌, drop, eq→==,
  ne→==,
}
use chi.Irc.Message.{skip_spaces, word, after_word, strtok, trailing}

abbrev pub NoSpace : List ℕ → Type 0
NoSpace [] = Unit
NoSpace (c ∷ cs) = (c ≢ b' ') × NoSpace cs

abbrev pub NotEmpty : List ℕ → Type 0
NotEmpty [] = false ≡ true
NotEmpty (c ∷ cs) = Unit

-- The end of a text, or a space.
abbrev pub IsGap : List ℕ → Type 0
IsGap [] = Unit
IsGap (c ∷ cs) = c ≡ b' '

abbrev pub EndsWell : List ℕ → Type 0
EndsWell [] = Unit
EndsWell (c ∷ []) = c ≢ b' '
EndsWell (c ∷ d ∷ cs) = EndsWell (d ∷ cs)

word-gap : (w rest : List ℕ) → NoSpace w → IsGap rest → word (w ++ rest) ≡ w
unfolding word
word-gap [] [] n g = refl
word-gap [] (c ∷ cs) n g = rw (eq→== c b' ' g) refl
word-gap (c ∷ w) rest n g =
    rw (ne→== c b' ' n.0) (ap (λ (t : List ℕ). c ∷ t) (word-gap w rest n.1 g))

after_word-gap : (w rest : List ℕ) → NoSpace w → IsGap rest → after_word (w ++ rest) ≡ drop 1 rest
unfolding after_word
after_word-gap [] [] n g = refl
after_word-gap [] (c ∷ cs) n g = rw (eq→== c b' ' g) refl
after_word-gap (c ∷ w) rest n g = rw (ne→== c b' ' n.0) (after_word-gap w rest n.1 g)

-- The first token of a word and what follows it is that word.
pub strtok-gap :
    (w rest : List ℕ)
    → NotEmpty w
    → NoSpace w
    → IsGap rest
    → strtok (w ++ rest) ≡ some (w, drop 1 rest)
unfolding strtok skip_spaces
strtok-gap [] rest e n g = absurd (true≢false (sym e))
strtok-gap (c ∷ w) rest e n g = rw (ne→== c b' ' n.0) (
    ap₂ (λ (x y : List ℕ). some (x, y)) (word-gap (c ∷ w) rest n g)
      (after_word-gap (c ∷ w) rest n g))

pub strtok-nothing : strtok [] ≡ none
unfolding strtok skip_spaces
strtok-nothing = refl

pub strtok-colon : (t : List ℕ) → strtok (b':' ∷ t) ≡ some (b':' ∷ word t, after_word t)
unfolding strtok skip_spaces word after_word
strtok-colon t = refl

trailing-cons : (c d : ℕ) (w rest : List ℕ) → trailing (c ∷ d ∷ w) rest ≡ d ∷ trailing (c ∷ w) rest
trailing-cons c d w [] = refl
trailing-cons c d w (x ∷ xs) = refl

EndsWell-tail : (d x : ℕ) (s : List ℕ) → EndsWell (d ∷ x ∷ s) → EndsWell (x ∷ s)
EndsWell-tail d x s e = e

-- A text that does not end in a space is its first word and what follows, with the space between.
pub trailing_lem : (c : ℕ) (s : List ℕ) → EndsWell s → trailing (c ∷ word s) (after_word s) ≡ s
unfolding word after_word
trailing_lem c [] e = refl
trailing_lem c (d ∷ []) e = rw (ne→== d b' ' e) refl
trailing_lem c (d ∷ x ∷ s) e = elim (ℕ_discrete d b' ') [
  | yes sp ↦ rw (eq→== d b' ' sp) (ap (λ (y : ℕ). y ∷ x ∷ s) (sym sp))
  | no ne ↦ rw (ne→== d b' ' ne) (
      trailing-cons c d (word (x ∷ s)) (after_word (x ∷ s))
      ∙ ap (λ (t : List ℕ). d ∷ t) (trailing_lem c (x ∷ s) (EndsWell-tail d x s e)))
]

NoSpace-word : (s : List ℕ) → NoSpace (word s)
unfolding word
NoSpace-word [] = tt
NoSpace-word (c ∷ s) = elim (ℕ_discrete c b' ') [
  | yes e ↦ rw (eq→== c b' ' e) tt
  | no ne ↦ rw (ne→== c b' ' ne) (ne, NoSpace-word s)
]
