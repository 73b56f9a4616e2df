-- ===== src/Irc/Client/Reads.antt =====
-- `read_full_message` gives the first line of all that is sent, however it comes in chunks.
use mathlib.Core.Option.{some-injective, some-ne-none}
use mathlib.Core.List.{append_assoc, append-nil}
use chi.Prelude.{
  ℕ, suc, ◌+◌, ◌≤◌, ◌<◌, ◌≡◌, ◌≢◌, ◌⊎◌, inl, inr, refl, sym, ◌∙◌, ap, ap₂, true, none, some, List,
  [], ◌∷◌, ◌++◌, length, drop, take-append, length-append, arith, lt→ltb, ge→ltb, ltb,
}
use chi.Db.Run.{returns}
use chi.Irc.Message.{
  Recv, chunk, closed, failed, full, ended, waits, find_cr, until_zero, cut, read_full_message,
}
use chi.Irc.Message.Lines.{split_line, line_end, find_cr_lem}
use chi.Irc.Message.Split.{
  split_line-append, split_line-line_end, unfinished_length, split_line-before,
}

-- All that is sent before the stream ends.
abbrev pub stream : List Recv → List ℕ
stream [] = []
stream (chunk buffer ∷ left) = buffer ++ stream left
stream (closed ∷ left) = []
stream (failed ∷ left) = []

-- A chunk is not longer than CHUNK_SIZE and has no zero in it.
abbrev pub GoodChunks : List Recv → Type 0
GoodChunks [] = Unit
GoodChunks (chunk buffer ∷ left) =
    (length buffer ≤ 512) × (until_zero buffer ≡ buffer) × GoodChunks left
GoodChunks (closed ∷ left) = Unit
GoodChunks (failed ∷ left) = Unit

drop-line_end : (xs rest : List ℕ) → drop (length xs + 2) (xs ++ line_end rest) ≡ rest
drop-line_end [] rest = refl
drop-line_end (x ∷ xs) rest =
    let e : suc (length xs) + 2 ≡ suc (length xs + 2) = omega arith in
    ap (λ (n : ℕ). drop n (x ∷ (xs ++ line_end rest))) e ∙ drop-line_end xs rest

-- A buffer with a line end is cut there, whatever is still to come.
pub read_here :
    (left : List Recv) (buffer line rest : List ℕ)
    → buffer ≡ line ++ line_end rest
    → find_cr buffer (length buffer) ≡ length line
    → read_full_message left buffer ≡ returns (full line rest left)
unfolding read_full_message
read_here left buffer line rest whole at =
    let short : find_cr buffer (length buffer) < length buffer =
      omega (arith, ap length whole, length-append line (line_end rest)) in
    let here = lt→ltb (find_cr buffer (length buffer)) (length buffer) short in
    let result : cut buffer (find_cr buffer (length buffer)) left ≡ full line rest left =
      ap₂ (λ (n : ℕ) (b : List ℕ). cut b n left) at whole
      ∙ ap₂ (λ (x y : List ℕ). full x y left) (take-append line (line_end rest))
          (drop-line_end line rest) in
    by_clauses left here result
  where
    by_clauses :
        (left : List Recv)
        → ltb (find_cr buffer (length buffer)) (length buffer) ≡ true
        → cut buffer (find_cr buffer (length buffer)) left ≡ full line rest left
        → read_full_message left buffer ≡ returns (full line rest left)
    by_clauses [] h e = rw h (ap returns e)
    by_clauses (chunk c ∷ later) h e = rw h (ap returns e)
    by_clauses (closed ∷ later) h e = rw h (ap returns e)
    by_clauses (failed ∷ later) h e = rw h (ap returns e)

-- A buffer with no line end takes the next chunk, where there is room for it.
pub read_on :
    (c : List ℕ) (left : List Recv) (buffer : List ℕ)
    → length buffer ≤ find_cr buffer (length buffer)
    → until_zero c ≡ c
    → length buffer + length c < 4096
    → read_full_message (chunk c ∷ left) buffer ≡ read_full_message left (buffer ++ c)
unfolding read_full_message
read_on c left buffer le z room =
    rw
      (
        ge→ltb (find_cr buffer (length buffer)) (length buffer) le,
        z,
        lt→ltb (length buffer + length c) 4096 room,
      )
      refl

abbrev pub ReadsLine : List Recv → List ℕ → List ℕ → List ℕ → Type 0
ReadsLine left buffer line rest =
    (next : List ℕ) × (later : List Recv) × (read_full_message left buffer
      ≡ returns (full line next later))
    × (next ++ stream later ≡ rest)
    × GoodChunks later

read_found :
    (left : List Recv) (buffer line rest line' rest' : List ℕ)
    → GoodChunks left
    → buffer ++ stream left ≡ line ++ line_end rest
    → split_line line ≡ none
    → split_line buffer ≡ some (line', rest')
    → buffer ≡ line' ++ line_end rest'
    → find_cr buffer (length buffer) ≡ length line'
    → ReadsLine left buffer line rest
read_found left buffer line rest line' rest' g e n s whole at =
    let p =
      some-injective (line', rest' ++ stream left) (line, rest)
        (sym (split_line-append buffer (stream left) line' rest' s)
          ∙ ap split_line e
          ∙ split_line-line_end line rest n) in
    (
      rest',
      left,
      read_here left buffer line' rest' whole at
          ∙ ap (λ (z : List ℕ × List ℕ). returns (full z.0 rest' left)) p,
      ap (λ (z : List ℕ × List ℕ). z.1) p,
      g,
    )

no_more :
    (buffer line rest : List ℕ)
    → buffer ++ [] ≡ line ++ line_end rest
    → split_line line ≡ none
    → split_line buffer ≢ none
no_more buffer line rest e n s =
    some-ne-none (line, rest)
      (sym (split_line-line_end line rest n)
        ∙ sym (ap split_line e)
        ∙ ap split_line (append-nil buffer)
        ∙ s)

pub read_line :
    (left : List Recv) (buffer line rest : List ℕ)
    → GoodChunks left
    → buffer ++ stream left ≡ line ++ line_end rest
    → split_line line ≡ none
    → length line ≤ 3500
    → ReadsLine left buffer line rest
read_line [] buffer line rest g e n short = elim (find_cr_lem buffer) [
  | inl (line', rest', s, whole, at) ↦ read_found [] buffer line rest line' rest' g e n s whole at
  | inr (s, le) ↦ absurd (no_more buffer line rest e n s)
]
read_line (closed ∷ left) buffer line rest g e n short = elim (find_cr_lem buffer) [
  | inl (line', rest', s, whole, at) ↦
      read_found (closed ∷ left) buffer line rest line' rest' g e n s whole at
  | inr (s, le) ↦ absurd (no_more buffer line rest e n s)
]
read_line (failed ∷ left) buffer line rest g e n short = elim (find_cr_lem buffer) [
  | inl (line', rest', s, whole, at) ↦
      read_found (failed ∷ left) buffer line rest line' rest' g e n s whole at
  | inr (s, le) ↦ absurd (no_more buffer line rest e n s)
]
read_line (chunk c ∷ left) buffer line rest g e n short = elim (find_cr_lem buffer) [
  | inl (line', rest', s, whole, at) ↦
      read_found (chunk c ∷ left) buffer line rest line' rest' g e n s whole at
  | inr (s, le) ↦
      let bound = unfinished_length buffer (c ++ stream left) line rest e s in
      let (next, later, run, r, g') =
        read_line left (buffer ++ c) line rest g.2 (append_assoc buffer c (stream left) ∙ e) n
          short in
      (next, later, read_on c left buffer le g.1 (omega arith) ∙ run, r, g')
]

-- Where no line end is to come, the reading ends or waits.
abbrev pub ReadsNothing : List Recv → List ℕ → Type 0
ReadsNothing left buffer =
    (read_full_message left buffer ≡ returns ended)
    ⊎ ((message : List ℕ) × (read_full_message left buffer ≡ returns (waits message)))

nothing_here :
    (buffer : List ℕ) → split_line buffer ≡ none → length buffer ≤ find_cr buffer (length buffer)
nothing_here buffer n = elim (find_cr_lem buffer) [
  | inl (line, rest, s, whole, at) ↦ absurd (some-ne-none (line, rest) (sym s ∙ n))
  | inr (s, le) ↦ le
]

pub read_nothing :
    (left : List Recv) (buffer : List ℕ)
    → GoodChunks left
    → split_line (buffer ++ stream left) ≡ none
    → length buffer + length (stream left) < 4096
    → ReadsNothing left buffer
unfolding read_full_message
read_nothing [] buffer g n short =
    let le = nothing_here buffer (split_line-before buffer [] n) in
    inr (buffer, rw (ge→ltb (find_cr buffer (length buffer)) (length buffer) le) refl)
read_nothing (closed ∷ left) buffer g n short =
    let le = nothing_here buffer (split_line-before buffer [] n) in
    inl (rw (ge→ltb (find_cr buffer (length buffer)) (length buffer) le) refl)
read_nothing (failed ∷ left) buffer g n short =
    let le = nothing_here buffer (split_line-before buffer [] n) in
    inl (rw (ge→ltb (find_cr buffer (length buffer)) (length buffer) le) refl)
read_nothing (chunk c ∷ left) buffer g n short =
    let le = nothing_here buffer (split_line-before buffer (c ++ stream left) n) in
    let whole = length-append c (stream left) in
    let step = read_on c left buffer le g.1 (omega arith) in
    elim (read_nothing left (buffer ++ c) g.2
      (ap split_line (append_assoc buffer c (stream left)) ∙ n)
      (omega (arith, length-append buffer c))) [
        | inl e ↦ inl (step ∙ e)
        | inr (m, e) ↦ inr (m, step ∙ e)
      ]
