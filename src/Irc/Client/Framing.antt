-- ===== src/Irc/Client/Framing.antt =====
-- The messages that `handle_client` handles are the lines that are sent.
use chi.Prelude.{
  ℕ, zero, suc, ◌≤◌, ◌<◌, ◌≡◌, inl, inr, refl, ◌∙◌, ap, true, false, none, List, [], ◌∷◌, ◌++◌,
  length, length-append, arith,
}
use chi.Db.Run.{Run, returns, aborted, undefined, out_of_fuel, ◌>>=◌}
use chi.Irc.Message.{
  Message, Recv, chunk, Reading, parse_message, is_valid, parsed_buffer, strtok, skip_spaces,
  until_zero,
}
use chi.Irc.Message.Lines.{split_line, line_end, find_cr-cons}
use chi.Irc.Client.{no_message, after_read, handle_client}
use chi.Irc.Client.Reads.{read_here, read_on, stream, GoodChunks, read_line, read_nothing}

-- Lines, each with its end, and the start of another.
abbrev pub join : List (List ℕ) → List ℕ → List ℕ
join [] rest = rest
join (line ∷ lines) rest = line ++ line_end (join lines rest)

-- No line has a line end in it or is too long, and each has a command.
abbrev pub GoodLines : List (List ℕ) → Type 0
GoodLines [] = Unit
GoodLines (line ∷ lines) =
    (split_line line ≡ none)
    × (length line ≤ 3500)
    × (is_valid (parse_message line no_message) ≡ true)
    × GoodLines lines

module _ {ℓ} {S : Type ℓ} (handle : Message → S → Run S) where
  abbrev pub handle_lines : List (List ℕ) → S → Run S
  handle_lines [] s = returns s
  handle_lines (line ∷ lines) s =
      handle (parse_message line no_message) s >>= λ t. handle_lines lines t

  bind_ext :
      (x : Run S) (f g : S → Run S) → ((t : S) → f t ≡ g t) → (x >>= λ t. f t) ≡ (x >>= λ t. g t)
  bind_ext (returns t) f g h = h t
  bind_ext aborted f g h = refl
  bind_ext undefined f g h = refl
  bind_ext out_of_fuel f g h = refl

  framing :
      (lines : List (List ℕ)) (rest : List ℕ) (fuel : ℕ) (left : List Recv) (buffer : List ℕ)
      (s : S)
      → GoodChunks left
      → GoodLines lines
      → split_line rest ≡ none
      → length rest < 4096
      → buffer ++ stream left ≡ join lines rest
      → length lines < fuel
      → handle_client handle fuel left buffer s ≡ handle_lines lines s
  unfolding handle_client
  framing lines rest zero left buffer s g l n short e f = absurd (omega arith)
  framing [] rest (suc fuel) left buffer s g l n short e f =
      elim (read_nothing left buffer g (ap split_line e ∙ n)
        (omega (arith, ap length e, length-append buffer (stream left)))) [
          | inl r ↦
              ap (λ (x : Run Reading). x >>= after_read handle (handle_client handle fuel) s) r
          | inr (m, r) ↦
              ap (λ (x : Run Reading). x >>= after_read handle (handle_client handle fuel) s) r
        ]
  framing (line ∷ lines) rest (suc fuel) left buffer s g (nl, len, valid, l) n short e f =
      let (next, later, run, e', g') = read_line left buffer line (join lines rest) g e nl len in
      ap (λ (x : Run Reading). x >>= after_read handle (handle_client handle fuel) s) run
      ∙ rw valid (
          bind_ext (handle (parse_message line no_message) s) (handle_client handle fuel later next)
            (handle_lines lines)
            (λ t. framing lines rest fuel later next t g' l n short e' (omega arith)))

-- However the lines that a client sends are cut into chunks, the client's messages are handled as they
-- are one after the other, each parsed from its line: as many rounds as there are lines, and one more,
-- are enough. No line may be longer than 3,500 characters, nor a start of a line than 4,095, each has
-- a command, and there is no zero among the characters.
pub handle_client_lem {ℓ} :
    {S : Type ℓ} (handle : Message → S → Run S) (lines : List (List ℕ)) (rest : List ℕ) (fuel : ℕ)
    (chunks : List Recv) (s : S)
    → GoodChunks chunks
    → GoodLines lines
    → split_line rest ≡ none
    → length rest < 4096
    → stream chunks ≡ join lines rest
    → length lines < fuel
    → handle_client handle fuel chunks [] s ≡ handle_lines handle lines s
handle_client_lem handle lines rest fuel chunks s g l n short e f =
    framing handle lines rest fuel chunks [] s g l n short e f

parsed_nothing : parsed_buffer [] ≡ []
unfolding parsed_buffer
parsed_nothing = refl

until_zero-line_end : (t : List ℕ) → until_zero t ≡ t → until_zero (line_end t) ≡ line_end t
unfolding until_zero
until_zero-line_end t z = ap line_end z

empty_is_invalid : is_valid (parse_message [] no_message) ≡ false
unfolding is_valid parse_message strtok skip_spaces
empty_is_invalid = refl

-- An empty line is not handled, and all the text that came in the same chunk behind it is lost: the
-- loop goes on with the next chunk as if that text had not been sent.
pub handle_client-empty_line {ℓ} :
    {S : Type ℓ} (handle : Message → S → Run S) (fuel : ℕ) (text : List ℕ) (left : List Recv)
    (s : S)
    → length text ≤ 510
    → until_zero text ≡ text
    → handle_client handle (suc fuel) (chunk (line_end text) ∷ left) [] s
      ≡ handle_client handle fuel left [] s
unfolding handle_client
handle_client-empty_line handle fuel text left s short z =
    ap (λ (x : Run Reading). x >>= after_read handle (handle_client handle fuel) s)
      (read_on (line_end text) left [] (omega arith) (until_zero-line_end text z) (omega arith)
        ∙ read_here left (line_end text) [] text refl (find_cr-cons b'\r' b'\n' text))
    ∙ rw empty_is_invalid (ap (λ (x : List ℕ). handle_client handle fuel left x s) parsed_nothing)
