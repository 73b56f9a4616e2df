-- ===== src/Irc/Message/Parse.antt =====
-- What `parse_message` finds in a message that is written out.
use chi.Prelude.{
  ℕ, zero, suc, ◌≤◌, ◌≡◌, refl, ◌∙◌, ap, false, Option, none, some, List, [], ◌∷◌, ◌++◌, length,
  drop, take-all, arith,
}
use chi.Irc.Message.{
  Message, strtok, starts_colon, parse_args, parse_command, parse_prefix, parse_message,
}
use chi.Irc.Message.Tokens.{
  NoSpace, NotEmpty, IsGap, EndsWell, strtok-gap, strtok-nothing, strtok-colon, trailing_lem,
}

-- A word with no space that does not start with a colon.
abbrev pub IsParam : List ℕ → Type 0
IsParam p = NotEmpty p × NoSpace p × (starts_colon p ≡ false)

abbrev pub AllParams : List (List ℕ) → Type 0
AllParams [] = Unit
AllParams (p ∷ ps) = IsParam p × AllParams ps

abbrev pub EndIsGood : Option (List ℕ) → Type 0
EndIsGood none = Unit
EndIsGood (some t) = EndsWell t

abbrev pub PrefixIsGood : Option (List ℕ) → Type 0
PrefixIsGood none = Unit
PrefixIsGood (some p) = NoSpace p

-- Each parameter behind a space, and the last one, which may have spaces, behind a colon.
abbrev pub write_args : List (List ℕ) → Option (List ℕ) → List ℕ
write_args [] none = []
write_args [] (some t) = b' ' ∷ b':' ∷ t
write_args (p ∷ ps) t = b' ' ∷ (p ++ write_args ps t)

abbrev pub write_message : Option (List ℕ) → List ℕ → List (List ℕ) → Option (List ℕ) → List ℕ
write_message none cmd ps t = cmd ++ write_args ps t
write_message (some prefix) cmd ps t = (b':' ∷ prefix) ++ (b' ' ∷ (cmd ++ write_args ps t))

abbrev pub all_args : List (List ℕ) → Option (List ℕ) → List (List ℕ)
all_args [] none = []
all_args [] (some t) = t ∷ []
all_args (p ∷ ps) t = p ∷ all_args ps t

write_args-IsGap : (ps : List (List ℕ)) (t : Option (List ℕ)) → IsGap (write_args ps t)
write_args-IsGap [] none = tt
write_args-IsGap [] (some t) = refl
write_args-IsGap (p ∷ ps) t = refl

parse_args_lem :
    (ps : List (List ℕ)) (t : Option (List ℕ)) (n : ℕ)
    → AllParams ps
    → EndIsGood t
    → length (all_args ps t) ≤ n
    → parse_args n (strtok (drop 1 (write_args ps t))) ≡ all_args ps t
unfolding parse_args
parse_args_lem [] none zero a e le = refl
parse_args_lem [] none (suc n) a e le = ap (parse_args (suc n)) strtok-nothing
parse_args_lem [] (some t) zero a e le = absurd (omega arith)
parse_args_lem [] (some t) (suc n) a e le =
    ap (parse_args (suc n)) (strtok-colon t) ∙ ap (λ (x : List ℕ). x ∷ []) (trailing_lem b':' t e)
parse_args_lem (p ∷ ps) t zero a e le = absurd (omega arith)
parse_args_lem (p ∷ ps) t (suc n) (g, a) e le =
    ap (parse_args (suc n)) (strtok-gap p (write_args ps t) g.0 g.1 (write_args-IsGap ps t))
    ∙ rw (g.2) (ap (λ (x : List (List ℕ)). p ∷ x) (parse_args_lem ps t n a e (omega arith)))

parse_command_lem :
    (cmd : List ℕ) (ps : List (List ℕ)) (t : Option (List ℕ)) (msg : Message)
    → NotEmpty cmd
    → NoSpace cmd
    → AllParams ps
    → EndIsGood t
    → length (all_args ps t) ≤ 15
    → parse_command (strtok (cmd ++ write_args ps t)) msg
      ≡ record msg { cmd = some cmd; args = all_args ps t }
parse_command_lem cmd ps t msg ne ns a e le =
    ap (λ (x : Option (List ℕ × List ℕ)). parse_command x msg)
      (strtok-gap cmd (write_args ps t) ne ns (write_args-IsGap ps t))
    ∙ ap (λ (x : List (List ℕ)). record msg { cmd = some cmd; args = x })
        (parse_args_lem ps t 15 a e le)

-- A message that is written with a command, at most 15 parameters and at most 512 characters is taken
-- apart into its prefix, command and parameters. The command and all parameters but the last are words
-- that do not start with a colon; the last one may have spaces, but not at its end.
pub parse_message-write_message :
    (prefix : Option (List ℕ)) (cmd : List ℕ) (ps : List (List ℕ)) (t : Option (List ℕ))
    → PrefixIsGood prefix
    → IsParam cmd
    → AllParams ps
    → EndIsGood t
    → length (all_args ps t) ≤ 15
    → length (write_message prefix cmd ps t) ≤ 512
    → parse_message
        (write_message prefix cmd ps t)
        (record { prefix = none; cmd = none; args = [] })
      ≡ record { prefix = prefix; cmd = some cmd; args = all_args ps t }
unfolding parse_message
parse_message-write_message none cmd ps t pg (ne, ns, colon) a e le short =
    let fresh : Message = record { prefix = none; cmd = none; args = [] } in
    ap (λ (s : List ℕ). parse_prefix (strtok s) fresh) (take-all 512 (cmd ++ write_args ps t) short)
    ∙ ap (λ (x : Option (List ℕ × List ℕ)). parse_prefix x fresh)
        (strtok-gap cmd (write_args ps t) ne ns (write_args-IsGap ps t))
    ∙ rw colon (
        ap (λ (x : List (List ℕ)). record fresh { cmd = some cmd; args = x })
          (parse_args_lem ps t 15 a e le))
parse_message-write_message (some prefix) cmd ps t pg (ne, ns, colon) a e le short =
    let fresh : Message = record { prefix = none; cmd = none; args = [] } in
    ap (λ (s : List ℕ). parse_prefix (strtok s) fresh)
      (take-all 512 (write_message (some prefix) cmd ps t) short)
    ∙ ap (λ (x : Option (List ℕ × List ℕ)). parse_prefix x fresh)
        (strtok-gap (b':' ∷ prefix) (b' ' ∷ (cmd ++ write_args ps t)) tt
          ((λ z. absurd (omega arith)), pg) refl)
    ∙ parse_command_lem cmd ps t (record fresh { prefix = some prefix }) ne ns a e le
