-- ===== src/Irc/Tests/Messages.antt =====
-- Messages that are parsed, and lines that come in chunks, with the theorems on them.
use chi.Prelude.{ℕ, suc, ◌≡◌, refl, true, Option, none, some, List, [], ◌∷◌, ◌++◌, codes, arith}
use chi.Db.Run.{Run, returns}
use chi.Irc.Message.{
  Message, Recv, chunk, closed, skip_spaces, word, after_word, strtok, parse_args, parse_message,
  is_valid, find_cr, until_zero,
}
use chi.Irc.Message.Parse.{write_message, all_args, parse_message-write_message}
use chi.Irc.Message.Lines.{split_line, line_end, Found, find_cr_lem}
use chi.Irc.Client.{no_message, handle_client}
use chi.Irc.Client.Framing.{handle_lines, handle_client_lem, handle_client-empty_line}

-- `:ann PRIVMSG bob :hi there`
parse_message-write_message_example :
    parse_message
      (write_message
        (some (codes "ann"))
        (codes "PRIVMSG")
        (codes "bob" ∷ [])
        (some (codes "hi there")))
      (record { prefix = none; cmd = none; args = [] })
    ≡ record {
      prefix = some (codes "ann");
      cmd = some (codes "PRIVMSG");
      args = all_args (codes "bob" ∷ []) (some (codes "hi there"));
    }
parse_message-write_message_example =
    parse_message-write_message (some (codes "ann")) (codes "PRIVMSG") (codes "bob" ∷ [])
      (some (codes "hi there")) (ground arith) (tt, ground arith, refl)
      ((tt, ground arith, refl), tt) (λ z. absurd (omega arith)) (omega arith) (omega arith)

find_cr_lem_example : Found (codes "PING\r\nP")
find_cr_lem_example = find_cr_lem (codes "PING\r\nP")

-- The commands that are handled.
abbrev log : Message → List (Option (List ℕ)) → Run (List (Option (List ℕ)))
log msg cmds = returns (cmds ++ (msg.cmd ∷ []))

abbrev chunks : List Recv
chunks = chunk (codes "PI") ∷ chunk (codes "NG\r") ∷ chunk (codes "\nMOTD\r\nPO") ∷ closed ∷ []

handled :
    handle_client log 3 chunks [] [] ≡ returns (some (codes "PING") ∷ some (codes "MOTD") ∷ [])
unfolding handle_client chi.Irc.Message.read_full_message find_cr chi.Irc.Message.find_cr_from
    until_zero parse_message strtok skip_spaces word after_word parse_args is_valid
handled = refl

ping_is_valid :
    (is_valid (parse_message (codes "PING") no_message) ≡ true)
    × (is_valid (parse_message (codes "MOTD") no_message) ≡ true)
unfolding is_valid parse_message strtok skip_spaces word after_word
ping_is_valid = (refl, refl)

handle_client_lem_example :
    handle_client log 3 chunks [] [] ≡ handle_lines log (codes "PING" ∷ codes "MOTD" ∷ []) []
unfolding split_line until_zero
handle_client_lem_example =
    handle_client_lem log (codes "PING" ∷ codes "MOTD" ∷ []) (codes "PO") 3 chunks []
      (omega arith, refl, (omega arith, refl, (omega arith, refl, tt)))
      (refl, omega arith, ping_is_valid.0, (refl, omega arith, ping_is_valid.1, tt)) refl
      (omega arith) refl (omega arith)

handle_client-empty_line_example :
    handle_client log (suc 2) (chunk (line_end (codes "PING\r\n")) ∷ closed ∷ []) [] []
    ≡ handle_client log 2 (closed ∷ []) [] []
unfolding until_zero
handle_client-empty_line_example =
    handle_client-empty_line log 2 (codes "PING\r\n") (closed ∷ []) [] (omega arith) refl
