-- ===== src/Irc/Client.antt =====
-- irc/src/server.c: the loop of `handle_client`, which reads a client's messages and handles them.
pub mod Reads
pub mod Framing
use chi.Prelude.{ℕ, zero, suc, if◌then◌else◌, none, List, [], take}
use chi.Db.Run.{Run, returns, out_of_fuel, ◌>>=◌}
use chi.Irc.Message.{
  Message, Recv, Reading, full, ended, waits, parse_message, is_valid, parsed_buffer,
  read_full_message,
}

abbrev pub no_message : Message
no_message = record { prefix = none; cmd = none; args = [] }

-- `handle` is what is done with a valid message. A thread that ends, or waits, leaves the state as it
-- is. Where a message is not valid, what is left of it stays in the buffer, and the text behind it is
-- not moved there.
module _ {ℓ} {S : Type ℓ} (handle : Message → S → Run S) where
  abbrev pub after_read : (List Recv → List ℕ → S → Run S) → S → Reading → Run S
  after_read next_round s (full message next left) =
      let msg = parse_message message no_message in
      let valid = handle msg s >>= λ t. next_round left next t in
      let invalid = next_round left (parsed_buffer (take 512 message)) s in
      if is_valid msg then valid else invalid
  after_read next_round s ended = returns s
  after_read next_round s (waits message) = returns s

  unfoldable pub handle_client : ℕ → List Recv → List ℕ → S → Run S
  handle_client zero left in_buffer s = out_of_fuel
  handle_client (suc fuel) left in_buffer s =
      read_full_message left in_buffer >>= after_read (handle_client fuel) s
