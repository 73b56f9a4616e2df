-- ===== src/Db/Record/Create.antt =====
-- record.c: `chidb_DBRecord_create`, a record from a specification and its values.
use chi.Prelude.{ℕ, suc, ◌+◌, ◌-◌, ◌%◌, ◌^◌, Bool, true, false, ◌==◌, if◌then◌else◌, List, [], ◌∷◌}
use chi.Db.Run.{Run, returns, undefined, ◌>>=◌}
use chi.Db.Record.{
  DbRecord, DbRecordBuffer, create_empty, append_int8, append_int16, append_int32, append_null,
  append_string, finalize,
}

-- A variable argument.
pub data Arg : Type 0 where
  number : ℕ → Arg
  string : List ℕ → Arg

unfoldable pub count_char : ℕ → List ℕ → ℕ
count_char c [] = 0
count_char c (d ∷ ds) = if d == c then suc (count_char c ds) else count_char c ds

-- `va_arg` of a type that the argument does not have, or behind the last one, is undefined.
abbrev pub with_number : List Arg → (ℕ → Run DbRecordBuffer) → Run (List Arg × DbRecordBuffer)
with_number (number v ∷ args) f = f v >>= λ b. returns (args, b)
with_number (string s ∷ args) f = undefined
with_number [] f = undefined

abbrev pub with_char_ptr :
    List Arg → (List ℕ → Run DbRecordBuffer) → Run (List Arg × DbRecordBuffer)
with_char_ptr (string s ∷ args) f = f s >>= λ b. returns (args, b)
with_char_ptr (number v ∷ args) f = undefined
with_char_ptr [] f = undefined

-- The characters `1`, `2` and `4` behind an `i`.
unfoldable pub create_int : ℕ → List Arg → DbRecordBuffer → Run (List Arg × DbRecordBuffer)
create_int intsize args dbrb =
    if intsize == 49
    then with_number args (λ v. append_int8 dbrb (v % 2 ^ 8))
    else if intsize == 50
    then with_number args (λ v. append_int16 dbrb (v % 2 ^ 16))
    else if intsize == 52
    then with_number args (λ v. append_int32 dbrb (v % 2 ^ 32))
    else returns (args, dbrb)

-- The characters `0` and `s`; any other is passed over.
unfoldable pub create_other : ℕ → List Arg → DbRecordBuffer → Run (List Arg × DbRecordBuffer)
create_other aux args dbrb =
    if aux == 48
    then (append_null dbrb >>= λ b. returns (args, b))
    else if aux == 115
    then with_char_ptr args (λ s. append_string dbrb s)
    else returns (args, dbrb)

-- The loop on the characters of the specification, which is `true` behind an `i`. There it goes on
-- past the end of the string.
unfoldable pub create_from : List ℕ → Bool → List Arg → DbRecordBuffer → Run DbRecordBuffer
create_from [] false args dbrb = returns dbrb
create_from [] true args dbrb = undefined
create_from (aux ∷ spec) true args dbrb =
    create_int aux args dbrb >>= λ (left, b). create_from spec false left b
create_from (aux ∷ spec) false args dbrb =
    if aux == 105
    then create_from spec true args dbrb
    else (create_other aux args dbrb >>= λ (left, b). create_from spec false left b)

-- There is one field less than there are bars, in a byte.
unfoldable pub create : DbRecord → List ℕ → List Arg → Run DbRecord
create fresh spec args =
    create_from spec false args
      (create_empty fresh ((count_char 124 spec % 2 ^ 8 + (2 ^ 8 - 1)) % 2 ^ 8))
    >>= λ b. returns (finalize b)
