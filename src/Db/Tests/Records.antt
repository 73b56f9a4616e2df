-- ===== src/Db/Tests/Records.antt =====
-- A record of four fields, made, packed and unpacked, and the theorems on records at it.
use chi.Prelude.{ℕ, zero, suc, ◌+◌, ◌≤◌, ◌<◌, ◌≡◌, refl, ◌⊎◌, List, [], ◌∷◌, arith}
use chi.Db.Memory.{Bytes, IsByte, zeros}
use chi.Db.Run.{returns, undefined, ◌>>=◌}
use chi.Db.Record.{
  Value, int8, int32, null, text, DbRecord, DbRecordBuffer, chars, create_empty, append_string,
  finalize, print,
}
use chi.Db.Record.Raw.{unpack, pack}
use chi.Db.Record.Create.{create}
use chi.Db.Record.Values.{append_all}
use chi.Db.Record.RoundTrip.{pack-unpack}
use chi.Db.Record.Spec.{specifiers, args_of, create_lem}
use chi.Db.Record.Bounds.{append_string_lem}
use chi.Db.Record.HeaderTypes.{HeaderOf}
use chi.Db.Record.Fields.{Unpacks, unpack_lem}

-- The memory before it is written.
abbrev fresh : DbRecord
fresh = record {
  contents = λ i. 170;
  data_len = 7;
  nfields = 7;
  packed_len = 7;
  types = λ i. 170;
  offsets = λ i. 170;
}

abbrev foo : List ℕ
foo = 102 ∷ 111 ∷ 111 ∷ []

abbrev values : List Value
values = int8 42 ∷ text foo ∷ null ∷ int32 100000 ∷ []

pack-unpack_example :
    (b : DbRecordBuffer) × (append_all values (create_empty fresh 4) ≡ returns b)
    × (print (finalize b) ≡ values)
    × (raw : Bytes) × (pack zeros (finalize b) ≡ returns raw)
    × (r : DbRecord) × (unpack fresh raw (finalize b).packed_len ≡ returns r)
    × (print r ≡ values)
pack-unpack_example =
    pack-unpack values fresh fresh zeros
      ((omega arith, (omega arith, (tt, (omega arith, tt)))), omega arith, omega arith)

create_example :
    create fresh (124 ∷ specifiers values) (args_of values)
    ≡ (append_all values (create_empty fresh 4) >>= λ b. returns (finalize b))
create_example =
    create_lem values fresh (omega arith, (omega arith, (tt, (omega arith, tt)))) (omega arith)

append_string_example :
    ((2048 < 3) × (append_string (create_empty fresh 4) foo ≡ undefined))
    ⊎ ((3 ≤ 2048)
        × (c : DbRecordBuffer) × (append_string (create_empty fresh 4) foo ≡ returns c)
        × (c.offset ≡ 3)
        × (c.offset ≤ c.buf_size)
        × ((i : ℕ) → i < 3 → c.dbr.contents (0 + i) ≡ chars foo i))
unfolding create_empty
append_string_example =
    append_string_lem 4 (create_empty fresh 4) foo (refl, omega arith, omega arith, omega arith)
      (omega arith) (omega arith)

-- A header of three bytes for two fields, and the value 9.
abbrev raw_bytes : Bytes
raw_bytes = chars (3 ∷ 0 ∷ 1 ∷ 9 ∷ [])

raw_IsByte : (i : ℕ) → IsByte (raw_bytes i)
raw_IsByte zero = omega arith
raw_IsByte (suc zero) = omega arith
raw_IsByte (suc (suc zero)) = omega arith
raw_IsByte (suc (suc (suc zero))) = omega arith
raw_IsByte (suc (suc (suc (suc i)))) = omega arith

unpack_lem_example :
    (ts : List ℕ) × (stop : ℕ) × HeaderOf raw_bytes 3 1 ts stop × Unpacks ts stop fresh raw_bytes 4
unpack_lem_example = unpack_lem fresh raw_bytes 4 raw_IsByte (omega arith)
