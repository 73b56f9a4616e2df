-- ===== src/Db/Record.antt =====
-- db/src/libchidb/record.h and record.c: database records, built one field at a time, packed into raw
-- bytes and unpacked from them.
pub mod Raw
pub mod Create
pub mod Values
pub mod Append
pub mod Header
pub mod HeaderRead
pub mod Printed
pub mod RoundTrip
pub mod Spec
pub mod Bounds
pub mod HeaderTypes
pub mod Fields
use chi.Prelude.{
  ℕ, zero, suc, ◌+◌, ◌-◌, ◌*◌, ◌/◌, ◌%◌, ◌^◌, Bool, true, false, ltb, leb, ◌==◌, if◌then◌else◌,
  List, [], ◌∷◌, ◌++◌, length, tabulate,
}
use chi.Db.Memory.{Bytes, poke, move}
use chi.Db.Run.{Run, returns, undefined, out_of_fuel, ◌>>=◌}
use chi.Db.Util.{get2byte, put2byte, get4byte, put4byte, get_varint32, put_varint32}

-- `data` and the two arrays are what their pointers reach.
pub record DbRecord : Type 0 where
  pub contents : Bytes
  pub data_len : ℕ
  pub nfields : ℕ
  pub packed_len : ℕ
  pub types : ℕ → ℕ
  pub offsets : ℕ → ℕ

pub record DbRecordBuffer : Type 0 where
  pub dbr : DbRecord
  pub buf_size : ℕ
  pub field : ℕ
  pub offset : ℕ
  pub header_size : ℕ

-- The types that `chidb_DBRecord_getType` tells apart.
pub data SqlType : Type 0 where
  sql_notvalid sql_null sql_integer_1byte sql_integer_2byte sql_integer_4byte sql_text : SqlType

-- A value of a field. A number is the word that stands for it, with no sign.
pub data Value : Type 0 where
  int8 int16 int32 : ℕ → Value
  null : Value
  text : List ℕ → Value

abbrev pub set_entry : (ℕ → ℕ) → ℕ → ℕ → ℕ → ℕ
set_entry f i v j = if j == i then v else f j

-- The bytes of a string, and the zero that ends it.
abbrev pub chars : List ℕ → Bytes
chars [] i = 0
chars (c ∷ cs) zero = c
chars (c ∷ cs) (suc i) = chars cs i

-- What fresh memory holds is an argument. `malloc` is taken to succeed.
unfoldable pub create_empty : DbRecord → ℕ → DbRecordBuffer
create_empty fresh nfields = record {
  dbr = record fresh { nfields = nfields };
  buf_size = 1024;
  field = 0;
  offset = 0;
  header_size = 1;
}

-- The entry of a field in the two arrays, which have room for `nfields` entries.
abbrev pub set_field : ℕ → ℕ → DbRecordBuffer → Run DbRecordBuffer
set_field o t b =
    if ltb b.field b.dbr.nfields
    then returns (record b {
      dbr = record b.dbr {
        types = set_entry b.dbr.types b.field t;
        offsets = set_entry b.dbr.offsets b.field o;
      };
    })
    else undefined

abbrev pub grown_size : ℕ → DbRecordBuffer → ℕ
grown_size n b = if ltb b.buf_size (b.offset + n) then (b.buf_size + 1024) % 2 ^ 16 else b.buf_size

-- Room for `n` more bytes: the buffer grows once at most, and what does not fit then is stored outside
-- of it.
abbrev pub make_room : ℕ → DbRecordBuffer → Run DbRecordBuffer
make_room n b =
    if leb (b.offset + n) (grown_size n b)
    then returns (record b { buf_size = grown_size n b })
    else undefined

-- The end of an append: the bytes with `n` more of them, and `h` more in the header.
abbrev pub append_end : ℕ → ℕ → Bytes → DbRecordBuffer → DbRecordBuffer
append_end n h contents b = record b {
  dbr = record b.dbr { contents = contents };
  offset = b.offset + n;
  header_size = (b.header_size + h) % 2 ^ 8;
  field = (b.field + 1) % 2 ^ 8;
}

unfoldable pub append_int8 : DbRecordBuffer → ℕ → Run DbRecordBuffer
append_int8 dbrb v = set_field dbrb.offset 1 dbrb >>= λ b.
    make_room 1 b >>= λ c. returns (append_end 1 1 (poke c.dbr.contents c.offset v) c)

unfoldable pub append_int16 : DbRecordBuffer → ℕ → Run DbRecordBuffer
append_int16 dbrb v = set_field dbrb.offset 2 dbrb >>= λ b.
    make_room 2 b >>= λ c. returns (append_end 2 1 (put2byte c.dbr.contents c.offset v) c)

unfoldable pub append_int32 : DbRecordBuffer → ℕ → Run DbRecordBuffer
append_int32 dbrb v = set_field dbrb.offset 4 dbrb >>= λ b.
    make_room 4 b >>= λ c. returns (append_end 4 1 (put4byte c.dbr.contents c.offset v) c)

unfoldable pub append_null : DbRecordBuffer → Run DbRecordBuffer
append_null dbrb = set_field 0 0 dbrb >>= λ b. returns (append_end 0 1 b.dbr.contents b)

unfoldable pub append_string : DbRecordBuffer → List ℕ → Run DbRecordBuffer
append_string dbrb v = set_field dbrb.offset (length v * 2 + 13) dbrb >>= λ b.
    make_room (length v) b >>= λ c.
    returns (append_end (length v) 4 (move c.dbr.contents c.offset (chars v) (length v)) c)

unfoldable pub finalize : DbRecordBuffer → DbRecord
finalize dbrb = record dbrb.dbr {
  nfields = dbrb.field;
  data_len = dbrb.offset;
  packed_len = dbrb.header_size + dbrb.offset;
}

-- `types[field] - SQL_TEXT` is a difference of unsigned words.
abbrev pub from_text : ℕ → ℕ
from_text t = (t + (2 ^ 32 - 13)) % 2 ^ 32

abbrev pub type_of_code : ℕ → SqlType
type_of_code t =
    if t == 0
    then sql_null
    else if t == 1
    then sql_integer_1byte
    else if t == 2
    then sql_integer_2byte
    else if t == 4
    then sql_integer_4byte
    else if from_text t % 2 == 0
    then sql_text
    else sql_notvalid

unfoldable pub get_type : DbRecord → ℕ → SqlType
get_type dbr field = type_of_code (dbr.types field)

unfoldable pub get_int8 : DbRecord → ℕ → ℕ
get_int8 dbr field = dbr.contents (dbr.offsets field)

unfoldable pub get_int16 : DbRecord → ℕ → ℕ
get_int16 dbr field = get2byte dbr.contents (dbr.offsets field)

unfoldable pub get_int32 : DbRecord → ℕ → ℕ
get_int32 dbr field = get4byte dbr.contents (dbr.offsets field)

unfoldable pub get_string_length : DbRecord → ℕ → ℕ
get_string_length dbr field = from_text (dbr.types field) / 2

unfoldable pub get_string : DbRecord → ℕ → List ℕ
get_string dbr field =
    tabulate (get_string_length dbr field) (λ i. dbr.contents (dbr.offsets field + i))

-- A field as `chidb_DBRecord_print` prints it, which is not at all where its type is not valid. How a
-- number is spelled is not modelled.
abbrev pub print_field : DbRecord → ℕ → SqlType → List Value
print_field dbr i sql_null = null ∷ []
print_field dbr i sql_integer_1byte = int8 (get_int8 dbr i) ∷ []
print_field dbr i sql_integer_2byte = int16 (get_int16 dbr i) ∷ []
print_field dbr i sql_integer_4byte = int32 (get_int32 dbr i) ∷ []
print_field dbr i sql_text = text (get_string dbr i) ∷ []
print_field dbr i sql_notvalid = []

unfoldable pub print_from : ℕ → ℕ → DbRecord → List Value
print_from zero i dbr = []
print_from (suc rounds) i dbr = print_field dbr i (get_type dbr i) ++ print_from rounds (i + 1) dbr

unfoldable pub print : DbRecord → List Value
print dbr = print_from dbr.nfields 0 dbr
