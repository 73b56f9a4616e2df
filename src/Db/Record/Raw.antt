-- ===== src/Db/Record/Raw.antt =====
-- record.c: a record as raw bytes, which are a header of types and the values.
use Prim.Native.Nat.{bit_and}
use chi.Prelude.{
  ℕ, zero, suc, ◌+◌, ◌-◌, ◌%◌, ◌^◌, Bool, true, false, not, ◌&&◌, ltb, leb, ◌==◌, if◌then◌else◌,
}
use chi.Db.Memory.{Bytes, poke, move}
use chi.Db.Run.{Run, returns, undefined, out_of_fuel, ◌>>=◌}
use chi.Db.Util.{get_varint32, put_varint32}
use chi.Db.Record.{
  DbRecord, SqlType, sql_notvalid, sql_null, sql_integer_1byte, sql_integer_2byte,
  sql_integer_4byte, sql_text, set_entry, get_type, get_string_length,
}

abbrev pub is_varint : Bytes → ℕ → Bool
is_varint raw header_pos = not (bit_and (raw header_pos) 0x80 == 0)

abbrev pub raw_type : Bytes → ℕ → ℕ
raw_type raw header_pos =
    if is_varint raw header_pos then get_varint32 raw header_pos else raw header_pos

abbrev pub raw_width : Bytes → ℕ → ℕ
raw_width raw header_pos = if is_varint raw header_pos then 4 else 1

-- `raw` has `size` bytes. `header_pos` and `nfields` are bytes, and `types` has 255 entries until it is
-- known how many there are.
unfoldable pub unpack_header : ℕ → Bytes → ℕ → ℕ → ℕ → ℕ → (ℕ → ℕ) → Run (ℕ × (ℕ → ℕ))
unpack_header zero raw size header_size header_pos nfields types = out_of_fuel
unpack_header (suc fuel) raw size header_size header_pos nfields types =
    let width = raw_width raw header_pos in
    let rest =
      unpack_header fuel raw size header_size ((header_pos + width) % 2 ^ 8) ((nfields + 1) % 2 ^ 8)
        (set_entry types nfields (raw_type raw header_pos)) in
    if ltb header_pos header_size
    then if ltb nfields 0xff && leb (header_pos + width) size then rest else undefined
    else returns (nfields, types)

abbrev pub size_of_type : SqlType → ℕ → ℕ
size_of_type sql_null len = 0
size_of_type sql_integer_1byte len = 1
size_of_type sql_integer_2byte len = 2
size_of_type sql_integer_4byte len = 4
size_of_type sql_text len = len
size_of_type sql_notvalid len = 0

-- The offsets of the fields from `i` on, and the first offset behind them.
unfoldable pub unpack_offsets : ℕ → ℕ → ℕ → DbRecord → ℕ × DbRecord
unpack_offsets zero i offset dbr = (offset, dbr)
unpack_offsets (suc rounds) i offset dbr =
    unpack_offsets rounds (i + 1)
      ((offset + size_of_type (get_type dbr i) (get_string_length dbr i)) % 2 ^ 32)
      (record dbr { offsets = set_entry dbr.offsets i offset })

abbrev pub unpack_data : Bytes → Bytes → ℕ → ℕ × DbRecord → Run DbRecord
unpack_data fresh raw size (offset, dbr) =
    if leb (raw 0 + offset) size
    then returns (record dbr {
      data_len = offset;
      packed_len = (raw 0 + offset) % 2 ^ 32;
      contents = move fresh 0 (λ i. raw (raw 0 + i)) offset;
    })
    else undefined

abbrev pub unpack_fields : DbRecord → Bytes → ℕ → ℕ × (ℕ → ℕ) → Run DbRecord
unpack_fields fresh raw size (nfields, types) =
    unpack_data fresh.contents raw size
      (unpack_offsets nfields 0 0 (record fresh { nfields = nfields; types = types }))

-- Of `size` bytes. The loop on the header takes 255 rounds at most, since it has stored outside of
-- `types` by then.
unfoldable pub unpack : DbRecord → Bytes → ℕ → Run DbRecord
unpack fresh raw size =
    if ltb 0 size
    then (unpack_header 256 raw size (raw 0) 1 0 fresh.types >>= λ header.
        unpack_fields fresh raw size header)
    else undefined

abbrev pub is_text : SqlType → Bool
is_text sql_text = true
is_text _ = false

-- The types of the fields from `i` on. What does not fit in the `packed_len` bytes is stored outside.
unfoldable pub pack_header : ℕ → ℕ → DbRecord → ℕ → Bytes → Run Bytes
pack_header zero i dbr header_pos p = returns p
pack_header (suc rounds) i dbr header_pos p =
    let long =
      pack_header rounds (i + 1) dbr ((header_pos + 4) % 2 ^ 8)
        (put_varint32 p header_pos (dbr.types i)) in
    let short =
      pack_header rounds (i + 1) dbr ((header_pos + 1) % 2 ^ 8) (poke p header_pos (dbr.types i)) in
    if is_text (get_type dbr i)
    then if leb (header_pos + 4) dbr.packed_len then long else undefined
    else if leb (header_pos + 1) dbr.packed_len
    then short
    else undefined

abbrev pub pack_data : DbRecord → Bytes → Run Bytes
pack_data dbr p =
    if leb (p 0 + dbr.data_len) dbr.packed_len
    then returns (move p (p 0) dbr.contents dbr.data_len)
    else undefined

unfoldable pub pack : Bytes → DbRecord → Run Bytes
pack fresh dbr =
    if ltb 0 dbr.packed_len
    then (pack_header dbr.nfields 0 dbr 1
          (poke fresh 0 ((dbr.packed_len + (2 ^ 32 - dbr.data_len)) % 2 ^ 32))
        >>= λ p. pack_data dbr p)
    else undefined
