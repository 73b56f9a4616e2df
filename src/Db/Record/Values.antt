-- ===== src/Db/Record/Values.antt =====
-- What a list of values takes in a record of record.c, in the order of its fields.
use chi.Prelude.{ℕ, suc, ◌+◌, ◌*◌, ◌^◌, ◌≤◌, ◌<◌, ◌≡◌, List, [], ◌∷◌, length}
use chi.Db.Memory.{Bytes}
use chi.Db.Run.{Run, returns, ◌>>=◌}
use chi.Db.Util.{get2byte, get4byte}
use chi.Db.Record.{
  Value, int8, int16, int32, null, text, DbRecord, DbRecordBuffer, chars, append_int8, append_int16,
  append_int32, append_null, append_string,
}

abbrev pub append : Value → DbRecordBuffer → Run DbRecordBuffer
append (int8 v) b = append_int8 b v
append (int16 v) b = append_int16 b v
append (int32 v) b = append_int32 b v
append null b = append_null b
append (text s) b = append_string b s

abbrev pub append_all : List Value → DbRecordBuffer → Run DbRecordBuffer
append_all [] b = returns b
append_all (v ∷ vs) b = append v b >>= λ c. append_all vs c

abbrev pub type_code : Value → ℕ
type_code (int8 v) = 1
type_code (int16 v) = 2
type_code (int32 v) = 4
type_code null = 0
type_code (text s) = length s * 2 + 13

abbrev pub width : Value → ℕ
width (int8 v) = 1
width (int16 v) = 2
width (int32 v) = 4
width null = 0
width (text s) = length s

abbrev pub header_width_of : Value → ℕ
header_width_of (text s) = 4
header_width_of _ = 1

abbrev pub widths : List Value → ℕ
widths [] = 0
widths (v ∷ vs) = width v + widths vs

abbrev pub header_widths : List Value → ℕ
header_widths [] = 0
header_widths (v ∷ vs) = header_width_of v + header_widths vs

-- A number is below the bound of its width, and a string has 1,024 bytes at most.
abbrev pub InRange : Value → Type 0
InRange (int8 v) = v < 2 ^ 8
InRange (int16 v) = v < 2 ^ 16
InRange (int32 v) = v < 2 ^ 32
InRange null = Unit
InRange (text s) = length s ≤ 1024

abbrev pub AllInRange : List Value → Type 0
AllInRange [] = Unit
AllInRange (v ∷ vs) = InRange v × AllInRange vs

-- The header fits in the byte that counts it, and the values in the buffer at its largest.
abbrev pub Fits : List Value → Type 0
Fits vs = AllInRange vs × (header_widths vs ≤ 254) × (widths vs ≤ 64512)

-- The bytes of a value.
abbrev pub Stored : Value → Bytes → ℕ → Type 0
Stored (int8 v) p o = p o ≡ v
Stored (int16 v) p o = get2byte p o ≡ v
Stored (int32 v) p o = get4byte p o ≡ v
Stored null p o = Unit
Stored (text s) p o = (i : ℕ) → i < length s → p (o + i) ≡ chars s i

-- The offset of a null value is not looked at.
abbrev pub At : Value → ℕ → ℕ → Type 0
At null a o = Unit
At (int8 v) a o = a ≡ o
At (int16 v) a o = a ≡ o
At (int32 v) a o = a ≡ o
At (text s) a o = a ≡ o

-- The types, the offsets and the bytes of the fields from `k` on, of values that follow each other from
-- `o` on.
abbrev pub Typed : List Value → ℕ → (ℕ → ℕ) → Type 0
Typed [] k types = Unit
Typed (v ∷ vs) k types = (types k ≡ type_code v) × Typed vs (suc k) types

abbrev pub Placed : List Value → ℕ → ℕ → (ℕ → ℕ) → Type 0
Placed [] k o offsets = Unit
Placed (v ∷ vs) k o offsets = At v (offsets k) o × Placed vs (suc k) (o + width v) offsets

abbrev pub AllStored : List Value → Bytes → ℕ → Type 0
AllStored [] p o = Unit
AllStored (v ∷ vs) p o = Stored v p o × AllStored vs p (o + width v)

abbrev pub Holds : List Value → ℕ → ℕ → DbRecord → Type 0
Holds vs k o dbr = Typed vs k dbr.types × Placed vs k o dbr.offsets × AllStored vs dbr.contents o
