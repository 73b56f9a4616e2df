-- ===== src/Db/Record/Header.antt =====
-- The header of a raw record of record.c, as it is packed.
use chi.Prelude.{
  ℕ, suc, ◌+◌, ◌-◌, ◌*◌, ◌%◌, ◌^◌, ◌≤◌, ◌<◌, ◌≡◌, refl, ◌∙◌, ap, List, [], ◌∷◌, length, false,
  le→leb, arith, eq→==, ne→==, subst,
}
use chi.Db.Memory.{Bytes, poke, IsByte}
use chi.Db.Run.{returns}
use chi.Db.Util.{get_varint32, put_varint32}
use chi.Db.Util.Varint.{
  get_varint32-put_varint32, put_varint32-Agree, put_varint32-top_bit, put_varint32-IsByte,
  get_varint32-Agree,
}
use chi.Db.Record.{
  Value, int8, int16, int32, null, text, DbRecord, SqlType, sql_null, sql_integer_1byte,
  sql_integer_2byte, sql_integer_4byte, sql_text, type_of_code, get_type,
}
use chi.Db.Record.Raw.{is_text, pack_header}
use chi.Db.Record.Values.{type_code, header_width_of, header_widths, InRange, AllInRange, Typed}

abbrev pub sql_type_of : Value → SqlType
sql_type_of (int8 v) = sql_integer_1byte
sql_type_of (int16 v) = sql_integer_2byte
sql_type_of (int32 v) = sql_integer_4byte
sql_type_of null = sql_null
sql_type_of (text s) = sql_text

pub type_of_code-type_code : (v : Value) → InRange v → type_of_code (type_code v) ≡ sql_type_of v
type_of_code-type_code (int8 v) r = refl
type_of_code-type_code (int16 v) r = refl
type_of_code-type_code (int32 v) r = refl
type_of_code-type_code null r = refl
type_of_code-type_code (text s) r =
    let t = length s * 2 + 13 in
    rw
      (
        ne→== t 0 (λ e. omega arith),
        ne→== t 1 (λ e. omega arith),
        ne→== t 2 (λ e. omega arith),
        ne→== t 4 (λ e. omega arith),
        eq→== ((t + (2 ^ 32 - 13)) % 2 ^ 32 % 2) 0 (omega arith),
      )
      refl

-- The type of a value in the header.
abbrev pub Coded : Value → Bytes → ℕ → Type 0
Coded (text s) p pos = (128 ≤ p pos) × IsByte (p pos) × (get_varint32 p pos ≡ length s * 2 + 13)
Coded (int8 v) p pos = p pos ≡ 1
Coded (int16 v) p pos = p pos ≡ 2
Coded (int32 v) p pos = p pos ≡ 4
Coded null p pos = p pos ≡ 0

abbrev pub HeaderAt : List Value → Bytes → ℕ → Type 0
HeaderAt [] p pos = Unit
HeaderAt (v ∷ vs) p pos = Coded v p pos × HeaderAt vs p (pos + header_width_of v)

Coded-Agree :
    (v : Value) (p q : Bytes) (pos : ℕ)
    → ((i : ℕ) → i < pos + header_width_of v → q i ≡ p i)
    → Coded v p pos
    → Coded v q pos
Coded-Agree (text s) p q pos h (top, byte, c) = (
  omega (arith, h pos (omega arith)),
  omega (arith, h pos (omega arith)),
  get_varint32-Agree q p pos (λ i lo hi. h i hi) ∙ c,
)
Coded-Agree (int8 v) p q pos h c = h pos (omega arith) ∙ c
Coded-Agree (int16 v) p q pos h c = h pos (omega arith) ∙ c
Coded-Agree (int32 v) p q pos h c = h pos (omega arith) ∙ c
Coded-Agree null p q pos h c = h pos (omega arith) ∙ c

pub HeaderAt-Agree :
    (vs : List Value) (p q : Bytes) (pos : ℕ)
    → ((i : ℕ) → i < pos + header_widths vs → q i ≡ p i)
    → HeaderAt vs p pos
    → HeaderAt vs q pos
HeaderAt-Agree [] p q pos h at = tt
HeaderAt-Agree (v ∷ vs) p q pos h (c, at) = (
  Coded-Agree v p q pos (λ i lt. h i (omega arith)) c,
  HeaderAt-Agree vs p q (pos + header_width_of v) (λ i lt. h i (omega arith)) at,
)

pub header_width_of_pos : (v : Value) → (1 ≤ header_width_of v) × (header_width_of v ≤ 4)
header_width_of_pos (int8 v) = (omega arith, omega arith)
header_width_of_pos (int16 v) = (omega arith, omega arith)
header_width_of_pos (int32 v) = (omega arith, omega arith)
header_width_of_pos null = (omega arith, omega arith)
header_width_of_pos (text s) = (omega arith, omega arith)

-- One entry that is packed, then the others.
abbrev Packed : List Value → ℕ → DbRecord → ℕ → Bytes → Type 0
Packed vs k dbr pos p =
    (q : Bytes) × (pack_header (length vs) k dbr pos p ≡ returns q)
    × ((i : ℕ) → i < pos → q i ≡ p i)
    × HeaderAt vs q pos

pack_one :
    (v : Value) (vs : List Value) (k : ℕ) (dbr : DbRecord) (pos : ℕ) (p q : Bytes)
    → (pack_header (suc (length vs)) k dbr pos p
        ≡ pack_header (length vs) (k + 1) dbr ((pos + header_width_of v) % 2 ^ 8) q)
    → pos + header_width_of v < 256
    → ((i : ℕ) → i < pos → q i ≡ p i)
    → Coded v q pos
    → Packed vs (k + 1) dbr (pos + header_width_of v) q
    → Packed (v ∷ vs) k dbr pos p
pack_one v vs k dbr pos p q run lt agree c (r, run', agree', at) =
    let e : (pos + header_width_of v) % 2 ^ 8 ≡ pos + header_width_of v = omega arith in
    (
      r,
      run ∙ (ap (λ (x : ℕ). pack_header (length vs) (k + 1) dbr x q) e ∙ run'),
      (λ i lt. agree' i (omega arith) ∙ agree i lt),
      (Coded-Agree v q r pos agree' c, at),
    )

pub get_type-Typed :
    (v : Value) (k : ℕ) (dbr : DbRecord)
    → InRange v
    → dbr.types k ≡ type_code v
    → get_type dbr k ≡ sql_type_of v
unfolding get_type
get_type-Typed v k dbr r t = ap type_of_code t ∙ type_of_code-type_code v r

-- The first entry of a header that is packed.
abbrev Entered : Value → ℕ → ℕ → DbRecord → ℕ → Bytes → Type 0
Entered v n k dbr pos p =
    (q : Bytes) × (pack_header (suc n) k dbr pos p
      ≡ pack_header n (k + 1) dbr ((pos + header_width_of v) % 2 ^ 8) q)
    × ((i : ℕ) → i < pos → q i ≡ p i)
    × Coded v q pos

poke_here : (p : Bytes) (pos t : ℕ) → t < 256 → poke p pos t pos ≡ t
poke_here p pos t h = ground arith

poke_short :
    (n k : ℕ) (dbr : DbRecord) (pos t : ℕ) (p : Bytes)
    → is_text (get_type dbr k) ≡ false
    → pos + 1 ≤ dbr.packed_len
    → dbr.types k ≡ t
    → pack_header (suc n) k dbr pos p ≡ pack_header n (k + 1) dbr ((pos + 1) % 2 ^ 8) (poke p pos t)
unfolding pack_header
poke_short n k dbr pos t p f le e = rw (f, le→leb _ _ le, e) refl

enter :
    (v : Value) (n k : ℕ) (dbr : DbRecord) (pos : ℕ) (p : Bytes)
    → InRange v
    → dbr.types k ≡ type_code v
    → pos + header_width_of v ≤ dbr.packed_len
    → Entered v n k dbr pos p
unfolding pack_header
enter (text s) n k dbr pos p r t le = (
  put_varint32 p pos (length s * 2 + 13),
  rw (ap is_text (get_type-Typed (text s) k dbr r t), le→leb _ _ le, t) refl,
  (λ i lt. put_varint32-Agree p pos (length s * 2 + 13) i (omega arith)),
  (
    put_varint32-top_bit p pos (length s * 2 + 13),
    put_varint32-IsByte p pos (length s * 2 + 13),
    omega (arith, get_varint32-put_varint32 p pos (length s * 2 + 13)),
  ),
)
enter (int8 v) n k dbr pos p r t le = (
  poke p pos 1,
  poke_short n k dbr pos 1 p (ap is_text (get_type-Typed (int8 v) k dbr r t)) le t,
  (λ i lt. ground arith),
  poke_here p pos 1 (omega arith),
)
enter (int16 v) n k dbr pos p r t le = (
  poke p pos 2,
  poke_short n k dbr pos 2 p (ap is_text (get_type-Typed (int16 v) k dbr r t)) le t,
  (λ i lt. ground arith),
  poke_here p pos 2 (omega arith),
)
enter (int32 v) n k dbr pos p r t le = (
  poke p pos 4,
  poke_short n k dbr pos 4 p (ap is_text (get_type-Typed (int32 v) k dbr r t)) le t,
  (λ i lt. ground arith),
  poke_here p pos 4 (omega arith),
)
enter null n k dbr pos p r t le = (
  poke p pos 0,
  poke_short n k dbr pos 0 p (ap is_text (get_type-Typed null k dbr r t)) le t,
  (λ i lt. ground arith),
  poke_here p pos 0 (omega arith),
)

-- Packing a header that there is room for writes the type of each value, and nothing before them.
pub pack_header_lem :
    (vs : List Value) (k : ℕ) (dbr : DbRecord) (pos : ℕ) (p : Bytes)
    → AllInRange vs
    → Typed vs k dbr.types
    → pos + header_widths vs ≤ 255
    → pos + header_widths vs ≤ dbr.packed_len
    → Packed vs k dbr pos p
unfolding pack_header
pack_header_lem [] k dbr pos p r t lt room = (p, refl, (λ i h. refl), tt)
pack_header_lem (v ∷ vs) k dbr pos p r t lt room =
    let (q, run, agree, c) = enter v (length vs) k dbr pos p r.0 t.0 (omega arith) in
    pack_one v vs k dbr pos p q run (omega arith) agree c (
      pack_header_lem vs (k + 1) dbr (pos + header_width_of v) q r.1
        (subst (λ x. Typed vs x dbr.types) (omega arith) t.1) (omega arith) (omega arith))
