-- ===== src/Db/Record/HeaderTypes.antt =====
-- The loop on the header in `chidb_DBRecord_unpack` of record.c, on any bytes, against a description of
-- the header.
use Prim.Native.Nat.{bit_and}
use native.Mathlib.Decide.{dec_lt, dec_le}
use chi.Prelude.{
  ℕ, zero, suc, ◌+◌, ◌%◌, ◌^◌, ◌≤◌, ◌<◌, ◌≡◌, refl, sym, ◌∙◌, ap, List, [], ◌∷◌, length, arith, ◌⊎◌,
  inl, inr, ◌==◌, false, true, lt→ltb, gt→leb, le→leb, ge→ltb, eq→==, ne→==,
}
use chi.Bits.{bit_and_128}
use chi.Db.Memory.{Bytes, IsByte}
use chi.Db.Run.{returns, undefined}
use chi.Db.Util.{get_varint32}
use chi.Db.Record.{set_entry}
use chi.Db.Record.Raw.{raw_type, raw_width, unpack_header}

-- From `pos` on, the header of `header_size` bytes is these types, and the last ends at `stop`: a byte
-- below 128 is a type, and any other begins a type of four bytes.
abbrev pub HeaderOf : Bytes → ℕ → ℕ → List ℕ → ℕ → Type 0
HeaderOf raw header_size pos [] stop = (header_size ≤ pos) × (stop ≡ pos)
HeaderOf raw header_size pos (t ∷ ts) stop =
    ((pos < header_size)
      × (raw pos < 128)
      × (t ≡ raw pos)
      × HeaderOf raw header_size (pos + 1) ts stop)
    ⊎ ((pos < header_size)
        × (128 ≤ raw pos)
        × (t ≡ get_varint32 raw pos)
        × HeaderOf raw header_size (pos + 4) ts stop)

abbrev pub TypesAt : List ℕ → ℕ → (ℕ → ℕ) → Type 0
TypesAt [] i f = Unit
TypesAt (t ∷ ts) i f = (f i ≡ t) × TypesAt ts (i + 1) f

-- Each type takes a byte or more.
pub HeaderOf-stop :
    (ts : List ℕ) (raw : Bytes) (hs pos stop : ℕ)
    → HeaderOf raw hs pos ts stop
    → pos + length ts ≤ stop
HeaderOf-stop [] raw hs pos stop (le, e) = omega (arith, e)
HeaderOf-stop (t ∷ ts) raw hs pos stop (inl (lt, b, e, h)) =
    omega (arith, HeaderOf-stop ts raw hs (pos + 1) stop h)
HeaderOf-stop (t ∷ ts) raw hs pos stop (inr (lt, b, e, h)) =
    omega (arith, HeaderOf-stop ts raw hs (pos + 4) stop h)

-- Every header of less than 252 bytes is a list of types.
pub header_types :
    (rounds : ℕ) (raw : Bytes) (hs pos : ℕ)
    → hs < 252
    → pos ≤ 255
    → hs < rounds + pos
    → (ts : List ℕ) × (stop : ℕ) × HeaderOf raw hs pos ts stop × (stop ≤ 255)
header_types zero raw hs pos small le more = ([], pos, (omega arith, refl), le)
header_types (suc rounds) raw hs pos small le more = elim (dec_lt pos hs) [
  | no done ↦ ([], pos, (omega arith, refl), le)
  | yes lt ↦ elim (dec_lt (raw pos) 128) [
    | yes short ↦
        let (ts, stop, h, top) =
          header_types rounds raw hs (pos + 1) small (omega arith) (omega arith) in
        (raw pos ∷ ts, stop, inl (lt, short, refl, h), top)
    | no long ↦
        let (ts, stop, h, top) =
          header_types rounds raw hs (pos + 4) small (omega arith) (omega arith) in
        (get_varint32 raw pos ∷ ts, stop, inr (lt, omega arith, refl, h), top)
  ]
]

short_type :
    (raw : Bytes) (pos : ℕ) → raw pos < 128 → (raw_type raw pos ≡ raw pos) × (raw_width raw pos ≡ 1)
short_type raw pos lt =
    let b : (bit_and (raw pos) 128 == 0) ≡ true =
      eq→== _ 0 (omega (arith, bit_and_128 (raw pos))) in
    (rw b refl, rw b refl)

long_type :
    (raw : Bytes) (pos : ℕ)
    → IsByte (raw pos)
    → 128 ≤ raw pos
    → (raw_type raw pos ≡ get_varint32 raw pos) × (raw_width raw pos ≡ 4)
long_type raw pos byte le =
    let b : (bit_and (raw pos) 128 == 0) ≡ false =
      ne→== _ 0 (λ e. omega (arith, bit_and_128 (raw pos))) in
    (rw b refl, rw b refl)

-- What the loop on the header makes of these types.
abbrev pub Read : List ℕ → ℕ → Bytes → ℕ → ℕ → ℕ → ℕ → (ℕ → ℕ) → ℕ → Type 0
Read ts fuel raw size hs pos n types stop =
    ((stop ≤ size)
      × (us : ℕ → ℕ) × (unpack_header fuel raw size hs pos n types ≡ returns (n + length ts, us))
      × ((j : ℕ) → j < n → us j ≡ types j)
      × TypesAt ts n us)
    ⊎ ((size < stop) × (unpack_header fuel raw size hs pos n types ≡ undefined))

-- One round, for a type of `w` bytes.
one_round :
    (t : ℕ) (ts : List ℕ) (fuel : ℕ) (raw : Bytes) (size hs pos n w : ℕ) (types : ℕ → ℕ) (stop : ℕ)
    → raw_type raw pos ≡ t
    → raw_width raw pos ≡ w
    → pos < hs
    → n < 255
    → pos + w ≤ stop
    → stop ≤ 255
    → (pos + w ≤ size → Read ts fuel raw size hs (pos + w) (n + 1) (set_entry types n t) stop)
    → Read (t ∷ ts) (suc fuel) raw size hs pos n types stop
unfolding unpack_header
one_round t ts fuel raw size hs pos n w types stop ty wi lt few top all next =
    let ep : (pos + w) % 2 ^ 8 ≡ pos + w = omega arith in
    let en : (n + 1) % 2 ^ 8 ≡ n + 1 = omega arith in
    elim (dec_le (pos + w) size) [
      | no out ↦ inr (
        omega arith,
        rw (lt→ltb pos hs lt, lt→ltb n 255 few, wi, gt→leb (pos + w) size (omega arith)) refl,
      )
      | yes fits ↦
          let step : unpack_header (suc fuel) raw size hs pos n types
              ≡ unpack_header fuel raw size hs (pos + w) (n + 1) (set_entry types n t) =
            rw (lt→ltb pos hs lt, lt→ltb n 255 few, wi, le→leb (pos + w) size fits, ty, ep, en)
              refl in
          elim (next fits) [
            | inl (inside, us, run, agree, at) ↦ inl (
              inside,
              us,
              step ∙ run ∙ ap (λ (x : ℕ). returns (x, us)) (omega arith),
              (λ j h. agree j (omega arith) ∙ ground arith),
              (agree n (omega arith) ∙ ground arith, at),
            )
            | inr (outside, run) ↦ inr (outside, step ∙ run)
          ]
    ]

pub unpack_header-HeaderOf :
    (ts : List ℕ) (fuel : ℕ) (raw : Bytes) (size hs pos n : ℕ) (types : ℕ → ℕ) (stop : ℕ)
    → ((i : ℕ) → IsByte (raw i))
    → HeaderOf raw hs pos ts stop
    → stop ≤ 255
    → n < pos
    → pos ≤ size
    → length ts < fuel
    → Read ts fuel raw size hs pos n types stop
unfolding unpack_header
unpack_header-HeaderOf ts zero raw size hs pos n types stop bytes h top low inside f =
    absurd (omega arith)
unpack_header-HeaderOf [] (suc fuel) raw size hs pos n types stop bytes (le, e) top low inside f =
    inl (
      omega (arith, e),
      types,
      rw (ge→ltb pos hs le) (ap (λ (x : ℕ). returns (x, types)) (omega arith)),
      (λ j lt. refl),
      tt,
    )
unpack_header-HeaderOf (t ∷ ts) (suc fuel) raw size hs pos n types stop bytes (inl (lt, b, e, h))
      top low inside f =
    let l = HeaderOf-stop ts raw hs (pos + 1) stop h in
    let (ty, wi) = short_type raw pos b in
    one_round t ts fuel raw size hs pos n 1 types stop (ty ∙ sym e) wi lt (omega arith)
      (omega arith) top
      (λ fits.
        unpack_header-HeaderOf ts fuel raw size hs (pos + 1) (n + 1) (set_entry types n t) stop
          bytes h top (omega arith) fits (omega arith))
unpack_header-HeaderOf (t ∷ ts) (suc fuel) raw size hs pos n types stop bytes (inr (lt, b, e, h))
      top low inside f =
    let l = HeaderOf-stop ts raw hs (pos + 4) stop h in
    let (ty, wi) = long_type raw pos (bytes pos) b in
    one_round t ts fuel raw size hs pos n 4 types stop (ty ∙ sym e) wi lt (omega arith)
      (omega arith) top
      (λ fits.
        unpack_header-HeaderOf ts fuel raw size hs (pos + 4) (n + 1) (set_entry types n t) stop
          bytes h top (omega arith) fits (omega arith))
