-- ===== src/Db/Record/HeaderRead.antt =====
-- The header of a raw record of record.c as it is unpacked.
use Prim.Native.Nat.{bit_and}
use chi.Prelude.{
  ℕ, zero, suc, ◌+◌, ◌%◌, ◌^◌, ◌≤◌, ◌<◌, ◌≡◌, refl, ◌∙◌, ap, List, [], ◌∷◌, length, ltb, false,
  lt→ltb, le→leb, arith, ◌==◌, ne→==, subst,
}
use chi.Bits.{bit_and_128}
use chi.Db.Memory.{Bytes}
use chi.Db.Run.{returns}
use chi.Db.Record.{Value, int8, int16, int32, null, text, set_entry}
use chi.Db.Record.Raw.{raw_type, raw_width, unpack_header}
use chi.Db.Record.Values.{type_code, header_width_of, header_widths, InRange, AllInRange, Typed}
use chi.Db.Record.Header.{Coded, HeaderAt, header_width_of_pos}

-- What is unpacked of a header that holds the types of the values.
abbrev Unpacked : List Value → ℕ → Bytes → ℕ → ℕ → ℕ → ℕ → (ℕ → ℕ) → Type 0
Unpacked vs fuel raw size header_size pos n types =
    (ts : ℕ → ℕ) × (unpack_header fuel raw size header_size pos n types
      ≡ returns (n + length vs, ts))
    × ((j : ℕ) → j < n → ts j ≡ types j)
    × Typed vs n ts

Coded-read :
    (v : Value) (raw : Bytes) (pos : ℕ)
    → InRange v
    → Coded v raw pos
    → (raw_type raw pos ≡ type_code v) × (raw_width raw pos ≡ header_width_of v)
Coded-read (text s) raw pos r (top, byte, c) =
    let b : (bit_and (raw pos) 128 == 0) ≡ false =
      ne→== _ 0 (λ e. omega (arith, bit_and_128 (raw pos))) in
    (rw b c, rw b refl)
Coded-read (int8 v) raw pos r c = rw c (refl, refl)
Coded-read (int16 v) raw pos r c = rw c (refl, refl)
Coded-read (int32 v) raw pos r c = rw c (refl, refl)
Coded-read null raw pos r c = rw c (refl, refl)

-- Unpacking such a header gives the types of the values.
pub unpack_header_lem :
    (vs : List Value) (fuel : ℕ) (raw : Bytes) (size header_size pos n : ℕ) (types : ℕ → ℕ)
    → AllInRange vs
    → HeaderAt vs raw pos
    → header_size ≡ pos + header_widths vs
    → header_size ≤ 255
    → header_size ≤ size
    → n + length vs ≤ 255
    → length vs < fuel
    → Unpacked vs fuel raw size header_size pos n types
unfolding unpack_header
unpack_header_lem vs zero raw size hs pos n types r at e le fit m f = absurd (omega arith)
unpack_header_lem [] (suc fuel) raw size hs pos n types r at e le fit m f =
    let stop : ltb pos hs ≡ false = ground arith in
    (types, rw stop (ap (λ (x : ℕ). returns (x, types)) (omega arith)), (λ j lt. refl), tt)
unpack_header_lem (v ∷ vs) (suc fuel) raw size hs pos n types r (c, at) e le fit m f =
    let (lo, hi) = header_width_of_pos v in
    let (ty, wi) = Coded-read v raw pos r.0 c in
    let ep : (pos + header_width_of v) % 2 ^ 8 ≡ pos + header_width_of v = omega arith in
    let en : (n + 1) % 2 ^ 8 ≡ n + 1 = omega arith in
    let step : unpack_header (suc fuel) raw size hs pos n types
        ≡ unpack_header fuel raw size hs (pos + header_width_of v) (n + 1)
            (set_entry types n (type_code v)) =
      rw
        (
          lt→ltb pos hs (omega arith),
          lt→ltb n 255 (omega arith),
          wi,
          le→leb (pos + header_width_of v) size (omega arith),
          ty,
          ep,
          en,
        )
        refl in
    let (ts, run, agree, typed) =
      unpack_header_lem vs fuel raw size hs (pos + header_width_of v) (n + 1)
        (set_entry types n (type_code v)) r.1 at (omega arith) le fit (omega arith) (omega arith) in
    (
      ts,
      step ∙ run ∙ ap (λ (x : ℕ). returns (x, ts)) (omega arith),
      (λ j lt. agree j (omega arith) ∙ ground arith),
      (agree n (omega arith) ∙ ground arith, subst (λ x. Typed vs x ts) (omega arith) typed),
    )
