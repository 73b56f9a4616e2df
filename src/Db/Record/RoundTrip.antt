-- ===== src/Db/Record/RoundTrip.antt =====
-- A record of record.c gives back the values that were appended, before and after it is packed.
use chi.Prelude.{
  ℕ, ◌+◌, ◌-◌, ◌%◌, ◌^◌, ◌≤◌, ◌<◌, ◌≡◌, refl, sym, ◌∙◌, ap, List, [], ◌∷◌, length, lt→ltb, le→leb,
  arith, subst,
}
use chi.Db.Memory.{Bytes, poke, move}
use chi.Db.Run.{Run, returns, ◌>>=◌}
use chi.Db.Util.{get2byte, get4byte}
use chi.Db.Record.{
  Value, int8, int16, int32, null, text, DbRecord, DbRecordBuffer, create_empty, finalize, get_type,
  get_string_length, print_from, print, set_entry,
}
use chi.Db.Record.Raw.{
  unpack_header, size_of_type, unpack_offsets, unpack_data, unpack_fields, unpack, pack_data, pack,
  pack_header,
}
use chi.Db.Record.Values.{
  append_all, type_code, width, widths, header_widths, InRange, AllInRange, Fits, Stored, At, Typed,
  Placed, AllStored, Holds,
}
use chi.Db.Record.Append.{move_within, append_all_lem}
use chi.Db.Record.Header.{
  get_type-Typed, header_width_of_pos, HeaderAt, HeaderAt-Agree, pack_header_lem,
}
use chi.Db.Record.HeaderRead.{unpack_header_lem}
use chi.Db.Record.Printed.{get_string_length-Typed, print_from_lem}

size_of_type-Typed :
    (v : Value) (k : ℕ) (dbr : DbRecord)
    → InRange v
    → dbr.types k ≡ type_code v
    → size_of_type (get_type dbr k) (get_string_length dbr k) ≡ width v
size_of_type-Typed (int8 v) k dbr r t = rw (get_type-Typed (int8 v) k dbr r t) refl
size_of_type-Typed (int16 v) k dbr r t = rw (get_type-Typed (int16 v) k dbr r t) refl
size_of_type-Typed (int32 v) k dbr r t = rw (get_type-Typed (int32 v) k dbr r t) refl
size_of_type-Typed null k dbr r t = rw (get_type-Typed null k dbr r t) refl
size_of_type-Typed (text s) k dbr r t =
    rw (get_type-Typed (text s) k dbr r t) (get_string_length-Typed s k dbr r t)

At-self : (v : Value) (o : ℕ) → At v o o
At-self (int8 v) o = refl
At-self (int16 v) o = refl
At-self (int32 v) o = refl
At-self null o = tt
At-self (text s) o = refl

abbrev Offsets : List Value → ℕ → ℕ → DbRecord → Type 0
Offsets vs k o dbr =
    (d : DbRecord) × (unpack_offsets (length vs) k o dbr ≡ (o + widths vs, d))
    × (d.types ≡ dbr.types)
    × (d.nfields ≡ dbr.nfields)
    × ((j : ℕ) → j < k → d.offsets j ≡ dbr.offsets j)
    × Placed vs k o d.offsets

unpack_offsets_lem :
    (vs : List Value) (k o : ℕ) (dbr : DbRecord)
    → AllInRange vs
    → Typed vs k dbr.types
    → o + widths vs < 2 ^ 32
    → Offsets vs k o dbr
unfolding unpack_offsets
unpack_offsets_lem [] k o dbr r t lt =
    (dbr, ap (λ (x : ℕ). (x, dbr)) (omega arith), refl, refl, (λ j h. refl), tt)
unpack_offsets_lem (v ∷ vs) k o dbr r t lt =
    let e : (o + width v) % 2 ^ 32 ≡ o + width v = omega arith in
    let (d, run, ty, n, os, pl) =
      unpack_offsets_lem vs (k + 1) (o + width v)
        (record dbr { offsets = set_entry dbr.offsets k o }) r.1
        (subst (λ x. Typed vs x dbr.types) (omega arith) t.1) (omega arith) in
    (
      d,
      ap
            (λ (x : ℕ).
              unpack_offsets (length vs) (k + 1) (x % 2 ^ 32)
                (record dbr { offsets = set_entry dbr.offsets k o }))
            (ap (λ (w : ℕ). o + w) (size_of_type-Typed v k dbr r.0 t.0))
          ∙ ap
              (λ (x : ℕ).
                unpack_offsets (length vs) (k + 1) x
                  (record dbr { offsets = set_entry dbr.offsets k o }))
              e
          ∙ run
          ∙ ap (λ (x : ℕ). (x, d)) (omega arith),
      ty,
      n,
      (λ j h. os j (omega arith) ∙ ground arith),
      (
        subst (λ x. At v x o) (sym (os k (omega arith) ∙ ground arith)) (At-self v o),
        subst (λ x. Placed vs x (o + width v) d.offsets) (omega arith) pl,
      ),
    )

-- Values that are moved with their bytes.
at_start : (p q : Bytes) (o a n : ℕ) → ((i : ℕ) → i < n → q (a + i) ≡ p (o + i)) → 0 < n → q a ≡ p o
at_start p q o a n h lt = ap q (omega arith) ∙ h 0 lt ∙ ap p (omega arith)

Stored-moved :
    (v : Value) (p q : Bytes) (o a : ℕ)
    → ((i : ℕ) → i < width v → q (a + i) ≡ p (o + i))
    → Stored v p o
    → Stored v q a
unfolding get2byte get4byte
Stored-moved (int8 v) p q o a h s = at_start p q o a 1 h (omega arith) ∙ s
Stored-moved (int16 v) p q o a h s =
    let e = at_start p q o a 2 h (omega arith) in rw (e, h 1 (omega arith)) s
Stored-moved (int32 v) p q o a h s =
    let e = at_start p q o a 4 h (omega arith) in
    rw (e, h 1 (omega arith), h 2 (omega arith), h 3 (omega arith)) s
Stored-moved null p q o a h s = tt
Stored-moved (text cs) p q o a h s = λ i lt. h i lt ∙ s i lt

AllStored-moved :
    (vs : List Value) (p q : Bytes) (o a : ℕ)
    → ((i : ℕ) → i < widths vs → q (a + i) ≡ p (o + i))
    → AllStored vs p o
    → AllStored vs q a
AllStored-moved [] p q o a h s = tt
AllStored-moved (v ∷ vs) p q o a h (s, ss) = (
  Stored-moved v p q o a (λ i lt. h i (omega arith)) s,
  AllStored-moved vs p q (o + width v) (a + width v)
      (λ i lt. ap q (omega arith) ∙ h (width v + i) (omega arith) ∙ ap p (omega arith)) ss,
)

length-header_widths : (vs : List Value) → length vs ≤ header_widths vs
length-header_widths [] = omega arith
length-header_widths (v ∷ vs) = omega (arith, header_width_of_pos v, length-header_widths vs)

-- A record whose bytes behind a header of `h` bytes are the values.
abbrev IsRaw : List Value → Bytes → Type 0
IsRaw vs raw =
    (raw 0 ≡ 1 + header_widths vs) × HeaderAt vs raw 1 × AllStored vs raw (1 + header_widths vs)

pack_lem :
    (vs : List Value) (fresh : Bytes) (dbr : DbRecord)
    → Fits vs
    → Holds vs 0 0 dbr
    → dbr.nfields ≡ length vs
    → dbr.data_len ≡ widths vs
    → dbr.packed_len ≡ 1 + header_widths vs + widths vs
    → (raw : Bytes) × (pack fresh dbr ≡ returns raw) × IsRaw vs raw
unfolding pack
pack_lem vs fresh dbr (r, hw, w) (t, a, s) n len plen =
    let first = (dbr.packed_len + (2 ^ 32 - dbr.data_len)) % 2 ^ 32 in
    let (p, run, agree, at) =
      pack_header_lem vs 0 dbr 1 (poke fresh 0 first) r t (omega arith) (omega arith) in
    let e : p 0 ≡ 1 + header_widths vs = agree 0 (omega arith) ∙ ground arith in
    (
      move p (p 0) dbr.contents dbr.data_len,
      rw (lt→ltb 0 dbr.packed_len (omega arith)) (
          ap (λ (x : ℕ). pack_header x 0 dbr 1 (poke fresh 0 first) >>= λ q. pack_data dbr q) n
          ∙ ap (λ (x : Run Bytes). x >>= λ q. pack_data dbr q) run
          ∙ rw (le→leb (p 0 + dbr.data_len) dbr.packed_len (omega arith)) refl),
      (
        ground arith,
        HeaderAt-Agree vs p (move p (p 0) dbr.contents dbr.data_len) 1 (λ i lt. ground arith) at,
        AllStored-moved vs dbr.contents (move p (p 0) dbr.contents dbr.data_len) 0
            (1 + header_widths vs)
            (λ i lt.
              ap (move p (p 0) dbr.contents dbr.data_len) (omega arith)
              ∙ move_within p (p 0) dbr.contents dbr.data_len i (omega arith)
              ∙ ap dbr.contents (omega arith))
            s,
      ),
    )

-- The record that is made of the offsets and the bytes.
abbrev with_contents : Bytes → Bytes → ℕ → DbRecord → DbRecord
with_contents fresh raw offset d = record d {
  data_len = offset;
  packed_len = (raw 0 + offset) % 2 ^ 32;
  contents = move fresh 0 (λ i. raw (raw 0 + i)) offset;
}

unpack-IsRaw :
    (vs : List Value) (fresh : DbRecord) (raw : Bytes) (size : ℕ)
    → Fits vs
    → IsRaw vs raw
    → size ≡ 1 + header_widths vs + widths vs
    → (r : DbRecord) × (unpack fresh raw size ≡ returns r)
      × Holds vs 0 0 r
      × (r.nfields ≡ length vs)
unfolding unpack
unpack-IsRaw vs fresh raw size (r, hw, w) (e, at, s) plen =
    let l = length-header_widths vs in
    let (ts, run, agree, typed) =
      unpack_header_lem vs 256 raw size (raw 0) 1 0 fresh.types r at e (omega arith)
        (omega (arith, e, plen)) (omega arith) (omega arith) in
    let (d, run', ty, n, os, pl) =
      unpack_offsets_lem vs 0 0 (record fresh { nfields = length vs; types = ts }) r typed
        (omega arith) in
    let header : unpack_header 256 raw size (raw 0) 1 0 fresh.types ≡ returns (length vs, ts) =
      run ∙ ap (λ (x : ℕ). returns (x, ts)) (omega arith) in
    let offsets : unpack_offsets (length vs) 0 0 (record fresh { nfields = length vs; types = ts })
        ≡ (widths vs, d) =
      run' ∙ ap (λ (x : ℕ). (x, d)) (omega arith) in
    let made = with_contents fresh.contents raw (widths vs) d in
    (
      made,
      rw (lt→ltb 0 size (omega (arith, plen))) (
          ap (λ (x : Run (ℕ × (ℕ → ℕ))). x >>= λ h. unpack_fields fresh raw size h) header
          ∙ ap (λ (x : ℕ × DbRecord). unpack_data fresh.contents raw size x) offsets
          ∙ rw (le→leb (raw 0 + widths vs) size (omega (arith, e, plen))) refl),
      (
        subst (λ f. Typed vs 0 f) (sym ty) typed,
        pl,
        AllStored-moved vs raw made.contents (1 + header_widths vs) 0
            (λ i lt.
              move_within fresh.contents 0 (λ j. raw (raw 0 + j)) (widths vs) i lt
              ∙ ap raw (omega arith))
            s,
      ),
      n,
    )

-- Appending values that fit to an empty record succeeds, and the record is printed as those values. It
-- is packed within its `packed_len` bytes, and those bytes are unpacked without a read past them,
-- whatever fresh memory holds, to a record that is printed as the same values.
pub pack-unpack :
    (vs : List Value) (fresh other : DbRecord) (memory : Bytes)
    → Fits vs
    → (b : DbRecordBuffer) × (append_all vs (create_empty fresh (length vs)) ≡ returns b)
      × (print (finalize b) ≡ vs)
      × (raw : Bytes) × (pack memory (finalize b) ≡ returns raw)
      × (r : DbRecord) × (unpack other raw (finalize b).packed_len ≡ returns r)
      × (print r ≡ vs)
unfolding create_empty finalize print
pack-unpack vs fresh other memory (r, hw, w) =
    let l = length-header_widths vs in
    let (b, run, op, (f, o, h, ts, os, ds), holds) =
      append_all_lem (length vs) vs (create_empty fresh (length vs))
        (refl, omega arith, omega arith, omega arith) r (omega arith) (omega arith) (omega arith) in
    let (raw, packed, is_raw) =
      pack_lem vs memory (finalize b) (r, hw, w) holds (omega arith) (omega arith) (omega arith) in
    let (d, unpacked, holds', n) =
      unpack-IsRaw vs other raw (finalize b).packed_len (r, hw, w) is_raw (omega arith) in
    (
      b,
      run,
      ap (λ (x : ℕ). print_from x 0 (finalize b)) (f ∙ omega arith)
          ∙ print_from_lem vs 0 0 (finalize b) r holds,
      raw,
      packed,
      d,
      unpacked,
      ap (λ (x : ℕ). print_from x 0 d) n ∙ print_from_lem vs 0 0 d r holds',
    )
