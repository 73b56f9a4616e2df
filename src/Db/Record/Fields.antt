-- ===== src/Db/Record/Fields.antt =====
-- `chidb_DBRecord_unpack` of record.c on any bytes: the fields of the record.
use native.Mathlib.Decide.{dec_lt, dec_le}
use chi.Prelude.{
  ℕ, ◌+◌, ◌/◌, ◌%◌, ◌^◌, ◌≤◌, ◌<◌, ◌≡◌, refl, ◌∙◌, ap, List, [], ◌∷◌, length, arith, ◌⊎◌, inl, inr,
  lt→ltb, gt→leb, le→leb, ge→ltb,
}
use chi.Db.Memory.{Bytes, IsByte, move}
use chi.Db.Run.{Run, returns, undefined, ◌>>=◌}
use chi.Db.Record.{DbRecord, set_entry, get_type, get_string_length, type_of_code, from_text}
use chi.Db.Record.Raw.{
  size_of_type, unpack_header, unpack_offsets, unpack_data, unpack_fields, unpack,
}
use chi.Db.Record.Append.{move_within}
use chi.Db.Record.HeaderTypes.{
  HeaderOf, TypesAt, HeaderOf-stop, header_types, unpack_header-HeaderOf,
}

-- The bytes that a value takes, from its type.
abbrev pub field_size : ℕ → ℕ
field_size t = size_of_type (type_of_code t) (from_text t / 2)

-- Where values of these types end that begin at `o`, as a word.
abbrev pub end_of : List ℕ → ℕ → ℕ
end_of [] o = o
end_of (t ∷ ts) o = end_of ts ((o + field_size t) % 2 ^ 32)

-- The fields from `i` on have these types and lie behind each other from `o` on.
abbrev pub FieldsAt : List ℕ → ℕ → ℕ → (ℕ → ℕ) → (ℕ → ℕ) → Type 0
FieldsAt [] i o types offsets = Unit
FieldsAt (t ∷ ts) i o types offsets =
    (types i ≡ t)
    × (offsets i ≡ o)
    × FieldsAt ts (i + 1) ((o + field_size t) % 2 ^ 32) types offsets

-- What the loop on the offsets makes of these types.
abbrev Laid : List ℕ → ℕ → ℕ → DbRecord → Type 0
Laid ts k o dbr =
    (d : DbRecord) × (unpack_offsets (length ts) k o dbr ≡ (end_of ts o, d))
    × (d.types ≡ dbr.types)
    × (d.nfields ≡ dbr.nfields)
    × ((j : ℕ) → j < k → d.offsets j ≡ dbr.offsets j)
    × FieldsAt ts k o d.types d.offsets

unpack_offsets-TypesAt :
    (ts : List ℕ) (k o : ℕ) (dbr : DbRecord) → TypesAt ts k dbr.types → Laid ts k o dbr
unfolding unpack_offsets get_type get_string_length
unpack_offsets-TypesAt [] k o dbr t = (dbr, refl, refl, refl, (λ j h. refl), tt)
unpack_offsets-TypesAt (t ∷ ts) k o dbr (e, at) =
    let (d, run, ty, n, os, fields) =
      unpack_offsets-TypesAt ts (k + 1) ((o + field_size t) % 2 ^ 32)
        (record dbr { offsets = set_entry dbr.offsets k o }) at in
    (
      d,
      ap
            (λ (x : ℕ).
              unpack_offsets (length ts) (k + 1) ((o + field_size x) % 2 ^ 32)
                (record dbr { offsets = set_entry dbr.offsets k o }))
            e
          ∙ run,
      ty,
      n,
      (λ j h. os j (omega arith) ∙ ground arith),
      (ap (λ (f : ℕ → ℕ). f k) ty ∙ e, os k (omega arith) ∙ ground arith, fields),
    )

-- A record with these fields, whose values are the bytes behind the header.
abbrev pub IsRecordOf : List ℕ → Bytes → DbRecord → Type 0
IsRecordOf ts raw r =
    (r.nfields ≡ length ts)
    × FieldsAt ts 0 0 r.types r.offsets
    × (r.data_len ≡ end_of ts 0)
    × (r.packed_len ≡ (raw 0 + end_of ts 0) % 2 ^ 32)
    × ((i : ℕ) → i < r.data_len → r.contents i ≡ raw (raw 0 + i))

-- The values of the fields, once the header is read.
abbrev Filled : List ℕ → DbRecord → Bytes → ℕ → (ℕ → ℕ) → Type 0
Filled ts fresh raw size us =
    ((raw 0 + end_of ts 0 ≤ size)
      × (r : DbRecord) × (unpack_fields fresh raw size (length ts, us) ≡ returns r)
      × IsRecordOf ts raw r)
    ⊎ ((size < raw 0 + end_of ts 0) × (unpack_fields fresh raw size (length ts, us) ≡ undefined))

fill :
    (ts : List ℕ) (fresh : DbRecord) (raw : Bytes) (size : ℕ) (us : ℕ → ℕ)
    → TypesAt ts 0 us
    → Filled ts fresh raw size us
fill ts fresh raw size us at =
    let (d, run, ty, n, os, fields) =
      unpack_offsets-TypesAt ts 0 0 (record fresh { nfields = length ts; types = us }) at in
    let step : unpack_fields fresh raw size (length ts, us)
        ≡ unpack_data fresh.contents raw size (end_of ts 0, d) =
      ap (λ (x : ℕ × DbRecord). unpack_data fresh.contents raw size x) run in
    elim (dec_le (raw 0 + end_of ts 0) size) [
      | no out ↦ inr (omega arith, step ∙ rw (gt→leb (raw 0 + end_of ts 0) size (omega arith)) refl)
      | yes fits ↦ inl (
        fits,
        record d {
          data_len = end_of ts 0;
          packed_len = (raw 0 + end_of ts 0) % 2 ^ 32;
          contents = move fresh.contents 0 (λ i. raw (raw 0 + i)) (end_of ts 0);
        },
        step ∙ rw (le→leb (raw 0 + end_of ts 0) size fits) refl,
        (
          n,
          fields,
          refl,
          refl,
          (λ i lt.
              ap (move fresh.contents 0 (λ j. raw (raw 0 + j)) (end_of ts 0)) (omega arith)
              ∙ move_within fresh.contents 0 (λ j. raw (raw 0 + j)) (end_of ts 0) i lt),
        ),
      )
    ]

-- The record is the one of the header, where the bytes hold the header and the values; otherwise there
-- is a read past them.
abbrev pub Unpacks : List ℕ → ℕ → DbRecord → Bytes → ℕ → Type 0
Unpacks ts stop fresh raw size =
    ((stop ≤ size)
      × (raw 0 + end_of ts 0 ≤ size)
      × (r : DbRecord) × (unpack fresh raw size ≡ returns r)
      × IsRecordOf ts raw r)
    ⊎ (((size < stop) ⊎ (size < raw 0 + end_of ts 0)) × (unpack fresh raw size ≡ undefined))

unpack-HeaderOf :
    (ts : List ℕ) (stop : ℕ) (fresh : DbRecord) (raw : Bytes) (size : ℕ)
    → ((i : ℕ) → IsByte (raw i))
    → HeaderOf raw (raw 0) 1 ts stop
    → stop ≤ 255
    → Unpacks ts stop fresh raw size
unfolding unpack
unpack-HeaderOf ts stop fresh raw size bytes h top =
    let l = HeaderOf-stop ts raw (raw 0) 1 stop h in
    let then_fields =
      λ (x : Run (ℕ × (ℕ → ℕ))). x >>= λ header. unpack_fields fresh raw size header in
    elim (dec_lt 0 size) [
      | no none ↦ inr (inl (omega arith), rw (ge→ltb 0 size (omega arith)) refl)
      | yes some_byte ↦
          elim (unpack_header-HeaderOf ts 256 raw size (raw 0) 1 0 fresh.types stop bytes h top
            (omega arith) (omega arith) (omega arith)) [
              | inr (outside, run) ↦
                  inr (inl outside, rw (lt→ltb 0 size some_byte) (ap then_fields run))
              | inl (inside, us, run, agree, at) ↦
                  let read : unpack_header 256 raw size (raw 0) 1 0 fresh.types
                      ≡ returns (length ts, us) =
                    run ∙ ap (λ (x : ℕ). returns (x, us)) (omega arith) in
                  elim (fill ts fresh raw size us at) [
                    | inl (fits, r, filled, is) ↦ inl (
                      inside,
                      fits,
                      r,
                      rw (lt→ltb 0 size some_byte) (ap then_fields read ∙ filled),
                      is,
                    )
                    | inr (over, filled) ↦
                        inr (inr over, rw (lt→ltb 0 size some_byte) (ap then_fields read ∙ filled))
                  ]
            ]
    ]

-- Whatever the bytes are, with a header of less than 252 of them: the header is a list of types, and
-- unpacking gives a record with these types, whose values lie behind each other as the types say and
-- are the bytes behind the header, where the header and the values are within the memory of `raw`, of
-- `size` bytes. Where they are not, there is a read past it.
pub unpack_lem :
    (fresh : DbRecord) (raw : Bytes) (size : ℕ)
    → ((i : ℕ) → IsByte (raw i))
    → raw 0 < 252
    → (ts : List ℕ) × (stop : ℕ) × HeaderOf raw (raw 0) 1 ts stop × Unpacks ts stop fresh raw size
unpack_lem fresh raw size bytes small =
    let (ts, stop, h, top) = header_types 252 raw (raw 0) 1 small (omega arith) (omega arith) in
    (ts, stop, h, unpack-HeaderOf ts stop fresh raw size bytes h top)
