-- ===== src/Db/Record/Append.antt =====
-- Values appended to a record of record.c are its fields, in order.
use chi.Prelude.{
  ℕ, suc, ◌+◌, ◌-◌, ◌*◌, ◌%◌, ◌^◌, ◌≤◌, ◌<◌, ◌≡◌, refl, sym, ◌∙◌, List, [], ◌∷◌, length, lt→ltb,
  le→leb, arith, subst,
}
use chi.Db.Memory.{Bytes, Agree, poke, move}
use chi.Db.Run.{returns}
use chi.Db.Util.{put2byte, put4byte}
use chi.Db.Util.Words.{
  get2byte-put2byte, get4byte-put4byte, put2byte-Agree, put4byte-Agree, get2byte-Agree,
  get4byte-Agree,
}
use chi.Db.Record.{
  Value, int8, int16, int32, null, text, DbRecordBuffer, chars, append_int8, append_int16,
  append_int32, append_null, append_string, append_end, grown_size, set_entry,
}
use chi.Db.Record.Values.{
  append, append_all, type_code, width, header_width_of, widths, header_widths, InRange, AllInRange,
  Stored, At, Typed, Placed, AllStored, Holds,
}

-- The buffer is in bounds, with `n` entries for fields.
abbrev pub IsOpen : ℕ → DbRecordBuffer → Type 0
IsOpen n b = (b.dbr.nfields ≡ n) × (n ≤ 255) × (b.offset ≤ b.buf_size) × (b.buf_size < 2 ^ 16)

-- What appending values that take `n` fields, `w` bytes and `h` bytes of the header leaves.
abbrev pub Grew : ℕ → ℕ → ℕ → DbRecordBuffer → DbRecordBuffer → Type 0
Grew n w h b c =
    (c.field ≡ b.field + n)
    × (c.offset ≡ b.offset + w)
    × (c.header_size ≡ (b.header_size + h) % 2 ^ 8)
    × ((j : ℕ) → j < b.field → c.dbr.types j ≡ b.dbr.types j)
    × ((j : ℕ) → j < b.field → c.dbr.offsets j ≡ b.dbr.offsets j)
    × ((i : ℕ) → i < b.offset → c.dbr.contents i ≡ b.dbr.contents i)

abbrev Room : ℕ → DbRecordBuffer → Type 0
Room n b = (b.offset + n ≤ grown_size n b) × (grown_size n b < 2 ^ 16)

grown_size_lem :
    (n k : ℕ) (b : DbRecordBuffer) → IsOpen n b → k ≤ 1024 → b.offset + k ≤ 64512 → Room k b
grown_size_lem n k b h w r = ground arith

-- The buffer behind `set_field`, `make_room` and `append_end`.
abbrev pub after : ℕ → ℕ → ℕ → ℕ → Bytes → DbRecordBuffer → DbRecordBuffer
after o t w h contents b = append_end w h contents (record b {
  dbr = record b.dbr {
    types = set_entry b.dbr.types b.field t;
    offsets = set_entry b.dbr.offsets b.field o;
  };
  buf_size = grown_size w b;
})

set_entry_same : (f : ℕ → ℕ) (i v : ℕ) → set_entry f i v i ≡ v
set_entry_same f i v = ground arith

set_entry_other : (f : ℕ → ℕ) (i v j : ℕ) → j < i → set_entry f i v j ≡ f j
set_entry_other f i v j h = ground arith

after-Grew :
    (o t w h n : ℕ) (contents : Bytes) (b : DbRecordBuffer)
    → IsOpen n b
    → b.field < n
    → ((i : ℕ) → i < b.offset → contents i ≡ b.dbr.contents i)
    → Grew 1 w h b (after o t w h contents b)
after-Grew o t w h n contents b op lt agree = (
  ground arith,
  refl,
  refl,
  set_entry_other b.dbr.types b.field t,
  set_entry_other b.dbr.offsets b.field o,
  agree,
)

pub move_within :
    (p : Bytes) (a : ℕ) (src : Bytes) (n i : ℕ) → i < n → move p a src n (a + i) ≡ src i
move_within p a src n i h =
    let e : a + i - a ≡ i = omega arith in
    rw (le→leb a (a + i) (omega arith), lt→ltb (a + i) (a + n) (omega arith), e) refl

-- Appending one value.
abbrev Appends : ℕ → Value → DbRecordBuffer → Type 0
Appends n v b =
    (c : DbRecordBuffer) × (append v b ≡ returns c)
    × IsOpen n c
    × Grew 1 (width v) (header_width_of v) b c
    × (c.dbr.types b.field ≡ type_code v)
    × At v (c.dbr.offsets b.field) b.offset
    × Stored v c.dbr.contents b.offset

append_lem :
    (n : ℕ) (v : Value) (b : DbRecordBuffer)
    → IsOpen n b
    → InRange v
    → b.field < n
    → b.offset + width v ≤ 64512
    → Appends n v b
unfolding append_int8 append_int16 append_int32 append_null append_string put2byte put4byte
append_lem n (int8 v) b op r lt w =
    let room = grown_size_lem n 1 b op (omega arith) w in
    let slot : b.field < b.dbr.nfields = omega arith in
    (
      after b.offset 1 1 1 (poke b.dbr.contents b.offset v) b,
      rw (lt→ltb _ _ slot, le→leb _ _ room.0) refl,
      (op.0, op.1, room.0, room.1),
      after-Grew b.offset 1 1 1 n (poke b.dbr.contents b.offset v) b op lt (λ i h. ground arith),
      set_entry_same b.dbr.types b.field 1,
      set_entry_same b.dbr.offsets b.field b.offset,
      ground arith,
    )
append_lem n (int16 v) b op r lt w =
    let room = grown_size_lem n 2 b op (omega arith) w in
    let slot : b.field < b.dbr.nfields = omega arith in
    (
      after b.offset 2 2 1 (put2byte b.dbr.contents b.offset v) b,
      rw (lt→ltb _ _ slot, le→leb _ _ room.0) refl,
      (op.0, op.1, room.0, room.1),
      after-Grew b.offset 2 2 1 n (put2byte b.dbr.contents b.offset v) b op lt
          (λ i h. put2byte-Agree b.dbr.contents b.offset v i (omega arith)),
      set_entry_same b.dbr.types b.field 2,
      set_entry_same b.dbr.offsets b.field b.offset,
      omega (arith, get2byte-put2byte b.dbr.contents b.offset v),
    )
append_lem n (int32 v) b op r lt w =
    let room = grown_size_lem n 4 b op (omega arith) w in
    let slot : b.field < b.dbr.nfields = omega arith in
    (
      after b.offset 4 4 1 (put4byte b.dbr.contents b.offset v) b,
      rw (lt→ltb _ _ slot, le→leb _ _ room.0) refl,
      (op.0, op.1, room.0, room.1),
      after-Grew b.offset 4 4 1 n (put4byte b.dbr.contents b.offset v) b op lt
          (λ i h. put4byte-Agree b.dbr.contents b.offset v i (omega arith)),
      set_entry_same b.dbr.types b.field 4,
      set_entry_same b.dbr.offsets b.field b.offset,
      omega (arith, get4byte-put4byte b.dbr.contents b.offset v),
    )
append_lem n null b op r lt w =
    let slot : b.field < b.dbr.nfields = omega arith in
    (
      record (after 0 0 0 1 b.dbr.contents b) { buf_size = b.buf_size },
      rw (lt→ltb _ _ slot) refl,
      (op.0, op.1, omega arith, op.3),
      after-Grew 0 0 0 1 n b.dbr.contents b op lt (λ i h. refl),
      set_entry_same b.dbr.types b.field 0,
      tt,
      tt,
    )
append_lem n (text s) b op r lt w =
    let room = grown_size_lem n (length s) b op r w in
    let slot : b.field < b.dbr.nfields = omega arith in
    (
      after b.offset (length s * 2 + 13) (length s) 4
          (move b.dbr.contents b.offset (chars s) (length s)) b,
      rw (lt→ltb _ _ slot, le→leb _ _ room.0) refl,
      (op.0, op.1, room.0, room.1),
      after-Grew b.offset (length s * 2 + 13) (length s) 4 n
          (move b.dbr.contents b.offset (chars s) (length s)) b op lt (λ i h. ground arith),
      set_entry_same b.dbr.types b.field (length s * 2 + 13),
      set_entry_same b.dbr.offsets b.field b.offset,
      move_within b.dbr.contents b.offset (chars s) (length s),
    )

-- A value that is stored is there in any memory that has the same bytes.
pub Stored-Agree :
    (v : Value) (p q : Bytes) (o : ℕ) → Agree o (o + width v) q p → Stored v p o → Stored v q o
Stored-Agree (int8 v) p q o h s = h o (omega arith) (omega arith) ∙ s
Stored-Agree (int16 v) p q o h s = get2byte-Agree q p o h ∙ s
Stored-Agree (int32 v) p q o h s = get4byte-Agree q p o h ∙ s
Stored-Agree null p q o h s = tt
Stored-Agree (text s) p q o h st = λ i lt. h (o + i) (omega arith) (omega arith) ∙ st i lt

abbrev pub Appended : ℕ → List Value → DbRecordBuffer → Type 0
Appended n vs b =
    (c : DbRecordBuffer) × (append_all vs b ≡ returns c)
    × IsOpen n c
    × Grew (length vs) (widths vs) (header_widths vs) b c
    × Holds vs b.field b.offset c.dbr

-- Appending values that there is room for succeeds: they are the next fields, the fields and the bytes
-- before them stay, and the buffer stays in bounds.
pub append_all_lem :
    (n : ℕ) (vs : List Value) (b : DbRecordBuffer)
    → IsOpen n b
    → AllInRange vs
    → b.field + length vs ≤ n
    → b.offset + widths vs ≤ 64512
    → b.header_size < 256
    → Appended n vs b
append_all_lem n [] b op r lt w hs = (
  b,
  refl,
  op,
  (omega arith, omega arith, omega arith, (λ j h. refl), (λ j h. refl), (λ i h. refl)),
  (tt, tt, tt),
)
append_all_lem n (v ∷ vs) b op r lt w hs =
    let (c, run, opc, (f, o, h, ts, os, ds), t, a, s) =
      append_lem n v b op r.0 (omega arith) (omega arith) in
    let (d, run', opd, (fd, od, hd, ts', os', ds'), (ty, pl, st)) =
      append_all_lem n vs c opc r.1 (omega arith) (omega arith) (omega arith) in
    let f' : c.field ≡ suc b.field = omega arith in
    (
      d,
      rw run run',
      opd,
      (
        omega arith,
        omega arith,
        omega arith,
        (λ j lt. ts' j (omega arith) ∙ ts j lt),
        (λ j lt. os' j (omega arith) ∙ os j lt),
        (λ i lt. ds' i (omega arith) ∙ ds i lt),
      ),
      (
        (ts' b.field (omega arith) ∙ t, subst (λ k. Typed vs k d.dbr.types) f' ty),
        (
          subst (λ x. At v x b.offset) (sym (os' b.field (omega arith))) a,
          subst (λ k. Placed vs k (b.offset + width v) d.dbr.offsets) f'
              (subst (λ x. Placed vs c.field x d.dbr.offsets) o pl),
        ),
        (
          Stored-Agree v c.dbr.contents d.dbr.contents b.offset (λ i lo hi. ds' i (omega arith)) s,
          subst (λ x. AllStored vs d.dbr.contents x) o st,
        ),
      ),
    )
