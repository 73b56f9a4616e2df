-- ===== src/Db/Record/Bounds.antt =====
-- What the buffer of a record of record.c bears: strings that are too long.
use native.Mathlib.Decide.{dec_lt}
use chi.Prelude.{
  ℕ, ◌+◌, ◌*◌, ◌^◌, ◌≤◌, ◌<◌, ◌≡◌, refl, List, length, arith, ◌⊎◌, inl, inr, lt→ltb, gt→leb, le→leb,
}
use chi.Db.Memory.{move}
use chi.Db.Run.{returns, undefined}
use chi.Db.Record.{DbRecordBuffer, chars, append_string, grown_size}
use chi.Db.Record.Append.{IsOpen, after, move_within}

-- Where a string is longer than what is left of the buffer and 1,024 bytes more, the append stores
-- outside of the buffer, since it grows once only. Where it is not, the append returns.
pub append_string_lem :
    (n : ℕ) (b : DbRecordBuffer) (s : List ℕ)
    → IsOpen n b
    → b.field < n
    → b.buf_size + 1024 < 2 ^ 16
    → ((b.buf_size + 1024 < b.offset + length s) × (append_string b s ≡ undefined))
      ⊎ ((b.offset + length s ≤ b.buf_size + 1024)
          × (c : DbRecordBuffer) × (append_string b s ≡ returns c)
          × (c.offset ≡ b.offset + length s)
          × (c.offset ≤ c.buf_size)
          × ((i : ℕ) → i < length s → c.dbr.contents (b.offset + i) ≡ chars s i))
unfolding append_string
append_string_lem n b s op lt big =
    let slot : b.field < b.dbr.nfields = omega arith in
    elim (dec_lt (b.buf_size + 1024) (b.offset + length s)) [
      | yes over ↦
          let full : grown_size (length s) b < b.offset + length s = ground arith in
          inl (over, rw (lt→ltb _ _ slot, gt→leb _ _ full) refl)
      | no fits ↦
          let room : b.offset + length s ≤ grown_size (length s) b = ground arith in
          inr (
            omega arith,
            after b.offset (length s * 2 + 13) (length s) 4
                (move b.dbr.contents b.offset (chars s) (length s)) b,
            rw (lt→ltb _ _ slot, le→leb _ _ room) refl,
            refl,
            room,
            move_within b.dbr.contents b.offset (chars s) (length s),
          )
    ]
