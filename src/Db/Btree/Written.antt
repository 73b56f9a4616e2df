-- ===== src/Db/Btree/Written.antt =====
-- A cell that `write_cell` of btree.c puts on a page is read back.
use chi.Prelude.{
  ℕ, ◌+◌, ◌-◌, ◌^◌, ◌≤◌, ◌<◌, ◌≡◌, ap, ap₂, ◌∙◌, ◌⊎◌, inl, inr, ◌||◌, ◌==◌, if◌then◌else◌, arith,
}
use chi.Db.Memory.{Bytes, move}
use chi.Db.Util.{get4byte, put4byte, get_varint32, put_varint32}
use chi.Db.Util.Words.{get4byte-Agree}
use chi.Db.Util.Varint.{put_varint32-Agree}
use chi.Db.Util.Past.{
  get4byte_back, get_varint32_back, get4byte-put4byte_ne, get_varint32-put4byte_ne,
  get_varint32-put_varint32_ne,
}
use chi.Db.Btree.{
  pgtype_table_internal, pgtype_table_leaf, pgtype_index_internal, pgtype_index_leaf,
}
use chi.Db.Btree.Cell.{
  BTreeCell, read_cell, put_table_internal, put_index_internal, put_table_leaf, put_index_leaf,
  index_header, write_cell,
}
use chi.Db.Btree.Frame.{cell_size}
use chi.Db.Btree.Entry.{
  table_internal, index_internal, table_leaf, index_leaf, bytes_of, bytes_of-Agree, view, entry,
  size_at, IsPgType,
}

payload_index : (o n i : ℕ) → o + 8 + i - (o + (n + 8) - n) ≡ i
payload_index o n i = omega arith

headed_ne :
    (p : Bytes) (c b : ℕ)
    → (c ≤ b + 8) × (12 ≤ c) ⊎ (b + 4 ≤ c - 12)
    → get4byte (index_header p c) b ≡ get4byte p b
headed_ne p c b h = get4byte-Agree _ _ b (λ i l u. ground arith)

module _ (page : Bytes) (o : ℕ) (cell : BTreeCell) where
  -- The routines for each type of page, on a cell that begins at `o`.
  table_internal_back :
      cell.key < 2 ^ 28
      → cell.word0 < 2 ^ 32
      → entry pgtype_table_internal (put_table_internal page (o + 8) cell) o
        ≡ table_internal cell.key cell.word0
  unfolding entry read_cell put_table_internal
  table_internal_back hk hw =
      let keyed = put_varint32 page (o + 8 - 4) cell.key in
      ap₂ table_internal
        (get_varint32-put4byte_ne keyed (o + 8 - 8) (o + 4) cell.word0 (omega arith)
          ∙ get_varint32_back page (o + 8 - 4) (o + 4) cell.key (omega arith) hk)
        (get4byte_back keyed (o + 8 - 8) o cell.word0 (omega arith) hw)

  index_leaf_back :
      cell.key < 2 ^ 32
      → cell.word0 < 2 ^ 32
      → entry pgtype_index_leaf (put_index_leaf page (o + 12) cell) o
        ≡ index_leaf cell.key cell.word0
  unfolding entry read_cell put_index_leaf
  index_leaf_back hk hw =
      let pk = put4byte page (o + 12 - 4) cell.word0 in
      let keyed = put4byte pk (o + 12 - 8) cell.key in
      ap₂ index_leaf
        (headed_ne keyed (o + 12) (o + 4) (omega arith)
          ∙ get4byte_back pk (o + 12 - 8) (o + 4) cell.key (omega arith) hk)
        (headed_ne keyed (o + 12) (o + 8) (omega arith)
          ∙ get4byte-put4byte_ne pk (o + 12 - 8) (o + 8) cell.key (omega arith)
          ∙ get4byte_back page (o + 12 - 4) (o + 8) cell.word0 (omega arith) hw)

  index_internal_back :
      cell.key < 2 ^ 32
      → cell.word0 < 2 ^ 32
      → cell.word1 < 2 ^ 32
      → entry pgtype_index_internal (put_index_internal page (o + 16) cell) o
        ≡ index_internal cell.key cell.word0 cell.word1
  unfolding entry read_cell put_index_internal
  index_internal_back hk hw hc =
      let pk = put4byte page (o + 16 - 4) cell.word0 in
      let keyed = put4byte pk (o + 16 - 8) cell.key in
      let headed = index_header keyed (o + 16) in
      cc (
        get4byte-put4byte_ne headed (o + 16 - 16) (o + 8) cell.word1 (omega arith)
            ∙ headed_ne keyed (o + 16) (o + 8) (omega arith)
            ∙ get4byte_back pk (o + 16 - 8) (o + 8) cell.key (omega arith) hk,
        get4byte-put4byte_ne headed (o + 16 - 16) (o + 12) cell.word1 (omega arith)
            ∙ headed_ne keyed (o + 16) (o + 12) (omega arith)
            ∙ get4byte-put4byte_ne pk (o + 16 - 8) (o + 12) cell.key (omega arith)
            ∙ get4byte_back page (o + 16 - 4) (o + 12) cell.word0 (omega arith) hw,
        get4byte_back headed (o + 16 - 16) o cell.word1 (omega arith) hc,
      )

  table_leaf_back :
      cell.key < 2 ^ 28
      → cell.word0 < 2 ^ 28
      → (get_varint32 (put_table_leaf page (o + (cell.word0 + 8)) cell) o ≡ cell.word0)
        × (entry pgtype_table_leaf (put_table_leaf page (o + (cell.word0 + 8)) cell) o
            ≡ table_leaf cell.key (bytes_of cell.word0 cell.payload))
  unfolding entry read_cell put_table_leaf
  table_leaf_back hk hw =
      let c = o + (cell.word0 + 8) in
      let moved = move page (c - cell.word0) cell.payload cell.word0 in
      let keyed = put_varint32 moved (c - cell.word0 - 4) cell.key in
      let sized = put_varint32 keyed (c - cell.word0 - 8) cell.word0 in
      let size : get_varint32 sized o ≡ cell.word0 =
        get_varint32_back keyed (c - cell.word0 - 8) o cell.word0 (omega arith) hw in
      let key : get_varint32 sized (o + 4) ≡ cell.key =
        get_varint32-put_varint32_ne keyed (c - cell.word0 - 8) (o + 4) cell.word0 (omega arith)
        ∙ get_varint32_back moved (c - cell.word0 - 4) (o + 4) cell.key (omega arith) hk in
      (
        size,
        ap₂ table_leaf key (
            ap (λ (n : ℕ). bytes_of n (λ i. sized (o + 8 + i))) size
            ∙ bytes_of-Agree cell.word0 (λ i. sized (o + 8 + i)) cell.payload
                (λ i l u. ground (
                  arith,
                  put_varint32-Agree keyed (c - cell.word0 - 8) cell.word0 (o + 8 + i),
                  put_varint32-Agree moved (c - cell.word0 - 4) cell.key (o + 8 + i),
                  ap cell.payload (payload_index o cell.word0 i),
                ))),
      )

-- The bits that a key, and the first word of the union, have in a cell.
abbrev pub key_bits : ℕ → ℕ
key_bits type = if type == pgtype_table_internal || type == pgtype_table_leaf then 28 else 32

abbrev pub word0_bits : ℕ → ℕ
word0_bits type = if type == pgtype_table_leaf then 28 else 32

pub record Fits (cell : BTreeCell) : Type 0 where
  pub known : IsPgType cell.type
  pub key_fits : cell.key < 2 ^ key_bits cell.type
  pub word0_fits : cell.word0 < 2 ^ word0_bits cell.type
  pub word1_fits : cell.word1 < 2 ^ 32

-- A cell that fits is read back from the top of the cell area, with its own size.
pub write_cell_back :
    (page : Bytes) (c : ℕ) (cell : BTreeCell)
    → Fits cell
    → cell_size cell.type cell.word0 ≤ c
    → let o = c - cell_size cell.type cell.word0 in
      (entry cell.type (write_cell page c cell).0 o ≡ view cell)
      × (size_at cell.type (write_cell page c cell).0 o ≡ cell_size cell.type cell.word0)
unfolding write_cell
write_cell_back page c cell f room = back f.known
  where
    n : ℕ
    n = cell_size cell.type cell.word0

    back :
        IsPgType cell.type
        → (entry cell.type (write_cell page c cell).0 (c - n) ≡ view cell)
          × (size_at cell.type (write_cell page c cell).0 (c - n) ≡ n)
    back (inl e) = ground (arith, f.key_fits, f.word0_fits, table_internal_back page (c - 8) cell)
    back (inr (inl e)) = ground (arith, index_internal_back page (c - 16) cell)
    back (inr (inr (inl e))) = ground (arith, table_leaf_back page (c - (cell.word0 + 8)) cell)
    back (inr (inr (inr e))) = ground (arith, index_leaf_back page (c - 12) cell)
