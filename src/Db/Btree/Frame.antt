-- ===== src/Db/Btree/Frame.antt =====
-- Which bytes of a page the cell routines of btree.c read and write.
use chi.Prelude.{ℕ, ◌+◌, ◌-◌, ◌*◌, ◌^◌, ◌≤◌, ◌<◌, ◌≡◌, ◌⊎◌, inl, ◌==◌, if◌then◌else◌, arith}
use chi.Db.Memory.{Bytes, move}
use chi.Db.Util.{get2byte, put2byte, put4byte, put_varint32}
use chi.Db.Util.Words.{get2byte-put2byte, put4byte-Agree, get2byte-Agree}
use chi.Db.Util.Varint.{put_varint32-Agree}
use chi.Db.Btree.{
  pgtype_table_internal, pgtype_table_leaf, pgtype_index_internal, pgtype_index_leaf,
}
use chi.Db.Btree.Cell.{
  BTreeCell, put_table_internal, put_index_internal, put_table_leaf, put_index_leaf, index_header,
  write_cell, shift_size, insert_offset,
}

-- The bytes that a cell takes in the cell area.
abbrev pub cell_size : ℕ → ℕ → ℕ
cell_size type data_size =
    if type == pgtype_table_internal
    then 8
    else if type == pgtype_index_internal
    then 16
    else if type == pgtype_table_leaf
    then data_size + 8
    else if type == pgtype_index_leaf
    then 12
    else 0

module _ (page : Bytes) (c : ℕ) (cell : BTreeCell) where
  table_internal-Agree :
      (i : ℕ) → 8 ≤ c → (i < c - 8) ⊎ (c ≤ i) → put_table_internal page c cell i ≡ page i
  unfolding put_table_internal
  table_internal-Agree i h o = ground (
    arith,
    put4byte-Agree (put_varint32 page (c - 4) cell.key) (c - 8) cell.word0 i,
    put_varint32-Agree page (c - 4) cell.key i,
  )

  index_leaf-Agree :
      (i : ℕ) → 12 ≤ c → (i < c - 12) ⊎ (c ≤ i) → put_index_leaf page c cell i ≡ page i
  unfolding put_index_leaf
  index_leaf-Agree i h o = ground (
    arith,
    put4byte-Agree (put4byte page (c - 4) cell.word0) (c - 8) cell.key i,
    put4byte-Agree page (c - 4) cell.word0 i,
  )

  index_internal-Agree :
      (i : ℕ) → 16 ≤ c → (i < c - 16) ⊎ (c ≤ i) → put_index_internal page c cell i ≡ page i
  unfolding put_index_internal
  index_internal-Agree i h o = ground (
    arith,
    put4byte-Agree (index_header (put4byte (put4byte page (c - 4) cell.word0) (c - 8) cell.key) c)
        (c - 16) cell.word1 i,
    put4byte-Agree (put4byte page (c - 4) cell.word0) (c - 8) cell.key i,
    put4byte-Agree page (c - 4) cell.word0 i,
  )

  table_leaf-Agree :
      (i : ℕ)
      → cell.word0 + 8 ≤ c
      → (i < c - (cell.word0 + 8)) ⊎ (c ≤ i)
      → put_table_leaf page c cell i ≡ page i
  unfolding put_table_leaf
  table_leaf-Agree i h o =
      let moved = move page (c - cell.word0) cell.payload cell.word0 in
      ground (
        arith,
        put_varint32-Agree (put_varint32 moved (c - cell.word0 - 4) cell.key) (c - cell.word0 - 8)
            cell.word0 i,
        put_varint32-Agree moved (c - cell.word0 - 4) cell.key i,
      )

-- Writing a cell on top of the cell area changes no byte outside the cell.
pub write_cell-Agree :
    (page : Bytes) (c i : ℕ) (cell : BTreeCell)
    → cell_size cell.type cell.word0 ≤ c
    → (i < c - cell_size cell.type cell.word0) ⊎ (c ≤ i)
    → (write_cell page c cell).0 i ≡ page i
unfolding write_cell
write_cell-Agree page c i cell h o = ground (
  arith,
  table_internal-Agree page c cell i,
  index_internal-Agree page c cell i,
  table_leaf-Agree page c cell i,
  index_leaf-Agree page c cell i,
)

pub write_cell-offset :
    (page : Bytes) (c : ℕ) (cell : BTreeCell)
    → cell_size cell.type cell.word0 ≤ c
    → c < 2 ^ 16
    → (write_cell page c cell).1 ≡ c - cell_size cell.type cell.word0
unfolding write_cell
write_cell-offset page c cell h k = ground arith

-- Putting an entry into the offset array changes no byte before the entry or behind the array.
pub insert_offset-Agree :
    (page : Bytes) (array n_cells ncell offset i : ℕ)
    → ncell ≤ n_cells
    → (i < array + 2 * ncell) ⊎ (array + 2 * n_cells + 2 ≤ i)
    → insert_offset page array n_cells ncell offset i ≡ page i
unfolding insert_offset put2byte
insert_offset-Agree page array n_cells ncell offset i h o = ground arith

-- The offset array: the new entry, those before it, those after it, and all other bytes.
pub insert_offset_self :
    (page : Bytes) (array n_cells ncell offset : ℕ)
    → offset < 2 ^ 16
    → get2byte (insert_offset page array n_cells ncell offset) (array + ncell * 2) ≡ offset
unfolding insert_offset
insert_offset_self page array n_cells ncell offset h = ground (
  arith,
  get2byte-put2byte
      (move page (array + 2 * ncell + 2) (λ i. page (array + 2 * ncell + i))
        (shift_size n_cells ncell))
      (array + 2 * ncell) offset,
)

pub insert_offset_before :
    (page : Bytes) (array n_cells ncell offset j : ℕ)
    → ncell ≤ n_cells
    → j < ncell
    → get2byte (insert_offset page array n_cells ncell offset) (array + j * 2)
      ≡ get2byte page (array + j * 2)
unfolding insert_offset
insert_offset_before page array n_cells ncell offset j h lt =
    get2byte-Agree _ _ _
      (λ i lo hi. insert_offset-Agree page array n_cells ncell offset i h (inl (omega arith)))

pub insert_offset_after :
    (page : Bytes) (array n_cells ncell offset j : ℕ)
    → ncell ≤ j
    → j < n_cells
    → get2byte (insert_offset page array n_cells ncell offset) (array + (j + 1) * 2)
      ≡ get2byte page (array + j * 2)
unfolding insert_offset get2byte
insert_offset_after page array n_cells ncell offset j h lt = ground (arith, one, two)
  where
    one : insert_offset page array n_cells ncell offset (array + (j + 1) * 2) ≡ page (array + j * 2)
    one = unfold put2byte in ground arith

    two :
        insert_offset page array n_cells ncell offset (array + (j + 1) * 2 + 1)
        ≡ page (array + j * 2 + 1)
    two = unfold put2byte in ground arith
