-- ===== src/Db/Btree/Cell.antt =====
-- `chidb_Btree_getCell` and `chidb_Btree_insertCell` of db/src/libchidb/btree.c.
use chi.Prelude.{ℕ, ◌+◌, ◌-◌, ◌*◌, ◌%◌, ◌^◌, ◌==◌, ltb, leb, not, if◌then◌else◌, Option, none, some}
use chi.Db.Memory.{Bytes, poke, move}
use chi.Db.Util.{get2byte, put2byte, get4byte, put4byte, get_varint32, put_varint32}
use chi.Db.Codes.{Code, chidb_ok, chidb_ecellno}
use chi.Db.Btree.{
  BTreeNode, data_of, with_data, pgtype_table_internal, pgtype_table_leaf, pgtype_index_internal,
  pgtype_index_leaf,
}

-- The union `fields` is its first two 32-bit words, and the bytes that its pointer reaches:
--   tableInternal.child_page, tableLeaf.data_size, indexInternal.keyPk, indexLeaf.keyPk  word0
--   indexInternal.child_page                                                          word1
--   tableLeaf.data                                                                    payload
pub record BTreeCell : Type 0 where
  pub type : ℕ
  pub key : ℕ
  pub word0 : ℕ
  pub word1 : ℕ
  pub payload : Bytes

-- `btn->page->data + get2byte(btn->celloffset_array + ncell * 2)`
abbrev pub cell_at : BTreeNode → ℕ → ℕ
cell_at btn ncell = get2byte (data_of btn) (btn.celloffset_array + ncell * 2)

-- The cell at index `o` of a page of that type. `out` is what the out parameter held before.
unfoldable pub read_cell : ℕ → Bytes → ℕ → BTreeCell → BTreeCell
read_cell type page o out =
    if type == pgtype_table_internal
    then record out { type = type; key = get_varint32 page (o + 4); word0 = get4byte page o }
    else if type == pgtype_index_internal
    then record out {
      type = type;
      key = get4byte page (o + 8);
      word0 = get4byte page (o + 12);
      word1 = get4byte page o;
    }
    else if type == pgtype_table_leaf
    then record out {
      type = type;
      key = get_varint32 page (o + 4);
      word0 = get_varint32 page o;
      payload = λ i. page (o + 8 + i);
    }
    else if type == pgtype_index_leaf
    then record out { type = type; key = get4byte page (o + 4); word0 = get4byte page (o + 8) }
    else record out { type = type; key = 0 }

unfoldable pub get_cell : BTreeNode → ℕ → BTreeCell → Code × BTreeCell
unfolding read_cell
get_cell btn ncell out =
    if ltb btn.n_cells ncell
    then (chidb_ecellno, out)
    else (chidb_ok, read_cell btn.type (data_of btn) (cell_at btn ncell) out)

-- `btn->cells_offset -= n`, in 16 bits
abbrev pub sub16 : ℕ → ℕ → ℕ
sub16 a n = (a + 2 ^ 16 - n % 2 ^ 16) % 2 ^ 16

-- The record header of an index entry.
abbrev pub index_header : Bytes → ℕ → Bytes
index_header page c =
    poke (poke (poke (poke page (c - 9) 0x04) (c - 10) 0x04) (c - 11) 0x03) (c - 12) 0x0b

-- The page with the cell on top of the cell area that begins at `c`, for each type of page.
unfoldable pub put_table_internal : Bytes → ℕ → BTreeCell → Bytes
put_table_internal page c cell = put4byte (put_varint32 page (c - 4) cell.key) (c - 8) cell.word0

unfoldable pub put_index_internal : Bytes → ℕ → BTreeCell → Bytes
put_index_internal page c cell =
    put4byte (index_header (put4byte (put4byte page (c - 4) cell.word0) (c - 8) cell.key) c)
      (c - 16) cell.word1

unfoldable pub put_table_leaf : Bytes → ℕ → BTreeCell → Bytes
put_table_leaf page c cell =
    let data_size = cell.word0 in
    put_varint32
      (put_varint32 (move page (c - data_size) cell.payload data_size) (c - data_size - 4) cell.key)
      (c - data_size - 8) data_size

unfoldable pub put_index_leaf : Bytes → ℕ → BTreeCell → Bytes
put_index_leaf page c cell =
    index_header (put4byte (put4byte page (c - 4) cell.word0) (c - 8) cell.key) c

-- The page with the cell, and the new beginning of the cell area.
unfoldable pub write_cell : Bytes → ℕ → BTreeCell → Bytes × ℕ
write_cell page c cell =
    if cell.type == pgtype_table_internal
    then (put_table_internal page c cell, sub16 c 8)
    else if cell.type == pgtype_index_internal
    then (put_index_internal page c cell, sub16 c 16)
    else if cell.type == pgtype_table_leaf
    then (put_table_leaf page c cell, sub16 c (cell.word0 + 8))
    else if cell.type == pgtype_index_leaf
    then (put_index_leaf page c cell, sub16 c 12)
    else (page, c)

-- `(btn->n_cells - ncell) * 2`, as a `size_t`
abbrev pub shift_size : ℕ → ℕ → ℕ
shift_size n_cells ncell =
    if leb ncell n_cells then (n_cells - ncell) * 2 else 2 ^ 64 - (ncell - n_cells) * 2

-- The cell offset array with `offset` put in at index `ncell`.
unfoldable pub insert_offset : Bytes → ℕ → ℕ → ℕ → ℕ → Bytes
insert_offset page array n_cells ncell offset =
    let new_cell_offset = array + 2 * ncell in
    put2byte
      (move page (new_cell_offset + 2) (λ i. page (new_cell_offset + i)) (shift_size n_cells ncell))
      new_cell_offset offset

-- The node with the cell written, its offset put in, and the counters moved.
unfoldable pub with_cell : BTreeNode → ℕ → BTreeCell → BTreeNode
with_cell btn ncell cell =
    let (page, offset) = write_cell (data_of btn) btn.cells_offset cell in
    record (with_data btn (insert_offset page btn.celloffset_array btn.n_cells ncell offset)) {
      cells_offset = offset;
      n_cells = (btn.n_cells + 1) % 2 ^ 16;
      free_offset = (btn.free_offset + 2) % 2 ^ 16;
    }

-- `none` is the failed assertion, which ends the process.
unfoldable pub insert_cell : BTreeNode → ℕ → BTreeCell → Option (Code × BTreeNode)
insert_cell btn ncell cell =
    if not (cell.type == btn.type)
    then none
    else if ltb (btn.n_cells + 1) ncell
    then some (chidb_ecellno, btn)
    else some (chidb_ok, with_cell btn ncell cell)
