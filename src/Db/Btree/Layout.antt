-- ===== src/Db/Btree/Layout.antt =====
-- A node of btree.c as a list of entries: `chidb_Btree_insertCell` inserts into that list.
use chi.Prelude.{
  ℕ, suc, ◌+◌, ◌-◌, ◌*◌, ◌^◌, ◌≤◌, ◌<◌, ◌≡◌, refl, sym, ap, ◌∙◌, ◌⊎◌, inl, inr, if◌then◌else◌, List,
  arith, none, some, get_elem?, tabulate, insert_at, shift_cases, tabulate-insert_at,
  get_elem?-tabulate, get_elem?-tabulate-none, ltb, false,
}
use native.Mathlib.Decide.{dec_lt, ℕ_discrete}
use chi.Db.Util.{get2byte}
use chi.Db.Util.Words.{get2byte-Agree}
use chi.Db.Util.Varint.{get_varint32-Agree}
use chi.Db.Codes.{chidb_ok, chidb_ecellno}
use chi.Db.Btree.{BTreeNode, data_of, is_internal, header_offset}
use chi.Db.Btree.Cell.{BTreeCell, cell_at, write_cell, with_cell, insert_cell, get_cell}
use chi.Db.Btree.Frame.{
  cell_size, write_cell-Agree, write_cell-offset, insert_offset_self, insert_offset_before,
  insert_offset_after, insert_offset-Agree,
}
use chi.Db.Btree.Entry.{Entry, view, entry, size_at, IsPgType, entry-Agree, view-read_cell}
use chi.Db.Btree.Written.{Fits, write_cell_back}

-- The offset array follows the header, the cell area ends the page, and each cell lies in it.
pub record IsLaidOut (size : ℕ) (btn : BTreeNode) : Type 0 where
  pub known : IsPgType btn.type
  pub array :
      btn.celloffset_array ≡ header_offset btn.mem.npage + (if is_internal btn.type then 12 else 8)
  pub free : btn.free_offset ≡ btn.celloffset_array + 2 * btn.n_cells
  pub room : btn.free_offset ≤ btn.cells_offset
  pub top : btn.cells_offset ≤ size
  pub small : size < 2 ^ 16
  pub cells :
      (j : ℕ)
      → j < btn.n_cells
      → (btn.cells_offset ≤ cell_at btn j)
        × (cell_at btn j + size_at btn.type (data_of btn) (cell_at btn j) ≤ size)

abbrev pub entry_at : BTreeNode → ℕ → Entry
entry_at btn j = entry btn.type (data_of btn) (cell_at btn j)

-- The entries of a node, in the order of its offset array.
abbrev pub entries : BTreeNode → List Entry
entries btn = tabulate btn.n_cells (entry_at btn)

-- The node has the bytes that one more cell, and its offset, take.
abbrev pub HasRoom : BTreeNode → BTreeCell → Type 0
HasRoom btn cell = btn.free_offset + 2 + cell_size cell.type cell.word0 ≤ btn.cells_offset

module _ (size : ℕ) (btn : BTreeNode) (i : ℕ) (cell : BTreeCell) (v : IsLaidOut size btn)
    (f : Fits cell) (same : cell.type ≡ btn.type) (le : i ≤ btn.n_cells)
    (room : HasRoom btn cell) where
  abbrev btn' : BTreeNode
  btn' = with_cell btn i cell

  -- Where the new cell begins.
  abbrev o : ℕ
  o = btn.cells_offset - cell_size cell.type cell.word0

  cells_offset-with_cell : btn'.cells_offset ≡ o
  unfolding with_cell
  cells_offset-with_cell =
      write_cell-offset (data_of btn) btn.cells_offset cell (omega arith) (omega arith)

  n_cells-with_cell : btn'.n_cells ≡ btn.n_cells + 1
  unfolding with_cell
  n_cells-with_cell = omega arith

  -- The offset array is not in the bytes of the new cell.
  offset_kept :
      (j : ℕ)
      → j < btn.n_cells
      → get2byte (write_cell (data_of btn) btn.cells_offset cell).0 (btn.celloffset_array + j * 2)
        ≡ cell_at btn j
  offset_kept j h = get2byte-Agree _ _ _ (λ k l u.
      write_cell-Agree (data_of btn) btn.cells_offset k cell (omega arith) (inl (omega arith)))

  cell_at_self : cell_at btn' i ≡ o
  unfolding with_cell
  cell_at_self =
      let off = write_cell-offset (data_of btn) btn.cells_offset cell (omega arith) (omega arith) in
      insert_offset_self (write_cell (data_of btn) btn.cells_offset cell).0 btn.celloffset_array
        btn.n_cells i (write_cell (data_of btn) btn.cells_offset cell).1 (omega arith)
      ∙ off

  cell_at_before : (j : ℕ) → j < i → cell_at btn' j ≡ cell_at btn j
  unfolding with_cell
  cell_at_before j lt =
      insert_offset_before (write_cell (data_of btn) btn.cells_offset cell).0 btn.celloffset_array
        btn.n_cells i (write_cell (data_of btn) btn.cells_offset cell).1 j le lt
      ∙ offset_kept j (omega arith)

  cell_at_after : (j : ℕ) → i ≤ j → j < btn.n_cells → cell_at btn' (j + 1) ≡ cell_at btn j
  unfolding with_cell
  cell_at_after j lo hi =
      insert_offset_after (write_cell (data_of btn) btn.cells_offset cell).0 btn.celloffset_array
        btn.n_cells i (write_cell (data_of btn) btn.cells_offset cell).1 j lo hi
      ∙ offset_kept j hi

  -- No byte of the old cells is changed.
  kept : (k : ℕ) → btn.cells_offset ≤ k → data_of btn' k ≡ data_of btn k
  unfolding with_cell
  kept k h = ground (
    arith,
    insert_offset-Agree (write_cell (data_of btn) btn.cells_offset cell).0 btn.celloffset_array
        btn.n_cells i (write_cell (data_of btn) btn.cells_offset cell).1 k le,
    write_cell-Agree (data_of btn) btn.cells_offset k cell,
  )

  -- The bytes of the new cell are not in the offset array.
  written_kept :
      (k : ℕ) → o ≤ k → (write_cell (data_of btn) btn.cells_offset cell).0 k ≡ data_of btn' k
  unfolding with_cell
  written_kept k h = sym (
      insert_offset-Agree (write_cell (data_of btn) btn.cells_offset cell).0 btn.celloffset_array
        btn.n_cells i (write_cell (data_of btn) btn.cells_offset cell).1 k le (inr (omega arith)))

  type-with_cell : btn'.type ≡ btn.type
  unfolding with_cell
  type-with_cell = refl

  entry_self : entry_at btn' i ≡ view cell
  entry_self =
      let (back, sized) = write_cell_back (data_of btn) btn.cells_offset cell f (omega arith) in
      let page = (write_cell (data_of btn) btn.cells_offset cell).0 in
      ap (λ (a : ℕ). entry btn'.type (data_of btn') a) cell_at_self
      ∙ ap (λ (t : ℕ). entry t (data_of btn') o) (type-with_cell ∙ sym same)
      ∙ sym (entry-Agree cell.type page (data_of btn') o f.known (λ k l u. written_kept k l))
      ∙ back

  size_self : size_at btn'.type (data_of btn') o ≡ cell_size cell.type cell.word0
  size_self =
      let (back, sized) = write_cell_back (data_of btn) btn.cells_offset cell f (omega arith) in
      ap (λ (t : ℕ). size_at t (data_of btn') o) (type-with_cell ∙ sym same)
      ∙ sym (
          ap (cell_size cell.type)
            (get_varint32-Agree _ (data_of btn') o (λ k l u. written_kept k l)))
      ∙ sized

  -- An old cell says what it said, wherever its offset stands now.
  entry_old :
      (j k : ℕ)
      → j < btn.n_cells
      → cell_at btn' k ≡ cell_at btn j
      → entry_at btn' k ≡ entry_at btn j
  entry_old j k h e =
      ap (λ (a : ℕ). entry btn'.type (data_of btn') a) e
      ∙ ap (λ (t : ℕ). entry t (data_of btn') (cell_at btn j)) type-with_cell
      ∙ sym (
          entry-Agree btn.type (data_of btn) (data_of btn') (cell_at btn j) v.known
            (λ b l u. sym (kept b (omega (arith, v.cells j h)))))

  fits_old :
      (j k : ℕ)
      → j < btn.n_cells
      → cell_at btn' k ≡ cell_at btn j
      → (btn'.cells_offset ≤ cell_at btn' k)
        × (cell_at btn' k + size_at btn'.type (data_of btn') (cell_at btn' k) ≤ size)
  fits_old j k h e =
      let sizes : size_at btn'.type (data_of btn') (cell_at btn' k)
          ≡ size_at btn.type (data_of btn) (cell_at btn j) =
        ap (λ (a : ℕ). size_at btn'.type (data_of btn') a) e
        ∙ ap (λ (t : ℕ). size_at t (data_of btn') (cell_at btn j)) type-with_cell
        ∙ sym (
            ap (cell_size btn.type) (
              get_varint32-Agree (data_of btn) (data_of btn') (cell_at btn j)
                (λ b l u. sym (kept b (omega (arith, v.cells j h)))))) in
      omega (arith, v.cells j h, sizes, e, cells_offset-with_cell)

  fits_self :
      (btn'.cells_offset ≤ cell_at btn' i)
      × (cell_at btn' i + size_at btn'.type (data_of btn') (cell_at btn' i) ≤ size)
  fits_self =
      let sizes : size_at btn'.type (data_of btn') (cell_at btn' i)
          ≡ cell_size cell.type cell.word0 =
        ap (λ (a : ℕ). size_at btn'.type (data_of btn') a) cell_at_self ∙ size_self in
      omega (arith, sizes, cell_at_self, cells_offset-with_cell)

  -- An offset that stands behind the new one.
  cell_at_shifted : (j : ℕ) → i ≤ j → j < btn.n_cells → cell_at btn' (suc j) ≡ cell_at btn j
  cell_at_shifted j lo hi = let e : j + 1 ≡ suc j = omega arith in rw (← e) (cell_at_after j lo hi)

  pub with_cell-IsLaidOut : IsLaidOut size btn'
  unfolding with_cell
  with_cell-IsLaidOut = record {
    known = v.known;
    array = v.array;
    free = omega arith;
    room = omega (arith, cells_offset-with_cell);
    top = omega (arith, cells_offset-with_cell);
    small = v.small;
    cells = λ j h.
        shift_cases i btn.n_cells
          (λ k.
            (btn'.cells_offset ≤ cell_at btn' k)
            × (cell_at btn' k + size_at btn'.type (data_of btn') (cell_at btn' k) ≤ size))
          (λ k lt. fits_old k k (omega arith) (cell_at_before k lt)) fits_self
          (λ k lo hi. fits_old k (suc k) hi (cell_at_shifted k lo hi)) j (omega arith);
  }

  pub entries-with_cell : entries btn' ≡ insert_at i (view cell) (entries btn)
  entries-with_cell =
      let count : btn'.n_cells ≡ suc btn.n_cells = omega (arith, n_cells-with_cell) in
      ap (λ (n : ℕ). tabulate n (entry_at btn')) count
      ∙ tabulate-insert_at i btn.n_cells (entry_at btn) (entry_at btn') le
          (λ j lt. entry_old j j (omega arith) (cell_at_before j lt))
          (λ j lo hi. entry_old j (suc j) hi (cell_at_shifted j lo hi))
      ∙ ap (λ (x : Entry). insert_at i x (entries btn)) entry_self

-- Into a node that is laid out and has room, a cell of its type that fits goes at any index up to
-- the number of cells: the call succeeds, the node stays laid out, and its entries are the old ones
-- with the cell's put in at that index.
pub insert_cell_lem :
    (size : ℕ) (btn : BTreeNode) (ncell : ℕ) (cell : BTreeCell)
    → IsLaidOut size btn
    → Fits cell
    → cell.type ≡ btn.type
    → ncell ≤ btn.n_cells
    → HasRoom btn cell
    → (btn' : BTreeNode) × (insert_cell btn ncell cell ≡ some (chidb_ok, btn'))
      × IsLaidOut size btn'
      × (entries btn' ≡ insert_at ncell (view cell) (entries btn))
unfolding insert_cell
insert_cell_lem size btn ncell cell v f same le room = (
  with_cell btn ncell cell,
  ground arith,
  with_cell-IsLaidOut size btn ncell cell v f same le room,
  entries-with_cell size btn ncell cell v f same le room,
)

ltb_not : (a b : ℕ) → b ≤ a → ltb a b ≡ false
ltb_not a b h = ground arith

-- Reading a cell below the number of cells succeeds, with the entry at that index of the list; an
-- index past the number is refused and leaves the out parameter alone.
pub get_cell_lem :
    (btn : BTreeNode) (ncell : ℕ) (out : BTreeCell)
    → let (rc, cell) = get_cell btn ncell out in
      ((ncell < btn.n_cells) × (rc ≡ chidb_ok) × (some (view cell) ≡ get_elem? (entries btn) ncell))
      ⊎ ((ncell ≡ btn.n_cells) × (rc ≡ chidb_ok) × (get_elem? (entries btn) ncell ≡ none))
      ⊎ ((btn.n_cells < ncell) × (rc ≡ chidb_ecellno) × (cell ≡ out))
unfolding get_cell
get_cell_lem btn ncell out = elim (dec_lt ncell btn.n_cells) [
  | yes h ↦ inl (
    h,
    ground arith,
    rw (ltb_not btn.n_cells ncell (omega arith)) (
        ap some (view-read_cell btn.type (data_of btn) (cell_at btn ncell) out)
        ∙ sym (get_elem?-tabulate btn.n_cells (entry_at btn) ncell h)),
  )
  | no h ↦ elim (ℕ_discrete ncell btn.n_cells) [
    | yes e ↦ inr (
        inl
          (e, ground arith, get_elem?-tabulate-none btn.n_cells (entry_at btn) ncell (omega arith)))
    | no ne ↦ inr (inr (omega arith, ground arith, ground arith))
  ]
]
