-- ===== src/Db/Btree/Tree.antt =====
-- A tree of pages, as btree.h describes it: its rows from left to right, and what makes it a search
-- tree. `chidb_Btree_find` is the lookup among the rows (`Lookup`).
pub mod Rows
pub mod Lookup
use chi.Prelude.{
  ℕ, zero, suc, ◌+◌, ◌-◌, ◌*◌, ◌%◌, ◌^◌, ◌≤◌, ◌<◌, ◌≡◌, refl, sym, subst, ap, ap₂, ◌∙◌, ◌⊎◌, inl,
  inr, ◌==◌, leb, if◌then◌else◌, List, [], ◌∷◌, ◌++◌, arith, Option, none, some, tabulate,
  get_elem?,
}
use chi.Db.Memory.{Bytes}
use chi.Db.Codes.{chidb_ok, chidb_enotfound}
use chi.Db.Btree.{
  BTree, BTreeNode, data_of, get_node_by_page, pgtype_table_internal, pgtype_table_leaf,
}
use chi.Db.Btree.Cell.{BTreeCell, get_cell, read_cell, cell_at}
use chi.Db.Btree.Entry.{blank, bytes_of}
use chi.Db.Btree.Layout.{IsLaidOut}
use chi.Db.Btree.Find.{
  Outcome, found, code, undefined, out_of_fuel, no_node, leaf_loop, child_loop, find,
}

-- A row of a table: its key and its bytes.
abbrev pub Row : Type 0
Row = ℕ × List ℕ

unfoldable pub lookup_row : ℕ → List Row → Option (List ℕ)
lookup_row key [] = none
lookup_row key ((k, v) ∷ rows) = if k == key then some v else lookup_row key rows

abbrev pub cell_of : BTreeNode → ℕ → BTreeCell
cell_of btn i = (get_cell btn i blank).1

abbrev pub row_of : BTreeNode → ℕ → Row
row_of btn i = ((cell_of btn i).key, bytes_of (cell_of btn i).word0 (cell_of btn i).payload)

abbrev pub rows_of : BTreeNode → List Row
rows_of btn = tabulate btn.n_cells (row_of btn)

-- The key and the child page of each cell of an internal node.
abbrev pub link_of : BTreeNode → ℕ → ℕ × ℕ
link_of btn i = ((cell_of btn i).key, (cell_of btn i).word0)

abbrev pub links_of : BTreeNode → List (ℕ × ℕ)
links_of btn = tabulate btn.n_cells (link_of btn)

unfoldable pub join : (ℕ → List Row) → List (ℕ × ℕ) → ℕ → List Row
join rows [] right = rows right
join rows ((k, child) ∷ links) right = rows child ++ join rows links right

abbrev pub node_at : BTree → ℕ → BTreeNode
node_at bt n = (get_node_by_page bt n no_node).1

-- The rows below a page, from left to right, down to a depth.
unfoldable pub rows_below : ℕ → BTree → ℕ → List Row
rows_below zero bt n = []
rows_below (suc d) bt n =
    let inner = join (rows_below d bt) (links_of (node_at bt n)) (node_at bt n).right_page in
    if (node_at bt n).type == pgtype_table_leaf then rows_of (node_at bt n) else inner

-- The keys of a run of rows lie in [lo, hi).
abbrev pub Within : ℕ → ℕ → List Row → Type 0
Within lo hi [] = Unit
Within lo hi ((k, v) ∷ rows) = (lo ≤ k) × (k < hi) × Within lo hi rows

-- The children of an internal node, from left to right: the child of a cell has the keys from `lo`
-- up to the key of the cell, that key included, and the rest goes on behind it.
abbrev pub Linked : (ℕ → ℕ → ℕ → Type 0) → List (ℕ × ℕ) → ℕ → ℕ → ℕ → Type 0
Linked Below [] right lo hi = Below right lo hi
Linked Below ((k, child) ∷ links) right lo hi =
    Below child lo (k + 1) × (lo ≤ k + 1) × (k < hi) × Linked Below links right (k + 1) hi

-- A page is the root of a search tree of depth at most `d` with keys in [lo, hi).
abbrev pub IsSearchTree : ℕ → BTree → ℕ → ℕ → ℕ → Type 0
IsSearchTree zero bt n lo hi = ⊥
IsSearchTree (suc d) bt n lo hi =
    ((get_node_by_page bt n no_node).0 ≡ chidb_ok)
    × IsLaidOut bt.pager.page_size (node_at bt n)
    × (((node_at bt n).type ≡ pgtype_table_leaf) × Within lo hi (rows_of (node_at bt n))
        ⊎ ((node_at bt n).type ≡ pgtype_table_internal)
          × Linked (IsSearchTree d bt) (links_of (node_at bt n)) (node_at bt n).right_page lo hi)
