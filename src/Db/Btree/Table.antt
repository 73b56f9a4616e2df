-- ===== src/Db/Btree/Table.antt =====
-- A table in one leaf: `chidb_Btree_insertInTable` and `chidb_Btree_find` of btree.c together.
pub mod Rows
use chi.Prelude.{
  ℕ, zero, ◌≢◌, ap₂, ltb, Bool, false, Bool-cases, Option-cases, Option, none, ne→==, tabulate,
  tabulate_eq,
}
use mathlib.Core.Option.{some-ne-none}
use mathlib.Core.Bool.{true≢false}
use chi.Db.Memory.{Bytes, zeros}
use chi.Db.Codes.{Code}
use chi.Db.Run.{Run}
use chi.Db.Pager.{MemPage, read_page}
use chi.Db.Pager.Pages
use chi.Db.Btree.{BTree, BTreeNode, update_fields, node_of, pgtype_table_leaf}
use chi.Db.Btree.Cell.{BTreeCell, get_cell, read_cell}
use chi.Db.Btree.Entry.{Entry, table_internal, index_internal, index_leaf, unknown, entry, blank}
use chi.Db.Btree.Layout.{entry_at}
use chi.Db.Btree.Disk.{IsStored}
use chi.Db.Btree.Insert.{Place}
use chi.Db.Btree.Insert.Sorted.{key_of, ahead}
use chi.Db.Btree.Insert.Leaf.{Stores}
use chi.Db.Btree.Tree.{Row, cell_of, row_of, node_at, IsSearchTree}

abbrev row_cell : ℕ → Bytes → ℕ → BTreeCell
row_cell key bytes size = record {
  type = pgtype_table_leaf;
  key = key;
  word0 = size;
  word1 = 0;
  payload = bytes;
}

module _ (bt : BTree) (nroot lo hi : ℕ) (t : IsSearchTree 1 bt nroot lo hi) where
  abbrev leaf : BTreeNode
  leaf = node_at bt nroot
