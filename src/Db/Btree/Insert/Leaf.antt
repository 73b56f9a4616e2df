-- ===== src/Db/Btree/Insert/Leaf.antt =====
-- `chidb_Btree_insertNonFull` of btree.c as an insertion into the entries of a node on disk.
use chi.Prelude.{ℕ, ◌*◌, ◌^◌, ◌≤◌, ◌<◌, ◌≡◌, ◌⊎◌, List}
use chi.Db.Codes.{Code, chidb_ok}
use chi.Db.Run.{Run, returns}
use chi.Db.Pager.Pages
use chi.Db.Btree.{BTree, BTreeNode, get_node_by_page}
use chi.Db.Btree.Cell.{BTreeCell}
use chi.Db.Btree.Entry.{Entry}
use chi.Db.Btree.Written.{Fits}
use chi.Db.Btree.Layout.{IsLaidOut, entries, HasRoom}
use chi.Db.Btree.Disk.{IsStored}

-- A call that succeeds and leaves these entries on disk in a page, and another page `m` as it was.
abbrev pub Stores : BTree → BTreeNode → List Entry → ℕ → BTreeNode → Run (Code × BTree) → Type 0
Stores bt btn es m out run =
    (bt' : BTree) × (run ≡ returns (chidb_ok, bt'))
    × Pages.IsValid bt'.pager
    × ((get_node_by_page bt' btn.mem.npage out).0 ≡ chidb_ok)
    × IsLaidOut bt'.pager.page_size (get_node_by_page bt' btn.mem.npage out).1
    × ((get_node_by_page bt' btn.mem.npage out).1.type ≡ btn.type)
    × (entries (get_node_by_page bt' btn.mem.npage out).1 ≡ es)
    × ((m ≡ btn.mem.npage) ⊎ (get_node_by_page bt' m out ≡ get_node_by_page bt m out))

module _ (bt : BTree) (btn : BTreeNode) (cell : BTreeCell) (right_child m : ℕ) (out : BTreeNode)
    (pv : Pages.IsValid bt.pager) (v : IsLaidOut bt.pager.page_size btn) (st : IsStored btn)
    (f : Fits cell) (same : cell.type ≡ btn.type) (room : HasRoom btn cell)
    (word : right_child < 2 ^ 32) (lo : 0 < btn.mem.npage) (hi : btn.mem.npage ≤ bt.pager.n_pages)
    (device : btn.mem.npage * bt.pager.page_size ≤ bt.pager.f.limit) (mlo : 0 < m)
    (mhi : m ≤ bt.pager.n_pages) where
  abbrev Done : List Entry → Run (Code × BTree) → Type 0
  Done es run = Stores bt btn es m out run
