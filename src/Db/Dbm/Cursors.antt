-- ===== src/Db/Dbm/Cursors.antt =====
-- db/src/libchidb/dbm-cursor.c.
use chi.Prelude.{ℕ, Bool, true, false, ◌==◌, ◌||◌, not, if◌then◌else◌, Option, none, some}
use chi.Db.Codes.{Code, chidb_ok}
use chi.Db.Run.{Run, returns, aborted, undefined, ◌>>=◌}
use chi.Db.File.{File}
use chi.Db.Btree.{BTree, is_internal, get_node_by_page}
use chi.Db.Btree.Find.{no_node}
use chi.Db.Btree.Open.{open_btree}
use chi.Db.Dbm.{Cursor}

-- The code of the opening is not looked at; where it fails the tree is never set.
unfoldable pub init_cursor : Cursor → File → ℕ → Run (Code × Cursor)
init_cursor cursor disk root =
    if root == 1
    then (open_btree disk >>= λ opened. returns (chidb_ok, record cursor { bt = opened.1 }))
    else aborted

-- The path is empty, and then `free` is given a pointer into the array of cursors.
unfoldable pub free_cursor : Cursor → Run (Code × Cursor)
free_cursor cursor = undefined

-- The path is a local copy whose tail is null, so that the first step down, and the end at a leaf
-- with cells, write through a null pointer.
abbrev pub rewind_tree : Option BTree → Run Bool
rewind_tree none = undefined
rewind_tree (some bt) =
    let (rc, btn) = get_node_by_page bt 1 no_node in
    if not (rc == chidb_ok) || is_internal btn.type
    then undefined
    else if btn.n_cells == 0
    then returns false
    else undefined

unfoldable pub rewind_cursor : Cursor → Run Bool
rewind_cursor cursor = rewind_tree cursor.bt

-- The head of the path is null.
unfoldable pub next_cursor : Cursor → Run Bool
next_cursor cursor = aborted

unfoldable pub prev_cursor : Cursor → Bool
prev_cursor cursor = true
