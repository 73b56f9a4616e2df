-- ===== src/Db/Btree/Find.antt =====
-- `chidb_Btree_find` of db/src/libchidb/btree.c.
use chi.Prelude.{ℕ, zero, suc, ◌+◌, ◌%◌, ◌^◌, ◌==◌, leb, if◌then◌else◌}
use chi.Db.Memory.{Bytes, zeros}
use chi.Db.Codes.{Code, chidb_ok, chidb_enotfound}
use chi.Db.Btree.{BTree, BTreeNode, get_node_by_page, pgtype_table_internal, pgtype_table_leaf}
use chi.Db.Btree.Cell.{get_cell}
use chi.Db.Btree.Entry.{blank}

-- What a call leaves in its out parameters and returns. `undefined` is the use of a node that could
-- not be read, and `out_of_fuel` is no result of the code.
pub data Outcome : Type 0 where
  found : ℕ → Bytes → Outcome
  code : Code → Outcome
  undefined out_of_fuel : Outcome

abbrev pub no_node : BTreeNode
no_node = record {
  mem = record { npage = 0; page = zeros };
  type = 0;
  free_offset = 0;
  n_cells = 0;
  cells_offset = 0;
  right_page = 0;
  celloffset_array = 0;
}

-- The loops go on with `rounds` cells from index `i`.
unfoldable pub leaf_loop : ℕ → ℕ → BTreeNode → ℕ → Outcome
leaf_loop zero i btn key = code chidb_enotfound
leaf_loop (suc rounds) i btn key =
    let (rc, btc) = get_cell btn i blank in
    let rest = leaf_loop rounds (i + 1) btn key in
    if btc.key == key then found (btc.word0 % 2 ^ 16) btc.payload else rest

-- The page in which the search goes on.
unfoldable pub child_loop : ℕ → ℕ → BTreeNode → ℕ → ℕ
child_loop zero i btn key = btn.right_page
child_loop (suc rounds) i btn key =
    let (rc, btc) = get_cell btn i blank in
    let rest = child_loop rounds (i + 1) btn key in if leb key btc.key then btc.word0 else rest

unfoldable pub find : ℕ → BTree → ℕ → ℕ → Outcome
find zero bt nroot key = out_of_fuel
find (suc fuel) bt nroot key =
    let (rc, btn) = get_node_by_page bt nroot no_node in
    let deeper = find fuel bt (child_loop btn.n_cells 0 btn key) key in
    if rc == chidb_ok
    then if btn.type == pgtype_table_leaf
      then leaf_loop btn.n_cells 0 btn key
      else if btn.type == pgtype_table_internal
      then deeper
      else code chidb_enotfound
    else undefined
