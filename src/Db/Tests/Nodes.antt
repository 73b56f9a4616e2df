-- ===== src/Db/Tests/Nodes.antt =====
-- A leaf of a table with no rows, in page 2 of a file of two pages, and a row for it.
use chi.Prelude.{◌+◌, ◌<◌, ◌≡◌, ◌⊎◌, inl, inr, refl, arith, [], none, some, insert_at, get_elem?}
use chi.Db.Codes.{chidb_ok, chidb_ecellno}
use chi.Db.Btree.{
  BTree, BTreeNode, create_node, get_node_by_page, write_node, new_node, pgtype_table_leaf,
}
use chi.Db.Btree.Cell.{BTreeCell, get_cell, insert_cell}
use chi.Db.Btree.Entry.{Entry, view, blank}
use chi.Db.Btree.Written.{Fits}
use chi.Db.Btree.Layout.{IsLaidOut, entries, HasRoom, insert_cell_lem, get_cell_lem}
use chi.Db.Btree.Disk.{IsStored, write_node_lem}
use chi.Db.Btree.Fresh.{create_node-IsLaidOut, create_node-IsStored, new_node_lem}
use chi.Prelude.{◌+◌}
use chi.Db.Btree.Find.{no_node}
use chi.Db.Tests.Paging.{pager, pager-IsValid}

abbrev bt : BTree
bt = record { pager = pager }

abbrev leaf : BTreeNode
leaf = create_node bt 2 pgtype_table_leaf

abbrev row : BTreeCell
row = record { type = pgtype_table_leaf; key = 7; word0 = 3; word1 = 0; payload = λ i. i + 1 }

row-Fits : Fits row
row-Fits = record {
  known = inr (inr (inl refl));
  key_fits = omega arith;
  word0_fits = omega arith;
  word1_fits = omega arith;
}

leaf-IsLaidOut : IsLaidOut 128 leaf
leaf-IsLaidOut =
    create_node-IsLaidOut bt 2 pgtype_table_leaf (inr (inr (inl refl))) (omega arith) (omega arith)

leaf-IsStored : IsStored leaf
leaf-IsStored = create_node-IsStored bt 2 pgtype_table_leaf

leaf-HasRoom : HasRoom leaf row
unfolding create_node
leaf-HasRoom = ground arith

leaf_type : row.type ≡ leaf.type
unfolding create_node
leaf_type = refl

leaf_page : leaf.mem.npage ≡ 2
unfolding create_node
leaf_page = refl

insert_cell_lem_example :
    (btn' : BTreeNode) × (insert_cell leaf 0 row ≡ some (chidb_ok, btn'))
    × IsLaidOut 128 btn'
    × (entries btn' ≡ insert_at 0 (view row) (entries leaf))
insert_cell_lem_example =
    insert_cell_lem 128 leaf 0 row leaf-IsLaidOut row-Fits leaf_type (omega arith) leaf-HasRoom

get_cell_lem_example :
    let (rc, cell) = get_cell leaf 4 blank in
    ((4 < leaf.n_cells) × (rc ≡ chidb_ok) × (some (view cell) ≡ get_elem? (entries leaf) 4))
    ⊎ ((4 ≡ leaf.n_cells) × (rc ≡ chidb_ok) × (get_elem? (entries leaf) 4 ≡ none))
    ⊎ ((leaf.n_cells < 4) × (rc ≡ chidb_ecellno) × (cell ≡ blank))
get_cell_lem_example = get_cell_lem leaf 4 blank

write_node_lem_example :
    let (rc, bt', synced) = write_node bt leaf in
    let (loaded, btn') = get_node_by_page bt' leaf.mem.npage no_node in
    (rc ≡ chidb_ok)
    × (loaded ≡ chidb_ok)
    × IsLaidOut 128 btn'
    × (btn'.type ≡ leaf.type)
    × (btn'.right_page ≡ leaf.right_page)
    × (entries btn' ≡ entries leaf)
write_node_lem_example =
    write_node_lem bt leaf no_node pager-IsValid leaf-IsLaidOut leaf-IsStored
      (omega (arith, leaf_page)) (omega (arith, leaf_page)) (omega (arith, leaf_page))

new_node_lem_example :
    let (rc, npage, bt') = new_node bt pgtype_table_leaf in
    let (loaded, btn) = get_node_by_page bt' npage no_node in
    (rc ≡ chidb_ok)
    × (npage ≡ 3)
    × (loaded ≡ chidb_ok)
    × IsLaidOut 128 btn
    × (btn.type ≡ pgtype_table_leaf)
    × (entries btn ≡ [])
    × (get_node_by_page bt' 1 no_node ≡ get_node_by_page bt 1 no_node)
new_node_lem_example =
    new_node_lem bt pgtype_table_leaf 1 no_node pager-IsValid (inr (inr (inl refl))) (omega arith)
      (omega arith) (omega arith) (omega arith) (omega arith) (omega arith)
