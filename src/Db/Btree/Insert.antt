-- ===== src/Db/Btree/Insert.antt =====
-- `chidb_Btree_insert` of db/src/libchidb/btree.c: what it calls on the way to a leaf and in one.
pub mod Sorted
pub mod Linked
pub mod Leaf
pub mod Room
use chi.Prelude.{
  ℕ, ◌%◌, zero, suc, ◌+◌, ◌-◌, ◌/◌, ◌^◌, Bool, true, false, ◌||◌, ◌&&◌, not, ◌==◌, ltb, leb,
  if◌then◌else◌, Option, none, some, List, [], ◌∷◌,
}
use chi.Db.Memory.{Bytes, zeros}
use chi.Db.Codes.{Code, chidb_ok, chidb_eduplicate}
use chi.Db.Run.{Run, returns, aborted, undefined, out_of_fuel, ◌>>=◌}
use chi.Db.Pager.{Pager, allocate_page}
use chi.Db.Btree.{
  BTree, BTreeNode, is_internal, pgtype_table_internal, pgtype_table_leaf, pgtype_index_internal,
  pgtype_index_leaf, create_node, get_node_by_page, write_node,
}
use chi.Db.Btree.Cell.{BTreeCell, get_cell, insert_cell}
use chi.Db.Btree.Entry.{blank}
use chi.Db.Btree.Find.{no_node}

-- `cells_offset - free_offset`, an `int`, as a `size_t`
abbrev pub bytes_available : BTreeNode → ℕ
bytes_available btn =
    if leb btn.free_offset btn.cells_offset
    then btn.cells_offset - btn.free_offset
    else 2 ^ 64 - (btn.free_offset - btn.cells_offset)

-- The fourth test of the code repeats the second, so a cell of an internal index node needs two
-- bytes by this count.
abbrev pub bytes_needed : BTreeCell → ℕ
bytes_needed btc =
    2
    + (if btc.type == pgtype_table_leaf
        then (8 + btc.word0) % 2 ^ 32
        else if btc.type == pgtype_table_internal
        then 8
        else if btc.type == pgtype_index_leaf
        then 16
        else if btc.type == pgtype_table_internal
        then 12
        else 0)

unfoldable pub is_insertable : BTreeNode → BTreeCell → Bool
is_insertable btn btc = leb (bytes_needed btc) (bytes_available btn)

-- Where a key goes among the cells from index `i` on: before the first greater one.
pub data Slot : Type 0 where
  before : ℕ → Slot
  duplicate last : Slot

unfoldable pub slot_loop : ℕ → ℕ → BTreeNode → ℕ → Slot
slot_loop zero i btn key = last
slot_loop (suc rounds) i btn key =
    let (rc, btc) = get_cell btn i blank in
    let rest = slot_loop rounds (i + 1) btn key in
    if ltb key btc.key then before i else if key == btc.key then duplicate else rest

-- What follows the insertion into the node in memory.
abbrev pub stored : BTree → Option (Code × BTreeNode) → Run (Code × BTree)
stored bt none = aborted
stored bt (some (result, btn)) =
    if result == chidb_ok
    then (let (rc, bt', synced) = write_node bt btn in returns (rc, bt'))
    else returns (result, bt)

-- The node that takes the cell. In an internal node the right page is set where the cell goes last.
-- Elsewhere the code sets the child page of a copy of the next cell, which changes nothing.
abbrev pub linked : BTreeNode → ℕ → ℕ → BTreeNode
linked btn right_child index =
    if is_internal btn.type && index == btn.n_cells
    then record btn { right_page = right_child }
    else btn

unfoldable pub insert_at_index : BTree → BTreeNode → BTreeCell → ℕ → ℕ → Run (Code × BTree)
insert_at_index bt btn to_insert right_child index =
    stored bt (insert_cell (linked btn right_child index) index to_insert)

abbrev pub insert_at_slot : BTree → BTreeNode → BTreeCell → ℕ → Slot → Run (Code × BTree)
insert_at_slot bt btn to_insert right_child (before index) =
    insert_at_index bt btn to_insert right_child index
insert_at_slot bt btn to_insert right_child duplicate = returns (chidb_eduplicate, bt)
insert_at_slot bt btn to_insert right_child last =
    insert_at_index bt btn to_insert right_child btn.n_cells

unfoldable pub insert_non_full : BTree → BTreeNode → BTreeCell → ℕ → Run (Code × BTree)
insert_non_full bt btn to_insert right_child =
    insert_at_slot bt btn to_insert right_child (slot_loop btn.n_cells 0 btn to_insert.key)

-- The child that the way down takes. In an index an equal key ends it.
pub data Way : Type 0 where
  child : ℕ → Way
  present rightmost : Way

unfoldable pub way_loop : ℕ → ℕ → BTreeNode → ℕ → Way
way_loop zero i btn key = rightmost
way_loop (suc rounds) i btn key =
    let (rc, btc) = get_cell btn i blank in
    let rest = way_loop rounds (i + 1) btn key in
    if btn.type == pgtype_table_internal
    then (if leb key btc.key then child btc.word0 else rest)
    else if key == btc.key
    then present
    else if ltb key btc.key
    then child btc.word1
    else rest

-- A node in memory, with the address of its struct and the address that `path.tail->val` holds.
-- Every list node of the path is the same variable `current`, so that it is its own `prev`.
pub record Place : Type 0 where
  pub btn : BTreeNode
  pub pointer : ℕ
  pub tail_val : ℕ

-- Loading the page, or the right page where that fails and leaves the pointer null.
abbrev pub load_or_right : BTree → BTreeNode → ℕ → Run BTreeNode
load_or_right bt btn npage =
    let (rc, next) = get_node_by_page bt npage no_node in
    let (rc', right) = get_node_by_page bt btn.right_page no_node in
    if rc == chidb_ok then returns next else if rc' == chidb_ok then returns right else undefined

-- `none` is the return of CHIDB_EDUPLICATE.
unfoldable pub walk : ℕ → BTree → Place → ℕ → Run (Option Place)
walk zero bt place key = out_of_fuel
walk (suc fuel) bt place key =
    let btn = place.btn in
    let go = λ (npage : ℕ). load_or_right bt btn npage >>= λ next.
    walk fuel bt (record { btn = next; pointer = place.pointer + 1; tail_val = place.pointer + 1 })
      key in
    if btn.type == pgtype_table_leaf || btn.type == pgtype_index_leaf
    then returns (some place)
    else elim (way_loop btn.n_cells 0 btn key) [
      | child npage ↦ go npage
      | present ↦ returns none
      | rightmost ↦ go btn.right_page
    ]
