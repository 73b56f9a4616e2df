-- ===== src/Db/Btree/Split.antt =====
-- `chidb_Btree_insert` of db/src/libchidb/btree.c: the split of a full node, and the whole call.
use chi.Prelude.{
  ℕ, zero, suc, ◌+◌, ◌-◌, ◌/◌, ◌^◌, Bool, false, ◌||◌, ◌&&◌, not, ◌==◌, ltb, if◌then◌else◌, none,
  some, List, [], ◌∷◌, get_elem?, take, drop,
}
use chi.Db.Memory.{Bytes, zeros}
use chi.Db.Codes.{Code, chidb_ok, chidb_eduplicate}
use chi.Db.Run.{Run, returns, aborted, undefined, ◌>>=◌}
use chi.Db.Pager.{allocate_page}
use chi.Db.Btree.{
  BTree, BTreeNode, is_internal, pgtype_table_internal, pgtype_table_leaf, pgtype_index_internal,
  pgtype_index_leaf, create_node, get_node_by_page, write_node,
}
use chi.Db.Btree.Cell.{BTreeCell, get_cell, insert_cell}
use chi.Db.Btree.Entry.{blank}
use chi.Db.Btree.Find.{no_node}
use chi.Db.Btree.Insert.{Place, walk, is_insertable, insert_non_full}

-- The `npage_t` that stands for no right page.
abbrev pub no_page : ℕ
no_page = 2 ^ 32 - 1

-- The cells from index `i` on, with the new cell before the first greater one, or last.
unfoldable pub overfull_loop : ℕ → ℕ → BTreeNode → BTreeCell → Bool → ℕ → List BTreeCell
overfull_loop zero i btn to_insert inserted prev_right = if inserted then [] else to_insert ∷ []
overfull_loop (suc rounds) i btn to_insert inserted prev_right =
    let (rc, btc) = get_cell btn i blank in
    let here = ltb to_insert.key btc.key && not inserted in
    let rest = overfull_loop rounds (i + 1) btn to_insert (inserted || here) prev_right in
    if here
    then to_insert
      ∷ (if prev_right == no_page then btc else record btc { word0 = prev_right })
      ∷ rest
    else btc ∷ rest

-- `chidb_Btree_insertCell` at the indices from `i` on. The codes are not looked at.
unfoldable pub insert_cells : BTreeNode → ℕ → List BTreeCell → Run BTreeNode
insert_cells btn i [] = returns btn
insert_cells btn i (cell ∷ cells) = elim (insert_cell btn i cell) [
  | none ↦ aborted
  | some (rc, btn') ↦ insert_cells btn' (i + 1) cells
]

-- The cell for the parent, whose child is the left node.
abbrev pub parent_cell : ℕ → BTreeCell → ℕ → BTreeCell
parent_cell type median left_npage =
    if type == pgtype_table_leaf || type == pgtype_table_internal
    then record {
      type = pgtype_table_internal;
      key = median.key;
      word0 = left_npage;
      word1 = 0;
      payload = zeros;
    }
    else record {
      type = pgtype_index_internal;
      key = median.key;
      word0 = median.word0;
      word1 = left_npage;
      payload = zeros;
    }

-- The right pages of the two nodes, where they are internal.
abbrev pub link_left : BTreeNode → BTreeCell → BTreeNode
link_left left median =
    if left.type == pgtype_table_internal
    then record left { right_page = median.word0 }
    else if left.type == pgtype_index_internal
    then record left { right_page = median.word1 }
    else left

abbrev pub link_right : BTreeNode → BTreeNode → BTreeNode
link_right right left =
    if is_internal right.type then record right { right_page = left.right_page } else right

abbrev pub root_type : ℕ → ℕ
root_type type =
    if type == pgtype_table_leaf || type == pgtype_table_internal
    then pgtype_table_internal
    else pgtype_index_internal

-- One round of the loop that splits: the new pages are numbered, filled and written, and at the root
-- the page of the node is made their parent. Elsewhere the code goes on with a node it has freed.
unfoldable pub split_node : BTree → Place → BTreeCell → ℕ → Run (Code × BTree)
split_node bt place to_insert prev_right =
    let btn = place.btn in
    let is_root = place.tail_val == place.pointer in
    let median_index = btn.n_cells / 2 in
    let overfull = overfull_loop btn.n_cells 0 btn to_insert false prev_right in
    let (allocated, pager1) = allocate_page bt.pager in
    let left_npage = if is_root then allocated else btn.mem.npage in
    let bt1 : BTree = if is_root then record { pager = pager1 } else bt in
    let (right_npage, pager2) = allocate_page bt1.pager in
    let bt2 : BTree = record { pager = pager2 } in
    let with_median = if btn.type == pgtype_table_leaf then median_index + 1 else median_index in
    elim (get_elem? overfull median_index) [
      | none ↦ undefined
      | some median ↦ do
        left ← insert_cells (create_node bt1 left_npage btn.type) 0 (take with_median overfull)
        right ←
            insert_cells (create_node bt2 right_npage btn.type) 0 (drop (median_index + 1) overfull)
        (let (rc1, bt3, l) = write_node bt2 (link_left left median) in
            let (rc2, bt4, r) = write_node bt3 (link_right right left) in
            if is_root
            then insert_non_full bt4 (create_node bt4 btn.mem.npage (root_type btn.type))
                (parent_cell btn.type median left_npage) right_npage
            else undefined)
    ]

unfoldable pub insert : ℕ → BTree → ℕ → BTreeCell → Run (Code × BTree)
insert fuel bt nroot to_insert =
    let (rc, btn) = get_node_by_page bt nroot no_node in
    if rc == chidb_ok
    then (walk fuel bt (record { btn = btn; pointer = 0; tail_val = 0 }) to_insert.key >>= λ found.
        elim found [
          | none ↦ returns (chidb_eduplicate, bt)
          | some place ↦
              if is_insertable place.btn to_insert
              then insert_non_full bt place.btn to_insert no_page
              else split_node bt place to_insert no_page
        ])
    else undefined

-- `size` is a `uint16_t`.
unfoldable pub insert_in_table : ℕ → BTree → ℕ → ℕ → Bytes → ℕ → Run (Code × BTree)
insert_in_table fuel bt nroot key bytes size =
    insert fuel bt nroot
      (record { type = pgtype_table_leaf; key = key; word0 = size; word1 = 0; payload = bytes })

unfoldable pub insert_in_index : ℕ → BTree → ℕ → ℕ → ℕ → Run (Code × BTree)
insert_in_index fuel bt nroot key_idx key_pk =
    insert fuel bt nroot (record {
      type = pgtype_index_leaf;
      key = key_idx;
      word0 = key_pk;
      word1 = 0;
      payload = zeros;
    })
