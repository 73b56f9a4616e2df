-- ===== src/Db/Btree/Tree/Lookup.antt =====
-- `chidb_Btree_find` of btree.c is the lookup among the rows of a search tree.
use chi.Prelude.{
  ℕ, zero, suc, ◌+◌, ◌%◌, ◌^◌, ◌≤◌, ◌<◌, ◌≡◌, refl, subst, ap, ◌∙◌, inl, inr, ◌==◌, leb,
  if◌then◌else◌, List, arith, Option, none, some, tabulate, Bool-cases, eq→==, ne→==,
}
use native.Mathlib.Nat.{mod-eq_of_lt, add-zero}
use chi.Db.Codes.{chidb_ok, chidb_enotfound}
use chi.Db.Btree.{BTree, BTreeNode, get_node_by_page, pgtype_table_internal, pgtype_table_leaf}
use chi.Db.Btree.Cell.{get_cell}
use chi.Db.Btree.Entry.{bytes_of}
use chi.Db.Btree.Layout.{IsLaidOut}
use chi.Db.Btree.Find.{
  Outcome, found, code, undefined, out_of_fuel, no_node, leaf_loop, child_loop, find,
}
use chi.Db.Btree.Tree.{
  Row, lookup_row, cell_of, row_of, rows_of, link_of, links_of, join, node_at, rows_below, Within,
  IsSearchTree,
}
use chi.Db.Btree.Tree.Rows.{child_for, join-Within, join-descend}

-- The answer of a call: a value, or that there is none. A call that goes wrong has no answer.
abbrev pub answer : Outcome → Option (Option (List ℕ))
answer (found size bytes) = some (some (bytes_of size bytes))
answer (code c) = if c == chidb_enotfound then some none else none
answer undefined = none
answer out_of_fuel = none

shift_index : (i j : ℕ) → i + suc j ≡ i + 1 + j
shift_index i j = omega arith

-- The loop over the cells of a leaf, from index `i` on.
leaf_loop-lookup :
    (rounds i : ℕ) (btn : BTreeNode) (key : ℕ) (f : ℕ → Row)
    → ((j : ℕ) → f j ≡ row_of btn (i + j))
    → ((j : ℕ) → j < rounds → (cell_of btn (i + j)).word0 < 2 ^ 16)
    → answer (leaf_loop rounds i btn key) ≡ some (lookup_row key (tabulate rounds f))
unfolding leaf_loop lookup_row
leaf_loop-lookup zero i btn key f e short = refl
leaf_loop-lookup (suc rounds) i btn key f e short =
    let cell = cell_of btn i in
    let first : f 0 ≡ row_of btn i = e 0 ∙ ap (row_of btn) (omega arith) in
    let fits : cell.word0 % 2 ^ 16 ≡ cell.word0 =
      mod-eq_of_lt
        (subst (λ (k : ℕ). (cell_of btn k).word0 < 2 ^ 16) (add-zero i) (short 0 (omega arith))) in
    let rest =
      leaf_loop-lookup rounds (i + 1) btn key (λ j. f (suc j))
        (λ j. e (suc j) ∙ ap (row_of btn) (omega arith))
        (λ j h.
          subst (λ (k : ℕ). (cell_of btn k).word0 < 2 ^ 16) (shift_index i j)
            (short (suc j) (omega arith))) in
    rw first (elim (Bool-cases (cell.key == key)) [
      | inl same ↦ rw (same, fits)
      | inr other ↦ rw other rest
    ])

child_loop-child_for :
    (rounds i : ℕ) (btn : BTreeNode) (key : ℕ) (f : ℕ → ℕ × ℕ)
    → ((j : ℕ) → f j ≡ ((cell_of btn (i + j)).key, (cell_of btn (i + j)).word0))
    → child_loop rounds i btn key ≡ child_for key (tabulate rounds f) btn.right_page
unfolding child_loop child_for
child_loop-child_for zero i btn key f e = refl
child_loop-child_for (suc rounds) i btn key f e =
    let link : ℕ → ℕ × ℕ = λ k. ((cell_of btn k).key, (cell_of btn k).word0) in
    let first : f 0 ≡ link i = e 0 ∙ ap link (omega arith) in
    rw first (
      ap (λ (p : ℕ). if leb key (cell_of btn i).key then (cell_of btn i).word0 else p)
        (child_loop-child_for rounds (i + 1) btn key (λ j. f (suc j))
          (λ j. e (suc j) ∙ ap link (omega arith))))

-- In a leaf that is laid out the size of a payload has 16 bits.
leaf_short :
    (size : ℕ) (btn : BTreeNode) (j : ℕ)
    → IsLaidOut size btn
    → btn.type ≡ pgtype_table_leaf
    → j < btn.n_cells
    → (cell_of btn j).word0 < 2 ^ 16
unfolding get_cell
leaf_short size btn j v e h = ground (arith, v.cells j h)

module _ (d : ℕ) (bt : BTree) (n : ℕ) where
  pub rows_below_leaf :
      (node_at bt n).type ≡ pgtype_table_leaf → rows_below (suc d) bt n ≡ rows_of (node_at bt n)
  unfolding rows_below
  rows_below_leaf e = rw (eq→== _ _ e)

  rows_below_inner :
      (node_at bt n).type ≡ pgtype_table_internal
      → rows_below (suc d) bt n
        ≡ join (rows_below d bt) (links_of (node_at bt n)) (node_at bt n).right_page
  unfolding rows_below
  rows_below_inner e = rw (ne→== (node_at bt n).type pgtype_table_leaf (omega arith))

  find_leaf :
      (key : ℕ)
      → (get_node_by_page bt n no_node).0 ≡ chidb_ok
      → (node_at bt n).type ≡ pgtype_table_leaf
      → find (suc d) bt n key ≡ leaf_loop (node_at bt n).n_cells 0 (node_at bt n) key
  unfolding find
  find_leaf key r e = rw (eq→== _ _ r, eq→== _ _ e)

  find_inner :
      (key : ℕ)
      → (get_node_by_page bt n no_node).0 ≡ chidb_ok
      → (node_at bt n).type ≡ pgtype_table_internal
      → find (suc d) bt n key
        ≡ find d bt (child_loop (node_at bt n).n_cells 0 (node_at bt n) key) key
  unfolding find
  find_inner key r e =
      rw (eq→== _ _ r, ne→== (node_at bt n).type pgtype_table_leaf (omega arith), eq→== _ _ e)

rows_below-Within :
    (d : ℕ) (bt : BTree) (n lo hi : ℕ)
    → lo ≤ hi
    → IsSearchTree d bt n lo hi
    → Within lo hi (rows_below d bt n)
rows_below-Within zero bt n lo hi le t = absurd t
rows_below-Within (suc d) bt n lo hi le (read, v, inl (leaf, w)) =
    rw (rows_below_leaf d bt n leaf) w
rows_below-Within (suc d) bt n lo hi le (read, v, inr (inner, l)) =
    rw (rows_below_inner d bt n inner) (
      join-Within (IsSearchTree d bt) (rows_below d bt) (rows_below-Within d bt)
        (links_of (node_at bt n)) (node_at bt n).right_page lo hi le l)

-- In a search tree, with fuel for its depth, the search answers every key in the range of the tree
-- by its value among the rows, or by its absence.
pub find_lem :
    (d : ℕ) (bt : BTree) (nroot lo hi key : ℕ)
    → IsSearchTree d bt nroot lo hi
    → lo ≤ key
    → key < hi
    → answer (find d bt nroot key) ≡ some (lookup_row key (rows_below d bt nroot))
find_lem zero bt n lo hi key t a b = absurd t
find_lem (suc d) bt n lo hi key (read, v, inl (leaf, w)) a b =
    rw (find_leaf d bt n key read leaf, rows_below_leaf d bt n leaf)
      (leaf_loop-lookup (node_at bt n).n_cells 0 (node_at bt n) key (row_of (node_at bt n))
        (λ j. ap (row_of (node_at bt n)) (omega arith))
        (λ j h. leaf_short bt.pager.page_size (node_at bt n) (0 + j) v leaf (omega arith)))
find_lem (suc d) bt n lo hi key (read, v, inr (inner, l)) a b =
    let node = node_at bt n in
    let goes : child_loop node.n_cells 0 node key ≡ child_for key (links_of node) node.right_page =
      child_loop-child_for node.n_cells 0 node key (link_of node)
        (λ j. ap (link_of node) (omega arith)) in
    let (lo', hi', a', b', below, e) =
      join-descend (IsSearchTree d bt) (rows_below d bt) (rows_below-Within d bt) key
        (links_of node) node.right_page lo hi a b l in
    rw (find_inner d bt n key read inner, rows_below_inner d bt n inner, goes, e)
      (find_lem d bt (child_for key (links_of node) node.right_page) lo' hi' key below a' b')
