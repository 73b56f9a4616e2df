-- ===== src/Db/Btree/Insert/Linked.antt =====
-- What chidb_Btree_insertNonFull does with a node in memory: the new pointer, the new cell and the write.
use chi.Prelude.{
  ℕ, zero, suc, ◌^◌, ◌≤◌, ◌<◌, ◌≡◌, refl, sym, ap, ◌∙◌, ◌⊎◌, inl, inr, true, subst, some, List, [],
  ◌∷◌, arith, length, tabulate,
}
use chi.Db.Codes.{chidb_ok}
use chi.Db.Run.{returns}
use chi.Db.Btree.{BTree, BTreeNode, is_internal, write_node}
use chi.Db.Btree.Cell.{BTreeCell, read_cell, get_cell, insert_cell, with_cell}
use chi.Db.Btree.Entry.{Entry, view, entry, blank, IsPgType}
use chi.Db.Btree.Layout.{IsLaidOut, entry_at, entries}
use chi.Db.Btree.Disk.{IsStored}
use chi.Db.Btree.Insert.{Slot, before, duplicate, last, stored, linked, insert_at_index}
use chi.Db.Btree.Insert.Sorted.{key_of, bump, slot_of}

pub key_of-entry_at :
    (btn : BTreeNode) (j : ℕ)
    → IsPgType btn.type
    → j < btn.n_cells
    → key_of (entry_at btn j) ≡ (get_cell btn j blank).1.key
unfolding get_cell entry read_cell
key_of-entry_at btn j k h = ground arith

pub key_of-view : (cell : BTreeCell) → IsPgType cell.type → key_of (view cell) ≡ cell.key
key_of-view cell k = ground arith

pub length-tabulate : {A : Type 0} → (n : ℕ) (f : ℕ → A) → length (tabulate n f) ≡ n
length-tabulate zero f = refl
length-tabulate (suc n) f = ap suc (length-tabulate n (λ i. f (suc i)))

abbrev pub index_in : ℕ → Slot → ℕ
index_in n (before j) = j
index_in n duplicate = 0
index_in n last = n

pub index_in-bump : (n : ℕ) (s : Slot) → index_in n s ≤ n → index_in (suc n) (bump s) ≤ suc n
index_in-bump n (before j) h = omega arith
index_in-bump n duplicate h = omega arith
index_in-bump n last h = omega arith

pub slot_of-index_in :
    (key : ℕ) (es : List Entry) → index_in (length es) (slot_of key es) ≤ length es
unfolding slot_of
slot_of-index_in key [] = omega arith
slot_of-index_in key (x ∷ xs) =
    ground (arith, slot_of-index_in key xs, index_in-bump (length xs) (slot_of key xs))

module _ (size : ℕ) (btn : BTreeNode) (right_child index : ℕ) where
  pub entries-linked : entries (linked btn right_child index) ≡ entries btn
  entries-linked = ground arith

  abbrev redirected : BTreeNode
  redirected = record btn { right_page = right_child }

  linked_cases :
      (linked btn right_child index ≡ btn)
      ⊎ (is_internal btn.type ≡ true) × (linked btn right_child index ≡ redirected)
  linked_cases = ground arith

  redirected-IsLaidOut : IsLaidOut size btn → IsLaidOut size redirected
  redirected-IsLaidOut v = record {
    known = v.known;
    array = v.array;
    free = v.free;
    room = v.room;
    top = v.top;
    small = v.small;
    cells = v.cells;
  }

  pub linked-IsLaidOut : IsLaidOut size btn → IsLaidOut size (linked btn right_child index)
  linked-IsLaidOut v = elim linked_cases [
    | inl e ↦ subst (IsLaidOut size) (sym e) v
    | inr (t, e) ↦ subst (IsLaidOut size) (sym e) (redirected-IsLaidOut v)
  ]

  pub linked-IsStored :
      right_child < 2 ^ 32 → IsStored btn → IsStored (linked btn right_child index)
  linked-IsStored h v = elim linked_cases [
    | inl e ↦ subst IsStored (sym e) v
    | inr (t, e) ↦
        subst IsStored (sym e) (record { numbered = h; leaf_right = λ f. ground (arith, t, f) })
  ]

  pub linked_kept :
      ((linked btn right_child index).mem ≡ btn.mem)
      × ((linked btn right_child index).type ≡ btn.type)
      × ((linked btn right_child index).n_cells ≡ btn.n_cells)
      × ((linked btn right_child index).free_offset ≡ btn.free_offset)
      × ((linked btn right_child index).cells_offset ≡ btn.cells_offset)
  linked_kept = elim linked_cases [
    | inl e ↦ rw e (refl, refl, refl, refl, refl)
    | inr (t, e) ↦ rw e (refl, refl, refl, refl, refl)
  ]

pub with_cell_kept :
    (btn : BTreeNode) (i : ℕ) (cell : BTreeCell)
    → ((with_cell btn i cell).mem.npage ≡ btn.mem.npage)
      × ((with_cell btn i cell).type ≡ btn.type)
      × ((with_cell btn i cell).right_page ≡ btn.right_page)
unfolding with_cell
with_cell_kept btn i cell = (refl, refl, refl)

pub with_cell-IsStored :
    (btn : BTreeNode) (i : ℕ) (cell : BTreeCell) → IsStored btn → IsStored (with_cell btn i cell)
unfolding with_cell
with_cell-IsStored btn i cell v = record { numbered = v.numbered; leaf_right = v.leaf_right }

pub insert_cell-with_cell :
    (btn : BTreeNode) (i : ℕ) (cell : BTreeCell)
    → cell.type ≡ btn.type
    → i ≤ btn.n_cells
    → insert_cell btn i cell ≡ some (chidb_ok, with_cell btn i cell)
unfolding insert_cell
insert_cell-with_cell btn i cell same le = ground arith

pub insert_at_index-write_node :
    (bt : BTree) (btn : BTreeNode) (cell : BTreeCell) (w : BTreeNode) (right_child index : ℕ)
    → insert_cell (linked btn right_child index) index cell ≡ some (chidb_ok, w)
    → (write_node bt w).0 ≡ chidb_ok
    → insert_at_index bt btn cell right_child index ≡ returns (chidb_ok, (write_node bt w).1)
unfolding insert_at_index
insert_at_index-write_node bt btn cell w right_child index e ok =
    ap (stored bt) e ∙ ground (arith, ok)
