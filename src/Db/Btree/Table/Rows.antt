-- ===== src/Db/Btree/Table/Rows.antt =====
-- The entries of a table's leaf in btree.c as rows, and an insertion among them.
use chi.Prelude.{
  ℕ, zero, suc, ◌≤◌, ◌<◌, ◌≡◌, ◌≢◌, refl, sym, ap, subst, ◌∙◌, inl, inr, ◌==◌, ltb, if◌then◌else◌,
  Bool, true, false, Bool-cases, Option, none, some, List, [], ◌∷◌, arith, tabulate, tabulate_eq,
}
use mathlib.Core.Option.{some-ne-none}
use mathlib.Core.Bool.{true≢false}
use chi.Db.Codes.{chidb_ok}
use chi.Db.Pager.{read_page}
use chi.Db.Btree.{BTree, BTreeNode, update_fields, node_of, get_node_by_page, pgtype_table_leaf}
use chi.Db.Btree.Cell.{get_cell, read_cell}
use chi.Db.Btree.Entry.{
  Entry, table_internal, index_internal, table_leaf, index_leaf, unknown, entry,
}
use chi.Db.Btree.Layout.{entry_at, entries}
use chi.Db.Btree.Disk.{IsStored}
use chi.Db.Btree.Find.{no_node}
use chi.Db.Btree.Insert.Sorted.{key_of, ahead, insert_entry}
use chi.Db.Btree.Tree.{Row, lookup_row, row_of, rows_of, node_at, Within}

-- The row that an entry of a leaf holds.
abbrev row_of_entry : Entry → Row
row_of_entry (table_leaf k v) = (k, v)
row_of_entry (table_internal k c) = (k, [])
row_of_entry (index_internal k p c) = (k, [])
row_of_entry (index_leaf k p) = (k, [])
row_of_entry unknown = (0, [])

abbrev pub rows_of_entries : List Entry → List Row
rows_of_entries [] = []
rows_of_entries (x ∷ xs) = row_of_entry x ∷ rows_of_entries xs

rows_of_entries-tabulate :
    (n : ℕ) (f : ℕ → Entry) → rows_of_entries (tabulate n f) ≡ tabulate n (λ i. row_of_entry (f i))
rows_of_entries-tabulate zero f = refl
rows_of_entries-tabulate (suc n) f =
    ap (λ r. row_of_entry (f 0) ∷ r) (rows_of_entries-tabulate n (λ i. f (suc i)))

row_of-entry :
    (btn : BTreeNode) (i : ℕ)
    → btn.type ≡ pgtype_table_leaf
    → i < btn.n_cells
    → row_of_entry (entry_at btn i) ≡ row_of btn i
unfolding get_cell entry read_cell
row_of-entry btn i e h = ground arith

pub rows_of-entries :
    (btn : BTreeNode) → btn.type ≡ pgtype_table_leaf → rows_of btn ≡ rows_of_entries (entries btn)
rows_of-entries btn e = sym (
    rows_of_entries-tabulate btn.n_cells (entry_at btn)
    ∙ tabulate_eq btn.n_cells _ _ (λ i h. row_of-entry btn i e h))

-- A page that is loaded has a number in use, and a leaf has no right page.
pub get_node-in_use :
    (bt : BTree) (n : ℕ)
    → (get_node_by_page bt n no_node).0 ≡ chidb_ok
    → (0 < n) × (n ≤ bt.pager.n_pages) × ((node_at bt n).mem.npage ≡ n)
unfolding get_node_by_page read_page node_of update_fields
get_node-in_use bt n e = ground arith

pub leaf-IsStored :
    (bt : BTree) (n : ℕ)
    → (get_node_by_page bt n no_node).0 ≡ chidb_ok
    → (node_at bt n).type ≡ pgtype_table_leaf
    → IsStored (node_at bt n)
unfolding get_node_by_page read_page node_of update_fields
leaf-IsStored bt n e t =
    let z : (node_at bt n).right_page ≡ 0 = ground arith in
    record { numbered = omega (arith, z); leaf_right = λ i. z }

abbrev IfSome : (List Entry → Type 0) → Option (List Entry) → Type 0
IfSome P none = Unit
IfSome P (some es) = P es

IfSome-ahead :
    (P Q : List Entry → Type 0) (x : Entry) (o : Option (List Entry))
    → ((es : List Entry) → P es → Q (x ∷ es))
    → IfSome P o
    → IfSome Q (ahead x o)
IfSome-ahead P Q x none f p = tt
IfSome-ahead P Q x (some es) f p = f es p

pub IfSome-at :
    (P : List Entry → Type 0) (o : Option (List Entry)) (es : List Entry)
    → o ≡ some es
    → IfSome P o
    → P es
IfSome-at P o es e p = subst (IfSome P) e p

row_key : (x : Entry) → (row_of_entry x).0 ≡ key_of x
row_key (table_leaf k v) = refl
row_key (table_internal k c) = refl
row_key (index_internal k p c) = refl
row_key (index_leaf k p) = refl
row_key unknown = refl

-- Putting an entry in keeps what holds of the entry in front, and what is kept behind an entry with
-- another key.
insert_entry-IfSome :
    (e : Entry) (P : List Entry → List Entry → Type 0)
    → ((es : List Entry) → P es (e ∷ es))
    → ((x : Entry) (es es' : List Entry) → key_of e ≢ key_of x → P es es' → P (x ∷ es) (x ∷ es'))
    → (es : List Entry) → IfSome (P es) (insert_entry e es)
unfolding insert_entry
insert_entry-IfSome e P front behind [] = front []
insert_entry-IfSome e P front behind (x ∷ xs) =
    let rest = insert_entry-IfSome e P front behind xs in
    elim (Bool-cases (ltb (key_of e) (key_of x))) [
      | inl t ↦ rw t (front (x ∷ xs))
      | inr f ↦ elim (Bool-cases (key_of e == key_of x)) [
        | inl t ↦ rw (f, t) tt
        | inr f' ↦
            rw (f, f')
              (IfSome-ahead (P xs) (P (x ∷ xs)) x (insert_entry e xs)
                (λ es'. behind x xs es' (ground (arith, f'))) rest)
      ]
    ]

module _ (k : ℕ) (v : List ℕ) (j : ℕ) where
  -- Looking a key up, once the row has been put in.
  abbrev pub Finds : List Entry → List Entry → Type 0
  Finds es es' =
      lookup_row j (rows_of_entries es')
      ≡ (if k == j then some v else lookup_row j (rows_of_entries es))

  Finds-ahead :
      (x : Entry) (es es' : List Entry) → (k ≢ key_of x) → Finds es es' → Finds (x ∷ es) (x ∷ es')
  unfolding lookup_row
  Finds-ahead x es es' ne h = ground (arith, row_key x, h)

  pub insert_entry-Finds : (es : List Entry) → IfSome (Finds es) (insert_entry (table_leaf k v) es)
  unfolding lookup_row
  insert_entry-Finds = insert_entry-IfSome (table_leaf k v) Finds (λ es. refl) Finds-ahead

unfoldable pub Keeps : ℕ → ℕ → List Entry → List Entry → Type 0
Keeps lo hi es es' = Within lo hi (rows_of_entries es) → Within lo hi (rows_of_entries es')

pub insert_entry-Within :
    (k : ℕ) (v : List ℕ) (lo hi : ℕ)
    → lo ≤ k
    → k < hi
    → (es : List Entry) → IfSome (Keeps lo hi es) (insert_entry (table_leaf k v) es)
unfolding Keeps
insert_entry-Within k v lo hi a b =
    insert_entry-IfSome (table_leaf k v) (Keeps lo hi) (λ es w. (a, b, w))
      (λ x es es' ne keep w. (w.0, w.1, keep w.2))

refused :
    (b c : Bool) (a : List Entry) (x : Entry) (o : Option (List Entry))
    → c ≡ false
    → (if b then some a else if c then none else ahead x o) ≡ none
    → o ≡ none
refused true c a x o f h = absurd (some-ne-none a h)
refused false true a x o f h = absurd (true≢false f)
refused false false a x none f h = refl
refused false false a x (some es) f h = absurd (some-ne-none (x ∷ es) h)

refused_behind :
    (e x : Entry) (xs : List Entry)
    → key_of x == key_of e ≡ false
    → insert_entry e (x ∷ xs) ≡ none
    → insert_entry e xs ≡ none
unfolding insert_entry
refused_behind e x xs f h =
    refused (ltb (key_of e) (key_of x)) (key_of e == key_of x) (e ∷ x ∷ xs) x (insert_entry e xs)
      (ground (arith, f)) h

-- The insertion refuses a key only where the key is there.
pub insert_entry-present :
    (e : Entry) (es : List Entry)
    → insert_entry e es ≡ none
    → (w : List ℕ) × (lookup_row (key_of e) (rows_of_entries es) ≡ some w)
unfolding insert_entry lookup_row
insert_entry-present e [] h = absurd (some-ne-none _ h)
insert_entry-present e (x ∷ xs) h = elim (Bool-cases (key_of x == key_of e)) [
  | inl t ↦ ((row_of_entry x).1, rw (row_key x, t) refl)
  | inr f ↦
      let first : (row_of_entry x).0 == key_of e ≡ false = rw (row_key x) f in
      rw first (insert_entry-present e xs (refused_behind e x xs f h))
]
