-- ===== src/Db/Btree/Insert/Sorted.antt =====
-- Where `chidb_Btree_insertNonFull` of btree.c puts a key among the entries of a node.
use chi.Prelude.{
  ℕ, zero, suc, ◌+◌, ◌<◌, ◌≡◌, refl, subst, ap, ◌∙◌, ◌==◌, ltb, if◌then◌else◌, Option, none, some,
  List, [], ◌∷◌, length, arith, tabulate, insert_at,
}
use chi.Db.Btree.{BTreeNode}
use chi.Db.Btree.Cell.{get_cell}
use chi.Db.Btree.Entry.{
  Entry, table_internal, index_internal, table_leaf, index_leaf, unknown, blank,
}
use chi.Db.Btree.Insert.{Slot, before, duplicate, last, slot_loop}

abbrev pub key_of : Entry → ℕ
key_of (table_internal k c) = k
key_of (index_internal k p c) = k
key_of (table_leaf k v) = k
key_of (index_leaf k p) = k
key_of unknown = 0

abbrev pub ahead : Entry → Option (List Entry) → Option (List Entry)
ahead x none = none
ahead x (some xs) = some (x ∷ xs)

-- An entry put before the first with a greater key; `none` where one with its key comes first.
unfoldable pub insert_entry : Entry → List Entry → Option (List Entry)
insert_entry e [] = some (e ∷ [])
insert_entry e (x ∷ xs) =
    if ltb (key_of e) (key_of x)
    then some (e ∷ x ∷ xs)
    else if key_of e == key_of x
    then none
    else ahead x (insert_entry e xs)

-- The slot among a list of entries.
abbrev pub bump : Slot → Slot
bump (before j) = before (suc j)
bump duplicate = duplicate
bump last = last

unfoldable pub slot_of : ℕ → List Entry → Slot
slot_of key [] = last
slot_of key (x ∷ xs) =
    if ltb key (key_of x)
    then before 0
    else if key == key_of x
    then duplicate
    else bump (slot_of key xs)

abbrev pub from : ℕ → Slot → Slot
from i (before j) = before (i + j)
from i duplicate = duplicate
from i last = last

-- What the slot makes of the entries.
abbrev pub placed : Entry → List Entry → Slot → Option (List Entry)
placed e es (before j) = some (insert_at j e es)
placed e es duplicate = none
placed e es last = some (insert_at (length es) e es)

ahead-placed :
    (e x : Entry) (xs : List Entry) (s : Slot)
    → ahead x (placed e xs s) ≡ placed e (x ∷ xs) (bump s)
ahead-placed e x xs (before j) = refl
ahead-placed e x xs duplicate = refl
ahead-placed e x xs last = refl

pub placed-slot_of :
    (e : Entry) (es : List Entry) → insert_entry e es ≡ placed e es (slot_of (key_of e) es)
unfolding insert_entry slot_of
placed-slot_of e [] = refl
placed-slot_of e (x ∷ xs) =
    ground (arith, placed-slot_of e xs, ahead-placed e x xs (slot_of (key_of e) xs))

from-bump : (i : ℕ) (s : Slot) → from (i + 1) s ≡ from i (bump s)
from-bump i (before j) = ap before (omega arith)
from-bump i duplicate = refl
from-bump i last = refl

pub from-zero : (s : Slot) → from 0 s ≡ s
from-zero (before j) = ap before (omega arith)
from-zero duplicate = refl
from-zero last = refl

pub slot_loop-slot_of :
    (rounds i : ℕ) (btn : BTreeNode) (key : ℕ) (f : ℕ → Entry)
    → ((j : ℕ) → j < rounds → key_of (f j) ≡ (get_cell btn (i + j) blank).1.key)
    → slot_loop rounds i btn key ≡ from i (slot_of key (tabulate rounds f))
unfolding slot_loop slot_of
slot_loop-slot_of zero i btn key f e = refl
slot_loop-slot_of (suc rounds) i btn key f e =
    let zero_here : i + 0 ≡ i = omega arith in
    let here : key_of (f 0) ≡ (get_cell btn i blank).1.key =
      subst (λ k. key_of (f 0) ≡ (get_cell btn k blank).1.key) zero_here (e 0 (omega arith)) in
    let there : slot_loop rounds (i + 1) btn key
        ≡ from i (bump (slot_of key (tabulate rounds (λ j. f (suc j))))) =
      slot_loop-slot_of rounds (i + 1) btn key (λ j. f (suc j))
        (λ j h.
          let next : i + suc j ≡ i + 1 + j = omega arith in
          subst (λ k. key_of (f (suc j)) ≡ (get_cell btn k blank).1.key) next
            (e (suc j) (omega arith)))
      ∙ from-bump i (slot_of key (tabulate rounds (λ j. f (suc j)))) in
    rw (← here, there) ground arith
