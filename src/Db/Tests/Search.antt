-- ===== src/Db/Tests/Search.antt =====
-- A table of two rows in a tree of three pages of 32 bytes, pages 2 to 4.
use chi.Prelude.{
  ℕ, zero, suc, ◌-◌, ◌<◌, ltb, if◌then◌else◌, ◌≡◌, refl, subst, inl, inr, List, [], ◌∷◌, some,
  arith,
}
use chi.Db.Memory.{Bytes}
use chi.Db.Util.{get2byte, get4byte, get_varint32}
use chi.Db.File.{fread}
use chi.Db.Pager.{read_page}
use chi.Db.Btree.{BTree, update_fields, node_of, get_node_by_page}
use chi.Db.Btree.Cell.{get_cell, read_cell}
use chi.Db.Btree.Layout.{IsLaidOut}
use chi.Db.Btree.Find.{find, leaf_loop, child_loop}
use chi.Db.Btree.Tree.{lookup_row, node_at, rows_below, IsSearchTree}
use chi.Db.Pager.Pages
use chi.Db.Btree.Tree.Lookup.{answer, find_lem}

abbrev byte_at : List ℕ → Bytes
byte_at [] i = 0
byte_at (b ∷ bs) zero = b
byte_at (b ∷ bs) (suc i) = byte_at bs i

abbrev bytes : List ℕ
bytes =
    0x05 ∷ 0 ∷ 14 ∷ 0 ∷ 1 ∷ 0 ∷ 24 ∷ 0 ∷ 0 ∷ 0 ∷ 0 ∷ 4 ∷ 0 ∷ 24 ∷ 0 ∷ 0 ∷ 0 ∷ 0 ∷ 0 ∷ 0 ∷ 0 ∷ 0 ∷ 0
    ∷ 0 ∷ 0 ∷ 0 ∷ 0 ∷ 3 ∷ 128 ∷ 128 ∷ 128 ∷ 5 ∷ 0x0d ∷ 0 ∷ 10 ∷ 0 ∷ 1 ∷ 0 ∷ 22 ∷ 0 ∷ 0 ∷ 22 ∷ 0 ∷ 0
    ∷ 0 ∷ 0 ∷ 0 ∷ 0 ∷ 0 ∷ 0 ∷ 0 ∷ 0 ∷ 0 ∷ 0 ∷ 128 ∷ 128 ∷ 128 ∷ 2 ∷ 128 ∷ 128 ∷ 128 ∷ 5 ∷ 7 ∷ 8
    ∷ 0x0d ∷ 0 ∷ 10 ∷ 0 ∷ 1 ∷ 0 ∷ 22 ∷ 0 ∷ 0 ∷ 22 ∷ 0 ∷ 0 ∷ 0 ∷ 0 ∷ 0 ∷ 0 ∷ 0 ∷ 0 ∷ 0 ∷ 0 ∷ 0 ∷ 0
    ∷ 128 ∷ 128 ∷ 128 ∷ 2 ∷ 128 ∷ 128 ∷ 128 ∷ 9 ∷ 1 ∷ 2 ∷ []

-- An empty leaf of a page of 128 bytes.
abbrev roomy_bytes : List ℕ
roomy_bytes = 0x0d ∷ 0 ∷ 8 ∷ 0 ∷ 0 ∷ 0 ∷ 128 ∷ 0 ∷ []

abbrev tree : BTree
tree = record {
  pager = record {
    f = record {
      size = 128;
      limit = 4096;
      at = λ i. if ltb i 32 then 0 else byte_at bytes (i - 32);
    };
    n_pages = 4;
    page_size = 32;
  };
}

pub only_cell : (P : ℕ → Type 0) → P 0 → (j : ℕ) → j < 1 → P j
only_cell P p j h = subst P (omega arith) p

root-IsLaidOut : IsLaidOut 32 (node_at tree 2)
unfolding get_node_by_page node_of update_fields read_page fread get2byte get4byte get_varint32
root-IsLaidOut = record {
  known = inl refl;
  array = refl;
  free = refl;
  room = omega arith;
  top = omega arith;
  small = omega arith;
  cells = only_cell _ (omega arith, omega arith);
}

left-IsLaidOut : IsLaidOut 32 (node_at tree 3)
unfolding get_node_by_page node_of update_fields read_page fread get2byte get4byte get_varint32
left-IsLaidOut = record {
  known = inr (inr (inl refl));
  array = refl;
  free = refl;
  room = omega arith;
  top = omega arith;
  small = omega arith;
  cells = only_cell _ (omega arith, omega arith);
}

right-IsLaidOut : IsLaidOut 32 (node_at tree 4)
unfolding get_node_by_page node_of update_fields read_page fread get2byte get4byte get_varint32
right-IsLaidOut = record {
  known = inr (inr (inl refl));
  array = refl;
  free = refl;
  room = omega arith;
  top = omega arith;
  small = omega arith;
  cells = only_cell _ (omega arith, omega arith);
}

tree-IsSearchTree : IsSearchTree 2 tree 2 0 100
unfolding get_node_by_page node_of update_fields read_page fread get2byte get4byte get_varint32
    get_cell read_cell
tree-IsSearchTree = (
  refl,
  root-IsLaidOut,
  inr (
    refl,
    (
      (refl, left-IsLaidOut, inl (refl, (omega arith, omega arith, tt))),
      omega arith,
      omega arith,
      (refl, right-IsLaidOut, inl (refl, (omega arith, omega arith, tt))),
    ),
  ),
)

find_lem_example : answer (find 2 tree 2 9) ≡ some (lookup_row 9 (rows_below 2 tree 2))
find_lem_example = find_lem 2 tree 2 0 100 9 tree-IsSearchTree (omega arith) (omega arith)

found_row : answer (find 2 tree 2 9) ≡ some (some (1 ∷ 2 ∷ []))
unfolding find leaf_loop child_loop get_node_by_page node_of update_fields read_page fread get2byte
    get4byte get_varint32 get_cell read_cell
found_row = refl

-- A table with no rows, in one leaf with room.
abbrev roomy : BTree
roomy = record {
  pager = record {
    f = record {
      size = 256;
      limit = 4096;
      at = λ i. if ltb i 128 then 0 else byte_at roomy_bytes (i - 128);
    };
    n_pages = 2;
    page_size = 128;
  };
}
