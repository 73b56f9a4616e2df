-- ===== src/Db/Btree/Tree/Rows.antt =====
-- Rows with keys in a range: what the search of a tree of pages needs of them.
use chi.Prelude.{
  ℕ, ◌+◌, ◌≤◌, ◌<◌, ◌≡◌, refl, ◌∙◌, leb, if◌then◌else◌, List, [], ◌∷◌, ◌++◌, arith, none, le→leb,
  gt→leb,
}
use native.Mathlib.Decide.{dec_le}
use chi.Db.Btree.Tree.{Row, lookup_row, join, Within, Linked}

Within-widen :
    (lo lo' hi hi' : ℕ) (xs : List Row) → lo' ≤ lo → hi ≤ hi' → Within lo hi xs → Within lo' hi' xs
Within-widen lo lo' hi hi' [] a b h = tt
Within-widen lo lo' hi hi' ((k, v) ∷ xs) a b h =
    (omega arith, omega arith, Within-widen lo lo' hi hi' xs a b h.2)

Within-append :
    (lo hi : ℕ) (xs ys : List Row) → Within lo hi xs → Within lo hi ys → Within lo hi (xs ++ ys)
Within-append lo hi [] ys h k = k
Within-append lo hi ((x, v) ∷ xs) ys h k = (h.0, h.1, Within-append lo hi xs ys h.2 k)

-- A key outside the range of a run is not found in it.
lookup_row-above :
    (key lo hi : ℕ) (xs ys : List Row)
    → hi ≤ key
    → Within lo hi xs
    → lookup_row key (xs ++ ys) ≡ lookup_row key ys
unfolding lookup_row
lookup_row-above key lo hi [] ys h w = refl
lookup_row-above key lo hi ((k, v) ∷ xs) ys h w =
    ground (arith, lookup_row-above key lo hi xs ys h w.2)

lookup_row-below :
    (key lo hi : ℕ) (ys : List Row) → key < lo → Within lo hi ys → lookup_row key ys ≡ none
unfolding lookup_row
lookup_row-below key lo hi [] h w = refl
lookup_row-below key lo hi ((k, v) ∷ ys) h w = ground (arith, lookup_row-below key lo hi ys h w.2)

lookup_row-append_none :
    (key : ℕ) (xs ys : List Row)
    → lookup_row key ys ≡ none
    → lookup_row key (xs ++ ys) ≡ lookup_row key xs
unfolding lookup_row
lookup_row-append_none key [] ys h = h
lookup_row-append_none key ((k, v) ∷ xs) ys h = ground (arith, lookup_row-append_none key xs ys h)

-- The child that the search goes to.
unfoldable pub child_for : ℕ → List (ℕ × ℕ) → ℕ → ℕ
child_for key [] right = right
child_for key ((k, child) ∷ links) right = if leb key k then child else child_for key links right

module _ (Below : ℕ → ℕ → ℕ → Type 0) (rows : ℕ → List Row)
    (bounded : (n lo hi : ℕ) → lo ≤ hi → Below n lo hi → Within lo hi (rows n)) where
  pub join-Within :
      (links : List (ℕ × ℕ)) (right lo hi : ℕ)
      → lo ≤ hi
      → Linked Below links right lo hi
      → Within lo hi (join rows links right)
  unfolding join
  join-Within [] right lo hi le h = bounded right lo hi le h
  join-Within ((k, child) ∷ links) right lo hi le h =
      Within-append lo hi (rows child) (join rows links right)
        (Within-widen lo lo (k + 1) hi (rows child) (omega arith) (omega arith)
          (bounded child lo (k + 1) h.1 h.0))
        (Within-widen (k + 1) lo hi hi (join rows links right) (omega arith) (omega arith)
          (join-Within links right (k + 1) hi (omega arith) h.3))

  -- The rows of that child decide the lookup among those of all children.
  pub join-descend :
      (key : ℕ) (links : List (ℕ × ℕ)) (right lo hi : ℕ)
      → lo ≤ key
      → key < hi
      → Linked Below links right lo hi
      → (lo' : ℕ) × (hi' : ℕ) × (lo' ≤ key)
        × (key < hi')
        × Below (child_for key links right) lo' hi'
        × (lookup_row key (join rows links right)
            ≡ lookup_row key (rows (child_for key links right)))
  unfolding join child_for
  join-descend key [] right lo hi a b h = (lo, hi, a, b, h, refl)
  join-descend key ((k, child) ∷ links) right lo hi a b h = elim (dec_le key k) [
    | yes le ↦ rw (le→leb key k le) (
      lo,
      k + 1,
      a,
      omega arith,
      h.0,
      lookup_row-append_none key (rows child) (join rows links right) (
          lookup_row-below key (k + 1) hi (join rows links right) (omega arith)
            (join-Within links right (k + 1) hi (omega arith) h.3)),
    )
    | no gt ↦
        let (lo', hi', a', b', below, e) =
          join-descend key links right (k + 1) hi (omega arith) b h.3 in
        rw (gt→leb key k (omega arith)) (
          lo',
          hi',
          a',
          b',
          below,
          lookup_row-above key lo (k + 1) (rows child) (join rows links right) (omega arith)
                (bounded child lo (k + 1) h.1 h.0)
              ∙ e,
        )
  ]
