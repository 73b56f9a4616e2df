-- ===== src/Db/Btree/Entry.antt =====
-- What a cell of btree.h says: the fields that its type of page has, and no others.
use chi.Prelude.{
  ℕ, zero, suc, ◌+◌, ◌≤◌, ◌≡◌, refl, sym, subst, ap₂, ◌⊎◌, inl, inr, ◌==◌, if◌then◌else◌, List, [],
  ◌∷◌, arith,
}
use chi.Db.Memory.{Bytes, zeros, Agree}
use chi.Db.Util.{get_varint32}
use chi.Db.Util.Words.{get4byte-Agree}
use chi.Db.Util.Varint.{get_varint32-Agree}
use chi.Db.Btree.{
  pgtype_table_internal, pgtype_table_leaf, pgtype_index_internal, pgtype_index_leaf,
}
use chi.Db.Btree.Cell.{BTreeCell, read_cell}
use chi.Db.Btree.Frame.{cell_size}

pub data Entry : Type 0 where
  table_internal : ℕ → ℕ → Entry
  index_internal : ℕ → ℕ → ℕ → Entry
  table_leaf : ℕ → List ℕ → Entry
  index_leaf : ℕ → ℕ → Entry
  unknown : Entry

-- The first `n` bytes that a pointer reaches.
abbrev pub bytes_of : ℕ → Bytes → List ℕ
bytes_of zero p = []
bytes_of (suc n) p = p 0 ∷ bytes_of n (λ i. p (suc i))

pub bytes_of-Agree : (n : ℕ) (p q : Bytes) → Agree 0 n p q → bytes_of n p ≡ bytes_of n q
bytes_of-Agree zero p q h = refl
bytes_of-Agree (suc n) p q h = ap₂ ◌∷◌ (h 0 (omega arith) (omega arith)) (
    bytes_of-Agree n (λ i. p (suc i)) (λ i. q (suc i))
      (λ i lo hi. h (suc i) (omega arith) (omega arith)))

abbrev pub view : BTreeCell → Entry
view c =
    if c.type == pgtype_table_internal
    then table_internal c.key c.word0
    else if c.type == pgtype_index_internal
    then index_internal c.key c.word0 c.word1
    else if c.type == pgtype_table_leaf
    then table_leaf c.key (bytes_of c.word0 c.payload)
    else if c.type == pgtype_index_leaf
    then index_leaf c.key c.word0
    else unknown

abbrev pub blank : BTreeCell
blank = record { type = 0; key = 0; word0 = 0; word1 = 0; payload = zeros }

-- The entry in the cell at index `o` of a page.
unfoldable pub entry : ℕ → Bytes → ℕ → Entry
entry type page o = view (read_cell type page o blank)

-- What an out parameter held before does not show in the entry.
pub view-read_cell :
    (type : ℕ) (page : Bytes) (o : ℕ) (out : BTreeCell)
    → view (read_cell type page o out) ≡ entry type page o
unfolding entry read_cell
view-read_cell type page o out = ground arith

-- The number of bytes of the payload, which the cell itself says.
abbrev pub size_at : ℕ → Bytes → ℕ → ℕ
size_at type page o = cell_size type (get_varint32 page o)

pub sub_Agree :
    (lo hi lo' hi' : ℕ) (p q : Bytes) → lo ≤ lo' → hi' ≤ hi → Agree lo hi p q → Agree lo' hi' p q
sub_Agree lo hi lo' hi' p q a b h i l u = h i (omega arith) (omega arith)

module _ (p q : Bytes) (o : ℕ) where
  table_internal-Agree :
      Agree o (o + 8) p q → entry pgtype_table_internal p o ≡ entry pgtype_table_internal q o
  unfolding entry read_cell
  table_internal-Agree h =
      ap₂ table_internal (get_varint32-Agree p q (o + 4) (λ i l u. h i (omega arith) (omega arith)))
        (get4byte-Agree p q o (λ i l u. h i (omega arith) (omega arith)))

  index_leaf-Agree :
      Agree o (o + 12) p q → entry pgtype_index_leaf p o ≡ entry pgtype_index_leaf q o
  unfolding entry read_cell
  index_leaf-Agree h =
      ap₂ index_leaf (get4byte-Agree p q (o + 4) (λ i l u. h i (omega arith) (omega arith)))
        (get4byte-Agree p q (o + 8) (λ i l u. h i (omega arith) (omega arith)))

  index_internal-Agree :
      Agree o (o + 16) p q → entry pgtype_index_internal p o ≡ entry pgtype_index_internal q o
  unfolding entry read_cell
  index_internal-Agree h = cc (
    get4byte-Agree p q o (λ i l u. h i (omega arith) (omega arith)),
    get4byte-Agree p q (o + 8) (λ i l u. h i (omega arith) (omega arith)),
    get4byte-Agree p q (o + 12) (λ i l u. h i (omega arith) (omega arith)),
  )

  table_leaf-Agree :
      Agree o (o + (get_varint32 p o + 8)) p q
      → entry pgtype_table_leaf p o ≡ entry pgtype_table_leaf q o
  unfolding entry read_cell
  table_leaf-Agree h =
      let size : get_varint32 p o ≡ get_varint32 q o =
        get_varint32-Agree p q o (λ i l u. h i (omega arith) (omega arith)) in
      cc (
        size,
        get_varint32-Agree p q (o + 4) (λ i l u. h i (omega arith) (omega arith)),
        bytes_of-Agree (get_varint32 p o) (λ i. p (o + 8 + i)) (λ i. q (o + 8 + i))
            (λ i l u. h (o + 8 + i) (omega arith) (omega arith)),
      )

-- A type of page is one of the four of btree.h, or another.
abbrev pub IsPgType : ℕ → Type 0
IsPgType t = (t ≡ 0x05) ⊎ (t ≡ 0x02) ⊎ (t ≡ 0x0d) ⊎ (t ≡ 0x0a)

-- An entry is read from the bytes of its cell alone.
pub entry-Agree :
    (type : ℕ) (p q : Bytes) (o : ℕ)
    → IsPgType type
    → Agree o (o + size_at type p o) p q
    → entry type p o ≡ entry type q o
entry-Agree type p q o (inl e) h =
    subst (λ t. Agree o (o + size_at t p o) p q → entry t p o ≡ entry t q o) (sym e)
      (table_internal-Agree p q o) h
entry-Agree type p q o (inr (inl e)) h =
    subst (λ t. Agree o (o + size_at t p o) p q → entry t p o ≡ entry t q o) (sym e)
      (index_internal-Agree p q o) h
entry-Agree type p q o (inr (inr (inl e))) h =
    subst (λ t. Agree o (o + size_at t p o) p q → entry t p o ≡ entry t q o) (sym e)
      (table_leaf-Agree p q o) h
entry-Agree type p q o (inr (inr (inr e))) h =
    subst (λ t. Agree o (o + size_at t p o) p q → entry t p o ≡ entry t q o) (sym e)
      (index_leaf-Agree p q o) h
