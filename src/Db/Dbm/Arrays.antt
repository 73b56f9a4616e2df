-- ===== src/Db/Dbm/Arrays.antt =====
-- The arrays of instructions and registers of dbm.c grow to hold what is put in them.
use native.Mathlib.Decide.{ℕ_discrete, dec_lt}
use chi.Prelude.{
  ℕ, ◌+◌, ◌%◌, ◌^◌, ◌≤◌, ◌<◌, ◌≡◌, ◌≢◌, refl, ◌⊎◌, inl, inr, max, arith, gt→leb, le→leb, lt→ltb,
  ge→ltb,
}
use chi.Db.Codes.{chidb_ok}
use chi.Db.Run.{returns, undefined}
use chi.Db.Dbm.{
  Op, Register, unspecified, Stmt, set, fill, noop_op, realloc_ops, realloc_reg, set_op,
}
use chi.Db.Dbm.Ops.{store}

-- An array of `n` elements with one put in at index `a`, as element `i` shows it: the new element, an
-- old one, one of those that fill the array up to the new one, or none of the array.
abbrev pub PutIn : {A : Type 0} → (ℕ → A) → ℕ → ℕ → A → A → ℕ → A → Type 0
PutIn f n a x blank i y =
    ((i ≡ a) × (y ≡ x))
    ⊎ ((i ≢ a) × (i < n) × (y ≡ f i))
    ⊎ ((i ≢ a) × (n ≤ i) × (i < a) × (y ≡ blank))
    ⊎ ((n ≤ i) × (a < i))

module _ {A : Type 0} (f : ℕ → A) (n a : ℕ) (x blank : A) (i : ℕ) where
  put_there : a < n → PutIn f n a x blank i (set f a x i)
  put_there h = elim (ℕ_discrete i a) [
    | yes e ↦ inl (e, ground (arith, e))
    | no ne ↦ elim (dec_lt i n) [
      | yes lt ↦ inr (inl (ne, lt, ground (arith, ne)))
      | no ge ↦ inr (inr (inr (omega arith, omega arith)))
    ]
  ]

  put_grown : n ≤ a → PutIn f n a x blank i (set (fill f n (a + 1) blank) a x i)
  put_grown h = elim (ℕ_discrete i a) [
    | yes e ↦ inl (e, ground (arith, e))
    | no ne ↦ elim (dec_lt i n) [
      | yes lt ↦ inr (inl (ne, lt, ground (arith, ne)))
      | no ge ↦ elim (dec_lt i a) [
        | yes lt ↦ inr (inr (inl (ne, omega arith, lt, ground (arith, ne))))
        | no ge' ↦ inr (inr (inr (omega arith, omega arith)))
      ]
    ]
  ]

-- Setting an instruction sets that one, keeps every other one there was, fills a gap with Noop, and
-- moves the end of the program behind it where it was not; the end is at most the size of the array,
-- and equals it where the instruction is behind the array.
pub set_op_lem :
    (stmt : Stmt) (op : Op) (pos i : ℕ)
    → pos + 1 < 2 ^ 32
    → stmt.end_op ≤ stmt.n_ops
    → let stmt' = set_op stmt op pos in
      PutIn stmt.ops stmt.n_ops pos op noop_op i (stmt'.ops i)
      × (stmt'.n_ops ≡ max stmt.n_ops (pos + 1))
      × (stmt'.end_op ≡ max stmt.end_op (pos + 1))
      × (stmt'.end_op ≤ stmt'.n_ops)
unfolding set_op realloc_ops
set_op_lem stmt op pos i small inv =
    let wrap : (pos + 1) % 2 ^ 32 ≡ pos + 1 = omega arith in
    (
      elim (dec_lt pos stmt.n_ops) [
        | yes h ↦ rw (gt→leb _ _ h) (put_there stmt.ops stmt.n_ops pos op noop_op i h)
        | no h ↦
            rw (le→leb stmt.n_ops pos (omega arith), wrap)
              (put_grown stmt.ops stmt.n_ops pos op noop_op i (omega arith))
      ],
      ground arith,
      ground arith,
      ground arith,
    )

-- A register that is stored to has the value, whatever the number of registers was; the others keep
-- theirs, and those that are made with it have none. A store to a negative index is outside of the
-- array.
pub store_lem :
    (stmt : Stmt) (dest : ℕ) (value : Register) (i : ℕ)
    → ((dest < 2 ^ 31)
        × (stmt' : Stmt) × (store stmt dest value ≡ returns (chidb_ok, stmt'))
        × PutIn stmt.reg stmt.n_reg dest value unspecified i (stmt'.reg i)
        × (stmt'.n_reg ≡ max stmt.n_reg (dest + 1))
        × (stmt'.ops ≡ stmt.ops)
        × (stmt'.pc ≡ stmt.pc))
      ⊎ ((2 ^ 31 ≤ dest) × (store stmt dest value ≡ undefined))
unfolding store realloc_reg
store_lem stmt dest value i = elim (dec_lt dest (2 ^ 31)) [
  | no negative ↦ inr (omega arith, rw (ge→ltb dest (2 ^ 31) (omega arith)) refl)
  | yes small ↦
      let wrap : (dest + 1) % 2 ^ 32 ≡ dest + 1 = omega arith in
      let index = lt→ltb dest (2 ^ 31) small in
      elim (dec_lt dest stmt.n_reg) [
        | yes h ↦ inl (
          small,
          record stmt { reg = set stmt.reg dest value },
          rw (gt→leb _ _ h, index, lt→ltb _ _ h) refl,
          put_there stmt.reg stmt.n_reg dest value unspecified i h,
          omega arith,
          refl,
          refl,
        )
        | no h ↦
            let grown : dest < dest + 1 = omega arith in
            inl (
              small,
              record stmt {
                reg = set (fill stmt.reg stmt.n_reg (dest + 1) unspecified) dest value;
                n_reg = dest + 1;
              },
              rw (le→leb stmt.n_reg dest (omega arith), wrap, index, lt→ltb _ _ grown) refl,
              put_grown stmt.reg stmt.n_reg dest value unspecified i (omega arith),
              omega arith,
              refl,
              refl,
            )
      ]
]
