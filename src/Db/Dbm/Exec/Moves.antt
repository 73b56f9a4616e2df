-- ===== src/Db/Dbm/Exec/Moves.antt =====
-- What one instruction of dbm-ops.c does to the program counter.
use chi.Prelude.{
  ℕ, ◌+◌, ◌%◌, ◌^◌, ◌≡◌, refl, ap, ◌⊎◌, inl, inr, Bool, true, false, ◌==◌, ltb, leb, if◌then◌else◌,
  not, ◌&&◌, Option, none, some, List, arith,
}
use chi.Db.Codes.{Code, chidb_ok}
use chi.Db.Run.{Run, returns, aborted, undefined, out_of_fuel, ◌>>=◌}
use chi.Db.Dbm
use chi.Db.Dbm.{
  Opcode, Op, Register, Cursor, CursorType, Stmt, noop, open_read, open_write, close, rewind, next,
  prev, seek, seek_gt, seek_ge, seek_lt, seek_le, column, key, integer, string, null, result_row,
  make_record, insert, eq, ne, lt, le, gt, ge, idx_gt, idx_ge, idx_lt, idx_le, idx_pkey, idx_insert,
  create_table, create_index, copy, scopy, halt, realloc_reg,
}
use chi.Db.Dbm.Ops.{
  jump, is_valid_register, store, on_cursor, jump_on, op_integer, op_string, op_null, op_compare,
  op_open, op_close, op_rewind, op_next, op_prev, op_halt, fail_with, dispatch, handle,
}
use chi.Db.Dbm.Cursors.{
  init_cursor, free_cursor, rewind_tree, rewind_cursor, next_cursor, prev_cursor,
}
use chi.Db.File.{File}
use chi.Db.Btree.{BTree}
use chi.Db.Btree.Open.{open_btree, open_existing, open_empty}
use chi.Db.Dbm.Compare.{test_eq, test_ne, test_lt, test_le, test_gt, test_ge}

-- The instructions that may set the program counter to their `p2`.
abbrev pub is_jump : Opcode → Bool
is_jump rewind = true
is_jump next = true
is_jump prev = true
is_jump eq = true
is_jump ne = true
is_jump lt = true
is_jump le = true
is_jump gt = true
is_jump ge = true
is_jump o = false

-- The program is kept, and the counter moves by a jump, to the end, or not at all.
abbrev pub Moves : Stmt → Op → Code × Stmt → Type 0
Moves stmt op (rc, stmt') =
    (stmt'.ops ≡ stmt.ops)
    × (stmt'.end_op ≡ stmt.end_op)
    × ((stmt'.pc ≡ stmt.pc)
        ⊎ ((is_jump op.opcode ≡ true) × (stmt'.pc ≡ op.p2))
        ⊎ (stmt'.pc ≡ (stmt.end_op + 1) % 2 ^ 32))

-- A run that has a result with a property, or that ends in another way than for want of fuel.
abbrev pub Ends : {A : Type 0} → (A → Type 0) → Run A → Type 0
Ends P (returns a) = P a
Ends P aborted = Unit
Ends P undefined = Unit
Ends P out_of_fuel = ⊥

either : {A : Type 0} → (P : A → Type 0) (b : Bool) (x y : A) → P x → P y → P (if b then x else y)
either P true x y p q = p
either P false x y p q = q

pub bind-Ends :
    {A B : Type 0}
    → (P : A → Type 0) (Q : B → Type 0) (run : Run A) (f : A → Run B) → Ends P run
    → ((a : A) → P a → Ends Q (f a))
    → Ends Q (run >>= f)
bind-Ends P Q (returns a) f h k = k a h
bind-Ends P Q aborted f h k = tt
bind-Ends P Q undefined f h k = tt
bind-Ends P Q out_of_fuel f h k = h

module _ (stmt : Stmt) (op : Op) where
  abbrev Good : Run (Code × Stmt) → Type 0
  Good = Ends (Moves stmt op)

  stays : (rc : Code) → Moves stmt op (rc, stmt)
  stays rc = (refl, refl, inl refl)

  jumps : is_jump op.opcode ≡ true → Moves stmt op (chidb_ok, jump stmt op.p2)
  jumps j = (refl, refl, inr (inl (j, refl)))

  store-Moves : (dest : ℕ) (value : Register) → Good (store stmt dest value)
  unfolding store realloc_reg
  store-Moves dest value =
      either Good (ltb dest (2 ^ 31) && ltb dest _) _ undefined
        (either
          (λ (g : Stmt). Moves stmt op (chidb_ok, record g { reg = Dbm.set g.reg dest value }))
          (leb stmt.n_reg dest) _ stmt (stays chidb_ok) (stays chidb_ok))
        tt

  string-Moves : (p4 : Option (List ℕ)) → op.p4 ≡ p4 → Good (op_string stmt op)
  unfolding op_string
  string-Moves none e = rw e tt
  string-Moves (some val) e = rw e (store-Moves op.p2 (Dbm.string val))

  compare-Moves :
      (test : Register → Register → Bool)
      → is_jump op.opcode ≡ true
      → Good (op_compare test stmt op)
  unfolding op_compare
  compare-Moves test j =
      let tested : Run (Code × Stmt) =
        if test (stmt.reg op.p1) (stmt.reg op.p3)
        then returns (chidb_ok, jump stmt op.p2)
        else returns (chidb_ok, stmt) in
      either Good (not (is_valid_register stmt op.p1 && is_valid_register stmt op.p3))
        (returns (chidb_ok, stmt)) tested (stays chidb_ok)
        (either Good (test (stmt.reg op.p1) (stmt.reg op.p3)) (returns (chidb_ok, jump stmt op.p2))
          (returns (chidb_ok, stmt)) (jumps j) (stays chidb_ok))

  cursor-Moves :
      (c : ℕ) (f : Cursor → Run (Code × Cursor))
      → ((cursor : Cursor) → Ends (λ r. Unit {0}) (f cursor))
      → Good (on_cursor stmt c f)
  cursor-Moves c f ends =
      either Good _ _ undefined
        (bind-Ends (λ r. Unit {0}) (Moves stmt op) (f (stmt.cursors c)) _ (ends (stmt.cursors c))
          (λ r u. stays r.0))
        tt

  jump_on-Moves :
      (answer : Bool) (move : Run Bool)
      → is_jump op.opcode ≡ true
      → Ends (λ r. Unit {0}) move
      → Good (jump_on answer stmt op move)
  jump_on-Moves answer move j ends =
      either Good _ _ undefined
        (bind-Ends (λ r. Unit {0}) (Moves stmt op) move _ ends
          (λ moved u.
            either (λ (s : Stmt). Moves stmt op (chidb_ok, s)) moved _ _
              (either (λ (s : Stmt). Moves stmt op (chidb_ok, s)) answer (jump stmt op.p2) stmt
                (jumps j) (stays chidb_ok))
              (either (λ (s : Stmt). Moves stmt op (chidb_ok, s)) answer stmt (jump stmt op.p2)
                (stays chidb_ok) (jumps j))))
        tt

  abbrev stopped : Stmt
  stopped = jump stmt ((stmt.end_op + 1) % 2 ^ 32)

  fail-Moves : (rc : Code) (p4 : Option (List ℕ)) → Good (fail_with stopped rc p4)
  fail-Moves rc none = tt
  fail-Moves rc (some message) = (refl, refl, inr (inr refl))

  halt-Moves : Good (op_halt stmt op)
  unfolding op_halt
  halt-Moves =
      either Good (op.p1 == 0) (returns (chidb_ok, stopped)) (fail_with stopped op.p1 op.p4)
        (refl, refl, inr (inr refl)) (fail-Moves op.p1 op.p4)

init_cursor-Ends :
    (cursor : Cursor) (disk : File) (root : ℕ) → Ends (λ r. Unit {0}) (init_cursor cursor disk root)
unfolding init_cursor open_btree open_existing open_empty
init_cursor-Ends cursor disk root = ground arith

rewind_tree-Ends : (bt : Option BTree) → Ends (λ r. Unit {0}) (rewind_tree bt)
rewind_tree-Ends none = tt
rewind_tree-Ends (some bt) = ground arith

rewind_cursor-Ends : (cursor : Cursor) → Ends (λ r. Unit {0}) (rewind_cursor cursor)
unfolding rewind_cursor
rewind_cursor-Ends cursor = rewind_tree-Ends cursor.bt

-- Every instruction moves the counter in one of these ways.
dispatch-Moves :
    (o : Opcode) (stmt : Stmt) (op : Op) → op.opcode ≡ o → Ends (Moves stmt op) (dispatch o stmt op)
unfolding dispatch op_open op_close free_cursor op_next next_cursor op_rewind op_prev op_integer
    op_null prev_cursor
dispatch-Moves noop stmt op e = stays stmt op chidb_ok
dispatch-Moves seek stmt op e = stays stmt op chidb_ok
dispatch-Moves seek_gt stmt op e = stays stmt op chidb_ok
dispatch-Moves seek_ge stmt op e = stays stmt op chidb_ok
dispatch-Moves seek_lt stmt op e = stays stmt op chidb_ok
dispatch-Moves seek_le stmt op e = stays stmt op chidb_ok
dispatch-Moves column stmt op e = stays stmt op chidb_ok
dispatch-Moves key stmt op e = stays stmt op chidb_ok
dispatch-Moves result_row stmt op e = stays stmt op chidb_ok
dispatch-Moves make_record stmt op e = stays stmt op chidb_ok
dispatch-Moves insert stmt op e = stays stmt op chidb_ok
dispatch-Moves create_table stmt op e = stays stmt op chidb_ok
dispatch-Moves create_index stmt op e = stays stmt op chidb_ok
dispatch-Moves copy stmt op e = stays stmt op chidb_ok
dispatch-Moves scopy stmt op e = stays stmt op chidb_ok
dispatch-Moves open_read stmt op e =
    cursor-Moves stmt op op.p1 _
      (λ c. init_cursor-Ends (record c { type = Dbm.cursor_read }) stmt.disk op.p2)
dispatch-Moves open_write stmt op e =
    cursor-Moves stmt op op.p1 _
      (λ c. init_cursor-Ends (record c { type = Dbm.cursor_write }) stmt.disk op.p2)
dispatch-Moves close stmt op e = cursor-Moves stmt op op.p1 free_cursor (λ c. tt)
dispatch-Moves rewind stmt op e =
    jump_on-Moves stmt op false _ (ap is_jump e) (rewind_cursor-Ends (stmt.cursors op.p1))
dispatch-Moves next stmt op e = jump_on-Moves stmt op true aborted (ap is_jump e) tt
dispatch-Moves prev stmt op e = jump_on-Moves stmt op false (returns true) (ap is_jump e) tt
dispatch-Moves integer stmt op e = store-Moves stmt op op.p2 (Dbm.int32 op.p1)
dispatch-Moves string stmt op e = string-Moves stmt op op.p4 refl
dispatch-Moves null stmt op e = store-Moves stmt op op.p2 Dbm.null
dispatch-Moves eq stmt op e = compare-Moves stmt op test_eq (ap is_jump e)
dispatch-Moves ne stmt op e = compare-Moves stmt op test_ne (ap is_jump e)
dispatch-Moves lt stmt op e = compare-Moves stmt op test_lt (ap is_jump e)
dispatch-Moves le stmt op e = compare-Moves stmt op test_le (ap is_jump e)
dispatch-Moves gt stmt op e = compare-Moves stmt op test_gt (ap is_jump e)
dispatch-Moves ge stmt op e = compare-Moves stmt op test_ge (ap is_jump e)
dispatch-Moves idx_gt stmt op e = tt
dispatch-Moves idx_ge stmt op e = tt
dispatch-Moves idx_lt stmt op e = tt
dispatch-Moves idx_le stmt op e = tt
dispatch-Moves idx_pkey stmt op e = tt
dispatch-Moves idx_insert stmt op e = tt
dispatch-Moves halt stmt op e = halt-Moves stmt op

pub handle-Moves : (stmt : Stmt) (op : Op) → Ends (Moves stmt op) (handle stmt op)
unfolding handle
handle-Moves stmt op = dispatch-Moves op.opcode stmt op refl
