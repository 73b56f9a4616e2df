-- ===== src/Db/Dbm/Ops.antt =====
-- The handlers of db/src/libchidb/dbm-ops.c.
use chi.Prelude.{
  ℕ, ◌+◌, ◌%◌, ◌^◌, Bool, true, false, ◌&&◌, not, ◌==◌, ltb, leb, if◌then◌else◌, Option, none, some,
  List,
}
use chi.Db.Codes.{Code, chidb_ok}
use chi.Db.Run.{Run, returns, aborted, undefined, ◌>>=◌}
use chi.Db.Dbm.{
  Opcode, noop, open_read, open_write, close, rewind, next, prev, seek, seek_gt, seek_ge, seek_lt,
  seek_le, column, key, integer, string, null, result_row, make_record, insert, eq, ne, lt, le, gt,
  ge, idx_gt, idx_ge, idx_lt, idx_le, idx_pkey, idx_insert, create_table, create_index, copy, scopy,
  halt, Op, Register, unspecified, int32, Cursor, CursorType, cursor_read, cursor_write, Stmt, set,
  realloc_reg,
}
use chi.Db.Dbm
use chi.Db.Dbm.Cursors.{init_cursor, free_cursor, rewind_cursor, next_cursor, prev_cursor}
use chi.Db.Dbm.Compare.{test_eq, test_ne, test_lt, test_le, test_gt, test_ge}

-- `stmt->pc = addr`, an `int32_t` as a `uint32_t`
abbrev pub jump : Stmt → ℕ → Stmt
jump stmt addr = record stmt { pc = addr }

abbrev pub is_unspecified : Register → Bool
is_unspecified unspecified = true
is_unspecified Dbm.null = false
is_unspecified (int32 i) = false
is_unspecified (Dbm.string s) = false
is_unspecified (Dbm.binary p n) = false

-- IS_VALID_REGISTER
unfoldable pub is_valid_register : Stmt → ℕ → Bool
is_valid_register stmt r = ltb r (2 ^ 31) && ltb r stmt.n_reg && not (is_unspecified (stmt.reg r))

-- A store to register `dest`, which is made to exist first. A negative index, whose 32 bits are compared
-- as a number without a sign, is outside of the array.
unfoldable pub store : Stmt → ℕ → Register → Run (Code × Stmt)
unfolding realloc_reg
store stmt dest value =
    let grown = if leb stmt.n_reg dest then realloc_reg stmt ((dest + 1) % 2 ^ 32) else stmt in
    if ltb dest (2 ^ 31) && ltb dest grown.n_reg
    then returns (chidb_ok, record grown { reg = set grown.reg dest value })
    else undefined

unfoldable pub op_integer : Stmt → Op → Run (Code × Stmt)
op_integer stmt op = store stmt op.p2 (int32 op.p1)

unfoldable pub op_string : Stmt → Op → Run (Code × Stmt)
op_string stmt op = elim op.p4 [ none ↦ undefined | some val ↦ store stmt op.p2 (Dbm.string val) ]

unfoldable pub op_null : Stmt → Op → Run (Code × Stmt)
op_null stmt op = store stmt op.p2 Dbm.null

-- A comparison of the registers `p1` and `p3`.
unfoldable pub op_compare : (Register → Register → Bool) → Stmt → Op → Run (Code × Stmt)
op_compare test stmt op =
    if not (is_valid_register stmt op.p1 && is_valid_register stmt op.p3)
    then returns (chidb_ok, stmt)
    else if test (stmt.reg op.p1) (stmt.reg op.p3)
    then returns (chidb_ok, jump stmt op.p2)
    else returns (chidb_ok, stmt)

-- A cursor of the array, and the statement with it put back.
abbrev pub on_cursor : Stmt → ℕ → (Cursor → Run (Code × Cursor)) → Run (Code × Stmt)
on_cursor stmt c f =
    if ltb c stmt.n_cursors
    then (f (stmt.cursors c) >>= λ result.
        returns (result.0, record stmt { cursors = set stmt.cursors c result.1 }))
    else undefined

unfoldable pub op_open : CursorType → Stmt → Op → Run (Code × Stmt)
op_open type stmt op =
    on_cursor stmt op.p1 (λ cursor. init_cursor (record cursor { type = type }) stmt.disk op.p2)

unfoldable pub op_close : Stmt → Op → Run (Code × Stmt)
op_close stmt op = on_cursor stmt op.p1 free_cursor

-- The jump is taken where the move of the cursor answers `answer`.
abbrev pub jump_on : Bool → Stmt → Op → Run Bool → Run (Code × Stmt)
jump_on answer stmt op move =
    if ltb op.p1 stmt.n_cursors
    then (move >>= λ moved. returns (
      chidb_ok,
      (if moved
          then (if answer then jump stmt op.p2 else stmt)
          else if answer
          then stmt
          else jump stmt op.p2),
    ))
    else undefined

unfoldable pub op_rewind : Stmt → Op → Run (Code × Stmt)
op_rewind stmt op = jump_on false stmt op (rewind_cursor (stmt.cursors op.p1))

unfoldable pub op_next : Stmt → Op → Run (Code × Stmt)
op_next stmt op = jump_on true stmt op (next_cursor (stmt.cursors op.p1))

unfoldable pub op_prev : Stmt → Op → Run (Code × Stmt)
op_prev stmt op = jump_on false stmt op (returns (prev_cursor (stmt.cursors op.p1)))

-- `strdup(op->p4)` and a code that is not `CHIDB_OK`
abbrev pub fail_with : Stmt → Code → Option (List ℕ) → Run (Code × Stmt)
fail_with stmt rc none = undefined
fail_with stmt rc (some message) = returns (rc, record stmt { error = some message })

unfoldable pub op_halt : Stmt → Op → Run (Code × Stmt)
op_halt stmt op =
    let stopped = jump stmt ((stmt.end_op + 1) % 2 ^ 32) in
    if op.p1 == 0 then returns (chidb_ok, stopped) else fail_with stopped op.p1 op.p4

-- `chidb_dbm_op_handle`. The handlers that are not written do nothing, or end the process.
unfoldable pub dispatch : Opcode → Stmt → Op → Run (Code × Stmt)
dispatch noop stmt op = returns (chidb_ok, stmt)
dispatch open_read stmt op = op_open cursor_read stmt op
dispatch open_write stmt op = op_open cursor_write stmt op
dispatch close stmt op = op_close stmt op
dispatch rewind stmt op = op_rewind stmt op
dispatch next stmt op = op_next stmt op
dispatch prev stmt op = op_prev stmt op
dispatch seek stmt op = returns (chidb_ok, stmt)
dispatch seek_gt stmt op = returns (chidb_ok, stmt)
dispatch seek_ge stmt op = returns (chidb_ok, stmt)
dispatch seek_lt stmt op = returns (chidb_ok, stmt)
dispatch seek_le stmt op = returns (chidb_ok, stmt)
dispatch column stmt op = returns (chidb_ok, stmt)
dispatch key stmt op = returns (chidb_ok, stmt)
dispatch integer stmt op = op_integer stmt op
dispatch string stmt op = op_string stmt op
dispatch null stmt op = op_null stmt op
dispatch result_row stmt op = returns (chidb_ok, stmt)
dispatch make_record stmt op = returns (chidb_ok, stmt)
dispatch insert stmt op = returns (chidb_ok, stmt)
dispatch eq stmt op = op_compare test_eq stmt op
dispatch ne stmt op = op_compare test_ne stmt op
dispatch lt stmt op = op_compare test_lt stmt op
dispatch le stmt op = op_compare test_le stmt op
dispatch gt stmt op = op_compare test_gt stmt op
dispatch ge stmt op = op_compare test_ge stmt op
dispatch idx_gt stmt op = aborted
dispatch idx_ge stmt op = aborted
dispatch idx_lt stmt op = aborted
dispatch idx_le stmt op = aborted
dispatch idx_pkey stmt op = aborted
dispatch idx_insert stmt op = aborted
dispatch create_table stmt op = returns (chidb_ok, stmt)
dispatch create_index stmt op = returns (chidb_ok, stmt)
dispatch copy stmt op = returns (chidb_ok, stmt)
dispatch scopy stmt op = returns (chidb_ok, stmt)
dispatch halt stmt op = op_halt stmt op

unfoldable pub handle : Stmt → Op → Run (Code × Stmt)
handle stmt op = dispatch op.opcode stmt op
