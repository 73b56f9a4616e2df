-- ===== src/Db/Dbm/Exec.antt =====
-- `chidb_stmt_exec` of db/src/libchidb/dbm.c.
pub mod Moves
pub mod Forward
use chi.Prelude.{ℕ, zero, suc, ◌+◌, ◌%◌, ◌^◌, ◌||◌, ◌==◌, ltb, if◌then◌else◌}
use chi.Db.Codes.{Code, chidb_ok, chidb_done}
use chi.Db.Run.{Run, returns, out_of_fuel, ◌>>=◌}
use chi.Db.Dbm.{Op, Stmt}
use chi.Db.Dbm.Ops.{handle}

-- The code after the loop.
abbrev pub finish : Code → Code
finish rc = if rc == chidb_ok || rc == chidb_done then chidb_done else rc

-- `stmt->ops[stmt->pc++]`
abbrev pub fetch : Stmt → Op
fetch stmt = stmt.ops stmt.pc

abbrev pub advance : Stmt → Stmt
advance stmt = record stmt { pc = (stmt.pc + 1) % 2 ^ 32 }

-- Fuel for one more instruction than is run.
unfoldable pub exec : ℕ → Stmt → Run (Code × Stmt)
exec zero stmt = out_of_fuel
exec (suc fuel) stmt =
    if ltb stmt.pc stmt.end_op
    then (handle (advance stmt) (fetch stmt) >>= λ result.
        if result.0 == chidb_ok then exec fuel result.1 else returns (finish result.0, result.1))
    else returns (chidb_done, stmt)
