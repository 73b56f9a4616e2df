-- ===== src/Db/Api/Ends.antt =====
-- What `chidb_prepare` loads, run by `chidb_step`.
use chi.Prelude.{ℕ, suc, ◌-◌, ◌≡◌, ◌<◌, refl, sym, subst, false, some, List, arith}
use chi.Db.Codes.{Code, chidb_ok, chidb_done}
use chi.Db.Run.{returns}
use chi.Db.File.{File}
use chi.Db.Dbm.{Stmt, set_op, stmt_init, realloc_ops, realloc_reg, realloc_cur}
use chi.Db.Dbm.Ops.{handle, dispatch, store, op_integer, op_string, op_null, op_halt}
use chi.Db.Dbm.Exec.{exec}
use chi.Db.Api.{
  SqlStatement, sql_type_null, prepare, stmt_codegen, step, column_count, column_type, column_int,
  column_text,
}

-- The statement `chidb_prepare` gives for one that is not explained.
abbrev coded : File → SqlStatement → Stmt
coded disk s = record (stmt_codegen (stmt_init disk) s).1 { explain = false }

-- One step runs the statement to its end, and leaves the columns 5, the text and NULL.
abbrev pub RunsOut : ℕ → List ℕ → Stmt → Type 0
RunsOut fuel text stmt =
    (stmt' : Stmt) × (step fuel stmt ≡ returns (chidb_done, stmt'))
    × (column_count stmt' ≡ 3)
    × (column_int stmt' 0 ≡ returns 5)
    × (column_text stmt' 1 ≡ returns (some text))
    × (column_type stmt' 2 ≡ returns sql_type_null)

-- One more than the program's length.
abbrev past_program : ℕ → ℕ
past_program n = suc (suc (suc (suc (suc (suc (suc (suc (suc (suc (suc (suc (suc (suc n)))))))))))))

coded-RunsOut :
    (disk : File) (s : SqlStatement) (n : ℕ) → RunsOut (past_program n) s.text (coded disk s)
unfolding step column_count column_type column_int column_text exec handle dispatch store op_integer
    op_string op_null op_halt set_op stmt_init realloc_ops realloc_reg realloc_cur stmt_codegen
coded-RunsOut disk s n = (_, refl, refl, refl, refl, refl)

past : (fuel : ℕ) → 13 < fuel → (n : ℕ) × (fuel ≡ past_program n)
past fuel h = (fuel - 14, omega arith)

-- A statement that the parser accepts and that is not explained is prepared, and its first step runs
-- the whole program and answers CHIDB_DONE, with no row before it. Its three columns are then the
-- number 5, the text of the statement, and NULL.
pub prepare-step :
    (parser : List ℕ → Code × SqlStatement)
    → (disk : File) (sql : List ℕ) (s : SqlStatement) (fuel : ℕ) → parser sql ≡ (chidb_ok, s)
    → s.explain ≡ false
    → 13 < fuel
    → (stmt : Stmt) × (prepare parser disk sql ≡ (chidb_ok, some stmt)) × RunsOut fuel s.text stmt
unfolding prepare stmt_codegen
prepare-step parser disk sql s fuel parsed e h =
    let n = past fuel h in
    (
      coded disk s,
      rw (parsed, e) refl,
      subst (λ fuel. RunsOut fuel s.text (coded disk s)) (sym n.1) (coded-RunsOut disk s n.0),
    )
