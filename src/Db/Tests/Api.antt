-- ===== src/Db/Tests/Api.antt =====
-- The API on a parser that accepts everything.
use chi.Prelude.{ℕ, ◌≡◌, refl, true, false, some, List, codes, arith}
use chi.Db.Codes.{Code, chidb_ok, chidb_done}
use chi.Db.Run.{returns}
use chi.Db.Dbm.{Stmt, stmt_init, set_op, realloc_ops, realloc_reg, realloc_cur}
use chi.Db.Api.{SqlStatement, prepare, stmt_codegen}
use chi.Db.Api.Ends.{RunsOut, prepare-step}
use chi.Db.Api.Explain.{read_rows, listing, explain_lem}
use chi.Db.Tests.Machine.{no_file}

abbrev any_sql : List ℕ → Code × SqlStatement
any_sql sql = (chidb_ok, record { text = sql; explain = false })

abbrev select : List ℕ
select = codes "SELECT * FROM t;"

prepare-step_example :
    (stmt : Stmt) × (prepare any_sql no_file select ≡ (chidb_ok, some stmt))
    × RunsOut 14 select stmt
prepare-step_example =
    prepare-step any_sql no_file select (record { text = select; explain = false }) 14 refl refl
      (omega arith)

abbrev explained_select : Stmt
explained_select =
    record (stmt_codegen (stmt_init no_file) (record { text = select; explain = true })).1 {
      explain = true;
    }

loaded : (explained_select.pc ≡ 0) × (explained_select.end_op ≡ 13) × (explained_select.n_ops ≡ 50)
unfolding stmt_codegen stmt_init set_op realloc_ops realloc_reg realloc_cur
loaded = (refl, refl, refl)

explain_lem_example :
    read_rows 14 0 explained_select
    ≡ returns (listing explained_select.ops explained_select.pc 13, chidb_done)
explain_lem_example =
    explain_lem 13 14 0 explained_select refl (omega (arith, loaded)) (omega (arith, loaded))
      (omega (arith, loaded)) (omega arith)
