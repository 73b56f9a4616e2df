-- ===== src/Db/Tests/Machine.antt =====
-- A program that stores two values and compares them.
use chi.Prelude.{
  ℕ, ◌^◌, ◌<◌, ◌≤◌, ◌≡◌, ◌≢◌, ◌⊎◌, refl, true, false, ◌==◌, if◌then◌else◌, max, List, [], ◌∷◌, none,
  arith,
}
use chi.Db.Memory.{zeros}
use chi.Db.Codes.{chidb_ok}
use chi.Db.Run.{returns, undefined}
use chi.Db.File.{File}
use chi.Db.Dbm.{
  Op, Opcode, Register, unspecified, Stmt, noop_op, realloc_ops, realloc_reg, realloc_cur, set_op,
  stmt_init,
}
use chi.Db.Dbm
use chi.Db.Dbm.Ops.{store, is_valid_register}
use chi.Db.Dbm.Compare.Order.{
  comparable, OneJumps, Jumps, Stays, op_compare-opposite, op_compare-strings,
}
use chi.Db.Dbm.Arrays.{PutIn, set_op_lem, store_lem}
use chi.Db.Dbm.Exec.{exec}
use chi.Db.Dbm.Exec.Moves.{Ends}
use chi.Db.Dbm.Exec.Forward.{Forward, Finished, exec-Ends}

abbrev pub no_file : File
no_file = record { size = 0; limit = 0; at = zeros }

abbrev load : Op
load = record { opcode = Dbm.integer; p1 = 5; p2 = 0; p3 = 0; p4 = none }

abbrev test : Op
test = record { opcode = Dbm.eq; p1 = 0; p2 = 3; p3 = 0; p4 = none }

abbrev program : Stmt
program = record (stmt_init no_file) {
  ops = λ i. if i == 0 then load else if i == 1 then test else noop_op;
  end_op = 3;
}

program-Forward : Forward program
program-Forward i h j = ground arith

exec-Ends_example : Ends (Finished program) (exec 4 program)
unfolding stmt_init
exec-Ends_example = exec-Ends 4 program program-Forward (omega arith) (omega arith) (omega arith)

set_op_lem_example :
    let stmt' = set_op (stmt_init no_file) load 60 in
    PutIn (stmt_init no_file).ops (stmt_init no_file).n_ops 60 load noop_op 55 (stmt'.ops 55)
    × (stmt'.n_ops ≡ max (stmt_init no_file).n_ops 61)
    × (stmt'.end_op ≡ max (stmt_init no_file).end_op 61)
    × (stmt'.end_op ≤ stmt'.n_ops)
unfolding stmt_init realloc_ops realloc_reg realloc_cur
set_op_lem_example = set_op_lem (stmt_init no_file) load 60 55 (omega arith) (omega arith)

store_lem_example :
    ((12 < 2 ^ 31)
      × (stmt' : Stmt) × (store program 12 (Dbm.int32 4) ≡ returns (chidb_ok, stmt'))
      × PutIn program.reg program.n_reg 12 (Dbm.int32 4) unspecified 11 (stmt'.reg 11)
      × (stmt'.n_reg ≡ max program.n_reg 13)
      × (stmt'.ops ≡ program.ops)
      × (stmt'.pc ≡ program.pc))
    ⊎ ((2 ^ 31 ≤ 12) × (store program 12 (Dbm.int32 4) ≡ undefined))
store_lem_example = store_lem program 12 (Dbm.int32 4) 11

abbrev words : Stmt
words = record program { reg = λ i. Dbm.string (i ∷ []); n_reg = 10 }

abbrev three : List ℕ
three = 3 ∷ []

abbrev seven : List ℕ
seven = 7 ∷ []

abbrev compared : Op
compared = record { opcode = Dbm.lt; p1 = 3; p2 = 8; p3 = 7; p4 = none }

words_valid : (is_valid_register words 3 ≡ true) × (is_valid_register words 7 ≡ true)
unfolding is_valid_register
words_valid = (refl, refl)

op_compare-opposite_example :
    ((comparable (Dbm.string three) (Dbm.string seven) ≡ true)
      × OneJumps words compared Dbm.eq Dbm.ne
      × OneJumps words compared Dbm.lt Dbm.ge
      × OneJumps words compared Dbm.le Dbm.gt)
    ⊎ ((comparable (Dbm.string three) (Dbm.string seven) ≡ false)
        × Stays words compared Dbm.eq
        × Stays words compared Dbm.ne
        × Stays words compared Dbm.lt
        × Stays words compared Dbm.le
        × Stays words compared Dbm.gt
        × Stays words compared Dbm.ge)
op_compare-opposite_example = op_compare-opposite words compared words_valid.0 words_valid.1

op_compare-strings_example :
    ((three ≡ seven)
      × Jumps words compared Dbm.eq
      × Jumps words compared Dbm.le
      × Jumps words compared Dbm.ge
      × Stays words compared Dbm.lt
      × Stays words compared Dbm.gt)
    ⊎ ((three ≢ seven)
        × Stays words compared Dbm.eq
        × (Jumps words compared Dbm.lt
              × Jumps words compared Dbm.le
              × Stays words compared Dbm.gt
              × Stays words compared Dbm.ge
            ⊎ Stays words compared Dbm.lt
              × Stays words compared Dbm.le
              × Jumps words compared Dbm.gt
              × Jumps words compared Dbm.ge))
op_compare-strings_example =
    op_compare-strings words compared three seven words_valid.0 words_valid.1 refl refl
