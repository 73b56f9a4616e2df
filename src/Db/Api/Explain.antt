-- ===== src/Db/Api/Explain.antt =====
-- An explained statement of api.c, stepped through to its end.
use chi.Prelude.{
  ℕ, zero, suc, ◌+◌, ◌-◌, ◌%◌, ◌^◌, ◌≡◌, ◌<◌, ◌≤◌, refl, true, false, Option, some, List, [], ◌∷◌,
  ◌==◌, if◌then◌else◌, arith, lt→ltb,
}
use chi.Db.Codes.{Code, chidb_row, chidb_done}
use chi.Db.Run.{Run, returns, out_of_fuel, ◌>>=◌}
use chi.Db.Dbm.{Op, Stmt}
use chi.Db.Dbm.Names.{opcode_to_str}
use chi.Db.Dbm.Exec.{advance}
use chi.Db.Api.{step, column_int, column_text}

-- The six columns of an explained instruction.
pub record Explained : Type 0 where
  pub addr : ℕ
  pub opcode : Option (List ℕ)
  pub p1 : ℕ
  pub p2 : ℕ
  pub p3 : ℕ
  pub p4 : Option (List ℕ)

-- The columns as the functions of the API give them.
unfoldable pub read_row : Stmt → Run Explained
read_row stmt = column_int stmt 0 >>= λ addr. column_text stmt 1 >>= λ opcode.
    column_int stmt 2 >>= λ p1. column_int stmt 3 >>= λ p2. column_int stmt 4 >>= λ p3.
    column_text stmt 5 >>= λ p4.
    returns (record { addr = addr; opcode = opcode; p1 = p1; p2 = p2; p3 = p3; p4 = p4 })

-- A caller that steps and reads a row until there is none, `limit` times at most: the rows and the
-- last answer.
unfoldable pub read_rows : ℕ → ℕ → Stmt → Run (List Explained × Code)
read_rows zero fuel stmt = out_of_fuel
read_rows (suc limit) fuel stmt = step fuel stmt >>= λ r.
    if r.0 == chidb_row
    then (read_row r.1 >>= λ row.
        read_rows limit fuel r.1 >>= λ rest. returns (row ∷ rest.0, rest.1))
    else returns ([], r.0)

abbrev pub explained : ℕ → Op → Explained
explained i op = record {
  addr = i;
  opcode = some (opcode_to_str op.opcode);
  p1 = op.p1;
  p2 = op.p2;
  p3 = op.p3;
  p4 = op.p4;
}

-- `k` instructions from index `i` on.
unfoldable pub listing : (ℕ → Op) → ℕ → ℕ → List Explained
listing ops i zero = []
listing ops i (suc k) = explained i (ops i) ∷ listing ops (i + 1) k

read_row_lem :
    (stmt : Stmt)
    → stmt.explain ≡ true
    → stmt.pc < stmt.n_ops
    → stmt.n_ops < 2 ^ 32
    → read_row (advance stmt) ≡ returns (explained stmt.pc (stmt.ops stmt.pc))
unfolding read_row column_int column_text
read_row_lem stmt e h small =
    let back : ((stmt.pc + 1) % 2 ^ 32 + (2 ^ 32 - 1)) % 2 ^ 32 ≡ stmt.pc = omega arith in
    rw (e, back, lt→ltb _ _ h) refl

step-explain :
    (fuel : ℕ) (stmt : Stmt)
    → stmt.explain ≡ true
    → stmt.pc == stmt.end_op ≡ false
    → step fuel stmt ≡ returns (chidb_row, advance stmt)
unfolding step
step-explain fuel stmt e more = simp (e, more)

step-end :
    (fuel : ℕ) (stmt : Stmt)
    → stmt.explain ≡ true
    → stmt.pc == stmt.end_op ≡ true
    → step fuel stmt ≡ returns (chidb_done, stmt)
unfolding step
step-end fuel stmt e done = simp (e, done)

-- An explained statement, whose program ends within its array of less than 2^32 instructions, gives
-- each of the `k` instructions it has before it, in their order and each once, with its address, name
-- and parameters, and then answers CHIDB_DONE, for a caller that steps more than `k` times.
pub explain_lem :
    (k limit fuel : ℕ) (stmt : Stmt)
    → stmt.explain ≡ true
    → stmt.pc + k ≡ stmt.end_op
    → stmt.end_op ≤ stmt.n_ops
    → stmt.n_ops < 2 ^ 32
    → k < limit
    → read_rows limit fuel stmt ≡ returns (listing stmt.ops stmt.pc k, chidb_done)
unfolding read_rows listing
explain_lem k zero fuel stmt e n inside small lim = absurd (omega arith)
explain_lem zero (suc limit) fuel stmt e n inside small lim =
    let done : stmt.pc == stmt.end_op ≡ true = ground (arith, n) in
    rw (step-end fuel stmt e done) refl
explain_lem (suc k) (suc limit) fuel stmt e n inside small lim =
    let more : stmt.pc == stmt.end_op ≡ false = ground (arith, n) in
    let wrap : (stmt.pc + 1) % 2 ^ 32 ≡ stmt.pc + 1 = omega (arith, n) in
    let rest =
      explain_lem k limit fuel (advance stmt) e (omega (arith, n)) inside small (omega arith) in
    rw (step-explain fuel stmt e more, read_row_lem stmt e (omega (arith, n)) small, rest, wrap)
      refl
