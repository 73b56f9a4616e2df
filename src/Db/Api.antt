-- ===== src/Db/Api.antt =====
-- db/src/libchidb/api.c, codegen.c and optimizer.c: a statement is prepared, stepped through, and the
-- columns of its row are read.
pub mod Explain
pub mod Ends
use chi.Prelude.{
  ℕ, ◌+◌, ◌-◌, ◌*◌, ◌%◌, ◌^◌, Bool, true, false, ◌||◌, ◌==◌, leb, ltb, if◌then◌else◌, Option, none,
  some, List, [], ◌∷◌, length, codes, get_elem?,
}
use chi.Db.Codes.{Code, chidb_ok, chidb_row, chidb_done}
use chi.Db.Run.{Run, returns, undefined, ◌>>=◌}
use chi.Db.File.{File}
use chi.Db.Dbm.{Op, Opcode, Register, unspecified, int32, binary, Stmt, set_op, stmt_init}
use chi.Db.Dbm
use chi.Db.Dbm.Names.{opcode_to_str}
use chi.Db.Dbm.Exec.{advance, exec}

-- A parsed statement, as far as the code of chidb reads it.
pub record SqlStatement : Type 0 where
  pub text : List ℕ
  pub explain : Bool

-- The instructions `chidb_stmt_codegen` loads, whatever the statement.
abbrev pub instruction : Opcode → ℕ → ℕ → Option (List ℕ) → Op
instruction opcode p1 p2 p4 = record { opcode = opcode; p1 = p1; p2 = p2; p3 = 0; p4 = p4 }

abbrev pub row_op : Op
row_op = instruction Dbm.result_row 0 3 none

abbrev pub loaded_ops : List ℕ → List Op
loaded_ops text =
    instruction Dbm.integer 1 0 none
    ∷ instruction Dbm.string (length text % 2 ^ 32) 1 (some text)
    ∷ instruction Dbm.null 0 2 none
    ∷ row_op
    ∷ instruction Dbm.integer 2 0 none
    ∷ row_op
    ∷ instruction Dbm.integer 3 0 none
    ∷ row_op
    ∷ instruction Dbm.integer 4 0 none
    ∷ row_op
    ∷ instruction Dbm.integer 5 0 none
    ∷ row_op
    ∷ instruction Dbm.halt 0 0 none
    ∷ []

abbrev pub set_ops : Stmt → List Op → ℕ → Stmt
set_ops stmt [] opnum = stmt
set_ops stmt (op ∷ ops) opnum = set_ops (set_op stmt op opnum) ops (opnum + 1)

unfoldable pub stmt_codegen : Stmt → SqlStatement → Code × Stmt
stmt_codegen stmt sql_stmt = (
  chidb_ok,
  set_ops (record stmt { n_cols = 3; cols = codes "id" ∷ codes "sql" ∷ codes "null" ∷ [] })
      (loaded_ops sql_stmt.text) 0,
)

-- The optimizer copies the statement.
abbrev pub stmt_optimize : SqlStatement → Code × SqlStatement
stmt_optimize sql_stmt = (chidb_ok, sql_stmt)

-- The parser is generated: it is a parameter. `none` is a statement that is freed.
unfoldable pub prepare : (List ℕ → Code × SqlStatement) → File → List ℕ → Code × Option Stmt
prepare parser disk sql =
    let parsed = parser sql in
    if parsed.0 == chidb_ok
    then (let optimized = stmt_optimize parsed.1 in
        let coded = stmt_codegen (stmt_init disk) optimized.1 in
        (coded.0, some (record coded.1 { explain = parsed.1.explain })))
    else (parsed.0, none)

-- Fuel as for the machine.
unfoldable pub step : ℕ → Stmt → Run (Code × Stmt)
step fuel stmt =
    if stmt.explain
    then if stmt.pc == stmt.end_op
      then returns (chidb_done, stmt)
      else returns (chidb_row, advance stmt)
    else exec fuel stmt

unfoldable pub column_count : Stmt → ℕ
column_count stmt = if stmt.explain then 6 else stmt.n_cols

-- `&stmt->ops[stmt->pc - 1]`, when it is in the array
abbrev pub last_op : Stmt → Run Op
last_op stmt =
    let i = (stmt.pc + (2 ^ 32 - 1)) % 2 ^ 32 in
    if ltb i stmt.n_ops then returns (stmt.ops i) else undefined

-- `&stmt->reg[stmt->startRR + col]`
abbrev pub row_register : Stmt → ℕ → Run Register
row_register stmt col =
    let i = (stmt.start_rr + col) % 2 ^ 32 in
    if ltb i stmt.n_reg then returns (stmt.reg i) else undefined

-- `col < 0 || col >= stmt->nCols`, of the 32 bits of `col`
abbrev pub is_outside : Stmt → ℕ → Bool
is_outside stmt col = leb (2 ^ 31) col || leb stmt.n_cols col

-- `none` is the null pointer.
abbrev pub explained_names : List (List ℕ)
explained_names =
    codes "addr" ∷ codes "opcode" ∷ codes "p1" ∷ codes "p2" ∷ codes "p3" ∷ codes "p4" ∷ []

unfoldable pub column_name : Stmt → ℕ → Option (List ℕ)
column_name stmt col =
    if stmt.explain
    then get_elem? explained_names col
    else if is_outside stmt col
    then none
    else get_elem? stmt.cols col

abbrev pub register_int : Register → ℕ
register_int unspecified = 0
register_int Dbm.null = 0
register_int (int32 i) = i
register_int (Dbm.string s) = 0
register_int (binary p n) = 0

abbrev pub register_text : Register → Option (List ℕ)
register_text unspecified = none
register_text Dbm.null = none
register_text (int32 i) = none
register_text (Dbm.string s) = some s
register_text (binary p n) = none

abbrev pub sql_type_notvalid : ℕ
sql_type_notvalid = 2 ^ 32 - 1

abbrev pub sql_type_null : ℕ
sql_type_null = 0

abbrev pub sql_type_integer_4byte : ℕ
sql_type_integer_4byte = 4

abbrev pub sql_type_text : List ℕ → ℕ
sql_type_text s = (2 * length s + 13) % 2 ^ 32

abbrev pub register_type : Register → ℕ
register_type unspecified = sql_type_notvalid
register_type Dbm.null = sql_type_null
register_type (int32 i) = sql_type_integer_4byte
register_type (Dbm.string s) = sql_type_text s
register_type (binary p n) = sql_type_notvalid

-- The switch on the column of an explained instruction.
abbrev pub explained_type : Op → ℕ → ℕ
explained_type op col =
    if col == 1
    then sql_type_text (opcode_to_str op.opcode)
    else if col == 5
    then (elim op.p4 [ none ↦ sql_type_null | some s ↦ sql_type_text s ])
    else if leb col 4
    then sql_type_integer_4byte
    else sql_type_notvalid

unfoldable pub column_type : Stmt → ℕ → Run ℕ
column_type stmt col =
    if stmt.explain
    then (last_op stmt >>= λ op. returns (explained_type op col))
    else if is_outside stmt col
    then returns sql_type_notvalid
    else row_register stmt col >>= λ r. returns (register_type r)

abbrev pub explained_int : ℕ → Op → ℕ → ℕ
explained_int pc op col =
    if col == 0
    then (pc + (2 ^ 32 - 1)) % 2 ^ 32
    else if col == 2
    then op.p1
    else if col == 3
    then op.p2
    else if col == 4
    then op.p3
    else 0

unfoldable pub column_int : Stmt → ℕ → Run ℕ
column_int stmt col =
    if stmt.explain
    then (last_op stmt >>= λ op. returns (explained_int stmt.pc op col))
    else if is_outside stmt col
    then returns 0
    else row_register stmt col >>= λ r. returns (register_int r)

abbrev pub explained_text : Op → ℕ → Option (List ℕ)
explained_text op col =
    if col == 1 then some (opcode_to_str op.opcode) else if col == 5 then op.p4 else none

unfoldable pub column_text : Stmt → ℕ → Run (Option (List ℕ))
column_text stmt col =
    if stmt.explain
    then (last_op stmt >>= λ op. returns (explained_text op col))
    else if is_outside stmt col
    then returns none
    else row_register stmt col >>= λ r. returns (register_text r)
