-- ===== src/Db/Dbm.antt =====
-- db/src/libchidb/dbm.c, dbm-types.h and dbm.h: the database machine's state and its arrays.
pub mod Arrays
pub mod Cursors
pub mod Compare
pub mod Ops
pub mod Exec
pub mod Names
use chi.Prelude.{
  ℕ, ◌+◌, ◌%◌, ◌^◌, Bool, true, false, ◌&&◌, not, ◌==◌, ltb, leb, if◌then◌else◌, Option, none, some,
  List, [],
}
use chi.Db.Memory.{Bytes}
use chi.Db.Codes.{Code, chidb_ok}
use chi.Db.File.{File}
use chi.Db.Btree.{BTree}

pub data Opcode : Type 0 where
  noop open_read open_write close rewind next prev seek seek_gt seek_ge seek_lt seek_le : Opcode
  column key integer string null result_row make_record insert : Opcode
  eq ne lt le gt ge : Opcode
  idx_gt idx_ge idx_lt idx_le idx_pkey idx_insert create_table create_index copy scopy halt : Opcode

-- An `int32_t` is its 32 bits. A string is its bytes, without the zero; `none` is the null pointer.
pub record Op : Type 0 where
  pub opcode : Opcode
  pub p1 : ℕ
  pub p2 : ℕ
  pub p3 : ℕ
  pub p4 : Option (List ℕ)

-- The type of a register and the part of the union that goes with it. The last has the bytes and
-- their number.
pub data Register : Type 0 where
  unspecified null : Register
  int32 : ℕ → Register
  string : List ℕ → Register
  binary : Bytes → ℕ → Register

pub data CursorType : Type 0 where
  cursor_unspecified cursor_read cursor_write : CursorType

-- The path of a cursor is never set, so its two pointers are null. `none` is a tree that was never
-- opened.
pub record Cursor : Type 0 where
  pub type : CursorType
  pub bt : Option BTree

-- `disk` is the file as `fopen` gives it when the program begins.
pub record Stmt : Type 0 where
  pub pc : ℕ
  pub ops : ℕ → Op
  pub n_ops : ℕ
  pub end_op : ℕ
  pub reg : ℕ → Register
  pub n_reg : ℕ
  pub cursors : ℕ → Cursor
  pub n_cursors : ℕ
  pub start_rr : ℕ
  pub n_rr : ℕ
  pub cols : List (List ℕ)
  pub n_cols : ℕ
  pub explain : Bool
  pub error : Option (List ℕ)
  pub disk : File

abbrev pub set {ℓ} : {A : Type ℓ} → (ℕ → A) → ℕ → A → ℕ → A
set f a x i = if i == a then x else f i

-- What the loops of the `realloc_*` functions leave: `x` from index `lo` up to `hi`.
abbrev pub fill {ℓ} : {A : Type ℓ} → (ℕ → A) → ℕ → ℕ → A → ℕ → A
fill f lo hi x i = if leb lo i && ltb i hi then x else f i

abbrev pub noop_op : Op
noop_op = record { opcode = noop; p1 = 0; p2 = 0; p3 = 0; p4 = none }

unfoldable pub realloc_ops : Stmt → ℕ → Stmt
realloc_ops stmt size = record stmt { ops = fill stmt.ops stmt.n_ops size noop_op; n_ops = size }

unfoldable pub realloc_reg : Stmt → ℕ → Stmt
realloc_reg stmt size = record stmt {
  reg = fill stmt.reg stmt.n_reg size unspecified;
  n_reg = size;
}

-- Only the type of a new cursor is set; its other fields are never read before they are.
unfoldable pub realloc_cur : Stmt → ℕ → Stmt
realloc_cur stmt size = record stmt {
  cursors = fill stmt.cursors stmt.n_cursors size (record { type = cursor_unspecified; bt = none });
  n_cursors = size;
}

-- The instruction at `pos` is copied, with its own copy of the string.
unfoldable pub set_op : Stmt → Op → ℕ → Stmt
unfolding realloc_ops
set_op stmt op pos =
    let grown = if leb stmt.n_ops pos then realloc_ops stmt ((pos + 1) % 2 ^ 32) else stmt in
    record grown {
      ops = set grown.ops pos op;
      end_op = if leb grown.end_op pos then (pos + 1) % 2 ^ 32 else grown.end_op;
    }

-- `chidb_stmt_init`, with the default sizes of the arrays.
unfoldable pub stmt_init : File → Stmt
unfolding realloc_ops realloc_reg realloc_cur
stmt_init disk =
    realloc_cur
      (realloc_reg
        (realloc_ops
          (record {
            pc = 0;
            ops = λ i. noop_op;
            n_ops = 0;
            end_op = 0;
            reg = λ i. unspecified;
            n_reg = 0;
            cursors = λ i. record { type = cursor_unspecified; bt = none };
            n_cursors = 0;
            start_rr = 0;
            n_rr = 0;
            cols = [];
            n_cols = 0;
            explain = false;
            error = none;
            disk = disk;
          })
          50)
        10)
      10
