-- ===== src/Db/Dbm/Names.antt =====
-- The names of the instructions, of db/src/libchidb/dbm-types.h.
use chi.Prelude.{ℕ, List, codes}
use chi.Db.Dbm.{
  Opcode, noop, open_read, open_write, close, rewind, next, prev, seek, seek_gt, seek_ge, seek_lt,
  seek_le, column, key, integer, result_row, make_record, insert, eq, ne, lt, le, gt, ge, idx_gt,
  idx_ge, idx_lt, idx_le, idx_pkey, idx_insert, create_table, create_index, copy, scopy, halt,
}
use chi.Db.Dbm

abbrev pub opcode_to_str : Opcode → List ℕ
opcode_to_str noop = codes "Noop"
opcode_to_str open_read = codes "OpenRead"
opcode_to_str open_write = codes "OpenWrite"
opcode_to_str close = codes "Close"
opcode_to_str rewind = codes "Rewind"
opcode_to_str next = codes "Next"
opcode_to_str prev = codes "Prev"
opcode_to_str seek = codes "Seek"
opcode_to_str seek_gt = codes "SeekGt"
opcode_to_str seek_ge = codes "SeekGe"
opcode_to_str seek_lt = codes "SeekLt"
opcode_to_str seek_le = codes "SeekLe"
opcode_to_str column = codes "Column"
opcode_to_str key = codes "Key"
opcode_to_str integer = codes "Integer"
opcode_to_str Dbm.string = codes "String"
opcode_to_str Dbm.null = codes "Null"
opcode_to_str result_row = codes "ResultRow"
opcode_to_str make_record = codes "MakeRecord"
opcode_to_str insert = codes "Insert"
opcode_to_str eq = codes "Eq"
opcode_to_str ne = codes "Ne"
opcode_to_str lt = codes "Lt"
opcode_to_str le = codes "Le"
opcode_to_str gt = codes "Gt"
opcode_to_str ge = codes "Ge"
opcode_to_str idx_gt = codes "IdxGt"
opcode_to_str idx_ge = codes "IdxGe"
opcode_to_str idx_lt = codes "IdxLt"
opcode_to_str idx_le = codes "IdxLe"
opcode_to_str idx_pkey = codes "IdxPKey"
opcode_to_str idx_insert = codes "IdxInsert"
opcode_to_str create_table = codes "CreateTable"
opcode_to_str create_index = codes "CreateIndex"
opcode_to_str copy = codes "Copy"
opcode_to_str scopy = codes "SCopy"
opcode_to_str halt = codes "Halt"
