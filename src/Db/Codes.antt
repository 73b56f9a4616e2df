-- ===== src/Db/Codes.antt =====
-- The return codes of db/include/chidb/chidb.h and db/src/libchidb/chidbInt.h.
use chi.Prelude.{ℕ}

abbrev pub Code : Type 0
Code = ℕ

abbrev pub chidb_ok : Code
chidb_ok = 0

abbrev pub chidb_noheader : Code
chidb_noheader = 1

abbrev pub chidb_epageno : Code
chidb_epageno = 4

abbrev pub chidb_ecellno : Code
chidb_ecellno = 5

abbrev pub chidb_ecorruptheader : Code
chidb_ecorruptheader = 6

abbrev pub chidb_eio : Code
chidb_eio = 7

abbrev pub chidb_eduplicate : Code
chidb_eduplicate = 8

abbrev pub chidb_enotfound : Code
chidb_enotfound = 9

abbrev pub chidb_row : Code
chidb_row = 100

abbrev pub chidb_done : Code
chidb_done = 101
