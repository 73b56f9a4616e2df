-- ===== src/Db.antt =====
-- db/: the chidb database, from bytes and pages up to the database machine.
pub mod Memory
pub mod Util
pub mod Codes
pub mod Run
pub mod File
pub mod Pager
pub mod Btree
pub mod Dbm
pub mod Api
mod Tests
pub mod Record
