-- ===== src/Db/Tests.antt =====
-- Runs of the code of db/ on concrete data, and its theorems at concrete inputs.
mod Search
mod Paging
mod Nodes
mod Opening
mod Api
mod Machine
mod Records
