-- ===== src/Db/Btree/Insert/Room.antt =====
-- What the test `is_insertable` of btree.c says of the room in a node.
