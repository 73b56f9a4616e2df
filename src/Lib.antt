-- ===== src/Lib.antt =====
-- chi: a small database, chidb, and an IRC server, modelled from their C code.
--
-- The database is a file of pages. The pager (db/src/libchidb/pager.c) numbers the pages of an open
-- file; a B-tree file (db/src/libchidb/btree.c) reads and writes nodes through it; a node is a page
-- with a header, an array of cell offsets that grows upwards and an area of cells that grows
-- downwards. The integers of a page are read and written by util.c and util.h.
--
-- Prelude, Bits: natural numbers, tests, lists and the bit operations of C on them.
-- Db.Memory, Db.File, Db.Run, Db.Codes: bytes behind a pointer, an open file as fseek, fread and
--   fwrite see it, how a call ends (it returns, fails an assertion, uses what was never set, or runs
--   out of the model's fuel), and the return codes of chidb.h and chidbInt.h.
-- Db.Util: get2byte, put2byte (util.h), get4byte, put4byte, getVarint32, putVarint32 (util.c).
-- Db.Pager: chidb_Pager_setPageSize, readHeader, allocatePage, readPage, writePage, releaseMemPage,
--   getRealDBSize and initMemPage. Pager.Pages has the invariant and the laws of pages.
-- Db.Btree: the structs of btree.h, createNode, getNodeByPage, freeMemNode, syncNode, writeNode,
--   newNode and initEmptyNode of btree.c. A pointer into a page is an index of the page.
--   Btree.Cell: getCell and insertCell. The union of a cell is its two words and the bytes that its
--     pointer reaches. Frame, Entry, Written and Layout: what a cell occupies and says, and a node as
--     a list of entries. Disk and Fresh: a node on disk, and new nodes.
--   Btree.Find: chidb_Btree_find. Tree: a tree of pages as its rows from left to right.
--   Btree.Insert: is_insertable, chidb_Btree_insertNonFull, and the way down of chidb_Btree_insert.
--   Btree.Split: the split of chidb_Btree_insert, insertInTable and insertInIndex.
--   Btree.Open: chidb_Btree_open, on a file that fopen has opened.
--   Btree.Table: a table in one leaf, insertion and search together.
-- Db.Dbm: the database machine: the structs of dbm-types.h and the arrays of dbm.c that grow.
--   Dbm.Cursors: dbm-cursor.c. Dbm.Compare: the tests of the six comparisons.
--   Dbm.Ops: the handlers of dbm-ops.c. Dbm.Exec: chidb_stmt_exec. Dbm.Names: the opcodes' names.
-- Db.Api: chidb_prepare, chidb_step and the columns (api.c), with the program that codegen.c loads and
--   the copy that optimizer.c makes. The parser is generated and is a parameter. Api.Explain and
--   Api.Ends: a statement stepped through.
-- Db.Record: building and reading a record, and chidb_DBRecord_print as a list of values (record.c).
--   Record.Raw: pack and unpack. Record.Create: chidb_DBRecord_create. Values, Append, Header,
--   HeaderRead, Printed, RoundTrip: the values that a record holds. Spec: the specification string.
--   Bounds: what the buffer bears. HeaderTypes and Fields: unpacking any bytes.
-- Irc.Users: the table of users of the IRC server (irc/src/user.c). A user is the address of its
--   struct. Users.Nicks and Users.Table: a nick and its user.
-- Irc.Channels: the channels, their members and messages (irc/src/channel.c). Channels.Members: who
--   is a member.
-- Irc.Message: find_cr, read_full_message, parse_message and is_valid (irc/src/message.c). Tokens and
--   Parse: words and messages as they are written. Lines and Split: the first line of a text.
-- Irc.Client: the loop of handle_client, which takes what is done with a message as a parameter. Reads
--   and Framing: chunks and lines.
-- Irc.Reply: the replies (irc/src/reply.c) as bytes, which are events of the server's state; Reply.Send
--   has the state and send_reply.
-- Irc.Server: the handlers and handle_msg (irc/src/server.c). Server.Registration:
--   handle_registration. Calls, Replies, Addressed and Safety: whom something is sent to. Messages,
--   Leaving, Slots, Registered, Joining, Welcome and Enrolled: what the commands do.
-- Db.Tests, Irc.Tests: runs on concrete data and the theorems at concrete inputs.
--
-- Numbers are natural numbers; the wrap-around of 16 and 32 bits is written out. Memory allocation
-- always succeeds and what is freed is not followed. Loops over the cells of a node go on for the
-- number of cells; the search and the way down an insertion take fuel, one for each level of the tree.
--
-- The machine's loop takes fuel, one more than the instructions that are run. An int32_t is its 32
-- bits. The file of a cursor is as it was when the program began.
--
-- What fresh memory holds is a parameter, and so is the number of bytes that unpack is given. Its loop
-- takes 256 rounds, since it has stored outside of its array by then; that of handle_client takes fuel, one for each message and one more.
-- A string is the list of its characters. Messages are handled one after the other; a send is complete.
-- Memory that is a byte short, or of the size of a pointer where a struct is meant, is taken to be
-- large enough.
--
-- Not modelled: printing a program or a page, the program files of the machine, the SQL front end and
-- its syntax trees, the shell, logging, the copy of simclist, and of the IRC server its sockets and
-- threads.
pub mod Prelude
pub mod Bits
pub mod Db
pub mod Irc
