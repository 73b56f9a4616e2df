-- ===== src/Db/Btree/Open.antt =====
-- `chidb_Btree_open` of db/src/libchidb/btree.c, on a file that `fopen` has opened.
pub mod Created
use chi.Prelude.{
  ℕ, suc, ◌+◌, ◌-◌, ◌/◌, ◌%◌, ◌^◌, Bool, true, false, ◌&&◌, ◌||◌, not, ◌==◌, ltb, if◌then◌else◌,
  Option, none, some, List, [], ◌∷◌,
}
use chi.Db.Memory.{Bytes, zeros, poke}
use chi.Db.Util.{get2byte, put2byte, get4byte, put4byte}
use chi.Db.Codes.{Code, chidb_ok, chidb_ecorruptheader}
use chi.Db.Run.{Run, returns, undefined}
use chi.Db.File.{File, fread}
use chi.Db.Pager.{Pager}
use chi.Db.Btree.{BTree, BTreeNode, data_of, with_data, pgtype_table_leaf, create_node, write_node}

abbrev pub default_page_size : ℕ
default_page_size = 1024

-- "SQLite format 3"
abbrev pub magic : List ℕ
magic = 83 ∷ 81 ∷ 76 ∷ 105 ∷ 116 ∷ 101 ∷ 32 ∷ 102 ∷ 111 ∷ 114 ∷ 109 ∷ 97 ∷ 116 ∷ 32 ∷ 51 ∷ []

-- `strncmp(p, s, strlen(s)) == 0`, for a string with no zero in it
unfoldable pub starts_with : List ℕ → ℕ → Bytes → Bool
starts_with [] o p = true
starts_with (c ∷ s) o p = p o == c && starts_with s (o + 1) p

-- `strcpy(p + o, s)`
unfoldable pub put_string : List ℕ → ℕ → Bytes → Bytes
put_string [] o p = poke p o 0
put_string (c ∷ s) o p = put_string s (o + 1) (poke p o c)

-- The fields of the file's header that the code looks at.
unfoldable pub is_header : Bytes → Bool
is_header buffer =
    starts_with magic 0 buffer
    && get4byte buffer 24 == 0
    && get4byte buffer 40 == 0
    && get4byte buffer 60 == 0
    && get4byte buffer 48 == 20000

-- The page of the file's header and of the first, empty, leaf.
unfoldable pub first_node : BTree → BTreeNode
first_node bt =
    let root = create_node bt 1 pgtype_table_leaf in
    with_data root
      (put4byte (put2byte (put_string magic 0 (data_of root)) 16 default_page_size) 48 20000)

-- The file has bytes: `file_size` is one less than their number.
unfoldable pub open_existing : File → Run (Code × Option BTree)
open_existing f =
    let (num_read, buffer) = fread f 0 100 zeros in
    let page_size = get2byte buffer 16 in
    if ltb num_read 100
    then returns (chidb_ecorruptheader, none)
    else if not (is_header buffer)
    then returns (chidb_ecorruptheader, none)
    else if page_size == 0
    then undefined
    else returns (
      chidb_ok,
      some (record {
        pager = record {
          f = f;
          n_pages = (f.size - 1) % 2 ^ 32 / page_size;
          page_size = page_size;
        };
      }),
    )

unfoldable pub open_empty : File → Run (Code × Option BTree)
open_empty f =
    let bt : BTree = record {
      pager = record { f = f; n_pages = 1; page_size = default_page_size };
    } in
    let (result, bt', root) = write_node bt (first_node bt) in returns (result, some bt')

unfoldable pub open_btree : File → Run (Code × Option BTree)
open_btree f = if f.size == 0 then open_empty f else open_existing f
