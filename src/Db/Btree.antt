-- ===== src/Db/Btree.antt =====
-- db/src/libchidb/btree.h and btree.c: the nodes of a file of B-trees and their cells.
-- Searching and inserting stand in the modules below.
pub mod Cell
pub mod Frame
pub mod Entry
pub mod Written
pub mod Layout
pub mod Disk
pub mod Fresh
pub mod Find
pub mod Tree
pub mod Insert
pub mod Split
pub mod Open
pub mod Table
use chi.Prelude.{ℕ, ◌+◌, ◌%◌, ◌^◌, Bool, ◌||◌, ◌==◌, if◌then◌else◌}
use chi.Db.Memory.{Bytes, poke}
use chi.Db.Util.{get2byte, put2byte, get4byte, put4byte}
use chi.Db.Codes.{Code, chidb_ok}
use chi.Db.Pager.{
  MemPage, Pager, init_mem_page, allocate_page, read_page, write_page, release_mem_page,
}

abbrev pub pgtype_table_internal : ℕ
pgtype_table_internal = 0x05

abbrev pub pgtype_table_leaf : ℕ
pgtype_table_leaf = 0x0d

abbrev pub pgtype_index_internal : ℕ
pgtype_index_internal = 0x02

abbrev pub pgtype_index_leaf : ℕ
pgtype_index_leaf = 0x0a

-- The pointer back to the database is not modelled.
pub record BTree : Type 0 where
  pub pager : Pager

-- `celloffset_array` points into the page: it is the index of its first byte.
pub record BTreeNode : Type 0 where
  pub mem : MemPage
  pub type : ℕ
  pub free_offset : ℕ
  pub n_cells : ℕ
  pub cells_offset : ℕ
  pub right_page : ℕ
  pub celloffset_array : ℕ

-- `page->data`
abbrev pub data_of : BTreeNode → Bytes
data_of btn = btn.mem.page

abbrev pub with_data : BTreeNode → Bytes → BTreeNode
with_data btn bytes = record btn { mem = record { npage = btn.mem.npage; page = bytes } }

abbrev pub is_internal : ℕ → Bool
is_internal type = type == pgtype_table_internal || type == pgtype_index_internal

-- The first page begins with the file's header.
abbrev pub header_offset : ℕ → ℕ
header_offset npage = if npage == 1 then 100 else 0

unfoldable pub update_fields : BTreeNode → ℕ → BTreeNode
update_fields btn header =
    if is_internal btn.type
    then record btn {
      right_page = get4byte (data_of btn) (header + 8);
      celloffset_array = header + 12;
    }
    else record btn { right_page = 0; celloffset_array = header + 8 }

-- The fields that the C initializer leaves out are zero.
unfoldable pub create_node : BTree → ℕ → ℕ → BTreeNode
unfolding update_fields init_mem_page
create_node bt npage type =
    let is_leaf = type == pgtype_table_leaf || type == pgtype_index_leaf in
    let free_offset = if is_leaf then 8 else 12 in
    update_fields
      (record {
        mem = init_mem_page npage bt.pager.page_size;
        type = type;
        free_offset = free_offset + header_offset npage;
        n_cells = 0;
        cells_offset = bt.pager.page_size;
        right_page = 0;
        celloffset_array = 0;
      })
      (header_offset npage)

-- The node in a page of memory.
unfoldable pub node_of : ℕ → MemPage → BTreeNode
unfolding update_fields
node_of npage mem =
    let header = header_offset npage in
    update_fields
      (record {
        mem = mem;
        type = mem.page header;
        free_offset = get2byte mem.page (header + 1);
        n_cells = get2byte mem.page (header + 3);
        cells_offset = get2byte mem.page (header + 5);
        right_page = 0;
        celloffset_array = 0;
      })
      header

-- The out parameter is written only where the code is `chidb_ok`.
unfoldable pub get_node_by_page : BTree → ℕ → BTreeNode → Code × BTreeNode
unfolding node_of
get_node_by_page bt npage out =
    let (result, mem) = read_page bt.pager npage out.mem in
    if result == chidb_ok then (chidb_ok, node_of npage mem) else (result, out)

unfoldable pub free_mem_node : BTree → BTreeNode → Code
unfolding release_mem_page
free_mem_node bt btn = release_mem_page bt.pager btn.mem

-- The page with its header at index `header`, from the fields of the node.
unfoldable pub put_header : Bytes → ℕ → BTreeNode → Bytes
put_header page header btn =
    let typed = poke page header btn.type in
    let counted =
      put2byte (put2byte (put2byte typed (header + 1) btn.free_offset) (header + 3) btn.n_cells)
        (header + 5) btn.cells_offset in
    if is_internal btn.type then put4byte counted (header + 8) btn.right_page else counted

unfoldable pub sync_node : BTreeNode → BTreeNode
sync_node btn = with_data btn (put_header (data_of btn) (header_offset btn.mem.npage) btn)

unfoldable pub write_node : BTree → BTreeNode → Code × BTree × BTreeNode
unfolding sync_node
write_node bt btn =
    let synced = sync_node btn in
    let (result, pager') = write_page bt.pager synced.mem in
    (result, record { pager = pager' }, synced)

-- The code, the number of the new page, and the tree.
unfoldable pub new_node : BTree → ℕ → Code × ℕ × BTree
unfolding create_node write_node
new_node bt type =
    let (npage, pager') = allocate_page bt.pager in
    let bt' : BTree = record { pager = pager' } in
    let (result, bt'', node) = write_node bt' (create_node bt' npage type) in (result, npage, bt'')

unfoldable pub init_empty_node : BTree → ℕ → ℕ → Code × BTree
unfolding create_node write_node
init_empty_node bt npage type =
    let (result, bt', node) = write_node bt (create_node bt npage type) in (result, bt')
