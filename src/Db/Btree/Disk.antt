-- ===== src/Db/Btree/Disk.antt =====
-- `chidb_Btree_writeNode` and `chidb_Btree_getNodeByPage` of btree.c: a node on disk and back.
mod Header
use chi.Prelude.{
  ℕ, ◌+◌, ◌*◌, ◌^◌, ◌≤◌, ◌<◌, ◌≡◌, ◌≢◌, refl, sym, ap, ◌∙◌, true, false, arith, tabulate_eq,
}
use chi.Db.Util.{get2byte, get4byte}
use chi.Db.Util.Words.{get2byte-Agree, get4byte-Agree}
use chi.Db.Util.Varint.{get_varint32-Agree}
use chi.Db.Btree.Frame.{cell_size}
use chi.Db.Codes.{chidb_ok}
use chi.Db.Pager.{MemPage, read_page}
use chi.Db.Pager.Pages
use chi.Db.Pager.Pages.{
  page_of, read_page-write_page_self, read_page-write_page_ne, write_page-ok, write_page-IsValid,
  page_size-write_page,
}
use chi.Db.Btree.{
  BTree, BTreeNode, data_of, with_data, is_internal, header_offset, node_of, get_node_by_page,
  sync_node, write_node,
}
use chi.Db.Btree.Cell.{cell_at}
use chi.Db.Btree.Entry.{entry, entry-Agree, size_at, IsPgType}
use chi.Db.Btree.Disk.Header.{
  put_header-Agree, header_type, header_free, header_n_cells, header_cells_offset,
  header_right_page,
}
use chi.Db.Btree.Layout.{IsLaidOut, entry_at, entries}

-- The fields that a page has no other trace of.
pub record IsStored (btn : BTreeNode) : Type 0 where
  pub numbered : btn.right_page < 2 ^ 32
  pub leaf_right : is_internal btn.type ≡ false → btn.right_page ≡ 0

four-le-cell_size : (type n : ℕ) → IsPgType type → 4 ≤ cell_size type n
four-le-cell_size type n k = ground arith

get_node-read :
    (bt : BTree) (npage : ℕ) (out : BTreeNode) (mem : MemPage)
    → read_page bt.pager npage out.mem ≡ (chidb_ok, mem)
    → get_node_by_page bt npage out ≡ (chidb_ok, node_of npage mem)
unfolding get_node_by_page
get_node-read bt npage out mem e = rw e

module _ (size : ℕ) (btn : BTreeNode) (v : IsLaidOut size btn) (st : IsStored btn) where
  -- The node, over the page that was written as it reads back.
  abbrev pub reloaded : BTreeNode
  reloaded = with_data btn (page_of size (data_of (sync_node btn)))

  -- A page that is as long as the node reads as it was written.
  stored_get2byte :
      (o : ℕ) → o + 2 ≤ size → get2byte (data_of reloaded) o ≡ get2byte (data_of (sync_node btn)) o
  stored_get2byte o le = get2byte-Agree _ _ o (λ i l u. ground arith)

  stored_type : data_of reloaded (header_offset btn.mem.npage) ≡ btn.type
  unfolding sync_node
  stored_type = ground (arith, v, header_type (data_of btn) (header_offset btn.mem.npage) btn)

  stored_free : get2byte (data_of reloaded) (header_offset btn.mem.npage + 1) ≡ btn.free_offset
  unfolding sync_node
  stored_free =
      stored_get2byte (header_offset btn.mem.npage + 1) (ground arith)
      ∙ header_free (data_of btn) (header_offset btn.mem.npage) btn
      ∙ omega arith

  stored_n_cells : get2byte (data_of reloaded) (header_offset btn.mem.npage + 3) ≡ btn.n_cells
  unfolding sync_node
  stored_n_cells =
      stored_get2byte (header_offset btn.mem.npage + 3) (ground arith)
      ∙ header_n_cells (data_of btn) (header_offset btn.mem.npage) btn
      ∙ omega arith

  stored_cells_offset :
      get2byte (data_of reloaded) (header_offset btn.mem.npage + 5) ≡ btn.cells_offset
  unfolding sync_node
  stored_cells_offset =
      stored_get2byte (header_offset btn.mem.npage + 5) (ground arith)
      ∙ header_cells_offset (data_of btn) (header_offset btn.mem.npage) btn
      ∙ omega arith

  stored_right_page :
      is_internal btn.type ≡ true
      → get4byte (data_of reloaded) (header_offset btn.mem.npage + 8) ≡ btn.right_page
  unfolding sync_node
  stored_right_page e =
      get4byte-Agree _ _ (header_offset btn.mem.npage + 8) (λ i l u. ground arith)
      ∙ header_right_page (data_of btn) (header_offset btn.mem.npage) btn e
      ∙ omega arith

  node_of-reloaded : node_of btn.mem.npage reloaded.mem ≡ reloaded
  unfolding node_of
  node_of-reloaded =
      ground
        (arith, stored_type, stored_free, stored_n_cells, stored_cells_offset, stored_right_page)

  -- Cells and their offsets are read back as they were.
  stored_kept : (i : ℕ) → btn.celloffset_array ≤ i → i < size → data_of reloaded i ≡ data_of btn i
  unfolding sync_node
  stored_kept i lo hi =
      ground (arith, put_header-Agree (data_of btn) (header_offset btn.mem.npage) btn i, v.array)

  cell_at-reloaded : (j : ℕ) → j < btn.n_cells → cell_at reloaded j ≡ cell_at btn j
  cell_at-reloaded j h =
      get2byte-Agree _ _ _
        (λ i l u. stored_kept i (omega arith) (omega (arith, v.free, v.room, v.top)))

  entry-reloaded : (j : ℕ) → j < btn.n_cells → entry_at reloaded j ≡ entry_at btn j
  entry-reloaded j h =
      ap (λ (a : ℕ). entry btn.type (data_of reloaded) a) (cell_at-reloaded j h)
      ∙ sym (
          entry-Agree btn.type (data_of btn) (data_of reloaded) (cell_at btn j) v.known (λ i l u.
            sym (
              stored_kept i (omega (arith, v.free, v.room, v.cells j h))
                (omega (arith, v.cells j h)))))

  size-reloaded :
      (j : ℕ)
      → j < btn.n_cells
      → size_at btn.type (data_of reloaded) (cell_at reloaded j)
        ≡ size_at btn.type (data_of btn) (cell_at btn j)
  size-reloaded j h =
      ap (λ (a : ℕ). size_at btn.type (data_of reloaded) a) (cell_at-reloaded j h)
      ∙ ap (cell_size btn.type) (
          get_varint32-Agree _ _ (cell_at btn j) (λ i l u.
            stored_kept i (omega (arith, v.free, v.room, v.cells j h))
              (omega (arith, v.cells j h, four-le-cell_size btn.type _ v.known))))

  reloaded-IsLaidOut : IsLaidOut size reloaded
  reloaded-IsLaidOut = record {
    known = v.known;
    array = v.array;
    free = v.free;
    room = v.room;
    top = v.top;
    small = v.small;
    cells = λ j h. omega (arith, v.cells j h, cell_at-reloaded j h, size-reloaded j h);
  }

get_node-write_node :
    (bt : BTree) (btn out : BTreeNode) (pv : Pages.IsValid bt.pager)
    (v : IsLaidOut bt.pager.page_size btn) (st : IsStored btn)
    → 0 < btn.mem.npage
    → btn.mem.npage ≤ bt.pager.n_pages
    → btn.mem.npage * bt.pager.page_size ≤ bt.pager.f.limit
    → get_node_by_page (write_node bt btn).1 btn.mem.npage out
      ≡ (chidb_ok, reloaded bt.pager.page_size btn v st)
unfolding write_node
get_node-write_node bt btn out pv v st lo hi room =
    get_node-read (write_node bt btn).1 btn.mem.npage out _ (
      read_page-write_page_self bt.pager btn.mem.npage (data_of (sync_node btn)) out.mem pv lo hi
        room)
    ∙ ap (λ (b : BTreeNode). (chidb_ok, b)) (node_of-reloaded bt.pager.page_size btn v st)

-- A node is loaded from its own page alone.
pub get_node-same_page :
    (bt bt' : BTree) (m : ℕ) (out : BTreeNode)
    → read_page bt'.pager m out.mem ≡ read_page bt.pager m out.mem
    → get_node_by_page bt' m out ≡ get_node_by_page bt m out
unfolding get_node_by_page
get_node-same_page bt bt' m out e = rw e

pub get_node-write_node_ne :
    (bt : BTree) (btn out : BTreeNode) (m : ℕ)
    → Pages.IsValid bt.pager
    → 0 < btn.mem.npage
    → 0 < m
    → m ≤ bt.pager.n_pages
    → m ≢ btn.mem.npage
    → get_node_by_page (write_node bt btn).1 m out ≡ get_node_by_page bt m out
unfolding write_node
get_node-write_node_ne bt btn out m pv lo mlo mhi ne =
    get_node-same_page bt (write_node bt btn).1 m out (
      read_page-write_page_ne bt.pager btn.mem.npage m (data_of (sync_node btn)) out.mem pv lo mlo
        mhi ne)

-- Writing a node keeps the pager's invariant and the size of its pages.
pub write_node-IsValid :
    (bt : BTree) (btn : BTreeNode)
    → Pages.IsValid bt.pager
    → Pages.IsValid (write_node bt btn).1.pager
      × ((write_node bt btn).1.pager.page_size ≡ bt.pager.page_size)
unfolding write_node
write_node-IsValid bt btn pv =
    (write_page-IsValid (sync_node btn).mem pv, page_size-write_page bt.pager (sync_node btn).mem)

-- A node that is laid out, written to a page in use where the device has room, is loaded again with
-- its type, its right page and its entries, and is laid out.
pub write_node_lem :
    (bt : BTree) (btn out : BTreeNode)
    → Pages.IsValid bt.pager
    → IsLaidOut bt.pager.page_size btn
    → IsStored btn
    → 0 < btn.mem.npage
    → btn.mem.npage ≤ bt.pager.n_pages
    → btn.mem.npage * bt.pager.page_size ≤ bt.pager.f.limit
    → let (rc, bt', synced) = write_node bt btn in
      let (loaded, btn') = get_node_by_page bt' btn.mem.npage out in
      (rc ≡ chidb_ok)
      × (loaded ≡ chidb_ok)
      × IsLaidOut bt.pager.page_size btn'
      × (btn'.type ≡ btn.type)
      × (btn'.right_page ≡ btn.right_page)
      × (entries btn' ≡ entries btn)
write_node_lem bt btn out pv v st lo hi room =
    let size = bt.pager.page_size in
    rw (get_node-write_node bt btn out pv v st lo hi room) (
      unfold write_node in
          write_page-ok bt.pager btn.mem.npage (data_of (sync_node btn)) pv lo hi room,
      refl,
      reloaded-IsLaidOut size btn v st,
      refl,
      refl,
      tabulate_eq btn.n_cells _ _ (entry-reloaded size btn v st),
    )
