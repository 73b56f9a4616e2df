-- ===== src/Db/Btree/Fresh.antt =====
-- `chidb_Btree_createNode`, `newNode` and `initEmptyNode` of btree.c: empty nodes.
use chi.Prelude.{ℕ, ◌+◌, ◌*◌, ◌%◌, ◌^◌, ◌≤◌, ◌<◌, ◌≡◌, refl, subst, ap, ◌∙◌, [], arith, tabulate}
use chi.Db.Util.{get4byte}
use chi.Db.Codes.{chidb_ok}
use chi.Db.Pager.{allocate_page}
use chi.Db.Pager.Pages
use chi.Db.Pager.Pages.{allocate_page_lem, read_page-more}
use chi.Db.Btree.{BTree, BTreeNode, create_node, get_node_by_page, new_node, write_node}
use chi.Db.Btree.Entry.{IsPgType}
use chi.Db.Btree.Layout.{IsLaidOut, entry_at, entries}
use chi.Db.Btree.Disk.{IsStored, write_node_lem, get_node-write_node_ne, get_node-same_page}

module _ (bt : BTree) (npage type : ℕ) where
  n_cells-create_node : (create_node bt npage type).n_cells ≡ 0
  unfolding create_node
  n_cells-create_node = ground arith

  type-create_node : (create_node bt npage type).type ≡ type
  unfolding create_node
  type-create_node = ground arith

  npage-create_node : (create_node bt npage type).mem.npage ≡ npage
  unfolding create_node
  npage-create_node = ground arith

  -- A fresh node is laid out and has no entries.
  pub create_node-IsLaidOut :
      IsPgType type
      → 112 ≤ bt.pager.page_size
      → bt.pager.page_size < 2 ^ 16
      → IsLaidOut bt.pager.page_size (create_node bt npage type)
  unfolding create_node
  create_node-IsLaidOut k lo hi = record {
    known = rw type-create_node k;
    array = ground arith;
    free = ground arith;
    room = ground arith;
    top = ground arith;
    small = hi;
    cells = λ j h. absurd (omega (arith, n_cells-create_node));
  }

  pub create_node-IsStored : IsStored (create_node bt npage type)
  unfolding create_node get4byte
  create_node-IsStored = record { numbered = ground arith; leaf_right = ground arith }

  pub entries-create_node : entries (create_node bt npage type) ≡ []
  entries-create_node =
      ap (λ (n : ℕ). tabulate n (entry_at (create_node bt npage type))) n_cells-create_node

module _ (bt : BTree) (type : ℕ) (pv : Pages.IsValid bt.pager)
    (small : (bt.pager.n_pages + 1) * bt.pager.page_size < 2 ^ 32) where
  abbrev next : ℕ
  next = bt.pager.n_pages + 1

  abbrev grown : BTree
  grown = record { pager = record bt.pager { n_pages = next } }

  grown-IsValid : Pages.IsValid grown.pager
  grown-IsValid = record { sized = pv.sized; small = small }

  abbrev fresh : BTreeNode
  fresh = create_node grown next type

  new_node-eq : new_node bt type ≡ ((write_node grown fresh).0, next, (write_node grown fresh).1)
  unfolding new_node allocate_page
  new_node-eq =
      let few : next ≤ next * bt.pager.page_size = grind (arith, pv.sized) in
      let wrap : next % 2 ^ 32 ≡ next = omega arith in rw wrap

-- Where the device has room for one more page, pages have from 112 bytes to less than 65,536, and the
-- file stays below 2^32 bytes, a new node gets the page number behind those in use, whatever the file
-- holds there, is loaded as an empty node of its type that is laid out, and no page that was in use is
-- changed. The pages in use are those that the pager counts: in a file of whole pages that is opened
-- again the last page is not one of them, and the new node is written over it.
pub new_node_lem :
    (bt : BTree) (type m : ℕ) (out : BTreeNode)
    → Pages.IsValid bt.pager
    → IsPgType type
    → 112 ≤ bt.pager.page_size
    → bt.pager.page_size < 2 ^ 16
    → (bt.pager.n_pages + 1) * bt.pager.page_size < 2 ^ 32
    → (bt.pager.n_pages + 1) * bt.pager.page_size ≤ bt.pager.f.limit
    → 0 < m
    → m ≤ bt.pager.n_pages
    → let (rc, npage, bt') = new_node bt type in
      let (loaded, btn) = get_node_by_page bt' npage out in
      (rc ≡ chidb_ok)
      × (npage ≡ bt.pager.n_pages + 1)
      × (loaded ≡ chidb_ok)
      × IsLaidOut bt.pager.page_size btn
      × (btn.type ≡ type)
      × (entries btn ≡ [])
      × (get_node_by_page bt' m out ≡ get_node_by_page bt m out)
new_node_lem bt type m out pv k lo hi small room mlo mhi =
    let bt1 = grown bt type pv small in
    let node = fresh bt type pv small in
    let page : node.mem.npage ≡ bt.pager.n_pages + 1 = npage-create_node bt1 _ type in
    let (rc, loaded, laid, typed, right, same) =
      write_node_lem bt1 node out (grown-IsValid bt type pv small)
        (create_node-IsLaidOut bt1 _ type k lo hi) (create_node-IsStored bt1 _ type)
        (omega (arith, page)) (omega (arith, page)) (rw page room) in
    let bt2 = (write_node bt1 node).1 in
    let (loaded', laid', typed', same') =
      subst
        (λ (n : ℕ).
          ((get_node_by_page bt2 n out).0 ≡ chidb_ok)
          × IsLaidOut bt.pager.page_size (get_node_by_page bt2 n out).1
          × ((get_node_by_page bt2 n out).1.type ≡ type)
          × (entries (get_node_by_page bt2 n out).1 ≡ []))
        page
        (
          loaded,
          laid,
          typed ∙ type-create_node bt1 _ type,
          same ∙ entries-create_node bt1 _ type,
        ) in
    rw (new_node-eq bt type pv small) (
      rc,
      refl,
      loaded',
      laid',
      typed',
      same',
      get_node-write_node_ne bt1 node out m (grown-IsValid bt type pv small) (omega (arith, page))
            mlo (omega arith) (omega (arith, page))
          ∙ get_node-same_page bt bt1 m out
              (read_page-more bt.pager _ m out.mem mlo mhi (omega arith)),
    )
