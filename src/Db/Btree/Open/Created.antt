-- ===== src/Db/Btree/Open/Created.antt =====
-- `chidb_Btree_open` of btree.c on the file that it made itself.
use chi.Prelude.{
  ℕ, fun_ext, min, max, inl, inr, ne→==, eq→==, ◌==◌, ◌+◌, ◌-◌, ◌*◌, ◌/◌, ◌%◌, ◌^◌, ◌≤◌, ◌<◌, ◌≡◌,
  refl, ap, subst, ◌∙◌, true, ltb, if◌then◌else◌, some, [], arith,
}
use native.Mathlib.Nat.{div-eq_of_lt-le}
use chi.Db.Memory.{Bytes, zeros}
use chi.Db.Codes.{Code, chidb_ok, chidb_eio}
use chi.Db.Run.{returns}
use chi.Db.File.{File, fread, fwrite, written}
use chi.Db.Util.{get2byte, put2byte, get4byte, put4byte}
use chi.Db.Pager.{write_page, init_mem_page}
use chi.Db.Btree.{
  BTree, data_of, sync_node, put_header, write_node, create_node, get_node_by_page, BTreeNode,
  pgtype_table_leaf,
}
use chi.Db.Btree.Layout.{IsLaidOut, entries}
use chi.Db.Btree.Disk.{IsStored, write_node_lem}
use chi.Db.Pager.Pages
use chi.Db.Btree.Open.{
  is_header, open_btree, open_existing, open_empty, default_page_size, first_node, put_string,
  starts_with,
}

whole_pages :
    (size k page_size : ℕ)
    → 0 < page_size
    → size ≡ (k + 1) * page_size
    → size < 2 ^ 32
    → (size - 1) % 2 ^ 32 / page_size ≡ k
whole_pages size k page_size sized e small =
    let wrap : (size - 1) % 2 ^ 32 ≡ size - 1 = omega arith in
    rw wrap (div-eq_of_lt-le page_size (omega (arith, e)) (omega (arith, e)))

-- A file of `k` whole pages whose header is right is opened with one page less.
pub open-whole_pages :
    (f : File) (k : ℕ)
    → let buffer = (fread f 0 100 zeros).1 in
      let page_size = get2byte buffer 16 in
      is_header buffer ≡ true
      → 100 ≤ f.size
      → 0 < page_size
      → f.size ≡ (k + 1) * page_size
      → f.size < 2 ^ 32
      → open_btree f
        ≡ returns (
          chidb_ok,
          some (record { pager = record { f = f; n_pages = k; page_size = page_size } }),
        )
unfolding open_btree open_existing fread
open-whole_pages f k h lo sized e small =
    let page_size = get2byte (fread f 0 100 zeros).1 16 in
    let count : (f.size - 1) % 2 ^ 32 / page_size ≡ k =
      whole_pages f.size k page_size sized e small in
    ground (arith, h, count)

abbrev started : File → BTree
started f = record { pager = record { f = f; n_pages = 1; page_size = default_page_size } }

-- What is on disk once a new file is written.
abbrev made : File → File
made f = record {
  size = 1024;
  limit = f.limit;
  at = λ i. if ltb i 1024 then data_of (sync_node (first_node (started f))) i else 0;
}

-- A write to the beginning of an empty file.
fwrite-empty :
    (f : File) (n : ℕ) (src : Bytes)
    → f.size ≡ 0
    → 0 < n
    → n ≤ f.limit
    → fwrite f 0 n src
      ≡ (n, record { size = n; limit = f.limit; at = λ i. if ltb i n then src i else 0 })
unfolding fwrite
fwrite-empty f n src empty lo room =
    let k : min n (f.limit - 0) ≡ n = omega arith in
    let size : max f.size (0 + n) ≡ n = omega arith in
    let bytes : written f 0 n src ≡ (λ i. if ltb i n then src i else 0) =
      fun_ext λ i. let i_same : i - 0 ≡ i = omega arith in rw i_same ground arith in
    rw (k, ne→== n 0 (omega arith), size, bytes) refl

write_node-first_node :
    (f : File)
    → f.size ≡ 0
    → 1024 ≤ f.limit
    → write_node (started f) (first_node (started f)) ≡ (
      chidb_ok,
      record { pager = record (started f).pager { f = made f } },
      sync_node (first_node (started f)),
    )
unfolding write_node write_page first_node create_node
write_node-first_node f empty room =
    ap
      (λ (r : ℕ × File). (
        if r.0 == 1024 then chidb_ok else chidb_eio,
        record { pager = record (started f).pager { f = r.1 } },
        sync_node (first_node (started f)),
      ))
      (fwrite-empty f 1024 (data_of (sync_node (first_node (started f)))) empty (omega arith) room)

made-is_header : (f : File) → is_header (fread (made f) 0 100 zeros).1 ≡ true
unfolding is_header fread first_node put_string starts_with create_node init_mem_page sync_node
    get4byte put4byte put2byte put_header
made-is_header f = refl

first_node-IsLaidOut : (f : File) → IsLaidOut 1024 (first_node (started f))
unfolding first_node create_node
first_node-IsLaidOut f = record {
  known = inr (inr (inl refl));
  array = refl;
  free = refl;
  room = omega arith;
  top = omega arith;
  small = omega arith;
  cells = λ j h. absurd (omega arith);
}

first_node-IsStored : (f : File) → IsStored (first_node (started f))
unfolding first_node create_node
first_node-IsStored f = record { numbered = omega arith; leaf_right = λ e. refl }

abbrev built : File → BTree
built f = record { pager = record (started f).pager { f = made f } }

open_btree-empty :
    (f : File) → f.size ≡ 0 → 1024 ≤ f.limit → open_btree f ≡ returns (chidb_ok, some (built f))
unfolding open_btree open_empty
open_btree-empty f empty room = rw (eq→== _ _ empty, write_node-first_node f empty room) refl

made_page_size : (f : File) → get2byte (fread (made f) 0 100 zeros).1 16 ≡ 1024
unfolding fread first_node put_string create_node init_mem_page sync_node get2byte put4byte put2byte
    put_header
made_page_size f = refl

first_node-loaded :
    (f : File) (out : BTreeNode)
    → f.size ≡ 0
    → 1024 ≤ f.limit
    → ((get_node_by_page (built f) 1 out).0 ≡ chidb_ok)
      × IsLaidOut 1024 (get_node_by_page (built f) 1 out).1
      × ((get_node_by_page (built f) 1 out).1.type ≡ pgtype_table_leaf)
      × (entries (get_node_by_page (built f) 1 out).1 ≡ [])
unfolding first_node create_node
first_node-loaded f out empty room =
    let valid : Pages.IsValid (started f).pager = record {
      sized = omega arith;
      small = omega arith;
    } in
    let (rc, loaded, laid, typed, right, kept) =
      write_node_lem (started f) (first_node (started f)) out valid (first_node-IsLaidOut f)
        (first_node-IsStored f) (omega arith) (omega arith) (omega arith) in
    let there : (write_node (started f) (first_node (started f))).1 ≡ built f =
      ap (λ (r : Code × BTree × BTreeNode). r.1) (write_node-first_node f empty room) in
    subst
      (λ (bt : BTree).
        ((get_node_by_page bt 1 out).0 ≡ chidb_ok)
        × IsLaidOut 1024 (get_node_by_page bt 1 out).1
        × ((get_node_by_page bt 1 out).1.type ≡ pgtype_table_leaf)
        × (entries (get_node_by_page bt 1 out).1 ≡ []))
      there (loaded, laid, typed, kept)

open_btree-made :
    (f : File)
    → open_btree (made f)
      ≡ returns
          (chidb_ok, some (record { pager = record (started f).pager { f = made f; n_pages = 0 } }))
open_btree-made f =
    open-whole_pages (made f) 0 (made-is_header f) (omega arith) (omega (arith, made_page_size f))
      (omega (arith, made_page_size f)) (omega arith)
    ∙ ap
        (λ (n : ℕ).
          returns
            (chidb_ok, some (record { pager = record { f = made f; n_pages = 0; page_size = n } })))
        (made_page_size f)

-- An empty file on a device with room for a page is opened as a tree of one page, an empty table
-- leaf that is laid out. Opening what was written succeeds again, and counts no page.
pub open_btree-open_btree :
    (f : File) (out : BTreeNode)
    → f.size ≡ 0
    → 1024 ≤ f.limit
    → (bt : BTree) × (open_btree f ≡ returns (chidb_ok, some bt))
      × Pages.IsValid bt.pager
      × ((get_node_by_page bt 1 out).0 ≡ chidb_ok)
      × IsLaidOut bt.pager.page_size (get_node_by_page bt 1 out).1
      × ((get_node_by_page bt 1 out).1.type ≡ pgtype_table_leaf)
      × (entries (get_node_by_page bt 1 out).1 ≡ [])
      × (open_btree bt.pager.f
          ≡ returns (chidb_ok, some (record { pager = record bt.pager { n_pages = 0 } })))
open_btree-open_btree f out empty room =
    let (loaded, laid, typed, none_there) = first_node-loaded f out empty room in
    (
      built f,
      open_btree-empty f empty room,
      record { sized = omega arith; small = omega arith },
      loaded,
      laid,
      typed,
      none_there,
      open_btree-made f,
    )
