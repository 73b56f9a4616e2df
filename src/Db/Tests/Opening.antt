-- ===== src/Db/Tests/Opening.antt =====
-- A file that is empty, and one of two pages with the header of the code.
use chi.Prelude.{◌≡◌, refl, true, [], some, arith}
use chi.Db.Memory.{zeros}
use chi.Db.Codes.{chidb_ok}
use chi.Db.Run.{returns}
use chi.Db.File.{File, fread}
use chi.Db.Util.{get2byte, put2byte, get4byte, put4byte}
use chi.Db.Pager.Pages
use chi.Db.Btree.{BTree, get_node_by_page, pgtype_table_leaf}
use chi.Db.Btree.Layout.{IsLaidOut, entries}
use chi.Db.Btree.Find.{no_node}
use chi.Db.Btree.Open.{magic, starts_with, put_string, is_header, open_btree}
use chi.Db.Btree.Open.Created.{open-whole_pages, open_btree-open_btree}

abbrev empty_file : File
empty_file = record { size = 0; limit = 4096; at = zeros }

abbrev two_pages : File
two_pages = record {
  size = 2048;
  limit = 4096;
  at = put4byte (put2byte (put_string magic 0 zeros) 16 1024) 48 20000;
}

two_pages-is_header : is_header (fread two_pages 0 100 zeros).1 ≡ true
unfolding is_header fread put_string starts_with get4byte put4byte put2byte
two_pages-is_header = refl

two_pages-page_size : get2byte (fread two_pages 0 100 zeros).1 16 ≡ 1024
unfolding fread put_string get2byte put4byte put2byte
two_pages-page_size = refl

open-whole_pages_example :
    open_btree two_pages
    ≡ returns (
      chidb_ok,
      some (record {
        pager = record {
          f = two_pages;
          n_pages = 1;
          page_size = get2byte (fread two_pages 0 100 zeros).1 16;
        };
      }),
    )
open-whole_pages_example =
    open-whole_pages two_pages 1 two_pages-is_header (omega arith)
      (omega (arith, two_pages-page_size)) (omega (arith, two_pages-page_size)) (omega arith)

open_btree-open_btree_example :
    (bt : BTree) × (open_btree empty_file ≡ returns (chidb_ok, some bt))
    × Pages.IsValid bt.pager
    × ((get_node_by_page bt 1 no_node).0 ≡ chidb_ok)
    × IsLaidOut bt.pager.page_size (get_node_by_page bt 1 no_node).1
    × ((get_node_by_page bt 1 no_node).1.type ≡ pgtype_table_leaf)
    × (entries (get_node_by_page bt 1 no_node).1 ≡ [])
    × (open_btree bt.pager.f
        ≡ returns (chidb_ok, some (record { pager = record bt.pager { n_pages = 0 } })))
open_btree-open_btree_example = open_btree-open_btree empty_file no_node refl (omega arith)
