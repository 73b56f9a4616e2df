-- ===== src/Db/Pager.antt =====
-- db/src/libchidb/pager.c: the file as numbered pages. `malloc` and `calloc` always succeed.
pub mod Pages
use chi.Prelude.{ℕ, ◌+◌, ◌-◌, ◌*◌, ◌/◌, ◌%◌, ◌^◌, ◌||◌, ◌==◌, ltb, leb, not, if◌then◌else◌}
use chi.Db.Memory.{Bytes, zeros}
use chi.Db.Codes.{Code, chidb_ok, chidb_noheader, chidb_epageno, chidb_eio}
use chi.Db.File.{File, fread, fwrite}

pub record MemPage : Type 0 where
  pub npage : ℕ
  pub page : Bytes

pub record Pager : Type 0 where
  pub f : File
  pub n_pages : ℕ
  pub page_size : ℕ

-- `(npage - 1) * page_size`, in 32 bits
abbrev pub page_offset : Pager → ℕ → ℕ
page_offset pager npage = (npage + 2 ^ 32 - 1) % 2 ^ 32 * pager.page_size % 2 ^ 32

unfoldable pub init_mem_page : ℕ → ℕ → MemPage
init_mem_page page_num pagesize = record { npage = page_num; page = zeros }

-- `buf.st_size / page_size`, the size of the open file
unfoldable pub get_real_db_size : Pager → Code × ℕ
get_real_db_size pager = (chidb_ok, pager.f.size / pager.page_size % 2 ^ 32)

unfoldable pub set_page_size : Pager → ℕ → Code × Pager
unfolding get_real_db_size
set_page_size pager pagesize =
    let sized : Pager = record pager { page_size = pagesize } in
    let (rc, npages) = get_real_db_size sized in (chidb_ok, record sized { n_pages = npages })

unfoldable pub read_header : Pager → Bytes → Code × Bytes
unfolding fread
read_header pager header =
    let (count, header') = fread pager.f 0 100 header in
    (if count == 100 then chidb_ok else chidb_noheader, header')

-- The number of the new page, and the pager. The counter is 32 bits wide.
unfoldable pub allocate_page : Pager → ℕ × Pager
allocate_page pager = let n = (pager.n_pages + 1) % 2 ^ 32 in (n, record pager { n_pages = n })

-- The out parameter is written only where the code is `chidb_ok`.
unfoldable pub read_page : Pager → ℕ → MemPage → Code × MemPage
unfolding fread
read_page pager npage out =
    if ltb pager.n_pages npage || leb npage 0
    then (chidb_epageno, out)
    else let (n, bytes) = fread pager.f (page_offset pager npage) pager.page_size zeros in
      (chidb_ok, record { npage = npage; page = bytes })

unfoldable pub write_page : Pager → MemPage → Code × Pager
unfolding fwrite
write_page pager mem =
    if ltb pager.n_pages mem.npage
    then (chidb_epageno, pager)
    else let (n, f') = fwrite pager.f (page_offset pager mem.npage) pager.page_size mem.page in
      (if n == pager.page_size then chidb_ok else chidb_eio, record pager { f = f' })

-- The code alone: what is freed is no part of the model.
unfoldable pub release_mem_page : Pager → MemPage → Code
release_mem_page pager mem = if ltb pager.n_pages mem.npage then chidb_epageno else chidb_ok
