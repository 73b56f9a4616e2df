-- ===== src/Db/Tests/Paging.antt =====
-- A file of two pages of 128 bytes.
use chi.Prelude.{◌%◌, ◌^◌, ◌<◌, ◌≤◌, ◌≡◌, ◌⊎◌, arith}
use chi.Db.Memory.{Bytes, zeros}
use chi.Db.Codes.{chidb_ok, chidb_epageno, chidb_eio}
use chi.Db.Pager.{MemPage, Pager, allocate_page, read_page, write_page}
use chi.Db.Pager.Pages
use chi.Db.Pager.Pages.{page_of, write_page_lem, write_page_error, allocate_page_lem}
use chi.Db.Util.{get_varint32, put_varint32}
use chi.Db.Util.Varint.{get_varint32-put_varint32}

abbrev pub pager : Pager
pager = record { f = record { size = 256; limit = 600; at = zeros }; n_pages = 2; page_size = 128 }

abbrev pub no_mem : MemPage
no_mem = record { npage = 0; page = zeros }

pub pager-IsValid : Pages.IsValid pager
pager-IsValid = record { sized = omega arith; small = omega arith }

abbrev counting : Bytes
counting i = i

write_page_lem_example :
    let (rc, p') = write_page pager (record { npage = 2; page = counting }) in
    (rc ≡ chidb_ok)
    × Pages.IsValid p'
    × (read_page p' 2 no_mem ≡ (chidb_ok, record { npage = 2; page = page_of 128 counting }))
    × (read_page p' 1 no_mem ≡ read_page pager 1 no_mem)
write_page_lem_example =
    write_page_lem pager 2 1 counting no_mem pager-IsValid (omega arith) (omega arith) (omega arith)
      (omega arith) (omega arith) (omega arith)

write_page_error_example :
    let (rc, p') = write_page pager (record { npage = 5; page = counting }) in
    ((2 < 5) × (rc ≡ chidb_epageno) × (p' ≡ pager)) ⊎ ((5 ≤ 2) × (rc ≡ chidb_eio))
write_page_error_example =
    write_page_error pager 5 counting pager-IsValid (omega arith) (omega arith)

allocate_page_lem_example :
    let (n, p') = allocate_page pager in
    (n ≡ 3)
    × Pages.IsValid p'
    × (read_page p' n no_mem ≡ (chidb_ok, record { npage = n; page = zeros }))
    × (read_page p' 2 no_mem ≡ read_page pager 2 no_mem)
allocate_page_lem_example =
    allocate_page_lem pager 2 no_mem pager-IsValid (omega arith) (omega arith) (omega arith)
      (omega arith)

get_varint32-put_varint32_example : get_varint32 (put_varint32 counting 7 70000) 7 ≡ 70000 % 2 ^ 28
get_varint32-put_varint32_example = get_varint32-put_varint32 counting 7 70000
