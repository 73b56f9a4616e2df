-- ===== src/Db/Btree/Disk/Header.antt =====
-- The header of a node that chidb_Btree_syncNode of btree.c writes, field by field.
use chi.Prelude.{ℕ, ◌+◌, ◌%◌, ◌^◌, ◌≤◌, ◌<◌, ◌≡◌, ◌∙◌, ◌⊎◌, if◌then◌else◌, true, arith}
use chi.Db.Memory.{Bytes, poke}
use chi.Db.Util.{get2byte, put2byte, get4byte}
use chi.Db.Util.Words.{
  get2byte-put2byte, get4byte-put4byte, put2byte-Agree, put4byte-Agree, get2byte-Agree,
}
use chi.Db.Btree.{BTreeNode, is_internal, put_header}

module _ (page : Bytes) (h : ℕ) (btn : BTreeNode) where
  abbrev typed : Bytes
  typed = poke page h btn.type

  abbrev freed : Bytes
  freed = put2byte typed (h + 1) btn.free_offset

  abbrev numbered : Bytes
  numbered = put2byte freed (h + 3) btn.n_cells

  abbrev counted : Bytes
  counted = put2byte numbered (h + 5) btn.cells_offset

  -- The header ends where the offset array begins.
  pub put_header-Agree :
      (i : ℕ)
      → (i < h) ⊎ (h + (if is_internal btn.type then 12 else 8) ≤ i)
      → put_header page h btn i ≡ page i
  unfolding put_header
  put_header-Agree i o = ground (
    arith,
    put4byte-Agree counted (h + 8) btn.right_page i,
    put2byte-Agree numbered (h + 5) btn.cells_offset i,
    put2byte-Agree freed (h + 3) btn.n_cells i,
    put2byte-Agree typed (h + 1) btn.free_offset i,
  )

  pub header_type : put_header page h btn h ≡ btn.type % 256
  unfolding put_header
  header_type = ground (
    arith,
    put4byte-Agree counted (h + 8) btn.right_page h,
    put2byte-Agree numbered (h + 5) btn.cells_offset h,
    put2byte-Agree freed (h + 3) btn.n_cells h,
    put2byte-Agree typed (h + 1) btn.free_offset h,
  )

  pub header_free : get2byte (put_header page h btn) (h + 1) ≡ btn.free_offset % 2 ^ 16
  unfolding put_header
  header_free =
      get2byte-Agree (put_header page h btn) freed (h + 1) (λ i l u. ground (
        arith,
        put4byte-Agree counted (h + 8) btn.right_page i,
        put2byte-Agree numbered (h + 5) btn.cells_offset i,
        put2byte-Agree freed (h + 3) btn.n_cells i,
      ))
      ∙ get2byte-put2byte typed (h + 1) btn.free_offset

  pub header_n_cells : get2byte (put_header page h btn) (h + 3) ≡ btn.n_cells % 2 ^ 16
  unfolding put_header
  header_n_cells =
      get2byte-Agree (put_header page h btn) numbered (h + 3) (λ i l u. ground (
        arith,
        put4byte-Agree counted (h + 8) btn.right_page i,
        put2byte-Agree numbered (h + 5) btn.cells_offset i,
      ))
      ∙ get2byte-put2byte freed (h + 3) btn.n_cells

  pub header_cells_offset : get2byte (put_header page h btn) (h + 5) ≡ btn.cells_offset % 2 ^ 16
  unfolding put_header
  header_cells_offset =
      get2byte-Agree (put_header page h btn) counted (h + 5)
        (λ i l u. ground (arith, put4byte-Agree counted (h + 8) btn.right_page i))
      ∙ get2byte-put2byte numbered (h + 5) btn.cells_offset

  pub header_right_page :
      is_internal btn.type ≡ true
      → get4byte (put_header page h btn) (h + 8) ≡ btn.right_page % 2 ^ 32
  unfolding put_header
  header_right_page e = rw e (get4byte-put4byte counted (h + 8) btn.right_page)
