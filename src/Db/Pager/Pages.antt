-- ===== src/Db/Pager/Pages.antt =====
-- Pages are independent cells of the file.
use chi.Prelude.{
  ℕ, zero, suc, ◌+◌, ◌-◌, ◌*◌, ◌%◌, ◌^◌, ◌≤◌, ◌<◌, ◌≡◌, ◌≢◌, ◌⊎◌, inl, inr, fun_ext, refl, sym, ap,
  ◌∙◌, arith, ◌&&◌, ltb, if◌then◌else◌,
}
use native.Mathlib.Decide.{dec_lt}
use chi.Db.Memory.{Bytes, zeros}
use chi.Db.Codes.{chidb_ok, chidb_epageno, chidb_eio}
use chi.Db.Pager.{MemPage, Pager, page_offset, allocate_page, read_page, write_page}

-- Every page number in use has a 32-bit file offset.
pub record IsValid (p : Pager) : Type 0 where
  pub sized : 0 < p.page_size
  pub small : p.n_pages * p.page_size < 2 ^ 32

mul_mono : (a b s : ℕ) → a ≤ b → a * s ≤ b * s
mul_mono a b s h = grind arith

offset-eq :
    (p : Pager) (n : ℕ)
    → 0 < p.page_size
    → 0 < n
    → n * p.page_size < 2 ^ 32
    → page_offset p n ≡ (n - 1) * p.page_size
offset-eq p n sized lo small =
    let few : n ≤ n * p.page_size = grind arith in
    let wrap : (n + 2 ^ 32 - 1) % 2 ^ 32 ≡ n - 1 = omega arith in
    omega (
      arith,
      ap (λ (t : ℕ). t * p.page_size % 2 ^ 32) wrap,
      mul_mono (n - 1) n p.page_size (omega arith),
    )

page_offset-eq :
    (p : Pager) (n : ℕ)
    → IsValid p
    → 0 < n
    → n ≤ p.n_pages
    → page_offset p n ≡ (n - 1) * p.page_size
page_offset-eq p n v lo hi =
    offset-eq p n v.sized lo (omega (arith, mul_mono n p.n_pages p.page_size hi))

page_succ : (k s : ℕ) → 0 < k → k * s ≡ (k - 1) * s + s
page_succ zero s h = elim h [ ]
page_succ (suc k) s h = let e : suc k - 1 ≡ k = omega arith in rw e (omega arith)

-- Bytes of one page are no bytes of another.
apart :
    (m n s i : ℕ)
    → 0 < m
    → 0 < n
    → m ≢ n
    → i < s
    → ((m - 1) * s + i < (n - 1) * s) ⊎ ((n - 1) * s + s ≤ (m - 1) * s + i)
apart m n s i hm hn ne hi = elim (dec_lt m n) [
  | yes h ↦ inl (omega (arith, mul_mono m (n - 1) s (omega arith), page_succ m s hm))
  | no h ↦ inr (omega (arith, mul_mono n (m - 1) s (omega arith), page_succ n s hn))
]

-- What the file holds at a page, with zeros past its end.
pub content : Pager → ℕ → Bytes
content p n i =
    if ltb i p.page_size && ltb (page_offset p n + i) p.f.size
    then p.f.at (page_offset p n + i)
    else 0

-- Reading a page number in use succeeds, with the content of the file.
pub read_page-content :
    (p : Pager) (n : ℕ) (out : MemPage)
    → 0 < n
    → n ≤ p.n_pages
    → read_page p n out ≡ (chidb_ok, record { npage = n; page = content p n })
unfolding read_page content
read_page-content p n out lo hi = ground arith

pub read_page_error :
    (p : Pager) (n : ℕ) (out : MemPage)
    → (n ≡ 0) ⊎ (p.n_pages < n)
    → read_page p n out ≡ (chidb_epageno, out)
unfolding read_page
read_page_error p n out h = ground arith

-- The bytes of a buffer, as a page of that size reads back.
abbrev pub page_of : ℕ → Bytes → Bytes
page_of size bytes i = if ltb i size then bytes i else 0

content-write_page_self :
    (p : Pager) (n i : ℕ) (bytes : Bytes)
    → IsValid p
    → 0 < n
    → n ≤ p.n_pages
    → n * p.page_size ≤ p.f.limit
    → content (write_page p (record { npage = n; page = bytes })).1 n i
      ≡ page_of p.page_size bytes i
unfolding write_page content
content-write_page_self p n i bytes v lo hi room =
    ground (arith, page_offset-eq p n v lo hi, page_succ n p.page_size lo)

content-write_page_ne :
    (p : Pager) (n m i : ℕ) (bytes : Bytes)
    → IsValid p
    → 0 < n
    → 0 < m
    → m ≤ p.n_pages
    → m ≢ n
    → content (write_page p (record { npage = n; page = bytes })).1 m i ≡ content p m i
unfolding write_page content
content-write_page_ne p n m i bytes v lo lo' hi' ne = ground (
  arith,
  page_offset-eq p n v lo,
  page_offset-eq p m v lo' hi',
  apart m n p.page_size i lo' lo ne,
)

pub write_page-IsValid : {p : Pager} (mem : MemPage) → IsValid p → IsValid (write_page p mem).1
unfolding write_page
write_page-IsValid mem v = ground arith

n_pages-write_page : (p : Pager) (mem : MemPage) → (write_page p mem).1.n_pages ≡ p.n_pages
unfolding write_page
n_pages-write_page p mem = ground arith

pub page_size-write_page :
    (p : Pager) (mem : MemPage) → (write_page p mem).1.page_size ≡ p.page_size
unfolding write_page
page_size-write_page p mem = ground arith

pub write_page-ok :
    (p : Pager) (n : ℕ) (bytes : Bytes)
    → IsValid p
    → 0 < n
    → n ≤ p.n_pages
    → n * p.page_size ≤ p.f.limit
    → (write_page p (record { npage = n; page = bytes })).0 ≡ chidb_ok
unfolding write_page
write_page-ok p n bytes v lo hi room =
    ground (arith, page_offset-eq p n v lo hi, page_succ n p.page_size lo)

pub read_page-write_page_self :
    (p : Pager) (n : ℕ) (bytes : Bytes) (out : MemPage)
    → IsValid p
    → 0 < n
    → n ≤ p.n_pages
    → n * p.page_size ≤ p.f.limit
    → read_page (write_page p (record { npage = n; page = bytes })).1 n out
      ≡ (chidb_ok, record { npage = n; page = page_of p.page_size bytes })
read_page-write_page_self p n bytes out v lo hi room =
    let mem : MemPage = record { npage = n; page = bytes } in
    read_page-content (write_page p mem).1 n out lo (rw n_pages-write_page hi)
    ∙ ap (λ (b : Bytes). (chidb_ok, record { npage = n; page = b }))
        (fun_ext λ i. content-write_page_self p n i bytes v lo hi room)

-- Reading a page in use is not changed by a write to another page, whatever becomes of the write.
pub read_page-write_page_ne :
    (p : Pager) (n m : ℕ) (bytes : Bytes) (out : MemPage)
    → IsValid p
    → 0 < n
    → 0 < m
    → m ≤ p.n_pages
    → m ≢ n
    → read_page (write_page p (record { npage = n; page = bytes })).1 m out ≡ read_page p m out
read_page-write_page_ne p n m bytes out v lo lo' hi' ne =
    let mem : MemPage = record { npage = n; page = bytes } in
    read_page-content (write_page p mem).1 m out lo' (rw n_pages-write_page hi')
    ∙ ap (λ (b : Bytes). (chidb_ok, record { npage = m; page = b }))
        (fun_ext λ i. content-write_page_ne p n m i bytes v lo lo' hi' ne)
    ∙ sym (read_page-content p m out lo' hi')

-- Writing a page in use, where the device has room for it, succeeds and keeps the invariant. Reading
-- that page then gives what was written, and reading any other page in use what it gave before.
pub write_page_lem :
    (p : Pager) (n m : ℕ) (bytes : Bytes) (out : MemPage)
    → IsValid p
    → 0 < n
    → n ≤ p.n_pages
    → n * p.page_size ≤ p.f.limit
    → 0 < m
    → m ≤ p.n_pages
    → m ≢ n
    → let (rc, p') = write_page p (record { npage = n; page = bytes }) in
      (rc ≡ chidb_ok)
      × IsValid p'
      × (read_page p' n out ≡ (chidb_ok, record { npage = n; page = page_of p.page_size bytes }))
      × (read_page p' m out ≡ read_page p m out)
write_page_lem p n m bytes out v lo hi room lo' hi' ne = (
  write_page-ok p n bytes v lo hi room,
  write_page-IsValid _ v,
  read_page-write_page_self p n bytes out v lo hi room,
  read_page-write_page_ne p n m bytes out v lo lo' hi' ne,
)

-- A write past the pages in use is refused and changes nothing. One that does not fit the device is
-- an error.
pub write_page_error :
    (p : Pager) (n : ℕ) (bytes : Bytes)
    → IsValid p
    → 0 < n
    → p.f.limit < n * p.page_size
    → let (rc, p') = write_page p (record { npage = n; page = bytes }) in
      ((p.n_pages < n) × (rc ≡ chidb_epageno) × (p' ≡ p)) ⊎ ((n ≤ p.n_pages) × (rc ≡ chidb_eio))
unfolding write_page
write_page_error p n bytes v lo full = elim (dec_lt p.n_pages n) [
  | yes h ↦ inl (h, ground arith, ground arith)
  | no h ↦ inr (omega arith, ground (arith, page_offset-eq p n v lo, page_succ n p.page_size lo))
]

content-new :
    (p : Pager) (i : ℕ)
    → IsValid p
    → (p.n_pages + 1) * p.page_size < 2 ^ 32
    → p.f.size ≤ p.n_pages * p.page_size
    → content p (p.n_pages + 1) i ≡ 0
unfolding content
content-new p i v small short =
    ground (arith, offset-eq p (p.n_pages + 1) v.sized (omega arith) small)

-- A page in use reads the same when more pages are.
pub read_page-more :
    (p : Pager) (n m : ℕ) (out : MemPage)
    → 0 < m
    → m ≤ p.n_pages
    → p.n_pages ≤ n
    → read_page (record p { n_pages = n }) m out ≡ read_page p m out
unfolding content
read_page-more p n m out lo hi le =
    read_page-content (record p { n_pages = n }) m out lo (omega arith)
    ∙ sym (read_page-content p m out lo hi)

-- A page that is allocated is new, the pages in use read as before, and the new one reads as zeros
-- where the file does not reach it.
pub allocate_page_lem :
    (p : Pager) (m : ℕ) (out : MemPage)
    → IsValid p
    → (p.n_pages + 1) * p.page_size < 2 ^ 32
    → p.f.size ≤ p.n_pages * p.page_size
    → 0 < m
    → m ≤ p.n_pages
    → let (n, p') = allocate_page p in
      (n ≡ p.n_pages + 1)
      × IsValid p'
      × (read_page p' n out ≡ (chidb_ok, record { npage = n; page = zeros }))
      × (read_page p' m out ≡ read_page p m out)
unfolding allocate_page content
allocate_page_lem p m out v small short lo hi =
    let few : p.n_pages + 1 ≤ (p.n_pages + 1) * p.page_size = grind arith in
    let new : (p.n_pages + 1) % 2 ^ 32 ≡ p.n_pages + 1 = omega arith in
    let p' : Pager = record p { n_pages = p.n_pages + 1 } in
    rw new (
      refl,
      record { sized = v.sized; small = small },
      read_page-content p' (p.n_pages + 1) out (omega arith) (omega arith)
          ∙ ap (λ (b : Bytes). (chidb_ok, record { npage = p.n_pages + 1; page = b }))
              (fun_ext λ i. content-new p i v small short),
      read_page-content p' m out lo (omega arith) ∙ sym (read_page-content p m out lo hi),
    )
