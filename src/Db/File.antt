-- ===== src/Db/File.antt =====
-- A file opened by `fopen`, as `fseek`, `fread` and `fwrite` see it.
use chi.Prelude.{ℕ, ◌+◌, ◌-◌, min, max, ◌&&◌, ltb, leb, ◌==◌, if◌then◌else◌}
use chi.Db.Memory.{Bytes}

-- Bytes from `size` on are no part of the file. `limit` is how far the device lets it grow.
pub record File : Type 0 where
  pub size : ℕ
  pub limit : ℕ
  pub at : Bytes

-- `fseek(f, pos, SEEK_SET); fread(buf, 1, n, f)`: the count read, and the buffer.
unfoldable pub fread : File → ℕ → ℕ → Bytes → ℕ × Bytes
fread f pos n buf =
    (min n (f.size - pos), λ i. if ltb i n && ltb (pos + i) f.size then f.at (pos + i) else buf i)

-- How many of `n` bytes can be written at `pos`.
abbrev pub room : File → ℕ → ℕ → ℕ
room f pos n = min n (f.limit - pos)

-- The bytes of the file after `src` is written at `pos`; a gap behind the old end is zero.
abbrev pub written : File → ℕ → ℕ → Bytes → Bytes
written f pos n src i =
    if leb pos i && ltb i (pos + n) then src (i - pos) else if ltb i f.size then f.at i else 0

-- `fseek(f, pos, SEEK_SET); fwrite(src, 1, n, f)`: the count written, and the file. A write that
-- stops short has still written.
unfoldable pub fwrite : File → ℕ → ℕ → Bytes → ℕ × File
fwrite f pos n src =
    let k = room f pos n in
    if k == 0
    then (0, f)
    else (k, record f { size = max f.size (pos + k); at = written f pos k src })
