-- ===== src/Db/Memory.antt =====
-- The bytes that a C pointer reaches: `p[i]` is `p i`. A store through a `uint8_t *` keeps the low
-- eight bits. Which indices belong to an allocation is said where a buffer is allocated.
use chi.Prelude.{ℕ, ◌+◌, ◌-◌, ◌%◌, ◌≤◌, ◌<◌, ◌≡◌}
use chi.Prelude.{◌==◌, ltb, leb, ◌&&◌, if◌then◌else◌}

abbrev pub Bytes : Type 0
Bytes = ℕ → ℕ

-- `calloc`
abbrev pub zeros : Bytes
zeros i = 0

-- `p[a] = (uint8_t) v`
abbrev pub poke : Bytes → ℕ → ℕ → Bytes
poke p a v i = if i == a then v % 256 else p i

-- `memcpy(p + a, src, n)` and `memmove(p + a, src, n)`, the source read before the destination is
-- written.
abbrev pub move : Bytes → ℕ → Bytes → ℕ → Bytes
move p a src n i = if leb a i && ltb i (a + n) then src (i - a) else p i

-- The same bytes from `lo` up to `hi`.
abbrev pub Agree : ℕ → ℕ → Bytes → Bytes → Type 0
Agree lo hi p q = (i : ℕ) → lo ≤ i → i < hi → p i ≡ q i

abbrev pub IsByte : ℕ → Type 0
IsByte b = b < 256
