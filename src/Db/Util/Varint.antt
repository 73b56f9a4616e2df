-- ===== src/Db/Util/Varint.antt =====
-- The variable-length integers of util.c: a round trip for 28 bits.
use Prim.Native.Nat.{bit_or}
use chi.Prelude.{ℕ, ◌+◌, ◌*◌, ◌/◌, ◌%◌, ◌^◌, ◌≤◌, ◌<◌, ◌≡◌, refl, ◌∙◌, ◌⊎◌, arith}
use chi.Bits.{shl, or_low, bit_and_127, bit_and_3f80, bit_and_1fc000, bit_and_fe00000}
use chi.Db.Memory.{Bytes, Agree, IsByte}
use chi.Db.Util.{get_varint32, varint_word, put_varint32}

-- Four groups of seven bits, joined.
groups_7 :
    (a b c d : ℕ)
    → a < 128
    → b < 128
    → c < 128
    → bit_or (bit_or (bit_or a (shl b 7)) (shl c 14)) (shl d 21)
      ≡ a + b * 2 ^ 7 + c * 2 ^ 14 + d * 2 ^ 21
groups_7 a b c d ha hb hc =
    let one : bit_or a (shl b 7) ≡ a + shl b 7 = or_low 7 b _ _ refl (omega arith) in
    let two : bit_or (bit_or a (shl b 7)) (shl c 14) ≡ bit_or a (shl b 7) + shl c 14 =
      or_low 14 c _ _ refl (omega arith) in
    omega (arith, or_low 21 d _ (bit_or (bit_or a (shl b 7)) (shl c 14)) refl (omega arith))

-- The same four groups, each in a byte, with the top bit set in all but the lowest.
groups_8 :
    (a b c d : ℕ)
    → a < 128
    → b < 128
    → c < 128
    → d < 128
    → bit_or
        (bit_or (bit_or a (bit_or (shl (shl b 7) 1) 0x8000)) (bit_or (shl (shl c 14) 2) 0x800000))
        (bit_or (shl (shl d 21) 3) 0x80000000)
      ≡ a + (b + 128) * 2 ^ 8 + (c + 128) * 2 ^ 16 + (d + 128) * 2 ^ 24
groups_8 a b c d ha hb hc hd =
    let tb : bit_or (b * 2 ^ 7 * 2 ^ 1) 0x8000 ≡ b * 2 ^ 8 + 0x8000 =
      or_low 15 1 0x8000 (b * 2 ^ 7 * 2 ^ 1) refl (omega arith) ∙ omega arith in
    let tc : bit_or (c * 2 ^ 14 * 2 ^ 2) 0x800000 ≡ c * 2 ^ 16 + 0x800000 =
      or_low 23 1 0x800000 (c * 2 ^ 14 * 2 ^ 2) refl (omega arith) ∙ omega arith in
    let td : bit_or (d * 2 ^ 21 * 2 ^ 3) 0x80000000 ≡ d * 2 ^ 24 + 0x80000000 =
      or_low 31 1 0x80000000 (d * 2 ^ 21 * 2 ^ 3) refl (omega arith) ∙ omega arith in
    let one =
      or_low 8 (b + 128) (bit_or (b * 2 ^ 7 * 2 ^ 1) 0x8000) a (omega arith) (omega arith) in
    let two =
      or_low 16 (c + 128) (bit_or (c * 2 ^ 14 * 2 ^ 2) 0x800000)
        (bit_or a (bit_or (b * 2 ^ 7 * 2 ^ 1) 0x8000)) (omega arith) (omega arith) in
    omega (
      arith,
      or_low 24 (d + 128) (bit_or (d * 2 ^ 21 * 2 ^ 3) 0x80000000)
          (bit_or (bit_or a (bit_or (b * 2 ^ 7 * 2 ^ 1) 0x8000))
            (bit_or (c * 2 ^ 14 * 2 ^ 2) 0x800000))
          (omega arith) (omega arith),
    )

-- The word holds the lowest 28 bits, and its bytes above the lowest have the top bit set.
varint_word-eq :
    (v : ℕ)
    → varint_word v
      ≡ v % 128
        + (v / 2 ^ 7 % 128 + 128) * 2 ^ 8
        + (v / 2 ^ 14 % 128 + 128) * 2 ^ 16
        + (v / 2 ^ 21 % 128 + 128) * 2 ^ 24
unfolding varint_word
varint_word-eq v =
    rw (bit_and_127, bit_and_3f80, bit_and_1fc000, bit_and_fe00000)
      (groups_8 (v % 128) (v / 2 ^ 7 % 128) (v / 2 ^ 14 % 128) (v / 2 ^ 21 % 128) (omega arith)
        (omega arith) (omega arith) (omega arith))

get_varint32-eq :
    (p : Bytes) (o : ℕ)
    → get_varint32 p o
      ≡ p (o + 3) % 128 + p (o + 2) % 128 * 2 ^ 7 + p (o + 1) % 128 * 2 ^ 14 + p o % 128 * 2 ^ 21
unfolding get_varint32
get_varint32-eq p o = simp bit_and_127 (
    groups_7 (p (o + 3) % 128) (p (o + 2) % 128) (p (o + 1) % 128) (p o % 128) (omega arith)
      (omega arith) (omega arith))

-- A variable-length integer that is put is got back modulo 2 ^ 28.
pub get_varint32-put_varint32 :
    (p : Bytes) (o v : ℕ) → get_varint32 (put_varint32 p o v) o ≡ v % 2 ^ 28
unfolding put_varint32
get_varint32-put_varint32 p o v =
    ground (arith, get_varint32-eq (put_varint32 p o v) o, varint_word-eq v)

-- Putting one changes no byte but its own four, and leaves the top bit of the first one set.
pub put_varint32-Agree :
    (p : Bytes) (o v i : ℕ) → (i < o) ⊎ (o + 4 ≤ i) → put_varint32 p o v i ≡ p i
unfolding put_varint32
put_varint32-Agree p o v i h = ground arith

pub put_varint32-top_bit : (p : Bytes) (o v : ℕ) → 128 ≤ put_varint32 p o v o
unfolding put_varint32
put_varint32-top_bit p o v = ground (arith, varint_word-eq v)

pub put_varint32-IsByte : (p : Bytes) (o v : ℕ) → IsByte (put_varint32 p o v o)
unfolding put_varint32
put_varint32-IsByte p o v = ground arith

pub get_varint32-Agree :
    (p q : Bytes) (o : ℕ) → Agree o (o + 4) p q → get_varint32 p o ≡ get_varint32 q o
unfolding get_varint32
get_varint32-Agree p q o h = ground (arith, h o, h (o + 1), h (o + 2), h (o + 3))
