-- ===== src/Db/Util.antt =====
-- db/src/libchidb/util.h and util.c: integers as big-endian bytes of a page or a record.
pub mod Words
pub mod Varint
pub mod Past
use Prim.Native.Nat.{bit_and, bit_or}
use chi.Prelude.{ℕ, ◌+◌, ◌*◌, ◌/◌, ◌^◌}
use chi.Bits.{shl}
use chi.Db.Memory.{Bytes, poke}

-- `get2byte(p + o)`
unfoldable pub get2byte : Bytes → ℕ → ℕ
get2byte p o = bit_or (shl (p o) 8) (p (o + 1))

-- `put2byte(p + o, v)`
unfoldable pub put2byte : Bytes → ℕ → ℕ → Bytes
put2byte p o v = poke (poke p o (v / 2 ^ 8)) (o + 1) v

unfoldable pub get4byte : Bytes → ℕ → ℕ
get4byte p o =
    bit_or (bit_or (bit_or (shl (p o) 24) (shl (p (o + 1)) 16)) (shl (p (o + 2)) 8)) (p (o + 3))

unfoldable pub put4byte : Bytes → ℕ → ℕ → Bytes
put4byte p o v =
    poke (poke (poke (poke p o (v / 2 ^ 24)) (o + 1) (v / 2 ^ 16)) (o + 2) (v / 2 ^ 8)) (o + 3) v

-- Seven bits to a byte, in four bytes. The top bits of the bytes are not looked at.
unfoldable pub get_varint32 : Bytes → ℕ → ℕ
get_varint32 p o =
    bit_or
      (bit_or (bit_or (bit_and (p (o + 3)) 0x7f) (shl (bit_and (p (o + 2)) 0x7f) 7))
        (shl (bit_and (p (o + 1)) 0x7f) 14))
      (shl (bit_and (p o) 0x7f) 21)

-- The word `aux` of `putVarint32`. No shift leaves the 32 bits.
unfoldable pub varint_word : ℕ → ℕ
varint_word v =
    bit_or
      (bit_or (bit_or (bit_and v 0x7f) (bit_or (shl (bit_and v 0x3f80) 1) 0x8000))
        (bit_or (shl (bit_and v 0x1fc000) 2) 0x800000))
      (bit_or (shl (bit_and v 0xfe00000) 3) 0x80000000)

unfoldable pub put_varint32 : Bytes → ℕ → ℕ → Bytes
put_varint32 p o v =
    let aux = varint_word v in
    poke (poke (poke (poke p (o + 3) aux) (o + 2) (aux / 2 ^ 8)) (o + 1) (aux / 2 ^ 16)) o
      (aux / 2 ^ 24)
