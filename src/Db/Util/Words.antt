-- ===== src/Db/Util/Words.antt =====
-- Two- and four-byte integers of util.h and util.c: what is put is got back, and nothing else moves.
use Prim.Native.Nat.{bit_or}
use chi.Prelude.{ℕ, refl, ◌+◌, ◌*◌, ◌%◌, ◌^◌, ◌≤◌, ◌<◌, ◌≡◌, ◌⊎◌, arith}
use chi.Bits.{shl, or_shl, or_high}
use chi.Db.Memory.{Bytes, Agree, IsByte}
use chi.Db.Util.{get2byte, put2byte, get4byte, put4byte}

get2byte-eq : (p : Bytes) (o : ℕ) → IsByte (p (o + 1)) → get2byte p o ≡ p o * 2 ^ 8 + p (o + 1)
unfolding get2byte
get2byte-eq p o h = (or_shl 8 (p o) (p (o + 1)) h).1

get4byte-eq :
    (p : Bytes) (o : ℕ)
    → IsByte (p (o + 1))
    → IsByte (p (o + 2))
    → IsByte (p (o + 3))
    → get4byte p o ≡ p o * 2 ^ 24 + p (o + 1) * 2 ^ 16 + p (o + 2) * 2 ^ 8 + p (o + 3)
unfolding get4byte
get4byte-eq p o h i j =
    let one : bit_or (shl (p o) 24) (shl (p (o + 1)) 16) ≡ shl (p o) 24 + shl (p (o + 1)) 16 =
      or_high 24 (p o) _ _ refl (omega arith) in
    let two : bit_or (bit_or (shl (p o) 24) (shl (p (o + 1)) 16)) (shl (p (o + 2)) 8)
        ≡ bit_or (shl (p o) 24) (shl (p (o + 1)) 16) + shl (p (o + 2)) 8 =
      or_high 16 (p o * 256 + p (o + 1)) _ _ (omega arith) (omega arith) in
    omega (
      arith,
      or_high 8 (p o * 2 ^ 16 + p (o + 1) * 2 ^ 8 + p (o + 2))
          (bit_or (bit_or (shl (p o) 24) (shl (p (o + 1)) 16)) (shl (p (o + 2)) 8)) (p (o + 3))
          (omega arith) (omega arith),
    )

-- A two-byte integer that is put is got back modulo 2 ^ 16.
pub get2byte-put2byte : (p : Bytes) (o v : ℕ) → get2byte (put2byte p o v) o ≡ v % 2 ^ 16
unfolding put2byte
get2byte-put2byte p o v = ground (arith, get2byte-eq (put2byte p o v) o)

-- A four-byte integer that is put is got back modulo 2 ^ 32.
pub get4byte-put4byte : (p : Bytes) (o v : ℕ) → get4byte (put4byte p o v) o ≡ v % 2 ^ 32
unfolding put4byte
get4byte-put4byte p o v = ground (arith, get4byte-eq (put4byte p o v) o)

-- Putting changes no byte but its own two, or four.
pub put2byte-Agree : (p : Bytes) (o v i : ℕ) → (i < o) ⊎ (o + 2 ≤ i) → put2byte p o v i ≡ p i
unfolding put2byte
put2byte-Agree p o v i h = ground arith

pub put4byte-Agree : (p : Bytes) (o v i : ℕ) → (i < o) ⊎ (o + 4 ≤ i) → put4byte p o v i ≡ p i
unfolding put4byte
put4byte-Agree p o v i h = ground arith

-- Getting reads its own bytes only.
pub get2byte-Agree : (p q : Bytes) (o : ℕ) → Agree o (o + 2) p q → get2byte p o ≡ get2byte q o
unfolding get2byte
get2byte-Agree p q o h = ground (arith, h o, h (o + 1))

pub get4byte-Agree : (p q : Bytes) (o : ℕ) → Agree o (o + 4) p q → get4byte p o ≡ get4byte q o
unfolding get4byte
get4byte-Agree p q o h = ground (arith, h o, h (o + 1), h (o + 2), h (o + 3))
