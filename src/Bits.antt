-- ===== src/Bits.antt =====
-- `&`, `|` and `<<` of unsigned words as arithmetic: what the byte routines of the program need.
mod Digit
use Digit.{bit_or_digit, bit_and_digit}
use Prim.Native.Nat.{bit_and, bit_or}
use native.Mathlib.Nat.{two-pow-succ}
use chi.Prelude.{ℕ, zero, suc, ◌+◌, ◌*◌, ◌/◌, ◌%◌, ◌^◌, ◌≤◌, ◌<◌, ◌≡◌, refl, ap, arith}

-- C's `x << k` with no bound on the width.
abbrev pub shl : ℕ → ℕ → ℕ
shl x k = x * 2 ^ k

-- The operand is below the fuel, and halves with it.
or_nothing : (fuel a : ℕ) → a ≤ fuel → (bit_or a 0 ≡ a) × (bit_or 0 a ≡ a)
or_nothing fuel zero h = (refl, refl)
or_nothing zero (suc a) h = absurd (omega arith)
or_nothing (suc fuel) (suc a) h = omega (
  arith,
  bit_or_digit (suc a) 0,
  bit_or_digit 0 (suc a),
  or_nothing fuel (suc a / 2) (omega arith),
)

double_shl : (q k : ℕ) → shl q (suc k) ≡ shl q k * 2
double_shl q k = omega (arith, ap (λ (t : ℕ). q * t) (two-pow-succ k))

or_shl_half :
    (q k r : ℕ)
    → (bit_or (r / 2) (shl q k) ≡ r / 2 + shl q k) × (bit_or (shl q k) (r / 2) ≡ shl q k + r / 2)
    → (bit_or (r / 2) (shl q (suc k) / 2) ≡ r / 2 + shl q k)
      × (bit_or (shl q (suc k) / 2) (r / 2) ≡ shl q k + r / 2)
or_shl_half q k r h = let e : shl q (suc k) / 2 ≡ shl q k = omega (arith, double_shl q k) in rw e h

-- Words that share no bit are joined by addition, whichever stands first.
pub or_shl :
    (k q r : ℕ)
    → r < 2 ^ k
    → (bit_or r (shl q k) ≡ r + shl q k) × (bit_or (shl q k) r ≡ shl q k + r)
or_shl zero q zero h = ground (arith, or_nothing q q)
or_shl zero q (suc r) h = absurd (omega arith)
or_shl (suc k) q r h = omega (
  arith,
  double_shl q k,
  two-pow-succ k,
  bit_or_digit r (shl q (suc k)),
  bit_or_digit (shl q (suc k)) r,
  or_shl_half q k r (or_shl k q (r / 2) (omega (arith, two-pow-succ k))),
)

-- Seven bits at a time, as the variable-length integers take them.
bit_and-double : (a m : ℕ) → bit_and a (m * 2) ≡ bit_and (a / 2) m * 2
bit_and-double a m =
    let e : m * 2 / 2 ≡ m = omega arith in
    omega (arith, bit_and_digit a (m * 2), ap (λ (t : ℕ). bit_and (a / 2) t) e)

pub bit_and-shl7 : (a m : ℕ) → bit_and a (m * 128) ≡ bit_and (a / 128) m * 128
bit_and-shl7 a m = ground (
  arith,
  bit_and-double a (m * 64),
  bit_and-double (a / 2) (m * 32),
  bit_and-double (a / 4) (m * 16),
  bit_and-double (a / 8) (m * 8),
  bit_and-double (a / 16) (m * 4),
  bit_and-double (a / 32) (m * 2),
  bit_and-double (a / 64) m,
)

bit_and-nothing : (fuel a : ℕ) → a ≤ fuel → bit_and a 0 ≡ 0
bit_and-nothing fuel zero h = refl
bit_and-nothing zero (suc a) h = absurd (omega arith)
bit_and-nothing (suc fuel) (suc a) h =
    omega (arith, bit_and_digit (suc a) 0, bit_and-nothing fuel (suc a / 2) (omega arith))

bit_and_7 : (a : ℕ) → bit_and a 7 ≡ a % 8
bit_and_7 a = ground (
  arith,
  bit_and_digit a 7,
  bit_and_digit (a / 2) 3,
  bit_and_digit (a / 4) 1,
  bit_and-nothing (a / 8) (a / 8) (omega arith),
)

pub bit_and_127 : (a : ℕ) → bit_and a 127 ≡ a % 128
bit_and_127 a = ground (
  arith,
  bit_and_digit a 127,
  bit_and_digit (a / 2) 63,
  bit_and_digit (a / 4) 31,
  bit_and_digit (a / 8) 15,
  bit_and_7 (a / 16),
)

-- The byte masks of the variable-length integers.
pub bit_and_3f80 : (a : ℕ) → bit_and a 0x3f80 ≡ shl (a / 128 % 128) 7
bit_and_3f80 a = omega (arith, bit_and-shl7 a 127, bit_and_127 (a / 128))

pub bit_and_1fc000 : (a : ℕ) → bit_and a 0x1fc000 ≡ shl (a / 2 ^ 14 % 128) 14
bit_and_1fc000 a = ground (arith, bit_and-shl7 a 0x3f80, bit_and_3f80 (a / 128))

pub bit_and_fe00000 : (a : ℕ) → bit_and a 0xfe00000 ≡ shl (a / 2 ^ 21 % 128) 21
bit_and_fe00000 a = ground (arith, bit_and-shl7 a 0x1fc000, bit_and_1fc000 (a / 128))

-- The same where the high word is any multiple of `2 ^ k`.
pub or_high : (k q x r : ℕ) → x ≡ shl q k → r < 2 ^ k → bit_or x r ≡ x + r
or_high k q x r e h = rw e ((or_shl k q r h).1)

pub or_low : (k q x r : ℕ) → x ≡ shl q k → r < 2 ^ k → bit_or r x ≡ r + x
or_low k q x r e h = rw e ((or_shl k q r h).0)

pub bit_and_128 : (a : ℕ) → bit_and a 128 ≡ a / 128 % 2 * 128
bit_and_128 a = ground (
  arith,
  bit_and-shl7 a 1,
  bit_and_digit (a / 128) 1,
  bit_and-nothing (a / 128 / 2) (a / 128 / 2) (omega arith),
)
