-- ===== src/Db/Dbm/Compare.antt =====
-- The comparisons of registers in db/src/libchidb/dbm-ops.c.
pub mod Order
use chi.Prelude.{
  ℕ, zero, suc, ◌+◌, ◌%◌, ◌^◌, Bool, true, false, ◌&&◌, ◌||◌, not, ◌==◌, ltb, leb, if◌then◌else◌,
  min, List, [], ◌∷◌,
}
use chi.Db.Memory.{Bytes}
use chi.Db.Btree.Entry.{bytes_of}
use chi.Db.Dbm.{Register, unspecified, null, int32, string, binary}

-- The sign of the `int` that `strcmp` and `memcmp` return.
pub data Sign : Type 0 where
  below same above : Sign

unfoldable pub strcmp : List ℕ → List ℕ → Sign
strcmp [] [] = same
strcmp [] (b ∷ bs) = below
strcmp (a ∷ as') [] = above
strcmp (a ∷ as') (b ∷ bs) =
    let rest = strcmp as' bs in if ltb a b then below else if ltb b a then above else rest

unfoldable pub memcmp : Bytes → Bytes → ℕ → Sign
memcmp p q n = strcmp (bytes_of n p) (bytes_of n q)

-- `a < b` of two `int32_t`
unfoldable pub lt_int32 : ℕ → ℕ → Bool
lt_int32 a b = ltb ((a + 2 ^ 31) % 2 ^ 32) ((b + 2 ^ 31) % 2 ^ 32)

abbrev pub is_below : Sign → Bool
is_below below = true
is_below same = false
is_below above = false

abbrev pub is_same : Sign → Bool
is_same below = false
is_same same = true
is_same above = false

abbrev pub is_above : Sign → Bool
is_above below = false
is_above same = false
is_above above = true

-- The tests `should_jump` of the six handlers, on the registers `p1` and `p3`.
unfoldable pub test_eq : Register → Register → Bool
test_eq (int32 a) (int32 b) = a == b
test_eq (string s) (string t) = is_same (strcmp s t)
test_eq (binary p n) (binary q m) = n == m && is_same (memcmp p q n)
test_eq r1 r2 = false

unfoldable pub test_ne : Register → Register → Bool
test_ne (int32 a) (int32 b) = not (a == b)
test_ne (string s) (string t) = not (is_same (strcmp s t))
test_ne (binary p n) (binary q m) = not (n == m) || not (is_same (memcmp p q n))
test_ne r1 r2 = false

unfoldable pub test_lt : Register → Register → Bool
test_lt (int32 a) (int32 b) = lt_int32 b a
test_lt (string s) (string t) = is_below (strcmp t s)
test_lt (binary p n) (binary q m) = is_below (memcmp q p (min n m))
test_lt r1 r2 = false

unfoldable pub test_le : Register → Register → Bool
test_le (int32 a) (int32 b) = not (lt_int32 a b)
test_le (string s) (string t) = not (is_above (strcmp t s))
test_le (binary p n) (binary q m) = not (is_above (memcmp q p (min n m)))
test_le r1 r2 = false

unfoldable pub test_gt : Register → Register → Bool
test_gt (int32 a) (int32 b) = lt_int32 a b
test_gt (string s) (string t) = is_above (strcmp t s)
test_gt (binary p n) (binary q m) = is_above (memcmp q p (min n m))
test_gt r1 r2 = false

unfoldable pub test_ge : Register → Register → Bool
test_ge (int32 a) (int32 b) = not (lt_int32 b a)
test_ge (string s) (string t) = not (is_below (strcmp t s))
test_ge (binary p n) (binary q m) = not (is_below (memcmp q p (min n m)))
test_ge r1 r2 = false
