-- ===== src/Db/Util/Past.antt =====
-- Reading an integer of util.c at, or past, one that has been written.
use chi.Prelude.{ℕ, ◌+◌, ◌^◌, ◌≤◌, ◌<◌, ◌≡◌, subst, ◌⊎◌, arith}
use chi.Db.Memory.{Bytes, poke}
use chi.Db.Util.{get4byte, put4byte, get_varint32, put_varint32}
use chi.Db.Util.Words.{get4byte-put4byte, put4byte-Agree, get4byte-Agree}
use chi.Db.Util.Varint.{get_varint32-put_varint32, put_varint32-Agree, get_varint32-Agree}

-- Four bytes at `a` are apart from those at `b`.
abbrev pub Apart : ℕ → ℕ → Type 0
Apart a b = (a + 4 ≤ b) ⊎ (b + 4 ≤ a)

module _ (p : Bytes) (a b v : ℕ) where
  pub get4byte_back : a ≡ b → v < 2 ^ 32 → get4byte (put4byte p a v) b ≡ v
  get4byte_back e h =
      subst (λ c. get4byte (put4byte p a v) c ≡ v) e (omega (arith, get4byte-put4byte p a v))

  pub get_varint32_back : a ≡ b → v < 2 ^ 28 → get_varint32 (put_varint32 p a v) b ≡ v
  get_varint32_back e h =
      subst (λ c. get_varint32 (put_varint32 p a v) c ≡ v) e
        (omega (arith, get_varint32-put_varint32 p a v))

  pub get4byte-put4byte_ne : Apart a b → get4byte (put4byte p a v) b ≡ get4byte p b
  get4byte-put4byte_ne h = get4byte-Agree _ _ b (λ i l u. put4byte-Agree p a v i (omega arith))

  pub get_varint32-put4byte_ne : Apart a b → get_varint32 (put4byte p a v) b ≡ get_varint32 p b
  get_varint32-put4byte_ne h =
      get_varint32-Agree _ _ b (λ i l u. put4byte-Agree p a v i (omega arith))

  pub get_varint32-put_varint32_ne :
      Apart a b → get_varint32 (put_varint32 p a v) b ≡ get_varint32 p b
  get_varint32-put_varint32_ne h =
      get_varint32-Agree _ _ b (λ i l u. put_varint32-Agree p a v i (omega arith))

pub get4byte-poke_ne :
    (p : Bytes) (a b v : ℕ) → (a < b) ⊎ (b + 4 ≤ a) → get4byte (poke p a v) b ≡ get4byte p b
get4byte-poke_ne p a b v h = get4byte-Agree _ _ b (λ i l u. ground arith)
