-- ===== src/Db/Run.antt =====
-- How a call of the C code ends.

-- `aborted` is a failed assertion or `exit`, `undefined` the use of what was never set or is freed.
-- `out_of_fuel` is no result of the code.
pub data Run {ℓ} (A : Type ℓ) : Type ℓ where
  returns : A → Run A
  aborted undefined out_of_fuel : Run A

infixl 5 ◌>>=◌
abbrev pub ◌>>=◌ {ℓ κ} : {A : Type ℓ} {B : Type κ} → Run A → (A → Run B) → Run B
returns a >>= f = f a
aborted >>= f = aborted
undefined >>= f = undefined
out_of_fuel >>= f = out_of_fuel
