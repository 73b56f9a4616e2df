-- ===== src/Db/Record/Spec.antt =====
-- A record of record.c from a specification is the one that its values, appended in order, make.
use chi.Prelude.{
  ℕ, suc, ◌+◌, ◌-◌, ◌%◌, ◌^◌, ◌≤◌, ◌≡◌, refl, ◌∙◌, ap, List, [], ◌∷◌, length, arith, false,
}
use chi.Db.Run.{Run, returns, undefined, out_of_fuel, aborted, ◌>>=◌}
use chi.Db.Record.{
  Value, int8, int16, int32, null, text, DbRecord, DbRecordBuffer, create_empty, append_int8,
  append_int16, append_int32, append_null, append_string, finalize,
}
use chi.Db.Record.Create.{
  Arg, number, string, count_char, create_int, create_other, create_from, create,
}
use chi.Db.Record.Values.{append_all, AllInRange}

-- The field specifiers `i1`, `i2`, `i4`, `0` and `s`, then a bar.
abbrev pub specifier : Value → List ℕ → List ℕ
specifier (int8 v) rest = 105 ∷ 49 ∷ rest
specifier (int16 v) rest = 105 ∷ 50 ∷ rest
specifier (int32 v) rest = 105 ∷ 52 ∷ rest
specifier null rest = 48 ∷ rest
specifier (text s) rest = 115 ∷ rest

abbrev pub specifiers : List Value → List ℕ
specifiers [] = []
specifiers (v ∷ vs) = specifier v (124 ∷ specifiers vs)

abbrev pub arg_of : Value → List Arg → List Arg
arg_of (int8 v) rest = number v ∷ rest
arg_of (int16 v) rest = number v ∷ rest
arg_of (int32 v) rest = number v ∷ rest
arg_of null rest = rest
arg_of (text s) rest = string s ∷ rest

abbrev pub args_of : List Value → List Arg
args_of [] = []
args_of (v ∷ vs) = arg_of v (args_of vs)

count_specifiers : (vs : List Value) → count_char 124 (specifiers vs) ≡ length vs
unfolding count_char
count_specifiers [] = refl
count_specifiers (int8 v ∷ vs) = ap suc (count_specifiers vs)
count_specifiers (int16 v ∷ vs) = ap suc (count_specifiers vs)
count_specifiers (int32 v ∷ vs) = ap suc (count_specifiers vs)
count_specifiers (null ∷ vs) = ap suc (count_specifiers vs)
count_specifiers (text s ∷ vs) = ap suc (count_specifiers vs)

-- What follows an append goes on with the arguments that are left.
bind_args :
    (x : Run DbRecordBuffer) (args : List Arg) (f : List Arg → DbRecordBuffer → Run DbRecordBuffer)
    → ((x >>= λ b. returns (args, b)) >>= λ (left, b). f left b) ≡ (x >>= λ b. f args b)
bind_args (returns b) args f = refl
bind_args aborted args f = refl
bind_args undefined args f = refl
bind_args out_of_fuel args f = refl

bind_ext :
    (x : Run DbRecordBuffer) (f g : DbRecordBuffer → Run DbRecordBuffer)
    → ((b : DbRecordBuffer) → f b ≡ g b)
    → (x >>= λ b. f b) ≡ (x >>= λ b. g b)
bind_ext (returns b) f g h = h b
bind_ext aborted f g h = refl
bind_ext undefined f g h = refl
bind_ext out_of_fuel f g h = refl

create_from-specifiers :
    (vs : List Value) (b : DbRecordBuffer)
    → AllInRange vs
    → create_from (specifiers vs) false (args_of vs) b ≡ append_all vs b
unfolding create_from create_int create_other
create_from-specifiers [] b r = refl
create_from-specifiers (int8 v ∷ vs) b r =
    let e : v % 2 ^ 8 ≡ v = omega arith in
    bind_args (append_int8 b (v % 2 ^ 8)) (args_of vs) (create_from (specifiers vs) false)
    ∙ ap (λ (x : ℕ). append_int8 b x >>= create_from (specifiers vs) false (args_of vs)) e
    ∙ bind_ext (append_int8 b v) (create_from (specifiers vs) false (args_of vs)) (append_all vs)
        (λ c. create_from-specifiers vs c r.1)
create_from-specifiers (int16 v ∷ vs) b r =
    let e : v % 2 ^ 16 ≡ v = omega arith in
    bind_args (append_int16 b (v % 2 ^ 16)) (args_of vs) (create_from (specifiers vs) false)
    ∙ ap (λ (x : ℕ). append_int16 b x >>= create_from (specifiers vs) false (args_of vs)) e
    ∙ bind_ext (append_int16 b v) (create_from (specifiers vs) false (args_of vs)) (append_all vs)
        (λ c. create_from-specifiers vs c r.1)
create_from-specifiers (int32 v ∷ vs) b r =
    let e : v % 2 ^ 32 ≡ v = omega arith in
    bind_args (append_int32 b (v % 2 ^ 32)) (args_of vs) (create_from (specifiers vs) false)
    ∙ ap (λ (x : ℕ). append_int32 b x >>= create_from (specifiers vs) false (args_of vs)) e
    ∙ bind_ext (append_int32 b v) (create_from (specifiers vs) false (args_of vs)) (append_all vs)
        (λ c. create_from-specifiers vs c r.1)
create_from-specifiers (null ∷ vs) b r =
    bind_args (append_null b) (args_of vs) (create_from (specifiers vs) false)
    ∙ bind_ext (append_null b) (create_from (specifiers vs) false (args_of vs)) (append_all vs)
        (λ c. create_from-specifiers vs c r.1)
create_from-specifiers (text s ∷ vs) b r =
    bind_args (append_string b s) (args_of vs) (create_from (specifiers vs) false)
    ∙ bind_ext (append_string b s) (create_from (specifiers vs) false (args_of vs)) (append_all vs)
        (λ c. create_from-specifiers vs c r.1)

-- For at most 254 values in range, the specification `|..|..|` of their kinds, with the values as
-- arguments, makes the same record, or fails in the same way, as appending the values in order to an
-- empty record with that many fields.
pub create_lem :
    (vs : List Value) (fresh : DbRecord)
    → AllInRange vs
    → length vs ≤ 254
    → create fresh (124 ∷ specifiers vs) (args_of vs)
      ≡ (append_all vs (create_empty fresh (length vs)) >>= λ b. returns (finalize b))
unfolding create create_from create_other count_char
create_lem vs fresh r le =
    let c = count_specifiers vs in
    let n : (suc (count_char 124 (specifiers vs)) % 2 ^ 8 + (2 ^ 8 - 1)) % 2 ^ 8 ≡ length vs =
      omega arith in
    ap
      (λ (x : ℕ). create_from (specifiers vs) false (args_of vs) (create_empty fresh x) >>= λ b.
        returns (finalize b))
      n
    ∙ ap (λ (x : Run DbRecordBuffer). x >>= λ b. returns (finalize b))
        (create_from-specifiers vs (create_empty fresh (length vs)) r)
