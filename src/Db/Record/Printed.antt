-- ===== src/Db/Record/Printed.antt =====
-- The fields of a record of record.c that holds values are printed as those values.
use chi.Prelude.{
  ℕ, ◌+◌, ◌*◌, ◌≤◌, ◌≡◌, refl, ◌∙◌, ap, ap₂, List, [], ◌∷◌, ◌++◌, length, arith, subst, tabulate,
  tabulate_eq,
}
use chi.Db.Util.{get2byte, get4byte}
use chi.Db.Record.{
  Value, int8, int16, int32, null, text, DbRecord, chars, get_type, get_int8, get_int16, get_int32,
  get_string, get_string_length, print_field, print_from,
}
use chi.Db.Record.Values.{type_code, width, InRange, AllInRange, Stored, At, Typed, Placed, Holds}
use chi.Db.Record.Header.{get_type-Typed}

tabulate-chars : (s : List ℕ) → tabulate (length s) (chars s) ≡ s
tabulate-chars [] = refl
tabulate-chars (c ∷ cs) = ap (λ (t : List ℕ). c ∷ t) (tabulate-chars cs)

pub get_string_length-Typed :
    (s : List ℕ) (k : ℕ) (dbr : DbRecord)
    → length s ≤ 1024
    → dbr.types k ≡ length s * 2 + 13
    → get_string_length dbr k ≡ length s
unfolding get_string_length
get_string_length-Typed s k dbr r t = omega arith

-- A field that holds a value is printed as that value.
print_one :
    (v : Value) (k o : ℕ) (dbr : DbRecord)
    → InRange v
    → dbr.types k ≡ type_code v
    → At v (dbr.offsets k) o
    → Stored v dbr.contents o
    → print_field dbr k (get_type dbr k) ≡ v ∷ []
unfolding get_int8 get_int16 get_int32 get_string
print_one (int8 v) k o dbr r t a s =
    ap (print_field dbr k) (get_type-Typed (int8 v) k dbr r t)
    ∙ ap (λ (x : ℕ). int8 x ∷ []) (ap dbr.contents a ∙ s)
print_one (int16 v) k o dbr r t a s =
    ap (print_field dbr k) (get_type-Typed (int16 v) k dbr r t)
    ∙ ap (λ (x : ℕ). int16 x ∷ []) (ap (get2byte dbr.contents) a ∙ s)
print_one (int32 v) k o dbr r t a s =
    ap (print_field dbr k) (get_type-Typed (int32 v) k dbr r t)
    ∙ ap (λ (x : ℕ). int32 x ∷ []) (ap (get4byte dbr.contents) a ∙ s)
print_one null k o dbr r t a s = ap (print_field dbr k) (get_type-Typed null k dbr r t)
print_one (text cs) k o dbr r t a s =
    ap (print_field dbr k) (get_type-Typed (text cs) k dbr r t)
    ∙ ap (λ (x : List ℕ). text x ∷ [])
        (ap (λ (n : ℕ). tabulate n (λ i. dbr.contents (dbr.offsets k + i)))
            (get_string_length-Typed cs k dbr r t)
          ∙ ap (λ (x : ℕ). tabulate (length cs) (λ i. dbr.contents (x + i))) a
          ∙ tabulate_eq (length cs) (λ i. dbr.contents (o + i)) (chars cs) s
          ∙ tabulate-chars cs)

pub print_from_lem :
    (vs : List Value) (k o : ℕ) (dbr : DbRecord)
    → AllInRange vs
    → Holds vs k o dbr
    → print_from (length vs) k dbr ≡ vs
unfolding print_from
print_from_lem [] k o dbr r h = refl
print_from_lem (v ∷ vs) k o dbr r (t, a, s) =
    let rest = print_from_lem vs (k + 1) (o + width v) dbr r.1 (
      subst (λ x. Typed vs x dbr.types) (omega arith) t.1,
      subst (λ x. Placed vs x (o + width v) dbr.offsets) (omega arith) a.1,
      s.1,
    ) in
    ap₂ ◌++◌ (print_one v k o dbr r.0 t.0 a.0 s.0) rest
