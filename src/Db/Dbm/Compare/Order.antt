-- ===== src/Db/Dbm/Compare/Order.antt =====
-- What the comparisons of dbm-ops.c have to do with each other.
use chi.Prelude.{
  ℕ, ◌≡◌, ◌≢◌, refl, sym, subst, ap, ap₂, ◌∙◌, ◌⊎◌, inl, inr, Bool, true, false, ◌&&◌, ◌||◌, not,
  ◌==◌, List, [], ◌∷◌, arith, Bool-cases,
}
use mathlib.Core.Bool.{true≢false}
use chi.Db.Codes.{chidb_ok}
use chi.Db.Run.{returns}
use chi.Db.Dbm.{Register, unspecified, null, int32, string, binary, Op, Stmt, Opcode}
use chi.Db.Dbm
use chi.Db.Dbm.Compare.{
  Sign, below, same, above, strcmp, is_below, is_same, is_above, test_eq, test_ne, test_lt, test_le,
  test_gt, test_ge,
}
use chi.Db.Dbm.Ops.{jump, is_valid_register, op_compare, dispatch}

-- Two registers that the comparisons have a case for: two numbers, two strings or two blocks of bytes.
abbrev pub comparable : Register → Register → Bool
comparable (int32 a) (int32 b) = true
comparable (string s) (string t) = true
comparable (binary p n) (binary q m) = true
comparable r1 r2 = false

bool_not : (b : Bool) → b ≡ not (not b)
bool_not true = refl
bool_not false = refl

de_morgan : (a b : Bool) → (not a || not b) ≡ not (a && b)
de_morgan true b = refl
de_morgan false b = refl

-- Each test is the negation of another on such registers, and fails on any others.
opposites :
    (r1 r2 : Register)
    → (test_ne r1 r2 ≡ (comparable r1 r2 && not (test_eq r1 r2)))
      × (test_ge r1 r2 ≡ (comparable r1 r2 && not (test_lt r1 r2)))
      × (test_gt r1 r2 ≡ (comparable r1 r2 && not (test_le r1 r2)))
      × (test_eq r1 r2 ≡ (comparable r1 r2 && test_eq r1 r2))
      × (test_lt r1 r2 ≡ (comparable r1 r2 && test_lt r1 r2))
      × (test_le r1 r2 ≡ (comparable r1 r2 && test_le r1 r2))
unfolding test_eq test_ne test_lt test_le test_gt test_ge
opposites unspecified unspecified = (refl, refl, refl, refl, refl, refl)
opposites unspecified null = (refl, refl, refl, refl, refl, refl)
opposites unspecified (int32 y) = (refl, refl, refl, refl, refl, refl)
opposites unspecified (string y) = (refl, refl, refl, refl, refl, refl)
opposites unspecified (binary y yn) = (refl, refl, refl, refl, refl, refl)
opposites null unspecified = (refl, refl, refl, refl, refl, refl)
opposites null null = (refl, refl, refl, refl, refl, refl)
opposites null (int32 y) = (refl, refl, refl, refl, refl, refl)
opposites null (string y) = (refl, refl, refl, refl, refl, refl)
opposites null (binary y yn) = (refl, refl, refl, refl, refl, refl)
opposites (int32 x) unspecified = (refl, refl, refl, refl, refl, refl)
opposites (int32 x) null = (refl, refl, refl, refl, refl, refl)
opposites (int32 x) (int32 y) = (refl, refl, bool_not _, refl, refl, refl)
opposites (int32 x) (string y) = (refl, refl, refl, refl, refl, refl)
opposites (int32 x) (binary y yn) = (refl, refl, refl, refl, refl, refl)
opposites (string x) unspecified = (refl, refl, refl, refl, refl, refl)
opposites (string x) null = (refl, refl, refl, refl, refl, refl)
opposites (string x) (int32 y) = (refl, refl, refl, refl, refl, refl)
opposites (string x) (string y) = (refl, refl, bool_not _, refl, refl, refl)
opposites (string x) (binary y yn) = (refl, refl, refl, refl, refl, refl)
opposites (binary x xn) unspecified = (refl, refl, refl, refl, refl, refl)
opposites (binary x xn) null = (refl, refl, refl, refl, refl, refl)
opposites (binary x xn) (int32 y) = (refl, refl, refl, refl, refl, refl)
opposites (binary x xn) (string y) = (refl, refl, refl, refl, refl, refl)
opposites (binary x xn) (binary y yn) = (de_morgan (xn == yn) _, refl, bool_not _, refl, refl, refl)

abbrev pub Jumps : Stmt → Op → Opcode → Type 0
Jumps stmt op o = dispatch o stmt op ≡ returns (chidb_ok, jump stmt op.p2)

abbrev pub Stays : Stmt → Op → Opcode → Type 0
Stays stmt op o = dispatch o stmt op ≡ returns (chidb_ok, stmt)

-- One of two instructions jumps, and the other goes on to the next instruction.
abbrev pub OneJumps : Stmt → Op → Opcode → Opcode → Type 0
OneJumps stmt op o o' = (Jumps stmt op o × Stays stmt op o') ⊎ (Stays stmt op o × Jumps stmt op o')

-- On two valid registers with numbers, strings or bytes in both, Eq jumps or Ne does, Lt jumps or Ge
-- does, and Le jumps or Gt does, and never both. On any other two valid registers, also where both
-- are NULL, none of the six jumps.
pub op_compare-opposite :
    (stmt : Stmt) (op : Op)
    → is_valid_register stmt op.p1 ≡ true
    → is_valid_register stmt op.p3 ≡ true
    → ((comparable (stmt.reg op.p1) (stmt.reg op.p3) ≡ true)
        × OneJumps stmt op Dbm.eq Dbm.ne
        × OneJumps stmt op Dbm.lt Dbm.ge
        × OneJumps stmt op Dbm.le Dbm.gt)
      ⊎ ((comparable (stmt.reg op.p1) (stmt.reg op.p3) ≡ false)
          × Stays stmt op Dbm.eq
          × Stays stmt op Dbm.ne
          × Stays stmt op Dbm.lt
          × Stays stmt op Dbm.le
          × Stays stmt op Dbm.gt
          × Stays stmt op Dbm.ge)
unfolding dispatch op_compare
op_compare-opposite stmt op v1 v3 =
    let (ne, ge, gt, eq, lt, le) = opposites (stmt.reg op.p1) (stmt.reg op.p3) in
    elim (Bool-cases (comparable (stmt.reg op.p1) (stmt.reg op.p3))) [
      | inl c ↦ inl (
        c,
        ground (arith, v1, v3, c, ne),
        ground (arith, v1, v3, c, ge),
        ground (arith, v1, v3, c, gt),
      )
      | inr c ↦ inr (
        c,
        ground (arith, v1, v3, c, eq),
        ground (arith, v1, v3, c, ne),
        ground (arith, v1, v3, c, lt),
        ground (arith, v1, v3, c, le),
        ground (arith, v1, v3, c, gt),
        ground (arith, v1, v3, c, ge),
      )
    ]

-- `strcmp` answers zero for equal strings only, and the sign for exchanged strings is the other one.
abbrev flip : Sign → Sign
flip below = above
flip same = same
flip above = below

strcmp-flip : (s t : List ℕ) → strcmp t s ≡ flip (strcmp s t)
unfolding strcmp
strcmp-flip [] [] = refl
strcmp-flip [] (b ∷ t) = refl
strcmp-flip (a ∷ s) [] = refl
strcmp-flip (a ∷ s) (b ∷ t) = ground (arith, strcmp-flip s t)

strcmp_self : (s : List ℕ) → strcmp s s ≡ same
unfolding strcmp
strcmp_self [] = refl
strcmp_self (a ∷ s) = ground (arith, strcmp_self s)

strcmp-same : (s t : List ℕ) → is_same (strcmp s t) ≡ true → s ≡ t
unfolding strcmp
strcmp-same [] [] e = refl
strcmp-same [] (b ∷ bs) e = absurd (true≢false (sym e))
strcmp-same (a ∷ s) [] e = absurd (true≢false (sym e))
strcmp-same (a ∷ s) (b ∷ t) e = ground (arith, strcmp-same s t, e)

-- On two registers with strings, Eq, Le and Ge jump and Lt and Gt do not where the strings are equal.
-- Where they differ Eq does not jump, and either Lt and Le jump or Gt and Ge do.
pub op_compare-strings :
    (stmt : Stmt) (op : Op) (s t : List ℕ)
    → is_valid_register stmt op.p1 ≡ true
    → is_valid_register stmt op.p3 ≡ true
    → stmt.reg op.p1 ≡ string s
    → stmt.reg op.p3 ≡ string t
    → ((s ≡ t)
        × Jumps stmt op Dbm.eq
        × Jumps stmt op Dbm.le
        × Jumps stmt op Dbm.ge
        × Stays stmt op Dbm.lt
        × Stays stmt op Dbm.gt)
      ⊎ ((s ≢ t)
          × Stays stmt op Dbm.eq
          × (Jumps stmt op Dbm.lt
                × Jumps stmt op Dbm.le
                × Stays stmt op Dbm.gt
                × Stays stmt op Dbm.ge
              ⊎ Stays stmt op Dbm.lt
                × Stays stmt op Dbm.le
                × Jumps stmt op Dbm.gt
                × Jumps stmt op Dbm.ge))
unfolding dispatch op_compare test_eq test_lt test_le test_gt test_ge
op_compare-strings stmt op s t v1 v3 e1 e3 = by_sign (strcmp s t) refl
  where
    test_of :
        (test : Register → Register → Bool) (b : Bool)
        → test (string s) (string t) ≡ b
        → test (stmt.reg op.p1) (stmt.reg op.p3) ≡ b
    test_of test b h = ap₂ test e1 e3 ∙ h

    jumps :
        (test : Register → Register → Bool)
        → test (string s) (string t) ≡ true
        → op_compare test stmt op ≡ returns (chidb_ok, jump stmt op.p2)
    jumps test h = let h' = test_of test true h in rw (v1, v3, h') refl

    stays :
        (test : Register → Register → Bool)
        → test (string s) (string t) ≡ false
        → op_compare test stmt op ≡ returns (chidb_ok, stmt)
    stays test h = let h' = test_of test false h in rw (v1, v3, h') refl

    differ : (g : Sign) → strcmp s t ≡ g → is_same g ≡ false → s ≢ t
    differ g e f = λ h.
        let equal : strcmp s t ≡ same =
          subst (λ (u : List ℕ). strcmp s u ≡ same) h (strcmp_self s) in
        true≢false (sym (ap is_same equal) ∙ ap is_same e ∙ f)

    by_sign :
        (g : Sign)
        → strcmp s t ≡ g
        → ((s ≡ t)
            × Jumps stmt op Dbm.eq
            × Jumps stmt op Dbm.le
            × Jumps stmt op Dbm.ge
            × Stays stmt op Dbm.lt
            × Stays stmt op Dbm.gt)
          ⊎ ((s ≢ t)
              × Stays stmt op Dbm.eq
              × (Jumps stmt op Dbm.lt
                    × Jumps stmt op Dbm.le
                    × Stays stmt op Dbm.gt
                    × Stays stmt op Dbm.ge
                  ⊎ Stays stmt op Dbm.lt
                    × Stays stmt op Dbm.le
                    × Jumps stmt op Dbm.gt
                    × Jumps stmt op Dbm.ge))
    by_sign below e =
        let back = strcmp-flip s t ∙ ap flip e in
        inr (
          differ below e refl,
          stays test_eq (ap is_same e),
          inr (
            stays test_lt (ap is_below back),
            stays test_le (ap (λ g. not (is_above g)) back),
            jumps test_gt (ap is_above back),
            jumps test_ge (ap (λ g. not (is_below g)) back),
          ),
        )
    by_sign same e =
        let back = strcmp-flip s t ∙ ap flip e in
        inl (
          strcmp-same s t (ap is_same e),
          jumps test_eq (ap is_same e),
          jumps test_le (ap (λ g. not (is_above g)) back),
          jumps test_ge (ap (λ g. not (is_below g)) back),
          stays test_lt (ap is_below back),
          stays test_gt (ap is_above back),
        )
    by_sign above e =
        let back = strcmp-flip s t ∙ ap flip e in
        inr (
          differ above e refl,
          stays test_eq (ap is_same e),
          inl (
            jumps test_lt (ap is_below back),
            jumps test_le (ap (λ g. not (is_above g)) back),
            stays test_gt (ap is_above back),
            stays test_ge (ap (λ g. not (is_below g)) back),
          ),
        )
