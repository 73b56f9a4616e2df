-- ===== src/Db/Dbm/Exec/Forward.antt =====
-- A program of dbm.c whose jumps go forward ends.
use chi.Prelude.{
  ℕ, zero, suc, ◌+◌, ◌^◌, ◌<◌, ◌≡◌, ◌≢◌, refl, sym, subst, ap, ◌∙◌, inl, inr, true, false, ◌==◌,
  ltb, arith, Bool-cases,
}
use chi.Db.Codes.{Code, chidb_ok}
use chi.Db.Run.{Run, returns, aborted, undefined, out_of_fuel}
use chi.Db.Dbm.{Op, Stmt}
use chi.Db.Dbm.Ops.{handle}
use chi.Db.Dbm.Exec.{fetch, advance, finish, exec}
use chi.Db.Dbm.Exec.Moves.{is_jump, Moves, Ends, bind-Ends, handle-Moves}

-- Every jump of the program goes to a later instruction.
abbrev pub Forward : Stmt → Type 0
Forward stmt = (i : ℕ) → i < stmt.end_op → is_jump (stmt.ops i).opcode ≡ true → i < (stmt.ops i).p2

abbrev pub Finished : Stmt → Code × Stmt → Type 0
Finished stmt (rc, stmt') = (rc ≢ chidb_ok) × (stmt'.ops ≡ stmt.ops) × (stmt'.end_op ≡ stmt.end_op)

-- A step from below the end of a program keeps the program and raises the counter.
step-rises :
    (stmt : Stmt) (r : Code × Stmt)
    → Forward stmt
    → stmt.end_op + 1 < 2 ^ 32
    → stmt.pc < stmt.end_op
    → Moves (advance stmt) (fetch stmt) r
    → stmt.pc < r.1.pc
step-rises stmt r fw small h (o, e, inl pc) = omega (arith, pc)
step-rises stmt r fw small h (o, e, inr (inl (j, pc))) = omega (arith, pc, fw stmt.pc h j)
step-rises stmt r fw small h (o, e, inr (inr pc)) = omega (arith, pc)

moved-Forward :
    (stmt stmt' : Stmt)
    → Forward stmt
    → stmt'.ops ≡ stmt.ops
    → stmt'.end_op ≡ stmt.end_op
    → Forward stmt'
moved-Forward stmt stmt' fw o e i h j =
    let same : stmt'.ops i ≡ stmt.ops i = ap (λ (f : ℕ → Op). f i) o in
    subst (λ (op : Op). i < op.p2) (sym same)
      (fw i (omega (arith, e)) (ap (λ (op : Op). is_jump op.opcode) (sym same) ∙ j))

finish-ne : (rc : Code) → rc == chidb_ok ≡ false → finish rc ≢ chidb_ok
finish-ne rc f = λ e. ground (arith, f, e)

transport-Finished :
    (stmt stmt' : Stmt) (r : Code × Stmt)
    → stmt'.ops ≡ stmt.ops
    → stmt'.end_op ≡ stmt.end_op
    → Finished stmt' r
    → Finished stmt r
transport-Finished stmt stmt' r o e (rc, o', e') = (rc, o' ∙ o, e' ∙ e)

map-Ends :
    {A : Type 0}
    → (P Q : A → Type 0) (run : Run A) → ((a : A) → P a → Q a)
    → Ends P run
    → Ends Q run
map-Ends P Q (returns a) f h = f a h
map-Ends P Q aborted f h = tt
map-Ends P Q undefined f h = tt
map-Ends P Q out_of_fuel f h = h

-- A program whose jumps all go forward comes to an end within one more step than it has instructions:
-- it returns with a code other than CHIDB_OK and with the program as it was, or the process ends
-- before. It never goes on.
pub exec-Ends :
    (fuel : ℕ) (stmt : Stmt)
    → Forward stmt
    → stmt.end_op + 1 < 2 ^ 32
    → 0 < fuel
    → stmt.end_op < fuel + stmt.pc
    → Ends (Finished stmt) (exec fuel stmt)
unfolding exec
exec-Ends zero stmt fw small lo hi = absurd (omega arith)
exec-Ends (suc fuel) stmt fw small lo hi = elim (Bool-cases (ltb stmt.pc stmt.end_op)) [
  | inr f ↦ rw f ((λ e. absurd (omega (arith, e))), refl, refl)
  | inl t ↦
      let below : stmt.pc < stmt.end_op = ground (arith, t) in
      rw t (
        bind-Ends (Moves (advance stmt) (fetch stmt)) (Finished stmt)
          (handle (advance stmt) (fetch stmt)) _ (handle-Moves (advance stmt) (fetch stmt))
          (λ r m.
            let rises = step-rises stmt r fw small below m in
            elim (Bool-cases (r.0 == chidb_ok)) [
              | inl ok ↦ rw ok (
                  map-Ends (Finished r.1) (Finished stmt) (exec fuel r.1)
                    (λ q. transport-Finished stmt r.1 q m.0 m.1)
                    (exec-Ends fuel r.1 (moved-Forward stmt r.1 fw m.0 m.1) (omega (arith, m.1))
                      (omega arith) (omega (arith, m.1, rises))))
              | inr other ↦ rw other (rw other at (finish-ne r.0 other), m.0, m.1)
            ]))
]
