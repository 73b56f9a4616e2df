-- ===== src/Prelude/Lists.antt =====
-- Lists measured and indexed by native numbers, under the library's names.
use Prim.Native.Nat.{ℕ, zero, suc, ◌+◌, ◌≤◌, ◌<◌}
use mathlib.Core.Path.{◌≡◌, refl, ap, ap₂}
use mathlib.Core.List.{List, [], ◌∷◌, ◌++◌}
use mathlib.Core.Option.{Option, none, some}
use native.Mathlib.Omega.{arith}

module _ {ℓ} {A : Type ℓ} where
  abbrev pub length : List A → ℕ
  length [] = 0
  length (x ∷ xs) = suc (length xs)

  abbrev pub get_elem? : List A → ℕ → Option A
  get_elem? [] i = none
  get_elem? (x ∷ xs) zero = some x
  get_elem? (x ∷ xs) (suc i) = get_elem? xs i

  pub length-append : (xs ys : List A) → length (xs ++ ys) ≡ length xs + length ys
  length-append [] ys = omega arith
  length-append (x ∷ xs) ys = omega (arith, length-append xs ys)

-- An index below `n + 1` is below `i`, or is `i`, or is one past an index from `i` on.
pub shift_cases {ℓ} :
    (i n : ℕ) (P : ℕ → Type ℓ)
    → ((j : ℕ) → j < i → P j)
    → P i
    → ((j : ℕ) → i ≤ j → j < n → P (suc j))
    → (j : ℕ) → j < suc n
    → P j
shift_cases zero n P below self above zero h = self
shift_cases zero n P below self above (suc j) h = above j (omega arith) (omega arith)
shift_cases (suc i) n P below self above zero h = below 0 (omega arith)
shift_cases (suc i) zero P below self above (suc j) h = absurd (omega arith)
shift_cases (suc i) (suc n) P below self above (suc j) h =
    shift_cases i n (λ k. P (suc k)) (λ k lt. below (suc k) (omega arith)) self
      (λ k lo hi. above (suc k) (omega arith) (omega arith)) j (omega arith)

module _ {ℓ} {A : Type ℓ} where
  abbrev pub tabulate : ℕ → (ℕ → A) → List A
  tabulate zero f = []
  tabulate (suc n) f = f 0 ∷ tabulate n (λ i. f (suc i))

  abbrev pub insert_at : ℕ → A → List A → List A
  insert_at zero x ys = x ∷ ys
  insert_at (suc i) x [] = x ∷ []
  insert_at (suc i) x (y ∷ ys) = y ∷ insert_at i x ys

  pub tabulate_eq :
      (n : ℕ) (f g : ℕ → A) → ((j : ℕ) → j < n → f j ≡ g j) → tabulate n f ≡ tabulate n g
  tabulate_eq zero f g h = refl
  tabulate_eq (suc n) f g h =
      ap₂ ◌∷◌ (h 0 (omega arith))
        (tabulate_eq n (λ i. f (suc i)) (λ i. g (suc i)) (λ j lt. h (suc j) (omega arith)))

  pub tabulate-insert_at :
      (i n : ℕ) (f g : ℕ → A)
      → i ≤ n
      → ((j : ℕ) → j < i → g j ≡ f j)
      → ((j : ℕ) → i ≤ j → j < n → g (suc j) ≡ f j)
      → tabulate (suc n) g ≡ insert_at i (g i) (tabulate n f)
  tabulate-insert_at zero n f g le below above =
      ap (λ (t : List A). g 0 ∷ t)
        (tabulate_eq n (λ j. g (suc j)) f (λ j lt. above j (omega arith) lt))
  tabulate-insert_at (suc i) zero f g le below above = absurd (omega arith)
  tabulate-insert_at (suc i) (suc n) f g le below above = ap₂ ◌∷◌ (below 0 (omega arith)) (
      tabulate-insert_at i n (λ j. f (suc j)) (λ j. g (suc j)) (omega arith)
        (λ j lt. below (suc j) (omega arith))
        (λ j lo hi. above (suc j) (omega arith) (omega arith)))

  pub get_elem?-tabulate :
      (n : ℕ) (f : ℕ → A) (j : ℕ) → j < n → get_elem? (tabulate n f) j ≡ some (f j)
  get_elem?-tabulate zero f j h = absurd (omega arith)
  get_elem?-tabulate (suc n) f zero h = refl
  get_elem?-tabulate (suc n) f (suc j) h = get_elem?-tabulate n (λ i. f (suc i)) j (omega arith)

  pub get_elem?-tabulate-none :
      (n : ℕ) (f : ℕ → A) (j : ℕ) → n ≤ j → get_elem? (tabulate n f) j ≡ none
  get_elem?-tabulate-none zero f j h = refl
  get_elem?-tabulate-none (suc n) f zero h = absurd (omega arith)
  get_elem?-tabulate-none (suc n) f (suc j) h =
      get_elem?-tabulate-none n (λ i. f (suc i)) j (omega arith)

module _ {ℓ} {A : Type ℓ} where
  abbrev pub take : ℕ → List A → List A
  take zero xs = []
  take (suc n) [] = []
  take (suc n) (x ∷ xs) = x ∷ take n xs

  abbrev pub drop : ℕ → List A → List A
  drop zero xs = xs
  drop (suc n) [] = []
  drop (suc n) (x ∷ xs) = drop n xs

  pub take-all : (n : ℕ) (xs : List A) → length xs ≤ n → take n xs ≡ xs
  take-all zero [] h = refl
  take-all zero (x ∷ xs) h = absurd (omega arith)
  take-all (suc n) [] h = refl
  take-all (suc n) (x ∷ xs) h = ap (λ (t : List A). x ∷ t) (take-all n xs (omega arith))

  pub take-append : (xs ys : List A) → take (length xs) (xs ++ ys) ≡ xs
  take-append [] ys = refl
  take-append (x ∷ xs) ys = ap (λ (t : List A). x ∷ t) (take-append xs ys)

  pub drop-append : (xs ys : List A) → drop (length xs) (xs ++ ys) ≡ ys
  drop-append [] ys = refl
  drop-append (x ∷ xs) ys = drop-append xs ys
