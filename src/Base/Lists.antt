-- ===== src/Base/Lists.antt =====
-- Arrays and vectors as lists, measured and indexed by native numbers.
use Prim.Native.Nat.{ℕ, zero, suc, ◌+◌, ◌≤◌, ◌<◌}
use mathlib.Core.Path.{◌≡◌, refl, ap}
use mathlib.Core.Logic.{◌≢◌}
use mathlib.Core.List.{List, [], ◌∷◌, ◌++◌}
use mathlib.Core.Option.{Option, none, some}
use native.Mathlib.Omega.{arith}

module _ {ℓ} {A : Type ℓ} where
  abbrev pub length : List A → ℕ
  length [] = 0
  length (x ∷ xs) = suc (length xs)

  abbrev pub get_elem? : List A → ℕ → Option A
  get_elem? [] i = none
  get_elem? (x ∷ xs) zero = some x
  get_elem? (x ∷ xs) (suc i) = get_elem? xs i

  -- A write out of bounds changes nothing.
  abbrev pub set : List A → ℕ → A → List A
  set [] i v = []
  set (x ∷ xs) zero v = v ∷ xs
  set (x ∷ xs) (suc i) v = x ∷ set xs i v

  abbrev pub replicate : ℕ → A → List A
  replicate zero a = []
  replicate (suc n) a = a ∷ replicate n a

  pub length-append : (xs ys : List A) → length (xs ++ ys) ≡ length xs + length ys
  length-append [] ys = omega arith
  length-append (x ∷ xs) ys = omega (arith, length-append xs ys)

  pub length-set : (xs : List A) (i : ℕ) (v : A) → length (set xs i v) ≡ length xs
  length-set [] i v = refl
  length-set (x ∷ xs) zero v = refl
  length-set (x ∷ xs) (suc i) v = ap suc (length-set xs i v)

  pub length-replicate : (n : ℕ) (a : A) → length (replicate n a) ≡ n
  length-replicate zero a = refl
  length-replicate (suc n) a = ap suc (length-replicate n a)

  pub get_elem?-set_self :
      (xs : List A) (i : ℕ) (v : A) → i < length xs → get_elem? (set xs i v) i ≡ some v
  get_elem?-set_self [] i v h = elim h [ ]
  get_elem?-set_self (x ∷ xs) zero v h = refl
  get_elem?-set_self (x ∷ xs) (suc i) v h = get_elem?-set_self xs i v (omega arith)

  pub get_elem?-set_ne :
      (xs : List A) (i j : ℕ) (v : A) → i ≢ j → get_elem? (set xs i v) j ≡ get_elem? xs j
  get_elem?-set_ne [] i j v h = refl
  get_elem?-set_ne (x ∷ xs) zero zero v h = absurd (h refl)
  get_elem?-set_ne (x ∷ xs) zero (suc j) v h = refl
  get_elem?-set_ne (x ∷ xs) (suc i) zero v h = refl
  get_elem?-set_ne (x ∷ xs) (suc i) (suc j) v h = get_elem?-set_ne xs i j v (λ e. h (ap suc e))

  pub get_elem?-lt_length : (xs : List A) (i : ℕ) {a : A} → get_elem? xs i ≡ some a → i < length xs
  get_elem?-lt_length [] i e = ground arith
  get_elem?-lt_length (x ∷ xs) zero e = omega arith
  get_elem?-lt_length (x ∷ xs) (suc i) e = omega (arith, get_elem?-lt_length xs i e)

  pub get_elem?-none : (xs : List A) (i : ℕ) → get_elem? xs i ≡ none → length xs < suc i
  get_elem?-none [] i e = omega arith
  get_elem?-none (x ∷ xs) zero e = ground arith
  get_elem?-none (x ∷ xs) (suc i) e = omega (arith, get_elem?-none xs i e)

  pub get_elem?-some : (xs : List A) (i : ℕ) → i < length xs → (a : A) × (get_elem? xs i ≡ some a)
  get_elem?-some [] i h = elim h [ ]
  get_elem?-some (x ∷ xs) zero h = (x, refl)
  get_elem?-some (x ∷ xs) (suc i) h = get_elem?-some xs i (omega arith)

  pub get_elem?-replicate : (n : ℕ) (a : A) (i : ℕ) → i < n → get_elem? (replicate n a) i ≡ some a
  get_elem?-replicate zero a i h = elim h [ ]
  get_elem?-replicate (suc n) a zero h = refl
  get_elem?-replicate (suc n) a (suc i) h = get_elem?-replicate n a i (omega arith)

  pub get_elem?_past : (xs : List A) (i : ℕ) → length xs ≤ i → get_elem? xs i ≡ none
  get_elem?_past [] i h = refl
  get_elem?_past (x ∷ xs) zero h = elim h [ ]
  get_elem?_past (x ∷ xs) (suc i) h = get_elem?_past xs i (omega arith)

  pub set-set : (xs : List A) (i : ℕ) (v w : A) → set (set xs i v) i w ≡ set xs i w
  set-set [] i v w = refl
  set-set (x ∷ xs) zero v w = refl
  set-set (x ∷ xs) (suc i) v w = ap (λ l. x ∷ l) (set-set xs i v w)

  pub set_same : (xs : List A) (i : ℕ) (v : A) → get_elem? xs i ≡ some v → set xs i v ≡ xs
  set_same [] i v e = refl
  set_same (x ∷ xs) zero v e = ground arith
  set_same (x ∷ xs) (suc i) v e = ap (λ l. x ∷ l) (set_same xs i v e)

  pub one_of : (xs : List A) → 1 ≤ length xs → (a : A) × (r : List A) × (xs ≡ a ∷ r)
  one_of [] h = elim h [ ]
  one_of (a ∷ r) h = (a, r, refl)

  pub two_of : (xs : List A) → 2 ≤ length xs → (a : A) × (b : A) × (r : List A) × (xs ≡ a ∷ b ∷ r)
  two_of [] h = elim h [ ]
  two_of (a ∷ []) h = absurd (omega arith)
  two_of (a ∷ b ∷ r) h = (a, b, r, refl)
