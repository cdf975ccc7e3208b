-- ===== src/Common/Enum.antt =====
-- Enums with numbered variants, `TryFromPrimitive` and `IntoPrimitive`: the variants listed in
-- declaration order, each of which stands at its number.
use smos_thesis.Base.{ℕ, zero, suc, ◌+◌, ◌≡◌, List, [], ◌∷◌, some, arith, get_elem?}

module _ {ℓ} {A : Type ℓ} (number : A → ℕ) where
  -- The list holds the variants numbered from `k` on.
  abbrev pub Numbered : ℕ → List A → Type 0
  Numbered k [] = Unit
  Numbered k (x ∷ xs) = (number x ≡ k) × Numbered (suc k) xs

  pub number_of_get :
      (k : ℕ) (xs : List A) (i : ℕ) (x : A)
      → Numbered k xs
      → get_elem? xs i ≡ some x
      → number x ≡ k + i
  number_of_get k [] i x h e = ground arith
  number_of_get k (y ∷ ys) zero x h e = ground arith
  number_of_get k (y ∷ ys) (suc i) x h e = omega (arith, number_of_get (suc k) ys i x h.1 e)
