-- ===== src/Base/Outcome.antt =====
-- Rust computations: `Result E A` is Rust's, and `Run A` adds the panic (an index out of bounds, a
-- failed `assert!`, an `unwrap` of `None`, a `todo!`).
use mathlib.Core.Path.{◌≡◌, refl}
use mathlib.Core.Logic.{◌⊎◌, inl, inr}
use mathlib.Core.Bool.{Bool, true, false}
use mathlib.Core.Option.{Option, none, some}

pub data Result {ℓ κ} (E : Type ℓ) (A : Type κ) : Type (ℓ ⊔ κ) where
  ok : A → Result E A
  err : E → Result E A

pub data Run {ℓ} (A : Type ℓ) : Type ℓ where
  ret : A → Run A
  panic : Run A

abbrev pub map_err {ℓ κ μ} :
    {E : Type ℓ} {F : Type κ} {A : Type μ} → Result E A → (E → F) → Result F A
map_err (ok a) f = ok a
map_err (err e) f = err (f e)

abbrev pub ok_or {ℓ κ} : {A : Type ℓ} {E : Type κ} → Option A → E → Result E A
ok_or none e = err e
ok_or (some a) e = ok a

infixl 5 ◌>>=◌
abbrev pub ◌>>=◌ {ℓ κ} : {A : Type ℓ} {B : Type κ} → Run A → (A → Run B) → Run B
ret a >>= f = f a
panic >>= f = panic

-- Reads of an array, and `unwrap`, panic where there is nothing.
abbrev pub unwrap {ℓ} : {A : Type ℓ} → Option A → Run A
unwrap none = panic
unwrap (some a) = ret a

-- `assert!`
abbrev pub assert {ℓ} : {A : Type ℓ} → Bool → Run A → Run A
assert true r = r
assert false r = panic

pub Run-cases {ℓ} : {A : Type ℓ} (r : Run A) → (r ≡ panic) ⊎ ((a : A) × (r ≡ ret a))
Run-cases panic = inl refl
Run-cases (ret a) = inr (a, refl)

pub Result-cases {ℓ κ} :
    {E : Type ℓ} {A : Type κ} (r : Result E A) → ((e : E) × (r ≡ err e)) ⊎ ((a : A) × (r ≡ ok a))
Result-cases (err e) = inl (e, refl)
Result-cases (ok a) = inr (a, refl)
