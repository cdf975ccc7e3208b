-- ===== src/Word/Digits.antt =====
-- The native `bit_or` and `bit_and`, one binary digit at a time.
use Prim.Native.Nat.{min, max, digits, bit_and, bit_or, bit_and-bitwise, bit_or-bitwise}
use smos_thesis.Base.{ℕ, zero, suc, ◌+◌, ◌*◌, ◌/◌, ◌%◌, ◌≤◌, ◌≡◌, refl, arith}

-- What the fuel of `digits` is does not matter once it reaches the first argument.
module _ (rest : ℕ → ℕ) (op : ℕ → ℕ → ℕ) where
  digits_enough : (j k a b : ℕ) → a ≤ j → a ≤ k → digits rest op j a b ≡ digits rest op k a b
  digits_enough zero zero a b hj hk = refl
  digits_enough zero (suc k) zero b hj hk = refl
  digits_enough zero (suc k) (suc a) b hj hk = elim hj [ ]
  digits_enough (suc j) zero zero b hj hk = refl
  digits_enough (suc j) zero (suc a) b hj hk = elim hk [ ]
  digits_enough (suc j) (suc k) zero b hj hk = refl
  digits_enough (suc j) (suc k) (suc a) b hj hk =
      rw (digits_enough j k (suc a / 2) (b / 2) (omega arith) (omega arith))

pub bit_or_digit : (a b : ℕ) → bit_or a b ≡ bit_or (a / 2) (b / 2) * 2 + max (a % 2) (b % 2)
bit_or_digit zero b = rw (bit_or-bitwise 0 b, bit_or-bitwise (0 / 2) (b / 2)) (omega arith)
bit_or_digit (suc a) b =
    rw (bit_or-bitwise (suc a) b, bit_or-bitwise (suc a / 2) (b / 2))
      (omega (
        arith,
        digits_enough (λ y. y) max a (suc a / 2) (suc a / 2) (b / 2) (omega arith) (omega arith),
      ))

pub bit_and_digit : (a b : ℕ) → bit_and a b ≡ bit_and (a / 2) (b / 2) * 2 + min (a % 2) (b % 2)
bit_and_digit zero b = rw (bit_and-bitwise 0 b, bit_and-bitwise (0 / 2) (b / 2)) (omega arith)
bit_and_digit (suc a) b =
    rw (bit_and-bitwise (suc a) b, bit_and-bitwise (suc a / 2) (b / 2))
      (omega (
        arith,
        digits_enough (λ y. 0) min a (suc a / 2) (suc a / 2) (b / 2) (omega arith) (omega arith),
      ))
