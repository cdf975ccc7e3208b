-- ===== src/Word/Bits.antt =====
-- The bits that the operators leave.
use Prim.Native.Nat.{bit_and, bit_or, bit_and-bitwise, bit_or-bitwise}
use native.Mathlib.Nat.{pow-suc, div-div-eq-div-mul, div-add-mod, one-le-pow, pow-le-pow_right}
use native.Mathlib.Numerals.{add-one}
use smos_thesis.Base.{
  ℕ, zero, suc, ◌+◌, ◌-◌, ◌*◌, ◌/◌, ◌%◌, ◌^◌, ◌≤◌, ◌<◌, ◌≡◌, ◌≢◌, refl, ◌∙◌, ap, true, false, not,
  ◌&&◌, ◌||◌, inl, inr, arith, ◌==◌, Bool-cases,
}
use smos_thesis.Word.Digits.{bit_or_digit, bit_and_digit}
use smos_thesis.Word.Ops.{IsWord, max_word, word_not, test_bit, trailing_zeros_of, trailing_zeros}

pub test_bit-zero : (i : ℕ) → test_bit 0 i ≡ false
unfolding test_bit
test_bit-zero zero = refl
test_bit-zero (suc i) = test_bit-zero i

pub test_bit-bit_or : (i a b : ℕ) → test_bit (bit_or a b) i ≡ (test_bit a i || test_bit b i)
unfolding test_bit
test_bit-bit_or zero a b = ground (arith, bit_or_digit a b)
test_bit-bit_or (suc i) a b =
    let half : bit_or a b / 2 ≡ bit_or (a / 2) (b / 2) = omega (arith, bit_or_digit a b) in
    rw half (test_bit-bit_or i (a / 2) (b / 2))

pub test_bit-bit_and : (i a b : ℕ) → test_bit (bit_and a b) i ≡ (test_bit a i && test_bit b i)
unfolding test_bit
test_bit-bit_and zero a b = ground (arith, bit_and_digit a b)
test_bit-bit_and (suc i) a b =
    let half : bit_and a b / 2 ≡ bit_and (a / 2) (b / 2) = omega (arith, bit_and_digit a b) in
    rw half (test_bit-bit_and i (a / 2) (b / 2))

-- `1 << k` has the one bit `k`.
pub test_bit-pow : (k i : ℕ) → test_bit (2 ^ k) i ≡ (k == i)
unfolding test_bit
test_bit-pow zero zero = refl
test_bit-pow zero (suc i) = test_bit-zero i ∙ ground arith
test_bit-pow (suc k) zero = ground (arith, pow-suc 2 k)
test_bit-pow (suc k) (suc i) =
    let half : 2 ^ suc k / 2 ≡ 2 ^ k = omega (arith, pow-suc 2 k) in
    rw half (test_bit-pow k i ∙ ground arith)

-- `!b` over `n` bits.
test_bit-not_of : (n i b : ℕ) → b < 2 ^ n → i < n → test_bit (2 ^ n - 1 - b) i ≡ not (test_bit b i)
unfolding test_bit
test_bit-not_of zero i b hb hi = elim hi [ ]
test_bit-not_of (suc n) zero b hb hi = ground (arith, pow-suc 2 n)
test_bit-not_of (suc n) (suc i) b hb hi =
    let half : (2 ^ suc n - 1 - b) / 2 ≡ 2 ^ n - 1 - b / 2 = omega (arith, pow-suc 2 n) in
    rw half (test_bit-not_of n i (b / 2) (omega (arith, pow-suc 2 n)) (omega arith))

pub test_bit-word_not : (i b : ℕ) → IsWord b → i < 64 → test_bit (word_not b) i ≡ not (test_bit b i)
test_bit-word_not i b hb hi = test_bit-not_of 64 i b hb hi

-- A word of `n` bits has no bit from `n` on.
pub test_bit_above : (n i b : ℕ) → b < 2 ^ n → n ≤ i → test_bit b i ≡ false
unfolding test_bit
test_bit_above zero i b hb hi = let z : b ≡ 0 = omega arith in rw z (test_bit-zero i)
test_bit_above (suc n) zero b hb hi = elim hi [ ]
test_bit_above (suc n) (suc i) b hb hi =
    test_bit_above n i (b / 2) (omega (arith, pow-suc 2 n)) (omega arith)

pub bit_or-lt : (n a b : ℕ) → a < 2 ^ n → b < 2 ^ n → bit_or a b < 2 ^ n
bit_or-lt zero a b ha hb =
    let za : a ≡ 0 = omega arith in let zb : b ≡ 0 = omega arith in rw (za, zb) (omega arith)
bit_or-lt (suc n) a b ha hb = omega (
  arith,
  bit_or_digit a b,
  pow-suc 2 n,
  bit_or-lt n (a / 2) (b / 2) (omega (arith, pow-suc 2 n)) (omega (arith, pow-suc 2 n)),
)

pub bit_and-lt : (n a b : ℕ) → a < 2 ^ n → bit_and a b < 2 ^ n
bit_and-lt zero a b ha = let za : a ≡ 0 = omega arith in rw (za, bit_and-bitwise 0 b) (omega arith)
bit_and-lt (suc n) a b ha = omega (
  arith,
  bit_and_digit a b,
  pow-suc 2 n,
  bit_and-lt n (a / 2) (b / 2) (omega (arith, pow-suc 2 n)),
)

bit_and-zero_upto : (n a : ℕ) → a ≤ n → bit_and a 0 ≡ 0
bit_and-zero_upto n zero h = bit_and-bitwise 0 0
bit_and-zero_upto zero (suc a) h = elim h [ ]
bit_and-zero_upto (suc n) (suc a) h =
    omega (arith, bit_and_digit (suc a) 0, bit_and-zero_upto n (suc a / 2) (omega arith))

bit_and-zero : (a : ℕ) → bit_and a 0 ≡ 0
bit_and-zero a = bit_and-zero_upto a a (omega arith)

-- Two numbers below 2 ^ n with the same first `n` bits are equal.
pub eq_of_bits :
    (n a b : ℕ) → a < 2 ^ n → b < 2 ^ n → ((i : ℕ) → i < n → test_bit a i ≡ test_bit b i) → a ≡ b
unfolding test_bit
eq_of_bits zero a b ha hb same = omega arith
eq_of_bits (suc n) a b ha hb same = ground (
  arith,
  same 0,
  eq_of_bits n (a / 2) (b / 2) (omega (arith, pow-suc 2 n)) (omega (arith, pow-suc 2 n))
      (λ i h. same (suc i) (omega arith)),
)

-- The word with every bit set.
pub test_bit-max_word : (i : ℕ) → i < 64 → test_bit max_word i ≡ true
test_bit-max_word i h = test_bit-word_not i 0 (omega arith) h ∙ ap not (test_bit-zero i)

-- The lowest bit that is set.
pub record IsLowest (w k : ℕ) : Type 0 where
  pub here : test_bit w k ≡ true
  pub none_below : (j : ℕ) → j < k → test_bit w j ≡ false

-- Stepping to the next digit, where the lowest is clear.
IsLowest-suc : (w k : ℕ) → (w % 2 == 1) ≡ false → IsLowest (w / 2) k → IsLowest w (suc k)
unfolding test_bit
IsLowest-suc w k low v = record { here = v.here; none_below = below }
  where
    below : (j : ℕ) → j < suc k → test_bit w j ≡ false
    below zero h = low
    below (suc j) h = v.none_below j (omega arith)

trailing_zeros_of-IsLowest :
    (n w : ℕ) → w < 2 ^ n → w ≢ 0 → IsLowest w (trailing_zeros_of n w) × (trailing_zeros_of n w < n)
unfolding trailing_zeros_of test_bit
trailing_zeros_of-IsLowest zero w hw nz = absurd (nz (omega arith))
trailing_zeros_of-IsLowest (suc n) w hw nz = elim (Bool-cases (w % 2 == 1)) [
  | inl odd ↦ rw odd (record { here = odd; none_below = λ j h. elim h [ ] }, omega arith)
  | inr even ↦
      let rest = trailing_zeros_of-IsLowest n (w / 2) (omega (arith, pow-suc 2 n)) (ground arith) in
      rw (even, add-one)
        (IsLowest-suc w (trailing_zeros_of n (w / 2)) even rest.0, omega (arith, rest.1))
]

-- `trailing_zeros` of a word that is not zero is the place of its lowest bit.
pub trailing_zeros-IsLowest :
    (w : ℕ) → IsWord w → w ≢ 0 → IsLowest w (trailing_zeros w) × (trailing_zeros w < 64)
unfolding trailing_zeros
trailing_zeros-IsLowest w hw nz = trailing_zeros_of-IsLowest 64 w hw nz

-- A number below 2 ^ k and the bit `k` are disjoint: their `|` is their sum.
pub bit_or-pow : (k x : ℕ) → x < 2 ^ k → bit_or x (2 ^ k) ≡ x + 2 ^ k
bit_or-pow zero x h = let z : x ≡ 0 = omega arith in rw z refl
bit_or-pow (suc k) x h =
    let half : 2 ^ suc k / 2 ≡ 2 ^ k = omega (arith, pow-suc 2 k) in
    ground (
      arith,
      half,
      pow-suc 2 k,
      bit_or_digit x (2 ^ suc k),
      bit_or-pow k (x / 2) (omega (arith, pow-suc 2 k)),
    )

-- Bit `i` as arithmetic: a division and a remainder.
pub test_bit-div : (i w : ℕ) → test_bit w i ≡ (w / 2 ^ i % 2 == 1)
unfolding test_bit
test_bit-div zero w = ground arith
test_bit-div (suc i) w =
    let halves : w / 2 / 2 ^ i ≡ w / 2 ^ suc i =
      div-div-eq-div-mul w 2 (2 ^ i) ∙ ap (λ (d : ℕ). w / d) (omega (arith, pow-suc 2 i)) in
    test_bit-div i (w / 2) ∙ ap (λ (q : ℕ). q % 2 == 1) halves

-- A mask of one bit leaves nothing exactly where that bit is clear.
pub bit_and-pow_clear : (w k : ℕ) → IsWord w → k < 64 → test_bit w k ≡ false → bit_and w (2 ^ k) ≡ 0
bit_and-pow_clear w k hw hk off =
    eq_of_bits 64 _ _ (bit_and-lt 64 w (2 ^ k) hw) (omega arith) λ i hi.
      ground (
        arith,
        off,
        test_bit-bit_and i w (2 ^ k),
        test_bit-pow k i,
        test_bit-zero i,
        ap (test_bit w),
      )

-- The test of one bit by a mask.
pub masked : (w k : ℕ) → IsWord w → k < 64 → not (bit_and w (2 ^ k) == 0) ≡ test_bit w k
masked w k hw hk = elim (Bool-cases (test_bit w k)) [
  | inl on ↦ ground (arith, test_bit-bit_and k w (2 ^ k), test_bit-pow k k, test_bit-zero k)
  | inr off ↦ rw (bit_and-pow_clear w k hw hk off, off) refl
]

-- A mask of the low `k` bits keeps the remainder of a word cut at 2 ^ k.
mask_sum : (k q r : ℕ) → r < 2 ^ k → bit_and (q * 2 ^ k + r) (2 ^ k - 1) ≡ r
mask_sum zero q r h = bit_and-zero (q * 2 ^ 0 + r) ∙ omega arith
mask_sum (suc k) q r h =
    let w = q * 2 ^ suc k + r in
    let twice : w ≡ 2 * (q * 2 ^ k) + r = omega (arith, ap (λ (t : ℕ). q * t) (pow-suc 2 k)) in
    let halves : w / 2 ≡ q * 2 ^ k + r / 2 = omega (arith, twice) in
    let ones : (2 ^ suc k - 1) / 2 ≡ 2 ^ k - 1 = omega (arith, pow-suc 2 k) in
    ground (
      arith,
      twice,
      halves,
      ones,
      pow-suc 2 k,
      one-le-pow k 2,
      bit_and_digit w (2 ^ suc k - 1),
      mask_sum k q (r / 2) (omega (arith, pow-suc 2 k)),
    )

pub bit_and_mask : (k w : ℕ) → bit_and w (2 ^ k - 1) ≡ w % 2 ^ k
bit_and_mask k w =
    ground (arith, div-add-mod w (2 ^ k), one-le-pow k 2, mask_sum k (w / 2 ^ k) (w % 2 ^ k))

pub bit_or-zero : (k a : ℕ) → a < 2 ^ k → bit_or a 0 ≡ a
bit_or-zero zero a h = let z : a ≡ 0 = omega arith in rw z (bit_or-bitwise 0 0)
bit_or-zero (suc k) a h =
    omega (arith, pow-suc 2 k, bit_or_digit a 0, bit_or-zero k (a / 2) (omega (arith, pow-suc 2 k)))

pub bit-IsWord : (k : ℕ) → k < 64 → IsWord (2 ^ k)
bit-IsWord k h =
    omega (arith, pow-le-pow_right {n = 2} (omega arith) {i = k} {j = 63} (omega arith))
