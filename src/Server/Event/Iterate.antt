-- ===== src/Server/Event/Iterate.antt =====
-- The loop over a notification word sees each of its bits once, lowest first, and ends.
use Prim.Native.Nat.{bit_and}
use smos_thesis.Base.{
  ℕ, zero, suc, ◌+◌, ◌^◌, ◌≤◌, ◌<◌, ◌≡◌, refl, sym, ◌∙◌, ap, Bool, true, false, not, ◌&&◌, List, [],
  ◌∷◌, some, inl, inr, arith, ◌==◌, if◌then◌else◌, Bool-cases,
}
use smos_thesis.Word.{
  IsWord, IsLowest, word_not, test_bit, trailing_zeros, trailing_zeros-IsLowest, test_bit-bit_and,
  test_bit-word_not, test_bit-pow, test_bit-zero, bit_and-lt, bit-IsWord, eq_of_bits,
}
use smos_thesis.Server.Event.{next, iterate}

-- The specification: the bits of `w` among the `n` from `i` on, in order.
unfoldable pub bits_in : ℕ → ℕ → ℕ → List ℕ
bits_in i zero w = []
bits_in i (suc n) w = let rest = bits_in (i + 1) n w in if test_bit w i then i ∷ rest else rest

abbrev pub bits_of : ℕ → List ℕ
bits_of w = bits_in 0 64 w

abbrev ClearBelow : ℕ → ℕ → Type 0
ClearBelow i w = (j : ℕ) → j < i → test_bit w j ≡ false

bits_in_same :
    (n i w v : ℕ)
    → ((j : ℕ) → i ≤ j → j < i + n → test_bit w j ≡ test_bit v j)
    → bits_in i n w ≡ bits_in i n v
unfolding bits_in
bits_in_same zero i w v same = refl
bits_in_same (suc n) i w v same =
    rw
      (
        same i (omega arith) (omega arith),
        bits_in_same n (i + 1) w v (λ j hl hu. same j (omega arith) (omega arith)),
      )
      refl

-- The lowest bit is the one bit that is set with none below it.
lowest_unique : (w i k : ℕ) → IsLowest w k → test_bit w i ≡ true → ClearBelow i w → k ≡ i
lowest_unique w i k low here clear = ground (arith, low.here, low.none_below i, clear k)

-- A word without its bit `i`.
abbrev dropped : ℕ → ℕ → ℕ
dropped w i = bit_and w (word_not (2 ^ i))

test_bit-dropped :
    (w i j : ℕ) → i < 64 → j < 64 → test_bit (dropped w i) j ≡ (test_bit w j && not (i == j))
test_bit-dropped w i j hi hj =
    test_bit-bit_and j w (word_not (2 ^ i))
    ∙ ap (λ (b : Bool). test_bit w j && b)
        (test_bit-word_not j (2 ^ i) (bit-IsWord i hi) hj ∙ ap not (test_bit-pow i j))

iterate-zero : (fuel : ℕ) → iterate (suc fuel) 0 ≡ some []
unfolding iterate next
iterate-zero fuel = refl

-- One step of the iterator at a word whose lowest bit is `i`.
next_at :
    (w i : ℕ)
    → IsWord w
    → i < 64
    → test_bit w i ≡ true
    → ClearBelow i w
    → next w ≡ some (i, dropped w i)
unfolding next
next_at w i hw hi here clear = elim (Bool-cases (w == 0)) [
  | inl z ↦
      let e : w ≡ 0 = ground arith in
      absurd (ground (arith, here, ap (λ (x : ℕ). test_bit x i) e, test_bit-zero i))
  | inr nz ↦
      let low = trailing_zeros-IsLowest w hw (ground arith) in
      rw (nz, lowest_unique w i (trailing_zeros w) low.0 here clear) refl
]

dropped-ClearBelow : (w i : ℕ) → i < 64 → ClearBelow i w → ClearBelow (i + 1) (dropped w i)
dropped-ClearBelow w i hi clear j hj =
    ground (arith, test_bit-dropped w i j hi (omega arith), clear j)

-- Nothing above bit `i` changes.
bits_in-dropped :
    (n i w : ℕ) → i + suc n ≡ 64 → bits_in (i + 1) n (dropped w i) ≡ bits_in (i + 1) n w
bits_in-dropped n i w e =
    bits_in_same n (i + 1) (dropped w i) w
      λ j hl hu. ground (arith, test_bit-dropped w i j (omega arith) (omega arith))

-- One round of the loop at a word whose lowest bit is `i`.
iterate_round :
    (fuel w i : ℕ) (rest : List ℕ)
    → next w ≡ some (i, dropped w i)
    → iterate fuel (dropped w i) ≡ some rest
    → iterate (suc fuel) w ≡ some (i ∷ rest)
unfolding iterate
iterate_round fuel w i rest step tail = ground (arith, step, tail)

ClearBelow-suc : (w i : ℕ) → ClearBelow i w → test_bit w i ≡ false → ClearBelow (i + 1) w
ClearBelow-suc w i clear off j hj = elim (Bool-cases (j == i)) [
  | inl same ↦ let e : j ≡ i = ground arith in rw e off
  | inr other ↦ clear j (ground arith)
]

-- From bit `i` on, `n` bits before the end of the word.
iterate_from :
    (n i fuel w : ℕ)
    → i + n ≡ 64
    → n < fuel
    → IsWord w
    → ClearBelow i w
    → iterate fuel w ≡ some (bits_in i n w)
unfolding bits_in
iterate_from n i zero w e hf hw clear = elim hf [ ]
iterate_from zero i (suc fuel) w e hf hw clear =
    let none_set : w ≡ 0 =
      eq_of_bits 64 w 0 hw (omega arith) (λ j hj. clear j (omega arith) ∙ sym (test_bit-zero j)) in
    rw none_set (iterate-zero fuel)
iterate_from (suc n) i (suc fuel) w e hf hw clear = elim (Bool-cases (test_bit w i)) [
  | inl on ↦
      let tail =
        iterate_from n (i + 1) fuel (dropped w i) (omega arith) (omega arith) (bit_and-lt 64 w _ hw)
          (dropped-ClearBelow w i (omega arith) clear) in
      rw on (
        iterate_round fuel w i (bits_in (i + 1) n w) (next_at w i hw (omega arith) on clear)
          (tail ∙ ap some (bits_in-dropped n i w e)))
  | inr off ↦ rw off (
      iterate_from n (i + 1) (suc fuel) w (omega arith) (omega arith) hw
        (ClearBelow-suc w i clear off))
]

-- A loop over a notification word ends within 65 steps of the iterator, and sees exactly the bits
-- of the word, each once, lowest first.
pub iterate-bits_of : (w fuel : ℕ) → IsWord w → 64 < fuel → iterate fuel w ≡ some (bits_of w)
iterate-bits_of w fuel hw hf = iterate_from 64 0 fuel w refl hf hw (λ j h. elim h [ ])
