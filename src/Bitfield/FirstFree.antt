-- ===== src/Bitfield/FirstFree.antt =====
-- `bf_first_free` finds the least bit that is clear, and fails exactly where none is.
use native.Mathlib.Decide.{dec_lt}
use smos_thesis.Base.{
  ℕ, suc, ◌+◌, ◌-◌, ◌*◌, ◌<◌, ◌≡◌, refl, ◌∙◌, ap, [], ◌∷◌, true, false, inl, inr, arith, ◌==◌,
  Result, ok, err, Bool-cases,
}
use smos_thesis.Word.{
  IsWord, max_word, word_not, test_bit, test_bit-word_not, test_bit-max_word, trailing_zeros,
  trailing_zeros-IsLowest,
}
use smos_thesis.Bitfield.{Bitfield, word_index, bit_index, first_free_from, bf_first_free}
use smos_thesis.Bitfield.Laws.{IsBitfield, member, member_at, capacity}

-- The specification: what a search for the first clear bit returns, at bit offset `base`.
pub data FirstFree (bf : Bitfield) (base : ℕ) (r : Result (Unit {0}) ℕ) : Type 0 where
  found :
      (b : ℕ)
      → r ≡ ok (base + b)
      → b < capacity bf
      → member bf b ≡ false
      → ((c : ℕ) → c < b → member bf c ≡ true)
      → FirstFree bf base r
  full : r ≡ err tt → ((b : ℕ) → b < capacity bf → member bf b ≡ true) → FirstFree bf base r

-- Bits of the first word, and of the words behind it.
member_first : (w b : ℕ) (ws : Bitfield) → b < 64 → member (w ∷ ws) b ≡ test_bit w b
member_first w b ws h =
    let z : word_index b ≡ 0 = omega arith in
    let k : bit_index b ≡ b = omega arith in member_at (w ∷ ws) b w (rw z refl) ∙ ap (test_bit w) k

member_rest : (w b : ℕ) (ws : Bitfield) → member (w ∷ ws) (64 + b) ≡ member ws b
unfolding member
member_rest w b ws =
    let z : word_index (64 + b) ≡ suc (word_index b) = omega arith in
    let k : bit_index (64 + b) ≡ bit_index b = omega arith in ground (arith, z, k)

-- A word that is not all ones has a clear bit, the trailing zeros of its inverse.
first_clear :
    (w : ℕ)
    → IsWord w
    → (w == max_word) ≡ false
    → (trailing_zeros (word_not w) < 64)
      × (test_bit w (trailing_zeros (word_not w)) ≡ false)
      × ((j : ℕ) → j < trailing_zeros (word_not w) → test_bit w j ≡ true)
first_clear w hw ne =
    let (low, small) = trailing_zeros-IsLowest (word_not w) (omega arith) (ground arith) in
    let k = trailing_zeros (word_not w) in
    (
      small,
      ground (arith, test_bit-word_not k w hw small, low.here),
      λ j hj. ground (arith, test_bit-word_not j w hw (omega arith), low.none_below j hj),
    )

ones_first : (w c : ℕ) (ws : Bitfield) → (w == max_word) ≡ true → c < 64 → member (w ∷ ws) c ≡ true
ones_first w c ws ones h =
    let e : w ≡ max_word = ground arith in
    member_first w c ws h ∙ ap (λ x. test_bit x c) e ∙ test_bit-max_word c h

-- Behind a word that is all ones the search goes on.
skip_ones :
    (w base next : ℕ) (ws : Bitfield) (r : Result (Unit {0}) ℕ)
    → next ≡ base + 64
    → (w == max_word) ≡ true
    → FirstFree ws next r
    → FirstFree (w ∷ ws) base r
skip_ones w base next ws r e ones (found b eq small clear below) =
    found (64 + b) (eq ∙ ap ok (omega arith)) (omega arith) (member_rest w b ws ∙ clear) λ c hc.
      elim (dec_lt c 64) [
        | yes h ↦ ones_first w c ws ones h
        | no h ↦
            let k : c ≡ 64 + (c - 64) = omega arith in
            rw k (member_rest w (c - 64) ws ∙ below (c - 64) (omega arith))
      ]
skip_ones w base next ws r e ones (full eq all) = full eq λ c hc. elim (dec_lt c 64) [
  | yes h ↦ ones_first w c ws ones h
  | no h ↦
      let k : c ≡ 64 + (c - 64) = omega arith in
      rw k (member_rest w (c - 64) ws ∙ all (c - 64) (omega arith))
]

first_free_from-FirstFree :
    (bf : Bitfield) (i : ℕ) → IsBitfield bf → FirstFree bf (i * 64) (first_free_from bf i)
unfolding first_free_from
first_free_from-FirstFree [] i v = full refl (λ b h. elim h [ ])
first_free_from-FirstFree (w ∷ ws) i v = elim (Bool-cases (w == max_word)) [
  | inl ones ↦ rw ones (
      skip_ones w (i * 64) ((i + 1) * 64) ws (first_free_from ws (i + 1)) (omega arith) ones
        (first_free_from-FirstFree ws (i + 1) v.1))
  | inr some_clear ↦
      let (small, clear, below) = first_clear w v.0 some_clear in
      let k = trailing_zeros (word_not w) in
      rw some_clear (
        found k refl (omega arith) (member_first w k ws small ∙ clear)
          (λ c hc. member_first w c ws (omega arith) ∙ below c hc))
]

-- `bf_first_free` returns the least bit that is clear, and an error exactly where every bit is
-- set.
pub bf_first_free-FirstFree : (bf : Bitfield) → IsBitfield bf → FirstFree bf 0 (bf_first_free bf)
unfolding bf_first_free
bf_first_free-FirstFree bf v = first_free_from-FirstFree bf 0 v
