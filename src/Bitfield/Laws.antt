-- ===== src/Bitfield/Laws.antt =====
-- What setting, clearing and reading a bit do to a bitfield, as a set of bit numbers.
use Prim.Native.Nat.{bit_and, bit_or}
use smos_thesis.Base.{
  ℕ, zero, suc, ◌*◌, ◌^◌, ◌≤◌, ◌<◌, ◌≡◌, ap, [], ◌∷◌, Bool, true, false, none, some, inl, inr,
  arith, ◌==◌, if◌then◌else◌, ret, panic, Bool-cases, Option-cases, length, get_elem?, set,
  replicate, length-set, get_elem?-set_self, get_elem?-set_ne, get_elem?-lt_length, get_elem?-some,
  get_elem?_past,
}
use smos_thesis.Word.{
  masked, bit-IsWord, IsWord, word_not, test_bit, test_bit-zero, test_bit-bit_or, test_bit-bit_and,
  test_bit-pow, test_bit-word_not, bit_or-lt, bit_and-lt,
}
use smos_thesis.Bitfield.{
  Bitfield, word_index, bit_index, bitfield_size, bitfield_init, bf_set_bit, bf_clr_bit, bf_get_bit,
}

-- Every element is a `u64`.
abbrev pub IsBitfield : Bitfield → Type 0
IsBitfield [] = Unit
IsBitfield (w ∷ ws) = IsWord w × IsBitfield ws

-- Bit `b` of a bitfield; false outside.
unfoldable pub member : Bitfield → ℕ → Bool
member bf b = elim (get_elem? bf (word_index b)) [
  | none ↦ false
  | some w ↦ test_bit w (bit_index b)
]

-- The number of bits of an array.
abbrev pub capacity : Bitfield → ℕ
capacity bf = length bf * 64

pub get_elem?-IsWord :
    (bf : Bitfield) (i w : ℕ) → IsBitfield bf → get_elem? bf i ≡ some w → IsWord w
get_elem?-IsWord [] i w h e = ground arith
get_elem?-IsWord (x ∷ xs) zero w h e = ground arith
get_elem?-IsWord (x ∷ xs) (suc i) w h e = get_elem?-IsWord xs i w h.1 e

set-IsBitfield : (bf : Bitfield) (i w : ℕ) → IsBitfield bf → IsWord w → IsBitfield (set bf i w)
set-IsBitfield [] i w h hw = tt
set-IsBitfield (x ∷ xs) zero w h hw = (hw, h.1)
set-IsBitfield (x ∷ xs) (suc i) w h hw = (h.0, set-IsBitfield xs i w h.1 hw)

word_in : (bf : Bitfield) (b : ℕ) → b < capacity bf → word_index b < length bf
word_in bf b h = omega arith

pub member-set_word :
    (bf : Bitfield) (i w b : ℕ)
    → i < length bf
    → member (set bf i w) b ≡ (if word_index b == i then test_bit w (bit_index b) else member bf b)
unfolding member
member-set_word bf i w b h =
    ground (arith, get_elem?-set_self bf i w h, get_elem?-set_ne bf i (word_index b) w)

-- The number of a bit is that of its word and its place there.
eq_of_index : (b c : ℕ) → word_index b ≡ word_index c → bit_index b ≡ bit_index c → b ≡ c
eq_of_index b c h k = omega arith

-- What a successful write leaves: the bit `idx` is `v`, every other bit and the size are kept.
pub record Writes (v : Bool) (bf : Bitfield) (idx : ℕ) (out : Bitfield) : Type 0 where
  pub words : IsBitfield out
  pub size : length out ≡ length bf
  pub bits : (b : ℕ) → member out b ≡ (if b == idx then v else member bf b)

pub member_at :
    (bf : Bitfield) (b w : ℕ)
    → get_elem? bf (word_index b) ≡ some w
    → member bf b ≡ test_bit w (bit_index b)
unfolding member
member_at bf b w e = rw (e, member)

-- A new word at `idx` that differs from the old one in one bit.
set_word-Writes :
    (v : Bool) (bf : Bitfield) (idx w w' : ℕ)
    → IsBitfield bf
    → get_elem? bf (word_index idx) ≡ some w
    → IsWord w'
    → ((j : ℕ) → j < 64 → test_bit w' j ≡ (if j == bit_index idx then v else test_bit w j))
    → Writes v bf idx (set bf (word_index idx) w')
set_word-Writes v bf idx w w' h e hw' change = record {
  words = set-IsBitfield bf (word_index idx) w' h hw';
  size = length-set bf (word_index idx) w';
  bits = λ b.
      let here = get_elem?-lt_length bf (word_index idx) e in
      elim (Bool-cases (word_index b == word_index idx)) [
        | inl same ↦ rw (member-set_word bf (word_index idx) w' b here) (
            ground (arith, change (bit_index b) (omega arith), eq_of_index b idx, member_at bf b w))
        | inr other ↦
            rw (member-set_word bf (word_index idx) w' b here) (ground (arith, ap word_index))
      ];
}

-- `bf_set_bit` of a bit inside an array of words: that bit is set, and every other bit and the size
-- stay.
pub bf_set_bit-Writes :
    (bf : Bitfield) (idx : ℕ)
    → IsBitfield bf
    → idx < capacity bf
    → (out : Bitfield) × (bf_set_bit bf idx ≡ ret out) × Writes true bf idx out
unfolding bf_set_bit
bf_set_bit-Writes bf idx v h =
    let (w, e) = get_elem?-some bf (word_index idx) (word_in bf idx h) in
    let k = bit_index idx in
    (
      set bf (word_index idx) (bit_or w (2 ^ k)),
      rw e,
      set_word-Writes true bf idx w _ v e
          (bit_or-lt 64 w (2 ^ k) (get_elem?-IsWord bf _ w v e) (bit-IsWord k (omega arith)))
          (λ j hj. ground (arith, test_bit-bit_or j w (2 ^ k), test_bit-pow k j)),
    )

-- `bf_clr_bit` of a bit inside an array of words: that bit is cleared, and every other bit and the
-- size stay.
pub bf_clr_bit-Writes :
    (bf : Bitfield) (idx : ℕ)
    → IsBitfield bf
    → idx < capacity bf
    → (out : Bitfield) × (bf_clr_bit bf idx ≡ ret out) × Writes false bf idx out
unfolding bf_clr_bit
bf_clr_bit-Writes bf idx v h =
    let (w, e) = get_elem?-some bf (word_index idx) (word_in bf idx h) in
    let k = bit_index idx in
    let mask = word_not (2 ^ k) in
    (
      set bf (word_index idx) (bit_and w mask),
      rw e,
      set_word-Writes false bf idx w _ v e (bit_and-lt 64 w mask (get_elem?-IsWord bf _ w v e))
          (λ j hj. ground (
            arith,
            test_bit-bit_and j w mask,
            test_bit-word_not j (2 ^ k) (bit-IsWord k (omega arith)) hj,
            test_bit-pow k j,
          )),
    )

-- `bf_get_bit` of a bit inside an array of words returns whether the bit is set.
pub bf_get_bit-member :
    (bf : Bitfield) (b : ℕ) → IsBitfield bf → b < capacity bf → bf_get_bit bf b ≡ ret (member bf b)
unfolding bf_get_bit
bf_get_bit-member bf b v h =
    let (w, e) = get_elem?-some bf (word_index b) (word_in bf b h) in
    rw (member_at bf b w e, e)
      (ap ret (masked w (bit_index b) (get_elem?-IsWord bf _ w v e) (omega arith)))

-- Outside it all three operations panic.
pub bitfield_outside :
    (bf : Bitfield) (b : ℕ)
    → capacity bf ≤ b
    → (bf_get_bit bf b ≡ panic) × (bf_set_bit bf b ≡ panic) × (bf_clr_bit bf b ≡ panic)
unfolding bf_get_bit bf_set_bit bf_clr_bit
bitfield_outside bf b h =
    let e : get_elem? bf (word_index b) ≡ none = get_elem?_past bf (word_index b) (omega arith) in
    (rw e, rw e, rw e)

zeros-IsBitfield : (n : ℕ) → IsBitfield (replicate n 0)
zeros-IsBitfield zero = tt
zeros-IsBitfield (suc n) = (omega arith, zeros-IsBitfield n)

member-zeros : (n b : ℕ) → member (replicate n 0) b ≡ false
unfolding member
member-zeros n b = elim (Option-cases {A = ℕ} (get_elem? (replicate n 0) (word_index b))) [
  | inl e ↦ rw (e, member)
  | inr (w, e) ↦
      let z : w ≡ 0 = zero_of_get n (word_index b) w e in
      rw (e, member) (rw z (test_bit-zero (bit_index b)))
]
  where
    zero_of_get : (m i w : ℕ) → get_elem? (replicate m 0) i ≡ some w → w ≡ 0
    zero_of_get zero i w e = ground arith
    zero_of_get (suc m) zero w e = ground arith
    zero_of_get (suc m) (suc i) w e = zero_of_get m i w e

pub bitfield_init-empty :
    (size b : ℕ) → IsBitfield (bitfield_init size) × (member (bitfield_init size) b ≡ false)
unfolding bitfield_init
bitfield_init-empty size b =
    (zeros-IsBitfield (bitfield_size size), member-zeros (bitfield_size size) b)
