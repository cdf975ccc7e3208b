-- ===== src/Bitfield.antt =====
-- crates/bitfield/src/lib.rs: bit sets over arrays of `u64`.
pub mod Laws
pub mod FirstFree
pub mod Claim
use Prim.Native.Nat.{bit_and, bit_or}
use smos_thesis.Base.{
  ℕ, ◌+◌, ◌*◌, ◌/◌, ◌%◌, ◌^◌, List, [], ◌∷◌, Bool, not, Option, none, some, ◌==◌, if◌then◌else◌,
  Run, ret, panic, ◌>>=◌, unwrap, Result, ok, err, get_elem?, set, replicate,
}
use smos_thesis.Word.{max_word, word_not, trailing_zeros}

-- A bitfield is its words.
abbrev pub Bitfield : Type 0
Bitfield = List ℕ

-- Each shift is by a bit index, below 64.
abbrev pub bit : ℕ → ℕ
bit n = 2 ^ n

abbrev pub word_bits : ℕ
word_bits = 64

abbrev pub word_index : ℕ → ℕ
word_index b = b / word_bits

abbrev pub bit_index : ℕ → ℕ
bit_index b = b % word_bits

abbrev pub bitfield_size : ℕ → ℕ
bitfield_size x = x / 64

-- `bitfield_init!`
unfoldable pub bitfield_init : ℕ → Bitfield
bitfield_init size = replicate (bitfield_size size) 0

-- An index out of bounds panics.
unfoldable pub bf_set_bit : Bitfield → ℕ → Run Bitfield
bf_set_bit bf idx = do
  w ← unwrap (get_elem? bf (word_index idx))
  ret (set bf (word_index idx) (bit_or w (bit (bit_index idx))))

unfoldable pub bf_clr_bit : Bitfield → ℕ → Run Bitfield
bf_clr_bit bf idx = do
  w ← unwrap (get_elem? bf (word_index idx))
  ret (set bf (word_index idx) (bit_and w (word_not (bit (bit_index idx)))))

unfoldable pub bf_get_bit : Bitfield → ℕ → Run Bool
bf_get_bit bf idx = do
  w ← unwrap (get_elem? bf (word_index idx))
  ret (not (bit_and w (bit (bit_index idx)) == 0))

-- The loop of `bf_first_free` at word `i`, with the words from `i` on, and what follows it: the
-- first word that is not all ones is inverted, and its trailing zeros are counted.
unfoldable pub first_free_from : Bitfield → ℕ → Result (Unit {0}) ℕ
first_free_from [] i = err tt
first_free_from (w ∷ ws) i =
    let rest = first_free_from ws (i + 1) in
    if w == max_word then rest else ok (i * word_bits + trailing_zeros (word_not w))

unfoldable pub bf_first_free : Bitfield → Result (Unit {0}) ℕ
unfolding first_free_from
bf_first_free bf = first_free_from bf 0

-- The two calls by which every allocator of the repository takes a bit: find the first free one
-- and set it.
unfoldable pub claim : Bitfield → Run (Result (Unit {0}) ℕ × Bitfield)
claim bf = elim (bf_first_free bf) [
  | err e ↦ ret (err e, bf)
  | ok b ↦ bf_set_bit bf b >>= λ bf'. ret (ok b, bf')
]
