-- ===== src/Tests/Bits.antt =====
-- Bit sets, the capability space of the clients, and words of badges.
use smos_thesis.Base.{◌+◌, ◌^◌, ◌<◌, ◌≡◌, refl, [], ◌∷◌, false, some, ok, ret, panic, arith}
use smos_thesis.Word.{trailing_zeros}
use smos_thesis.Bitfield.{Bitfield, bf_set_bit, bf_clr_bit, bf_first_free, claim}
use smos_thesis.Bitfield.Laws.{IsBitfield}
use smos_thesis.Bitfield.FirstFree.{FirstFree, bf_first_free-FirstFree}
use smos_thesis.UserCspace.{SmosUserCSpace, cspace_size, alloc_slot, free_slot}
use smos_thesis.UserCspace.Slots.{IsValid, Changes, Allocates, alloc_slot-Allocates, free_slot_lem}
use smos_thesis.Server.Event.{decode_entry_type, iterate}
use smos_thesis.Server.Event.Decode.{entry_of, decode_entry_type-entry_of}
use smos_thesis.Server.Event.Iterate.{bits_of, iterate-bits_of}

-- Two words, the first full but for bit 2.
abbrev words : Bitfield
words = 0xFFFFFFFFFFFFFFFB ∷ 1 ∷ []

words-IsBitfield : IsBitfield words
words-IsBitfield = (omega arith, (omega arith, tt))

bf_first_free-FirstFree_example : FirstFree words 0 (bf_first_free words)
bf_first_free-FirstFree_example = bf_first_free-FirstFree words words-IsBitfield

first_free_of_words : bf_first_free words ≡ ok 2
unfolding bf_first_free trailing_zeros
first_free_of_words = refl

-- A capability space with slots 0 to 2 taken.
abbrev three_taken : SmosUserCSpace
three_taken = record { root_cnode = 2; bf = 7 ∷ 0 ∷ 0 ∷ 0 ∷ [] }

three_taken-IsValid : IsValid three_taken
three_taken-IsValid = record {
  words = (omega arith, (omega arith, (omega arith, (omega arith, tt))));
  size = refl;
}

alloc_slot-Allocates_example : Allocates three_taken (alloc_slot three_taken)
alloc_slot-Allocates_example = alloc_slot-Allocates three_taken three_taken-IsValid

free_slot_lem_example :
    (1 < cspace_size
      → (cs' : SmosUserCSpace) × (free_slot three_taken 1 ≡ ret cs')
        × Changes false three_taken 1 cs')
    × (1 ≡ cspace_size → free_slot three_taken 1 ≡ panic)
    × (cspace_size < 1 → free_slot three_taken 1 ≡ ret three_taken)
free_slot_lem_example = free_slot_lem three_taken 1 three_taken-IsValid

abbrev four_taken : SmosUserCSpace
four_taken = record { root_cnode = 2; bf = 15 ∷ 0 ∷ 0 ∷ 0 ∷ [] }

abbrev five_taken : SmosUserCSpace
five_taken = record { root_cnode = 2; bf = 31 ∷ 0 ∷ 0 ∷ 0 ∷ [] }

takes_3 : alloc_slot three_taken ≡ ret (ok 3, four_taken)
unfolding alloc_slot claim bf_first_free bf_set_bit trailing_zeros
takes_3 = refl

abbrev slot_1_free : SmosUserCSpace
slot_1_free = record { root_cnode = 2; bf = 5 ∷ 0 ∷ 0 ∷ 0 ∷ [] }

frees_1 : free_slot three_taken 1 ≡ ret slot_1_free
unfolding free_slot bf_clr_bit
frees_1 = refl

decode_entry_type-entry_of_example : decode_entry_type (2 ^ 62 + 5) ≡ ret (entry_of (2 ^ 62 + 5))
decode_entry_type-entry_of_example = decode_entry_type-entry_of (2 ^ 62 + 5) (omega arith)

iterate-bits_of_example : iterate 65 9 ≡ some (bits_of 9)
iterate-bits_of_example = iterate-bits_of 9 65 (omega arith) (omega arith)
