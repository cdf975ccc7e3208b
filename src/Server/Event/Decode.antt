-- ===== src/Server/Event/Decode.antt =====
-- Badges: every word decodes, to what its top two bits say, and what a server mints comes back.
use Prim.Native.Nat.{bit_or}
use smos_thesis.Base.{ℕ, ◌+◌, ◌-◌, ◌/◌, ◌^◌, ◌<◌, ◌≡◌, ◌∙◌, arith, leb, if◌then◌else◌, ret}
use smos_thesis.Word.{IsWord, masked, test_bit-div, bit_and_mask, bit_or-pow, bit_or-zero}
use smos_thesis.Server.Event.{
  EntryType, invocation, fault, notification, decode_entry_type, ntfn_bit, invocation_ep_bits,
  fault_ep_bits,
}

-- The specification, in arithmetic.
abbrev pub entry_of : ℕ → EntryType
entry_of badge =
    if leb (2 ^ 63) badge
    then notification (badge - 2 ^ 63)
    else if leb (2 ^ 62) badge
    then fault (badge - 2 ^ 62)
    else invocation badge

-- Every badge decodes without a panic: from 2 ^ 63 on it is a notification, from 2 ^ 62 on a
-- fault, and below an invocation, each with the bits under that bound.
pub decode_entry_type-entry_of :
    (badge : ℕ) → IsWord badge → decode_entry_type badge ≡ ret (entry_of badge)
unfolding decode_entry_type
decode_entry_type-entry_of badge h = ground (
  arith,
  masked badge 63 h,
  test_bit-div 63 badge,
  bit_and_mask 63 badge,
  bit_and_mask 62 badge,
  bit_and_mask 1 (badge / 2 ^ 62),
)

-- What the root server mints into a badge is what it decodes: the invocation and fault badges of
-- a process identifier below 2 ^ 62, and a notification word below 2 ^ 63.
pub decode_entry_type_minted :
    (pid word : ℕ)
    → pid < 2 ^ 62
    → word < 2 ^ 63
    → (decode_entry_type (bit_or pid invocation_ep_bits) ≡ ret (invocation pid))
      × (decode_entry_type (bit_or pid fault_ep_bits) ≡ ret (fault pid))
      × (decode_entry_type (bit_or word ntfn_bit) ≡ ret (notification word))
decode_entry_type_minted pid word hp hw = (
  rw (bit_or-zero 62 pid hp) (decode_entry_type-entry_of pid (omega arith) ∙ ground arith),
  rw (bit_or-pow 62 pid hp)
      (decode_entry_type-entry_of (pid + 2 ^ 62) (omega arith) ∙ ground arith),
  rw (bit_or-pow 63 word hw)
      (decode_entry_type-entry_of (word + 2 ^ 63) (omega arith) ∙ ground arith),
)
