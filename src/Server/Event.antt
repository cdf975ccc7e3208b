-- ===== src/Server/Event.antt =====
-- crates/smos-server/src/event.rs: what a badge on the listening endpoint tells a server.
pub mod Decode
pub mod Iterate
use Prim.Native.Nat.{bit_and, bit_or}
use smos_thesis.Base.{
  ℕ, zero, suc, ◌+◌, ◌-◌, ◌*◌, ◌/◌, ◌^◌, Bool, true, false, not, List, [], ◌∷◌, Option, none, some,
  Run, ret, panic, ◌==◌, if◌then◌else◌, map,
}
use smos_thesis.Word.{word_not, trailing_zeros}

-- The top bit tells notifications from endpoints.
abbrev pub ntfn_bit : ℕ
ntfn_bit = 2 ^ 63

abbrev pub irq_ident_badge_bits : ℕ
irq_ident_badge_bits = 2 ^ 63 - 1

abbrev pub ep_type_shift : ℕ
ep_type_shift = 62

abbrev pub invocation_value : ℕ
invocation_value = 0

abbrev pub fault_value : ℕ
fault_value = 1

-- `EP_BIT | VALUE << EP_TYPE_SHIFT`, where `EP_BIT` is 0.
abbrev pub invocation_ep_bits : ℕ
invocation_ep_bits = bit_or 0 (invocation_value * 2 ^ ep_type_shift)

abbrev pub fault_ep_bits : ℕ
fault_ep_bits = bit_or 0 (fault_value * 2 ^ ep_type_shift)

-- A process identifier, or the word of a notification.
pub data EntryType : Type 0 where
  invocation fault : (pid : ℕ) → EntryType
  notification : (word : ℕ) → EntryType

unfoldable pub decode_entry_type : ℕ → Run EntryType
decode_entry_type badge =
    if not (bit_and badge ntfn_bit == 0)
    then ret (notification (bit_and badge (word_not ntfn_bit)))
    else (let pid = bit_and badge (word_not (3 * 2 ^ ep_type_shift)) in
        let value = bit_and (badge / 2 ^ ep_type_shift) 1 in
        if value == invocation_value
        then ret (invocation pid)
        else if value == fault_value
        then ret (fault pid)
        else panic)

-- One step of `NtfnWordIterator`: the number of the lowest bit, and the word without it.
unfoldable pub next : ℕ → Option (ℕ × ℕ)
next word =
    if word == 0
    then none
    else some (trailing_zeros word, bit_and word (word_not (2 ^ trailing_zeros word)))

-- The bits that a loop over the iterator sees; `none` means that the fuel ran out.
unfoldable pub iterate : ℕ → ℕ → Option (List ℕ)
iterate zero word = none
iterate (suc fuel) word = elim (next word) [
  | none ↦ some []
  | some (bit, rest) ↦ elim (iterate fuel rest) [ none ↦ none | some bits ↦ some (bit ∷ bits) ]
]
