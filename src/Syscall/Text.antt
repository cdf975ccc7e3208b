-- ===== src/Syscall/Text.antt =====
-- crates/smos-common/src/string.rs: names in the buffer that a client shares with a server. A
-- slice is the list of its bytes, and a `&str` a list of bytes that is UTF-8.
use smos_thesis.Base.{
  ℕ, zero, suc, ◌+◌, ◌≤◌, ◌≡◌, refl, Bool, true, false, ◌&&◌, List, [], ◌∷◌, ◌++◌, Option, none,
  some, arith, Result, ok, err, length, ltb, leb, ◌==◌, if◌then◌else◌,
}
use smos_thesis.Common.Errors.{InvocationError, buffer_too_large, invalid_arguments}

-- The range of a continuation byte.
abbrev Range : Type 0
Range = ℕ × ℕ

-- The ranges of the bytes that must follow a leading byte (Unicode, table 3-7).
utf8_lead : ℕ → Option (List Range)
utf8_lead b =
    if ltb b 0x80
    then some []
    else if ltb b 0xc2
    then none
    else if ltb b 0xe0
    then some ((0x80, 0xbf) ∷ [])
    else if b == 0xe0
    then some ((0xa0, 0xbf) ∷ (0x80, 0xbf) ∷ [])
    else if b == 0xed
    then some ((0x80, 0x9f) ∷ (0x80, 0xbf) ∷ [])
    else if ltb b 0xf0
    then some ((0x80, 0xbf) ∷ (0x80, 0xbf) ∷ [])
    else if b == 0xf0
    then some ((0x90, 0xbf) ∷ (0x80, 0xbf) ∷ (0x80, 0xbf) ∷ [])
    else if ltb b 0xf4
    then some ((0x80, 0xbf) ∷ (0x80, 0xbf) ∷ (0x80, 0xbf) ∷ [])
    else if b == 0xf4
    then some ((0x80, 0x8f) ∷ (0x80, 0xbf) ∷ (0x80, 0xbf) ∷ [])
    else none

utf8_step : List Range → ℕ → Option (List Range)
utf8_step [] b = utf8_lead b
utf8_step ((lo, hi) ∷ more) b = if leb lo b && leb b hi then some more else none

utf8_from : List Range → List ℕ → Bool
utf8_from [] [] = true
utf8_from (r ∷ more) [] = false
utf8_from wait (b ∷ bs) = elim (utf8_step wait b) [ none ↦ false | some next ↦ utf8_from next bs ]

-- `core::str::from_utf8` accepts the bytes.
unfoldable pub is_utf8 : List ℕ → Bool
unfolding utf8_from utf8_step utf8_lead
is_utf8 bytes = utf8_from [] bytes

-- The bytes before the first zero, and those behind it.
unfoldable pub split_at_zero : List ℕ → Option (List ℕ × List ℕ)
split_at_zero [] = none
split_at_zero (b ∷ bs) =
    if b == 0
    then some ([], bs)
    else elim (split_at_zero bs) [ none ↦ none | some (name, rest) ↦ some (b ∷ name, rest) ]

unfoldable pub drop : ℕ → List ℕ → List ℕ
drop n [] = []
drop zero bs = bs
drop (suc n) (b ∷ bs) = drop n bs

-- What was written to the front of the buffer, and the slice behind it that is returned.
unfoldable pub copy_terminated_rust_string_to_buffer :
    List ℕ → List ℕ → Result InvocationError (List ℕ × List ℕ)
copy_terminated_rust_string_to_buffer buffer string =
    if ltb (length buffer) (length string + 1)
    then err buffer_too_large
    else ok (string ++ 0 ∷ [], drop (length string + 1) buffer)

unfoldable pub rust_str_from_buffer : List ℕ → Result InvocationError (List ℕ × List ℕ)
rust_str_from_buffer buffer = elim (split_at_zero buffer) [
  | none ↦ err invalid_arguments
  | some (name, rest) ↦ if is_utf8 name then ok (name, rest) else err invalid_arguments
]

-- A `&str` with no zero byte, which the terminated form can carry.
pub record IsName (name : List ℕ) : Type 0 where
  pub utf8 : is_utf8 name ≡ true
  pub no_zero : split_at_zero name ≡ none

split_at_zero-append :
    (name rest : List ℕ)
    → split_at_zero name ≡ none
    → split_at_zero (name ++ 0 ∷ rest) ≡ some (name, rest)
unfolding split_at_zero
split_at_zero-append [] rest h = refl
split_at_zero-append (b ∷ bs) rest h = ground (arith, split_at_zero-append bs rest)

-- A name that was written is read back, with what stands behind it.
pub rust_str_from_buffer-terminated :
    (name rest : List ℕ) → IsName name → rust_str_from_buffer (name ++ 0 ∷ rest) ≡ ok (name, rest)
unfolding rust_str_from_buffer
rust_str_from_buffer-terminated name rest v =
    ground (arith, split_at_zero-append name rest v.no_zero, v.utf8)

-- The written part and the slice behind it fill the buffer.
pub copy_fits :
    (buffer string : List ℕ)
    → length string + 1 ≤ length buffer
    → copy_terminated_rust_string_to_buffer buffer string
      ≡ ok (string ++ 0 ∷ [], drop (length string + 1) buffer)
unfolding copy_terminated_rust_string_to_buffer
copy_fits buffer string h = ground arith
