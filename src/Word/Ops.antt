-- ===== src/Word/Ops.antt =====
-- The operators of the language on words.
use smos_thesis.Base.{ℕ, zero, suc, ◌+◌, ◌-◌, ◌/◌, ◌%◌, ◌^◌, ◌<◌, Bool, ◌==◌, if◌then◌else◌}

-- The values of `u64`; an `abbrev` of a bound, so that `omega` reads it.
abbrev pub IsWord : ℕ → Type 0
IsWord w = w < 2 ^ 64

abbrev pub max_word : ℕ
max_word = 2 ^ 64 - 1

-- `!w`
abbrev pub word_not : ℕ → ℕ
word_not w = max_word - w

-- Bit `i` of `w`, the lowest first.
unfoldable pub test_bit : ℕ → ℕ → Bool
test_bit w zero = w % 2 == 1
test_bit w (suc i) = test_bit (w / 2) i

-- `w.trailing_zeros()` of a word of `n` bits.
unfoldable pub trailing_zeros_of : ℕ → ℕ → ℕ
trailing_zeros_of zero w = 0
trailing_zeros_of (suc n) w =
    let rest = trailing_zeros_of n (w / 2) in if w % 2 == 1 then 0 else rest + 1

unfoldable pub trailing_zeros : ℕ → ℕ
unfolding trailing_zeros_of
trailing_zeros w = trailing_zeros_of 64 w
