-- ===== src/Word.antt =====
-- Machine words: `u64` and `usize` are 64 bits wide, and a word is a number below 2 ^ 64.
-- The operators `|`, `&`, `!`, `1 << n` and `trailing_zeros` of the language, with the bits that
-- they leave.
mod Digits
mod Ops
mod Bits
unfoldable pub use Ops.*
pub use Bits.*
