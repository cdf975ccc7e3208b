-- ===== src/RootServer/Kernel.antt =====
-- What the root server's components see of the kernel: its error codes, and the constants of the
-- 64-bit ARM configuration.
use smos_thesis.Base.{ℕ, ◌+◌, ◌-◌, ◌%◌, ◌^◌}

-- `sel4::Error`, the codes that the root server makes or compares itself.
pub data SelError : Type 0 where
  not_enough_memory invalid_argument invalid_capability illegal_operation : SelError
  delete_first failed_lookup other_error : SelError

-- `seL4_PageBits`, `seL4_EndpointBits`, `seL4_SlotBits`.
abbrev pub page_bits : ℕ
page_bits = 12

abbrev pub endpoint_bits : ℕ
endpoint_bits = 4

abbrev pub slot_bits : ℕ
slot_bits = 5

abbrev pub page_size_4k : ℕ
page_size_4k = 2 ^ 12

-- `x += 1` and `x -= 1` on `usize`, which wrap where overflow is not checked.
abbrev pub inc : ℕ → ℕ
inc x = (x + 1) % 2 ^ 64

abbrev pub dec : ℕ → ℕ
dec x = (x + (2 ^ 64 - 1)) % 2 ^ 64
