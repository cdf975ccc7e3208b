-- ===== src/Server/Message.antt =====
-- The message buffer and message tag of the kernel's IPC, as far as the servers write them.
use smos_thesis.Base.{ℕ, zero, suc, List, [], ◌∷◌, none, some, Run, ret, panic, get_elem?, set}

pub record IpcBuffer : Type 0 where
  pub msg_regs : List ℕ
  pub caps_or_badges : List ℕ

-- `MessageInfoBuilder`, with what its methods set.
pub record MessageInfo : Type 0 where
  pub label : ℕ
  pub msg_length : ℕ
  pub extra_caps : ℕ

-- `MessageInfoBuilder::default()`
abbrev pub default_info : MessageInfo
default_info = record { label = 0; msg_length = 0; extra_caps = 0 }

-- `ipc_buf.msg_regs_mut()[i] = v`; a write out of bounds panics.
abbrev pub write_reg : IpcBuffer → ℕ → ℕ → Run IpcBuffer
write_reg buf i v = elim (get_elem? buf.msg_regs i) [
  | none ↦ panic
  | some _ ↦ ret (record buf { msg_regs = set buf.msg_regs i v })
]

-- `ipc_buf.caps_or_badges_mut()[i] = v`
abbrev pub write_cap : IpcBuffer → ℕ → ℕ → Run IpcBuffer
write_cap buf i v = elim (get_elem? buf.caps_or_badges i) [
  | none ↦ panic
  | some _ ↦ ret (record buf { caps_or_badges = set buf.caps_or_badges i v })
]

-- What the kernel's transfer of a message of `n` words makes of the receiver's registers: the first
-- `n` are the sender's, and the others stay.
abbrev pub delivered : (n : ℕ) → (sent own : List ℕ) → List ℕ
delivered zero sent own = own
delivered (suc n) [] own = own
delivered (suc n) (x ∷ sent) [] = []
delivered (suc n) (x ∷ sent) (y ∷ own) = x ∷ delivered n sent own
