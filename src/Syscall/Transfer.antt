-- ===== src/Syscall/Transfer.antt =====
-- What the kernel's IPC does with a message on its way from a client to a server: the documented
-- behaviour of seL4's transfer of registers and capabilities, which the code relies on.
use smos_thesis.Base.{
  ℕ, zero, suc, ◌+◌, ◌*◌, ◌≤◌, ◌<◌, ◌≡◌, List, [], ◌∷◌, Option, none, some, map, get_elem?,
}
use smos_thesis.Server.Message.{MessageInfo}
use smos_thesis.Syscall.Client.{Client}
use smos_thesis.Syscall.Request.{Request}

abbrev pub take : ℕ → List ℕ → List ℕ
take zero xs = []
take (suc n) [] = []
take (suc n) (x ∷ xs) = x ∷ take n xs

-- A badge where the capability is unwrapped, bit by bit.
abbrev pub unwrapped_mask : List (Option ℕ) → ℕ
unwrapped_mask [] = 0
unwrapped_mask (none ∷ caps) = 2 * unwrapped_mask caps
unwrapped_mask (some badge ∷ caps) = 1 + 2 * unwrapped_mask caps

abbrev pub wrapped_count : List (Option ℕ) → ℕ
wrapped_count [] = 0
wrapped_count (none ∷ caps) = 1 + wrapped_count caps
wrapped_count (some badge ∷ caps) = wrapped_count caps

-- A message on its way to a server whose receive slot is empty. `arrives` gives the badge of a
-- capability to the server's own endpoint, which is unwrapped. Another capability goes into the one
-- receive slot. The shared buffer is shared.
pub record Transferred (arrives : ℕ → Option ℕ) {World : Type 0} (c : Client World)
    (info : MessageInfo) (m : Request) : Type 0 where
  pub label : m.info.label ≡ info.label
  pub msg_length : m.info.msg_length ≡ info.msg_length
  pub regs :
      (i v : ℕ)
      → i < info.msg_length
      → get_elem? c.ipc.msg_regs i ≡ some v
      → get_elem? m.ipcbuf.msg_regs i ≡ some v
  pub caps :
      wrapped_count (map arrives (take info.extra_caps c.ipc.caps_or_badges)) ≤ 1
      → m.info.extra_caps ≡ info.extra_caps
  pub unwrapped :
      wrapped_count (map arrives (take info.extra_caps c.ipc.caps_or_badges)) ≤ 1
      → m.info.caps_unwrapped
        ≡ unwrapped_mask (map arrives (take info.extra_caps c.ipc.caps_or_badges))
  pub badges :
      (i cptr badge : ℕ)
      → i < info.extra_caps
      → get_elem? c.ipc.caps_or_badges i ≡ some cptr
      → arrives cptr ≡ some badge
      → get_elem? m.ipcbuf.caps_or_badges i ≡ some badge
  pub buffer : m.data_buffer ≡ c.buf
