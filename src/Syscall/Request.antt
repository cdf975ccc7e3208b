-- ===== src/Syscall/Request.antt =====
-- A message as a server receives it, and the reads that its decoding makes: a `?` ends the decoding
-- with an error, a read out of bounds panics.
use smos_thesis.Base.{
  ℕ, ◌^◌, Bool, true, false, List, Option, none, some, Result, ok, err, Run, ret, panic, get_elem?,
}
use smos_thesis.Common.Errors.{InvocationError, data_buffer_not_set}
use smos_thesis.Server.Message.{IpcBuffer}

-- `sel4::MessageInfo`, as the kernel hands it to a receiver.
pub record ReceivedInfo : Type 0 where
  pub label : ℕ
  pub msg_length : ℕ
  pub extra_caps : ℕ
  pub caps_unwrapped : ℕ

-- The receive slot is an `AbsoluteCPtr`, here the bits of its path.
pub record Request : Type 0 where
  pub info : ReceivedInfo
  pub ipcbuf : IpcBuffer
  pub data_buffer : Option (List ℕ)
  pub recv_slot : ℕ

abbrev pub Decode : Type 0 → Type 0
Decode A = Run (Result InvocationError A)

abbrev pub done : {A : Type 0} → A → Decode A
done a = ret (ok a)

abbrev pub refuse : {A : Type 0} → InvocationError → Decode A
refuse e = ret (err e)

infixl 5 ◌>>=◌ ◌>>◌
abbrev pub ◌>>=◌ : {A B : Type 0} → Decode A → (A → Decode B) → Decode B
ret (ok a) >>= f = f a
ret (err e) >>= f = ret (err e)
panic >>= f = panic

abbrev pub ◌>>◌ : {B : Type 0} → Decode (Unit {0}) → Decode B → Decode B
m >> k = m >>= λ _. k

-- `if bad { return Err(e) }`
abbrev pub reject_if : Bool → InvocationError → Decode (Unit {0})
reject_if true e = refuse e
reject_if false e = done tt

abbrev pub try : {A : Type 0} → Result InvocationError A → Decode A
try r = ret r

abbrev pub option_or : {A : Type 0} → Option A → InvocationError → Decode A
option_or none e = refuse e
option_or (some a) e = done a

abbrev pub read : List ℕ → ℕ → Decode ℕ
read words i = elim (get_elem? words i) [ none ↦ panic | some v ↦ done v ]

-- `|i| ipcbuf.msg_regs()[i as usize]`
abbrev pub f_msg : Request → ℕ → Decode ℕ
f_msg m i = read m.ipcbuf.msg_regs i

-- `|i| ipcbuf.caps_or_badges()[i as usize]`
abbrev pub f_cap : Request → ℕ → Decode ℕ
f_cap m i = read m.ipcbuf.caps_or_badges i

-- The guard `if data_buffer.is_none()` and the `unwrap` behind it.
abbrev pub the_buffer : Request → Decode (List ℕ)
the_buffer m = option_or m.data_buffer data_buffer_not_set

-- `BIT`
abbrev pub bit : ℕ → ℕ
bit n = 2 ^ n
