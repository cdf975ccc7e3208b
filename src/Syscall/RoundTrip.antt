-- ===== src/Syscall/RoundTrip.antt =====
-- A call that a client sends is the invocation that the server decodes.
pub mod Words
pub mod Processes
pub mod Handles
pub mod Sddf
pub mod Views
pub mod Buffer
pub mod Names
pub mod Calls
use Prim.Native.Nat.{bit_and}
use smos_thesis.Base.{
  ◌^◌, ℕ, ◌≤◌, ◌<◌, ◌≡◌, refl, ap, ◌∙◌, Bool, true, false, not, ◌&&◌, List, [], ◌∷◌, Option, none,
  some, arith, ret, ok, get_elem?, ltb, ◌==◌, if◌then◌else◌,
}
use smos_thesis.Common.Errors.{invalid_arguments}
use smos_thesis.Common.Invocations.{
  SmosInvocation, into_u64, try_from_u64, can_contain_wrapped_cap, try_from_u64-into_u64,
}
use smos_thesis.Server.Message.{MessageInfo, IpcBuffer}
use smos_thesis.Syscall.Client.{Client, Ipc, message, number}
use smos_thesis.Syscall.Invocation.{Invocation}
use smos_thesis.Syscall.Request.{Request, Decode, done, refuse}
use smos_thesis.Syscall.Decode.Objects.{cap_unwrapped}
use smos_thesis.Syscall.GetWith.{consumed_recv_slot, get_label, get_checked, get_with}
use smos_thesis.Syscall.Transfer.{Transferred}

-- The request goes out, and whatever message the kernel makes of it decodes to `inv`.
pub record Carries (arrives : ℕ → Option ℕ) {World : Type 0} (c : Client World)
    (request : Ipc World MessageInfo) (label : SmosInvocation) (inv : Request → Invocation)
    : Type 0 where
  pub info : MessageInfo
  pub labelled : info.label ≡ into_u64 label
  pub after : Client World
  pub sent : request c ≡ ret (ok info, after)
  pub received :
      (m : Request)
      → Transferred arrives after info m
      → get_with m (consumed_recv_slot m.info) ≡ done (inv m)

-- A client whose IPC buffer has room for six registers and two capabilities.
abbrev pub client :
    {World : Type 0} (r0 r1 r2 r3 r4 r5 : ℕ) (rs : List ℕ) (c0 c1 : ℕ) (cs : List ℕ)
    → ℕ
    → Option (List ℕ)
    → World
    → Client World
client r0 r1 r2 r3 r4 r5 rs c0 c1 cs slot buf w = record {
  ipc = record { msg_regs = r0 ∷ r1 ∷ r2 ∷ r3 ∷ r4 ∷ r5 ∷ rs; caps_or_badges = c0 ∷ c1 ∷ cs };
  recv_slot = slot;
  buf = buf;
  world = w;
}

pub get_with_checked :
    (m : Request) (consumed : Bool) (label : SmosInvocation)
    → m.info.label ≡ into_u64 label
    → get_with m consumed ≡ get_checked (some label) m consumed
unfolding get_with
get_with_checked m consumed label e =
    ap (λ o. get_checked o m consumed) (ap try_from_u64 e ∙ try_from_u64-into_u64 label)

-- The receive slot stays free where no capability arrives in it.
pub consumed-none : (m : Request) → m.info.extra_caps ≡ 0 → consumed_recv_slot m.info ≡ false
unfolding consumed_recv_slot
consumed-none m e = ground (arith, e)

pub get_with-label :
    (m : Request) (label : SmosInvocation) {inv : Invocation}
    → m.info.label ≡ into_u64 label
    → (not (can_contain_wrapped_cap label) && consumed_recv_slot m.info) ≡ false
    → get_label label m ≡ done inv
    → get_with m (consumed_recv_slot m.info) ≡ done inv
unfolding get_checked
get_with-label m label e free arm =
    get_with_checked m (consumed_recv_slot m.info) label e ∙ ground (arith, free, arm)

-- No capability comes with the message.
pub get_plain :
    (m : Request) (label : SmosInvocation) {inv : Invocation}
    → m.info.label ≡ into_u64 label
    → m.info.extra_caps ≡ 0
    → get_label label m ≡ done inv
    → get_with m (consumed_recv_slot m.info) ≡ done inv
get_plain m label e none_came arm =
    get_with-label m label e (ground (arith, consumed-none m none_came)) arm

-- One capability comes, and is unwrapped.
pub get_unwrapped :
    (m : Request) (label : SmosInvocation) {inv : Invocation}
    → m.info.label ≡ into_u64 label
    → m.info.extra_caps ≡ 1
    → m.info.caps_unwrapped ≡ 1
    → get_label label m ≡ done inv
    → get_with m (consumed_recv_slot m.info) ≡ done inv
unfolding consumed_recv_slot
get_unwrapped m label e one mask arm = get_with-label m label e (ground (arith, one, mask)) arm

-- The invocation may carry a capability in the receive slot.
pub get_carrier :
    (m : Request) (label : SmosInvocation) {inv : Invocation}
    → m.info.label ≡ into_u64 label
    → can_contain_wrapped_cap label ≡ true
    → get_label label m ≡ done inv
    → get_with m (consumed_recv_slot m.info) ≡ done inv
get_carrier m label e may arm = get_with-label m label e (ground (arith, may)) arm

pub to_bool-number : (b : Bool) → not (number b == 0) ≡ b
to_bool-number true = refl
to_bool-number false = refl

-- The mark of a capability argument, by the mask.
pub cap_unwrapped-mask :
    (m : Request) (i mask : ℕ)
    → m.info.caps_unwrapped ≡ mask
    → cap_unwrapped m i ≡ not (bit_and mask (2 ^ i) == 0)
cap_unwrapped-mask m i mask e = ap (λ k. not (bit_and k (2 ^ i) == 0)) e
