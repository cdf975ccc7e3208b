-- ===== src/Tests/Messages.antt =====
-- Errors, replies, labels and notifications.
use smos_thesis.Base.{
  ℕ, get_elem?, ◌≡◌, refl, List, [], ◌∷◌, ◌++◌, Option, none, some, Result, ok, err, Run, ret,
  arith, length, ltb, if◌then◌else◌,
}
use smos_thesis.Common.Invocations.{SmosInvocation, try_from_u64}
use smos_thesis.Common.Errors.{InvocationError}
use smos_thesis.Server.Message.{IpcBuffer}
use smos_thesis.Server.Errors.{report, try_unpack_error-handle_error, handle_error-invalid_type}
use smos_thesis.Server.Reply.{handle_reply, window_create, handle_cap}
use smos_thesis.Server.Reply.Payload.{payload, message, handle_reply-message}
use smos_thesis.Server.NtfnBuffer.{
  NtfnBufferData, NotificationType, vm_fault_notification, into_data, SharedRing,
  ntfn_buffer_capacity,
}
use smos_thesis.Server.NtfnBuffer.Fifo.{Behaves, ntfn_buffer-Behaves}

decodes_0 : try_from_u64 0 ≡ some SmosInvocation.window_create
unfolding try_from_u64
decodes_0 = refl

abbrev buffer : IpcBuffer
buffer = record { msg_regs = 1 ∷ 2 ∷ 3 ∷ []; caps_or_badges = 4 ∷ [] }

abbrev own_regs : List ℕ
own_regs = 70 ∷ 71 ∷ 72 ∷ []

try_unpack_error-handle_error_example :
    report buffer own_regs (InvocationError.not_enough_args 3 1)
    ≡ ret (err (InvocationError.not_enough_args 3 1))
try_unpack_error-handle_error_example =
    try_unpack_error-handle_error buffer own_regs (InvocationError.not_enough_args 3 1)
      (omega arith) (omega arith) refl

handle_error-invalid_type_example :
    (b : ℕ) × (get_elem? buffer.msg_regs 1 ≡ some b)
    × (report buffer own_regs (InvocationError.invalid_type 5)
        ≡ ret (err (InvocationError.not_enough_caps 5 b)))
handle_error-invalid_type_example =
    handle_error-invalid_type buffer own_regs 5 (omega arith) (omega arith)

handle_reply-message_example :
    handle_reply buffer (window_create (handle_cap 9))
    ≡ message buffer (payload (window_create (handle_cap 9)))
handle_reply-message_example =
    handle_reply-message buffer (window_create (handle_cap 9)) (omega arith) (omega arith)

abbrev a_fault : NotificationType
a_fault = vm_fault_notification (record { client_id = 1; reference = 2; fault_offset = 4096 })

-- A ring that is the list of its entries.
abbrev put :
    List NtfnBufferData
    → NtfnBufferData
    → Run (Result NtfnBufferData (Unit {0}) × List NtfnBufferData)
put r d = if ltb (length r) ntfn_buffer_capacity then ret (ok tt, r ++ d ∷ []) else ret (err d, r)

abbrev take : List NtfnBufferData → Run (Option NtfnBufferData × List NtfnBufferData)
take [] = ret (none, [])
take (d ∷ ds) = ret (some d, ds)

abbrev list_ring : SharedRing
list_ring = record {
  Ring = List NtfnBufferData;
  entries = λ r. r;
  enqueue_and_commit = put;
  dequeue = take;
  enqueue_room = λ r d h. (r ++ d ∷ [], ground arith, refl);
  enqueue_full = λ r d h. ground arith;
  dequeue_empty = λ r e. ground (arith, e);
  dequeue_oldest = λ r d ds e. (ds, ground (arith, e), refl);
}

ntfn_buffer-Behaves_example : Behaves list_ring (into_data a_fault ∷ []) (a_fault ∷ [])
ntfn_buffer-Behaves_example =
    ntfn_buffer-Behaves list_ring (into_data a_fault ∷ []) (a_fault ∷ []) refl
