-- ===== src/Tests/Syscalls.antt =====
-- System calls between clients and servers.
use smos_thesis.Base.{
  ℕ, ◌≤◌, List, length, suc, ◌≡◌, refl, Bool, true, [], ◌∷◌, Option, none, some, Result, ok, err,
  ret, panic, arith, ◌==◌, if◌then◌else◌,
}
use smos_thesis.Common.Errors.{InvocationError, invalid_arguments, try_unpack_error}
use smos_thesis.Common.Invocations.{SmosInvocation, into_u64, try_from_u64, can_contain_wrapped_cap}
use smos_thesis.Syscall.Decode.Objects.{get_conn_open}
use smos_thesis.Server.Message.{IpcBuffer, MessageInfo, delivered}
use smos_thesis.Server.Reply.{handle_cap, conn_open}
use smos_thesis.Syscall.Call.{Call, request, decoded}
use smos_thesis.Syscall.Client.{Client}
use smos_thesis.Syscall.GetWith.{
  root_server_connection, object_server_connection, is_supported, get_from_ipc_buffer,
  consumed_recv_slot,
}
use smos_thesis.Syscall.GetWith.Total.{get_from_ipc_buffer-returns, conn_register_panics}
use smos_thesis.Server.Handles.{ServerReceivedHandleOrHandleCap}
use smos_thesis.Syscall.Invocation.{Invocation, contains_cap}
use smos_thesis.Syscall.Request.{Request, ReceivedInfo}
use smos_thesis.Syscall.RoundTrip.Calls.{get_from_ipc_buffer-request, HasRoom}
use smos_thesis.Syscall.Serve.{
  Receiver, Slots, smos_serv_decode_invocation, smos_serv_cleanup, answered,
}
use smos_thesis.Syscall.Serve.Refusal.{smos_serv_decode_invocation-refused}
use smos_thesis.Syscall.Serve.Slot.{contains_cap-consumed, conn_open_keeps_cap}
use smos_thesis.Syscall.Transfer.{Transferred}

-- Capability 9 is one to the server, with the badge 5.
abbrev arrives : ℕ → Option ℕ
arrives cptr = if cptr == 9 then some 5 else none

abbrev sender : Client ℕ
sender = record {
  ipc = record { msg_regs = 1 ∷ 2 ∷ 3 ∷ 4 ∷ 5 ∷ 6 ∷ 7 ∷ []; caps_or_badges = 0 ∷ 0 ∷ 0 ∷ [] };
  recv_slot = 0;
  buf = none;
  world = 0;
}

-- The window comes in the receive slot, the object unwrapped.
abbrev viewing : Call
viewing = Call.view (handle_cap 4) (handle_cap 9) 4096 0 8192 3

sender-HasRoom : HasRoom sender
sender-HasRoom = record { msg_regs = omega arith; caps_or_badges = omega arith }

get_from_ipc_buffer-request_example :
    (info : MessageInfo) × (after : Client ℕ) × (request viewing sender ≡ ret (ok info, after))
    × (info.label ≡ into_u64 SmosInvocation.view)
    × ((m : Request)
        → Transferred arrives after info m
        → get_from_ipc_buffer object_server_connection m
          ≡ ret (ok (decoded arrives m.recv_slot viewing), consumed_recv_slot m.info))
unfolding is_supported
get_from_ipc_buffer-request_example =
    get_from_ipc_buffer-request object_server_connection arrives sender viewing sender-HasRoom
      (tt, tt, (5, refl)) refl

abbrev unview_request : Request
unview_request = record {
  info = record { label = 9; msg_length = 1; extra_caps = 0; caps_unwrapped = 0 };
  ipcbuf = record { msg_regs = 1 ∷ 2 ∷ 3 ∷ 4 ∷ 5 ∷ 6 ∷ []; caps_or_badges = 0 ∷ 0 ∷ [] };
  data_buffer = none;
  recv_slot = 3;
}

get_from_ipc_buffer-returns_example :
    (out : Result InvocationError Invocation) × (consumed : Bool) × (get_from_ipc_buffer
        root_server_connection unview_request
      ≡ ret (out, consumed))
unfolding try_from_u64
get_from_ipc_buffer-returns_example =
    get_from_ipc_buffer-returns root_server_connection unview_request (omega arith) (omega arith) tt

abbrev deletions : Slots ℕ
deletions = record { delete = λ slot w. (true, suc w) }

abbrev listener : Receiver ℕ
listener = record { ipc = unview_request.ipcbuf; recv_slot = 3; world = 0 }

-- A capability with an invocation that takes none.
abbrev with_cap : ReceivedInfo
with_cap = record { label = 9; msg_length = 1; extra_caps = 1; caps_unwrapped = 0 }

with_cap_refused :
    get_from_ipc_buffer root_server_connection (record unview_request { info = with_cap })
    ≡ ret (err invalid_arguments, true)
unfolding get_from_ipc_buffer consumed_recv_slot try_from_u64 is_supported can_contain_wrapped_cap
with_cap_refused = refl

smos_serv_decode_invocation-refused_example :
    (info : MessageInfo) × (ipc : IpcBuffer) × (smos_serv_decode_invocation deletions
        root_server_connection with_cap 3 none listener
      ≡ ret (err (some info), record { ipc = ipc; recv_slot = 3; world = 1 }))
    × ((own : List ℕ)
        → 2 ≤ length own
        → try_unpack_error info.label (delivered info.msg_length ipc.msg_regs own)
          ≡ ret (err invalid_arguments))
smos_serv_decode_invocation-refused_example =
    smos_serv_decode_invocation-refused deletions root_server_connection with_cap 3 none listener
      invalid_arguments true with_cap_refused (omega arith) (λ e. refl)

abbrev opening : Request
opening = record {
  info = record { label = 13; msg_length = 2; extra_caps = 1; caps_unwrapped = 0 };
  ipcbuf = record { msg_regs = 0 ∷ 4096 ∷ []; caps_or_badges = [] };
  data_buffer = none;
  recv_slot = 3;
}

abbrev opened : Invocation
opened =
    Invocation.conn_open (record {
      shared_buf_obj = some (ServerReceivedHandleOrHandleCap.wrapped_handle_cap 3, 4096);
    })

opening_decoded : get_from_ipc_buffer object_server_connection opening ≡ ret (ok opened, true)
unfolding get_from_ipc_buffer consumed_recv_slot try_from_u64 is_supported can_contain_wrapped_cap
    get_conn_open
opening_decoded = refl

contains_cap-consumed_example :
    (◌≡◌ {A = Bool} true true) × (consumed_recv_slot opening.info ≡ true)
unfolding contains_cap
contains_cap-consumed_example =
    contains_cap-consumed object_server_connection opening opened true (omega arith) (omega arith)
      opening_decoded refl

abbrev left_behind : Request
left_behind = record opening {
  info = record { label = 13; msg_length = 0; extra_caps = 1; caps_unwrapped = 0 };
}

conn_open_keeps_cap_example :
    let inv = Invocation.conn_open (record { shared_buf_obj = none }) in
    (get_from_ipc_buffer object_server_connection left_behind ≡ ret (ok inv, true))
    × (smos_serv_cleanup deletions inv 3 (ok conn_open) listener
        ≡ answered (ok conn_open) (ret listener))
conn_open_keeps_cap_example =
    conn_open_keeps_cap deletions left_behind listener (ok conn_open) refl refl refl refl

abbrev short_register : Request
short_register = record unview_request {
  info = record { label = 17; msg_length = 1; extra_caps = 0; caps_unwrapped = 0 };
}

conn_register_panics_example : get_from_ipc_buffer root_server_connection short_register ≡ panic
conn_register_panics_example = conn_register_panics short_register refl (omega arith) refl
