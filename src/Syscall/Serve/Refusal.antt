-- ===== src/Syscall/Serve/Refusal.antt =====
-- A message that a server refuses is answered by its error, which the client reads.
mod Arms
use smos_thesis.Base.{
  ℕ, zero, suc, ◌≤◌, ◌≡◌, refl, ap, ◌∙◌, Bool, true, false, List, [], ◌∷◌, Option, none, some, inl,
  inr, arith, Result, ok, err, Run, ret, panic, length, if◌then◌else◌, Result-cases, Run-cases,
  Bool-cases,
}
use smos_thesis.Common.Errors.{InvocationError, try_unpack_error}
use smos_thesis.Common.Invocations.{SmosInvocation, try_from_u64}
use smos_thesis.Server.Errors.{handle_error, report, is_reported, try_unpack_error-handle_error}
use smos_thesis.Server.Message.{IpcBuffer, MessageInfo, delivered}
use smos_thesis.Syscall.Decode.{
  get_window_create, unwrapped_or_handle, get_window_destroy, get_obj_close, get_obj_destroy,
  get_sddf_channel_register_bidirectional, get_sddf_channel_register_receive_only,
  get_sddf_queue_register, get_sddf_provide_data_region, get_window_register,
  get_server_create_channel, get_channel_open, get_window_deregister, get_page_map, get_conn_create,
  get_conn_publish,
}
use smos_thesis.Syscall.Decode.Objects.{
  get_obj_create, get_obj_open, get_obj_stat, get_view, get_view_window, get_view_object,
  get_unview, get_conn_destroy, get_conn_deregister, get_load_complete, get_conn_open,
  get_conn_register, get_irq_register, get_server_handle_cap_create, get_proc_spawn, get_proc_wait,
  read_args,
}
use smos_thesis.Syscall.GetWith.{
  ServerConnection, get_label, get_checked, get_with, get_supported, get_from_ipc_buffer,
}
use smos_thesis.Syscall.Invocation.{Invocation}
use smos_thesis.Syscall.Request.{Request, ReceivedInfo}
use smos_thesis.Syscall.Serve.{
  Receiver, Slots, delete_slot, refused, decoded_or_refused, smos_serv_decode_invocation,
}
use smos_thesis.Syscall.Text.{rust_str_from_buffer}
use smos_thesis.Syscall.Serve.Refusal.Arms.{get_label-reported}

module _ (m : Request) (e : InvocationError) where
  get_supported-reported :
      (server : ServerConnection) (label : Option SmosInvocation) (consumed c : Bool)
      → try_from_u64 m.info.label ≡ label
      → get_supported server label m consumed ≡ ret (err e, c)
      → (is_reported e ≡ true) × (c ≡ consumed)
  unfolding get_supported get_checked
  get_supported-reported server none consumed c known h = ground arith
  get_supported-reported server (some label) consumed c known h =
      ground (arith, known, get_label-reported m e label)

get_from_ipc_buffer-reported :
    (server : ServerConnection) (m : Request) (e : InvocationError) (consumed : Bool)
    → get_from_ipc_buffer server m ≡ ret (err e, consumed)
    → is_reported e ≡ true
unfolding get_from_ipc_buffer
get_from_ipc_buffer-reported server m e consumed h =
    (get_supported-reported m e server _ _ consumed refl h).0

refused_answer :
    {World : Type 0} (s : Slots World) (slot : ℕ) (r : Receiver World) (e : InvocationError)
    (consumed : Bool) (ipc : IpcBuffer) (info : MessageInfo)
    → handle_error r.ipc e ≡ ret (ipc, info)
    → (consumed ≡ true → (s.delete slot r.world).0 ≡ true)
    → refused e (if consumed then delete_slot s slot r else ret r) slot
      ≡ ret (
        err (some info),
        record {
          ipc = ipc;
          recv_slot = slot;
          world = if consumed then (s.delete slot r.world).1 else r.world;
        },
      )
unfolding delete_slot
refused_answer s slot r e true ipc info k deletes = ground (arith, k, deletes refl)
refused_answer s slot r e false ipc info k deletes = ground (arith, k)

-- Where the server's buffer has two registers and the capability of a refused message can be deleted,
-- the error by which the server refuses a message is the one that a client unpacks, in whose buffer
-- of at least two registers the kernel writes as many as the answer is long; the capability that took
-- the receive slot is deleted, and no other; and the receive slot is set again.
pub smos_serv_decode_invocation-refused :
    {World : Type 0} (s : Slots World) (server : ServerConnection) (msg : ReceivedInfo)
    (recv_slot : ℕ) (data_buffer : Option (List ℕ)) (r : Receiver World) (e : InvocationError)
    (consumed : Bool)
    → get_from_ipc_buffer server
        (record { info = msg; ipcbuf = r.ipc; data_buffer = data_buffer; recv_slot = recv_slot })
      ≡ ret (err e, consumed)
    → 2 ≤ length r.ipc.msg_regs
    → (consumed ≡ true → (s.delete recv_slot r.world).0 ≡ true)
    → (info : MessageInfo) × (ipc : IpcBuffer) × (smos_serv_decode_invocation s server msg recv_slot
          data_buffer r
        ≡ ret (
          err (some info),
          record {
            ipc = ipc;
            recv_slot = recv_slot;
            world = if consumed then (s.delete recv_slot r.world).1 else r.world;
          },
        ))
      × ((own : List ℕ)
          → 2 ≤ length own
          → try_unpack_error info.label (delivered info.msg_length ipc.msg_regs own) ≡ ret (err e))
unfolding smos_serv_decode_invocation report
smos_serv_decode_invocation-refused s server msg recv_slot data_buffer r e consumed h room deletes =
    let told = get_from_ipc_buffer-reported server _ e consumed h in
    let sent = λ (own : List ℕ) (k : 2 ≤ length own).
      try_unpack_error-handle_error r.ipc own e room k told in
    elim (Run-cases (handle_error r.ipc e)) [
      | inl k ↦ absurd (ground (arith, k, sent (0 ∷ 0 ∷ []) (omega arith)))
      | inr (out, k) ↦ (
        out.1,
        out.0,
        ap (decoded_or_refused s recv_slot r) h
            ∙ refused_answer s recv_slot r e consumed out.0 out.1 k deletes,
        λ own room'. ground (arith, k, sent own room'),
      )
    ]
