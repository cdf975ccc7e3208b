-- ===== src/Syscall/Serve/Slot.antt =====
-- The capability in the receive slot, between the decoding of an invocation and the answer to it.
mod Arms
use Prim.Native.Nat.{bit_and}
use smos_thesis.Base.{
  ℕ, zero, suc, ◌^◌, ◌≤◌, ◌<◌, ◌≡◌, refl, ap, ◌∙◌, Bool, true, false, not, ◌&&◌, ◌||◌, List, Option,
  none, some, arith, Result, ok, err, Run, ret, panic, ltb, ◌==◌, if◌then◌else◌,
}
use smos_thesis.Common.Errors.{InvocationError}
use smos_thesis.Common.Invocations.{SmosInvocation, try_from_u64, into_u64, can_contain_wrapped_cap}
use smos_thesis.Server.Reply.{SmosReply}
use smos_thesis.Syscall.Decode.{
  unwrapped_or_handle, get_window_create, get_window_destroy, get_obj_close, get_obj_destroy,
  get_sddf_channel_register_bidirectional, get_sddf_channel_register_receive_only,
  get_sddf_queue_register, get_sddf_provide_data_region, get_window_register,
  get_server_create_channel, get_channel_open, get_window_deregister, get_page_map, get_conn_create,
  get_conn_publish,
}
use smos_thesis.Syscall.Decode.Objects.{
  get_view_window, get_view_object, get_obj_create, get_obj_open, get_obj_stat, get_view,
  get_unview, get_conn_destroy, get_conn_deregister, get_load_complete, get_conn_open,
  get_conn_register, get_irq_register, get_server_handle_cap_create, get_proc_spawn, get_proc_wait,
}
use smos_thesis.Syscall.GetWith.{
  ServerConnection, object_server_connection, is_supported, get_label, get_checked, get_with,
  get_supported, get_from_ipc_buffer, consumes, consumed_recv_slot,
}
use smos_thesis.Syscall.Invocation.{Invocation, contains_cap}
use smos_thesis.Syscall.Request.{Request, done}
use smos_thesis.Syscall.RoundTrip.{get_carrier}
use smos_thesis.Syscall.RoundTrip.Calls.{get_supported-decoded}
use smos_thesis.Syscall.Serve.{Receiver, Slots, smos_serv_cleanup, answered}
use smos_thesis.Syscall.Serve.Slot.Arms.{get_label-holds, none_unwrapped-consumes}

module _ (m : Request) (small : m.info.extra_caps ≤ 3) (few : m.info.caps_unwrapped ≤ 7)
    (inv : Invocation) (holds : contains_cap inv ≡ true) where
  get_supported-holds :
      (server : ServerConnection) (label : Option SmosInvocation) (consumed c : Bool)
      → try_from_u64 m.info.label ≡ label
      → get_supported server label m consumed ≡ ret (ok inv, c)
      → (consumes m.info.extra_caps m.info.caps_unwrapped ≡ true) × (c ≡ consumed)
  unfolding get_supported get_checked
  get_supported-holds server none consumed c known h = ground arith
  get_supported-holds server (some label) consumed c known h =
      ground (arith, known, get_label-holds m small few inv holds label)

-- An invocation that is decoded with a capability in the receive slot did take the slot: the
-- deletion after the answer never meets an empty slot. The bounds are the widths of the fields of a
-- message tag.
pub contains_cap-consumed :
    (server : ServerConnection) (m : Request) (inv : Invocation) (consumed : Bool)
    → m.info.extra_caps ≤ 3
    → m.info.caps_unwrapped ≤ 7
    → get_from_ipc_buffer server m ≡ ret (ok inv, consumed)
    → contains_cap inv ≡ true
    → (consumed ≡ true) × (consumed_recv_slot m.info ≡ true)
unfolding get_from_ipc_buffer consumed_recv_slot consumes
contains_cap-consumed server m inv consumed small few h holds =
    let (taken, same) = get_supported-holds m small few inv holds server _ _ consumed refl h in
    (same ∙ taken, taken)

opens_nothing :
    (m : Request)
    → m.info.label ≡ into_u64 SmosInvocation.conn_open
    → m.info.msg_length ≡ 0
    → get_with m (consumed_recv_slot m.info)
      ≡ done (Invocation.conn_open (record { shared_buf_obj = none }))
unfolding get_label get_conn_open can_contain_wrapped_cap
opens_nothing m label none_sent = get_carrier m SmosInvocation.conn_open label refl (ground arith)

taken_by_one :
    (m : Request)
    → m.info.extra_caps ≡ 1
    → m.info.caps_unwrapped ≡ 0
    → consumed_recv_slot m.info ≡ true
unfolding consumed_recv_slot
taken_by_one m one wrapped = none_unwrapped-consumes _ _ one wrapped

-- The other way it fails: a `ConnOpen` of length 0 with a capability of the client's is decoded, the
-- capability takes the receive slot, and the answer, whatever it is, leaves it there.
pub conn_open_keeps_cap :
    {World : Type 0} (s : Slots World) (m : Request) (r : Receiver World)
    (out : Result InvocationError SmosReply)
    → m.info.label ≡ into_u64 SmosInvocation.conn_open
    → m.info.msg_length ≡ 0
    → m.info.extra_caps ≡ 1
    → m.info.caps_unwrapped ≡ 0
    → let inv = Invocation.conn_open (record { shared_buf_obj = none }) in
      (get_from_ipc_buffer object_server_connection m ≡ ret (ok inv, true))
      × (smos_serv_cleanup s inv m.recv_slot out r ≡ answered out (ret r))
unfolding get_from_ipc_buffer smos_serv_cleanup contains_cap is_supported
conn_open_keeps_cap s m r out label none_sent one wrapped = (
  get_supported-decoded object_server_connection m (consumed_recv_slot m.info)
        SmosInvocation.conn_open label refl (opens_nothing m label none_sent)
      ∙ ap (λ c. ret (ok (Invocation.conn_open (record { shared_buf_obj = none })), c))
          (taken_by_one m one wrapped),
  refl,
)
