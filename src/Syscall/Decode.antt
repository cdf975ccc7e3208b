-- ===== src/Syscall/Decode.antt =====
-- crates/smos-server/src/syscalls.rs: the decoding of invocations, one definition for each arm of
-- `get_with`; `Decode/Objects` has the arms of objects, views, connections and processes.
use Prim.Native.Nat.{bit_and}
pub mod Objects
use smos_thesis.Base.{
  ℕ, zero, suc, ◌+◌, ◌-◌, ◌^◌, Bool, true, false, not, ◌&&◌, ◌||◌, List, [], ◌∷◌, Option, none,
  some, Result, ok, err, Run, ret, panic, length, get_elem?, ltb, ◌==◌, if◌then◌else◌,
}
use smos_thesis.Word.{max_word}
use smos_thesis.Common.Errors.{InvocationError, invalid_arguments, invalid_invocation}
use smos_thesis.Common.Invocations.{SmosInvocation, try_from_u64, can_contain_wrapped_cap}
use smos_thesis.Server.Handles.{
  ServerReceivedHandleOrHandleCap, handle, unwrapped_handle_cap, wrapped_handle_cap,
}
use smos_thesis.Syscall.Text.{rust_str_from_buffer}
use smos_thesis.Syscall.Invocation.{
  Invocation, QueueType, active, free, request, response, no_queue, VirtType, tx, rx,
}
use smos_thesis.Syscall.Request.{
  Request, ReceivedInfo, Decode, done, refuse, ◌>>=◌, ◌>>◌, reject_if, try, option_or, f_msg, f_cap,
  the_buffer, bit,
}

abbrev pub to_bool : ℕ → Bool
to_bool v = not (v == 0)

abbrev queue_types : List QueueType
queue_types = active ∷ free ∷ request ∷ response ∷ no_queue ∷ []

unfoldable pub queue_try_from : ℕ → Option QueueType
queue_try_from n = get_elem? queue_types n

abbrev virt_types : List VirtType
virt_types = tx ∷ rx ∷ []

unfoldable pub virt_try_from : ℕ → Option VirtType
virt_try_from n = get_elem? virt_types n

-- One capability, and unwrapped.
abbrev one_unwrapped : ReceivedInfo → Bool
one_unwrapped info = (info.extra_caps == 1) && (info.caps_unwrapped == 1)

-- Not exactly one capability that arrived in the receive slot.
abbrev not_one_wrapped : ReceivedInfo → Bool
not_one_wrapped info = not (info.extra_caps == 1) || not (info.caps_unwrapped == 0)

unfoldable pub get_window_create : Request → Decode Invocation
get_window_create m = do
  base_vaddr ← f_msg m 0
  size ← f_msg m 1
  return_cap ← f_msg m 2
  done (
      Invocation.window_create
        (record { base_vaddr = base_vaddr; size = size; return_cap = to_bool return_cap }))

-- A handle capability that came unwrapped, or else a handle in the first register.
unfoldable pub unwrapped_or_handle : Request → Decode ServerReceivedHandleOrHandleCap
unwrapped_or_handle m =
    if one_unwrapped m.info
    then (f_cap m 0 >>= λ idx. done (unwrapped_handle_cap idx))
    else if m.info.msg_length == 1
    then (f_msg m 0 >>= λ idx. done (handle idx))
    else refuse invalid_arguments

unfoldable pub get_window_destroy : Request → Decode Invocation
unfolding unwrapped_or_handle
get_window_destroy m = do
  val ← unwrapped_or_handle m
  done (Invocation.window_destroy (record { hndl = val }))

unfoldable pub get_obj_close : Request → Decode Invocation
unfolding unwrapped_or_handle
get_obj_close m = do
  val ← unwrapped_or_handle m
  done (Invocation.obj_close (record { hndl = val }))

unfoldable pub get_obj_destroy : Request → Decode Invocation
unfolding unwrapped_or_handle
get_obj_destroy m = do
  val ← unwrapped_or_handle m
  done (Invocation.obj_destroy (record { hndl = val }))

-- The kind of a virtualiser is optional.
abbrev get_virt_type : Request → Decode (Option VirtType)
get_virt_type m =
    if m.info.msg_length == 1
    then (f_msg m 0 >>= λ n. option_or (virt_try_from n) invalid_arguments >>= λ t. done (some t))
    else done none

unfoldable pub get_sddf_channel_register_bidirectional : Request → Decode Invocation
unfolding virt_try_from
get_sddf_channel_register_bidirectional m = do
  reject_if (ltb 1 m.info.msg_length || not_one_wrapped m.info) invalid_arguments
  virt_type ← get_virt_type m
  done (
      Invocation.sddf_channel_register_bidirectional
        (record { channel_hndl_cap = record { cptr = m.recv_slot }; virt_type = virt_type }))

unfoldable pub get_sddf_channel_register_receive_only : Request → Decode Invocation
get_sddf_channel_register_receive_only m = do
  reject_if (not_one_wrapped m.info) invalid_arguments
  done (
      Invocation.sddf_channel_register_recv_only
        (record { channel_hndl_cap = record { cptr = m.recv_slot } }))

unfoldable pub get_sddf_queue_register : Request → Decode Invocation
unfolding queue_try_from
get_sddf_queue_register m = do
  reject_if (not (m.info.msg_length == 2) || not_one_wrapped m.info) invalid_arguments
  size ← f_msg m 0
  kind ← f_msg m 1
  queue_type ← option_or (queue_try_from kind) invalid_arguments
  done (
      Invocation.sddf_queue_register
        (record { hndl_cap = record { cptr = m.recv_slot }; size = size; queue_type = queue_type }))

unfoldable pub get_sddf_provide_data_region : Request → Decode Invocation
get_sddf_provide_data_region m = do
  reject_if (not_one_wrapped m.info) invalid_arguments
  size ← f_msg m 0
  done (
      Invocation.sddf_provide_data_region
        (record { hndl_cap = record { cptr = m.recv_slot }; size = size }))

unfoldable pub get_window_register : Request → Decode Invocation
get_window_register m = do
  reject_if
      (not (m.info.extra_caps == 1)
        || (not (m.info.caps_unwrapped == 1) || not (m.info.msg_length == 3)))
      invalid_arguments
  publish_hndl ← f_msg m 0
  window_hndl ← f_cap m 0
  client_id ← f_msg m 1
  reference ← f_msg m 2
  done (
      Invocation.window_register (record {
        publish_hndl = record { idx = publish_hndl };
        window_hndl = record { idx = window_hndl };
        client_id = client_id;
        reference = reference;
      }))

unfoldable pub get_server_create_channel : Request → Decode Invocation
get_server_create_channel m = do
  reject_if (not (m.info.msg_length == 1)) invalid_arguments
  publish_hndl ← f_msg m 0
  done (Invocation.server_create_channel (record { publish_hndl = record { idx = publish_hndl } }))

-- The two tests are joined by `&&`: one of them is enough.
unfoldable pub get_channel_open : Request → Decode Invocation
get_channel_open m = do
  reject_if (not (m.info.extra_caps == 1) && not (m.info.caps_unwrapped == 1)) invalid_arguments
  hndl_cap ← f_cap m 0
  done (Invocation.channel_open (record { hndl_cap = record { idx = hndl_cap } }))

unfoldable pub get_window_deregister : Request → Decode Invocation
get_window_deregister m = do
  reject_if (not (m.info.msg_length == 1)) invalid_arguments
  hndl ← f_msg m 0
  done (Invocation.window_deregister (record { hndl = record { idx = hndl } }))

unfoldable pub get_page_map : Request → Decode Invocation
get_page_map m = do
  reject_if (not (m.info.msg_length == 3)) invalid_arguments
  hndl ← f_msg m 0
  view_offset ← f_msg m 1
  content_vaddr ← f_msg m 2
  done (
      Invocation.page_map (record {
        window_registration_hndl = record { idx = hndl };
        view_offset = view_offset;
        content_vaddr = content_vaddr;
      }))

unfoldable pub get_conn_create : Request → Decode Invocation
get_conn_create m = do
  buffer ← the_buffer m
  name ← try (rust_str_from_buffer buffer)
  done (Invocation.conn_create (record { name = name.0 }))

unfoldable pub get_conn_publish : Request → Decode Invocation
get_conn_publish m = do
  buffer ← the_buffer m
  ntfn_buffer ← f_msg m 0
  name ← try (rust_str_from_buffer buffer)
  done (Invocation.conn_publish (record { ntfn_buffer = ntfn_buffer; name = name.0 }))
