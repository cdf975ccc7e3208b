-- ===== src/Syscall/GetWith.antt =====
-- crates/smos-server/src/syscalls.rs: `get_from_ipc_buffer` and the dispatch of `get_with`, with the
-- labels that a server supports (crates/smos-common/src/server_connection.rs).
pub mod Total
use Prim.Native.Nat.{bit_and}
use smos_thesis.Base.{
  ℕ, Option, ◌-◌, Bool, false, not, ◌&&◌, ◌||◌, List, [], ◌∷◌, none, some, Result, err, Run, ret,
  panic, ltb, ◌==◌, if◌then◌else◌,
}
use smos_thesis.Common.Errors.{
  InvocationError, invalid_arguments, invalid_invocation, unsupported_invocation,
}
use smos_thesis.Common.Invocations.{SmosInvocation, into_u64, try_from_u64, can_contain_wrapped_cap}
use smos_thesis.Syscall.Invocation.{Invocation}
use smos_thesis.Syscall.Request.{Request, ReceivedInfo, Decode, done, refuse, bit}
use smos_thesis.Syscall.Decode.{
  get_window_create, get_window_destroy, get_obj_close, get_obj_destroy,
  get_sddf_channel_register_bidirectional, get_sddf_channel_register_receive_only,
  get_sddf_queue_register, get_sddf_provide_data_region, get_window_register,
  get_server_create_channel, get_channel_open, get_window_deregister, get_page_map, get_conn_create,
  get_conn_publish,
}
use smos_thesis.Syscall.Decode.Objects.{
  get_obj_create, get_obj_open, get_obj_stat, get_view, get_unview, get_conn_destroy,
  get_conn_deregister, get_load_complete, get_conn_open, get_conn_register, get_irq_register,
  get_server_handle_cap_create, get_proc_spawn, get_proc_wait,
}

-- The types that implement `ServerConnection`.
pub data ServerConnection : Type 0 where
  root_server_connection object_server_connection sddf_connection : ServerConnection

abbrev root_server_invocations : List SmosInvocation
root_server_invocations =
    SmosInvocation.conn_create ∷ SmosInvocation.conn_destroy ∷ SmosInvocation.conn_publish
    ∷ SmosInvocation.conn_register ∷ SmosInvocation.conn_deregister ∷ SmosInvocation.test_simple
    ∷ SmosInvocation.window_create ∷ SmosInvocation.window_destroy ∷ SmosInvocation.window_register
    ∷ SmosInvocation.window_deregister ∷ SmosInvocation.reply_create
    ∷ SmosInvocation.server_handle_cap_create ∷ SmosInvocation.proc_spawn ∷ SmosInvocation.proc_wait
    ∷ SmosInvocation.proc_exit ∷ SmosInvocation.page_map ∷ SmosInvocation.load_complete
    ∷ SmosInvocation.irq_register ∷ SmosInvocation.server_create_channel
    ∷ SmosInvocation.channel_open ∷ []

abbrev object_server_invocations : List SmosInvocation
object_server_invocations =
    SmosInvocation.obj_create ∷ SmosInvocation.view ∷ SmosInvocation.unview
    ∷ SmosInvocation.obj_open ∷ SmosInvocation.obj_close ∷ SmosInvocation.obj_destroy
    ∷ SmosInvocation.obj_stat ∷ []

abbrev non_root_server_invocations : List SmosInvocation
non_root_server_invocations = SmosInvocation.conn_open ∷ SmosInvocation.conn_close ∷ []

abbrev sddf_invocations : List SmosInvocation
sddf_invocations =
    SmosInvocation.sddf_channel_register_bidirectional
    ∷ SmosInvocation.sddf_channel_register_receive_only ∷ SmosInvocation.sddf_queue_register
    ∷ SmosInvocation.sddf_get_data_region ∷ SmosInvocation.sddf_provide_data_region ∷ []

-- The derived equality compares the numbers of the variants.
contains : List SmosInvocation → SmosInvocation → Bool
contains [] inv = false
contains (i ∷ is) inv = (into_u64 i == into_u64 inv) || contains is inv

unfoldable pub is_supported : ServerConnection → SmosInvocation → Bool
unfolding contains
is_supported root_server_connection inv =
    contains root_server_invocations inv || contains object_server_invocations inv
is_supported object_server_connection inv =
    contains non_root_server_invocations inv || contains object_server_invocations inv
is_supported sddf_connection inv =
    contains non_root_server_invocations inv || contains sddf_invocations inv

-- The `match label`; `TestSimple` and every label without an arm panic.
unfoldable pub get_label : SmosInvocation → Request → Decode Invocation
get_label SmosInvocation.window_create m = get_window_create m
get_label SmosInvocation.window_destroy m = get_window_destroy m
get_label SmosInvocation.obj_close m = get_obj_close m
get_label SmosInvocation.obj_destroy m = get_obj_destroy m
get_label SmosInvocation.sddf_channel_register_bidirectional m =
    get_sddf_channel_register_bidirectional m
get_label SmosInvocation.sddf_channel_register_receive_only m =
    get_sddf_channel_register_receive_only m
get_label SmosInvocation.sddf_queue_register m = get_sddf_queue_register m
get_label SmosInvocation.sddf_provide_data_region m = get_sddf_provide_data_region m
get_label SmosInvocation.sddf_get_data_region m = done Invocation.sddf_get_data_region
get_label SmosInvocation.window_register m = get_window_register m
get_label SmosInvocation.server_create_channel m = get_server_create_channel m
get_label SmosInvocation.channel_open m = get_channel_open m
get_label SmosInvocation.window_deregister m = get_window_deregister m
get_label SmosInvocation.page_map m = get_page_map m
get_label SmosInvocation.conn_create m = get_conn_create m
get_label SmosInvocation.conn_publish m = get_conn_publish m
get_label SmosInvocation.obj_create m = get_obj_create m
get_label SmosInvocation.obj_open m = get_obj_open m
get_label SmosInvocation.obj_stat m = get_obj_stat m
get_label SmosInvocation.view m = get_view m
get_label SmosInvocation.unview m = get_unview m
get_label SmosInvocation.conn_destroy m = get_conn_destroy m
get_label SmosInvocation.conn_deregister m = get_conn_deregister m
get_label SmosInvocation.load_complete m = get_load_complete m
get_label SmosInvocation.conn_open m = get_conn_open m
get_label SmosInvocation.conn_close m = done Invocation.conn_close
get_label SmosInvocation.conn_register m = get_conn_register m
get_label SmosInvocation.irq_register m = get_irq_register m
get_label SmosInvocation.reply_create m = done Invocation.reply_create
get_label SmosInvocation.server_handle_cap_create m = get_server_handle_cap_create m
get_label SmosInvocation.proc_spawn m = get_proc_spawn m
get_label SmosInvocation.proc_wait m = get_proc_wait m
get_label SmosInvocation.proc_exit m = done Invocation.process_exit
get_label _ m = panic

-- A capability arrived in the receive slot: not every capability of the message was unwrapped.
unfoldable pub consumes : (extra_caps caps_unwrapped : ℕ) → Bool
consumes extra_caps caps_unwrapped =
    ltb 0 extra_caps && not (bit_and caps_unwrapped (bit extra_caps - 1) == (bit extra_caps - 1))

unfoldable pub consumed_recv_slot : ReceivedInfo → Bool
unfolding consumes
consumed_recv_slot info = consumes info.extra_caps info.caps_unwrapped

-- Only some invocations may carry a capability in the receive slot.
unfoldable pub get_checked : Option SmosInvocation → Request → Bool → Decode Invocation
unfolding get_label
get_checked none m consumed = refuse invalid_invocation
get_checked (some label) m consumed =
    if not (can_contain_wrapped_cap label) && consumed
    then refuse invalid_arguments
    else get_label label m

unfoldable pub get_with : Request → Bool → Decode Invocation
unfolding get_checked
get_with m consumed = get_checked (try_from_u64 m.info.label) m consumed

abbrev pub with_slot : Bool → Decode Invocation → Run (Result InvocationError Invocation × Bool)
with_slot consumed (ret out) = ret (out, consumed)
with_slot consumed panic = panic

unfoldable pub get_supported :
    ServerConnection
    → Option SmosInvocation
    → Request
    → Bool
    → Run (Result InvocationError Invocation × Bool)
unfolding get_with
get_supported server none m consumed = ret (err invalid_invocation, consumed)
get_supported server (some label) m consumed =
    if not (is_supported server label)
    then ret (err (unsupported_invocation label), consumed)
    else with_slot consumed (get_with m consumed)

-- The result, and whether the receive slot is taken.
unfoldable pub get_from_ipc_buffer :
    ServerConnection → Request → Run (Result InvocationError Invocation × Bool)
unfolding get_supported
get_from_ipc_buffer server m =
    get_supported server (try_from_u64 m.info.label) m (consumed_recv_slot m.info)
