-- ===== src/Syscall/Invocation.antt =====
-- crates/smos-server/src/syscalls.rs: the arguments of each invocation, as the server's handlers
-- take them. Sizes, offsets and identifiers are words; capability rights and object attributes are
-- the word inside.
use smos_thesis.Base.{ℕ, Bool, true, false, List, Option, some}
use smos_thesis.Server.Handles.{
  ServerReceivedHandleOrHandleCap, handle, unwrapped_handle_cap, wrapped_handle_cap,
}
use smos_thesis.Syscall.Handle.{ReceivedHandle, UnwrappedHandleCap, WrappedHandleCap}

-- crates/smos-common/src/sddf.rs
-- `no_queue` is `None`.
pub data QueueType : Type 0 where
  active free request response no_queue : QueueType

pub data VirtType : Type 0 where
  tx rx : VirtType

pub record WindowCreate : Type 0 where
  pub base_vaddr : ℕ
  pub size : ℕ
  pub return_cap : Bool

-- `WindowDestroy`, `ObjStat`, `ObjClose` and `ObjDestroy` hold one handle or handle capability.
pub record WindowDestroy : Type 0 where
  pub hndl : ServerReceivedHandleOrHandleCap

pub record ObjCreate : Type 0 where
  pub name : Option (List ℕ)
  pub size : ℕ
  pub rights : ℕ
  pub attributes : ℕ
  pub return_cap : Bool

pub record ObjStat : Type 0 where
  pub hndl : ServerReceivedHandleOrHandleCap

pub record ObjOpen : Type 0 where
  pub name : List ℕ
  pub rights : ℕ
  pub return_cap : Bool

pub record ObjClose : Type 0 where
  pub hndl : ServerReceivedHandleOrHandleCap

pub record ObjDestroy : Type 0 where
  pub hndl : ServerReceivedHandleOrHandleCap

pub record ConnCreate : Type 0 where
  pub name : List ℕ

pub record ConnOpen : Type 0 where
  pub shared_buf_obj : Option (ServerReceivedHandleOrHandleCap × ℕ)

pub record ConnPublish : Type 0 where
  pub ntfn_buffer : ℕ
  pub name : List ℕ

pub record ProcessSpawn : Type 0 where
  pub exec_name : List ℕ
  pub fs_name : List ℕ
  pub prio : ℕ
  pub args : Option (List (List ℕ))

pub record ProcessWait : Type 0 where
  pub hndl : ReceivedHandle

pub record ConnRegister : Type 0 where
  pub publish_hndl : ReceivedHandle
  pub client_id : ℕ

pub record ConnDeregister : Type 0 where
  pub hndl : ReceivedHandle

pub record WindowRegister : Type 0 where
  pub publish_hndl : ReceivedHandle
  pub window_hndl : UnwrappedHandleCap
  pub client_id : ℕ
  pub reference : ℕ

pub record WindowDeregister : Type 0 where
  pub hndl : ReceivedHandle

pub record View : Type 0 where
  pub window : ServerReceivedHandleOrHandleCap
  pub object : ServerReceivedHandleOrHandleCap
  pub window_offset : ℕ
  pub obj_offset : ℕ
  pub size : ℕ
  pub rights : ℕ

pub record Unview : Type 0 where
  pub hndl : ReceivedHandle

pub record PageMap : Type 0 where
  pub window_registration_hndl : ReceivedHandle
  pub view_offset : ℕ
  pub content_vaddr : ℕ

pub record ConnDestroy : Type 0 where
  pub hndl : ReceivedHandle

pub record LoadComplete : Type 0 where
  pub entry_point : ℕ
  pub sp : ℕ

pub record ServerHandleCapCreate : Type 0 where
  pub publish_hndl : ReceivedHandle
  pub ident : ℕ

pub record IrqRegister : Type 0 where
  pub publish_hndl : ReceivedHandle
  pub irq_num : ℕ
  pub edge_triggered : Bool

pub record SddfChannelRegisterBidirectional : Type 0 where
  pub channel_hndl_cap : WrappedHandleCap
  pub virt_type : Option VirtType

pub record SddfChannelRegisterRecvOnly : Type 0 where
  pub channel_hndl_cap : WrappedHandleCap

pub record ChannelOpen : Type 0 where
  pub hndl_cap : UnwrappedHandleCap

pub record SddfQueueRegister : Type 0 where
  pub hndl_cap : WrappedHandleCap
  pub size : ℕ
  pub queue_type : QueueType

pub record SddfProvideDataRegion : Type 0 where
  pub hndl_cap : WrappedHandleCap
  pub size : ℕ

pub record ServerCreateChannel : Type 0 where
  pub publish_hndl : ReceivedHandle

-- `SMOS_Invocation`
pub data Invocation : Type 0 where
  window_create : WindowCreate → Invocation
  window_destroy : WindowDestroy → Invocation
  obj_create : ObjCreate → Invocation
  obj_open : ObjOpen → Invocation
  obj_stat : ObjStat → Invocation
  obj_close : ObjClose → Invocation
  obj_destroy : ObjDestroy → Invocation
  view : View → Invocation
  unview : Unview → Invocation
  conn_create : ConnCreate → Invocation
  conn_destroy : ConnDestroy → Invocation
  conn_open : ConnOpen → Invocation
  conn_close : Invocation
  conn_publish : ConnPublish → Invocation
  conn_register : ConnRegister → Invocation
  conn_deregister : ConnDeregister → Invocation
  reply_create : Invocation
  server_handle_cap_create : ServerHandleCapCreate → Invocation
  process_spawn : ProcessSpawn → Invocation
  process_wait : ProcessWait → Invocation
  process_exit : Invocation
  window_register : WindowRegister → Invocation
  window_deregister : WindowDeregister → Invocation
  page_map : PageMap → Invocation
  load_complete : LoadComplete → Invocation
  irq_register : IrqRegister → Invocation
  sddf_channel_register_bidirectional : SddfChannelRegisterBidirectional → Invocation
  sddf_channel_register_recv_only : SddfChannelRegisterRecvOnly → Invocation
  sddf_queue_register : SddfQueueRegister → Invocation
  sddf_get_data_region : Invocation
  sddf_provide_data_region : SddfProvideDataRegion → Invocation
  server_create_channel : ServerCreateChannel → Invocation
  channel_open : ChannelOpen → Invocation

is_wrapped : ServerReceivedHandleOrHandleCap → Bool
is_wrapped (wrapped_handle_cap c) = true
is_wrapped (handle h) = false
is_wrapped (unwrapped_handle_cap c) = false

shared_buf_wrapped : Option (ServerReceivedHandleOrHandleCap × ℕ) → Bool
shared_buf_wrapped Option.none = false
shared_buf_wrapped (some (hndl, size)) = is_wrapped hndl

-- Does the decoded invocation hold the capability in the receive slot?
unfoldable pub contains_cap : Invocation → Bool
unfolding is_wrapped shared_buf_wrapped
contains_cap (Invocation.sddf_channel_register_bidirectional a) = true
contains_cap (Invocation.sddf_channel_register_recv_only a) = true
contains_cap (Invocation.sddf_queue_register a) = true
contains_cap (Invocation.sddf_provide_data_region a) = true
contains_cap (Invocation.view x) = is_wrapped x.window
contains_cap (Invocation.conn_open x) = shared_buf_wrapped x.shared_buf_obj
contains_cap _ = false

-- The numbers of the variants, and `try_into`.
abbrev pub queue_into : QueueType → ℕ
queue_into active = 0
queue_into free = 1
queue_into request = 2
queue_into response = 3
queue_into no_queue = 4

abbrev pub virt_into : VirtType → ℕ
virt_into tx = 0
virt_into rx = 1
