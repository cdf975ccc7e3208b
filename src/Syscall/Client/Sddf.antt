-- ===== src/Syscall/Client/Sddf.antt =====
-- crates/smos-common/src/syscall.rs: the client's calls of `sDDFInterface`.
use smos_thesis.Base.{ℕ, not, ◌&&◌, Option, none, some, is_none, ◌==◌}
use smos_thesis.Common.Errors.{invalid_arguments}
use smos_thesis.Common.Invocations.{SmosInvocation}
use smos_thesis.Server.Message.{MessageInfo}
use smos_thesis.Server.Reply.{HandleOrHandleCap, handle, handle_cap}
use smos_thesis.Syscall.Invocation.{QueueType, queue_into, VirtType, virt_into}
use smos_thesis.Syscall.Request.{ReceivedInfo}
use smos_thesis.Syscall.Client.{
  Services, Ipc, done, refuse, ◌>>◌, set_msg, set_cap, set_recv_slot, check, send, one_cap, invoke,
  number,
}

module _ {World : Type 0} where
  abbrev put_kind : Option VirtType → Ipc World (Unit {0})
  put_kind none = done tt
  put_kind (some kind) = set_msg 0 (virt_into kind)

  unfoldable pub sddf_channel_register_bidirectional_request :
      ℕ → Option VirtType → ℕ → Ipc World MessageInfo
  sddf_channel_register_bidirectional_request hndl_cap kind slot = do
    set_recv_slot slot
    put_kind kind
    set_cap 0 hndl_cap
    send SmosInvocation.sddf_channel_register_bidirectional (number (not (is_none kind))) 1

  unfoldable pub sddf_channel_register_bidirectional_reply : ℕ → ReceivedInfo → Ipc World ℕ
  sddf_channel_register_bidirectional_reply slot msginfo = do check (one_cap msginfo); done slot

  unfoldable pub sddf_channel_register_bidirectional :
      Services World → ℕ → Option VirtType → ℕ → Ipc World ℕ
  unfolding sddf_channel_register_bidirectional_request sddf_channel_register_bidirectional_reply
      invoke
  sddf_channel_register_bidirectional s hndl_cap kind slot =
      invoke s (sddf_channel_register_bidirectional_request hndl_cap kind slot)
        (sddf_channel_register_bidirectional_reply slot)

  unfoldable pub sddf_channel_register_recv_only_request : ℕ → Ipc World MessageInfo
  sddf_channel_register_recv_only_request hndl_cap = do
    set_cap 0 hndl_cap
    send SmosInvocation.sddf_channel_register_receive_only 0 1

  unfoldable pub sddf_channel_register_recv_only : Services World → ℕ → Ipc World (Unit {0})
  unfolding sddf_channel_register_recv_only_request invoke
  sddf_channel_register_recv_only s hndl_cap =
      invoke s (sddf_channel_register_recv_only_request hndl_cap) (λ msginfo. done tt)

  abbrev put_only_cap : HandleOrHandleCap → Ipc World (Unit {0})
  put_only_cap (handle idx) = refuse invalid_arguments
  put_only_cap (handle_cap cptr) = set_cap 0 cptr

  unfoldable pub sddf_queue_register_request :
      HandleOrHandleCap → ℕ → QueueType → Ipc World MessageInfo
  sddf_queue_register_request obj_hndl_cap size kind = do
    set_msg 0 size
    set_msg 1 (queue_into kind)
    put_only_cap obj_hndl_cap
    send SmosInvocation.sddf_queue_register 2 1

  unfoldable pub sddf_queue_register :
      Services World → HandleOrHandleCap → ℕ → QueueType → Ipc World (Unit {0})
  unfolding sddf_queue_register_request invoke
  sddf_queue_register s obj_hndl_cap size kind =
      invoke s (sddf_queue_register_request obj_hndl_cap size kind) (λ msginfo. done tt)

  unfoldable pub sddf_get_data_region_request : ℕ → Ipc World MessageInfo
  sddf_get_data_region_request slot = do
    set_recv_slot slot
    send SmosInvocation.sddf_get_data_region 0 0

  unfoldable pub sddf_get_data_region_reply : ℕ → ReceivedInfo → Ipc World HandleOrHandleCap
  sddf_get_data_region_reply slot msginfo = do
    check ((msginfo.msg_length == 0) && one_cap msginfo)
    done (handle_cap slot)

  unfoldable pub sddf_get_data_region : Services World → ℕ → Ipc World HandleOrHandleCap
  unfolding sddf_get_data_region_request sddf_get_data_region_reply invoke
  sddf_get_data_region s slot =
      invoke s (sddf_get_data_region_request slot) (sddf_get_data_region_reply slot)

  unfoldable pub sddf_data_region_provide_request : HandleOrHandleCap → ℕ → Ipc World MessageInfo
  sddf_data_region_provide_request obj size = do
    put_only_cap obj
    set_msg 0 size
    send SmosInvocation.sddf_provide_data_region 1 1

  unfoldable pub sddf_data_region_provide :
      Services World → HandleOrHandleCap → ℕ → Ipc World (Unit {0})
  unfolding sddf_data_region_provide_request invoke
  sddf_data_region_provide s obj size =
      invoke s (sddf_data_region_provide_request obj size) (λ msginfo. done tt)
