-- ===== src/Syscall/Client/Root.antt =====
-- crates/smos-common/src/syscall.rs: the client's calls of the root server for connections, windows
-- and interrupts.
use smos_thesis.Base.{ℕ, Bool, not, List, [], Option, is_none, ltb, ◌==◌}
use smos_thesis.Common.Invocations.{SmosInvocation}
use smos_thesis.Server.Message.{MessageInfo}
use smos_thesis.Server.Reply.{HandleOrHandleCap, handle, handle_cap}
use smos_thesis.UserCspace.{SmosUserCSpace}
use smos_thesis.Syscall.Request.{ReceivedInfo}
use smos_thesis.Syscall.Client.{
  Services, Ipc, done, ◌>>=◌, ◌>>◌, set_msg, set_cap, msg_reg, set_recv_slot, set_return_cap, check,
  shared_buf, put_name, send, send_hndl, one_cap, returned_hndl, delete_and_free, invoke, number,
}

module _ {World : Type 0} where
  unfoldable pub conn_create_request : ℕ → List ℕ → Ipc World MessageInfo
  conn_create_request slot server_name = do
    bytes ← shared_buf
    _ ← put_name [] bytes server_name
    set_recv_slot slot
    send SmosInvocation.conn_create 0 0

  unfoldable pub conn_create_reply : ℕ → ReceivedInfo → Ipc World (ℕ × ℕ)
  conn_create_reply slot msginfo = do check (one_cap msginfo); hndl ← msg_reg 0; done (hndl, slot)

  unfoldable pub conn_create : Services World → ℕ → List ℕ → Ipc World (ℕ × ℕ)
  unfolding conn_create_request conn_create_reply invoke
  conn_create s slot server_name =
      invoke s (conn_create_request slot server_name) (conn_create_reply slot)

  unfoldable pub conn_register_request : ℕ → ℕ → Ipc World MessageInfo
  conn_register_request publish_hndl id = do
    set_msg 0 publish_hndl
    set_msg 1 id
    send SmosInvocation.conn_register 2 0

  unfoldable pub conn_register_reply : ReceivedInfo → Ipc World ℕ
  conn_register_reply msginfo = do idx ← msg_reg 0; done idx

  unfoldable pub conn_register : Services World → ℕ → ℕ → Ipc World ℕ
  unfolding conn_register_request conn_register_reply invoke
  conn_register s publish_hndl id =
      invoke s (conn_register_request publish_hndl id) (conn_register_reply)

  unfoldable pub irq_register_request : ℕ → ℕ → Bool → ℕ → Ipc World MessageInfo
  irq_register_request publish_hndl irq_num edge_triggered slot = do
    set_msg 0 publish_hndl
    set_msg 1 irq_num
    set_msg 2 (number edge_triggered)
    set_recv_slot slot
    send SmosInvocation.irq_register 3 0

  -- The bit is a `u8`, and its conversion an `unwrap`.
  unfoldable pub irq_register_reply : ℕ → ReceivedInfo → Ipc World (ℕ × ℕ × ℕ)
  irq_register_reply slot msginfo = do
    check (msginfo.extra_caps == 1)
    check (msginfo.caps_unwrapped == 0)
    hndl ← msg_reg 0
    badge_bit ← msg_reg 1
    check (ltb badge_bit 256)
    done (hndl, badge_bit, slot)

  unfoldable pub irq_register : Services World → ℕ → ℕ → Bool → ℕ → Ipc World (ℕ × ℕ × ℕ)
  unfolding irq_register_request irq_register_reply invoke
  irq_register s publish_hndl irq_num edge_triggered slot =
      invoke s (irq_register_request publish_hndl irq_num edge_triggered slot)
        (irq_register_reply slot)

  unfoldable pub conn_deregister_request : ℕ → Ipc World MessageInfo
  conn_deregister_request reg_hndl = do set_msg 0 reg_hndl; send SmosInvocation.conn_deregister 1 0

  unfoldable pub conn_deregister : Services World → ℕ → Ipc World (Unit {0})
  unfolding conn_deregister_request invoke
  conn_deregister s reg_hndl = invoke s (conn_deregister_request reg_hndl) (λ msginfo. done tt)

  unfoldable pub conn_publish_request : ℕ → ℕ → List ℕ → Ipc World MessageInfo
  conn_publish_request ntfn_buffer slot name = do
    bytes ← shared_buf
    _ ← put_name [] bytes name
    set_recv_slot slot
    set_msg 0 ntfn_buffer
    send SmosInvocation.conn_publish 1 0

  unfoldable pub conn_publish_reply : ℕ → ReceivedInfo → Ipc World (ℕ × ℕ)
  conn_publish_reply slot msginfo = do hndl ← msg_reg 0; done (hndl, slot)

  unfoldable pub conn_publish : Services World → ℕ → ℕ → List ℕ → Ipc World (ℕ × ℕ)
  unfolding conn_publish_request conn_publish_reply invoke
  conn_publish s ntfn_buffer slot name =
      invoke s (conn_publish_request ntfn_buffer slot name) (conn_publish_reply slot)

  unfoldable pub conn_destroy_request : ℕ → Ipc World MessageInfo
  conn_destroy_request hndl = do set_msg 0 hndl; send SmosInvocation.conn_destroy 1 0

  unfoldable pub conn_destroy_reply :
      Services World → ℕ → SmosUserCSpace → ReceivedInfo → Ipc World SmosUserCSpace
  conn_destroy_reply s ep cspace msginfo = delete_and_free s ep cspace

  unfoldable pub conn_destroy : Services World → ℕ → ℕ → SmosUserCSpace → Ipc World SmosUserCSpace
  unfolding conn_destroy_request conn_destroy_reply invoke
  conn_destroy s hndl ep cspace =
      invoke s (conn_destroy_request hndl) (conn_destroy_reply s ep cspace)

  unfoldable pub test_simple_request : ℕ → Ipc World MessageInfo
  test_simple_request msg = do set_msg 0 msg; send SmosInvocation.test_simple 1 0

  unfoldable pub test_simple : Services World → ℕ → Ipc World (Unit {0})
  unfolding test_simple_request invoke
  test_simple s msg = invoke s (test_simple_request msg) (λ msginfo. done tt)

  unfoldable pub window_create_request : ℕ → ℕ → Option ℕ → Ipc World MessageInfo
  window_create_request base_vaddr size return_cap = do
    set_msg 0 base_vaddr
    set_msg 1 size
    set_msg 2 (number (not (is_none return_cap)))
    set_return_cap return_cap
    send SmosInvocation.window_create 3 0

  unfoldable pub window_create_reply : Option ℕ → ReceivedInfo → Ipc World HandleOrHandleCap
  window_create_reply return_cap msginfo = returned_hndl return_cap msginfo

  unfoldable pub window_create : Services World → ℕ → ℕ → Option ℕ → Ipc World HandleOrHandleCap
  unfolding window_create_request window_create_reply invoke
  window_create s base_vaddr size return_cap =
      invoke s (window_create_request base_vaddr size return_cap) (window_create_reply return_cap)

  unfoldable pub window_register_request : ℕ → ℕ → ℕ → ℕ → Ipc World MessageInfo
  window_register_request publish_hndl window_hndl_cap client_id reference = do
    set_msg 0 publish_hndl
    set_msg 1 client_id
    set_msg 2 reference
    set_cap 0 window_hndl_cap
    send SmosInvocation.window_register 3 1

  unfoldable pub window_register_reply : ReceivedInfo → Ipc World ℕ
  window_register_reply msginfo = do idx ← msg_reg 0; done idx

  unfoldable pub window_register : Services World → ℕ → ℕ → ℕ → ℕ → Ipc World ℕ
  unfolding window_register_request window_register_reply invoke
  window_register s publish_hndl window_hndl_cap client_id reference =
      invoke s (window_register_request publish_hndl window_hndl_cap client_id reference)
        (window_register_reply)

  unfoldable pub window_deregister_request : ℕ → Ipc World MessageInfo
  window_deregister_request win_reg_hndl = do
    set_msg 0 win_reg_hndl
    send SmosInvocation.window_deregister 1 0

  unfoldable pub window_deregister : Services World → ℕ → Ipc World (Unit {0})
  unfolding window_deregister_request invoke
  window_deregister s win_reg_hndl =
      invoke s (window_deregister_request win_reg_hndl) (λ msginfo. done tt)

  unfoldable pub page_map_request : ℕ → ℕ → ℕ → Ipc World MessageInfo
  page_map_request win_reg_hndl view_offset content_vaddr = do
    set_msg 0 win_reg_hndl
    set_msg 1 view_offset
    set_msg 2 content_vaddr
    send SmosInvocation.page_map 3 0

  unfoldable pub page_map : Services World → ℕ → ℕ → ℕ → Ipc World (Unit {0})
  unfolding page_map_request invoke
  page_map s win_reg_hndl view_offset content_vaddr =
      invoke s (page_map_request win_reg_hndl view_offset content_vaddr) (λ msginfo. done tt)

  -- The slot of a handle capability that was destroyed is freed.
  unfoldable pub free_hndl_cap :
      Services World → HandleOrHandleCap → SmosUserCSpace → Ipc World SmosUserCSpace
  free_hndl_cap s (handle_cap cptr) cspace = delete_and_free s cptr cspace
  free_hndl_cap s (handle idx) cspace = done cspace

  unfoldable pub window_destroy_request : HandleOrHandleCap → Ipc World MessageInfo
  window_destroy_request hndl = send_hndl SmosInvocation.window_destroy hndl

  unfoldable pub window_destroy_reply :
      Services World → HandleOrHandleCap → SmosUserCSpace → ReceivedInfo → Ipc World SmosUserCSpace
  window_destroy_reply s hndl cspace msginfo = free_hndl_cap s hndl cspace

  unfoldable pub window_destroy :
      Services World → HandleOrHandleCap → SmosUserCSpace → Ipc World SmosUserCSpace
  unfolding window_destroy_request window_destroy_reply invoke
  window_destroy s hndl cspace =
      invoke s (window_destroy_request hndl) (window_destroy_reply s hndl cspace)
