-- ===== src/Syscall/Client/Objects.antt =====
-- crates/smos-common/src/syscall.rs: the client's calls for objects and views (`ObjectServerInterface`).
use smos_thesis.Base.{ℕ, ◌+◌, not, List, [], Option, none, some, is_none, ◌==◌, if◌then◌else◌}
use smos_thesis.Word.{max_word}
use smos_thesis.Common.Errors.{server_error}
use smos_thesis.Common.Invocations.{SmosInvocation}
use smos_thesis.Server.Message.{MessageInfo}
use smos_thesis.Server.Reply.{HandleOrHandleCap, handle, handle_cap, ObjStat}
use smos_thesis.UserCspace.{SmosUserCSpace}
use smos_thesis.Syscall.Request.{ReceivedInfo}
use smos_thesis.Syscall.Client.{
  Services, Ipc, done, refuse, ◌>>=◌, ◌>>◌, set_msg, set_cap, msg_reg, set_return_cap, shared_buf,
  put_name, send, send_hndl, returned_hndl, invoke, number,
}
use smos_thesis.Syscall.Client.Root.{free_hndl_cap}

module _ {World : Type 0} where
  abbrev put_optional : Option (List ℕ) → Ipc World (Unit {0})
  put_optional none = done tt
  put_optional (some name) = do bytes ← shared_buf; _ ← put_name [] bytes name; done tt

  unfoldable pub obj_create_request : Option (List ℕ) → ℕ → ℕ → ℕ → Option ℕ → Ipc World MessageInfo
  obj_create_request name_opt size rights attributes return_cap = do
    set_msg 0 (number (not (is_none name_opt)))
    put_optional name_opt
    set_msg 1 size
    set_msg 2 rights
    set_msg 3 attributes
    set_msg 4 (number (not (is_none return_cap)))
    set_return_cap return_cap
    send SmosInvocation.obj_create 5 0

  unfoldable pub obj_create_reply : Option ℕ → ReceivedInfo → Ipc World HandleOrHandleCap
  obj_create_reply return_cap msginfo = returned_hndl return_cap msginfo

  unfoldable pub obj_create :
      Services World → Option (List ℕ) → ℕ → ℕ → ℕ → Option ℕ → Ipc World HandleOrHandleCap
  unfolding obj_create_request obj_create_reply invoke
  obj_create s name_opt size rights attributes return_cap =
      invoke s (obj_create_request name_opt size rights attributes return_cap)
        (obj_create_reply return_cap)

  unfoldable pub obj_open_request : List ℕ → ℕ → Option ℕ → Ipc World MessageInfo
  obj_open_request name rights return_cap = do
    bytes ← shared_buf
    _ ← put_name [] bytes name
    set_msg 0 rights
    set_msg 1 (number (not (is_none return_cap)))
    set_return_cap return_cap
    send SmosInvocation.obj_open 3 0

  unfoldable pub obj_open_reply : Option ℕ → ReceivedInfo → Ipc World HandleOrHandleCap
  obj_open_reply return_cap msginfo = returned_hndl return_cap msginfo

  unfoldable pub obj_open : Services World → List ℕ → ℕ → Option ℕ → Ipc World HandleOrHandleCap
  unfolding obj_open_request obj_open_reply invoke
  obj_open s name rights return_cap =
      invoke s (obj_open_request name rights return_cap) (obj_open_reply return_cap)

  unfoldable pub obj_close_request : HandleOrHandleCap → Ipc World MessageInfo
  obj_close_request hndl = send_hndl SmosInvocation.obj_close hndl

  unfoldable pub obj_close : Services World → HandleOrHandleCap → Ipc World (Unit {0})
  unfolding obj_close_request invoke
  obj_close s hndl = invoke s (obj_close_request hndl) (λ msginfo. done tt)

  unfoldable pub obj_destroy_request : HandleOrHandleCap → Ipc World MessageInfo
  obj_destroy_request hndl = send_hndl SmosInvocation.obj_destroy hndl

  unfoldable pub obj_destroy_reply :
      Services World → HandleOrHandleCap → SmosUserCSpace → ReceivedInfo → Ipc World SmosUserCSpace
  obj_destroy_reply s hndl cspace msginfo = free_hndl_cap s hndl cspace

  unfoldable pub obj_destroy :
      Services World → HandleOrHandleCap → SmosUserCSpace → Ipc World SmosUserCSpace
  unfolding obj_destroy_request obj_destroy_reply invoke
  obj_destroy s hndl cspace = invoke s (obj_destroy_request hndl) (obj_destroy_reply s hndl cspace)

  unfoldable pub obj_stat_request : HandleOrHandleCap → Ipc World MessageInfo
  obj_stat_request hndl = send_hndl SmosInvocation.obj_stat hndl

  unfoldable pub obj_stat_reply : ReceivedInfo → Ipc World ObjStat
  obj_stat_reply msginfo = do
    size ← msg_reg 0
    paddr ← msg_reg 1
    done (record { size = size; paddr = if paddr == 0 then none else some paddr })

  unfoldable pub obj_stat : Services World → HandleOrHandleCap → Ipc World ObjStat
  unfolding obj_stat_request obj_stat_reply invoke
  obj_stat s hndl = invoke s (obj_stat_request hndl) (obj_stat_reply)

  -- A handle, or a capability at the place `counter` and the mark that stands for it; the new
  -- count of capabilities.
  unfoldable pub put_view_arg : ℕ → ℕ → HandleOrHandleCap → Ipc World ℕ
  put_view_arg arg counter (handle idx) = do set_msg arg idx; done counter
  put_view_arg arg counter (handle_cap cptr) = do
    set_cap counter cptr
    set_msg arg max_word
    done (counter + 1)

  unfoldable pub view_request :
      HandleOrHandleCap → HandleOrHandleCap → ℕ → ℕ → ℕ → ℕ → Ipc World MessageInfo
  unfolding put_view_arg
  view_request win obj win_offset obj_offset size rights = do
    counter ← put_view_arg 0 0 win
    extra_caps ← put_view_arg 1 counter obj
    set_msg 2 win_offset
    set_msg 3 obj_offset
    set_msg 4 size
    set_msg 5 rights
    send SmosInvocation.view 6 extra_caps

  unfoldable pub view_reply : ReceivedInfo → Ipc World ℕ
  view_reply msginfo =
      if not (msginfo.msg_length == 1) then refuse server_error else (do idx ← msg_reg 0; done idx)

  unfoldable pub view :
      Services World → HandleOrHandleCap → HandleOrHandleCap → ℕ → ℕ → ℕ → ℕ → Ipc World ℕ
  unfolding view_request view_reply invoke
  view s win obj win_offset obj_offset size rights =
      invoke s (view_request win obj win_offset obj_offset size rights) (view_reply)

  unfoldable pub unview_request : ℕ → Ipc World MessageInfo
  unview_request view_hndl = do set_msg 0 view_hndl; send SmosInvocation.unview 1 0

  unfoldable pub unview : Services World → ℕ → Ipc World (Unit {0})
  unfolding unview_request invoke
  unview s view_hndl = invoke s (unview_request view_hndl) (λ msginfo. done tt)
