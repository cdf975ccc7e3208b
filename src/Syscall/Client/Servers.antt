-- ===== src/Syscall/Client/Servers.antt =====
-- crates/smos-common/src/syscall.rs: the client's calls for replies, processes and channels, and the
-- connections to other servers (`NonRootServerInterface`).
use smos_thesis.Base.{
  ℕ, not, ◌||◌, List, [], ◌∷◌, Option, none, some, panic, length, ltb, ◌==◌, if◌then◌else◌,
}
use smos_thesis.Common.Errors.{server_error}
use smos_thesis.Common.Invocations.{SmosInvocation}
use smos_thesis.Server.Message.{MessageInfo}
use smos_thesis.Server.Reply.{HandleOrHandleCap, handle, handle_cap}
use smos_thesis.Syscall.Request.{ReceivedInfo}
use smos_thesis.Syscall.Client.{
  Services, Ipc, done, refuse, ◌>>=◌, ◌>>◌, set_msg, set_cap, msg_reg, set_recv_slot, check,
  shared_buf, put_name, set_buf, send, one_cap, invoke,
}

abbrev pub argv_names : Option (List (List ℕ)) → List (List ℕ)
argv_names none = []
argv_names (some names) = names

module _ {World : Type 0} where
  unfoldable pub reply_create_request : ℕ → Ipc World MessageInfo
  reply_create_request return_cap = do
    set_recv_slot return_cap
    send SmosInvocation.reply_create 0 0

  unfoldable pub reply_create_reply : ℕ → ReceivedInfo → Ipc World (ℕ × ℕ)
  reply_create_reply return_cap msginfo =
      if not (one_cap msginfo) || not (msginfo.msg_length == 1)
      then refuse server_error
      else (do idx ← msg_reg 0; done (idx, return_cap))

  unfoldable pub reply_create : Services World → ℕ → Ipc World (ℕ × ℕ)
  unfolding reply_create_request reply_create_reply invoke
  reply_create s return_cap =
      invoke s (reply_create_request return_cap) (reply_create_reply return_cap)

  unfoldable pub server_handle_cap_create_request : ℕ → ℕ → ℕ → Ipc World MessageInfo
  server_handle_cap_create_request publish_hndl ident return_slot = do
    set_recv_slot return_slot
    set_msg 0 publish_hndl
    set_msg 1 ident
    send SmosInvocation.server_handle_cap_create 2 0

  unfoldable pub server_handle_cap_create_reply : ℕ → ReceivedInfo → Ipc World (ℕ × ℕ)
  server_handle_cap_create_reply return_slot msginfo =
      if not (one_cap msginfo) || not (msginfo.msg_length == 1)
      then refuse server_error
      else (do idx ← msg_reg 0; done (idx, return_slot))

  unfoldable pub server_handle_cap_create : Services World → ℕ → ℕ → ℕ → Ipc World (ℕ × ℕ)
  unfolding server_handle_cap_create_request server_handle_cap_create_reply invoke
  server_handle_cap_create s publish_hndl ident return_slot =
      invoke s (server_handle_cap_create_request publish_hndl ident return_slot)
        (server_handle_cap_create_reply return_slot)

  -- The loop over `argv`, on the slice behind what is written.
  unfoldable pub put_names : List ℕ → List ℕ → List (List ℕ) → Ipc World (List ℕ × List ℕ)
  put_names before rest [] = done (before, rest)
  put_names before rest (name ∷ names) = do
    out ← put_name before rest name
    put_names out.0 out.1 names

  unfoldable pub process_spawn_request :
      List ℕ → List ℕ → ℕ → Option (List (List ℕ)) → Ipc World MessageInfo
  process_spawn_request executable_name fs_name prio argv = do
    bytes ← shared_buf
    exec_out ← put_name [] bytes executable_name
    fs_out ← put_name exec_out.0 exec_out.1 fs_name
    _ ← put_names fs_out.0 fs_out.1 (argv_names argv)
    set_msg 0 (length (argv_names argv))
    set_msg 1 prio
    send SmosInvocation.proc_spawn 2 0

  unfoldable pub process_spawn_reply : ReceivedInfo → Ipc World ℕ
  process_spawn_reply msginfo = do idx ← msg_reg 0; done idx

  unfoldable pub process_spawn :
      Services World → List ℕ → List ℕ → ℕ → Option (List (List ℕ)) → Ipc World ℕ
  unfolding process_spawn_request process_spawn_reply invoke
  process_spawn s executable_name fs_name prio argv =
      invoke s (process_spawn_request executable_name fs_name prio argv) (process_spawn_reply)

  unfoldable pub process_wait_request : ℕ → Ipc World MessageInfo
  process_wait_request hndl = do set_msg 0 hndl; send SmosInvocation.proc_wait 1 0

  unfoldable pub process_wait : Services World → ℕ → Ipc World (Unit {0})
  unfolding process_wait_request invoke
  process_wait s hndl = invoke s (process_wait_request hndl) (λ msginfo. done tt)

  -- The call does not return; `unreachable!()` stands behind it.
  unfoldable pub process_exit_request : Ipc World MessageInfo
  process_exit_request = send SmosInvocation.proc_exit 0 0

  unfoldable pub process_exit : Services World → Ipc World (Unit {0})
  unfolding process_exit_request
  process_exit s = do info ← process_exit_request; λ c. panic

  unfoldable pub load_complete_request : ℕ → ℕ → Ipc World MessageInfo
  load_complete_request entry_point sp = do
    set_msg 0 entry_point
    set_msg 1 sp
    send SmosInvocation.load_complete 2 0

  unfoldable pub load_complete : Services World → ℕ → ℕ → Ipc World (Unit {0})
  unfolding load_complete_request invoke
  load_complete s entry_point sp =
      invoke s (load_complete_request entry_point sp) (λ msginfo. done tt)

  unfoldable pub channel_open_request : ℕ → ℕ → Ipc World MessageInfo
  channel_open_request channel_hndl_cap ntfn_slot = do
    set_recv_slot ntfn_slot
    set_cap 0 channel_hndl_cap
    send SmosInvocation.channel_open 0 1

  unfoldable pub channel_open_reply : ℕ → ReceivedInfo → Ipc World ℕ
  channel_open_reply ntfn_slot msginfo = do check (one_cap msginfo); done ntfn_slot

  unfoldable pub channel_open : Services World → ℕ → ℕ → Ipc World ℕ
  unfolding channel_open_request channel_open_reply invoke
  channel_open s channel_hndl_cap ntfn_slot =
      invoke s (channel_open_request channel_hndl_cap ntfn_slot) (channel_open_reply ntfn_slot)

  unfoldable pub server_channel_create_request : ℕ → ℕ → Ipc World MessageInfo
  server_channel_create_request publish_hndl channel_slot = do
    set_recv_slot channel_slot
    set_msg 0 publish_hndl
    send SmosInvocation.server_create_channel 1 0

  unfoldable pub server_channel_create_reply : ℕ → ReceivedInfo → Ipc World (ℕ × ℕ)
  server_channel_create_reply channel_slot msginfo = do
    check (one_cap msginfo)
    bit ← msg_reg 0
    check (ltb bit 256)
    done (bit, channel_slot)

  unfoldable pub server_channel_create : Services World → ℕ → ℕ → Ipc World (ℕ × ℕ)
  unfolding server_channel_create_request server_channel_create_reply invoke
  server_channel_create s publish_hndl channel_slot =
      invoke s (server_channel_create_request publish_hndl channel_slot)
        (server_channel_create_reply channel_slot)

  unfoldable pub conn_open_request : Option (HandleOrHandleCap × List ℕ) → Ipc World MessageInfo
  conn_open_request none = send SmosInvocation.conn_open 0 0
  conn_open_request (some (handle idx, buffer)) = do
    set_msg 0 idx
    set_msg 1 (length buffer)
    send SmosInvocation.conn_open 2 0
  conn_open_request (some (handle_cap cptr, buffer)) = do
    set_cap 0 cptr
    set_msg 1 (length buffer)
    send SmosInvocation.conn_open 2 1

  unfoldable pub conn_open_reply :
      Option (HandleOrHandleCap × List ℕ) → ReceivedInfo → Ipc World (Unit {0})
  conn_open_reply none msginfo = done tt
  conn_open_reply (some (hndl, buffer)) msginfo = set_buf (some buffer)

  unfoldable pub conn_open :
      Services World → Option (HandleOrHandleCap × List ℕ) → Ipc World (Unit {0})
  unfolding conn_open_request conn_open_reply invoke
  conn_open s shared = invoke s (conn_open_request shared) (conn_open_reply shared)

  unfoldable pub conn_close_request : Ipc World MessageInfo
  conn_close_request = send SmosInvocation.conn_close 0 0

  unfoldable pub conn_close : Services World → Ipc World (Unit {0})
  unfolding conn_close_request invoke
  conn_close s = invoke s conn_close_request (λ msginfo. set_buf none)
