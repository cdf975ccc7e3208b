-- ===== src/Syscall/Serve.antt =====
-- crates/smos-server/src/event.rs: how a server decodes an invocation, and what it does with the
-- receive slot and the reply afterwards.
pub mod Refusal
pub mod Slot
use smos_thesis.Base.{
  Bool, true, false, not, Option, none, some, List, ℕ, Result, ok, err, Run, ret, panic,
  if◌then◌else◌,
}
use smos_thesis.Common.Errors.{InvocationError}
use smos_thesis.Server.Errors.{handle_error}
use smos_thesis.Server.Message.{IpcBuffer, MessageInfo}
use smos_thesis.Server.Reply.{SmosReply, handle_reply}
use smos_thesis.Syscall.GetWith.{ServerConnection, get_from_ipc_buffer}
use smos_thesis.Syscall.Invocation.{Invocation, contains_cap}
use smos_thesis.Syscall.Request.{ReceivedInfo}

-- The server's IPC buffer with its receive slot, and the rest of the system.
pub record Receiver (World : Type 0) : Type 0 where
  pub ipc : IpcBuffer
  pub recv_slot : ℕ
  pub world : World

-- The deletion of the capability in a slot, which may fail.
pub record Slots (World : Type 0) : Type 0 where
  pub delete : ℕ → World → Bool × World

module _ {World : Type 0} where
  -- `recv_slot.delete().expect(..)`
  unfoldable pub delete_slot : Slots World → ℕ → Receiver World → Run (Receiver World)
  delete_slot s slot r =
      let (deleted, world) = s.delete slot r.world in
      if deleted then ret (record r { world = world }) else panic

  abbrev written :
      Receiver World → Run (IpcBuffer × MessageInfo) → Run (Option MessageInfo × Receiver World)
  written r (ret (ipc, info)) = ret (some info, record r { ipc = ipc })
  written r panic = panic

  abbrev pub refused :
      InvocationError
      → Run (Receiver World)
      → ℕ
      → Run (Result (Option MessageInfo) Invocation × Receiver World)
  refused e panic slot = panic
  refused e (ret r) slot = elim (handle_error r.ipc e) [
    | panic ↦ panic
    | ret (ipc, info) ↦ ret (err (some info), record r { ipc = ipc; recv_slot = slot })
  ]

  unfoldable pub decoded_or_refused :
      Slots World
      → ℕ
      → Receiver World
      → Run (Result InvocationError Invocation × Bool)
      → Run (Result (Option MessageInfo) Invocation × Receiver World)
  unfolding delete_slot
  decoded_or_refused s recv_slot r panic = panic
  decoded_or_refused s recv_slot r (ret (ok inv, consumed)) = ret (ok inv, r)
  decoded_or_refused s recv_slot r (ret (err e, consumed)) =
      refused e (if consumed then delete_slot s recv_slot r else ret r) recv_slot

  -- An error is answered at once, and a capability that came with it deleted.
  unfoldable pub smos_serv_decode_invocation :
      Slots World
      → ServerConnection
      → ReceivedInfo
      → ℕ
      → Option (List ℕ)
      → Receiver World
      → Run (Result (Option MessageInfo) Invocation × Receiver World)
  unfolding decoded_or_refused
  smos_serv_decode_invocation s server msg recv_slot data_buffer r =
      decoded_or_refused s recv_slot r (
        get_from_ipc_buffer server
          (record { info = msg; ipcbuf = r.ipc; data_buffer = data_buffer; recv_slot = recv_slot }))

  abbrev pub answered :
      Result InvocationError SmosReply
      → Run (Receiver World)
      → Run (Option MessageInfo × Receiver World)
  answered out panic = panic
  answered (ok reply) (ret r) = written r (handle_reply r.ipc reply)
  answered (err e) (ret r) = written r (handle_error r.ipc e)

  -- The receive slot is emptied if the invocation holds its capability.
  unfoldable pub smos_serv_cleanup :
      Slots World
      → Invocation
      → ℕ
      → Result InvocationError SmosReply
      → Receiver World
      → Run (Option MessageInfo × Receiver World)
  unfolding delete_slot
  smos_serv_cleanup s inv recv_slot out r = answered out (
      if contains_cap inv
      then elim (delete_slot s recv_slot r) [
        | panic ↦ panic
        | ret r' ↦ ret (record r' { recv_slot = recv_slot })
      ]
      else ret r)
