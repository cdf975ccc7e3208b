-- ===== src/Syscall/Client.antt =====
-- crates/smos-common/src/syscall.rs: what the client's calls share. A call writes its request into
-- the IPC buffer, traps, decodes an error, and reads the reply.
pub mod Root
pub mod Servers
pub mod Objects
pub mod Sddf
use smos_thesis.Base.{
  ℕ, Bool, true, false, not, ◌&&◌, ◌||◌, List, [], ◌++◌, Option, none, some, Result, ok, err, Run,
  ret, panic, get_elem?, set, ◌==◌, if◌then◌else◌,
}
use smos_thesis.Common.Errors.{InvocationError, data_buffer_not_set, server_error, try_unpack_error}
use smos_thesis.Common.Invocations.{SmosInvocation, into_u64}
use smos_thesis.Server.Message.{IpcBuffer, MessageInfo, write_reg, write_cap}
use smos_thesis.Server.Reply.{HandleOrHandleCap, handle, handle_cap}
use smos_thesis.UserCspace.{SmosUserCSpace, free_slot}
use smos_thesis.Syscall.Text.{copy_terminated_rust_string_to_buffer}
use smos_thesis.Syscall.Request.{ReceivedInfo}

-- The IPC buffer with its receive slot, the contents of the buffer shared with the server
-- (`get_buf_mut`), and the rest of the system.
pub record Client (World : Type 0) : Type 0 where
  pub ipc : IpcBuffer
  pub recv_slot : ℕ
  pub buf : Option (List ℕ)
  pub world : World

-- The endpoint's `call`, which writes the reply into the IPC buffer, and the deletion of a
-- capability of the client, which may fail.
pub record Services (World : Type 0) : Type 0 where
  pub call : MessageInfo → Client World → ReceivedInfo × Client World
  pub delete : ℕ → World → Bool × World

abbrev pub Ipc : Type 0 → Type 0 → Type 0
Ipc World A = Client World → Run (Result InvocationError A × Client World)

abbrev pub number : Bool → ℕ
number true = 1
number false = 0

-- The message that the builder makes.
abbrev pub message : SmosInvocation → (length extra_caps : ℕ) → MessageInfo
message label length extra_caps = record {
  label = into_u64 label;
  msg_length = length;
  extra_caps = extra_caps;
}

-- `msginfo.extra_caps() == 1 && msginfo.caps_unwrapped() == 0`
abbrev pub one_cap : ReceivedInfo → Bool
one_cap info = (info.extra_caps == 1) && (info.caps_unwrapped == 0)

module _ {World : Type 0} where
  abbrev pub done : {A : Type 0} → A → Ipc World A
  done a c = ret (ok a, c)

  abbrev pub refuse : {A : Type 0} → InvocationError → Ipc World A
  refuse e c = ret (err e, c)

  -- The rest of a block behind a statement, which a panic or a `?` leaves.
  abbrev pub and_then :
      {A B : Type 0}
      → Run (Result InvocationError A × Client World)
      → (A → Ipc World B)
      → Run (Result InvocationError B × Client World)
  and_then (ret (ok a, c)) f = f a c
  and_then (ret (err e, c)) f = ret (err e, c)
  and_then panic f = panic

  infixl 5 ◌>>=◌ ◌>>◌
  abbrev pub ◌>>=◌ : {A B : Type 0} → Ipc World A → (A → Ipc World B) → Ipc World B
  ◌>>=◌ m f c = and_then (m c) f

  abbrev pub ◌>>◌ : {B : Type 0} → Ipc World (Unit {0}) → Ipc World B → Ipc World B
  ◌>>◌ m k c = and_then (m c) (λ _. k)

  abbrev with_ipc :
      Client World → Run IpcBuffer → Run (Result InvocationError (Unit {0}) × Client World)
  with_ipc c (ret ipc) = ret (ok tt, record c { ipc = ipc })
  with_ipc c panic = panic

  -- `ipc_buf.msg_regs_mut()[i] = v` and `ipc_buf.caps_or_badges_mut()[i] = v`
  abbrev pub set_msg : ℕ → ℕ → Ipc World (Unit {0})
  set_msg i v c = with_ipc c (write_reg c.ipc i v)

  abbrev pub set_cap : ℕ → ℕ → Ipc World (Unit {0})
  set_cap i v c = with_ipc c (write_cap c.ipc i v)

  -- `ipc_buf.msg_regs()[i]`
  abbrev pub msg_reg : ℕ → Ipc World ℕ
  msg_reg i c = elim (get_elem? c.ipc.msg_regs i) [ none ↦ panic | some v ↦ ret (ok v, c) ]

  abbrev pub set_recv_slot : ℕ → Ipc World (Unit {0})
  set_recv_slot slot c = ret (ok tt, record c { recv_slot = slot })

  -- `if return_cap.is_some() { ipc_buf.set_recv_slot(&return_cap.unwrap()) }`
  abbrev pub set_return_cap : Option ℕ → Ipc World (Unit {0})
  set_return_cap none = done tt
  set_return_cap (some slot) = set_recv_slot slot

  -- `assert!`, and the `expect` of a deletion.
  abbrev pub check : Bool → Ipc World (Unit {0})
  check true c = ret (ok tt, c)
  check false c = panic

  -- `self.get_buf_mut().ok_or(InvocationError::DataBufferNotSet)?`
  abbrev pub shared_buf : Ipc World (List ℕ)
  shared_buf c = elim c.buf [
    | none ↦ ret (err data_buffer_not_set, c)
    | some bytes ↦ ret (ok bytes, c)
  ]

  -- `shared_buf = copy_terminated_rust_string_to_buffer(shared_buf, name)?` on the slice `rest`
  -- behind the bytes `before`.
  unfoldable pub put_name : List ℕ → List ℕ → List ℕ → Ipc World (List ℕ × List ℕ)
  put_name before rest name c = elim (copy_terminated_rust_string_to_buffer rest name) [
    | err e ↦ ret (err e, c)
    | ok (written, rest') ↦
        ret (ok (before ++ written, rest'), record c { buf = some (before ++ written ++ rest') })
  ]

  abbrev pub set_buf : Option (List ℕ) → Ipc World (Unit {0})
  set_buf buf c = ret (ok tt, record c { buf = buf })

  abbrev pub send : SmosInvocation → (length extra_caps : ℕ) → Ipc World MessageInfo
  send label length extra_caps = done (message label length extra_caps)

  -- A handle goes into the first register, the slot of a handle capability into the first
  -- capability register.
  unfoldable pub send_hndl : SmosInvocation → HandleOrHandleCap → Ipc World MessageInfo
  send_hndl label (handle idx) = do set_msg 0 idx; send label 1 0
  send_hndl label (handle_cap cptr) = do set_cap 0 cptr; send label 0 1

  -- A handle capability if one was asked for, or else a handle.
  unfoldable pub returned_hndl : Option ℕ → ReceivedInfo → Ipc World HandleOrHandleCap
  returned_hndl (some slot) info =
      if not (one_cap info) then refuse server_error else done (handle_cap slot)
  returned_hndl none info =
      if not (info.msg_length == 1)
      then refuse server_error
      else (do idx ← msg_reg 0; done (handle idx))

  -- `cspace.delete(cptr).expect(..); cspace.free_slot(cptr);`
  unfoldable pub delete_and_free : Services World → ℕ → SmosUserCSpace → Ipc World SmosUserCSpace
  delete_and_free s cptr cspace c =
      let (deleted, world) = s.delete cptr c.world in
      if not deleted then panic else elim (free_slot cspace cptr) [
        | panic ↦ panic
        | ret cspace' ↦ ret (ok cspace', record c { world = world })
      ]

  -- The trap, and the `?` on `try_unpack_error`.
  unfoldable pub call_ep : Services World → MessageInfo → Ipc World ReceivedInfo
  call_ep s info c =
      let (reply, c') = s.call info c in
      elim (try_unpack_error reply.label c'.ipc.msg_regs) [
        | panic ↦ panic
        | ret (err e) ↦ ret (err e, c')
        | ret (ok _) ↦ ret (ok reply, c')
      ]

  -- A request, the call, and the reading of its reply.
  unfoldable pub invoke :
      {A : Type 0}
      → Services World
      → Ipc World MessageInfo
      → (ReceivedInfo → Ipc World A)
      → Ipc World A
  invoke s request reply = do info ← request; msginfo ← call_ep s info; reply msginfo
