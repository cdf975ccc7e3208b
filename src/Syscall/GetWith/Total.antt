-- ===== src/Syscall/GetWith/Total.antt =====
-- Which messages a server decodes without a panic.
mod Arms
use smos_thesis.Base.{
  ℕ, zero, suc, ◌≤◌, ◌<◌, ◌≡◌, ◌≢◌, refl, Bool, true, false, List, [], ◌∷◌, Option, none, some, inl,
  inr, arith, Run, Result, ret, panic, length, get_elem?, Option-cases, get_elem?-some, Run-cases,
  Result-cases, two_of, sym, ap, ◌∙◌,
}
use smos_thesis.Common.Errors.{InvocationError}
use smos_thesis.Syscall.Invocation.{Invocation}
use smos_thesis.Common.Invocations.{SmosInvocation, try_from_u64, into_u64, try_from_u64-into_u64}
use smos_thesis.Syscall.Decode.{
  get_window_create, unwrapped_or_handle, get_window_destroy, get_obj_close, get_obj_destroy,
  get_sddf_channel_register_bidirectional, get_sddf_channel_register_receive_only,
  get_sddf_queue_register, get_sddf_provide_data_region, get_window_register,
  get_server_create_channel, get_channel_open, get_window_deregister, get_page_map, get_conn_create,
  get_conn_publish,
}
use smos_thesis.Syscall.Decode.Objects.{
  get_obj_create, get_obj_open, get_obj_stat, get_view, get_view_window, get_view_object,
  get_unview, get_conn_destroy, get_conn_deregister, get_load_complete, get_conn_open,
  get_conn_register, get_irq_register, get_server_handle_cap_create, get_proc_spawn, get_proc_wait,
  read_args,
}
use smos_thesis.Syscall.GetWith.{
  ServerConnection, root_server_connection, object_server_connection, sddf_connection, is_supported,
  get_label, get_checked, get_with, get_supported, get_from_ipc_buffer, consumed_recv_slot,
  with_slot,
}
use smos_thesis.Syscall.RoundTrip.{get_with_checked, consumed-none}
use smos_thesis.Syscall.Text.{rust_str_from_buffer}
use smos_thesis.Syscall.Request.{Request}
use smos_thesis.Syscall.GetWith.Total.Arms.{get_label-ne-panic, Words, IsAnswered}

module _ (m : Request) {r0 r1 r2 r3 r4 r5 k0 k1 : ℕ} (w : Words m r0 r1 r2 r3 r4 r5 k0 k1) where
  get_supported-ne-panic :
      (server : ServerConnection) (label : Option SmosInvocation) (consumed : Bool)
      → try_from_u64 m.info.label ≡ label
      → IsAnswered label m
      → get_supported server label m consumed ≢ panic
  unfolding get_supported
  get_supported-ne-panic server none consumed known a e = cc
  get_supported-ne-panic server (some l) consumed known a e =
      ground (arith, known, get_label-ne-panic m w server l, a)

all_reads :
    (m : Request)
    → 6 ≤ length m.ipcbuf.msg_regs
    → 2 ≤ length m.ipcbuf.caps_or_badges
    → (r0 r1 r2 r3 r4 r5 k0 k1 : ℕ) × Words m r0 r1 r2 r3 r4 r5 k0 k1
all_reads m h k =
    let reg =
      λ (i : ℕ) (lt : i < length m.ipcbuf.msg_regs). get_elem?-some m.ipcbuf.msg_regs i lt in
    let cap = λ (i : ℕ) (lt : i < length m.ipcbuf.caps_or_badges).
      get_elem?-some m.ipcbuf.caps_or_badges i lt in
    let (r0, e0) = reg 0 (omega arith) in
    let (r1, e1) = reg 1 (omega arith) in
    let (r2, e2) = reg 2 (omega arith) in
    let (r3, e3) = reg 3 (omega arith) in
    let (r4, e4) = reg 4 (omega arith) in
    let (r5, e5) = reg 5 (omega arith) in
    let (k0, b0) = cap 0 (omega arith) in
    let (k1, b1) = cap 1 (omega arith) in
    (
      r0,
      r1,
      r2,
      r3,
      r4,
      r5,
      k0,
      k1,
      record { e0 = e0; e1 = e1; e2 = e2; e3 = e3; e4 = e4; e5 = e5; b0 = b0; b1 = b1 },
    )

-- Whatever a client sends, a server decodes it or refuses it with an error, unless the label is
-- `TestSimple`, a `ConnRegister` has another length than two, or a `ProcSpawn` a priority that is
-- no byte: no other message makes the server panic.
pub get_from_ipc_buffer-returns :
    (server : ServerConnection) (m : Request)
    → 6 ≤ length m.ipcbuf.msg_regs
    → 2 ≤ length m.ipcbuf.caps_or_badges
    → IsAnswered (try_from_u64 m.info.label) m
    → (out : Result InvocationError Invocation) × (consumed : Bool) × (get_from_ipc_buffer server m
        ≡ ret (out, consumed))
unfolding get_from_ipc_buffer
get_from_ipc_buffer-returns server m h k a =
    let (r0, r1, r2, r3, r4, r5, k0, k1, w) = all_reads m h k in
    elim (Run-cases (get_from_ipc_buffer server m)) [
      | inl e ↦ absurd (get_supported-ne-panic m w server _ _ refl a e)
      | inr (out, e) ↦ (out.0, out.1, e)
    ]

arm_panics :
    (m : Request)
    → m.info.msg_length ≢ 2
    → consumed_recv_slot m.info ≡ false
    → get_checked (some SmosInvocation.conn_register) m (consumed_recv_slot m.info) ≡ panic
unfolding get_checked get_label get_conn_register
arm_panics m other free = ground (arith, free)

-- A `ConnRegister` without a capability and of another length than two makes the root server panic.
pub conn_register_panics :
    (m : Request)
    → m.info.label ≡ into_u64 SmosInvocation.conn_register
    → m.info.msg_length ≢ 2
    → m.info.extra_caps ≡ 0
    → get_from_ipc_buffer root_server_connection m ≡ panic
unfolding get_from_ipc_buffer get_supported is_supported
conn_register_panics m label other none_came =
    ap (λ o. get_supported root_server_connection o m (consumed_recv_slot m.info))
      (ap try_from_u64 label ∙ try_from_u64-into_u64 SmosInvocation.conn_register)
    ∙ ap (with_slot (consumed_recv_slot m.info)) (
        get_with_checked m (consumed_recv_slot m.info) SmosInvocation.conn_register label
        ∙ arm_panics m other (consumed-none m none_came))
