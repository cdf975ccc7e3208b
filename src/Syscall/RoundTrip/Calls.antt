-- ===== src/Syscall/RoundTrip/Calls.antt =====
-- Every call of a client is the invocation that the server decodes.
use mathlib.Core.Path.{subst}
use smos_thesis.Base.{
  ℕ, ◌≤◌, ◌≡◌, refl, sym, ap, ◌∙◌, two_of, Bool, true, List, [], ◌∷◌, Option, none, some, arith,
  ret, ok, length,
}
use smos_thesis.Common.Invocations.{SmosInvocation, into_u64, try_from_u64-into_u64, try_from_u64}
use smos_thesis.Server.Message.{MessageInfo}
use smos_thesis.Syscall.Call.{Call, request, label_of, decoded, Sendable, Fits}
use smos_thesis.Syscall.Client.{Client}
use smos_thesis.Syscall.GetWith.{
  ServerConnection, is_supported, get_with, get_supported, get_from_ipc_buffer, consumed_recv_slot,
}
use smos_thesis.Syscall.Invocation.{Invocation}
use smos_thesis.Syscall.Request.{Request, done}
use smos_thesis.Syscall.RoundTrip.{Carries, client}
use smos_thesis.Syscall.RoundTrip.Words
use smos_thesis.Syscall.RoundTrip.Processes
use smos_thesis.Syscall.RoundTrip.Handles
use smos_thesis.Syscall.RoundTrip.Names
use smos_thesis.Syscall.RoundTrip.Sddf
use smos_thesis.Syscall.RoundTrip.Views
use smos_thesis.Syscall.Transfer.{Transferred}

abbrev Carried : (ℕ → Option ℕ) → {World : Type 0} → Client World → Call → Type 0
Carried arrives c call =
    Carries arrives c (request call) (label_of call) (λ m. decoded arrives m.recv_slot call)

module _ (arrives : ℕ → Option ℕ) {World : Type 0} (r0 r1 r2 r3 r4 r5 : ℕ) (rs : List ℕ) (c0 c1 : ℕ)
    (cs : List ℕ) (slot : ℕ) (w : World) where
  abbrev at : Option (List ℕ) → Client World
  at buf = client r0 r1 r2 r3 r4 r5 rs c0 c1 cs slot buf w

  in_buffer :
      (call : Call) (names : List (List ℕ)) {buf : Option (List ℕ)} (f : Fits buf names)
      → Carried arrives (at (some f.bytes)) call
      → Carried arrives (at buf) call
  in_buffer call names f h = subst (λ b. Carried arrives (at b) call) (sym f.there) h

  carried :
      (buf : Option (List ℕ)) (call : Call)
      → Sendable arrives buf call
      → Carried arrives (at buf) call
  carried buf (Call.conn_register p i) _ =
      Words.conn_register-Carries arrives r0 r1 r2 r3 r4 r5 rs c0 c1 cs slot buf w p i
  carried buf (Call.conn_deregister h) _ =
      Words.conn_deregister-Carries arrives r0 r1 r2 r3 r4 r5 rs c0 c1 cs slot buf w h
  carried buf (Call.conn_destroy h) _ =
      Words.conn_destroy-Carries arrives r0 r1 r2 r3 r4 r5 rs c0 c1 cs slot buf w h
  carried buf (Call.window_deregister h) _ =
      Words.window_deregister-Carries arrives r0 r1 r2 r3 r4 r5 rs c0 c1 cs slot buf w h
  carried buf (Call.page_map h o v) _ =
      Words.page_map-Carries arrives r0 r1 r2 r3 r4 r5 rs c0 c1 cs slot buf w h o v
  carried buf (Call.window_register p x i r) (badge, e) =
      Words.window_register-Carries arrives r0 r1 r2 r3 r4 r5 rs c0 c1 cs slot buf w p x i r badge e
  carried buf (Call.load_complete e sp) _ =
      Processes.load_complete-Carries arrives r0 r1 r2 r3 r4 r5 rs c0 c1 cs slot buf w e sp
  carried buf (Call.process_wait h) _ =
      Processes.process_wait-Carries arrives r0 r1 r2 r3 r4 r5 rs c0 c1 cs slot buf w h
  carried buf Call.process_exit _ =
      Processes.process_exit-Carries arrives r0 r1 r2 r3 r4 r5 rs c0 c1 cs slot buf w
  carried buf (Call.reply_create r) _ =
      Processes.reply_create-Carries arrives r0 r1 r2 r3 r4 r5 rs c0 c1 cs slot buf w r
  carried buf (Call.server_handle_cap_create p i r) _ =
      Processes.server_handle_cap_create-Carries arrives r0 r1 r2 r3 r4 r5 rs c0 c1 cs slot buf w p
        i r
  carried buf (Call.server_channel_create p r) _ =
      Processes.server_channel_create-Carries arrives r0 r1 r2 r3 r4 r5 rs c0 c1 cs slot buf w p r
  carried buf (Call.channel_open x n) (badge, e) =
      Processes.channel_open-Carries arrives r0 r1 r2 r3 r4 r5 rs c0 c1 cs slot buf w x n badge e
  carried buf (Call.irq_register p n e r) _ =
      Processes.irq_register-Carries arrives r0 r1 r2 r3 r4 r5 rs c0 c1 cs slot buf w p n e r
  carried buf (Call.window_create b n r) _ =
      Processes.window_create-Carries arrives r0 r1 r2 r3 r4 r5 rs c0 c1 cs slot buf w b n r
  carried buf (Call.window_destroy h) u =
      Handles.window_destroy-Carries arrives r0 r1 r2 r3 r4 r5 rs c0 c1 cs slot buf w h u
  carried buf (Call.obj_close h) u =
      Handles.obj_close-Carries arrives r0 r1 r2 r3 r4 r5 rs c0 c1 cs slot buf w h u
  carried buf (Call.obj_destroy h) u =
      Handles.obj_destroy-Carries arrives r0 r1 r2 r3 r4 r5 rs c0 c1 cs slot buf w h u
  carried buf (Call.obj_stat h) u =
      Handles.obj_stat-Carries arrives r0 r1 r2 r3 r4 r5 rs c0 c1 cs slot buf w h u
  carried buf (Call.unview h) _ =
      Handles.unview-Carries arrives r0 r1 r2 r3 r4 r5 rs c0 c1 cs slot buf w h
  carried buf Call.conn_close _ =
      Handles.conn_close-Carries arrives r0 r1 r2 r3 r4 r5 rs c0 c1 cs slot buf w
  carried buf (Call.conn_open o) _ =
      Handles.conn_open-Carries arrives r0 r1 r2 r3 r4 r5 rs c0 c1 cs slot buf w o
  carried buf (Call.view v o x y n r) (f, g, u) =
      Views.view-Carries arrives r0 r1 r2 r3 r4 r5 rs c0 c1 cs slot buf w v o x y n r f g u
  carried buf (Call.sddf_channel_register_bidirectional x k r) e =
      Sddf.sddf_channel_register_bidirectional-Carries arrives r0 r1 r2 r3 r4 r5 rs c0 c1 cs slot
        buf w x k r e
  carried buf (Call.sddf_channel_register_recv_only x) e =
      Sddf.sddf_channel_register_recv_only-Carries arrives r0 r1 r2 r3 r4 r5 rs c0 c1 cs slot buf w
        x e
  carried buf (Call.sddf_queue_register x n k) e =
      Sddf.sddf_queue_register-Carries arrives r0 r1 r2 r3 r4 r5 rs c0 c1 cs slot buf w x n k e
  carried buf (Call.sddf_get_data_region r) _ =
      Sddf.sddf_get_data_region-Carries arrives r0 r1 r2 r3 r4 r5 rs c0 c1 cs slot buf w r
  carried buf (Call.sddf_data_region_provide x n) e =
      Sddf.sddf_data_region_provide-Carries arrives r0 r1 r2 r3 r4 r5 rs c0 c1 cs slot buf w x n e
  carried buf (Call.obj_create none n r a o) _ =
      Handles.obj_create-Carries arrives r0 r1 r2 r3 r4 r5 rs c0 c1 cs slot buf w n r a o
  carried buf (Call.conn_create r name) f = in_buffer (Call.conn_create r name) (name ∷ []) f (
      Names.conn_create-Carries arrives r0 r1 r2 r3 r4 r5 rs c0 c1 cs slot f.bytes w r name
        f.valid.0 (omega (arith, f.room)))
  carried buf (Call.conn_publish b r name) f =
      in_buffer (Call.conn_publish b r name) (name ∷ []) f (
        Names.conn_publish-Carries arrives r0 r1 r2 r3 r4 r5 rs c0 c1 cs slot f.bytes w b r name
          f.valid.0 (omega (arith, f.room)))
  carried buf (Call.obj_create (some name) n r a o) f =
      in_buffer (Call.obj_create (some name) n r a o) (name ∷ []) f (
        Names.obj_create_named-Carries arrives r0 r1 r2 r3 r4 r5 rs c0 c1 cs slot f.bytes w name n r
          a o f.valid.0 (omega (arith, f.room)))
  carried buf (Call.obj_open name r o) f = in_buffer (Call.obj_open name r o) (name ∷ []) f (
      Names.obj_open-Carries arrives r0 r1 r2 r3 r4 r5 rs c0 c1 cs slot f.bytes w name r o f.valid.0
        (omega (arith, f.room)))
  carried buf (Call.process_spawn e d p v) (small, n, f) =
      in_buffer (Call.process_spawn e d p v) _ f (
        Names.process_spawn-Carries arrives r0 r1 r2 r3 r4 r5 rs c0 c1 cs slot f.bytes w e d p v
          small n f.valid f.room)

six_of :
    (xs : List ℕ)
    → 6 ≤ length xs
    → (a b c d e f : ℕ) × (r : List ℕ) × (xs ≡ a ∷ b ∷ c ∷ d ∷ e ∷ f ∷ r)
six_of (a ∷ b ∷ c ∷ d ∷ e ∷ f ∷ r) h = (a, b, c, d, e, f, r, refl)
six_of [] h = absurd (omega arith)
six_of (a ∷ []) h = absurd (omega arith)
six_of (a ∷ b ∷ []) h = absurd (omega arith)
six_of (a ∷ b ∷ c ∷ []) h = absurd (omega arith)
six_of (a ∷ b ∷ c ∷ d ∷ []) h = absurd (omega arith)
six_of (a ∷ b ∷ c ∷ d ∷ e ∷ []) h = absurd (omega arith)

-- The six registers and the two capabilities that calls use are there.
pub record HasRoom {World : Type 0} (c : Client World) : Type 0 where
  pub msg_regs : 6 ≤ length c.ipc.msg_regs
  pub caps_or_badges : 2 ≤ length c.ipc.caps_or_badges

pub request-Carried :
    (arrives : ℕ → Option ℕ) {World : Type 0} (c : Client World) (call : Call)
    → HasRoom c
    → Sendable arrives c.buf call
    → Carried arrives c call
request-Carried arrives {World} c call v h =
    let (r0, r1, r2, r3, r4, r5, rs, er) = six_of c.ipc.msg_regs v.msg_regs in
    let (c0, c1, cs, ec) = two_of c.ipc.caps_or_badges v.caps_or_badges in
    subst
      (λ (regs : List ℕ).
        Carried arrives {World = World}
          (record c { ipc = record { msg_regs = regs; caps_or_badges = c.ipc.caps_or_badges } })
          call)
      (sym er)
      (subst
        (λ (caps : List ℕ).
          Carried arrives {World = World}
            (record c {
              ipc = record { msg_regs = r0 ∷ r1 ∷ r2 ∷ r3 ∷ r4 ∷ r5 ∷ rs; caps_or_badges = caps };
            })
            call)
        (sym ec) (carried arrives r0 r1 r2 r3 r4 r5 rs c0 c1 cs c.recv_slot c.world c.buf call h))

pub get_supported-decoded :
    (server : ServerConnection) (m : Request) (consumed : Bool) (label : SmosInvocation)
    {inv : Invocation}
    → m.info.label ≡ into_u64 label
    → is_supported server label ≡ true
    → get_with m consumed ≡ done inv
    → get_supported server (try_from_u64 m.info.label) m consumed ≡ ret (ok inv, consumed)
unfolding get_supported
get_supported-decoded server m consumed label e supports h =
    rw (ap try_from_u64 e, try_from_u64-into_u64 label, supports, h) refl

-- For every call but `test_simple`, made with room in the IPC buffer, whatever stands there, and with
-- arguments that suit it as `Sendable` has it (the capabilities arrive as the call means them, at most
-- one in the receive slot; the names are valid and fit the shared buffer; a priority is a byte; the
-- arguments of a process are not an empty list, and a view's handle is not 2 ^ 64 - 1): the call goes
-- out with its label; and each server that supports the label decodes every message that the kernel
-- may make of it for an empty receive slot to the invocation meant, and tells whether the slot was
-- taken.
pub get_from_ipc_buffer-request :
    (server : ServerConnection) (arrives : ℕ → Option ℕ) {World : Type 0} (c : Client World)
    (call : Call)
    → HasRoom c
    → Sendable arrives c.buf call
    → is_supported server (label_of call) ≡ true
    → (info : MessageInfo) × (after : Client World) × (request call c ≡ ret (ok info, after))
      × (info.label ≡ into_u64 (label_of call))
      × ((m : Request)
          → Transferred arrives after info m
          → get_from_ipc_buffer server m
            ≡ ret (ok (decoded arrives m.recv_slot call), consumed_recv_slot m.info))
unfolding get_from_ipc_buffer
get_from_ipc_buffer-request server arrives c call v h supports =
    let sent = request-Carried arrives c call v h in
    (
      sent.info,
      sent.after,
      sent.sent,
      sent.labelled,
      λ m t.
          get_supported-decoded server m (consumed_recv_slot m.info) (label_of call)
            (t.label ∙ sent.labelled) supports (sent.received m t),
    )
