-- ===== src/Syscall/RoundTrip/Handles.antt =====
-- Round trips of the calls that name one object by a handle or a capability, and of `conn_open`.
use smos_thesis.Base.{ℕ, Option-cases, inl, inr, refl, List, Option, none, some, arith, length}
use smos_thesis.Common.Invocations.{SmosInvocation, can_contain_wrapped_cap}
use smos_thesis.Server.Reply.{HandleOrHandleCap, handle, handle_cap}
use smos_thesis.Syscall.Client.{message, send_hndl}
use smos_thesis.Syscall.Client.Root.{window_destroy_request}
use smos_thesis.Syscall.Client.Servers.{conn_close_request, conn_open_request}
use smos_thesis.Syscall.Client.Objects.{
  obj_create_request, obj_close_request, obj_destroy_request, obj_stat_request, unview_request,
}
use smos_thesis.Syscall.Decode.{get_obj_close, get_obj_destroy, get_window_destroy}
use smos_thesis.Syscall.Decode.Objects.{get_obj_create, get_conn_open, get_obj_stat, get_unview}
use smos_thesis.Syscall.GetWith.{get_label}
use smos_thesis.Syscall.Call.{Call, request, label_of, decoded, IsUnwrapped}
use smos_thesis.Syscall.RoundTrip.{
  Carries, client, get_plain, get_unwrapped, get_carrier, cap_unwrapped-mask,
}

module _ (arrives : ℕ → Option ℕ) {World : Type 0} (r0 r1 r2 r3 r4 r5 : ℕ) (rs : List ℕ) (c0 c1 : ℕ)
    (cs : List ℕ) (slot : ℕ) (buf : Option (List ℕ)) (w : World) where
  pub window_destroy-Carries :
      (hndl : HandleOrHandleCap)
      → IsUnwrapped arrives hndl
      → Carries arrives
          (client r0 r1 r2 r3 r4 r5 rs c0 c1 cs slot buf w)
          (request (Call.window_destroy hndl))
          (label_of (Call.window_destroy hndl))
          (λ m. decoded arrives m.recv_slot (Call.window_destroy hndl))
  unfolding window_destroy_request get_label can_contain_wrapped_cap get_window_destroy send_hndl
  window_destroy-Carries (handle idx) _ = record {
    info = message SmosInvocation.window_destroy 1 0;
    labelled = refl;
    after = client idx r1 r2 r3 r4 r5 rs c0 c1 cs slot buf w;
    sent = refl;
    received = λ m t.
        get_plain m SmosInvocation.window_destroy t.label (t.caps (omega arith))
          (ground (arith, t.msg_length, t.regs 0 idx (omega arith) refl));
  }
  window_destroy-Carries (handle_cap cptr) (badge, e) = record {
    info = message SmosInvocation.window_destroy 0 1;
    labelled = refl;
    after = client r0 r1 r2 r3 r4 r5 rs cptr c1 cs slot buf w;
    sent = refl;
    received = λ m t.
        get_unwrapped m SmosInvocation.window_destroy t.label (ground (arith, e, t.caps))
          (ground (arith, e, t.unwrapped))
          (ground (
            arith,
            t.msg_length,
            t.caps,
            t.unwrapped,
            t.badges 0 cptr badge (omega arith) refl e,
            e,
          ));
  }

  pub obj_close-Carries :
      (hndl : HandleOrHandleCap)
      → IsUnwrapped arrives hndl
      → Carries arrives
          (client r0 r1 r2 r3 r4 r5 rs c0 c1 cs slot buf w)
          (request (Call.obj_close hndl))
          (label_of (Call.obj_close hndl))
          (λ m. decoded arrives m.recv_slot (Call.obj_close hndl))
  unfolding obj_close_request get_label can_contain_wrapped_cap get_obj_close send_hndl
  obj_close-Carries (handle idx) _ = record {
    info = message SmosInvocation.obj_close 1 0;
    labelled = refl;
    after = client idx r1 r2 r3 r4 r5 rs c0 c1 cs slot buf w;
    sent = refl;
    received = λ m t.
        get_plain m SmosInvocation.obj_close t.label (t.caps (omega arith))
          (ground (arith, t.msg_length, t.regs 0 idx (omega arith) refl));
  }
  obj_close-Carries (handle_cap cptr) (badge, e) = record {
    info = message SmosInvocation.obj_close 0 1;
    labelled = refl;
    after = client r0 r1 r2 r3 r4 r5 rs cptr c1 cs slot buf w;
    sent = refl;
    received = λ m t.
        get_unwrapped m SmosInvocation.obj_close t.label (ground (arith, e, t.caps))
          (ground (arith, e, t.unwrapped))
          (ground (
            arith,
            t.msg_length,
            t.caps,
            t.unwrapped,
            t.badges 0 cptr badge (omega arith) refl e,
            e,
          ));
  }

  pub obj_destroy-Carries :
      (hndl : HandleOrHandleCap)
      → IsUnwrapped arrives hndl
      → Carries arrives
          (client r0 r1 r2 r3 r4 r5 rs c0 c1 cs slot buf w)
          (request (Call.obj_destroy hndl))
          (label_of (Call.obj_destroy hndl))
          (λ m. decoded arrives m.recv_slot (Call.obj_destroy hndl))
  unfolding obj_destroy_request get_label can_contain_wrapped_cap get_obj_destroy send_hndl
  obj_destroy-Carries (handle idx) _ = record {
    info = message SmosInvocation.obj_destroy 1 0;
    labelled = refl;
    after = client idx r1 r2 r3 r4 r5 rs c0 c1 cs slot buf w;
    sent = refl;
    received = λ m t.
        get_plain m SmosInvocation.obj_destroy t.label (t.caps (omega arith))
          (ground (arith, t.msg_length, t.regs 0 idx (omega arith) refl));
  }
  obj_destroy-Carries (handle_cap cptr) (badge, e) = record {
    info = message SmosInvocation.obj_destroy 0 1;
    labelled = refl;
    after = client r0 r1 r2 r3 r4 r5 rs cptr c1 cs slot buf w;
    sent = refl;
    received = λ m t.
        get_unwrapped m SmosInvocation.obj_destroy t.label (ground (arith, e, t.caps))
          (ground (arith, e, t.unwrapped))
          (ground (
            arith,
            t.msg_length,
            t.caps,
            t.unwrapped,
            t.badges 0 cptr badge (omega arith) refl e,
            e,
          ));
  }

  pub obj_stat-Carries :
      (hndl : HandleOrHandleCap)
      → IsUnwrapped arrives hndl
      → Carries arrives
          (client r0 r1 r2 r3 r4 r5 rs c0 c1 cs slot buf w)
          (request (Call.obj_stat hndl))
          (label_of (Call.obj_stat hndl))
          (λ m. decoded arrives m.recv_slot (Call.obj_stat hndl))
  unfolding obj_stat_request get_label can_contain_wrapped_cap get_obj_stat send_hndl
  obj_stat-Carries (handle idx) _ = record {
    info = message SmosInvocation.obj_stat 1 0;
    labelled = refl;
    after = client idx r1 r2 r3 r4 r5 rs c0 c1 cs slot buf w;
    sent = refl;
    received = λ m t.
        get_plain m SmosInvocation.obj_stat t.label (t.caps (omega arith))
          (ground (arith, t.msg_length, t.regs 0 idx (omega arith) refl));
  }
  obj_stat-Carries (handle_cap cptr) (badge, e) = record {
    info = message SmosInvocation.obj_stat 0 1;
    labelled = refl;
    after = client r0 r1 r2 r3 r4 r5 rs cptr c1 cs slot buf w;
    sent = refl;
    received = λ m t.
        get_unwrapped m SmosInvocation.obj_stat t.label (ground (arith, e, t.caps))
          (ground (arith, e, t.unwrapped))
          (ground (
            arith,
            t.msg_length,
            t.caps,
            t.unwrapped,
            t.badges 0 cptr badge (omega arith) refl e,
            e,
          ));
  }

  pub unview-Carries :
      (hndl : ℕ)
      → Carries arrives
          (client r0 r1 r2 r3 r4 r5 rs c0 c1 cs slot buf w)
          (request (Call.unview hndl))
          (label_of (Call.unview hndl))
          (λ m. decoded arrives m.recv_slot (Call.unview hndl))
  unfolding unview_request get_label can_contain_wrapped_cap get_unview
  unview-Carries hndl = record {
    info = message SmosInvocation.unview 1 0;
    labelled = refl;
    after = client hndl r1 r2 r3 r4 r5 rs c0 c1 cs slot buf w;
    sent = refl;
    received = λ m t.
        get_plain m SmosInvocation.unview t.label (t.caps (omega arith))
          (ground (arith, t.msg_length, t.regs 0 hndl (omega arith) refl));
  }

  pub conn_close-Carries :
      Carries arrives
        (client r0 r1 r2 r3 r4 r5 rs c0 c1 cs slot buf w)
        (request Call.conn_close)
        (label_of Call.conn_close)
        (λ m. decoded arrives m.recv_slot Call.conn_close)
  unfolding conn_close_request get_label can_contain_wrapped_cap
  conn_close-Carries = record {
    info = message SmosInvocation.conn_close 0 0;
    labelled = refl;
    after = client r0 r1 r2 r3 r4 r5 rs c0 c1 cs slot buf w;
    sent = refl;
    received = λ m t. get_plain m SmosInvocation.conn_close t.label (t.caps (omega arith)) refl;
  }

  pub conn_open-Carries :
      (shared_buf : Option (HandleOrHandleCap × List ℕ))
      → Carries arrives
          (client r0 r1 r2 r3 r4 r5 rs c0 c1 cs slot buf w)
          (request (Call.conn_open shared_buf))
          (label_of (Call.conn_open shared_buf))
          (λ m. decoded arrives m.recv_slot (Call.conn_open shared_buf))
  unfolding conn_open_request get_label can_contain_wrapped_cap get_conn_open
  conn_open-Carries none = record {
    info = message SmosInvocation.conn_open 0 0;
    labelled = refl;
    after = client r0 r1 r2 r3 r4 r5 rs c0 c1 cs slot buf w;
    sent = refl;
    received =
        λ m t. get_carrier m SmosInvocation.conn_open t.label refl (ground (arith, t.msg_length));
  }
  conn_open-Carries (some (handle idx, buffer)) = record {
    info = message SmosInvocation.conn_open 2 0;
    labelled = refl;
    after = client idx (length buffer) r2 r3 r4 r5 rs c0 c1 cs slot buf w;
    sent = refl;
    received = λ m t. get_carrier m SmosInvocation.conn_open t.label refl (
        ground (
          arith,
          t.msg_length,
          t.regs 0 idx (omega arith) refl,
          t.regs 1 (length buffer) (omega arith) refl,
          t.caps (omega arith),
        ));
  }
  conn_open-Carries (some (handle_cap cptr, buffer)) = record {
    info = message SmosInvocation.conn_open 2 1;
    labelled = refl;
    after = client r0 (length buffer) r2 r3 r4 r5 rs cptr c1 cs slot buf w;
    sent = refl;
    received = λ m t.
        get_carrier m SmosInvocation.conn_open t.label refl (elim (Option-cases (arrives cptr)) [
          | inl e ↦ ground (
            arith,
            e,
            t.msg_length,
            t.caps,
            t.unwrapped,
            cap_unwrapped-mask m 0 0,
            t.regs 1 (length buffer) (omega arith) refl,
          )
          | inr (badge, e) ↦ ground (
            arith,
            e,
            t.msg_length,
            t.caps,
            t.unwrapped,
            cap_unwrapped-mask m 0 1,
            t.badges 0 cptr badge (omega arith) refl e,
            t.regs 1 (length buffer) (omega arith) refl,
          )
        ]);
  }

  pub obj_create-Carries :
      (size : ℕ) (rights : ℕ) (attributes : ℕ) (return_cap : Option ℕ)
      → Carries arrives
          (client r0 r1 r2 r3 r4 r5 rs c0 c1 cs slot buf w)
          (request (Call.obj_create none size rights attributes return_cap))
          (label_of (Call.obj_create none size rights attributes return_cap))
          (λ m.
            decoded arrives m.recv_slot (Call.obj_create none size rights attributes return_cap))
  unfolding obj_create_request get_label get_obj_create
  obj_create-Carries size rights attributes none = record {
    info = message SmosInvocation.obj_create 5 0;
    labelled = refl;
    after = client 0 size rights attributes 0 r5 rs c0 c1 cs slot buf w;
    sent = refl;
    received = λ m t. get_plain m SmosInvocation.obj_create t.label (t.caps (omega arith)) (
        ground (
          arith,
          t.msg_length,
          t.regs 0 0 (omega arith) refl,
          t.regs 1 size (omega arith) refl,
          t.regs 2 rights (omega arith) refl,
          t.regs 3 attributes (omega arith) refl,
          t.regs 4 0 (omega arith) refl,
        ));
  }
  obj_create-Carries size rights attributes (some return_slot) = record {
    info = message SmosInvocation.obj_create 5 0;
    labelled = refl;
    after = client 0 size rights attributes 1 r5 rs c0 c1 cs return_slot buf w;
    sent = refl;
    received = λ m t. get_plain m SmosInvocation.obj_create t.label (t.caps (omega arith)) (
        ground (
          arith,
          t.msg_length,
          t.regs 0 0 (omega arith) refl,
          t.regs 1 size (omega arith) refl,
          t.regs 2 rights (omega arith) refl,
          t.regs 3 attributes (omega arith) refl,
          t.regs 4 1 (omega arith) refl,
        ));
  }
