-- ===== src/Syscall/RoundTrip/Words.antt =====
-- Round trips of the calls that send words to the root server.
use smos_thesis.Base.{ℕ, ◌≡◌, refl, List, Option, some, arith}
use smos_thesis.Common.Invocations.{SmosInvocation}
use smos_thesis.Syscall.Client.{message}
use smos_thesis.Syscall.Client.Root.{
  conn_deregister_request, conn_destroy_request, conn_register_request, page_map_request,
  window_deregister_request, window_register_request,
}
use smos_thesis.Syscall.Decode.{get_page_map, get_window_deregister, get_window_register}
use smos_thesis.Syscall.Decode.Objects.{get_conn_deregister, get_conn_destroy, get_conn_register}
use smos_thesis.Syscall.GetWith.{get_label}
use smos_thesis.Syscall.Call.{Call, request, label_of, decoded}
use smos_thesis.Syscall.RoundTrip.{Carries, client, get_plain, get_unwrapped}

module _ (arrives : ℕ → Option ℕ) {World : Type 0} (r0 r1 r2 r3 r4 r5 : ℕ) (rs : List ℕ) (c0 c1 : ℕ)
    (cs : List ℕ) (slot : ℕ) (buf : Option (List ℕ)) (w : World) where
  pub conn_register-Carries :
      (publish_hndl : ℕ) (id : ℕ)
      → Carries arrives
          (client r0 r1 r2 r3 r4 r5 rs c0 c1 cs slot buf w)
          (request (Call.conn_register publish_hndl id))
          (label_of (Call.conn_register publish_hndl id))
          (λ m. decoded arrives m.recv_slot (Call.conn_register publish_hndl id))
  unfolding conn_register_request get_label get_conn_register
  conn_register-Carries publish_hndl id = record {
    info = message SmosInvocation.conn_register 2 0;
    labelled = refl;
    after = client publish_hndl id r2 r3 r4 r5 rs c0 c1 cs slot buf w;
    sent = refl;
    received = λ m t. get_plain m SmosInvocation.conn_register t.label (t.caps (omega arith)) (
        ground (
          arith,
          t.msg_length,
          t.regs 0 publish_hndl (omega arith) refl,
          t.regs 1 id (omega arith) refl,
        ));
  }

  pub conn_deregister-Carries :
      (reg_hndl : ℕ)
      → Carries arrives
          (client r0 r1 r2 r3 r4 r5 rs c0 c1 cs slot buf w)
          (request (Call.conn_deregister reg_hndl))
          (label_of (Call.conn_deregister reg_hndl))
          (λ m. decoded arrives m.recv_slot (Call.conn_deregister reg_hndl))
  unfolding conn_deregister_request get_label get_conn_deregister
  conn_deregister-Carries reg_hndl = record {
    info = message SmosInvocation.conn_deregister 1 0;
    labelled = refl;
    after = client reg_hndl r1 r2 r3 r4 r5 rs c0 c1 cs slot buf w;
    sent = refl;
    received = λ m t.
        get_plain m SmosInvocation.conn_deregister t.label (t.caps (omega arith))
          (ground (arith, t.msg_length, t.regs 0 reg_hndl (omega arith) refl));
  }

  pub conn_destroy-Carries :
      (hndl : ℕ)
      → Carries arrives
          (client r0 r1 r2 r3 r4 r5 rs c0 c1 cs slot buf w)
          (request (Call.conn_destroy hndl))
          (label_of (Call.conn_destroy hndl))
          (λ m. decoded arrives m.recv_slot (Call.conn_destroy hndl))
  unfolding conn_destroy_request get_label get_conn_destroy
  conn_destroy-Carries hndl = record {
    info = message SmosInvocation.conn_destroy 1 0;
    labelled = refl;
    after = client hndl r1 r2 r3 r4 r5 rs c0 c1 cs slot buf w;
    sent = refl;
    received = λ m t.
        get_plain m SmosInvocation.conn_destroy t.label (t.caps (omega arith))
          (ground (arith, t.msg_length, t.regs 0 hndl (omega arith) refl));
  }

  pub window_deregister-Carries :
      (hndl : ℕ)
      → Carries arrives
          (client r0 r1 r2 r3 r4 r5 rs c0 c1 cs slot buf w)
          (request (Call.window_deregister hndl))
          (label_of (Call.window_deregister hndl))
          (λ m. decoded arrives m.recv_slot (Call.window_deregister hndl))
  unfolding window_deregister_request get_label get_window_deregister
  window_deregister-Carries hndl = record {
    info = message SmosInvocation.window_deregister 1 0;
    labelled = refl;
    after = client hndl r1 r2 r3 r4 r5 rs c0 c1 cs slot buf w;
    sent = refl;
    received = λ m t.
        get_plain m SmosInvocation.window_deregister t.label (t.caps (omega arith))
          (ground (arith, t.msg_length, t.regs 0 hndl (omega arith) refl));
  }

  pub page_map-Carries :
      (hndl : ℕ) (view_offset : ℕ) (content_vaddr : ℕ)
      → Carries arrives
          (client r0 r1 r2 r3 r4 r5 rs c0 c1 cs slot buf w)
          (request (Call.page_map hndl view_offset content_vaddr))
          (label_of (Call.page_map hndl view_offset content_vaddr))
          (λ m. decoded arrives m.recv_slot (Call.page_map hndl view_offset content_vaddr))
  unfolding page_map_request get_label get_page_map
  page_map-Carries hndl view_offset content_vaddr = record {
    info = message SmosInvocation.page_map 3 0;
    labelled = refl;
    after = client hndl view_offset content_vaddr r3 r4 r5 rs c0 c1 cs slot buf w;
    sent = refl;
    received = λ m t. get_plain m SmosInvocation.page_map t.label (t.caps (omega arith)) (
        ground (
          arith,
          t.msg_length,
          t.regs 0 hndl (omega arith) refl,
          t.regs 1 view_offset (omega arith) refl,
          t.regs 2 content_vaddr (omega arith) refl,
        ));
  }

  pub window_register-Carries :
      (publish_hndl : ℕ) (cap : ℕ) (client_id : ℕ) (reference : ℕ) (badge : ℕ)
      → arrives cap ≡ some badge
      → Carries arrives
          (client r0 r1 r2 r3 r4 r5 rs c0 c1 cs slot buf w)
          (request (Call.window_register publish_hndl cap client_id reference))
          (label_of (Call.window_register publish_hndl cap client_id reference))
          (λ m.
            decoded arrives m.recv_slot (Call.window_register publish_hndl cap client_id reference))
  unfolding window_register_request get_label get_window_register
  window_register-Carries publish_hndl cap client_id reference badge e = record {
    info = message SmosInvocation.window_register 3 1;
    labelled = refl;
    after = client publish_hndl client_id reference r3 r4 r5 rs cap c1 cs slot buf w;
    sent = refl;
    received = λ m t.
        get_unwrapped m SmosInvocation.window_register t.label (ground (arith, e, t.caps))
          (ground (arith, e, t.unwrapped))
          (ground (
            arith,
            t.msg_length,
            t.caps,
            t.unwrapped,
            t.badges 0 cap badge (omega arith) refl e,
            t.regs 0 publish_hndl (omega arith) refl,
            t.regs 1 client_id (omega arith) refl,
            t.regs 2 reference (omega arith) refl,
          ));
  }
