-- ===== src/Syscall/RoundTrip/Processes.antt =====
-- Round trips of the calls for processes, replies, channels and windows.
use smos_thesis.Base.{ℕ, ◌≡◌, refl, Bool, List, Option, none, some, arith}
use smos_thesis.Common.Invocations.{SmosInvocation, can_contain_wrapped_cap}
use smos_thesis.Syscall.Client.{message, number}
use smos_thesis.Syscall.Client.Root.{irq_register_request, window_create_request}
use smos_thesis.Syscall.Client.Servers.{
  channel_open_request, load_complete_request, process_exit_request, process_wait_request,
  reply_create_request, server_channel_create_request, server_handle_cap_create_request,
}
use smos_thesis.Syscall.Decode.{get_channel_open, get_server_create_channel, get_window_create}
use smos_thesis.Syscall.Decode.Objects.{
  get_irq_register, get_load_complete, get_proc_wait, get_server_handle_cap_create,
}
use smos_thesis.Syscall.GetWith.{get_label}
use smos_thesis.Syscall.Call.{Call, request, label_of, decoded}
use smos_thesis.Syscall.RoundTrip.{Carries, client, get_plain, get_unwrapped, to_bool-number}

module _ (arrives : ℕ → Option ℕ) {World : Type 0} (r0 r1 r2 r3 r4 r5 : ℕ) (rs : List ℕ) (c0 c1 : ℕ)
    (cs : List ℕ) (slot : ℕ) (buf : Option (List ℕ)) (w : World) where
  pub load_complete-Carries :
      (entry_point : ℕ) (sp : ℕ)
      → Carries arrives
          (client r0 r1 r2 r3 r4 r5 rs c0 c1 cs slot buf w)
          (request (Call.load_complete entry_point sp))
          (label_of (Call.load_complete entry_point sp))
          (λ m. decoded arrives m.recv_slot (Call.load_complete entry_point sp))
  unfolding load_complete_request get_label can_contain_wrapped_cap get_load_complete
  load_complete-Carries entry_point sp = record {
    info = message SmosInvocation.load_complete 2 0;
    labelled = refl;
    after = client entry_point sp r2 r3 r4 r5 rs c0 c1 cs slot buf w;
    sent = refl;
    received = λ m t. get_plain m SmosInvocation.load_complete t.label (t.caps (omega arith)) (
        ground (
          arith,
          t.msg_length,
          t.regs 0 entry_point (omega arith) refl,
          t.regs 1 sp (omega arith) refl,
        ));
  }

  pub process_wait-Carries :
      (hndl : ℕ)
      → Carries arrives
          (client r0 r1 r2 r3 r4 r5 rs c0 c1 cs slot buf w)
          (request (Call.process_wait hndl))
          (label_of (Call.process_wait hndl))
          (λ m. decoded arrives m.recv_slot (Call.process_wait hndl))
  unfolding process_wait_request get_label can_contain_wrapped_cap get_proc_wait
  process_wait-Carries hndl = record {
    info = message SmosInvocation.proc_wait 1 0;
    labelled = refl;
    after = client hndl r1 r2 r3 r4 r5 rs c0 c1 cs slot buf w;
    sent = refl;
    received = λ m t.
        get_plain m SmosInvocation.proc_wait t.label (t.caps (omega arith))
          (ground (arith, t.msg_length, t.regs 0 hndl (omega arith) refl));
  }

  pub process_exit-Carries :
      Carries arrives
        (client r0 r1 r2 r3 r4 r5 rs c0 c1 cs slot buf w)
        (request Call.process_exit)
        (label_of Call.process_exit)
        (λ m. decoded arrives m.recv_slot Call.process_exit)
  unfolding process_exit_request get_label can_contain_wrapped_cap
  process_exit-Carries = record {
    info = message SmosInvocation.proc_exit 0 0;
    labelled = refl;
    after = client r0 r1 r2 r3 r4 r5 rs c0 c1 cs slot buf w;
    sent = refl;
    received = λ m t. get_plain m SmosInvocation.proc_exit t.label (t.caps (omega arith)) refl;
  }

  pub reply_create-Carries :
      (return_cap : ℕ)
      → Carries arrives
          (client r0 r1 r2 r3 r4 r5 rs c0 c1 cs slot buf w)
          (request (Call.reply_create return_cap))
          (label_of (Call.reply_create return_cap))
          (λ m. decoded arrives m.recv_slot (Call.reply_create return_cap))
  unfolding reply_create_request get_label can_contain_wrapped_cap
  reply_create-Carries return_cap = record {
    info = message SmosInvocation.reply_create 0 0;
    labelled = refl;
    after = client r0 r1 r2 r3 r4 r5 rs c0 c1 cs return_cap buf w;
    sent = refl;
    received = λ m t. get_plain m SmosInvocation.reply_create t.label (t.caps (omega arith)) refl;
  }

  pub server_handle_cap_create-Carries :
      (publish_hndl : ℕ) (ident : ℕ) (return_slot : ℕ)
      → Carries arrives
          (client r0 r1 r2 r3 r4 r5 rs c0 c1 cs slot buf w)
          (request (Call.server_handle_cap_create publish_hndl ident return_slot))
          (label_of (Call.server_handle_cap_create publish_hndl ident return_slot))
          (λ m.
            decoded arrives m.recv_slot
              (Call.server_handle_cap_create publish_hndl ident return_slot))
  unfolding server_handle_cap_create_request get_label can_contain_wrapped_cap
      get_server_handle_cap_create
  server_handle_cap_create-Carries publish_hndl ident return_slot = record {
    info = message SmosInvocation.server_handle_cap_create 2 0;
    labelled = refl;
    after = client publish_hndl ident r2 r3 r4 r5 rs c0 c1 cs return_slot buf w;
    sent = refl;
    received = λ m t.
        get_plain m SmosInvocation.server_handle_cap_create t.label (t.caps (omega arith)) (
          ground (
            arith,
            t.msg_length,
            t.regs 0 publish_hndl (omega arith) refl,
            t.regs 1 ident (omega arith) refl,
          ));
  }

  pub server_channel_create-Carries :
      (publish_hndl : ℕ) (channel_slot : ℕ)
      → Carries arrives
          (client r0 r1 r2 r3 r4 r5 rs c0 c1 cs slot buf w)
          (request (Call.server_channel_create publish_hndl channel_slot))
          (label_of (Call.server_channel_create publish_hndl channel_slot))
          (λ m. decoded arrives m.recv_slot (Call.server_channel_create publish_hndl channel_slot))
  unfolding server_channel_create_request get_label can_contain_wrapped_cap
      get_server_create_channel
  server_channel_create-Carries publish_hndl channel_slot = record {
    info = message SmosInvocation.server_create_channel 1 0;
    labelled = refl;
    after = client publish_hndl r1 r2 r3 r4 r5 rs c0 c1 cs channel_slot buf w;
    sent = refl;
    received = λ m t.
        get_plain m SmosInvocation.server_create_channel t.label (t.caps (omega arith))
          (ground (arith, t.msg_length, t.regs 0 publish_hndl (omega arith) refl));
  }

  pub channel_open-Carries :
      (cap : ℕ) (ntfn_slot : ℕ) (badge : ℕ)
      → arrives cap ≡ some badge
      → Carries arrives
          (client r0 r1 r2 r3 r4 r5 rs c0 c1 cs slot buf w)
          (request (Call.channel_open cap ntfn_slot))
          (label_of (Call.channel_open cap ntfn_slot))
          (λ m. decoded arrives m.recv_slot (Call.channel_open cap ntfn_slot))
  unfolding channel_open_request get_label can_contain_wrapped_cap get_channel_open
  channel_open-Carries cap ntfn_slot badge e = record {
    info = message SmosInvocation.channel_open 0 1;
    labelled = refl;
    after = client r0 r1 r2 r3 r4 r5 rs cap c1 cs ntfn_slot buf w;
    sent = refl;
    received = λ m t.
        get_unwrapped m SmosInvocation.channel_open t.label (ground (arith, e, t.caps))
          (ground (arith, e, t.unwrapped))
          (ground
            (arith, t.msg_length, t.caps, t.unwrapped, t.badges 0 cap badge (omega arith) refl e));
  }

  pub irq_register-Carries :
      (publish_hndl : ℕ) (irq_num : ℕ) (edge_triggered : Bool) (return_slot : ℕ)
      → Carries arrives
          (client r0 r1 r2 r3 r4 r5 rs c0 c1 cs slot buf w)
          (request (Call.irq_register publish_hndl irq_num edge_triggered return_slot))
          (label_of (Call.irq_register publish_hndl irq_num edge_triggered return_slot))
          (λ m.
            decoded arrives m.recv_slot
              (Call.irq_register publish_hndl irq_num edge_triggered return_slot))
  unfolding irq_register_request get_label can_contain_wrapped_cap get_irq_register
  irq_register-Carries publish_hndl irq_num edge_triggered return_slot = record {
    info = message SmosInvocation.irq_register 3 0;
    labelled = refl;
    after =
        client publish_hndl irq_num (number edge_triggered) r3 r4 r5 rs c0 c1 cs return_slot buf w;
    sent = refl;
    received = λ m t. get_plain m SmosInvocation.irq_register t.label (t.caps (omega arith)) (
        ground (
          arith,
          t.msg_length,
          t.regs 0 publish_hndl (omega arith) refl,
          t.regs 1 irq_num (omega arith) refl,
          t.regs 2 (number edge_triggered) (omega arith) refl,
          to_bool-number edge_triggered,
        ));
  }

  pub window_create-Carries :
      (base_vaddr : ℕ) (size : ℕ) (return_cap : Option ℕ)
      → Carries arrives
          (client r0 r1 r2 r3 r4 r5 rs c0 c1 cs slot buf w)
          (request (Call.window_create base_vaddr size return_cap))
          (label_of (Call.window_create base_vaddr size return_cap))
          (λ m. decoded arrives m.recv_slot (Call.window_create base_vaddr size return_cap))
  unfolding window_create_request get_label can_contain_wrapped_cap get_window_create
  window_create-Carries base_vaddr size none = record {
    info = message SmosInvocation.window_create 3 0;
    labelled = refl;
    after = client base_vaddr size 0 r3 r4 r5 rs c0 c1 cs slot buf w;
    sent = refl;
    received = λ m t. get_plain m SmosInvocation.window_create t.label (t.caps (omega arith)) (
        ground (
          arith,
          t.msg_length,
          t.regs 0 base_vaddr (omega arith) refl,
          t.regs 1 size (omega arith) refl,
          t.regs 2 0 (omega arith) refl,
        ));
  }
  window_create-Carries base_vaddr size (some return_slot) = record {
    info = message SmosInvocation.window_create 3 0;
    labelled = refl;
    after = client base_vaddr size 1 r3 r4 r5 rs c0 c1 cs return_slot buf w;
    sent = refl;
    received = λ m t. get_plain m SmosInvocation.window_create t.label (t.caps (omega arith)) (
        ground (
          arith,
          t.msg_length,
          t.regs 0 base_vaddr (omega arith) refl,
          t.regs 1 size (omega arith) refl,
          t.regs 2 1 (omega arith) refl,
        ));
  }
