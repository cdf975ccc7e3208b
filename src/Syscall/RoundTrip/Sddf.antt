-- ===== src/Syscall/RoundTrip/Sddf.antt =====
-- Round trips of the calls of `sDDFInterface`.
use smos_thesis.Base.{ℕ, ◌≡◌, refl, List, Option, none, some, arith}
use smos_thesis.Common.Invocations.{SmosInvocation, can_contain_wrapped_cap}
use smos_thesis.Syscall.Client.{message}
use smos_thesis.Syscall.Client.Sddf.{
  sddf_channel_register_bidirectional_request, sddf_channel_register_recv_only_request,
  sddf_data_region_provide_request, sddf_get_data_region_request, sddf_queue_register_request,
}
use smos_thesis.Syscall.Decode.{
  get_sddf_channel_register_bidirectional, get_sddf_channel_register_receive_only,
  get_sddf_provide_data_region, get_sddf_queue_register,
}
use smos_thesis.Syscall.GetWith.{get_label}
use smos_thesis.Syscall.Call.{Call, request, label_of, decoded}
use smos_thesis.Syscall.Invocation.{QueueType, VirtType}
use smos_thesis.Syscall.RoundTrip.{Carries, client, get_plain, get_carrier}

module _ (arrives : ℕ → Option ℕ) {World : Type 0} (r0 r1 r2 r3 r4 r5 : ℕ) (rs : List ℕ) (c0 c1 : ℕ)
    (cs : List ℕ) (slot : ℕ) (buf : Option (List ℕ)) (w : World) where
  pub sddf_channel_register_recv_only-Carries :
      (cap : ℕ)
      → arrives cap ≡ none
      → Carries arrives
          (client r0 r1 r2 r3 r4 r5 rs c0 c1 cs slot buf w)
          (request (Call.sddf_channel_register_recv_only cap))
          (label_of (Call.sddf_channel_register_recv_only cap))
          (λ m. decoded arrives m.recv_slot (Call.sddf_channel_register_recv_only cap))
  unfolding sddf_channel_register_recv_only_request get_label can_contain_wrapped_cap
      get_sddf_channel_register_receive_only
  sddf_channel_register_recv_only-Carries cap e = record {
    info = message SmosInvocation.sddf_channel_register_receive_only 0 1;
    labelled = refl;
    after = client r0 r1 r2 r3 r4 r5 rs cap c1 cs slot buf w;
    sent = refl;
    received = λ m t.
        get_carrier m SmosInvocation.sddf_channel_register_receive_only t.label refl
          (ground (arith, t.msg_length, t.caps, t.unwrapped, e));
  }

  pub sddf_data_region_provide-Carries :
      (cap : ℕ) (size : ℕ)
      → arrives cap ≡ none
      → Carries arrives
          (client r0 r1 r2 r3 r4 r5 rs c0 c1 cs slot buf w)
          (request (Call.sddf_data_region_provide cap size))
          (label_of (Call.sddf_data_region_provide cap size))
          (λ m. decoded arrives m.recv_slot (Call.sddf_data_region_provide cap size))
  unfolding sddf_data_region_provide_request get_label can_contain_wrapped_cap
      get_sddf_provide_data_region
  sddf_data_region_provide-Carries cap size e = record {
    info = message SmosInvocation.sddf_provide_data_region 1 1;
    labelled = refl;
    after = client size r1 r2 r3 r4 r5 rs cap c1 cs slot buf w;
    sent = refl;
    received = λ m t.
        get_carrier m SmosInvocation.sddf_provide_data_region t.label refl
          (ground (arith, t.msg_length, t.caps, t.unwrapped, t.regs 0 size (omega arith) refl, e));
  }

  pub sddf_get_data_region-Carries :
      (return_slot : ℕ)
      → Carries arrives
          (client r0 r1 r2 r3 r4 r5 rs c0 c1 cs slot buf w)
          (request (Call.sddf_get_data_region return_slot))
          (label_of (Call.sddf_get_data_region return_slot))
          (λ m. decoded arrives m.recv_slot (Call.sddf_get_data_region return_slot))
  unfolding sddf_get_data_region_request get_label can_contain_wrapped_cap
  sddf_get_data_region-Carries return_slot = record {
    info = message SmosInvocation.sddf_get_data_region 0 0;
    labelled = refl;
    after = client r0 r1 r2 r3 r4 r5 rs c0 c1 cs return_slot buf w;
    sent = refl;
    received =
        λ m t. get_plain m SmosInvocation.sddf_get_data_region t.label (t.caps (omega arith)) refl;
  }

  pub sddf_queue_register-Carries :
      (cap : ℕ) (size : ℕ) (kind : QueueType)
      → arrives cap ≡ none
      → Carries arrives
          (client r0 r1 r2 r3 r4 r5 rs c0 c1 cs slot buf w)
          (request (Call.sddf_queue_register cap size kind))
          (label_of (Call.sddf_queue_register cap size kind))
          (λ m. decoded arrives m.recv_slot (Call.sddf_queue_register cap size kind))
  unfolding sddf_queue_register_request get_label can_contain_wrapped_cap get_sddf_queue_register
  sddf_queue_register-Carries cap size QueueType.active e = record {
    info = message SmosInvocation.sddf_queue_register 2 1;
    labelled = refl;
    after = client size 0 r2 r3 r4 r5 rs cap c1 cs slot buf w;
    sent = refl;
    received = λ m t. get_carrier m SmosInvocation.sddf_queue_register t.label refl (
        ground (
          arith,
          t.msg_length,
          t.caps,
          t.unwrapped,
          t.regs 0 size (omega arith) refl,
          t.regs 1 0 (omega arith) refl,
          e,
        ));
  }
  sddf_queue_register-Carries cap size QueueType.free e = record {
    info = message SmosInvocation.sddf_queue_register 2 1;
    labelled = refl;
    after = client size 1 r2 r3 r4 r5 rs cap c1 cs slot buf w;
    sent = refl;
    received = λ m t. get_carrier m SmosInvocation.sddf_queue_register t.label refl (
        ground (
          arith,
          t.msg_length,
          t.caps,
          t.unwrapped,
          t.regs 0 size (omega arith) refl,
          t.regs 1 1 (omega arith) refl,
          e,
        ));
  }
  sddf_queue_register-Carries cap size QueueType.request e = record {
    info = message SmosInvocation.sddf_queue_register 2 1;
    labelled = refl;
    after = client size 2 r2 r3 r4 r5 rs cap c1 cs slot buf w;
    sent = refl;
    received = λ m t. get_carrier m SmosInvocation.sddf_queue_register t.label refl (
        ground (
          arith,
          t.msg_length,
          t.caps,
          t.unwrapped,
          t.regs 0 size (omega arith) refl,
          t.regs 1 2 (omega arith) refl,
          e,
        ));
  }
  sddf_queue_register-Carries cap size QueueType.response e = record {
    info = message SmosInvocation.sddf_queue_register 2 1;
    labelled = refl;
    after = client size 3 r2 r3 r4 r5 rs cap c1 cs slot buf w;
    sent = refl;
    received = λ m t. get_carrier m SmosInvocation.sddf_queue_register t.label refl (
        ground (
          arith,
          t.msg_length,
          t.caps,
          t.unwrapped,
          t.regs 0 size (omega arith) refl,
          t.regs 1 3 (omega arith) refl,
          e,
        ));
  }
  sddf_queue_register-Carries cap size QueueType.no_queue e = record {
    info = message SmosInvocation.sddf_queue_register 2 1;
    labelled = refl;
    after = client size 4 r2 r3 r4 r5 rs cap c1 cs slot buf w;
    sent = refl;
    received = λ m t. get_carrier m SmosInvocation.sddf_queue_register t.label refl (
        ground (
          arith,
          t.msg_length,
          t.caps,
          t.unwrapped,
          t.regs 0 size (omega arith) refl,
          t.regs 1 4 (omega arith) refl,
          e,
        ));
  }

  pub sddf_channel_register_bidirectional-Carries :
      (cap : ℕ) (kind : Option VirtType) (return_slot : ℕ)
      → arrives cap ≡ none
      → Carries arrives
          (client r0 r1 r2 r3 r4 r5 rs c0 c1 cs slot buf w)
          (request (Call.sddf_channel_register_bidirectional cap kind return_slot))
          (label_of (Call.sddf_channel_register_bidirectional cap kind return_slot))
          (λ m.
            decoded arrives m.recv_slot
              (Call.sddf_channel_register_bidirectional cap kind return_slot))
  unfolding sddf_channel_register_bidirectional_request get_label can_contain_wrapped_cap
      get_sddf_channel_register_bidirectional
  sddf_channel_register_bidirectional-Carries cap none return_slot e = record {
    info = message SmosInvocation.sddf_channel_register_bidirectional 0 1;
    labelled = refl;
    after = client r0 r1 r2 r3 r4 r5 rs cap c1 cs return_slot buf w;
    sent = refl;
    received = λ m t.
        get_carrier m SmosInvocation.sddf_channel_register_bidirectional t.label refl
          (ground (arith, t.msg_length, t.caps, t.unwrapped, e));
  }
  sddf_channel_register_bidirectional-Carries cap (some VirtType.tx) return_slot e = record {
    info = message SmosInvocation.sddf_channel_register_bidirectional 1 1;
    labelled = refl;
    after = client 0 r1 r2 r3 r4 r5 rs cap c1 cs return_slot buf w;
    sent = refl;
    received = λ m t.
        get_carrier m SmosInvocation.sddf_channel_register_bidirectional t.label refl
          (ground (arith, t.msg_length, t.caps, t.unwrapped, t.regs 0 0 (omega arith) refl, e));
  }
  sddf_channel_register_bidirectional-Carries cap (some VirtType.rx) return_slot e = record {
    info = message SmosInvocation.sddf_channel_register_bidirectional 1 1;
    labelled = refl;
    after = client 1 r1 r2 r3 r4 r5 rs cap c1 cs return_slot buf w;
    sent = refl;
    received = λ m t.
        get_carrier m SmosInvocation.sddf_channel_register_bidirectional t.label refl
          (ground (arith, t.msg_length, t.caps, t.unwrapped, t.regs 0 1 (omega arith) refl, e));
  }
