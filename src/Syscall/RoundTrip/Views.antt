-- ===== src/Syscall/RoundTrip/Views.antt =====
-- The round trip of `view`, whose window and object each come as a handle or as a capability.
use Prim.Native.Nat.{bit_and}
use smos_thesis.Base.{
  ℕ, ◌*◌, ◌^◌, true, not, ◌==◌, ◌+◌, ◌≤◌, ◌≡◌, ◌≢◌, refl, List, Option, some, inl, inr, arith,
  get_elem?, Option-cases,
}
use smos_thesis.Word.{max_word}
use smos_thesis.Common.Invocations.{SmosInvocation, can_contain_wrapped_cap}
use smos_thesis.Server.Handles.{
  ServerReceivedHandleOrHandleCap, unwrapped_handle_cap, wrapped_handle_cap,
}
use smos_thesis.Server.Reply.{HandleOrHandleCap, handle, handle_cap}
use smos_thesis.Syscall.Call.{Call, request, label_of, decoded, IsUnwrapped, IsUnmarked, received}
use smos_thesis.Syscall.Client.{message}
use smos_thesis.Syscall.Client.Objects.{view_request, put_view_arg}
use smos_thesis.Syscall.Decode.Objects.{get_view, get_view_window, get_view_object}
use smos_thesis.Syscall.GetWith.{get_label}
use smos_thesis.Syscall.Invocation.{Invocation}
use smos_thesis.Syscall.Request.{Request, done}
use smos_thesis.Syscall.RoundTrip.{Carries, client, get_carrier, cap_unwrapped-mask}

window_handle :
    (m : Request) (idx : ℕ)
    → idx ≢ max_word
    → get_view_window m idx ≡ done (ServerReceivedHandleOrHandleCap.handle idx, 0)
unfolding get_view_window
window_handle m idx h = ground arith

window_unwrapped :
    (m : Request) (mask badge : ℕ)
    → 1 ≤ m.info.extra_caps
    → m.info.caps_unwrapped ≡ 1 + 2 * mask
    → mask ≤ 1
    → get_elem? m.ipcbuf.caps_or_badges 0 ≡ some badge
    → get_view_window m max_word ≡ done (unwrapped_handle_cap badge, 1)
unfolding get_view_window
window_unwrapped m mask badge some_cap e small h =
    ground (arith, cap_unwrapped-mask m 0 1, cap_unwrapped-mask m 0 3)

window_wrapped :
    (m : Request) (mask : ℕ)
    → 1 ≤ m.info.extra_caps
    → m.info.caps_unwrapped ≡ 2 * mask
    → mask ≤ 1
    → get_view_window m max_word ≡ done (wrapped_handle_cap m.recv_slot, 1)
unfolding get_view_window
window_wrapped m mask some_cap e small =
    ground (arith, cap_unwrapped-mask m 0 0, cap_unwrapped-mask m 0 2)

object_handle :
    (m : Request) (k idx : ℕ)
    → idx ≢ max_word
    → get_view_object m k idx ≡ done (ServerReceivedHandleOrHandleCap.handle idx)
unfolding get_view_object
object_handle m k idx h = ground arith

object_unwrapped :
    (m : Request) (k mask badge : ℕ)
    → k + 1 ≤ m.info.extra_caps
    → m.info.caps_unwrapped ≡ mask
    → not (bit_and mask (2 ^ k) == 0) ≡ true
    → get_elem? m.ipcbuf.caps_or_badges k ≡ some badge
    → get_view_object m k max_word ≡ done (unwrapped_handle_cap badge)
unfolding get_view_object
object_unwrapped m k mask badge enough e on h = ground (arith, cap_unwrapped-mask m k mask)

-- The arguments are read one after the other.
get_view-reads :
    (m : Request) (wb k ob win_offset obj_offset size rights : ℕ)
    (window object : ServerReceivedHandleOrHandleCap)
    → get_elem? m.ipcbuf.msg_regs 0 ≡ some wb
    → get_view_window m wb ≡ done (window, k)
    → get_elem? m.ipcbuf.msg_regs 1 ≡ some ob
    → get_view_object m k ob ≡ done object
    → get_elem? m.ipcbuf.msg_regs 2 ≡ some win_offset
    → get_elem? m.ipcbuf.msg_regs 3 ≡ some obj_offset
    → get_elem? m.ipcbuf.msg_regs 4 ≡ some size
    → get_elem? m.ipcbuf.msg_regs 5 ≡ some rights
    → get_view m
      ≡ done (
          Invocation.view (record {
            window = window;
            object = object;
            window_offset = win_offset;
            obj_offset = obj_offset;
            size = size;
            rights = rights;
          }))
unfolding get_view
get_view-reads m wb k ob win_offset obj_offset size rights window object e0 ew e1 eo e2 e3 e4 e5 =
    ground arith

module _ (arrives : ℕ → Option ℕ) {World : Type 0} (r0 r1 r2 r3 r4 r5 : ℕ) (rs : List ℕ) (c0 c1 : ℕ)
    (cs : List ℕ) (slot : ℕ) (buf : Option (List ℕ)) (w : World) where
  pub view-Carries :
      (win obj : HandleOrHandleCap) (win_offset obj_offset size rights : ℕ)
      → IsUnmarked win
      → IsUnmarked obj
      → IsUnwrapped arrives obj
      → Carries arrives
          (client r0 r1 r2 r3 r4 r5 rs c0 c1 cs slot buf w)
          (request (Call.view win obj win_offset obj_offset size rights))
          (label_of (Call.view win obj win_offset obj_offset size rights))
          (λ m. decoded arrives m.recv_slot (Call.view win obj win_offset obj_offset size rights))
  unfolding view_request put_view_arg get_label can_contain_wrapped_cap
  view-Carries (handle i) (handle j) win_offset obj_offset size rights wi oj _ = record {
    info = message SmosInvocation.view 6 0;
    labelled = refl;
    after = client i j win_offset obj_offset size rights rs c0 c1 cs slot buf w;
    sent = refl;
    received = λ m t. get_carrier m SmosInvocation.view t.label refl (
        get_view-reads m i 0 j win_offset obj_offset size rights
          (received arrives m.recv_slot (handle i)) (received arrives m.recv_slot (handle j))
          (t.regs 0 i (omega arith) refl) (window_handle m i wi) (t.regs 1 j (omega arith) refl)
          (object_handle m 0 j oj) (t.regs 2 win_offset (omega arith) refl)
          (t.regs 3 obj_offset (omega arith) refl) (t.regs 4 size (omega arith) refl)
          (t.regs 5 rights (omega arith) refl));
  }
  view-Carries (handle i) (handle_cap o) win_offset obj_offset size rights wi _ (b, e) = record {
    info = message SmosInvocation.view 6 1;
    labelled = refl;
    after = client i max_word win_offset obj_offset size rights rs o c1 cs slot buf w;
    sent = refl;
    received = λ m t. get_carrier m SmosInvocation.view t.label refl (
        get_view-reads m i 0 max_word win_offset obj_offset size rights
          (received arrives m.recv_slot (handle i)) (received arrives m.recv_slot (handle_cap o))
          (t.regs 0 i (omega arith) refl) (window_handle m i wi)
          (t.regs 1 max_word (omega arith) refl)
          (ground (
            arith,
            e,
            t.caps,
            t.unwrapped,
            t.badges 0 o b (omega arith) refl e,
            object_unwrapped m 0 1 b,
          ))
          (t.regs 2 win_offset (omega arith) refl) (t.regs 3 obj_offset (omega arith) refl)
          (t.regs 4 size (omega arith) refl) (t.regs 5 rights (omega arith) refl));
  }
  view-Carries (handle_cap v) (handle j) win_offset obj_offset size rights _ oj _ = record {
    info = message SmosInvocation.view 6 1;
    labelled = refl;
    after = client max_word j win_offset obj_offset size rights rs v c1 cs slot buf w;
    sent = refl;
    received = λ m t. get_carrier m SmosInvocation.view t.label refl (
        get_view-reads m max_word 1 j win_offset obj_offset size rights
          (received arrives m.recv_slot (handle_cap v)) (received arrives m.recv_slot (handle j))
          (t.regs 0 max_word (omega arith) refl)
          (elim (Option-cases (arrives v)) [
            | inl h ↦ ground (arith, h, t.caps, t.unwrapped, window_wrapped m 0)
            | inr (a, h) ↦ ground (
              arith,
              h,
              t.caps,
              t.unwrapped,
              t.badges 0 v a (omega arith) refl h,
              window_unwrapped m 0 a,
            )
          ])
          (t.regs 1 j (omega arith) refl) (object_handle m 1 j oj)
          (t.regs 2 win_offset (omega arith) refl) (t.regs 3 obj_offset (omega arith) refl)
          (t.regs 4 size (omega arith) refl) (t.regs 5 rights (omega arith) refl));
  }
  view-Carries (handle_cap v) (handle_cap o) win_offset obj_offset size rights _ _ (b, e) = record {
    info = message SmosInvocation.view 6 2;
    labelled = refl;
    after = client max_word max_word win_offset obj_offset size rights rs v o cs slot buf w;
    sent = refl;
    received = λ m t. get_carrier m SmosInvocation.view t.label refl (
        get_view-reads m max_word 1 max_word win_offset obj_offset size rights
          (received arrives m.recv_slot (handle_cap v))
          (received arrives m.recv_slot (handle_cap o)) (t.regs 0 max_word (omega arith) refl)
          (elim (Option-cases (arrives v)) [
            | inl h ↦ ground (arith, h, e, t.caps, t.unwrapped, window_wrapped m 1)
            | inr (a, h) ↦ ground (
              arith,
              h,
              e,
              t.caps,
              t.unwrapped,
              t.badges 0 v a (omega arith) refl h,
              window_unwrapped m 1 a,
            )
          ])
          (t.regs 1 max_word (omega arith) refl)
          (elim (Option-cases (arrives v)) [
            | inl h ↦ ground (
              arith,
              h,
              e,
              t.caps,
              t.unwrapped,
              t.badges 1 o b (omega arith) refl e,
              object_unwrapped m 1 2 b,
            )
            | inr (a, h) ↦ ground (
              arith,
              h,
              e,
              t.caps,
              t.unwrapped,
              t.badges 1 o b (omega arith) refl e,
              object_unwrapped m 1 3 b,
            )
          ])
          (t.regs 2 win_offset (omega arith) refl) (t.regs 3 obj_offset (omega arith) refl)
          (t.regs 4 size (omega arith) refl) (t.regs 5 rights (omega arith) refl));
  }
