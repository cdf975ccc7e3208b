-- ===== src/RootServer/FrameTable/Steps.antt =====
-- Steps that the operations on the frame lists share.
use mathlib.Core.Path.{fun_ext}
use smos_thesis.Base.{ℕ, ◌<◌, ◌^◌, ◌≡◌, ◌≢◌, ap, List, none, arith, ret}
use smos_thesis.RootServer.FrameTable.{
  ListId, free_list, allocated_list, no_list, Frame, FrameList, Memory, write, FrameTable,
  frame_from_ref, ref_from_frame, set_prev, set_next, set_list_id,
}
use smos_thesis.RootServer.FrameTable.Chain.{Represents, Chain-out, Chain-write}

pub frame_from_ref-ok :
    (ft : FrameTable) (x : ℕ) → x < ft.capacity → ft.capacity < 2 ^ 32 → frame_from_ref ft x ≡ ret x
unfolding frame_from_ref
frame_from_ref-ok ft x h k = ground arith

pub ref_from_frame-ok :
    (ft : FrameTable) (x : ℕ) → x < ft.used → ft.used < 2 ^ 32 → ref_from_frame ft x ≡ ret x
unfolding ref_from_frame
ref_from_frame-ok ft x h k = ground arith

-- A frame with its links and its mark taken away.
abbrev pub cleared : Frame → Frame
cleared f = record f { prev = none; next = none; list_id = no_list }

abbrev pub clear : FrameTable → ℕ → FrameTable
clear ft x = record ft { frames = write ft.frames x (cleared (ft.frames x)) }

pub clear_popped :
    (ft : FrameTable) (x : ℕ)
    → set_prev (set_list_id (set_next ft x none) x no_list) x none ≡ clear ft x
unfolding set_prev set_list_id set_next
clear_popped ft x = ap (λ (m : Memory). record ft { frames = m }) (fun_ext λ j. ground arith)

pub clear_removed :
    (ft : FrameTable) (x : ℕ)
    → set_next (set_prev (set_list_id ft x no_list) x none) x none ≡ clear ft x
unfolding set_prev set_list_id set_next
clear_removed ft x = ap (λ (m : Memory). record ft { frames = m }) (fun_ext λ j. ground arith)

pub free-ne-allocated : free_list ≢ allocated_list
free-ne-allocated e = cc

-- Writing to a frame that does not bear the mark of a list leaves the list.
pub Represents-write :
    (m : Memory) (id : ListId) (used : ℕ) (l : FrameList) (xs : List ℕ) (i : ℕ) (f : Frame)
    → Represents m id used l xs
    → (m i).list_id ≢ id
    → Represents (write m i f) id used l xs
Represents-write m id used l xs i f r ne = record {
  named = r.named;
  front = r.front;
  back = r.back;
  count = r.count;
  chain =
      Chain-write m id used i f none xs none r.chain
        (Chain-out m id used i none xs none r.chain ne);
}
