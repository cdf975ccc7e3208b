-- ===== src/RootServer/FrameTable/Alloc/Fresh.antt =====
-- Fresh frames: `alloc_fresh_frame` and what it leaves of the two lists.
use mathlib.Core.Path.{fun_ext}
use smos_thesis.Base.{
  ℕ, suc, ◌+◌, ◌*◌, ◌≤◌, ◌<◌, ◌^◌, ◌≡◌, ◌⊎◌, ap, ◌∙◌, List, [], ◌∷◌, Option, none, some, false, inl,
  inr, arith, Bool-cases, Run, ret, panic, ◌>>=◌, Result, ok, err,
}
use smos_thesis.RootServer.Kernel.{SelError, page_size_4k, inc}
use smos_thesis.RootServer.FrameTable.{
  ListId, free_list, allocated_list, no_list, Frame, FrameList, Memory, write, FrameTable,
  frame_from_ref, ref_from_frame, frame_data, frame_data_base, set_prev, set_next, set_list_id,
  set_cap,
}
use smos_thesis.RootServer.FrameTable.Chain.{
  has, Chain, Represents, Holds, Detached, Chain-in, Chain-write,
}
use smos_thesis.RootServer.FrameTable.Alloc.Pages.{ServicePanics, alloc_frame_at-Returns}
use smos_thesis.RootServer.FrameTable.Alloc.{Services, alloc_frame_at, fill_frame, take_fresh}

-- A chain stays one where more frames are in use.
Chain-mono :
    (m : Memory) (id : ListId) (used used' : ℕ) (prev : Option ℕ) (xs : List ℕ) (stop : Option ℕ)
    → used ≤ used'
    → Chain m id used prev xs stop
    → Chain m id used' prev xs stop
Chain-mono m id used used' prev [] stop h c = tt
Chain-mono m id used used' prev (x ∷ xs) stop h c =
    (c.0, c.1, c.2, omega (arith, c.3, h), c.4, Chain-mono m id used used' (some x) xs stop h c.5)

-- No frame of a chain is one that is not in use.
Chain-fresh :
    (m : Memory) (id : ListId) (used : ℕ) (prev : Option ℕ) (xs : List ℕ) (stop : Option ℕ)
    → Chain m id used prev xs stop
    → has used xs ≡ false
Chain-fresh m id used prev xs stop c = elim (Bool-cases (has used xs)) [
  | inl e ↦ let k = Chain-in m id used used prev xs stop c e in absurd (omega (arith, k.1))
  | inr e ↦ e
]

Represents-fresh :
    (m : Memory) (id : ListId) (used : ℕ) (l : FrameList) (xs : List ℕ) (f : Frame)
    → Represents m id used l xs
    → Represents (write m used f) id (suc used) l xs
Represents-fresh m id used l xs f r = record {
  named = r.named;
  front = r.front;
  back = r.back;
  count = r.count;
  chain = Chain-mono (write m used f) id used (suc used) none xs none (omega arith) (
      Chain-write m id used used f none xs none r.chain
        (Chain-fresh m id used none xs none r.chain));
}

-- The entry of a frame whose page the capability `c` names, before it is in a list.
abbrev pub fresh_entry : ℕ → Frame
fresh_entry c = record { cap = c; prev = none; next = none; list_id = no_list }

abbrev pub grown : FrameTable → ℕ → FrameTable
grown ft c = record ft { frames = write ft.frames ft.used (fresh_entry c); used = suc ft.used }

pub grown-Holds :
    (ft : FrameTable) (fs os : List ℕ) (c : ℕ)
    → ft.used < ft.capacity
    → Holds ft fs os 0
    → Holds (grown ft c) fs os 1 × Detached (grown ft c) ft.used
grown-Holds ft fs os c k h = (
  record {
    free_part = Represents-fresh ft.frames free_list ft.used ft.free fs (fresh_entry c) h.free_part;
    allocated_part =
        Represents-fresh ft.frames allocated_list ft.used ft.allocated os (fresh_entry c)
          h.allocated_part;
    within = k;
    small = h.small;
    total = omega (arith, h.total);
  },
  ground arith,
)

pub bumped-Holds :
    (ft : FrameTable) (fs os : List ℕ) (b c : ℕ)
    → ft.capacity ≤ c
    → c < 2 ^ 32
    → Holds ft fs os 0
    → Holds (record ft { byte_length = b; capacity = c }) fs os 0
bumped-Holds ft fs os b c k s h = record {
  free_part = h.free_part;
  allocated_part = h.allocated_part;
  within = omega (arith, h.within, k);
  small = s;
  total = h.total;
}

module _ {World : Type 0} (s : Services World) where
  fill_frame_ok :
      (ft : FrameTable) (c : ℕ) (w : World) (u : ℕ)
      → u ≡ suc ft.used
      → fill_frame s (record ft { used = u }) ft.used (ok c, w) ≡ (ok ft.used, grown ft c, w)
  unfolding fill_frame set_cap set_list_id set_prev set_next
  fill_frame_ok ft c w u e = rw e (
      ap {B = Result SelError ℕ × FrameTable × World}
        (λ (m : Memory). (ok ft.used, record ft { frames = m; used = suc ft.used }, w))
        (fun_ext λ j. ground arith))

  fill_frame_err :
      (ft : FrameTable) (e : SelError) (w : World)
      → ft.used < 2 ^ 32
      → fill_frame s (record ft { used = inc ft.used }) ft.used (err e, w) ≡ (err e, ft, w)
  unfolding fill_frame
  fill_frame_err ft e w h =
      ap {B = Result SelError ℕ × FrameTable × World}
        (λ (n : ℕ). (err e, record ft { used = n }, w)) (omega (arith, h))

  take_fresh_at :
      (w : World) (ft : FrameTable)
      → ft.used < ft.capacity
      → ft.capacity < 2 ^ 32
      → take_fresh s w ft ≡ (
          alloc_frame_at s w (frame_data_base + ft.used * page_size_4k) >>= λ out.
          ret (fill_frame s (record ft { used = inc ft.used }) ft.used out))
  unfolding take_fresh frame_from_ref ref_from_frame frame_data
  take_fresh_at w ft h k = ground (arith, h, k)

  -- What a fresh frame's allocation does once the table has room: a call panics; or it fails, and
  -- changes nothing of the table; or the first frame that is not in use gets the page's capability.
  pub take_fresh-cases :
      (w : World) (ft : FrameTable)
      → ft.used < ft.capacity
      → ft.capacity < 2 ^ 32
      → ServicePanics s w × (take_fresh s w ft ≡ panic)
        ⊎ ((w' : World) × (((e : SelError) × (take_fresh s w ft ≡ ret (err e, ft, w')))
              ⊎ ((c : ℕ) × (take_fresh s w ft ≡ ret (ok ft.used, grown ft c, w')))))
  take_fresh-cases w ft h k =
      let filled = fill_frame s (record ft { used = inc ft.used }) ft.used in
      let next = λ (r : Run (Result SelError ℕ × World)). r >>= λ out. ret (filled out) in
      let at = take_fresh_at w ft h k in
      elim (alloc_frame_at-Returns s w (frame_data_base + ft.used * page_size_4k)) [
        | inl (f, is) ↦ inl (f, at ∙ ap next is)
        | inr ((err e, w'), is, reached) ↦ inr (
          w',
          inl (
            e,
            at
                ∙ ap next is
                ∙ ap (λ (t : Result SelError ℕ × FrameTable × World). ret t)
                    (fill_frame_err ft e w' (omega (arith, h, k))),
          ),
        )
        | inr ((ok c, w'), is, reached) ↦ inr (
          w',
          inr (
            c,
            at
                ∙ ap next is
                ∙ ap (λ (t : Result SelError ℕ × FrameTable × World). ret t)
                    (fill_frame_ok ft c w' (inc ft.used) (omega (arith, h, k))),
          ),
        )
      ]
