-- ===== src/RootServer/FrameTable/Alloc/Bump.antt =====
-- `bump_capacity` and `alloc_fresh_frame`.
use smos_thesis.Base.{
  ℕ, ◌+◌, ◌/◌, ◌%◌, ◌<◌, ◌^◌, ◌≡◌, ◌⊎◌, refl, ap, ◌∙◌, List, inl, inr, arith, Bool-cases, Run, ret,
  panic, ◌>>=◌, Result, ok, err, ltb,
}
use smos_thesis.RootServer.Kernel.{SelError, page_bits}
use smos_thesis.RootServer.FrameTable.{FrameTable, frame_bytes, frame_table_base}
use smos_thesis.RootServer.FrameTable.Chain.{Holds}
use smos_thesis.RootServer.FrameTable.Alloc.{
  Services, alloc_frame_at, bump_capacity, extend_table, take_fresh, alloc_fresh_frame,
}
use smos_thesis.RootServer.FrameTable.Alloc.Pages.{ServicePanics, alloc_frame_at-Returns}
use smos_thesis.RootServer.FrameTable.Alloc.Fresh.{grown, bumped-Holds, take_fresh-cases}

-- The capacity is the number of entries in the mapped bytes, and a further page of entries still
-- numbers its frames in 32 bits.
abbrev pub Sized : FrameTable → Type 0
Sized ft = (ft.capacity ≡ ft.byte_length / frame_bytes) × (ft.byte_length + 2 ^ page_bits < 2 ^ 37)

abbrev pub bumped : FrameTable → FrameTable
bumped ft = record ft {
  byte_length = ft.byte_length + 2 ^ page_bits;
  capacity = (ft.byte_length + 2 ^ page_bits) / frame_bytes;
}

module _ {World : Type 0} (s : Services World) where
  abbrev extended :
      FrameTable
      → Run (Result SelError ℕ × World)
      → Run (Result {0, 0} SelError Unit × FrameTable × World)
  extended ft r = r >>= λ out. ret (extend_table s ft out)

  bump_capacity_ok :
      (w w' : World) (ft : FrameTable) (c : ℕ)
      → ft.byte_length + 2 ^ page_bits < 2 ^ 37
      → alloc_frame_at s w ((frame_table_base + ft.byte_length) % 2 ^ 64) ≡ ret (ok c, w')
      → bump_capacity s w ft ≡ ret (ok tt, bumped ft, w')
  unfolding bump_capacity extend_table
  bump_capacity_ok w w' ft c h e =
      ap (extended ft) e
      ∙ ap {B = Run (Result {0, 0} SelError Unit × FrameTable × World)}
          (λ (b : ℕ). ret (ok tt, record ft { byte_length = b; capacity = b / frame_bytes }, w'))
          (omega (arith, h))

  bump_capacity_err :
      (w w' : World) (ft : FrameTable) (e : SelError)
      → alloc_frame_at s w ((frame_table_base + ft.byte_length) % 2 ^ 64) ≡ ret (err e, w')
      → bump_capacity s w ft ≡ ret (err e, ft, w')
  unfolding bump_capacity extend_table
  bump_capacity_err w w' ft e k = ap (extended ft) k

  bump_capacity_panics :
      (w : World) (ft : FrameTable)
      → alloc_frame_at s w ((frame_table_base + ft.byte_length) % 2 ^ 64) ≡ panic
      → bump_capacity s w ft ≡ panic
  unfolding bump_capacity
  bump_capacity_panics w ft k = ap (extended ft) k

  alloc_fresh_room :
      (w : World) (ft : FrameTable)
      → ft.used < ft.capacity
      → alloc_fresh_frame s w ft ≡ take_fresh s w ft
  unfolding alloc_fresh_frame
  alloc_fresh_room w ft h = ground (arith, h)

  alloc_fresh_bump :
      (w w' : World) (ft ft' : FrameTable)
      → ft.used ≡ ft.capacity
      → bump_capacity s w ft ≡ ret (ok tt, ft', w')
      → alloc_fresh_frame s w ft ≡ take_fresh s w' ft'
  unfolding alloc_fresh_frame
  alloc_fresh_bump w w' ft ft' h k = ground (arith, h, k)

  alloc_fresh_full :
      (w w' : World) (ft : FrameTable) (e : SelError)
      → ft.used ≡ ft.capacity
      → bump_capacity s w ft ≡ ret (err e, ft, w')
      → alloc_fresh_frame s w ft ≡ ret (err e, ft, w')
  unfolding alloc_fresh_frame
  alloc_fresh_full w w' ft e h k = ground (arith, h, k)

  alloc_fresh_panics :
      (w : World) (ft : FrameTable)
      → ft.used ≡ ft.capacity
      → bump_capacity s w ft ≡ panic
      → alloc_fresh_frame s w ft ≡ panic
  unfolding alloc_fresh_frame
  alloc_fresh_panics w ft h k = ground (arith, h, k)

  -- What `alloc_fresh_frame` does of `ft`: the table `ft'` may have a page of entries more, and then
  -- it fails, or takes the first frame that is not in use.
  pub record FreshFrom (w : World) (ft : FrameTable) (fs os : List ℕ) (ft' : FrameTable)
      (w' : World) : Type 0 where
    pub holds : Holds ft' fs os 0
    pub used : ft'.used ≡ ft.used
    pub frames : ft'.frames ≡ ft.frames
    pub outcome :
        ((e : SelError) × (alloc_fresh_frame s w ft ≡ ret (err e, ft', w')))
        ⊎ ((c : ℕ) × (ft'.used < ft'.capacity)
            × (alloc_fresh_frame s w ft ≡ ret (ok ft'.used, grown ft' c, w')))

  -- A call panics, or it is such an outcome.
  abbrev Outcome : World → FrameTable → List ℕ → List ℕ → Type 0
  Outcome w ft fs os =
      ServicePanics s w × (alloc_fresh_frame s w ft ≡ panic)
      ⊎ ((ft' : FrameTable) × (w' : World) × FreshFrom w ft fs os ft' w')

  after_take :
      (w w' : World) (ft ft' : FrameTable) (fs os : List ℕ)
      → Holds ft' fs os 0
      → ft'.used ≡ ft.used
      → ft'.frames ≡ ft.frames
      → ft'.used < ft'.capacity
      → (ServicePanics s w' → ServicePanics s w)
      → alloc_fresh_frame s w ft ≡ take_fresh s w' ft'
      → Outcome w ft fs os
  after_take w w' ft ft' fs os h u f k reached e = elim (take_fresh-cases s w' ft' k h.small) [
    | inl (p, is) ↦ inl (reached p, e ∙ is)
    | inr (w'', c) ↦ inr (
      ft',
      w'',
      record {
        holds = h;
        used = u;
        frames = f;
        outcome = elim c [ inl (r, is) ↦ inl (r, e ∙ is) | inr (r, is) ↦ inr (r, k, e ∙ is) ];
      },
    )
  ]

  bump_and_take :
      (w : World) (ft : FrameTable) (fs os : List ℕ)
      → Holds ft fs os 0
      → Sized ft
      → ft.used ≡ ft.capacity
      → Outcome w ft fs os
  bump_and_take w ft fs os h z k =
      elim (alloc_frame_at-Returns s w ((frame_table_base + ft.byte_length) % 2 ^ 64)) [
        | inl (p, is) ↦ inl (p, alloc_fresh_panics w ft k (bump_capacity_panics w ft is))
        | inr ((err e, w'), is, reached) ↦ inr (
          ft,
          w',
          record {
            holds = h;
            used = refl;
            frames = refl;
            outcome = inl (e, alloc_fresh_full w w' ft e k (bump_capacity_err w w' ft e is));
          },
        )
        | inr ((ok c, w'), is, reached) ↦
            let done = bump_capacity_ok w w' ft c z.1 is in
            let more : ft.capacity < (bumped ft).capacity = omega (arith, z) in
            after_take w w' ft (bumped ft) fs os
              (bumped-Holds ft fs os _ _ (omega (arith, more)) (omega (arith, z)) h) refl refl
              (omega (arith, k, more)) reached (alloc_fresh_bump w w' ft (bumped ft) k done)
      ]

  pub alloc_fresh_frame-FreshFrom :
      (w : World) (ft : FrameTable) (fs os : List ℕ)
      → Holds ft fs os 0
      → Sized ft
      → Outcome w ft fs os
  alloc_fresh_frame-FreshFrom w ft fs os h z = elim (Bool-cases (ltb ft.used ft.capacity)) [
    | inl room ↦
        let k : ft.used < ft.capacity = ground arith in
        after_take w w ft ft fs os h refl refl k (λ x. x) (alloc_fresh_room w ft k)
    | inr full ↦ bump_and_take w ft fs os h z (let k = h.within in ground arith)
  ]
