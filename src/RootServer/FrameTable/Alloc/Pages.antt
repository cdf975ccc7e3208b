-- ===== src/RootServer/FrameTable/Alloc/Pages.antt =====
-- `alloc_frame_at` returns, unless one of the calls that it makes panics.
use smos_thesis.Base.{
  ℕ, ◌≡◌, ◌⊎◌, refl, inl, inr, Result, ok, err, Result-cases, Run, Run-cases, ret, panic,
}
use smos_thesis.RootServer.Kernel.{SelError}
use smos_thesis.RootServer.FrameTable.Alloc.{
  Services, map_page, retype_page, undo_page, alloc_frame_at,
}

-- A call panics, in a world to which calls lead.
pub data ServicePanics {World : Type 0} (s : Services World) : World → Type 0 where
  untyped_panics : (w : World) → s.alloc_4k_untyped w ≡ panic → ServicePanics s w
  free_ut_panics : (w : World) (ut : ℕ) → s.free_ut w ut ≡ panic → ServicePanics s w
  alloc_slot_panics : (w : World) → s.alloc_slot w ≡ panic → ServicePanics s w
  free_slot_panics : (w : World) (slot : ℕ) → s.free_slot w slot ≡ panic → ServicePanics s w
  map_frame_panics :
      (w : World) (frame vaddr : ℕ) → s.map_frame w frame vaddr ≡ panic → ServicePanics s w
  after_untyped :
      (w w' : World) (r : Result SelError ℕ)
      → s.alloc_4k_untyped w ≡ ret (r, w')
      → ServicePanics s w'
      → ServicePanics s w
  after_free_ut :
      (w w' : World) (ut : ℕ) → s.free_ut w ut ≡ ret w' → ServicePanics s w' → ServicePanics s w
  after_alloc_slot :
      (w w' : World) (r : Result SelError ℕ)
      → s.alloc_slot w ≡ ret (r, w')
      → ServicePanics s w'
      → ServicePanics s w
  after_free_slot :
      (w w' : World) (slot : ℕ)
      → s.free_slot w slot ≡ ret w'
      → ServicePanics s w'
      → ServicePanics s w
  after_map_frame :
      (w w' : World) (frame vaddr : ℕ) (r : Result SelError (Unit {0}))
      → s.map_frame w frame vaddr ≡ ret (r, w')
      → ServicePanics s w'
      → ServicePanics s w
  after_retype :
      (w : World) (ut slot : ℕ) → ServicePanics s (s.untyped_retype w ut slot).1 → ServicePanics s w
  after_delete : (w : World) (slot : ℕ) → ServicePanics s (s.delete w slot) → ServicePanics s w

module _ {World : Type 0} (s : Services World) where
  -- A panic of a call, or a return to a world to which calls lead.
  abbrev pub Returns : World → Run (Result SelError ℕ × World) → Type 0
  Returns w r =
      ServicePanics s w × (r ≡ panic)
      ⊎ ((a : Result SelError ℕ × World) × (r ≡ ret a) × (ServicePanics s a.1 → ServicePanics s w))

  undo_page-Returns : (w : World) (ut cptr : ℕ) (e : SelError) → Returns w (undo_page s w ut cptr e)
  unfolding undo_page
  undo_page-Returns w ut cptr e = elim (Run-cases (s.free_slot w cptr)) [
    | inl k ↦ inl (free_slot_panics w cptr k, rw (undo_page, k) refl)
    | inr (w1, k) ↦ elim (Run-cases (s.free_ut w1 ut)) [
      | inl k' ↦
          inl (after_free_slot w w1 cptr k (free_ut_panics w1 ut k'), rw (undo_page, k, k') refl)
      | inr (w2, k') ↦ inr (
        (err e, w2),
        rw (undo_page, k, k') refl,
        λ x. after_free_slot w w1 cptr k (after_free_ut w1 w2 ut k' x),
      )
    ]
  ]

  -- The same of a world before.
  Returns-before :
      (w w' : World) (r : Run (Result SelError ℕ × World))
      → (ServicePanics s w' → ServicePanics s w)
      → Returns w' r
      → Returns w r
  Returns-before w w' r f (inl (x, e)) = inl (f x, e)
  Returns-before w w' r f (inr (a, e, g)) = inr (a, e, λ x. f (g x))

  map_page-Returns : (w : World) (ut cptr vaddr : ℕ) → Returns w (map_page s w ut cptr vaddr)
  unfolding map_page
  map_page-Returns w ut cptr vaddr = elim (Run-cases (s.map_frame w cptr vaddr)) [
    | inl k ↦ inl (map_frame_panics w cptr vaddr k, rw (map_page, k) refl)
    | inr ((ok u, w'), k) ↦
        inr ((ok cptr, w'), rw (map_page, k) refl, after_map_frame w w' cptr vaddr (ok u) k)
    | inr ((err e, w'), k) ↦
        rw (map_page, k)
          (Returns-before w (s.delete w' cptr) _
            (λ x. after_map_frame w w' cptr vaddr (err e) k (after_delete w' cptr x))
            (undo_page-Returns (s.delete w' cptr) ut cptr e))
  ]

  retype_page-Returns : (w : World) (ut cptr vaddr : ℕ) → Returns w (retype_page s w ut cptr vaddr)
  unfolding retype_page
  retype_page-Returns w ut cptr vaddr =
      let r = s.untyped_retype w ut cptr in
      elim (Result-cases r.0) [
        | inl (e, is) ↦
            rw (retype_page, is)
              (Returns-before w r.1 _ (after_retype w ut cptr) (undo_page-Returns r.1 ut cptr e))
        | inr (u, is) ↦
            rw (retype_page, is)
              (Returns-before w r.1 _ (after_retype w ut cptr) (map_page-Returns r.1 ut cptr vaddr))
      ]

  pub alloc_frame_at-Returns : (w : World) (vaddr : ℕ) → Returns w (alloc_frame_at s w vaddr)
  unfolding alloc_frame_at
  alloc_frame_at-Returns w vaddr = elim (Run-cases (s.alloc_4k_untyped w)) [
    | inl k ↦ inl (untyped_panics w k, rw (alloc_frame_at, k) refl)
    | inr ((err e, w'), k) ↦
        inr ((err e, w'), rw (alloc_frame_at, k) refl, after_untyped w w' (err e) k)
    | inr ((ok ut, w'), k) ↦ elim (Run-cases (s.alloc_slot w')) [
      | inl k' ↦
          inl (
            after_untyped w w' (ok ut) k (alloc_slot_panics w' k'),
            rw (alloc_frame_at, k, k') refl,
          )
      | inr ((err e, w''), k') ↦
          (let before = λ (x : ServicePanics s w'').
              after_untyped w w' (ok ut) k (after_alloc_slot w' w'' (err e) k' x) in
            elim (Run-cases (s.free_ut w'' ut)) [
              | inl k'' ↦
                  inl (before (free_ut_panics w'' ut k''), rw (alloc_frame_at, k, k', k'') refl)
              | inr (w3, k'') ↦ inr (
                (err e, w3),
                rw (alloc_frame_at, k, k', k'') refl,
                λ x. before (after_free_ut w'' w3 ut k'' x),
              )
            ])
      | inr ((ok cptr, w''), k') ↦
          rw (alloc_frame_at, k, k')
            (Returns-before w w'' _
              (λ x. after_untyped w w' (ok ut) k (after_alloc_slot w' w'' (ok cptr) k' x))
              (retype_page-Returns w'' ut cptr vaddr))
    ]
  ]
