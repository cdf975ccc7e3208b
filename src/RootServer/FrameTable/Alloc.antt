-- ===== src/RootServer/FrameTable/Alloc.antt =====
-- crates/root_server/src/frame_table.rs: the allocation of frames, from the free list or fresh.
pub mod Pages
pub mod Fresh
pub mod Bump
pub mod Laws
use smos_thesis.Base.{
  ℕ, zero, suc, ◌+◌, ◌*◌, ◌/◌, ◌%◌, ◌^◌, Option, none, some, Bool, true, false, Result, ok, err,
  Run, ret, panic, ◌>>=◌, assert, ltb, leb, ◌==◌, if◌then◌else◌,
}
use smos_thesis.RootServer.Kernel.{SelError, page_bits, page_size_4k, inc, dec}
use smos_thesis.RootServer.FrameTable.{
  ListId, free_list, allocated_list, no_list, FrameTable, frame_bytes, frame_table_base,
  frame_from_ref, ref_from_frame, frame_data, set_prev, set_next, set_list_id, set_cap, pop_front,
  push_back,
}

-- What the frame table asks of the table of untyped memory, of the root server's cspace, of the
-- kernel and of `map_frame`; `World` is their state. All but the kernel may panic.
pub record Services (World : Type 0) : Type 0 where
  pub alloc_4k_untyped : World → Run (Result SelError ℕ × World)
  pub free_ut : World → ℕ → Run World
  pub alloc_slot : World → Run (Result SelError ℕ × World)
  pub free_slot : World → ℕ → Run World
  pub delete : World → ℕ → World
  pub untyped_retype : World → ℕ → ℕ → Result {0, 0} SelError Unit × World
  pub map_frame : World → ℕ → ℕ → Run (Result {0, 0} SelError Unit × World)

module _ {World : Type 0} (s : Services World) where
  -- The slot and the untyped go back.
  unfoldable pub undo_page : World → ℕ → ℕ → SelError → Run (Result SelError ℕ × World)
  undo_page w ut cptr e = do w1 ← s.free_slot w cptr; w2 ← s.free_ut w1 ut; ret (err e, w2)

  unfoldable pub map_page : World → ℕ → ℕ → ℕ → Run (Result SelError ℕ × World)
  unfolding undo_page
  map_page w ut cptr vaddr = s.map_frame w cptr vaddr >>= λ (r, w'). elim r [
    | ok _ ↦ ret (ok cptr, w')
    | err e ↦ undo_page (s.delete w' cptr) ut cptr e
  ]

  unfoldable pub retype_page : World → ℕ → ℕ → ℕ → Run (Result SelError ℕ × World)
  unfolding map_page
  retype_page w ut cptr vaddr =
      let (r, w') = s.untyped_retype w ut cptr in
      elim r [ ok _ ↦ map_page w' ut cptr vaddr | err e ↦ undo_page w' ut cptr e ]

  unfoldable pub alloc_frame_at : World → ℕ → Run (Result SelError ℕ × World)
  unfolding retype_page
  alloc_frame_at w vaddr = s.alloc_4k_untyped w >>= λ (r, w'). elim r [
    | ok ut ↦ s.alloc_slot w' >>= λ (q, w''). elim q [
      | ok cptr ↦ retype_page w'' ut cptr vaddr
      | err e ↦ s.free_ut w'' ut >>= λ w3. ret (err e, w3)
    ]
    | err e ↦ ret (err e, w')
  ]

  unfoldable pub extend_table :
      FrameTable → Result SelError ℕ × World → Result {0, 0} SelError Unit × FrameTable × World
  extend_table ft (ok cap, w) =
      let bytes = (ft.byte_length + 2 ^ page_bits) % 2 ^ 64 in
      (ok tt, record ft { byte_length = bytes; capacity = bytes / frame_bytes }, w)
  extend_table ft (err e, w) = (err e, ft, w)

  unfoldable pub bump_capacity :
      World → FrameTable → Run (Result {0, 0} SelError Unit × FrameTable × World)
  bump_capacity w ft = alloc_frame_at w ((frame_table_base + ft.byte_length) % 2 ^ 64) >>= λ out.
      ret (extend_table ft out)

  -- A frame's entry is written once its page is mapped; a failure gives the entry back.
  unfoldable pub fill_frame :
      FrameTable → ℕ → Result SelError ℕ × World → Result SelError ℕ × FrameTable × World
  fill_frame ft frame (ok frame_cap, w) = (
    ok frame,
    set_next (set_prev (set_list_id (set_cap ft frame frame_cap) frame no_list) frame none) frame
        none,
    w,
  )
  fill_frame ft frame (err e, w) = (err e, record ft { used = dec ft.used }, w)

  unfoldable pub take_fresh : World → FrameTable → Run (Result SelError ℕ × FrameTable × World)
  take_fresh w ft = assert (ltb ft.used ft.capacity) (do
    frame ← frame_from_ref ft ft.used
    let ft' = record ft { used = inc ft.used }
    r ← ref_from_frame ft' frame
    vaddr ← frame_data ft' r
    out ← alloc_frame_at w vaddr
    ret (fill_frame ft' frame out))

  unfoldable pub alloc_fresh_frame :
      World → FrameTable → Run (Result SelError ℕ × FrameTable × World)
  alloc_fresh_frame w ft = assert (leb ft.used ft.capacity) (
      if ft.used == ft.capacity
      then (bump_capacity w ft >>= λ (r, ft', w'). elim r [
        | ok _ ↦ take_fresh w' ft'
        | err e ↦ ret (err e, ft', w')
      ])
      else take_fresh w ft)

  unfoldable pub give_frame : World → FrameTable → ℕ → Run (Option ℕ × FrameTable × World)
  give_frame w ft frame = do
    ft' ← push_back ft allocated_list frame
    r ← ref_from_frame ft' frame
    ret (some r, ft', w)

  unfoldable pub alloc_frame : World → FrameTable → Run (Option ℕ × FrameTable × World)
  alloc_frame w ft = do
    (popped, ft') ← pop_front ft free_list
    elim popped [
      | some frame ↦ give_frame w ft' frame
      | none ↦ alloc_fresh_frame w ft' >>= λ (fresh, ft'', w'). elim fresh [
        | ok frame ↦ give_frame w' ft'' frame
        | err e ↦ ret (none, ft'', w')
      ]
    ]
