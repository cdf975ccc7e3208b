-- ===== src/RootServer/FrameTable/Alloc/Laws.antt =====
-- `alloc_frame` as an operation on the list of free frames and the list of allocated ones.
use smos_thesis.Base.{
  ℕ, suc, ◌≡◌, List, [], ◌∷◌, ◌++◌, Option, none, some, ◌==◌, if◌then◌else◌, Run, ret, panic,
}
use smos_thesis.RootServer.FrameTable.{FrameTable}
use smos_thesis.RootServer.FrameTable.Chain.{Holds}
use smos_thesis.RootServer.FrameTable.Alloc.{Services}
use smos_thesis.RootServer.FrameTable.Alloc.Pages.{ServicePanics}

module _ {World : Type 0} (s : Services World) where
  -- What `alloc_frame` returns and leaves: the free list's first frame, or where there is none the
  -- first frame that is not in use, with the capability `c`, or nothing; or it panics as a call does, in a world to
  -- which calls lead from the one at the start.
  pub data Allocated (w : World) (ft : FrameTable) (fs os : List ℕ)
      (r : Run (Option ℕ × FrameTable × World)) : Type 0 where
    reused :
        (x : ℕ) (xs : List ℕ) (ft' : FrameTable) (w' : World)
        → fs ≡ x ∷ xs
        → r ≡ ret (some x, ft', w')
        → Holds ft' xs (os ++ x ∷ []) 0
        → ft'.used ≡ ft.used
        → ((j : ℕ) → (ft'.frames j).cap ≡ (ft.frames j).cap)
        → Allocated w ft fs os r
    fresh :
        (c : ℕ) (ft' : FrameTable) (w' : World)
        → fs ≡ []
        → r ≡ ret (some ft.used, ft', w')
        → Holds ft' [] (os ++ ft.used ∷ []) 0
        → ft'.used ≡ suc ft.used
        → ((j : ℕ) → (ft'.frames j).cap ≡ (if ft.used == j then c else (ft.frames j).cap))
        → Allocated w ft fs os r
    exhausted :
        (ft' : FrameTable) (w' : World)
        → fs ≡ []
        → r ≡ ret (none, ft', w')
        → Holds ft' [] os 0
        → ft'.used ≡ ft.used
        → ft'.frames ≡ ft.frames
        → Allocated w ft fs os r
    stopped : fs ≡ [] → ServicePanics s w → r ≡ panic → Allocated w ft fs os r
