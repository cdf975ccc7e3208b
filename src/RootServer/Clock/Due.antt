-- ===== src/RootServer/Clock/Due.antt =====
-- The timeouts that are due at a time, and what is left of the two lists without them.
use mathlib.Core.Path.{subst}
use smos_thesis.Base.{
  ℕ, ◌+◌, ◌≡◌, refl, ap, List, [], ◌∷◌, Option, none, some, arith, ret, Run, leb, if◌then◌else◌,
}
use smos_thesis.RootServer.Clock.{TimeoutNode, Timeouts}
use smos_thesis.RootServer.Clock.Lists.{IsValid}

abbrev pub callback_of : TimeoutNode → ℕ
callback_of n = elim n.callback [ none ↦ 0 | some callback ↦ callback ]

-- The timeouts that wait behind the ones that are due.
abbrev pub remaining : (ℕ → TimeoutNode) → ℕ → List ℕ → List ℕ
remaining nodes curr_time [] = []
remaining nodes curr_time (i ∷ is) =
    if leb (nodes i).deadline curr_time then remaining nodes curr_time is else i ∷ is

-- The nodes of the due ones, the last one first, in front of the empty ones.
abbrev pub returned : (ℕ → TimeoutNode) → ℕ → List ℕ → List ℕ → List ℕ
returned nodes curr_time [] empty = empty
returned nodes curr_time (i ∷ is) empty =
    if leb (nodes i).deadline curr_time then returned nodes curr_time is (i ∷ empty) else empty

abbrev pub first_deadline : (ℕ → TimeoutNode) → List ℕ → Option ℕ
first_deadline nodes [] = none
first_deadline nodes (i ∷ is) = some (nodes i).deadline

module _ {World : Type 0} (run : ℕ → ℕ → ℕ → World → World) where
  -- The calls of the due timeouts, each with its index plus 1 and its data.
  abbrev pub fired : (ℕ → TimeoutNode) → ℕ → List ℕ → World → World
  fired nodes curr_time [] w = w
  fired nodes curr_time (i ∷ is) w =
      if leb (nodes i).deadline curr_time
      then fired nodes curr_time is (run (callback_of (nodes i)) (i + 1) (nodes i).callback_data w)
      else w

-- Nodes that hold the same.
pub record Agree (f g : ℕ → TimeoutNode) : Type 0 where
  pub deadlines : (j : ℕ) → (g j).deadline ≡ (f j).deadline
  pub callbacks : (j : ℕ) → (g j).callback ≡ (f j).callback
  pub callback_data : (j : ℕ) → (g j).callback_data ≡ (f j).callback_data

module _ (f g : ℕ → TimeoutNode) (a : Agree f g) (curr_time : ℕ) where
  remaining-Agree : (is : List ℕ) → remaining g curr_time is ≡ remaining f curr_time is
  remaining-Agree [] = refl
  remaining-Agree (i ∷ is) = ground (arith, a.deadlines i, remaining-Agree is)

  returned-Agree :
      (is empty : List ℕ) → returned g curr_time is empty ≡ returned f curr_time is empty
  returned-Agree [] empty = refl
  returned-Agree (i ∷ is) empty = ground (arith, a.deadlines i, returned-Agree is (i ∷ empty))

  first_deadline-Agree : (is : List ℕ) → first_deadline g is ≡ first_deadline f is
  first_deadline-Agree [] = refl
  first_deadline-Agree (i ∷ is) = ap some (a.deadlines i)

  fired-Agree :
      {World : Type 0} (run : ℕ → ℕ → ℕ → World → World) (is : List ℕ) (w : World)
      → fired run g curr_time is w ≡ fired run f curr_time is w
  fired-Agree run [] w = refl
  fired-Agree run (i ∷ is) w =
      let same : callback_of (g i) ≡ callback_of (f i) = ground (arith, a.callbacks i) in
      ground (
        arith,
        same,
        a.deadlines i,
        a.callback_data i,
        fired-Agree run is (run (callback_of (f i)) (i + 1) (f i).callback_data w),
      )

-- What the loop returns, and the lists it leaves.
abbrev pub outcome :
    {World : Type 0} (run : ℕ → ℕ → ℕ → World → World) (nodes : ℕ → TimeoutNode) (curr_time : ℕ)
    (is : List ℕ) (w : World)
    → Timeouts
    → Option (Run (Timeouts × World × Option ℕ))
outcome run nodes curr_time is w after = some (
    ret
      (after, fired run nodes curr_time is w, first_deadline nodes (remaining nodes curr_time is)))

pub outcome-Agree :
    {World : Type 0} (run : ℕ → ℕ → ℕ → World → World) (f g : ℕ → TimeoutNode) (a : Agree f g)
    (curr_time : ℕ) (is : List ℕ) (w : World) (after : Timeouts)
    → outcome run g curr_time is w after ≡ outcome run f curr_time is w after
outcome-Agree run f g a curr_time is w after = rw (fired-Agree f g a curr_time run is w) (
    rw (remaining-Agree f g a curr_time is)
      (rw (first_deadline-Agree f g a curr_time (remaining f curr_time is)) refl))

pub IsValid-Agree :
    (f g : ℕ → TimeoutNode) (a : Agree f g) (curr_time : ℕ) (is empty : List ℕ) (after : Timeouts)
    → IsValid after (remaining g curr_time is) (returned g curr_time is empty)
    → IsValid after (remaining f curr_time is) (returned f curr_time is empty)
IsValid-Agree f g a curr_time is empty after v =
    subst (λ x. IsValid after (remaining f curr_time is) x)
      (returned-Agree f g a curr_time is empty)
      (subst (λ x. IsValid after x (returned g curr_time is empty))
        (remaining-Agree f g a curr_time is) v)
