-- ===== src/RootServer/Clock/Fires.antt =====
-- `timer_irq` calls the timeouts that are due, in the order of their deadlines.
use smos_thesis.Base.{
  ℕ, zero, suc, ◌+◌, ◌<◌, ◌≡◌, refl, ◌∙◌, true, false, List, [], ◌∷◌, none, some, inl, inr, arith,
  ret, leb, length, Bool-cases,
}
use smos_thesis.RootServer.Clock.{
  Timeouts, max_timeouts, timeouts_peek, Hardware, fire, fire_due, timer_irq, rearm, acknowledged,
}
use smos_thesis.RootServer.Clock.Lists.{IsValid}
use smos_thesis.RootServer.Clock.RemoveMin.{TakesFirst, timeouts_remove_min-TakesFirst}
use smos_thesis.RootServer.Clock.Due.{
  callback_of, remaining, returned, first_deadline, fired, Agree, outcome-Agree, IsValid-Agree,
}

module _ {World : Type 0} (run : ℕ → ℕ → ℕ → World → World) where
  -- The loop ends, and has called what was due.
  pub record FiresDue (hw : Hardware World) (fuel curr_time : ℕ) (t : Timeouts) (w : World)
      (full empty : List ℕ) : Type 0 where
    pub after : Timeouts
    pub fires :
        fire_due hw fuel curr_time t w
        ≡ some (
            ret (
              after,
              fired run t.timeouts curr_time full w,
              first_deadline t.timeouts (remaining t.timeouts curr_time full),
            ))
    pub valid :
        IsValid after
          (remaining t.timeouts curr_time full)
          (returned t.timeouts curr_time full empty)

  -- A callback that leaves the timeouts alone.
  abbrev pub KeepsTimeouts : Hardware World → Type 0
  KeepsTimeouts hw =
      (callback number callback_data : ℕ) (t : Timeouts) (w : World)
      → hw.callback callback number callback_data t w ≡ ret (t, run callback number callback_data w)

  peek_first :
      (t : Timeouts) (i : ℕ)
      → t.head_full ≡ some i
      → i < max_timeouts
      → timeouts_peek t ≡ ret (some (t.timeouts i).deadline)
  unfolding timeouts_peek
  peek_first t i h inside = ground (arith, h)

  fire_first :
      (hw : Hardware World) (t : Timeouts) (w : World) (i : ℕ) (full empty : List ℕ)
      → KeepsTimeouts hw
      → (f : TakesFirst t i full empty)
      → fire hw t w
        ≡ ret (f.after, run (callback_of (t.timeouts i)) (i + 1) (t.timeouts i).callback_data w)
  unfolding fire
  fire_first hw t w i full empty keeps f =
      ground
        (arith, f.takes, f.held, keeps f.callback (i + 1) (t.timeouts i).callback_data f.after w)

fire_due_end :
    {World : Type 0} (hw : Hardware World) (fuel curr_time : ℕ) (t : Timeouts) (w : World)
    → t.head_full ≡ none
    → fire_due hw (suc fuel) curr_time t w ≡ some (ret (t, w, none))
unfolding fire_due timeouts_peek
fire_due_end hw fuel curr_time t w h = ground (arith, h)

fire_due_stop :
    {World : Type 0} (hw : Hardware World) (fuel curr_time : ℕ) (t : Timeouts) (w : World) (d : ℕ)
    → timeouts_peek t ≡ ret (some d)
    → leb d curr_time ≡ false
    → fire_due hw (suc fuel) curr_time t w ≡ some (ret (t, w, some d))
unfolding fire_due
fire_due_stop hw fuel curr_time t w d h late = ground (arith, h, late)

fire_due_step :
    {World : Type 0} (hw : Hardware World) (fuel curr_time : ℕ) (t : Timeouts) (w : World) (d : ℕ)
    (t' : Timeouts) (w' : World)
    → timeouts_peek t ≡ ret (some d)
    → leb d curr_time ≡ true
    → fire hw t w ≡ ret (t', w')
    → fire_due hw (suc fuel) curr_time t w ≡ fire_due hw fuel curr_time t' w'
unfolding fire_due
fire_due_step hw fuel curr_time t w d t' w' h due f = ground (arith, h, due, f)

-- In a valid table, where the callbacks do not panic and leave the timeouts alone, and with more fuel
-- than timeouts that wait, the loop of the timer's interrupt ends. It has called the timeouts that were due, in their order, each
-- with its index plus 1 and its data; their nodes are empty ones, the others wait as before, and the
-- deadline it returns is that of the first one left.
pub fire_due-FiresDue :
    {World : Type 0} (run : ℕ → ℕ → ℕ → World → World) (hw : Hardware World) (fuel curr_time : ℕ)
    (full : List ℕ) (t : Timeouts) (w : World) (empty : List ℕ)
    → KeepsTimeouts run hw
    → IsValid t full empty
    → length full < fuel
    → FiresDue run hw fuel curr_time t w full empty
fire_due-FiresDue run hw zero curr_time full t w empty keeps v enough = elim enough [ ]
fire_due-FiresDue run hw (suc fuel) curr_time [] t w empty keeps v enough = record {
  after = t;
  fires = fire_due_end hw fuel curr_time t w v.waiting;
  valid = v;
}
fire_due-FiresDue run hw (suc fuel) curr_time (i ∷ is) t w empty keeps v enough =
    let first = timeouts_remove_min-TakesFirst t i is empty v in
    let peek = peek_first run t i v.waiting.0 v.waiting.1 in
    elim (Bool-cases (leb (t.timeouts i).deadline curr_time)) [
      | inl due ↦
          (let w' = run (callback_of (t.timeouts i)) (i + 1) (t.timeouts i).callback_data w in
            let rest =
              fire_due-FiresDue run hw fuel curr_time is first.after w' (i ∷ empty) keeps
                first.valid (omega arith) in
            let same : Agree t.timeouts first.after.timeouts = record {
              deadlines = first.deadlines;
              callbacks = first.callbacks;
              callback_data = first.callback_data;
            } in
            record {
              after = rest.after;
              fires =
                  fire_due_step hw fuel curr_time t w (t.timeouts i).deadline first.after w' peek
                    due (fire_first run hw t w i is empty keeps first)
                  ∙ rest.fires
                  ∙ rw due (
                      outcome-Agree run t.timeouts first.after.timeouts same curr_time is w'
                        rest.after);
              valid = rw due (
                  IsValid-Agree t.timeouts first.after.timeouts same curr_time is (i ∷ empty)
                    rest.after rest.valid);
            })
      | inr late ↦ record {
        after = t;
        fires =
            fire_due_stop hw fuel curr_time t w (t.timeouts i).deadline peek late ∙ rw late refl;
        valid = rw late v;
      }
    ]

-- The interrupt: the timer is set to the first timeout that is left, or turned off.
pub timer_irq_lem :
    {World : Type 0} (run : ℕ → ℕ → ℕ → World → World) (hw : Hardware World) (fuel curr_time : ℕ)
    (full : List ℕ) (t : Timeouts) (w w' : World) (empty : List ℕ)
    → hw.get_time w ≡ (curr_time, w')
    → (f : FiresDue run hw fuel curr_time t w' full empty)
    → timer_irq hw fuel t w
      ≡ some (
          acknowledged hw f.after (
            rearm hw curr_time
              (first_deadline t.timeouts (remaining t.timeouts curr_time full))
              (fired run t.timeouts curr_time full w')))
unfolding timer_irq
timer_irq_lem run hw fuel curr_time full t w w' empty time f = ground (arith, time, f.fires)
