-- ===== src/RootServer/Clock/RemoveMin.antt =====
-- `timeouts_remove_min` takes the first waiting timeout.
use mathlib.Core.Path.{subst}
use smos_thesis.Base.{ℕ, ◌<◌, ◌≡◌, refl, sym, List, [], ◌∷◌, Option, none, some, arith, ret}
use smos_thesis.RootServer.Clock.{TimeoutNode, Timeouts, max_timeouts, update, timeouts_remove_min}
use smos_thesis.RootServer.Clock.Lists.{
  Chain, Absent, Apart, IsValid, Chain-update, Chain-update_same, Ordered-update,
  HasCallbacks-update, Ordered-update_same, HasCallbacks-update_same,
}

-- The first timeout, with what it holds; it is an empty node afterwards, and the others wait on.
pub record TakesFirst (t : Timeouts) (i : ℕ) (full empty : List ℕ) : Type 0 where
  pub callback : ℕ
  pub after : Timeouts
  pub held : (t.timeouts i).callback ≡ some callback
  pub takes :
      timeouts_remove_min t
      ≡ ret (((t.timeouts i).deadline, callback, (t.timeouts i).callback_data, i), after)
  pub valid : IsValid after full (i ∷ empty)
  pub deadlines : (j : ℕ) → (after.timeouts j).deadline ≡ (t.timeouts j).deadline
  pub callbacks : (j : ℕ) → (after.timeouts j).callback ≡ (t.timeouts j).callback
  pub callback_data : (j : ℕ) → (after.timeouts j).callback_data ≡ (t.timeouts j).callback_data

abbrev freed : (ℕ → TimeoutNode) → ℕ → Option ℕ → ℕ → TimeoutNode
freed nodes i spare = update nodes i (record (nodes i) { next = spare })

freed-Chain :
    (nodes : ℕ → TimeoutNode) (i : ℕ) (spare : Option ℕ) (empty : List ℕ)
    → i < max_timeouts
    → Absent i empty
    → Chain nodes spare empty
    → Chain (freed nodes i spare) (some i) (i ∷ empty)
freed-Chain nodes i spare empty inside a h =
    let link : spare ≡ (freed nodes i spare i).next = ground arith in
    (
      refl,
      inside,
      subst (λ x. Chain (freed nodes i spare) x empty) link
          (Chain-update nodes i (record (nodes i) { next = spare }) empty spare a h),
    )

Apart-cons :
    (i : ℕ) (full empty : List ℕ) → Absent i full → Apart full empty → Apart full (i ∷ empty)
Apart-cons i [] empty a h = tt
Apart-cons i (j ∷ js) empty a h = ((λ e. a.0 (sym e), h.0), Apart-cons i js empty a.1 h.1)

-- Removing from a valid table where a timeout waits does not panic, returns the first timeout's
-- deadline, callback, data and index, and leaves a valid table where its node is an empty one.
pub timeouts_remove_min-TakesFirst :
    (t : Timeouts) (i : ℕ) (full empty : List ℕ)
    → IsValid t (i ∷ full) empty
    → TakesFirst t i full empty
unfolding timeouts_remove_min
timeouts_remove_min-TakesFirst t i [] empty v = record {
  callback = v.callbacks.0.0;
  after = record {
    head_full = none;
    head_empty = some i;
    timeouts = freed t.timeouts i t.head_empty;
  };
  held = v.callbacks.0.1;
  takes = ground (arith, v.waiting.0, v.waiting.1, v.waiting.2, v.callbacks.0.1);
  valid = record {
    waiting = refl;
    spare = freed-Chain t.timeouts i t.head_empty empty v.waiting.1 v.apart.0 v.spare;
    distinct = tt;
    distinct_spare = (v.apart.0, v.distinct_spare);
    apart = tt;
    ordered = tt;
    callbacks = tt;
  };
  deadlines = λ j. ground arith;
  callbacks = λ j. ground arith;
  callback_data = λ j. ground arith;
}
timeouts_remove_min-TakesFirst t i (k ∷ full) empty v =
    let cleared = update t.timeouts k (record (t.timeouts k) { prev = none }) in
    record {
      callback = v.callbacks.0.0;
      after = record {
        head_full = some k;
        head_empty = some i;
        timeouts = freed cleared i t.head_empty;
      };
      held = v.callbacks.0.1;
      takes = ground (
        arith, v.waiting.0, v.waiting.1, v.waiting.2.0, v.waiting.2.1, v.distinct.0.0,
        v.callbacks.0.1,
      );
      valid = record {
        waiting =
            Chain-update cleared i (record (cleared i) { next = t.head_empty }) (k ∷ full) (some k)
              v.distinct.0
              (Chain-update_same t.timeouts k (record (t.timeouts k) { prev = none }) (k ∷ full)
                (some k) refl (refl, v.waiting.2.1, v.waiting.2.2));
        spare = freed-Chain cleared i t.head_empty empty v.waiting.1 v.apart.0 (
            Chain-update t.timeouts k (record (t.timeouts k) { prev = none }) empty t.head_empty
              v.apart.1.0 v.spare);
        distinct = v.distinct.1;
        distinct_spare = (v.apart.0, v.distinct_spare);
        apart = Apart-cons i (k ∷ full) empty v.distinct.0 v.apart.1;
        ordered =
            Ordered-update cleared i (record (cleared i) { next = t.head_empty }) (k ∷ full)
              v.distinct.0
              (Ordered-update_same t.timeouts k (record (t.timeouts k) { prev = none }) (k ∷ full)
                refl v.ordered.1);
        callbacks =
            HasCallbacks-update cleared i (record (cleared i) { next = t.head_empty }) (k ∷ full)
              v.distinct.0
              (HasCallbacks-update_same t.timeouts k (record (t.timeouts k) { prev = none })
                (k ∷ full) refl v.callbacks.1);
      };
      deadlines = λ j. ground arith;
      callbacks = λ j. ground arith;
      callback_data = λ j. ground arith;
    }
