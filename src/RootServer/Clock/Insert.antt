-- ===== src/RootServer/Clock/Insert.antt =====
-- `timeouts_insert` where the new timeout is the only one, or earlier than the first.
use mathlib.Core.Path.{subst}
use smos_thesis.Base.{ℕ, ◌<◌, ◌≤◌, ◌≡◌, refl, sym, List, [], ◌∷◌, none, some, arith, ret}
use smos_thesis.RootServer.Clock.{
  TimeoutNode, Timeouts, update, timeouts_insert, insert_alone, insert_first,
}
use smos_thesis.RootServer.Clock.Lists.{
  Chain, Absent, Apart, NotBefore, IsValid, Chain-update, Chain-update_same, NotBefore-update,
  Ordered-update, HasCallbacks-update, NotBefore-update_same, Ordered-update_same,
  HasCallbacks-update_same,
}

abbrev pub IsEarliest : Timeouts → ℕ → List ℕ → Type 0
IsEarliest t deadline [] = Unit
IsEarliest t deadline (k ∷ full) = deadline < (t.timeouts k).deadline

-- The first empty node holds the timeout, and is the first that waits.
pub record InsertsFirst (fuel : ℕ) (t : Timeouts) (deadline callback callback_data e : ℕ)
    (full empty : List ℕ) : Type 0 where
  pub after : Timeouts
  pub inserts : timeouts_insert fuel t deadline callback callback_data ≡ some (ret (some e, after))
  pub valid : IsValid after (e ∷ full) empty
  pub deadline_set : (after.timeouts e).deadline ≡ deadline
  pub callback_set : (after.timeouts e).callback ≡ some callback
  pub callback_data_set : (after.timeouts e).callback_data ≡ callback_data

pub NotBefore-below :
    (nodes : ℕ → TimeoutNode) (d d' : ℕ) (is : List ℕ)
    → d ≤ d'
    → NotBefore nodes d' is
    → NotBefore nodes d is
NotBefore-below nodes d d' [] le h = tt
NotBefore-below nodes d d' (i ∷ is) le h = (omega arith, NotBefore-below nodes d d' is le h.1)

Apart-tail : (full : List ℕ) (e : ℕ) (empty : List ℕ) → Apart full (e ∷ empty) → Apart full empty
Apart-tail [] e empty h = tt
Apart-tail (i ∷ is) e empty h = (h.0.1, Apart-tail is e empty h.1)

pub Apart-Absent : (full : List ℕ) (e : ℕ) (empty : List ℕ) → Apart full (e ∷ empty) → Absent e full
Apart-Absent [] e empty h = tt
Apart-Absent (i ∷ is) e empty h = ((λ q. h.0.0 (sym q)), Apart-Absent is e empty h.1)

-- In a valid table with an empty node, a timeout that is the only one, or earlier than the first,
-- takes the first empty node and is the first that waits, and the table is valid.
pub timeouts_insert-InsertsFirst :
    (fuel : ℕ) (t : Timeouts) (deadline callback callback_data e : ℕ) (full empty : List ℕ)
    → IsValid t full (e ∷ empty)
    → IsEarliest t deadline full
    → InsertsFirst fuel t deadline callback callback_data e full empty
unfolding timeouts_insert insert_alone insert_first
timeouts_insert-InsertsFirst fuel t deadline callback callback_data e [] empty v early =
    let n : TimeoutNode = record {
      deadline = deadline;
      callback = some callback;
      callback_data = callback_data;
      next = none;
      prev = none;
    } in
    record {
      after = record {
        head_full = some e;
        head_empty = (t.timeouts e).next;
        timeouts = update t.timeouts e n;
      };
      inserts = ground (arith, v.waiting, v.spare.0, v.spare.1);
      valid = record {
        waiting = (refl, v.spare.1, ground arith);
        spare = Chain-update t.timeouts e n empty (t.timeouts e).next v.distinct_spare.0 v.spare.2;
        distinct = (tt, tt);
        distinct_spare = v.distinct_spare.1;
        apart = (v.distinct_spare.0, tt);
        ordered = (tt, tt);
        callbacks = ((callback, ground arith), tt);
      };
      deadline_set = ground arith;
      callback_set = ground arith;
      callback_data_set = ground arith;
    }
timeouts_insert-InsertsFirst fuel t deadline callback callback_data e (k ∷ full) empty v early =
    let linked = update t.timeouts e (record (t.timeouts e) { next = t.head_full }) in
    let backed = update linked k (record (linked k) { prev = some e }) in
    let n : TimeoutNode = record (backed e) {
      deadline = deadline;
      callback = some callback;
      callback_data = callback_data;
    } in
    let link : TimeoutNode = record (t.timeouts e) { next = t.head_full } in
    let back : TimeoutNode = record (linked k) { prev = some e } in
    let away : Absent e (k ∷ full) = Apart-Absent (k ∷ full) e empty v.apart in
    let follows : t.head_full ≡ (update backed e n e).next = ground (arith, away.0) in
    record {
      after = record {
        head_full = some e;
        head_empty = (t.timeouts e).next;
        timeouts = update backed e n;
      };
      inserts = ground (arith, v.waiting.0, v.waiting.1, v.spare.0, v.spare.1);
      valid = record {
        waiting = (
          refl,
          v.spare.1,
          subst (λ h. Chain (update backed e n) h (k ∷ full)) follows
              (Chain-update backed e n (k ∷ full) t.head_full away (
                Chain-update_same linked k back (k ∷ full) t.head_full refl
                  (Chain-update t.timeouts e link (k ∷ full) t.head_full away v.waiting))),
        );
        spare = Chain-update backed e n empty (t.timeouts e).next v.distinct_spare.0 (
            Chain-update linked k back empty (t.timeouts e).next v.apart.0.1 (
              Chain-update t.timeouts e link empty (t.timeouts e).next v.distinct_spare.0
                v.spare.2));
        distinct = (away, v.distinct);
        distinct_spare = v.distinct_spare.1;
        apart = (v.distinct_spare.0, Apart-tail (k ∷ full) e empty v.apart);
        ordered = (
          NotBefore-update backed e n _ (k ∷ full) away (
              NotBefore-update_same linked k back _ (k ∷ full) refl (
                NotBefore-update t.timeouts e link _ (k ∷ full) away (
                  ground arith,
                  NotBefore-below t.timeouts _ (t.timeouts k).deadline full (ground arith)
                      v.ordered.0,
                ))),
          Ordered-update backed e n (k ∷ full) away (
              Ordered-update_same linked k back (k ∷ full) refl
                (Ordered-update t.timeouts e link (k ∷ full) away v.ordered)),
        );
        callbacks = (
          (callback, ground arith),
          HasCallbacks-update backed e n (k ∷ full) away (
              HasCallbacks-update_same linked k back (k ∷ full) refl
                (HasCallbacks-update t.timeouts e link (k ∷ full) away v.callbacks)),
        );
      };
      deadline_set = ground arith;
      callback_set = ground arith;
      callback_data_set = ground arith;
    }
