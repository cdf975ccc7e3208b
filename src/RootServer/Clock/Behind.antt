-- ===== src/RootServer/Clock/Behind.antt =====
-- `timeouts_insert` behind the first timeout: the list is right, but the node stays the first empty
-- one.
use mathlib.Core.Path.{subst}
use smos_thesis.Base.{ℕ, ◌<◌, ◌≤◌, ◌≡◌, ◌≢◌, refl, sym, List, ◌∷◌, Option, some, arith, ret, length}
use smos_thesis.RootServer.Clock.{
  Timeouts, max_timeouts, walk, timeouts_insert, insert_alone, insert_first, insert_behind,
}
use smos_thesis.RootServer.Clock.Lists.{Chain, Absent, NotBefore, Ordered, IsValid}
use smos_thesis.RootServer.Clock.Insert.{Apart-Absent}
use smos_thesis.RootServer.Clock.Placed.{
  stop, placed, walk-stop, stop-ne, stop_inside, stop_next, placed-Chain, placed-NotBefore,
  placed-Ordered,
}
use smos_thesis.RootServer.Clock.Links.{behind, Linked-behind, insert_behind_lem}

-- Each insertion takes the first empty node.
insert_alone_takes :
    (t : Timeouts) (deadline callback callback_data e : ℕ) (r : Option ℕ) (t' : Timeouts)
    → t.head_empty ≡ some e
    → insert_alone t deadline callback callback_data ≡ ret (r, t')
    → r ≡ some e
unfolding insert_alone
insert_alone_takes t deadline callback callback_data e r t' spare h = ground (arith, spare)

insert_first_takes :
    (t : Timeouts) (deadline callback callback_data e : ℕ) (r : Option ℕ) (t' : Timeouts)
    → t.head_empty ≡ some e
    → insert_first t deadline callback callback_data ≡ ret (r, t')
    → r ≡ some e
unfolding insert_first
insert_first_takes t deadline callback callback_data e r t' spare h = ground (arith, spare)

insert_behind_takes :
    (t : Timeouts) (tmp deadline callback callback_data e : ℕ) (r : Option ℕ) (t' : Timeouts)
    → t.head_empty ≡ some e
    → insert_behind t tmp deadline callback callback_data ≡ ret (r, t')
    → r ≡ some e
unfolding insert_behind
insert_behind_takes t tmp deadline callback callback_data e r t' spare h = ground (arith, spare)

timeouts_insert_takes :
    (fuel : ℕ) (t : Timeouts) (deadline callback callback_data e : ℕ) (r : Option ℕ) (t' : Timeouts)
    → t.head_empty ≡ some e
    → timeouts_insert fuel t deadline callback callback_data ≡ some (ret (r, t'))
    → r ≡ some e
unfolding timeouts_insert
timeouts_insert_takes fuel t deadline callback callback_data e r t' spare h = grind (
  arith,
  insert_alone_takes t deadline callback callback_data e r t',
  insert_first_takes t deadline callback callback_data e r t',
  insert_behind_takes,
)

-- The timeout in its place, in a node that is still the first empty one.
pub record InsertsBehind (fuel : ℕ) (t : Timeouts) (deadline callback callback_data e k : ℕ)
    (full : List ℕ) : Type 0 where
  pub after : Timeouts
  pub inserts : timeouts_insert fuel t deadline callback callback_data ≡ some (ret (some e, after))
  pub waiting : Chain after.timeouts after.head_full (k ∷ placed t.timeouts deadline e full)
  pub ordered : Ordered after.timeouts (k ∷ placed t.timeouts deadline e full)
  pub deadline_set : (after.timeouts e).deadline ≡ deadline
  pub still_empty : after.head_empty ≡ some e
  pub again :
      (fuel' deadline' callback' callback_data' : ℕ) (r : Option ℕ) (t' : Timeouts)
      → timeouts_insert fuel' after deadline' callback' callback_data' ≡ some (ret (r, t'))
      → r ≡ some e

timeouts_insert_behind :
    (fuel : ℕ) (t : Timeouts) (deadline callback callback_data e k tmp : ℕ) (full : List ℕ)
    (after : Timeouts)
    → t.head_empty ≡ some e
    → t.head_full ≡ some k
    → k < max_timeouts
    → (t.timeouts k).deadline ≤ deadline
    → walk fuel t deadline k ≡ some (ret tmp)
    → insert_behind t tmp deadline callback callback_data ≡ ret (some e, after)
    → timeouts_insert fuel t deadline callback callback_data ≡ some (ret (some e, after))
unfolding timeouts_insert
timeouts_insert_behind fuel t deadline callback callback_data e k tmp full after s f inside late w
      b =
    ground (arith, s, f, w, b)

-- In a valid table with an empty node, a timeout that is not earlier than the first is put behind
-- those that are not later, in order; but the node that holds it stays the first empty one, and
-- whatever is inserted next is put in that node again.
pub timeouts_insert-InsertsBehind :
    (fuel : ℕ) (t : Timeouts) (deadline callback callback_data e k : ℕ) (full empty : List ℕ)
    → IsValid t (k ∷ full) (e ∷ empty)
    → (t.timeouts k).deadline ≤ deadline
    → length full < fuel
    → InsertsBehind fuel t deadline callback callback_data e k full
timeouts_insert-InsertsBehind fuel t deadline callback callback_data e k full empty v late enough =
    let tmp = stop t.timeouts deadline k full in
    let away : Absent e (k ∷ full) = Apart-Absent (k ∷ full) e empty v.apart in
    let apart : e ≢ tmp = stop-ne t.timeouts deadline e k full away in
    let g = behind t.timeouts tmp e deadline callback callback_data in
    let linked =
      Linked-behind t.timeouts tmp e deadline callback callback_data (λ q. apart (sym q)) in
    let after : Timeouts = record t { timeouts = g } in
    record {
      after = after;
      inserts =
          timeouts_insert_behind fuel t deadline callback callback_data e k tmp full after v.spare.0
            v.waiting.0 v.waiting.1 late
            (walk-stop fuel t deadline k full enough v.waiting.1 v.waiting.2)
            (insert_behind_lem t tmp e deadline callback callback_data v.spare.0
              (λ q. apart (sym q)) (stop_inside t.timeouts deadline k full v.waiting.1 v.waiting.2)
              v.spare.1 (stop_next t.timeouts deadline k full v.waiting.2));
      waiting = (
        v.waiting.0,
        v.waiting.1,
        placed-Chain t.timeouts g deadline e tmp linked k full refl v.spare.1 away v.distinct
            v.waiting.2,
      );
      ordered = (
        subst (λ x. NotBefore g x (placed t.timeouts deadline e full))
            (sym (linked.deadline_other k (λ q. away.0 (sym q))))
            (placed-NotBefore t.timeouts g deadline e tmp linked (t.timeouts k).deadline full late
              away.1 v.ordered.0),
        placed-Ordered t.timeouts g deadline e tmp linked full away.1 v.ordered.1,
      );
      deadline_set = linked.deadline_e;
      still_empty = v.spare.0;
      again = λ fuel' d c x r t'. timeouts_insert_takes fuel' after d c x e r t' v.spare.0;
    }
