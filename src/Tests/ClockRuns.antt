-- ===== src/Tests/ClockRuns.antt =====
-- Timeouts of the root server's timer.
use smos_thesis.Base.{ℕ, ◌+◌, ◌*◌, refl, true, [], ◌∷◌, none, some, ret, arith, ◌==◌, if◌then◌else◌}
use smos_thesis.RootServer.Clock.{Timeouts, Hardware}
use smos_thesis.RootServer.Clock.Lists.{IsValid}
use smos_thesis.RootServer.Clock.RemoveMin.{TakesFirst, timeouts_remove_min-TakesFirst}
use smos_thesis.RootServer.Clock.Insert.{InsertsFirst, timeouts_insert-InsertsFirst}
use smos_thesis.RootServer.Clock.Behind.{InsertsBehind, timeouts_insert-InsertsBehind}
use smos_thesis.RootServer.Clock.Fires.{FiresDue, fire_due-FiresDue}

-- Nodes 0 and 1 wait, for 10 and 20; nodes 2 and 3 are empty.
abbrev two_waiting : Timeouts
two_waiting = record {
  head_full = some 0;
  head_empty = some 2;
  timeouts = λ i. record {
    deadline = (i + 1) * 10;
    callback = some 7;
    callback_data = i;
    next = if i == 0 then some 1 else if i == 2 then some 3 else none;
    prev = if i == 1 then some 0 else none;
  };
}

two_waiting-IsValid : IsValid two_waiting (0 ∷ 1 ∷ []) (2 ∷ 3 ∷ [])
two_waiting-IsValid = record {
  waiting = (refl, omega arith, (refl, omega arith, refl));
  spare = (refl, omega arith, (refl, omega arith, refl));
  distinct = ((omega arith, tt), (tt, tt));
  distinct_spare = ((omega arith, tt), (tt, tt));
  apart = ((omega arith, (omega arith, tt)), ((omega arith, (omega arith, tt)), tt));
  ordered = ((omega arith, tt), (tt, tt));
  callbacks = ((7, refl), ((7, refl), tt));
}

-- The world counts the calls; the data of a call is added as well.
abbrev run : ℕ → ℕ → ℕ → ℕ → ℕ
run callback number callback_data w = w + 100 * number + callback_data

abbrev hw : Hardware ℕ
hw = record {
  get_time = λ w. (15, w);
  configure_timeout_at = λ curr_time deadline w. w;
  disable_timer = λ w. w;
  irq_handler_ack = λ w. (true, w);
  callback = λ callback number callback_data t w. ret (t, run callback number callback_data w);
}

timeouts_remove_min-TakesFirst_example : TakesFirst two_waiting 0 (1 ∷ []) (2 ∷ 3 ∷ [])
timeouts_remove_min-TakesFirst_example =
    timeouts_remove_min-TakesFirst two_waiting 0 (1 ∷ []) (2 ∷ 3 ∷ []) two_waiting-IsValid

timeouts_insert-InsertsFirst_example : InsertsFirst 5 two_waiting 4 7 0 2 (0 ∷ 1 ∷ []) (3 ∷ [])
timeouts_insert-InsertsFirst_example =
    timeouts_insert-InsertsFirst 5 two_waiting 4 7 0 2 (0 ∷ 1 ∷ []) (3 ∷ []) two_waiting-IsValid
      (omega arith)

timeouts_insert-InsertsBehind_example : InsertsBehind 5 two_waiting 15 7 0 2 0 (1 ∷ [])
timeouts_insert-InsertsBehind_example =
    timeouts_insert-InsertsBehind 5 two_waiting 15 7 0 2 0 (1 ∷ []) (3 ∷ []) two_waiting-IsValid
      (omega arith) (omega arith)

-- The first one is due at 15.
fire_due-FiresDue_example : FiresDue run hw 5 15 two_waiting 0 (0 ∷ 1 ∷ []) (2 ∷ 3 ∷ [])
fire_due-FiresDue_example =
    fire_due-FiresDue run hw 5 15 (0 ∷ 1 ∷ []) two_waiting 0 (2 ∷ 3 ∷ [])
      (λ callback number callback_data t w. refl) two_waiting-IsValid (omega arith)
