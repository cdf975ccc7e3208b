-- ===== src/RootServer/Clock.antt =====
-- crates/root_server/src/clock.rs: the timeouts of the root server's timer, in an array that holds
-- two linked lists.
pub mod Lists
pub mod RemoveMin
pub mod Insert
pub mod Placed
pub mod Links
pub mod Behind
pub mod Due
pub mod Fires
use smos_thesis.Base.{
  ℕ, zero, suc, ◌+◌, ◌≡◌, Bool, true, false, not, ◌&&◌, Option, none, some, is_none, Run, ret,
  panic, ◌>>=◌, unwrap, Result, ok, err, ltb, leb, ◌==◌, if◌then◌else◌,
}
use smos_thesis.RootServer.Kernel.{SelError, not_enough_memory}
use smos_thesis.RootServer.Windows.{add_word}

-- A callback is named by a number, and its data is a pointer.
pub record TimeoutNode : Type 0 where
  pub deadline : ℕ
  pub callback : Option ℕ
  pub callback_data : ℕ
  pub next : Option ℕ
  pub prev : Option ℕ

abbrev pub max_timeouts : ℕ
max_timeouts = 1024

pub record Timeouts : Type 0 where
  pub head_full : Option ℕ
  pub head_empty : Option ℕ
  pub timeouts : ℕ → TimeoutNode

abbrev empty_node : TimeoutNode
empty_node = record { deadline = 0; callback = none; callback_data = 0; next = none; prev = none }

-- The statics as they are declared.
abbrev pub initial : Timeouts
initial = record { head_full = none; head_empty = some 0; timeouts = λ i. empty_node }

-- `TIMEOUTS[i]` and its assignment, which panic out of bounds.
abbrev pub node : Timeouts → ℕ → Run TimeoutNode
node t i = if ltb i max_timeouts then ret (t.timeouts i) else panic

abbrev pub update : (ℕ → TimeoutNode) → ℕ → TimeoutNode → ℕ → TimeoutNode
update nodes i n j = if j == i then n else nodes j

abbrev pub put : Timeouts → ℕ → TimeoutNode → Run Timeouts
put t i n =
    if ltb i max_timeouts then ret (record t { timeouts = update t.timeouts i n }) else panic

unfoldable pub timeouts_empty : Timeouts → Bool
timeouts_empty t = is_none t.head_full

unfoldable pub timeouts_full : Timeouts → Bool
timeouts_full t = is_none t.head_empty

unfoldable pub timeouts_peek : Timeouts → Run (Option ℕ)
unfolding timeouts_empty
timeouts_peek t =
    if timeouts_empty t
    then ret none
    else (do i ← unwrap t.head_full; n ← node t i; ret (some n.deadline))

abbrev clear_prev : Timeouts → Option ℕ → Run Timeouts
clear_prev t none = ret t
clear_prev t (some head) = do n ← node t head; put t head (record n { prev = none })

-- The deadline, the callback and its data, and the index, which becomes the first empty one.
unfoldable pub timeouts_remove_min : Timeouts → Run ((ℕ × ℕ × ℕ × ℕ) × Timeouts)
timeouts_remove_min t = do
  rm_index ← unwrap t.head_full
  head ← node t rm_index
  t' ← clear_prev (record t { head_full = head.next }) head.next
  n ← node t' rm_index
  t'' ← put t' rm_index (record n { next = t'.head_empty })
  m ← node t'' rm_index
  callback ← unwrap m.callback
  ret ((m.deadline, callback, m.callback_data, rm_index), record t'' { head_empty = some rm_index })

-- `timeouts_init` up to `i`.
abbrev linked_up_to : ℕ → Timeouts → Timeouts
linked_up_to bound t = record t {
  timeouts = λ j. record (t.timeouts j) {
    next = if ltb j bound then some (j + 1) else (if j == bound then none else (t.timeouts j).next);
  };
}

unfoldable pub timeouts_init : Timeouts → Timeouts
timeouts_init t = linked_up_to 1023 t

-- `while TIMEOUTS[tmp].next.is_some() && ..`: the last node on the way that is not later than the
-- deadline; `none` means that the fuel ran out.
unfoldable pub walk : ℕ → Timeouts → ℕ → ℕ → Option (Run ℕ)
walk zero t deadline tmp = none
walk (suc fuel) t deadline tmp = elim (node t tmp) [
  | panic ↦ some panic
  | ret n ↦ elim n.next [
    | none ↦ some (ret tmp)
    | some j ↦ elim (node t j) [
      | panic ↦ some panic
      | ret after ↦ elim (leb after.deadline deadline) [
        | true ↦ walk fuel t deadline j
        | false ↦ some (ret tmp)
      ]
    ]
  ]
]

unfoldable pub insert_alone : Timeouts → ℕ → ℕ → ℕ → Run (Option ℕ × Timeouts)
insert_alone t deadline callback callback_data = do
  e ← unwrap t.head_empty
  n ← node t e
  t' ←
      put (record t { head_full = t.head_empty; head_empty = n.next }) e
        (record {
          deadline = deadline;
          callback = some callback;
          callback_data = callback_data;
          next = none;
          prev = none;
        })
  ret (some e, t')

unfoldable pub insert_first : Timeouts → ℕ → ℕ → ℕ → Run (Option ℕ × Timeouts)
insert_first t deadline callback callback_data = do
  e ← unwrap t.head_empty
  n ← node t e
  t1 ← put (record t { head_empty = n.next }) e (record n { next = t.head_full })
  h ← unwrap t.head_full
  head ← node t1 h
  t2 ← put t1 h (record head { prev = some e })
  m ← node t2 e
  t3 ←
      put (record t2 { head_full = some e }) e
        (record m { deadline = deadline; callback = some callback; callback_data = callback_data })
  ret (some e, t3)

abbrev set_back_link : Timeouts → Option ℕ → ℕ → Run Timeouts
set_back_link t none e = ret t
set_back_link t (some j) e = do n ← node t j; put t j (record n { prev = some e })

-- The node `e` comes behind the node `tmp`.
unfoldable pub link_behind : Timeouts → ℕ → ℕ → Run Timeouts
link_behind t tmp e = do
  before ← node t tmp
  n ← node t e
  t' ← put t e (record n { next = before.next; prev = some tmp })
  b ← node t' tmp
  put t' tmp (record b { next = some e })

unfoldable pub fill_node : Timeouts → ℕ → ℕ → ℕ → ℕ → Run Timeouts
fill_node t e deadline callback callback_data = do
  m ← node t e
  put t e
      (record m { deadline = deadline; callback = some callback; callback_data = callback_data })

unfoldable pub link_ahead : Timeouts → ℕ → Run Timeouts
link_ahead t e = do n ← node t e; set_back_link t n.next e

-- The head of the empty nodes is not moved on.
unfoldable pub insert_behind : Timeouts → ℕ → ℕ → ℕ → ℕ → Run (Option ℕ × Timeouts)
insert_behind t tmp deadline callback callback_data = do
  e ← unwrap t.head_empty
  linked ← link_behind t tmp e
  backed ← link_ahead linked e
  filled ← fill_node backed e deadline callback callback_data
  ret (some e, filled)

abbrev first_node : Timeouts → Run (ℕ × TimeoutNode)
first_node t = do h ← unwrap t.head_full; n ← node t h; ret (h, n)

abbrev walked :
    Option (Run ℕ) → (ℕ → Run (Option ℕ × Timeouts)) → Option (Run (Option ℕ × Timeouts))
walked none f = none
walked (some panic) f = some panic
walked (some (ret tmp)) f = some (f tmp)

-- `none` means that the fuel of the walk ran out.
unfoldable pub timeouts_insert : ℕ → Timeouts → ℕ → ℕ → ℕ → Option (Run (Option ℕ × Timeouts))
unfolding timeouts_full timeouts_empty
timeouts_insert fuel t deadline callback callback_data =
    if timeouts_full t
    then some (ret (none, t))
    else if timeouts_empty t
    then some (insert_alone t deadline callback callback_data)
    else elim (first_node t) [
      | panic ↦ some panic
      | ret (h, head) ↦ elim (ltb deadline head.deadline) [
        | true ↦ some (insert_first t deadline callback callback_data)
        | false ↦
            walked (walk fuel t deadline h)
              (λ tmp. insert_behind t tmp deadline callback callback_data)
      ]
    ]

-- The hardware timer, and the call of a callback with its number, which may use the timeouts.
pub record Hardware (World : Type 0) : Type 0 where
  pub get_time : World → ℕ × World
  pub configure_timeout_at : ℕ → ℕ → World → World
  pub disable_timer : World → World
  pub irq_handler_ack : World → Bool × World
  pub callback : ℕ → ℕ → ℕ → Timeouts → World → Run (Timeouts × World)

module _ {World : Type 0} (hw : Hardware World) where
  -- One round of the loop: the first timeout leaves the list and is called with its index plus 1.
  unfoldable pub fire : Timeouts → World → Run (Timeouts × World)
  fire t w = do
    out ← timeouts_remove_min t
    let (deadline, callback, callback_data, min_index) = out.0
    hw.callback callback (min_index + 1) callback_data out.1 w

  -- The loop of `timer_irq`; `none` means that the fuel ran out.
  unfoldable pub fire_due : ℕ → ℕ → Timeouts → World → Option (Run (Timeouts × World × Option ℕ))
  unfolding fire
  fire_due zero curr_time t w = none
  fire_due (suc fuel) curr_time t w = elim (timeouts_peek t) [
    | panic ↦ some panic
    | ret none ↦ some (ret (t, w, none))
    | ret (some deadline) ↦ elim (leb deadline curr_time) [
      | false ↦ some (ret (t, w, some deadline))
      | true ↦ elim (fire t w) [ panic ↦ some panic | ret (t', w') ↦ fire_due fuel curr_time t' w' ]
    ]
  ]

  abbrev rearm : ℕ → Option ℕ → World → World
  rearm curr_time none w = hw.disable_timer w
  rearm curr_time (some deadline) w = hw.configure_timeout_at curr_time deadline w

  abbrev acknowledged : Timeouts → World → Run (ℕ × Timeouts × World)
  acknowledged t w =
      let (acked, w') = hw.irq_handler_ack w in if acked then ret (0, t, w') else panic

  abbrev after_loop :
      ℕ → Option (Run (Timeouts × World × Option ℕ)) → Option (Run (ℕ × Timeouts × World))
  after_loop curr_time none = none
  after_loop curr_time (some panic) = some panic
  after_loop curr_time (some (ret (t, w, deadline))) =
      some (acknowledged t (rearm curr_time deadline w))

  unfoldable pub timer_irq : ℕ → Timeouts → World → Option (Run (ℕ × Timeouts × World))
  unfolding fire_due
  timer_irq fuel t w =
      let (curr_time, w') = hw.get_time w in after_loop curr_time (fire_due fuel curr_time t w')

  abbrev programmed : ℕ → ℕ → Option ℕ → World → World
  programmed curr_time deadline none w = hw.configure_timeout_at curr_time deadline w
  programmed curr_time deadline (some prev) w =
      if ltb deadline prev then hw.configure_timeout_at curr_time deadline w else w

  abbrev registration :
      ℕ
      → ℕ
      → Option ℕ
      → World
      → Option (Run (Option ℕ × Timeouts))
      → Option (Run (Result SelError (Unit {0}) × Timeouts × World))
  registration curr_time deadline smallest w none = none
  registration curr_time deadline smallest w (some panic) = some panic
  registration curr_time deadline smallest w (some (ret (none, t))) =
      some (ret (err not_enough_memory, t, w))
  registration curr_time deadline smallest w (some (ret (some i, t))) =
      some (ret (ok tt, t, programmed curr_time deadline smallest w))

  unfoldable pub register_timer :
      ℕ
      → Timeouts
      → ℕ
      → ℕ
      → ℕ
      → World
      → Option (Run (Result SelError (Unit {0}) × Timeouts × World))
  register_timer fuel t delay callback callback_data w =
      let (curr_time, w') = hw.get_time w in
      let deadline = add_word curr_time delay in
      elim (timeouts_peek t) [
        | panic ↦ some panic
        | ret smallest ↦
            registration curr_time deadline smallest w'
              (timeouts_insert fuel t deadline callback callback_data)
      ]
