-- ===== src/RootServer/Clock/Links.antt =====
-- The nodes that `insert_behind` leaves.
use smos_thesis.Base.{ℕ, ◌<◌, ◌≡◌, ◌≢◌, Option, none, some, inl, inr, arith, ret, Option-cases}
use smos_thesis.RootServer.Clock.{
  TimeoutNode, Timeouts, max_timeouts, update, insert_behind, link_behind, link_ahead, fill_node,
}
use smos_thesis.RootServer.Clock.Placed.{Linked}

-- The nodes that `insert_behind` leaves.
abbrev back_linked : (ℕ → TimeoutNode) → Option ℕ → ℕ → ℕ → TimeoutNode
back_linked nodes none e = nodes
back_linked nodes (some j) e = update nodes j (record (nodes j) { prev = some e })

abbrev entered : (ℕ → TimeoutNode) → ℕ → ℕ → ℕ → ℕ → ℕ → TimeoutNode
entered nodes e deadline callback callback_data = update nodes e (record (nodes e) {
  deadline = deadline;
  callback = some callback;
  callback_data = callback_data;
})

abbrev two_linked : (ℕ → TimeoutNode) → ℕ → ℕ → ℕ → TimeoutNode
two_linked nodes tmp e =
    let own : TimeoutNode = record (nodes e) { next = (nodes tmp).next; prev = some tmp } in
    let first = update nodes e own in update first tmp (record (first tmp) { next = some e })

abbrev pub behind : (ℕ → TimeoutNode) → ℕ → ℕ → ℕ → ℕ → ℕ → ℕ → TimeoutNode
behind nodes tmp e deadline callback callback_data =
    entered (back_linked (two_linked nodes tmp e) (nodes tmp).next e) e deadline callback
      callback_data

pub Linked-behind :
    (nodes : ℕ → TimeoutNode) (tmp e deadline callback callback_data : ℕ)
    → tmp ≢ e
    → Linked nodes (behind nodes tmp e deadline callback callback_data) deadline e tmp
Linked-behind nodes tmp e deadline callback callback_data h = elim (Option-cases (nodes tmp).next) [
  | inl q ↦ record {
    next_tmp = ground (arith, q);
    next_e = ground (arith, q);
    next_other = λ j a b. ground (arith, q);
    deadline_e = ground (arith, q);
    deadline_other = λ j a. ground (arith, q);
  }
  | inr (k, q) ↦ record {
    next_tmp = ground (arith, q);
    next_e = ground (arith, q);
    next_other = λ j a b. ground (arith, q);
    deadline_e = ground (arith, q);
    deadline_other = λ j a. ground (arith, q);
  }
]

link_behind_lem :
    (t : Timeouts) (tmp e : ℕ)
    → tmp < max_timeouts
    → e < max_timeouts
    → link_behind t tmp e ≡ ret (record t { timeouts = two_linked t.timeouts tmp e })
unfolding link_behind
link_behind_lem t tmp e inside own = ground arith

link_ahead_lem :
    (t : Timeouts) (tmp e : ℕ)
    → tmp ≢ e
    → e < max_timeouts
    → ((j : ℕ) → (t.timeouts tmp).next ≡ some j → j < max_timeouts)
    → link_ahead (record t { timeouts = two_linked t.timeouts tmp e }) e
      ≡ ret (record t {
        timeouts = back_linked (two_linked t.timeouts tmp e) (t.timeouts tmp).next e;
      })
unfolding link_ahead
link_ahead_lem t tmp e ne own succ = elim (Option-cases (t.timeouts tmp).next) [
  | inl q ↦ ground (arith, q)
  | inr (k, q) ↦ ground (arith, q, succ k q)
]

fill_node_lem :
    (t : Timeouts) (e deadline callback callback_data : ℕ)
    → e < max_timeouts
    → fill_node t e deadline callback callback_data
      ≡ ret (record t { timeouts = entered t.timeouts e deadline callback callback_data })
unfolding fill_node
fill_node_lem t e deadline callback callback_data own = ground arith

pub insert_behind_lem :
    (t : Timeouts) (tmp e deadline callback callback_data : ℕ)
    → t.head_empty ≡ some e
    → tmp ≢ e
    → tmp < max_timeouts
    → e < max_timeouts
    → ((j : ℕ) → (t.timeouts tmp).next ≡ some j → j < max_timeouts)
    → insert_behind t tmp deadline callback callback_data
      ≡ ret
          (some e, record t { timeouts = behind t.timeouts tmp e deadline callback callback_data })
unfolding insert_behind
insert_behind_lem t tmp e deadline callback callback_data spare ne inside own succ =
    let linked = two_linked t.timeouts tmp e in
    let backed = back_linked linked (t.timeouts tmp).next e in
    ground (
      arith,
      spare,
      link_behind_lem t tmp e inside own,
      link_ahead_lem t tmp e ne own succ,
      fill_node_lem (record t { timeouts = backed }) e deadline callback callback_data own,
    )
