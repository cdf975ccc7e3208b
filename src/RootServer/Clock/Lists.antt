-- ===== src/RootServer/Clock/Lists.antt =====
-- The two lists of the timeouts: the ones that wait, by their deadlines, and the empty ones.
use mathlib.Core.Path.{subst}
use smos_thesis.Base.{ℕ, ◌<◌, ◌≤◌, ◌≡◌, ◌≢◌, List, [], ◌∷◌, Option, none, some, arith}
use smos_thesis.RootServer.Clock.{TimeoutNode, Timeouts, max_timeouts, update}

-- The nodes from the head on, by their links.
abbrev pub Chain : (ℕ → TimeoutNode) → Option ℕ → List ℕ → Type 0
Chain nodes head [] = head ≡ none
Chain nodes head (i ∷ is) = (head ≡ some i) × (i < max_timeouts) × Chain nodes (nodes i).next is

abbrev pub Absent : ℕ → List ℕ → Type 0
Absent i [] = Unit
Absent i (j ∷ js) = (i ≢ j) × Absent i js

abbrev pub Apart : List ℕ → List ℕ → Type 0
Apart [] js = Unit
Apart (i ∷ is) js = Absent i js × Apart is js

abbrev pub Distinct : List ℕ → Type 0
Distinct [] = Unit
Distinct (i ∷ is) = Absent i is × Distinct is

-- No timeout of the list is due before the deadline.
abbrev pub NotBefore : (ℕ → TimeoutNode) → ℕ → List ℕ → Type 0
NotBefore nodes deadline [] = Unit
NotBefore nodes deadline (i ∷ is) = (deadline ≤ (nodes i).deadline) × NotBefore nodes deadline is

abbrev pub Ordered : (ℕ → TimeoutNode) → List ℕ → Type 0
Ordered nodes [] = Unit
Ordered nodes (i ∷ is) = NotBefore nodes (nodes i).deadline is × Ordered nodes is

-- What a waiting node holds.
abbrev pub HasCallbacks : (ℕ → TimeoutNode) → List ℕ → Type 0
HasCallbacks nodes [] = Unit
HasCallbacks nodes (i ∷ is) =
    ((callback : ℕ) × ((nodes i).callback ≡ some callback)) × HasCallbacks nodes is

-- The waiting timeouts `full` in the order of their deadlines, apart from the nodes `empty`.
pub record IsValid (t : Timeouts) (full empty : List ℕ) : Type 0 where
  pub waiting : Chain t.timeouts t.head_full full
  pub spare : Chain t.timeouts t.head_empty empty
  pub distinct : Distinct full
  pub distinct_spare : Distinct empty
  pub apart : Apart full empty
  pub ordered : Ordered t.timeouts full
  pub callbacks : HasCallbacks t.timeouts full

module _ (nodes : ℕ → TimeoutNode) (i : ℕ) (n : TimeoutNode) where
  -- A write to a node that is not in the list leaves the list.
  pub Chain-update :
      (is : List ℕ) (head : Option ℕ)
      → Absent i is
      → Chain nodes head is
      → Chain (update nodes i n) head is
  Chain-update [] head a h = h
  Chain-update (j ∷ js) head a h =
      let step : (nodes j).next ≡ (update nodes i n j).next = ground (arith, a.0) in
      (
        h.0,
        h.1,
        subst (λ x. Chain (update nodes i n) x js) step (Chain-update js (nodes j).next a.1 h.2),
      )

  -- So does a write that keeps the link.
  pub Chain-update_same :
      (is : List ℕ) (head : Option ℕ)
      → n.next ≡ (nodes i).next
      → Chain nodes head is
      → Chain (update nodes i n) head is
  Chain-update_same [] head e h = h
  Chain-update_same (j ∷ js) head e h =
      let step : (nodes j).next ≡ (update nodes i n j).next = ground (arith, e) in
      (
        h.0,
        h.1,
        subst (λ x. Chain (update nodes i n) x js) step (Chain-update_same js (nodes j).next e h.2),
      )

  -- Deadlines and callbacks of the other nodes.
  pub NotBefore-update :
      (deadline : ℕ) (is : List ℕ)
      → Absent i is
      → NotBefore nodes deadline is
      → NotBefore (update nodes i n) deadline is
  NotBefore-update deadline [] a h = tt
  NotBefore-update deadline (j ∷ js) a h =
      (ground (arith, a.0), NotBefore-update deadline js a.1 h.1)

  pub Ordered-update :
      (is : List ℕ) → Absent i is → Ordered nodes is → Ordered (update nodes i n) is
  Ordered-update [] a h = tt
  Ordered-update (j ∷ js) a h =
      let same : (nodes j).deadline ≡ (update nodes i n j).deadline = ground (arith, a.0) in
      (
        subst (λ d. NotBefore (update nodes i n) d js) same (NotBefore-update _ js a.1 h.0),
        Ordered-update js a.1 h.1,
      )

  pub HasCallbacks-update :
      (is : List ℕ) → Absent i is → HasCallbacks nodes is → HasCallbacks (update nodes i n) is
  HasCallbacks-update [] a h = tt
  HasCallbacks-update (j ∷ js) a h =
      ((h.0.0, ground (arith, a.0, h.0.1)), HasCallbacks-update js a.1 h.1)

  -- The same where the write keeps the deadline and the callback.
  pub NotBefore-update_same :
      (deadline : ℕ) (is : List ℕ)
      → n.deadline ≡ (nodes i).deadline
      → NotBefore nodes deadline is
      → NotBefore (update nodes i n) deadline is
  NotBefore-update_same deadline [] e h = tt
  NotBefore-update_same deadline (j ∷ js) e h =
      (ground (arith, e), NotBefore-update_same deadline js e h.1)

  pub Ordered-update_same :
      (is : List ℕ)
      → n.deadline ≡ (nodes i).deadline
      → Ordered nodes is
      → Ordered (update nodes i n) is
  Ordered-update_same [] e h = tt
  Ordered-update_same (j ∷ js) e h =
      let same : (nodes j).deadline ≡ (update nodes i n j).deadline = ground (arith, e) in
      (
        subst (λ d. NotBefore (update nodes i n) d js) same (NotBefore-update_same _ js e h.0),
        Ordered-update_same js e h.1,
      )

  pub HasCallbacks-update_same :
      (is : List ℕ)
      → n.callback ≡ (nodes i).callback
      → HasCallbacks nodes is
      → HasCallbacks (update nodes i n) is
  HasCallbacks-update_same [] e h = tt
  HasCallbacks-update_same (j ∷ js) e h =
      ((h.0.0, ground (arith, e, h.0.1)), HasCallbacks-update_same js e h.1)
