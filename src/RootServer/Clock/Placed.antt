-- ===== src/RootServer/Clock/Placed.antt =====
-- Where a timeout is placed among those that wait, and that the list then is a list in order.
use mathlib.Core.Path.{subst}
use smos_thesis.Base.{
  ℕ, zero, suc, ◌<◌, ◌≤◌, ◌≡◌, ◌≢◌, refl, sym, ◌∙◌, ap, List, [], ◌∷◌, Option, some, inl, inr,
  arith, ret, leb, if◌then◌else◌, length, Bool-cases,
}
use smos_thesis.RootServer.Clock.{TimeoutNode, Timeouts, max_timeouts, walk}
use smos_thesis.RootServer.Clock.Lists.{Chain, Absent, Distinct, NotBefore, Ordered}
use smos_thesis.RootServer.Clock.Insert.{NotBefore-below}

-- The last timeout of `k ∷ full` that is not later than the deadline, where the first is not.
abbrev pub stop : (ℕ → TimeoutNode) → ℕ → ℕ → List ℕ → ℕ
stop nodes deadline k [] = k
stop nodes deadline k (j ∷ js) =
    if leb (nodes j).deadline deadline then stop nodes deadline j js else k

-- `e` behind the timeouts that are not later.
abbrev pub placed : (ℕ → TimeoutNode) → ℕ → ℕ → List ℕ → List ℕ
placed nodes deadline e [] = e ∷ []
placed nodes deadline e (j ∷ js) =
    if leb (nodes j).deadline deadline then j ∷ placed nodes deadline e js else e ∷ j ∷ js

pub walk-stop :
    (fuel : ℕ) (t : Timeouts) (deadline k : ℕ) (full : List ℕ)
    → length full < fuel
    → k < max_timeouts
    → Chain t.timeouts (t.timeouts k).next full
    → walk fuel t deadline k ≡ some (ret (stop t.timeouts deadline k full))
unfolding walk
walk-stop zero t deadline k full h inside c = elim h [ ]
walk-stop (suc fuel) t deadline k [] h inside c = ground (arith, c)
walk-stop (suc fuel) t deadline k (j ∷ js) h inside c =
    ground (arith, c.0, c.1, walk-stop fuel t deadline j js (omega arith) c.1 c.2)

pub stop-ne :
    (nodes : ℕ → TimeoutNode) (deadline i k : ℕ) (full : List ℕ)
    → Absent i (k ∷ full)
    → i ≢ stop nodes deadline k full
stop-ne nodes deadline i k [] a = a.0
stop-ne nodes deadline i k (j ∷ js) a = elim (Bool-cases (leb (nodes j).deadline deadline)) [
  | inl e ↦ rw e (stop-ne nodes deadline i j js a.1)
  | inr e ↦ rw e a.0
]

pub stop_inside :
    (nodes : ℕ → TimeoutNode) (deadline k : ℕ) (full : List ℕ)
    → k < max_timeouts
    → Chain nodes (nodes k).next full
    → stop nodes deadline k full < max_timeouts
stop_inside nodes deadline k [] inside c = inside
stop_inside nodes deadline k (j ∷ js) inside c =
    elim (Bool-cases (leb (nodes j).deadline deadline)) [
      | inl e ↦ rw e (stop_inside nodes deadline j js c.1 c.2)
      | inr e ↦ rw e inside
    ]

-- The nodes after the insertion of `e` behind `tmp`.
pub record Linked (nodes g : ℕ → TimeoutNode) (deadline e tmp : ℕ) : Type 0 where
  pub next_tmp : (g tmp).next ≡ some e
  pub next_e : (g e).next ≡ (nodes tmp).next
  pub next_other : (j : ℕ) → j ≢ tmp → j ≢ e → (g j).next ≡ (nodes j).next
  pub deadline_e : (g e).deadline ≡ deadline
  pub deadline_other : (j : ℕ) → j ≢ e → (g j).deadline ≡ (nodes j).deadline

module _ (nodes g : ℕ → TimeoutNode) (deadline e tmp : ℕ) (l : Linked nodes g deadline e tmp) where
  Chain-other :
      (is : List ℕ) (head : Option ℕ)
      → Absent tmp is
      → Absent e is
      → Chain nodes head is
      → Chain g head is
  Chain-other [] head a b c = c
  Chain-other (j ∷ js) head a b c =
      let same = l.next_other j (λ q. a.0 (sym q)) (λ q. b.0 (sym q)) in
      (c.0, c.1, subst (λ h. Chain g h js) (sym same) (Chain-other js (nodes j).next a.1 b.1 c.2))

  NotBefore-other : (d : ℕ) (is : List ℕ) → Absent e is → NotBefore nodes d is → NotBefore g d is
  NotBefore-other d [] b h = tt
  NotBefore-other d (j ∷ js) b h =
      (rw (l.deadline_other j (λ q. b.0 (sym q))) h.0, NotBefore-other d js b.1 h.1)

  Ordered-other : (is : List ℕ) → Absent e is → Ordered nodes is → Ordered g is
  Ordered-other [] b h = tt
  Ordered-other (j ∷ js) b h = (
    rw (l.deadline_other j (λ q. b.0 (sym q))) (NotBefore-other _ js b.1 h.0),
    Ordered-other js b.1 h.1,
  )

  pub placed-Chain :
      (k : ℕ) (full : List ℕ)
      → tmp ≡ stop nodes deadline k full
      → e < max_timeouts
      → Absent e (k ∷ full)
      → Distinct (k ∷ full)
      → Chain nodes (nodes k).next full
      → Chain g (g k).next (placed nodes deadline e full)
  placed-Chain k [] at inside b d c =
      (ground (arith, at, l.next_tmp), inside, ground (arith, at, c, l.next_e))
  placed-Chain k (j ∷ js) at inside b d c = elim (Bool-cases (leb (nodes j).deadline deadline)) [
    | inl q ↦
        (let at' : tmp ≡ stop nodes deadline j js = at ∙ rw q refl in
          let away : k ≢ tmp = λ r. stop-ne nodes deadline k j js d.0 (r ∙ at') in
          rw q (
            l.next_other k away (λ r. b.0 (sym r)) ∙ c.0,
            c.1,
            placed-Chain j js at' inside b.1 d.1 c.2,
          ))
    | inr q ↦
        (let at' : tmp ≡ k = at ∙ rw q refl in
          let same : (nodes k).next ≡ (g e).next = sym (l.next_e ∙ ap (λ x. (nodes x).next) at') in
          rw q (
            ap (λ x. (g x).next) (sym at') ∙ l.next_tmp,
            inside,
            subst (λ h. Chain g h (j ∷ js)) same
                (Chain-other (j ∷ js) (nodes k).next (subst (λ x. Absent x (j ∷ js)) (sym at') d.0)
                  b.1 c),
          ))
  ]

  pub placed-NotBefore :
      (d : ℕ) (full : List ℕ)
      → d ≤ deadline
      → Absent e full
      → NotBefore nodes d full
      → NotBefore g d (placed nodes deadline e full)
  placed-NotBefore d [] le b h = (rw l.deadline_e le, tt)
  placed-NotBefore d (j ∷ js) le b h = elim (Bool-cases (leb (nodes j).deadline deadline)) [
    | inl q ↦
        rw q (rw (l.deadline_other j (λ p. b.0 (sym p))) h.0, placed-NotBefore d js le b.1 h.1)
    | inr q ↦ rw q (rw l.deadline_e le, NotBefore-other d (j ∷ js) b h)
  ]

  pub placed-Ordered :
      (full : List ℕ)
      → Absent e full
      → Ordered nodes full
      → Ordered g (placed nodes deadline e full)
  placed-Ordered [] b h = (tt, tt)
  placed-Ordered (j ∷ js) b h = elim (Bool-cases (leb (nodes j).deadline deadline)) [
    | inl q ↦ rw q (
      rw (l.deadline_other j (λ p. b.0 (sym p)))
          (placed-NotBefore (nodes j).deadline js (ground arith) b.1 h.0),
      placed-Ordered js b.1 h.1,
    )
    | inr q ↦ rw q (
      subst (λ x. NotBefore g x (j ∷ js)) (sym l.deadline_e)
          (NotBefore-other deadline (j ∷ js) b (
            ground arith,
            NotBefore-below nodes deadline (nodes j).deadline js (ground arith) h.0,
          )),
      Ordered-other (j ∷ js) b h,
    )
  ]

pub stop_next :
    (nodes : ℕ → TimeoutNode) (deadline k : ℕ) (full : List ℕ)
    → Chain nodes (nodes k).next full
    → (j : ℕ) → (nodes (stop nodes deadline k full)).next ≡ some j
    → j < max_timeouts
stop_next nodes deadline k [] c j h = ground (arith, c)
stop_next nodes deadline k (i ∷ is) c j h = elim (Bool-cases (leb (nodes i).deadline deadline)) [
  | inl q ↦ stop_next nodes deadline i is c.2 j (
      ap (λ x. (nodes x).next)
        (sym (let e : stop nodes deadline k (i ∷ is) ≡ stop nodes deadline i is = rw q refl in e))
      ∙ h)
  | inr q ↦
      (let e : stop nodes deadline k (i ∷ is) ≡ k = rw q refl in
        let n : some j ≡ some i = sym h ∙ ap (λ x. (nodes x).next) e ∙ c.0 in
        ground (arith, n, c.1))
]
