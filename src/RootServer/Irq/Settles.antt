-- ===== src/RootServer/Irq/Settles.antt =====
-- How the calls of a registration end: on a failed step, or in a world to which calls lead.
use smos_thesis.Base.{
  ℕ, ◌≡◌, ◌⊎◌, refl, Bool, ◌&&◌, inl, inr, arith, ltb, leb, ok, err, Result-cases, Run, Run-cases,
  ret, panic, Bool-cases,
}
use smos_thesis.RootServer.Kernel.{SelError}
use smos_thesis.RootServer.Irq.{IrqServices, deleted, irq_control_get}
use smos_thesis.RootServer.Irq.Registers.{
  StepFailed, alloc_panics, free_panics, after_alloc, after_free, after_delete, after_trigger,
  delete_failed, trigger_failed,
}

-- How a step ends that returns a `Run`.
module _ {World : Type 0} (s : IrqServices World) where
  -- A failed step, or a return to a world to which calls lead.
  abbrev pub Settles : {A : Type 0} → World → (A → World) → Run A → Type 0
  Settles {A} w world r =
      StepFailed s w × (r ≡ panic)
      ⊎ ((a : A) × (r ≡ ret a) × (StepFailed s (world a) → StepFailed s w))

  pub alloc_slot-Settles : (w : World) → Settles w (λ a. a.1) (s.alloc_slot w)
  alloc_slot-Settles w = elim (Run-cases (s.alloc_slot w)) [
    | inl e ↦ inl (alloc_panics w e, e)
    | inr (a, e) ↦ inr (a, e, after_alloc w a.1 a.0 e)
  ]

  pub free_slot-Settles : (w : World) (slot : ℕ) → Settles w (λ a. a) (s.free_slot w slot)
  free_slot-Settles w slot = elim (Run-cases (s.free_slot w slot)) [
    | inl e ↦ inl (free_panics w slot e, e)
    | inr (a, e) ↦ inr (a, e, after_free w a slot e)
  ]

  pub deleted-Settles : (w : World) (cap : ℕ) → Settles w (λ a. a) (deleted s w cap)
  unfolding deleted
  deleted-Settles w cap = elim (Result-cases (s.delete_cap w cap).0) [
    | inl (e, is) ↦ inl (delete_failed w cap e is, rw (deleted, is) refl)
    | inr (u, is) ↦ inr ((s.delete_cap w cap).1, rw (deleted, is) refl, after_delete w cap)
  ]

  -- The handler is the capability in the slot.
  pub irq_control_get-Settles :
      (w : World) (slot control irq : ℕ) (edge : Bool)
      → StepFailed s w × (irq_control_get s w slot control irq edge ≡ panic)
        ⊎ ((w' : World) × (((e : SelError) × (irq_control_get s w slot control irq edge
                  ≡ ret (err e, w')))
              ⊎ (irq_control_get s w slot control irq edge ≡ ret (ok slot, w')))
            × (StepFailed s w' → StepFailed s w))
  unfolding irq_control_get
  irq_control_get-Settles w slot control irq edge =
      let t = s.irq_control_get_trigger w control irq edge slot in
      let after : StepFailed s t.1 → StepFailed s w = after_trigger w control irq slot edge in
      elim (Bool-cases (leb 16 irq && ltb irq 32)) [
        | inl own ↦ elim (Result-cases t.0) [
          | inl (e, is) ↦ inl (
            trigger_failed w control irq slot edge e (ground (arith, own)) (ground (arith, own)) is,
            rw (own, is) refl,
          )
          | inr (u, is) ↦ inr (t.1, inr (rw (own, is) refl), after)
        ]
        | inr shared ↦ elim (Bool-cases (leb 32 irq && ltb irq 1021)) [
          | inl known ↦ elim (Result-cases t.0) [
            | inl (e, is) ↦
                inr (t.1, inl (SelError.invalid_argument, rw (shared, known, is) refl), after)
            | inr (u, is) ↦ inr (t.1, inr (rw (shared, known, is) refl), after)
          ]
          | inr unknown ↦
              inr (w, inl (SelError.invalid_argument, rw (shared, unknown) refl), λ x. x)
        ]
      ]
