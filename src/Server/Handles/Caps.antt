-- ===== src/Server/Handles/Caps.antt =====
-- The capability table: its slots' handles, seen as a handle table.
use smos_thesis.Base.{
  ℕ, zero, suc, ◌+◌, ◌≤◌, ◌<◌, ◌≡◌, refl, ◌∙◌, ap, List, [], ◌∷◌, Option, none, some, false, Result,
  ok, err, ret, arith, leb, length, get_elem?, get_elem?-some,
}
use smos_thesis.Common.Errors.{InvocationError}
use smos_thesis.Server.Handles.{
  ServerHandle, HandleCapability, allocate_handle_cap_from, allocate_handle_cap, get_handle_cap,
}

module _ {ℓ} {T : Type ℓ} where
  -- A slot whose handle is present.
  abbrev pub CapOccupied : List (HandleCapability T) → ℕ → Type ℓ
  CapOccupied slots i =
      (c : HandleCapability T) × (h : ServerHandle T) × (get_elem? slots i ≡ some c)
      × (c.handle ≡ some h)

  pub data FreeCap (slots : List (HandleCapability T)) (base : ℕ)
      (r : Result InvocationError (ℕ × Option ℕ)) : Type ℓ where
    cap_at :
        (i : ℕ) (c : HandleCapability T)
        → r ≡ ok (base + i, c.root_cap)
        → get_elem? slots i ≡ some c
        → c.handle ≡ none
        → ((j : ℕ) → j < i → CapOccupied slots j)
        → FreeCap slots base r
    caps_taken :
        r ≡ err InvocationError.out_of_handle_caps
        → ((j : ℕ) → j < length slots → CapOccupied slots j)
        → FreeCap slots base r

  behind :
      (c : HandleCapability T) (h : ServerHandle T) (slots : List (HandleCapability T)) (n : ℕ)
      → c.handle ≡ some h
      → ((j : ℕ) → j < n → CapOccupied slots j)
      → (j : ℕ) → j < suc n
      → CapOccupied (c ∷ slots) j
  behind c h slots n e below zero hj = (c, h, refl, e)
  behind c h slots n e below (suc j) hj = below j (omega arith)

  skip_cap :
      (c : HandleCapability T) (h : ServerHandle T) (slots : List (HandleCapability T)) (base : ℕ)
      (r : Result InvocationError (ℕ × Option ℕ))
      → c.handle ≡ some h
      → FreeCap slots (base + 1) r
      → FreeCap (c ∷ slots) base r
  skip_cap c h slots base r e (cap_at i d eq here free below) =
      cap_at (suc i) d
        (eq
          ∙ ap {B = Result InvocationError (ℕ × Option ℕ)} (λ (n : ℕ). ok (n, d.root_cap))
              (omega arith))
        here free (behind c h slots i e below)
  skip_cap c h slots base r e (caps_taken eq all) =
      caps_taken eq (behind c h slots (length slots) e all)

  allocate_handle_cap_from-FreeCap :
      (slots : List (HandleCapability T)) (base : ℕ)
      → FreeCap slots base (allocate_handle_cap_from slots base)
  unfolding allocate_handle_cap_from
  allocate_handle_cap_from-FreeCap [] base = caps_taken refl (λ j h. elim h [ ])
  allocate_handle_cap_from-FreeCap (c ∷ slots) base =
      split c.handle refl (allocate_handle_cap_from-FreeCap slots (base + 1))
    where
      split :
          (o : Option (ServerHandle T))
          → c.handle ≡ o
          → FreeCap slots (base + 1) (allocate_handle_cap_from slots (base + 1))
          → FreeCap (c ∷ slots) base (allocate_handle_cap_from (c ∷ slots) base)
      split none e rest =
          cap_at 0 c
            (rw e (
              ap {B = Result InvocationError (ℕ × Option ℕ)} (λ (n : ℕ). ok (n, c.root_cap))
                (omega arith)))
            refl e (λ j h. elim h [ ])
      split (some h) e rest =
          let eq : allocate_handle_cap_from (c ∷ slots) base
              ≡ allocate_handle_cap_from slots (base + 1) =
            rw e refl in
          rw eq (skip_cap c h slots base _ e rest)

  -- `allocate_handle_cap` returns the least slot with no handle, with that slot's root
  -- capability, and `OutOfHandleCaps` exactly where every slot has one.
  pub allocate_handle_cap-FreeCap :
      (slots : List (HandleCapability T)) → FreeCap slots 0 (allocate_handle_cap slots)
  unfolding allocate_handle_cap
  allocate_handle_cap-FreeCap slots = allocate_handle_cap_from-FreeCap slots 0

  -- The capability table's guard is exact: an index is answered below the length, and refused from
  -- the length on.
  pub get_handle_cap_lem :
      (slots : List (HandleCapability T)) (idx : ℕ)
      → (idx < length slots
          → (c : HandleCapability T) × (get_elem? slots idx ≡ some c)
            × (get_handle_cap slots idx ≡ ret (ok c.handle)))
        × (length slots ≤ idx → get_handle_cap slots idx ≡ ret (err tt))
  unfolding get_handle_cap
  get_handle_cap_lem slots idx = (inside, λ h. ground arith)
    where
      inside :
          idx < length slots
          → (c : HandleCapability T) × (get_elem? slots idx ≡ some c)
            × (get_handle_cap slots idx ≡ ret (ok c.handle))
      inside lt =
          let (c, e) = get_elem?-some slots idx lt in
          let t : leb (length slots) idx ≡ false = ground arith in (c, e, rw (t, e) refl)
