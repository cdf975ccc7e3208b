-- ===== src/Server/Handles/Table.antt =====
-- The handle table: which slot is handed out, and what each index finds.
use smos_thesis.Base.{
  ℕ, zero, suc, ◌+◌, ◌<◌, ◌≡◌, refl, ◌∙◌, ap, List, [], ◌∷◌, Option, none, some, false, Result, ok,
  err, ret, panic, arith, ltb, length, get_elem?, get_elem?-some, get_elem?_past,
}
use smos_thesis.Common.Errors.{InvocationError}
use smos_thesis.Server.Handles.{ServerHandle, allocate_handle_from, allocate_handle, get_handle}

module _ {ℓ} {T : Type ℓ} where
  -- A slot that holds a handle.
  abbrev pub Occupied : List (Option (ServerHandle T)) → ℕ → Type ℓ
  Occupied table i = (h : ServerHandle T) × (get_elem? table i ≡ some (some h))

  -- The specification of an allocation at offset `base`.
  pub data FreeSlot (table : List (Option (ServerHandle T))) (base : ℕ)
      (r : Result InvocationError ℕ) : Type ℓ where
    free_at :
        (i : ℕ)
        → r ≡ ok (base + i)
        → get_elem? table i ≡ some none
        → ((j : ℕ) → j < i → Occupied table j)
        → FreeSlot table base r
    all_taken :
        r ≡ err InvocationError.out_of_handles
        → ((j : ℕ) → j < length table → Occupied table j)
        → FreeSlot table base r

  behind :
      (h : ServerHandle T) (table : List (Option (ServerHandle T))) (n : ℕ)
      → ((j : ℕ) → j < n → Occupied table j)
      → (j : ℕ) → j < suc n
      → Occupied (some h ∷ table) j
  behind h table n below zero hj = (h, refl)
  behind h table n below (suc j) hj = below j (omega arith)

  allocate_handle_from-FreeSlot :
      (table : List (Option (ServerHandle T))) (base : ℕ)
      → FreeSlot table base (allocate_handle_from table base)
  unfolding allocate_handle_from
  allocate_handle_from-FreeSlot [] base = all_taken refl (λ j h. elim h [ ])
  allocate_handle_from-FreeSlot (none ∷ table) base =
      free_at 0 (ap ok (omega arith)) refl (λ j h. elim h [ ])
  allocate_handle_from-FreeSlot (some h ∷ table) base =
      from (allocate_handle_from table (base + 1)) (allocate_handle_from-FreeSlot table (base + 1))
    where
      from :
          (r : Result InvocationError ℕ)
          → FreeSlot table (base + 1) r
          → FreeSlot (some h ∷ table) base r
      from r (free_at i e here below) =
          free_at (suc i) (e ∙ ap ok (omega arith)) here (behind h table i below)
      from r (all_taken e all) = all_taken e (behind h table (length table) all)

  -- `allocate_handle` returns the least index whose slot is empty, and `OutOfHandles` exactly
  -- where no slot is.
  pub allocate_handle-FreeSlot :
      (table : List (Option (ServerHandle T))) → FreeSlot table 0 (allocate_handle table)
  unfolding allocate_handle
  allocate_handle-FreeSlot table = allocate_handle_from-FreeSlot table 0

  -- What `get_handle` answers at each index: the slot below the table's length, a panic at the
  -- length, and an error above it.
  pub get_handle_lem :
      (table : List (Option (ServerHandle T))) (idx : ℕ)
      → (idx < length table
          → (h : Option (ServerHandle T)) × (get_elem? table idx ≡ some h)
            × (get_handle table idx ≡ ret (ok h)))
        × (idx ≡ length table → get_handle table idx ≡ panic)
        × (length table < idx → get_handle table idx ≡ ret (err tt))
  unfolding get_handle
  get_handle_lem table idx = (inside, at_length, λ h. ground arith)
    where
      inside :
          idx < length table
          → (h : Option (ServerHandle T)) × (get_elem? table idx ≡ some h)
            × (get_handle table idx ≡ ret (ok h))
      inside lt =
          let (h, e) = get_elem?-some table idx lt in
          let t : ltb (length table) idx ≡ false = ground arith in (h, e, rw (t, e) refl)

      at_length : idx ≡ length table → get_handle table idx ≡ panic
      at_length eq =
          let e : get_elem? table idx ≡ none = get_elem?_past table idx (omega arith) in
          let t : ltb (length table) idx ≡ false = ground arith in rw (t, e) refl
