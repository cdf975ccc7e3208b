-- ===== src/Server/Handles/Generic.antt =====
-- The life of a handle through the operations over both tables.
use smos_thesis.Base.{
  ℕ, ◌≡◌, ◌≢◌, refl, sym, ◌∙◌, ap, Option, none, some, Bool, true, false, Result, ok, ret, panic,
  arith, ltb, leb, length, get_elem?, set, length-set, get_elem?-set_self, get_elem?-set_ne,
  get_elem?-lt_length, set-set, set_same,
}
use smos_thesis.Common.Errors.{InvocationError}
use smos_thesis.Server.Handles.{
  ServerHandle, HandleCapability, handle, unwrapped_handle_cap, Tables, allocate_handle,
  allocate_handle_cap, generic_allocate_handle, generic_get_handle, generic_cleanup_handle,
}
use smos_thesis.Server.Handles.Table.{FreeSlot, free_at, all_taken, allocate_handle-FreeSlot}
use smos_thesis.Server.Handles.Caps.{FreeCap, cap_at, caps_taken, allocate_handle_cap-FreeCap}

module _ {ℓ} {T : Type ℓ} where
  -- What a handler does with the slot that it was given.
  abbrev pub install : Tables T → ℕ → ServerHandle T → Tables T
  install p idx h = record p { handle_table = set p.handle_table idx (some h) }

  -- The life of a handle at `idx`: once installed it is found there, every other index finds what
  -- it found before, and cleaning it up restores the tables.
  pub record Lives (revoke : ℕ → Bool) (p : Tables T) (idx : ℕ) (h : ServerHandle T) (w : ℕ)
      : Type ℓ where
    pub here : generic_get_handle (install p idx h) (handle idx) w ≡ ret (ok (some h))
    pub elsewhere :
        (j : ℕ)
        → j ≢ idx
        → generic_get_handle (install p idx h) (handle j) w ≡ generic_get_handle p (handle j) w
    pub restored : generic_cleanup_handle revoke (install p idx h) (handle idx) w ≡ ret (ok tt, p)

  lives :
      (revoke : ℕ → Bool) (p : Tables T) (idx : ℕ) (h : ServerHandle T) (w : ℕ)
      → get_elem? p.handle_table idx ≡ some none
      → Lives revoke p idx h w
  unfolding generic_get_handle generic_cleanup_handle
  lives revoke p idx h w e =
      let lt = get_elem?-lt_length p.handle_table idx e in
      let s = get_elem?-set_self p.handle_table idx (some h) lt in
      let l = length-set p.handle_table idx (some h) in
      let t : ltb (length (set p.handle_table idx (some h))) idx ≡ false = ground (arith, l) in
      record {
        here = rw (t, s) refl;
        elsewhere =
            λ j ne. rw (l, get_elem?-set_ne p.handle_table idx j (some h) (λ q. ne (sym q))) refl;
        restored =
            rw (t, s)
              (rw (set-set p.handle_table idx (some h) none, set_same p.handle_table idx none e)
                refl);
      }

  -- The index that the handle table allocates is one where a handle lives.
  pub generic_allocate_handle-Lives :
      (revoke : ℕ → Bool) (p : Tables T) (idx : ℕ) (root : Option ℕ) (h : ServerHandle T) (w : ℕ)
      → generic_allocate_handle p false ≡ ok (idx, root)
      → Lives revoke p idx h w × (root ≡ none)
  unfolding generic_allocate_handle
  generic_allocate_handle-Lives revoke p idx root h w e =
      from (allocate_handle p.handle_table) refl (allocate_handle-FreeSlot p.handle_table)
    where
      from :
          (r : Result InvocationError ℕ)
          → allocate_handle p.handle_table ≡ r
          → FreeSlot p.handle_table 0 r
          → Lives revoke p idx h w × (root ≡ none)
      from r er (free_at i eq here below) =
          let same : idx ≡ i = ground (arith, e, er, eq) in
          (rw same (lives revoke p i h w here), ground (arith, e, er, eq))
      from r er (all_taken eq all) = absurd (ground (arith, e, er, eq))

  abbrev pub install_cap : Tables T → ℕ → HandleCapability T → ServerHandle T → Tables T
  install_cap p idx c h = record p {
    handle_cap_table = set p.handle_cap_table idx (record c { handle = some h });
  }

  -- The same for a handle capability: cleaning up revokes the root capability of the slot.
  pub record CapLives (revoke : ℕ → Bool) (p : Tables T) (idx cptr : ℕ) (h : ServerHandle T) (w : ℕ)
      : Type ℓ where
    pub slot : HandleCapability T
    pub named : slot.root_cap ≡ some cptr
    pub here :
        generic_get_handle (install_cap p idx slot h) (unwrapped_handle_cap idx) w
        ≡ ret (ok (some h))
    pub elsewhere :
        (j : ℕ)
        → j ≢ idx
        → generic_get_handle (install_cap p idx slot h) (unwrapped_handle_cap j) w
          ≡ generic_get_handle p (unwrapped_handle_cap j) w
    pub restored :
        revoke cptr ≡ true
        → generic_cleanup_handle revoke (install_cap p idx slot h) (unwrapped_handle_cap idx) w
          ≡ ret (ok tt, p)
    pub not_revoked :
        revoke cptr ≡ false
        → generic_cleanup_handle revoke (install_cap p idx slot h) (unwrapped_handle_cap idx) w
          ≡ panic

  -- A slot with no handle, and with a root capability.
  abbrev pub empty_cap : ℕ → HandleCapability T
  empty_cap cptr = record { handle = none; root_cap = some cptr }

  cap_lives :
      (revoke : ℕ → Bool) (p : Tables T) (idx cptr : ℕ) (h : ServerHandle T) (w : ℕ)
      → get_elem? p.handle_cap_table idx ≡ some (empty_cap cptr)
      → CapLives revoke p idx cptr h w
  unfolding generic_get_handle generic_cleanup_handle
  cap_lives revoke p idx cptr h w e =
      let slots = p.handle_cap_table in
      let v : HandleCapability T = record { handle = some h; root_cap = some cptr } in
      let lt = get_elem?-lt_length slots idx e in
      let s = get_elem?-set_self slots idx v lt in
      let l = length-set slots idx v in
      let t : leb (length (set slots idx v)) idx ≡ false = ground (arith, l) in
      record {
        slot = empty_cap cptr;
        named = refl;
        here = rw (t, s) refl;
        elsewhere = λ j ne. rw (l, get_elem?-set_ne slots idx j v (λ q. ne (sym q))) refl;
        restored = λ r.
            rw (t, s)
              (rw r (rw (set-set slots idx v (empty_cap cptr), set_same slots idx _ e) refl));
        not_revoked = λ r. rw (t, s) (rw r refl);
      }

  -- The index that the capability table allocates is one where a handle capability lives, if the
  -- slots have root capabilities.
  pub generic_allocate_handle-CapLives :
      (revoke : ℕ → Bool) (p : Tables T) (idx cptr : ℕ) (h : ServerHandle T) (w : ℕ)
      → generic_allocate_handle p true ≡ ok (idx, some cptr)
      → CapLives revoke p idx cptr h w
  unfolding generic_allocate_handle
  generic_allocate_handle-CapLives revoke p idx cptr h w e =
      from (allocate_handle_cap p.handle_cap_table) refl
        (allocate_handle_cap-FreeCap p.handle_cap_table)
    where
      from :
          (r : Result InvocationError (ℕ × Option ℕ))
          → allocate_handle_cap p.handle_cap_table ≡ r
          → FreeCap p.handle_cap_table 0 r
          → CapLives revoke p idx cptr h w
      from r er (cap_at i c eq here free below) =
          let same : idx ≡ i = ground (arith, e, er, eq) in
          let slot : c ≡ empty_cap cptr = ground (arith, e, er, eq, free) in
          rw same (cap_lives revoke p i cptr h w (here ∙ ap some slot))
      from r er (caps_taken eq all) = absurd (ground (arith, e, er, eq))
