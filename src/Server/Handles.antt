-- ===== src/Server/Handles.antt =====
-- crates/smos-server/src/handle.rs, handle_capability.rs and handle_arg.rs: the tables in which a
-- server keeps the resources that its clients name by an index or by a capability.
pub mod Table
pub mod Caps
pub mod Generic
use smos_thesis.Base.{
  ℕ, suc, ◌+◌, ◌<◌, ◌≤◌, List, [], ◌∷◌, Option, none, some, Bool, Result, ok, err, Run, ret, panic,
  ◌>>=◌, unwrap, assert, map_err, ltb, leb, if◌then◌else◌, length, get_elem?, set,
}
use smos_thesis.Common.Errors.{InvocationError}

pub record ServerHandle {ℓ} (T : Type ℓ) : Type ℓ where
  pub inner : T

pub record HandleCapability {ℓ} (T : Type ℓ) : Type ℓ where
  pub handle : Option (ServerHandle T)
  pub root_cap : Option ℕ

-- What a client's message names.
pub data ServerReceivedHandleOrHandleCap : Type 0 where
  handle : (idx : ℕ) → ServerReceivedHandleOrHandleCap
  unwrapped_handle_cap : (idx : ℕ) → ServerReceivedHandleOrHandleCap
  wrapped_handle_cap : (cptr : ℕ) → ServerReceivedHandleOrHandleCap

module _ {ℓ} {T : Type ℓ} where
  -- `allocate_handle` at index `i`, with the rest of the table. The slot that the code returns by
  -- reference is the one at the index.
  unfoldable pub allocate_handle_from :
      List (Option (ServerHandle T)) → ℕ → Result InvocationError ℕ
  allocate_handle_from [] i = err InvocationError.out_of_handles
  allocate_handle_from (none ∷ table) i = ok i
  allocate_handle_from (some h ∷ table) i = allocate_handle_from table (i + 1)

  unfoldable pub allocate_handle : List (Option (ServerHandle T)) → Result InvocationError ℕ
  unfolding allocate_handle_from
  allocate_handle table = allocate_handle_from table 0

  -- The guard compares by `>`; the index itself panics out of bounds.
  unfoldable pub get_handle :
      List (Option (ServerHandle T)) → ℕ → Run (Result (Unit {0}) (Option (ServerHandle T)))
  get_handle table idx =
      if ltb (length table) idx
      then ret (err tt)
      else (unwrap (get_elem? table idx) >>= λ h. ret (ok h))

  unfoldable pub cleanup_handle :
      List (Option (ServerHandle T))
      → ℕ
      → Run (Result (Unit {0}) (Unit {0}) × List (Option (ServerHandle T)))
  cleanup_handle table idx =
      if ltb (length table) idx
      then ret (err tt, table)
      else (unwrap (get_elem? table idx) >>= λ h. ret (ok tt, set table idx none))

  -- The capability table's three operations.
  unfoldable pub allocate_handle_cap_from :
      List (HandleCapability T) → ℕ → Result InvocationError (ℕ × Option ℕ)
  allocate_handle_cap_from [] i = err InvocationError.out_of_handle_caps
  allocate_handle_cap_from (c ∷ slots) i =
      let rest = allocate_handle_cap_from slots (i + 1) in
      elim c.handle [ none ↦ ok (i, c.root_cap) | some h ↦ rest ]

  unfoldable pub allocate_handle_cap :
      List (HandleCapability T) → Result InvocationError (ℕ × Option ℕ)
  unfolding allocate_handle_cap_from
  allocate_handle_cap slots = allocate_handle_cap_from slots 0

  unfoldable pub get_handle_cap :
      List (HandleCapability T) → ℕ → Run (Result (Unit {0}) (Option (ServerHandle T)))
  get_handle_cap slots idx =
      if leb (length slots) idx
      then ret (err tt)
      else (unwrap (get_elem? slots idx) >>= λ c. ret (ok c.handle))

  -- The kernel's `revoke` of a capability is a parameter; its failure panics (`expect`).
  unfoldable pub cleanup_handle_cap :
      (ℕ → Bool)
      → List (HandleCapability T)
      → ℕ
      → Run (Result (Unit {0}) (Unit {0}) × List (HandleCapability T))
  cleanup_handle_cap revoke slots idx = if leb (length slots) idx then ret (err tt, slots) else (do
    c ← unwrap (get_elem? slots idx)
    cap ← unwrap c.root_cap
    assert (revoke cap) (ret (ok tt, set slots idx (record c { handle = none }))))

-- The two tables of a server, and where a handle stands.
pub record Tables {ℓ} (T : Type ℓ) : Type ℓ where
  pub handle_table : List (Option (ServerHandle T))
  pub handle_cap_table : List (HandleCapability T)

module _ {ℓ} {T : Type ℓ} where
  -- The slot at the index of either table, and the root capability that is returned with it.
  unfoldable pub generic_allocate_handle : Tables T → Bool → Result InvocationError (ℕ × Option ℕ)
  unfolding allocate_handle_cap allocate_handle
  generic_allocate_handle p return_cap =
      if return_cap
      then allocate_handle_cap p.handle_cap_table
      else elim (allocate_handle p.handle_table) [ ok idx ↦ ok (idx, none) | err e ↦ err e ]

  unfoldable pub generic_get_handle :
      Tables T
      → ServerReceivedHandleOrHandleCap
      → ℕ
      → Run (Result InvocationError (Option (ServerHandle T)))
  unfolding get_handle get_handle_cap
  generic_get_handle p (handle idx) which_arg = get_handle p.handle_table idx >>= λ r.
      ret (map_err r (λ _. InvocationError.invalid_handle which_arg))
  generic_get_handle p (unwrapped_handle_cap idx) which_arg =
      get_handle_cap p.handle_cap_table idx >>= λ r.
      ret (map_err r (λ _. InvocationError.invalid_handle_capability which_arg))
  generic_get_handle p (wrapped_handle_cap cptr) which_arg = panic

  unfoldable pub generic_cleanup_handle :
      (ℕ → Bool)
      → Tables T
      → ServerReceivedHandleOrHandleCap
      → ℕ
      → Run (Result InvocationError (Unit {0}) × Tables T)
  unfolding cleanup_handle cleanup_handle_cap
  generic_cleanup_handle revoke p (handle idx) which_arg =
      cleanup_handle p.handle_table idx >>= λ out. ret (
        map_err out.0 (λ _. InvocationError.invalid_handle which_arg),
        record p { handle_table = out.1 },
      )
  generic_cleanup_handle revoke p (unwrapped_handle_cap idx) which_arg =
      cleanup_handle_cap revoke p.handle_cap_table idx >>= λ out. ret (
        map_err out.0 (λ _. InvocationError.invalid_handle_capability which_arg),
        record p { handle_cap_table = out.1 },
      )
  generic_cleanup_handle revoke p (wrapped_handle_cap cptr) which_arg = panic

unfoldable pub generic_invalid_handle_error :
    ServerReceivedHandleOrHandleCap → ℕ → Run InvocationError
generic_invalid_handle_error (handle idx) which_arg = ret (InvocationError.invalid_handle which_arg)
generic_invalid_handle_error (unwrapped_handle_cap idx) which_arg =
    ret (InvocationError.invalid_handle_capability which_arg)
generic_invalid_handle_error (wrapped_handle_cap cptr) which_arg = panic
