-- ===== src/Syscall/Handle.antt =====
-- crates/smos-server/src/handle_arg.rs: handles as they reach a server. A client's local handle
-- is its index, and a handle capability the bits of its slot's path.
use smos_thesis.Base.{ℕ, Result, ok, err}
use smos_thesis.Server.Handles.{
  ServerReceivedHandleOrHandleCap, handle, unwrapped_handle_cap, wrapped_handle_cap,
}
use smos_thesis.Server.Reply.{HandleOrHandleCap, handle_cap}

pub record ReceivedHandle : Type 0 where
  pub idx : ℕ

pub record UnwrappedHandleCap : Type 0 where
  pub idx : ℕ

pub record WrappedHandleCap : Type 0 where
  pub cptr : ℕ

-- `TryFrom<ServerReceivedHandleOrHandleCap>` of a `HandleCap` and of a `HandleOrHandleCap`.
unfoldable pub handle_cap_try_from : ServerReceivedHandleOrHandleCap → Result (Unit {0}) ℕ
handle_cap_try_from (wrapped_handle_cap cptr) = ok cptr
handle_cap_try_from (handle idx) = err tt
handle_cap_try_from (unwrapped_handle_cap idx) = err tt

unfoldable pub handle_or_handle_cap_try_from :
    ServerReceivedHandleOrHandleCap → Result (Unit {0}) HandleOrHandleCap
unfolding handle_cap_try_from
handle_or_handle_cap_try_from val = elim (handle_cap_try_from val) [
  | ok cptr ↦ ok (handle_cap cptr)
  | err e ↦ err e
]
