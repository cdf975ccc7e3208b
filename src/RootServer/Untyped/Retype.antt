-- ===== src/RootServer/Untyped/Retype.antt =====
-- crates/root_server/src/util.rs: a kernel object from an untyped, and back.
pub mod Keeps
use smos_thesis.Base.{ℕ, Result, ok, err, Run, ret, panic}
use smos_thesis.RootServer.Kernel.{
  SelError, not_enough_memory, invalid_capability, illegal_operation,
}
use smos_thesis.RootServer.Untyped.{UtTable, Op, done, ◌>>=◌, ◌>>◌, free}
use smos_thesis.RootServer.Untyped.Mapping.{ObjectBlueprint, Services, ask, tell}
use smos_thesis.RootServer.Untyped.Alloc.{alloc, retype_ut}

module _ {World : Type 0} where
  abbrev pub renamed :
      {A : Type 0}
      → SelError
      → Run (Result SelError A × UtTable World)
      → Op World (Unit {0})
      → Run (Result SelError A × UtTable World)
  renamed e panic undo = panic
  renamed e (ret (ok a, t)) undo = ret (ok a, t)
  renamed e (ret (err e', t)) undo = elim (undo t) [ panic ↦ panic | ret (r, t') ↦ ret (err e, t') ]

  -- `m.map_err(|_| { undo; e })?`
  abbrev pub or_else : {A : Type 0} → Op World A → SelError → Op World (Unit {0}) → Op World A
  or_else m e undo t = renamed e (m t) undo

module _ {World : Type 0} (s : Services World) (physical_size_bits : ObjectBlueprint → ℕ) where
  -- The capability and the untyped below it.
  unfoldable pub alloc_retype : ObjectBlueprint → Op World (ℕ × ℕ)
  alloc_retype blueprint =
      or_else (alloc s (physical_size_bits blueprint)) not_enough_memory (done tt) >>= λ ut.
      or_else (ask s.alloc_slot) invalid_capability (free ut) >>= λ cptr.
      or_else (retype_ut s ut blueprint cptr) illegal_operation (free ut >> tell (s.free_slot cptr))
      >>= λ u. done (cptr, ut)

  abbrev expect_deleted : Result SelError (Unit {0}) → Op World (Unit {0})
  expect_deleted (ok u) t = done u t
  expect_deleted (err e) t = panic

  unfoldable pub dealloc_retyped : (cap ut : ℕ) → Op World (Unit {0})
  dealloc_retyped cap ut t =
      let (r, w) = s.delete cap t.world in
      (expect_deleted r >> (tell (s.free_slot cap) >> free ut)) (record t { world = w })
