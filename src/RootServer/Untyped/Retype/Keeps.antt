-- ===== src/RootServer/Untyped/Retype/Keeps.antt =====
-- `alloc_retype` on a valid table.
use smos_thesis.Base.{ℕ, ◌+◌, ◌<◌, ◌≡◌}
use smos_thesis.RootServer.Kernel.{invalid_capability, illegal_operation}
use smos_thesis.RootServer.Untyped.{UtTable, Op, done, ◌>>=◌, ◌>>◌, free}
use smos_thesis.RootServer.Untyped.Mapping.{ObjectBlueprint, Services, ask, tell}
use smos_thesis.RootServer.Untyped.Alloc.{retype_ut}
use smos_thesis.RootServer.Untyped.Alloc.Valid.{Place}
use smos_thesis.RootServer.Untyped.Alloc.Post.{Post, Holds}
use smos_thesis.RootServer.Untyped.Alloc.Laws.{Fresh}
use smos_thesis.RootServer.Untyped.Retype.{or_else}

-- The untyped below the object is of its size, and was not in use.
abbrev pub Object : {World : Type 0} → ℕ → Place → ℕ × ℕ → UtTable World → Place → Type 0
Object size_bits place out t' place' = Fresh size_bits place out.1 t' place'

module _ {World : Type 0} (s : Services World) (physical_size_bits : ObjectBlueprint → ℕ)
    (base k : ℕ) (b : ObjectBlueprint) (inside : k < 9) where
  abbrev slotted : ℕ → ℕ → Op World (ℕ × ℕ)
  slotted ut cptr =
      or_else (retype_ut s ut b cptr) illegal_operation (free ut >> tell (s.free_slot cptr))
      >>= λ u. done (cptr, ut)

  abbrev allocated : ℕ → Op World (ℕ × ℕ)
  allocated ut = or_else (ask s.alloc_slot) invalid_capability (free ut) >>= slotted ut

  abbrev IsUt : ℕ → ℕ × ℕ → UtTable World → Place → Type 0
  IsUt ut out t' place' = (out.1 ≡ ut) × Holds ut (k + 4) t' place'
