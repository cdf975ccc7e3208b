-- ===== src/UserCspace.antt =====
-- crates/smos-cspace/src/lib.rs: the slots of a user process's capability space.
pub mod Slots
use smos_thesis.Base.{ℕ, ◌<◌, Result, ok, err, Run, ret, panic, ◌>>=◌, assert, ltb, if◌then◌else◌}
use smos_thesis.Bitfield.{Bitfield, bitfield_init, bf_clr_bit, claim}

abbrev pub cspace_size : ℕ
cspace_size = 256

-- The root CNode is a capability, here the number of its slot.
pub record SmosUserCSpace : Type 0 where
  pub root_cnode : ℕ
  pub bf : Bitfield

unfoldable pub new : ℕ → SmosUserCSpace
new root_cnode = record { root_cnode = root_cnode; bf = bitfield_init cspace_size }

unfoldable pub alloc_slot : SmosUserCSpace → Run (Result (Unit {0}) ℕ × SmosUserCSpace)
alloc_slot cs = claim cs.bf >>= λ out. ret (out.0, record cs { bf = out.1 })

-- The bound is tested by `>`, and the bitfield panics out of its range.
unfoldable pub free_slot : SmosUserCSpace → ℕ → Run SmosUserCSpace
free_slot cs slot =
    if ltb cspace_size slot
    then ret cs
    else (bf_clr_bit cs.bf slot >>= λ bf'. ret (record cs { bf = bf' }))

-- The slot below the root CNode that a capability pointer addresses, with the depth of a word.
pub record AbsoluteCptr : Type 0 where
  pub root : ℕ
  pub bits : ℕ
  pub depth : ℕ

unfoldable pub to_absolute_cptr : SmosUserCSpace → ℕ → Run AbsoluteCptr
to_absolute_cptr cs slot =
    assert (ltb slot cspace_size) (ret (record { root = cs.root_cnode; bits = slot; depth = 64 }))
