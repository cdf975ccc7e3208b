-- ===== src/RootServer/Cspace/OneLevel.antt =====
-- A cspace of one level, as the processes have it, as a set of slots.
use native.Mathlib.Nat.{one-le-pow}
use smos_thesis.Base.{
  ℕ, ◌≤◌, ◌<◌, ◌≡◌, refl, ◌∙◌, true, false, inl, inr, arith, leb, Bool-cases, Result, ok, err, Run,
  ret, panic,
}
use smos_thesis.Bitfield.{Bitfield, bf_first_free, bf_set_bit}
use smos_thesis.Bitfield.Laws.{
  IsBitfield, member, capacity, Writes, bf_set_bit-Writes, bf_clr_bit-Writes, bitfield_outside,
}
use smos_thesis.Bitfield.FirstFree.{FirstFree, found, full, bf_first_free-FirstFree}
use smos_thesis.RootServer.Kernel.{SelError}
use smos_thesis.RootServer.Cspace.{
  CSpace, cnode_slots, cnode_slot_bits, out_of_bounds, alloc_cspace_slot, free_cspace_slot,
}

-- One level, with a bit for each of its slots.
pub record IsOneLevel (cs : CSpace) : Type 0 where
  pub one : cs.two_level ≡ false
  pub words : IsBitfield cs.top_bf
  pub size : cnode_slots cs.top_lvl_size_bits ≤ capacity cs.top_bf

-- The outcomes of an allocation.
pub data AllocatesOne (cs : CSpace) (r : Run (Result SelError ℕ × CSpace)) : Type 0 where
  one_found :
      (slot : ℕ) (bf : Bitfield)
      → r ≡ ret (ok slot, record cs { top_bf = bf })
      → slot < cnode_slots cs.top_lvl_size_bits
      → member cs.top_bf slot ≡ false
      → ((s : ℕ) → s < slot → member cs.top_bf s ≡ true)
      → Writes true cs.top_bf slot bf
      → AllocatesOne cs r
  one_full :
      (e : SelError)
      → r ≡ ret (err e, cs)
      → ((s : ℕ) → s < cnode_slots cs.top_lvl_size_bits → member cs.top_bf s ≡ true)
      → AllocatesOne cs r

alloc_one_full :
    (cs : CSpace)
    → bf_first_free cs.top_bf ≡ err tt
    → alloc_cspace_slot cs ≡ ret (err SelError.not_enough_memory, cs)
unfolding alloc_cspace_slot
alloc_one_full cs e = rw (alloc_cspace_slot, e) refl

alloc_one_past :
    (cs : CSpace) (b : ℕ)
    → bf_first_free cs.top_bf ≡ ok b
    → out_of_bounds cs b ≡ true
    → alloc_cspace_slot cs ≡ ret (err SelError.invalid_capability, cs)
unfolding alloc_cspace_slot
alloc_one_past cs b e k = ground (arith, e, k)

alloc_one_at :
    (cs : CSpace) (b : ℕ) (bf : Bitfield)
    → bf_first_free cs.top_bf ≡ ok b
    → out_of_bounds cs b ≡ false
    → cs.two_level ≡ false
    → bf_set_bit cs.top_bf b ≡ ret bf
    → alloc_cspace_slot cs ≡ ret (ok b, record cs { top_bf = bf })
unfolding alloc_cspace_slot
alloc_one_at cs b bf e k o q = ground (arith, e, k, o, q)

-- `alloc_slot` on a cspace of one level: it hands out the least free slot and marks that slot and no
-- other, and fails exactly where every slot is taken, changing nothing.
pub alloc_cspace_slot-AllocatesOne :
    (cs : CSpace) → IsOneLevel cs → AllocatesOne cs (alloc_cspace_slot cs)
alloc_cspace_slot-AllocatesOne cs v = from (bf_first_free-FirstFree cs.top_bf v.words)
  where
    from : FirstFree cs.top_bf 0 (bf_first_free cs.top_bf) → AllocatesOne cs (alloc_cspace_slot cs)
    from (full e all) =
        one_full SelError.not_enough_memory (alloc_one_full cs e)
          (λ s h. all s (omega (arith, h, v.size)))
    from (found b e small clear below) =
        let e' : bf_first_free cs.top_bf ≡ ok b = e ∙ ground arith in
        elim (Bool-cases (leb (cnode_slots cs.top_lvl_size_bits) b)) [
          | inl past ↦
              one_full SelError.invalid_capability
                (alloc_one_past cs b e' (ground (arith, past, v.one)))
                (λ s h. below s (
                  let k : cnode_slots cs.top_lvl_size_bits ≤ b = ground (arith, past) in
                  omega (arith, h, k)))
          | inr within ↦
              let (bf, q, w) = bf_set_bit-Writes cs.top_bf b v.words small in
              one_found b bf (alloc_one_at cs b bf e' (ground (arith, within, v.one)) v.one q)
                (ground (arith, within)) clear below w
        ]

-- `free_slot` on a cspace of one level: the null slot 0 and every slot above the number of slots are
-- left alone; a slot between is freed, and no other changes; the number of slots itself panics
-- where the bitfield has no bit for it.
pub free_cspace_slot_lem :
    (cs : CSpace) (slot : ℕ)
    → IsOneLevel cs
    → (slot ≡ 0 → free_cspace_slot cs slot ≡ ret cs)
      × (cnode_slots cs.top_lvl_size_bits < slot → free_cspace_slot cs slot ≡ ret cs)
      × (0 < slot
          → slot < cnode_slots cs.top_lvl_size_bits
          → (bf : Bitfield) × (free_cspace_slot cs slot ≡ ret (record cs { top_bf = bf }))
            × Writes false cs.top_bf slot bf)
      × (slot ≡ cnode_slots cs.top_lvl_size_bits
          → capacity cs.top_bf ≡ slot
          → free_cspace_slot cs slot ≡ panic)
unfolding free_cspace_slot
free_cspace_slot_lem cs slot v = (
  λ z. ground (arith, z),
  λ h. ground (arith, h, v.one),
  λ pos h.
      let (bf, q, w) = bf_clr_bit-Writes cs.top_bf slot v.words (omega (arith, h, v.size)) in
      (bf, ground (arith, pos, h, v.one, q), w),
  λ e k.
      let pos = one-le-pow (cnode_slot_bits cs.top_lvl_size_bits) 2 in
      let gone = (bitfield_outside cs.top_bf slot (omega (arith, k))).2 in
      ground (arith, e, pos, v.one, gone),
)
