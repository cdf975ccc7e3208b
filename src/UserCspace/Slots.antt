-- ===== src/UserCspace/Slots.antt =====
-- The slots as a set: what is allocated, what is free, and which slot is handed out next.
use smos_thesis.Base.{
  ℕ, ◌≤◌, ◌<◌, ◌≡◌, ◌≢◌, refl, ◌∙◌, Bool, true, false, arith, ◌==◌, if◌then◌else◌, Result, ok, err,
  Run, ret, panic, ltb, length,
}
use smos_thesis.Bitfield.{Bitfield, bitfield_init, claim}
use smos_thesis.Bitfield.Laws.{
  IsBitfield, member, Writes, bf_clr_bit-Writes, bitfield_outside, bitfield_init-empty,
}
use smos_thesis.Bitfield.Claim.{Claimed, taken, exhausted, claim-Claimed}
use smos_thesis.UserCspace.{SmosUserCSpace, cspace_size, new, alloc_slot, free_slot}

-- Four words of 64 bits.
pub record IsValid (cs : SmosUserCSpace) : Type 0 where
  pub words : IsBitfield cs.bf
  pub size : length cs.bf ≡ 4

abbrev pub allocated : SmosUserCSpace → ℕ → Bool
allocated cs slot = member cs.bf slot

-- The state after a call differs from the one before in one slot.
pub record Changes (v : Bool) (cs : SmosUserCSpace) (slot : ℕ) (cs' : SmosUserCSpace) : Type 0 where
  pub valid : IsValid cs'
  pub root : cs'.root_cnode ≡ cs.root_cnode
  pub slots : (s : ℕ) → allocated cs' s ≡ (if s == slot then v else allocated cs s)

-- The specification of `alloc_slot`.
pub data Allocates (cs : SmosUserCSpace) (r : Run (Result (Unit {0}) ℕ × SmosUserCSpace))
    : Type 0 where
  slot_found :
      (slot : ℕ) (cs' : SmosUserCSpace)
      → r ≡ ret (ok slot, cs')
      → slot < cspace_size
      → allocated cs slot ≡ false
      → ((s : ℕ) → s < slot → allocated cs s ≡ true)
      → Changes true cs slot cs'
      → Allocates cs r
  none_left :
      r ≡ ret (err tt, cs) → ((s : ℕ) → s < cspace_size → allocated cs s ≡ true) → Allocates cs r

Writes-Changes :
    {v : Bool} {cs : SmosUserCSpace} {slot : ℕ} {out : Bitfield}
    → IsValid cs
    → Writes v cs.bf slot out
    → Changes v cs slot (record cs { bf = out })
Writes-Changes valid w = record {
  valid = record { words = w.words; size = w.size ∙ valid.size };
  root = refl;
  slots = w.bits;
}

-- A new capability space is valid and has every slot free.
pub new-IsValid : (root slot : ℕ) → IsValid (new root) × (allocated (new root) slot ≡ false)
unfolding new bitfield_init
new-IsValid root slot =
    let (words, empty) = bitfield_init-empty cspace_size slot in
    (record { words = words; size = refl }, empty)

-- `alloc_slot` hands out the least free slot, marks that slot and nothing else, and fails exactly
-- where all 256 are allocated, changing nothing.
pub alloc_slot-Allocates : (cs : SmosUserCSpace) → IsValid cs → Allocates cs (alloc_slot cs)
unfolding alloc_slot
alloc_slot-Allocates cs v = from (claim-Claimed cs.bf v.words)
  where
    from : Claimed cs.bf (claim cs.bf) → Allocates cs (alloc_slot cs)
    from (taken b bf' e small clear below w) =
        slot_found b (record cs { bf = bf' }) (rw (e, alloc_slot) refl) (omega (arith, v.size))
          clear below (Writes-Changes v w)
    from (exhausted e all) =
        none_left (rw (e, alloc_slot) refl) (λ s h. all s (omega (arith, v.size)))

-- What `free_slot` does at each slot number: below 256 it frees that slot and no other, at 256 it
-- panics, and above it changes nothing.
pub free_slot_lem :
    (cs : SmosUserCSpace) (slot : ℕ)
    → IsValid cs
    → (slot < cspace_size
        → (cs' : SmosUserCSpace) × (free_slot cs slot ≡ ret cs') × Changes false cs slot cs')
      × (slot ≡ cspace_size → free_slot cs slot ≡ panic)
      × (cspace_size < slot → free_slot cs slot ≡ ret cs)
unfolding free_slot
free_slot_lem cs slot v = (inside, at_bound, λ h. ground arith)
  where
    inside :
        slot < cspace_size
        → (cs' : SmosUserCSpace) × (free_slot cs slot ≡ ret cs') × Changes false cs slot cs'
    inside h =
        let (bf', e, w) = bf_clr_bit-Writes cs.bf slot v.words (omega (arith, v.size)) in
        let t : ltb cspace_size slot ≡ false = ground arith in
        (record cs { bf = bf' }, rw (t, e) refl, Writes-Changes v w)

    at_bound : slot ≡ cspace_size → free_slot cs slot ≡ panic
    at_bound h =
        let (g, s, c) = bitfield_outside cs.bf slot (omega (arith, v.size)) in
        let t : ltb cspace_size slot ≡ false = ground arith in rw (t, c) refl

-- What a successful call says of the slot that it returned.
alloc_slot_taken :
    (cs cs' : SmosUserCSpace) (s : ℕ)
    → IsValid cs
    → alloc_slot cs ≡ ret (ok s, cs')
    → (allocated cs s ≡ false) × ((c : ℕ) → c < s → allocated cs c ≡ true) × Changes true cs s cs'
alloc_slot_taken cs cs' s v e = from (alloc_slot-Allocates cs v)
  where
    from :
        Allocates cs (alloc_slot cs)
        → (allocated cs s ≡ false)
          × ((c : ℕ) → c < s → allocated cs c ≡ true)
          × Changes true cs s cs'
    from (slot_found slot out e' small clear below change) =
        let same : s ≡ slot = cc in
        let same' : cs' ≡ out = cc in rw (same, same') (clear, below, change)
    from (none_left e' all) = cc

-- A slot that was just handed out is not handed out again.
pub alloc_slot_fresh :
    (cs cs' cs'' : SmosUserCSpace) (s t : ℕ)
    → IsValid cs
    → alloc_slot cs ≡ ret (ok s, cs')
    → alloc_slot cs' ≡ ret (ok t, cs'')
    → s ≢ t
alloc_slot_fresh cs cs' cs'' s t v e f =
    let (free, below, change) = alloc_slot_taken cs cs' s v e in
    let (free', below', change') = alloc_slot_taken cs' cs'' t change.valid f in
    ground (arith, change.slots t)

-- After a slot is freed the next allocation succeeds, and takes that slot or a lower one.
pub free_slot-alloc_slot :
    (cs cs' : SmosUserCSpace) (slot : ℕ)
    → IsValid cs
    → slot < cspace_size
    → free_slot cs slot ≡ ret cs'
    → (t : ℕ) × (cs'' : SmosUserCSpace) × (alloc_slot cs' ≡ ret (ok t, cs'')) × (t ≤ slot)
free_slot-alloc_slot cs cs' slot v h e =
    let (out, e', change) = (free_slot_lem cs slot v).0 h in
    let same : out ≡ cs' = cc in
    let freed : Changes false cs slot cs' = rw (← same) change in
    from freed (alloc_slot-Allocates cs' freed.valid)
  where
    from :
        Changes false cs slot cs'
        → Allocates cs' (alloc_slot cs')
        → (t : ℕ) × (cs'' : SmosUserCSpace) × (alloc_slot cs' ≡ ret (ok t, cs'')) × (t ≤ slot)
    from freed (slot_found t out f small clear below change) =
        (t, out, f, ground (arith, below slot, freed.slots slot))
    from freed (none_left f all) = absurd (ground (arith, all slot h, freed.slots slot))
