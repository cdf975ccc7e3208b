-- ===== src/RootServer/Cspace/AllocTwo.antt =====
-- `alloc_slot` on a cspace of two levels.
use mathlib.Core.Bool.{false≢true}
use mathlib.Core.Path.{subst}
use smos_thesis.Base.{
  ℕ, ◌+◌, ◌*◌, ◌≤◌, ◌<◌, ◌≡◌, refl, sym, ◌∙◌, true, false, inl, inr, arith, ltb, leb, Bool-cases,
  ok, err, ret, panic,
}
use smos_thesis.Bitfield.{Bitfield, bf_first_free, bf_set_bit}
use smos_thesis.Bitfield.Laws.{IsBitfield, member, capacity, bf_set_bit-Writes}
use smos_thesis.Bitfield.FirstFree.{FirstFree, found, full, bf_first_free-FirstFree}
use smos_thesis.RootServer.Kernel.{SelError}
use smos_thesis.RootServer.Cspace.{
  CSpace, cnode_slots, get_cnode, set_cnode, note_full, alloc_bottom, out_of_bounds,
  alloc_cspace_slot,
}
use smos_thesis.RootServer.Cspace.Cnodes.{get_cnode-Present}
use smos_thesis.RootServer.Cspace.TwoLevel.{
  IsTwoLevel, AllocatesTwo, two_found, two_missing, two_full, AfterSet-IsTwoLevel,
  note_full-AfterSet, other_bit,
}

alloc_bottom_at :
    (cs cs' : CSpace) (c b next : ℕ) (bf bf' : Bitfield)
    → get_cnode cs (c * 256) ≡ ret bf
    → bf_first_free bf ≡ ok b
    → bf_set_bit bf b ≡ ret bf'
    → bf_first_free bf' ≡ ok next
    → note_full (set_cnode cs (c * 256) bf') c next ≡ ret cs'
    → alloc_bottom cs c ≡ ret (ok (c * 256 + b), cs')
unfolding alloc_bottom
alloc_bottom_at cs cs' c b next bf bf' g f s n k = ground (arith, g, f, s, n, k)

-- The least clear bit of words of which a bit is clear.
first_of :
    (bf : Bitfield) (k : ℕ)
    → IsBitfield bf
    → k < capacity bf
    → member bf k ≡ false
    → (b : ℕ) × (bf_first_free bf ≡ ok b) × (b ≤ k) × (b < capacity bf) × (member bf b ≡ false)
first_of bf k v h clear = from (bf_first_free-FirstFree bf v)
  where
    from :
        FirstFree bf 0 (bf_first_free bf)
        → (b : ℕ) × (bf_first_free bf ≡ ok b) × (b ≤ k) × (b < capacity bf) × (member bf b ≡ false)
    from (full e all) = absurd (false≢true (sym clear ∙ all k h))
    from (found b e small free below) =
        (b, e ∙ ground arith, ground (arith, below k, clear), small, free)

alloc_bottom-AllocatesTwo :
    (cs : CSpace) (n c : ℕ)
    → IsTwoLevel cs n
    → c < n
    → member cs.top_bf c ≡ false
    → AllocatesTwo cs n (alloc_bottom cs c)
alloc_bottom-AllocatesTwo cs n c v h open_c =
    let o = v.cnodes c h in
    let four = o.size in
    let (k, k_small, k_clear) = o.room open_c in
    let (b, e, le, small, clear) = first_of o.bf k o.words (omega (arith, k_small, four)) k_clear in
    let (bf', s, w) = bf_set_bit-Writes o.bf b o.words small in
    let last' : member bf' 255 ≡ false =
      other_bit o.bf bf' b 255 true w (omega (arith, le, k_small)) ∙ o.last in
    let (next, e', le', small', clear') =
      first_of bf' 255 w.words (omega (arith, w.size, four)) last' in
    let (cs', q, a) =
      note_full-AfterSet cs c b next o.bf bf' v.words
        (let z = v.size in let y = v.within in omega (arith, h, z, y)) o.at clear' in
    two_found c b cs'
      (alloc_bottom_at cs cs' c b next o.bf bf' (get_cnode-Present cs (c * 256) o.bf o.at) e s e' q)
      h (omega (arith, le, k_small))
      (record {
        bf = o.bf;
        bf' = bf';
        before = o.at;
        clear = clear;
        writes = w;
        after = a.here;
        elsewhere = a.elsewhere;
      })
      (AfterSet-IsTwoLevel cs cs' n c b o.bf bf' true v (omega (arith, le, k_small)) four o.last w
        a)

alloc_bottom_missing :
    (cs : CSpace) (c : ℕ) → get_cnode cs (c * 256) ≡ panic → alloc_bottom cs c ≡ panic
unfolding alloc_bottom
alloc_bottom_missing cs c e = ground (arith, e)

alloc_two_none :
    (cs : CSpace)
    → bf_first_free cs.top_bf ≡ err tt
    → alloc_cspace_slot cs ≡ ret (err SelError.not_enough_memory, cs)
unfolding alloc_cspace_slot
alloc_two_none cs e = rw (alloc_cspace_slot, e) refl

alloc_two_past :
    (cs : CSpace) (c : ℕ)
    → bf_first_free cs.top_bf ≡ ok c
    → out_of_bounds cs c ≡ true
    → alloc_cspace_slot cs ≡ ret (err SelError.invalid_capability, cs)
unfolding alloc_cspace_slot
alloc_two_past cs c e k = ground (arith, e, k)

alloc_two_at :
    (cs : CSpace) (c : ℕ)
    → bf_first_free cs.top_bf ≡ ok c
    → out_of_bounds cs c ≡ false
    → cs.two_level ≡ true
    → alloc_cspace_slot cs ≡ alloc_bottom cs c
unfolding alloc_cspace_slot
alloc_two_at cs c e k t = ground (arith, e, k, t)

in_bounds :
    (cs : CSpace) (c : ℕ)
    → leb (cnode_slots cs.top_lvl_size_bits) c ≡ false
    → out_of_bounds cs c ≡ false
in_bounds cs c h = ground (arith, h)

-- `alloc_slot` on a cspace of two levels whose first `n` CNodes are present, each with its last slot
-- free, and another one where the top level shows room: it hands out a slot of one of them, which was
-- free and is then taken, leaves every slot of every other CNode, and keeps all this; or it fails,
-- changing nothing, only where the top level shows no room in them; or the first CNode in which the
-- top level shows room, within its bounds, is not one of them, and it panics if that CNode is
-- missing.
pub alloc_cspace_slot-AllocatesTwo :
    (cs : CSpace) (n : ℕ) → IsTwoLevel cs n → AllocatesTwo cs n (alloc_cspace_slot cs)
alloc_cspace_slot-AllocatesTwo cs n v = from (bf_first_free-FirstFree cs.top_bf v.words)
  where
    from :
        FirstFree cs.top_bf 0 (bf_first_free cs.top_bf) → AllocatesTwo cs n (alloc_cspace_slot cs)
    from (full e all) =
        two_full SelError.not_enough_memory (alloc_two_none cs e)
          (λ c h. all c (let z = v.size in let y = v.within in omega (arith, h, z, y)))
    from (found c e small clear below) =
        let e' : bf_first_free cs.top_bf ≡ ok c = e ∙ ground arith in
        elim (Bool-cases (leb (cnode_slots cs.top_lvl_size_bits) c)) [
          | inl past ↦
              let k : cnode_slots cs.top_lvl_size_bits ≤ c = ground (arith, past) in
              two_full SelError.invalid_capability (alloc_two_past cs c e' (ground (arith, past)))
                (λ s h. below s (let y = v.within in omega (arith, h, k, y)))
          | inr inside ↦
              let at_c = alloc_two_at cs c e' (in_bounds cs c inside) v.two in
              elim (Bool-cases (ltb c n)) [
                | inl here ↦
                    subst (AllocatesTwo cs n) (sym at_c)
                      (alloc_bottom-AllocatesTwo cs n c v (ground (arith, here)) clear)
                | inr gone ↦
                    two_missing c (ground (arith, gone)) (ground (arith, inside)) clear
                      (λ d h. below d (omega (arith, h))) (λ m. at_c ∙ alloc_bottom_missing cs c m)
              ]
        ]
