-- ===== src/RootServer/Cspace/FreeTwo.antt =====
-- `free_slot` on a cspace of two levels.
use mathlib.Core.Path.{subst}
use smos_thesis.Base.{
  ℕ, ◌+◌, ◌*◌, ◌/◌, ◌%◌, ◌≤◌, ◌<◌, ◌≡◌, ◌≢◌, sym, ap, ◌∙◌, true, false, arith, length, ret,
  get_elem?,
}
use smos_thesis.Bitfield.{Bitfield, bf_clr_bit}
use smos_thesis.Bitfield.Laws.{IsBitfield, member, Writes, bf_clr_bit-Writes}
use smos_thesis.RootServer.Cspace.{
  CSpace, cnode_slots, cnode_size_bits, bot_lvl_index, top_lvl_index, set_cnode, free_bottom,
  free_cspace_slot,
}
use smos_thesis.RootServer.Cspace.Cnodes.{Present, set_cnode_here, set_cnode_elsewhere}
use smos_thesis.RootServer.Cspace.TwoLevel.{
  IsTwoLevel, AfterSet-IsTwoLevel, Present-top, set_cnode-SameTop, other_bit, own_bit,
}

-- What freeing the slot `cptr` changes.
pub record Frees (cs : CSpace) (cptr : ℕ) (cs' : CSpace) : Type 0 where
  pub bf : Bitfield
  pub bf' : Bitfield
  pub before : Present cs cptr bf
  pub writes : Writes false bf (cptr % 256) bf'
  pub after : Present cs' cptr bf'
  pub elsewhere :
      (q : ℕ) (bq : Bitfield) → q / 256 ≢ cptr / 256 → Present cs q bq → Present cs' q bq
  pub top : member cs'.top_bf (cptr / 256) ≡ false

-- The pointers into a CNode find the same CNode.
Present-move :
    (cs : CSpace) (p q : ℕ) (bf : Bitfield) → p / 256 ≡ q / 256 → Present cs p bf → Present cs q bf
Present-move cs p q bf e x = record {
  node = x.node;
  node_in = omega (arith, e, x.node_in);
  node_at = ap (λ (k : ℕ). get_elem? cs.bot_lvl_nodes (k / 97)) (sym e) ∙ x.node_at;
  cnode_in = omega (arith, e, x.cnode_in);
  cnode_at = ap (λ (k : ℕ). get_elem? x.node.cnodes (k % 97)) (sym e) ∙ x.cnode_at;
}

free_bottom_at :
    (cs : CSpace) (cptr : ℕ) (bf bf' : Bitfield)
    → Present cs cptr bf
    → bf_clr_bit bf (bot_lvl_index cptr) ≡ ret bf'
    → free_bottom cs cptr ≡ ret (set_cnode cs cptr bf')
unfolding free_bottom
free_bottom_at cs cptr bf bf' x e = ground (arith, x.node_in, x.node_at, x.cnode_in, x.cnode_at, e)

free_two_at :
    (cs : CSpace) (cptr : ℕ) (t : Bitfield)
    → 0 < cptr
    → cs.two_level ≡ true
    → cptr ≤ cnode_slots (cnode_size_bits + cs.top_lvl_size_bits)
    → bf_clr_bit cs.top_bf (top_lvl_index cptr) ≡ ret t
    → free_cspace_slot cs cptr ≡ free_bottom (record cs { top_bf = t }) cptr
unfolding free_cspace_slot
free_two_at cs cptr t pos two h e = ground (arith, pos, two, h, e)

-- `free_slot` on a cspace of two levels whose first `n` CNodes are present, each with its last slot
-- free, and another one where the top level shows room, of a slot other than 0 in one of them, not
-- its last and within the bound that the code tests: it frees the slot, marks the CNode as one with
-- room, leaves every other slot, and keeps what `alloc_slot` needs.
pub free_cspace_slot-Frees :
    (cs : CSpace) (n cptr : ℕ)
    → IsTwoLevel cs n
    → 0 < cptr
    → cptr / 256 < n
    → cptr % 256 < 255
    → cptr ≤ cnode_slots (cnode_size_bits + cs.top_lvl_size_bits)
    → (cs' : CSpace) × (free_cspace_slot cs cptr ≡ ret cs') × Frees cs cptr cs' × IsTwoLevel cs' n
free_cspace_slot-Frees cs n cptr v pos inside low bound =
    let c = cptr / 256 in
    let o = v.cnodes c inside in
    let four = o.size in
    let same_c : c * 256 / 256 ≡ cptr / 256 = omega arith in
    let (t, e, wt) =
      bf_clr_bit-Writes cs.top_bf c v.words
        (let z = v.size in let y = v.within in omega (arith, inside, z, y)) in
    let (bf', k, w) = bf_clr_bit-Writes o.bf (cptr % 256) o.words (omega (arith, four)) in
    let cs1 : CSpace = record cs { top_bf = t } in
    let at1 = Present-top cs cptr o.bf t (Present-move cs (c * 256) cptr o.bf same_c o.at) in
    let cs2 = set_cnode cs1 cptr bf' in
    let same = set_cnode-SameTop cs1 cptr o.bf bf' at1 in
    let here = set_cnode_here cs1 cptr o.bf bf' at1 in
    let beside = λ (q : ℕ) (bq : Bitfield) (ne : q / 256 ≢ c) (y : Present cs q bq).
      set_cnode_elsewhere cs1 cptr q o.bf bf' bq at1 (λ x. ne (sym x)) (Present-top cs q bq t y) in
    (
      cs2,
      free_two_at cs cptr t pos v.two bound e ∙ free_bottom_at cs1 cptr o.bf bf' at1 k,
      record {
        bf = o.bf;
        bf' = bf';
        before = Present-move cs (c * 256) cptr o.bf same_c o.at;
        writes = w;
        after = here;
        elsewhere = beside;
        top = ap (λ (u : Bitfield). member u c) same.top ∙ own_bit cs.top_bf t c false wt;
      },
      AfterSet-IsTwoLevel cs cs2 n c (cptr % 256) o.bf bf' false v low four o.last w (record {
        two = same.two;
        bits = same.bits;
        words = subst IsBitfield (sym same.top) wt.words;
        size = ap (λ (u : Bitfield). length u) same.top ∙ wt.size;
        top = λ d ne.
            ap (λ (u : Bitfield). member u d) same.top ∙ other_bit cs.top_bf t c d false wt ne;
        room = λ z. (cptr % 256, low, own_bit o.bf bf' (cptr % 256) false w);
        here = Present-move cs2 cptr (c * 256) bf' (sym same_c) here;
        elsewhere = beside;
      }),
    )
