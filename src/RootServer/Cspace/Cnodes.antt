-- ===== src/RootServer/Cspace/Cnodes.antt =====
-- The bottom-level CNodes of a cspace: reading one, and writing one.
use smos_thesis.Base.{
  ℕ, ◌/◌, ◌<◌, ◌≡◌, ◌≢◌, refl, sym, ap, ◌∙◌, inl, inr, arith, ◌==◌, Bool-cases, Option, some, ret,
  get_elem?, set, get_elem?-set_self, get_elem?-set_ne, get_elem?-lt_length,
}
use smos_thesis.Bitfield.{Bitfield}
use smos_thesis.RootServer.Cspace.{
  CSpace, BotLvlNode, node_index, cnode_index, get_cnode, set_cnode,
}

-- Where a CNode is present.
pub record Present (cs : CSpace) (cptr : ℕ) (bf : Bitfield) : Type 0 where
  pub node : BotLvlNode
  pub node_in : (node_index cptr) < cs.n_bot_lvl_nodes
  pub node_at : get_elem? cs.bot_lvl_nodes (node_index cptr) ≡ some (some node)
  pub cnode_in : cnode_index cptr < node.n_cnodes
  pub cnode_at : get_elem? node.cnodes (cnode_index cptr) ≡ some bf

pub get_cnode-Present :
    (cs : CSpace) (cptr : ℕ) (bf : Bitfield) → Present cs cptr bf → get_cnode cs cptr ≡ ret bf
unfolding get_cnode
get_cnode-Present cs cptr bf p = ground (arith, p.node_in, p.node_at, p.cnode_in, p.cnode_at)

-- The index pair names the CNode.
same_cnode :
    (p q : ℕ) → node_index p ≡ node_index q → cnode_index p ≡ cnode_index q → p / 256 ≡ q / 256
same_cnode p q h k = omega (arith, h, k)

pub set_cnode_at :
    (cs : CSpace) (p : ℕ) (bf bf' : Bitfield) (x : Present cs p bf)
    → set_cnode cs p bf' ≡ record cs {
      bot_lvl_nodes =
          set cs.bot_lvl_nodes
            (node_index p)
            (some (record (x.node) { cnodes = set x.node.cnodes (cnode_index p) bf' }));
    }
unfolding set_cnode
set_cnode_at cs p bf bf' x = let e = x.node_at in rw (set_cnode, e) refl

pub set_cnode_here :
    (cs : CSpace) (p : ℕ) (bf bf' : Bitfield) → Present cs p bf → Present (set_cnode cs p bf') p bf'
set_cnode_here cs p bf bf' x = rw (set_cnode_at cs p bf bf' x) (record {
  node = record (x.node) { cnodes = set x.node.cnodes (cnode_index p) bf' };
  node_in = x.node_in;
  node_at =
      get_elem?-set_self cs.bot_lvl_nodes (node_index p) _
        (get_elem?-lt_length cs.bot_lvl_nodes (node_index p) x.node_at);
  cnode_in = x.cnode_in;
  cnode_at =
      get_elem?-set_self x.node.cnodes (cnode_index p) bf'
        (get_elem?-lt_length x.node.cnodes (cnode_index p) x.cnode_at);
})

-- A CNode other than the one written stays: in another page, or beside it in the same page.
pub set_cnode_elsewhere :
    (cs : CSpace) (p q : ℕ) (bf bf' bq : Bitfield)
    → Present cs p bf
    → p / 256 ≢ q / 256
    → Present cs q bq
    → Present (set_cnode cs p bf') q bq
set_cnode_elsewhere cs p q bf bf' bq x ne y = elim (Bool-cases (node_index p == node_index q)) [
  | inr other ↦
      let apart : node_index p ≢ node_index q = ground (arith, other) in
      rw (set_cnode_at cs p bf bf' x) (record {
        node = y.node;
        node_in = y.node_in;
        node_at =
            get_elem?-set_ne cs.bot_lvl_nodes (node_index p) (node_index q) _ apart ∙ y.node_at;
        cnode_in = y.cnode_in;
        cnode_at = y.cnode_at;
      })
  | inl same ↦
      let e : node_index p ≡ node_index q = ground (arith, same) in
      let apart : cnode_index p ≢ cnode_index q = λ k. ne (same_cnode p q e k) in
      let both : ◌≡◌ {A = Option (Option BotLvlNode)} (some (some x.node)) (some (some y.node)) =
        sym x.node_at ∙ ap (get_elem? cs.bot_lvl_nodes) e ∙ y.node_at in
      let one : x.node ≡ y.node = cc (both) in
      rw (set_cnode_at cs p bf bf' x) (record {
        node = record (x.node) { cnodes = set x.node.cnodes (cnode_index p) bf' };
        node_in = y.node_in;
        node_at =
            ap
              (get_elem? (
                set cs.bot_lvl_nodes (node_index p)
                  (some (record (x.node) { cnodes = set x.node.cnodes (cnode_index p) bf' }))))
              (sym e)
            ∙ get_elem?-set_self cs.bot_lvl_nodes (node_index p) _
                (get_elem?-lt_length cs.bot_lvl_nodes (node_index p) x.node_at);
        cnode_in = omega (arith, y.cnode_in, ap (λ (k : BotLvlNode). k.n_cnodes) one);
        cnode_at =
            get_elem?-set_ne x.node.cnodes (cnode_index p) (cnode_index q) bf' apart
            ∙ ap (λ (k : BotLvlNode). get_elem? k.cnodes (cnode_index q)) one
            ∙ y.cnode_at;
      })
]
