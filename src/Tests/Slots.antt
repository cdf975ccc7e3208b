-- ===== src/Tests/Slots.antt =====
-- Cspaces of one and of two levels.
use smos_thesis.Base.{ℕ, zero, suc, ◌<◌, ◌≡◌, refl, [], ◌∷◌, true, false, some, ret, panic, arith}
use smos_thesis.Word.{test_bit}
use smos_thesis.Bitfield.{Bitfield}
use smos_thesis.Bitfield.Laws.{member, capacity, Writes}
use smos_thesis.RootServer.Cspace.{CSpace, cnode_slots, alloc_cspace_slot, free_cspace_slot}
use smos_thesis.RootServer.Cspace.OneLevel.{
  IsOneLevel, AllocatesOne, alloc_cspace_slot-AllocatesOne, free_cspace_slot_lem,
}
use smos_thesis.RootServer.Cspace.TwoLevel.{CnodeOk, IsTwoLevel, AllocatesTwo}
use smos_thesis.RootServer.Cspace.FreeTwo.{Frees, free_cspace_slot-Frees}
use smos_thesis.RootServer.Cspace.AllocTwo.{alloc_cspace_slot-AllocatesTwo}

-- One level of 64 slots, 0 to 2 taken.
abbrev one_level : CSpace
one_level = record {
  root_cnode = 1;
  two_level = false;
  top_lvl_size_bits = 11;
  top_bf = 7 ∷ [];
  n_bot_lvl_nodes = 0;
  bot_lvl_nodes = [];
  watermark = [];
}

one_level-IsOneLevel : IsOneLevel one_level
one_level-IsOneLevel = record { one = refl; words = (omega arith, tt); size = omega arith }

alloc_cspace_slot-AllocatesOne_example : AllocatesOne one_level (alloc_cspace_slot one_level)
alloc_cspace_slot-AllocatesOne_example =
    alloc_cspace_slot-AllocatesOne one_level one_level-IsOneLevel

free_cspace_slot_lem_example :
    (◌≡◌ {A = ℕ} 2 0 → free_cspace_slot one_level 2 ≡ ret one_level)
    × (cnode_slots 11 < 2 → free_cspace_slot one_level 2 ≡ ret one_level)
    × (0 < 2
        → 2 < cnode_slots 11
        → (bf : Bitfield) × (free_cspace_slot one_level 2 ≡ ret (record one_level { top_bf = bf }))
          × Writes false one_level.top_bf 2 bf)
    × (2 ≡ cnode_slots 11 → capacity one_level.top_bf ≡ 2 → free_cspace_slot one_level 2 ≡ panic)
free_cspace_slot_lem_example = free_cspace_slot_lem one_level 2 one_level-IsOneLevel

-- Two levels, with one CNode, of which the slots 0 to 2 are taken.
abbrev cnode_words : Bitfield
cnode_words = 7 ∷ 0 ∷ 0 ∷ 0 ∷ []

abbrev two_levels : CSpace
two_levels = record {
  root_cnode = 1;
  two_level = true;
  top_lvl_size_bits = 11;
  top_bf = 0 ∷ [];
  n_bot_lvl_nodes = 1;
  bot_lvl_nodes = some (record { n_cnodes = 1; cnodes = cnode_words ∷ [] }) ∷ [];
  watermark = [];
}

first_cnode : CnodeOk two_levels 0
unfolding member test_bit
first_cnode = record {
  bf = cnode_words;
  at = record {
    node = record { n_cnodes = 1; cnodes = cnode_words ∷ [] };
    node_in = omega arith;
    node_at = refl;
    cnode_in = omega arith;
    cnode_at = refl;
  };
  words = (omega arith, (omega arith, (omega arith, (omega arith, tt))));
  size = refl;
  last = refl;
  room = λ e. (3, omega arith, refl);
}

cnodes_ok : (c : ℕ) → c < 1 → CnodeOk two_levels c
cnodes_ok zero h = first_cnode
cnodes_ok (suc c) h = absurd (omega (arith, h))

two_levels-IsTwoLevel : IsTwoLevel two_levels 1
two_levels-IsTwoLevel = record {
  two = refl;
  words = (omega arith, tt);
  size = omega arith;
  within = omega arith;
  cnodes = cnodes_ok;
}

alloc_cspace_slot-AllocatesTwo_example : AllocatesTwo two_levels 1 (alloc_cspace_slot two_levels)
alloc_cspace_slot-AllocatesTwo_example =
    alloc_cspace_slot-AllocatesTwo two_levels 1 two_levels-IsTwoLevel

free_cspace_slot-Frees_example :
    (cs' : CSpace) × (free_cspace_slot two_levels 2 ≡ ret cs')
    × Frees two_levels 2 cs'
    × IsTwoLevel cs' 1
free_cspace_slot-Frees_example =
    free_cspace_slot-Frees two_levels 1 2 two_levels-IsTwoLevel (omega arith) (omega arith)
      (omega arith) (omega arith)
