-- ===== src/RootServer/Cspace.antt =====
-- crates/root_server/src/cspace.rs: the capability slots of the root server and of the processes,
-- in one level of CNodes or in two.
pub mod OneLevel
pub mod Cnodes
pub mod TwoLevel
pub mod AllocTwo
pub mod FreeTwo
use smos_thesis.Base.{
  ℕ, ◌+◌, ◌-◌, ◌*◌, ◌/◌, ◌%◌, ◌^◌, List, [], ◌∷◌, Bool, true, false, ◌&&◌, ◌||◌, not, Option, none,
  some, Result, ok, err, Run, ret, panic, ◌>>=◌, unwrap, assert, ltb, leb, ◌==◌, if◌then◌else◌,
  length, get_elem?, set,
}
use smos_thesis.Bitfield.{Bitfield, bf_first_free, bf_set_bit, bf_clr_bit}
use smos_thesis.RootServer.Kernel.{SelError, slot_bits}

abbrev pub cnode_size_bits : ℕ
cnode_size_bits = 13

abbrev pub cnode_slot_bits : ℕ → ℕ
cnode_slot_bits x = x - slot_bits

abbrev pub cnode_slots : ℕ → ℕ
cnode_slots x = 2 ^ cnode_slot_bits x

-- `(PAGE_SIZE_4K - WORD_SIZE * 3) / size_of::<BotLvlT>()`, a bitfield of four words and a pointer.
abbrev pub bot_lvl_per_node : ℕ
bot_lvl_per_node = 97

abbrev pub node_index : ℕ → ℕ
node_index cptr = cptr / cnode_slots cnode_size_bits / bot_lvl_per_node

abbrev pub cnode_index : ℕ → ℕ
cnode_index cptr = cptr / cnode_slots cnode_size_bits % bot_lvl_per_node

abbrev pub top_lvl_index : ℕ → ℕ
top_lvl_index cptr = cptr / cnode_slots cnode_size_bits

abbrev pub bot_lvl_index : ℕ → ℕ
bot_lvl_index cptr = cptr % cnode_slots cnode_size_bits

-- A page of bottom-level CNodes; of each, the bitfield of its slots.
pub record BotLvlNode : Type 0 where
  pub n_cnodes : ℕ
  pub cnodes : List Bitfield

-- `bot_lvl_nodes` are pointers, some of them null.
pub record CSpace : Type 0 where
  pub root_cnode : ℕ
  pub two_level : Bool
  pub top_lvl_size_bits : ℕ
  pub top_bf : Bitfield
  pub n_bot_lvl_nodes : ℕ
  pub bot_lvl_nodes : List (Option BotLvlNode)
  pub watermark : List ℕ

-- The bottom-level CNode of a capability pointer. One that is missing is made by `ensure_levels`,
-- which is a `todo!()`.
unfoldable pub get_cnode : CSpace → ℕ → Run Bitfield
get_cnode cs cptr = if leb cs.n_bot_lvl_nodes (node_index cptr) then panic else (do
  entry ← unwrap (get_elem? cs.bot_lvl_nodes (node_index cptr))
  node ← unwrap entry
  if leb node.n_cnodes (cnode_index cptr)
      then panic
      else unwrap (get_elem? node.cnodes (cnode_index cptr)))

unfoldable pub set_cnode : CSpace → ℕ → Bitfield → CSpace
set_cnode cs cptr bf = elim (get_elem? cs.bot_lvl_nodes (node_index cptr)) [
  | none ↦ cs
  | some entry ↦ elim entry [
    | none ↦ cs
    | some node ↦ record cs {
      bot_lvl_nodes =
          set cs.bot_lvl_nodes (node_index cptr)
            (some (record node { cnodes = set node.cnodes (cnode_index cptr) bf }));
    }
  ]
]

-- The top level's bit is set where the CNode has only its last slot left.
unfoldable pub note_full : CSpace → ℕ → ℕ → Run CSpace
note_full cs top_index next =
    if leb (cnode_slots cnode_size_bits - 1) next
    then (bf_set_bit cs.top_bf top_index >>= λ bf. ret (record cs { top_bf = bf }))
    else ret cs

-- The second level. No watermark slot is used where no level is made.
unfoldable pub alloc_bottom : CSpace → ℕ → Run (Result SelError ℕ × CSpace)
alloc_bottom cs top_index = do
  let cptr = top_index * cnode_slots cnode_size_bits
  bf ← get_cnode cs cptr
  elim (bf_first_free bf) [
    | err e ↦ ret (err SelError.not_enough_memory, cs)
    | ok bot_index ↦ bf_set_bit bf bot_index >>= λ bf'. elim (bf_first_free bf') [
      | err e ↦ ret (err SelError.not_enough_memory, set_cnode cs cptr bf')
      | ok next ↦ note_full (set_cnode cs cptr bf') top_index next >>= λ cs'.
          ret (ok (cptr + bot_index), cs')
    ]
  ]

abbrev pub out_of_bounds : CSpace → ℕ → Bool
out_of_bounds cs top_index =
    (cs.two_level && ltb (cnode_slots cs.top_lvl_size_bits) top_index)
    || leb (cnode_slots cs.top_lvl_size_bits) top_index

unfoldable pub alloc_cspace_slot : CSpace → Run (Result SelError ℕ × CSpace)
alloc_cspace_slot cs = elim (bf_first_free cs.top_bf) [
  | err e ↦ ret (err SelError.not_enough_memory, cs)
  | ok top_index ↦
      if out_of_bounds cs top_index
      then ret (err SelError.invalid_capability, cs)
      else if cs.two_level
      then alloc_bottom cs top_index
      else (bf_set_bit cs.top_bf top_index >>= λ bf. ret (ok top_index, record cs { top_bf = bf }))
]

unfoldable pub free_bottom : CSpace → ℕ → Run CSpace
free_bottom cs cptr = if leb cs.n_bot_lvl_nodes (node_index cptr) then ret cs else (do
  entry ← unwrap (get_elem? cs.bot_lvl_nodes (node_index cptr))
  node ← unwrap entry
  if leb node.n_cnodes (cnode_index cptr) then ret cs else (do
    bf ← unwrap (get_elem? node.cnodes (cnode_index cptr))
    bf' ← bf_clr_bit bf (bot_lvl_index cptr)
    ret (set_cnode cs cptr bf')))

unfoldable pub free_cspace_slot : CSpace → ℕ → Run CSpace
free_cspace_slot cs cptr =
    if cptr == 0
    then ret cs
    else if not cs.two_level
    then (if ltb (cnode_slots cs.top_lvl_size_bits) cptr
        then ret cs
        else (bf_clr_bit cs.top_bf cptr >>= λ bf. ret (record cs { top_bf = bf })))
    else (if ltb (cnode_slots (cnode_size_bits + cs.top_lvl_size_bits)) cptr
        then ret cs
        else (bf_clr_bit cs.top_bf (top_lvl_index cptr) >>= λ bf.
            free_bottom (record cs { top_bf = bf }) cptr))
