-- ===== src/RootServer/Untyped/Alloc.antt =====
-- crates/root_server/src/ut.rs: an untyped of a size, made from a larger one where none is free.
pub mod Valid
pub mod Panics
pub mod Post
pub mod Steps
pub mod Structures
pub mod Undo
pub mod Split
pub mod Laws
pub mod Served
use smos_thesis.Base.{
  ℕ, zero, suc, ◌+◌, ◌-◌, ◌*◌, ◌/◌, ◌%◌, ◌^◌, Bool, true, false, Option, none, some, is_none,
  Result, ok, err, Run, ret, panic, ltb, leb, ◌==◌, if◌then◌else◌,
}
use smos_thesis.RootServer.Kernel.{
  SelError, invalid_argument, page_bits, endpoint_bits, page_size_4k,
}
use smos_thesis.RootServer.Untyped.{
  Ut, UtTable, Op, done, refuse, ◌>>=◌, ◌>>◌, or_undo, ut_bytes, n_untyped_lists, set_ut, set_list,
  size_bits_to_index, checked, alloc_4k_untyped, pop_structure, push_structure, push_untyped, free,
}
use smos_thesis.RootServer.Untyped.Mapping.{
  ObjectBlueprint, untyped, small_page, Services, map_frame, ask, call, tell, init_vspace,
  all_rights, default_attributes,
}

-- Fewer than two structures are free.
abbrev pub needs_structures : {World : Type 0} → UtTable World → Bool
needs_structures t = elim t.free_structures [ none ↦ true | some p ↦ is_none (t.uts p).next ]

module _ {World : Type 0} where
  -- The structures of a page, from the one with the number `i` on.
  unfoldable pub push_structures : (n i : ℕ) → ℕ → Op World (Unit {0})
  push_structures zero i new_uts = done tt
  push_structures (suc n) i new_uts =
      push_structure ((new_uts + i * ut_bytes) % 2 ^ 64) >> push_structures n (i + 1) new_uts

  unfoldable pub next_page : Op World ℕ
  next_page t = elim (checked (t.next_free_vaddr + page_size_4k)) [
    | panic ↦ panic
    | ret next ↦ done t.next_free_vaddr (record t { next_free_vaddr = next })
  ]

  -- `(*new).cap = cslot` and `(*new).size_bits = size_bits`
  unfoldable pub set_untyped : ℕ → ℕ → ℕ → Op World (Unit {0})
  set_untyped new cslot size_bits t = done tt (record t {
    uts = set_ut t.uts new (record (t.uts new) { cap = cslot; size_bits = size_bits });
  })

  -- `pop(self.free_untypeds[k]).unwrap()`
  unfoldable pub take_first : ℕ → Op World ℕ
  take_first k t =
      if ltb k n_untyped_lists
      then elim (t.free_untypeds k) [
        | none ↦ panic
        | some p ↦ done p (record t { free_untypeds = set_list t.free_untypeds k (t.uts p).next })
      ]
      else panic

  -- What `alloc` undoes when a later step fails, in the order of the code.
  unfoldable pub undo_first : (larger new1 : ℕ) → Op World (Unit {0})
  undo_first larger new1 = free larger >> push_structure new1

module _ {World : Type 0} (s : Services World) where
  unfoldable pub map_frame_to_next_free_vaddr : ℕ → Op World ℕ
  map_frame_to_next_free_vaddr frame t =
      (map_frame s frame init_vspace t.next_free_vaddr all_rights default_attributes none
          >>= λ used. next_page)
        t

  unfoldable pub retype_ut : (ut : ℕ) → ObjectBlueprint → (slot : ℕ) → Op World (Unit {0})
  retype_ut ut blueprint slot t = call (s.untyped_retype (t.uts ut).cap blueprint slot) t

  unfoldable pub new_structures : Op World (Unit {0})
  new_structures = alloc_4k_untyped >>= λ frame_ut. ask s.alloc_slot >>= λ cptr.
      retype_ut frame_ut.1 small_page cptr >>= λ u. map_frame_to_next_free_vaddr cptr >>= λ new_uts.
      push_structures (page_size_4k / ut_bytes) 0 new_uts

  unfoldable pub ensure_new_structures : Op World (Unit {0})
  ensure_new_structures t = if needs_structures t then new_structures t else done tt t

  unfoldable pub undo_slot : (larger new1 cslot1 : ℕ) → Op World (Unit {0})
  unfolding undo_first
  undo_slot larger new1 cslot1 = undo_first larger new1 >> tell (s.free_slot cslot1)

  unfoldable pub undo_second : (larger new1 cslot1 new2 : ℕ) → Op World (Unit {0})
  unfolding undo_slot
  undo_second larger new1 cslot1 new2 = undo_slot larger new1 cslot1 >> push_structure new2

  unfoldable pub undo_both : (larger new1 cslot1 new2 cslot2 : ℕ) → Op World (Unit {0})
  unfolding undo_second
  undo_both larger new1 cslot1 new2 cslot2 =
      undo_second larger new1 cslot1 new2 >> tell (s.free_slot cslot2)

  -- The first of the new untypeds is there.
  unfoldable pub undo_retyped : (larger new1 cslot1 new2 cslot2 : ℕ) → Op World (Unit {0})
  unfolding undo_first
  undo_retyped larger new1 cslot1 new2 cslot2 =
      undo_first larger new1
      >> (call (s.delete cslot1)
          >> (tell (s.free_slot cslot1) >> (push_structure new2 >> tell (s.free_slot cslot2))))

  unfoldable pub retype_two : (size_bits larger new1 cslot1 new2 cslot2 : ℕ) → Op World (Unit {0})
  unfolding undo_both undo_retyped
  retype_two size_bits larger new1 cslot1 new2 cslot2 =
      or_undo (retype_ut larger (untyped size_bits) cslot1)
        (undo_both larger new1 cslot1 new2 cslot2)
      >> (or_undo (retype_ut larger (untyped size_bits) cslot2)
            (undo_retyped larger new1 cslot1 new2 cslot2)
          >> (push_untyped (size_bits_to_index size_bits) new1
              >> push_untyped (size_bits_to_index size_bits) new2))

  unfoldable pub second_half : (size_bits larger new1 cslot1 : ℕ) → Op World (Unit {0})
  unfolding undo_second retype_two
  second_half size_bits larger new1 cslot1 =
      or_undo pop_structure (undo_slot larger new1 cslot1) >>= λ new2.
      or_undo (ask s.alloc_slot) (undo_second larger new1 cslot1 new2) >>= λ cslot2.
      set_untyped new2 cslot2 size_bits >> retype_two size_bits larger new1 cslot1 new2 cslot2

  -- The untyped `larger` becomes two of half its size.
  unfoldable pub split : (size_bits larger : ℕ) → Op World (Unit {0})
  unfolding second_half
  split size_bits larger =
      or_undo ensure_new_structures (free larger)
      >> (or_undo pop_structure (free larger) >>= λ new1.
          or_undo (ask s.alloc_slot) (undo_first larger new1) >>= λ cslot1.
          set_untyped new1 cslot1 size_bits >> second_half size_bits larger new1 cslot1)

  -- `alloc` of a size in bounds that is `levels` below that of a page.
  unfoldable pub alloc_level : (levels size_bits : ℕ) → Op World ℕ
  unfolding split
  alloc_level zero size_bits t = (alloc_4k_untyped >>= λ out. done out.1) t
  alloc_level (suc levels) size_bits t =
      let made = alloc_level levels (size_bits + 1) >>= split size_bits in
      ((if is_none (t.free_untypeds (size_bits_to_index size_bits)) then made else done tt)
          >> take_first (size_bits_to_index size_bits))
        t

  unfoldable pub alloc : ℕ → Op World ℕ
  unfolding alloc_level
  alloc size_bits =
      if ltb page_bits size_bits
      then refuse invalid_argument
      else if ltb size_bits endpoint_bits
      then refuse invalid_argument
      else alloc_level (page_bits - size_bits) size_bits
