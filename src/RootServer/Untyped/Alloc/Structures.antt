-- ===== src/RootServer/Untyped/Alloc/Structures.antt =====
-- Frames are mapped, and new structures made, on a valid table.
use mathlib.Core.Path.{subst}
use smos_thesis.Base.{
  ℕ, zero, suc, ◌+◌, ◌-◌, ◌*◌, ◌/◌, ◌%◌, ◌^◌, ◌<◌, ◌≤◌, ◌≡◌, ◌≢◌, refl, sym, ◌∙◌, ap, true, false,
  Option, none, some, Result, ok, err, ltb, ◌==◌, if◌then◌else◌, arith, inl, inr, Bool-cases,
}
use smos_thesis.RootServer.Kernel.{SelError, invalid_capability, page_size_4k}
use smos_thesis.RootServer.Untyped.{
  UtTable, Op, done, refuse, ◌>>=◌, ut_bytes, push_structure, checked, pop_untyped, with_paddr,
  alloc_4k_untyped,
}
use smos_thesis.RootServer.Untyped.Mapping.{
  small_page, Services, ask, outcome, map_loop, map_frame, mapped, is_failed_lookup, next_slot,
  used_slots, map_once_more, init_vspace, all_rights, default_attributes,
}
use smos_thesis.RootServer.Untyped.Alloc.{
  retype_ut, push_structures, next_page, map_frame_to_next_free_vaddr, new_structures,
  ensure_new_structures, needs_structures,
}
use smos_thesis.RootServer.Untyped.Alloc.Panics.{after_frame_map, map_once_more-Reached}
use smos_thesis.RootServer.Untyped.Alloc.Valid.{Place, top, IsValid}
use smos_thesis.RootServer.Untyped.Alloc.Post.{
  Post, went, Any, All, Holds, bind-Post, done-Post, refuse-Post, Post-weaken,
}
use smos_thesis.RootServer.Untyped.Alloc.Steps.{
  IsFresh, OtherThan, OnlyMoves, Taken, pop_untyped-Post, push_structure-Post, ask-Post,
  outcome-Post, retype_ut-Post,
}

-- A page of memory that was free.
abbrev pub Page : {World : Type 0} → Place → ℕ × ℕ → UtTable World → Place → Type 0
Page place out t' place' = Holds out.1 12 t' place' × IsFresh place out.1

module _ {World : Type 0} (s : Services World) (base : ℕ) where
  with_paddr-Post :
      (place0 : Place) (t : UtTable World) (place : Place) (size : ℕ → ℕ) (p : ℕ)
      → IsValid base t place size
      → Holds p 12 t place
      → IsFresh place0 p
      → Post s base 0 All (with_paddr p t) t place (Page place0)
  unfolding with_paddr
  with_paddr-Post place0 t place size p v h fresh =
      let low : ltb p base ≡ false = ground (arith, (v.known p 10 0 h.0).0) in
      let paddr = (p - base) / 32 * 4096 + t.first_paddr in
      let fits : ltb paddr (2 ^ 64) ≡ true =
        ground (arith, (v.known p 10 0 h.0).0, (v.known p 10 0 h.0).1, v.fits) in
      let e : with_paddr p t ≡ done (paddr, p) t = ground (arith, v.based, low, fits) in
      subst (λ out. Post s base 0 All out t place (Page place0)) (sym e)
        (done-Post base All (Page place0) (paddr, p) t place size v (h, fresh))

  pub alloc_4k_untyped-Post :
      (t : UtTable World) (place : Place) (size : ℕ → ℕ)
      → IsValid base t place size
      → Post s base 0 All (alloc_4k_untyped t) t place (Page place)
  unfolding alloc_4k_untyped
  alloc_4k_untyped-Post t place size v =
      bind-Post base 0 0 All (pop_untyped 8) with_paddr t place (Taken 8 place) (Page place)
        (pop_untyped-Post s base t place size v 8 (omega arith))
        (λ p t' place' size' v' k r q.
          (All, (λ x y z. tt), with_paddr-Post place t' place' size' p v' q.0 q.1))

  mapped-Post :
      (r : Result SelError (Unit {0})) (used : ℕ) (t : UtTable World) (place : Place) (size : ℕ → ℕ)
      → IsValid base t place size
      → Post s base 0 All (mapped r used t) t place Any
  mapped-Post (ok u) used t place size v = done-Post base All Any used t place size v tt
  mapped-Post (err e) used t place size v = refuse-Post base All Any e t place size v

  module _ (frame vspace vaddr rights attributes : ℕ) (free_slots : Option (ℕ → ℕ)) where
    next_slot-Post :
        (slots : Option (ℕ → ℕ)) (i : ℕ) (t : UtTable World) (place : Place) (size : ℕ → ℕ)
        → IsValid base t place size
        → Post s base 0 All (next_slot s slots i t) t place Any
    next_slot-Post none i t place size v = ask-Post s base t place size v All
    next_slot-Post (some slots) i t place size v =
        done-Post base All Any (slots i) t place size v tt

    abbrev mapped_again : (ℕ × ℕ) → ℕ → Op World (Result SelError (Unit {0}))
    mapped_again out slot t =
        outcome (map_once_more s frame vspace vaddr rights attributes (t.uts out.1).cap slot) t

    abbrev next_round : (left i used : ℕ) → Result SelError (Unit {0}) → Op World ℕ
    next_round left i used r' =
        map_loop s left (i + 1) (used_slots free_slots i used) r' frame vspace vaddr rights
          attributes free_slots

    abbrev round : (left i used : ℕ) → (ut : ℕ × ℕ) → ℕ → Op World ℕ
    round left i used out slot =
        if slot == 0
        then refuse invalid_capability
        else (mapped_again out slot >>= next_round left i used)

    map_loop-Post :
        (left i used : ℕ) (r : Result SelError (Unit {0})) (t : UtTable World) (place : Place)
        (size : ℕ → ℕ)
        → IsValid base t place size
        → Post s base 0 All
            (map_loop s left i used r frame vspace vaddr rights attributes free_slots t)
            t
            place
            Any
    unfolding map_loop
    map_loop-Post zero i used r t place size v = mapped-Post r used t place size v
    map_loop-Post (suc left) i used r t place size v = elim (Bool-cases (is_failed_lookup r)) [
      | inr e ↦ rw e (mapped-Post r used t place size v)
      | inl e ↦ rw e (
          bind-Post base 0 0 All alloc_4k_untyped _ t place (Page place) Any
            (alloc_4k_untyped-Post t place size v)
            (λ out t1 place1 size1 v1 k1 r1 q1. (
              All,
              (λ x y z. tt),
              bind-Post base 0 0 All (next_slot s free_slots i) (round left i used out) t1 place1
                  Any Any (next_slot-Post free_slots i t1 place1 size1 v1)
                  (λ slot t2 place2 size2 v2 k2 r2 q2. (
                    All,
                    (λ x y z. tt),
                    elim (Bool-cases (slot == 0)) [
                      | inl z ↦
                          rw z (refuse-Post base All Any invalid_capability t2 place2 size2 v2)
                      | inr z ↦ rw z (
                          bind-Post base 0 0 All (mapped_again out slot) (next_round left i used) t2
                            place2 Any Any
                            (outcome-Post s base t2 place2 size2 v2 All
                              (map_once_more s frame vspace vaddr rights attributes
                                (t2.uts out.1).cap slot)
                              (map_once_more-Reached s frame vspace vaddr rights attributes
                                (t2.uts out.1).cap slot t2.world))
                            (λ r' t3 place3 size3 v3 k3 r3 q3. (
                              All,
                              (λ x y z. tt),
                              map_loop-Post left (i + 1) (used_slots free_slots i used) r' t3 place3
                                  size3 v3,
                            )))
                    ],
                  )),
            )))
    ]

    pub map_frame-Post :
        (t : UtTable World) (place : Place) (size : ℕ → ℕ)
        → IsValid base t place size
        → Post s base 0 All
            (map_frame s frame vspace vaddr rights attributes free_slots t)
            t
            place
            Any
    unfolding map_frame
    map_frame-Post t place size v =
        bind-Post base 0 0 All (outcome (s.frame_map frame vspace vaddr rights attributes))
          (λ r. map_loop s 3 0 0 r frame vspace vaddr rights attributes free_slots) t place Any Any
          (outcome-Post s base t place size v All (s.frame_map frame vspace vaddr rights attributes)
            (after_frame_map frame vspace vaddr rights attributes t.world))
          (λ r t1 place1 size1 v1 k1 r1 q1.
            (All, (λ x y z. tt), map_loop-Post 3 0 0 r t1 place1 size1 v1))

  -- The structures of a page that none of the known ones stands in.
  push_structures-Post :
      (n i new_uts : ℕ) (t : UtTable World) (place : Place) (size : ℕ → ℕ)
      → IsValid base t place size
      → base ≤ new_uts
      → new_uts + (i + n) * 32 ≤ t.next_free_vaddr
      → t.next_free_vaddr < 2 ^ 64
      → ((p c m : ℕ) → new_uts + i * 32 ≤ p → place p ≢ some (c, m))
      → Post s base 0 All (push_structures n i new_uts t) t place Any
  unfolding push_structures
  push_structures-Post zero i new_uts t place size v low high small away =
      done-Post base All Any tt t place size v tt
  push_structures-Post (suc n) i new_uts t place size v low high small away =
      let new = new_uts + i * 32 in
      let same : (new_uts + i * ut_bytes) % 2 ^ 64 ≡ new = omega arith in
      rw same (
        bind-Post base 0 0 All (push_structure new) (λ u. push_structures n (i + 1) new_uts) t place
          (OnlyMoves new t place) Any
          (Post-weaken base 0 0 (OtherThan new) All _ t place (OnlyMoves new t place)
            (OnlyMoves new t place) (omega arith)
            (λ p k h e. away new 10 0 (omega arith) (sym (ap place e) ∙ h)) (λ a t' place' q. q)
            (push_structure-Post s base t place size v new (λ c m lt. away new c m (omega arith))
              (omega arith) (omega arith)))
          (λ u t1 place1 size1 v1 k1 r1 q1. (
            All,
            (λ x y z. tt),
            push_structures-Post n (i + 1) new_uts t1 place1 size1 v1 low (rw q1.0 (omega arith))
                (rw q1.0 small)
                (λ p c m lt e.
                  away p c m (omega arith) (sym (q1.1 p (λ e'. omega (arith, e', lt))) ∙ e)),
          )))

  -- A page of fresh structures.
  abbrev FreshPage : ℕ → UtTable World → Place → Type 0
  FreshPage new_uts t' place' =
      (base ≤ new_uts)
      × (new_uts + 4096 ≤ t'.next_free_vaddr)
      × (t'.next_free_vaddr < 2 ^ 64)
      × ((p c m : ℕ) → new_uts ≤ p → place' p ≢ some (c, m))

  next_page-Post :
      (t : UtTable World) (place : Place) (size : ℕ → ℕ)
      → IsValid base t place size
      → top base t + 524288 < 2 ^ 64
      → Post s base 1 All (next_page t) t place FreshPage
  unfolding next_page
  next_page-Post t place size v small =
      let next = t.next_free_vaddr + 4096 in
      let fits : ltb next (2 ^ 64) ≡ true = ground (arith, v.low, v.below, small) in
      went (record {
        result = ok t.next_free_vaddr;
        after = record t { next_free_vaddr = next };
        places = place;
        sizes = size;
        returns = rw (next_page, checked, fits) refl;
        valid = record {
          based = v.based;
          below = omega (arith, v.below);
          low = v.low;
          fits = omega (arith, v.below, small);
          headed = v.headed;
          linked = v.linked;
          unique = v.unique;
          sized = v.sized;
          known = λ p c n at. ground (arith, v.known p c n at);
        };
        keeps = record { place_kept = λ p k h. h; size_kept = λ p k h. refl };
        room = omega (arith, v.below);
        good = (
          v.below,
          omega arith,
          omega (arith, v.low, v.below, small),
          λ p c m le e. omega (arith, le, (v.known p c m e).1),
        );
        reached = λ x. x;
      })

  map_frame_to_next_free_vaddr-Post :
      (frame : ℕ) (t : UtTable World) (place : Place) (size : ℕ → ℕ)
      → IsValid base t place size
      → top base t + 524288 < 2 ^ 64
      → Post s base 1 All (map_frame_to_next_free_vaddr s frame t) t place FreshPage
  unfolding map_frame_to_next_free_vaddr
  map_frame_to_next_free_vaddr-Post frame t place size v small =
      bind-Post base 0 1 All
        (map_frame s frame init_vspace t.next_free_vaddr all_rights default_attributes none)
        (λ used. next_page) t place Any FreshPage
        (map_frame-Post frame init_vspace t.next_free_vaddr all_rights default_attributes none t
          place size v)
        (λ used t1 place1 size1 v1 k1 r1 q1.
          (All, (λ x y z. tt), next_page-Post t1 place1 size1 v1 (omega (arith, r1, small))))

  abbrev rest_slot : ℕ × ℕ → ℕ → Op World (Unit {0})
  rest_slot frame_ut cptr = retype_ut s frame_ut.1 small_page cptr >>= λ u.
      map_frame_to_next_free_vaddr s cptr >>= λ new_uts.
      push_structures (page_size_4k / ut_bytes) 0 new_uts

  new_structures-Post :
      (t : UtTable World) (place : Place) (size : ℕ → ℕ)
      → IsValid base t place size
      → top base t + 524288 < 2 ^ 64
      → Post s base 1 All (new_structures s t) t place Any
  unfolding new_structures
  new_structures-Post t place size v small =
      bind-Post base 0 1 All alloc_4k_untyped (λ frame_ut. ask s.alloc_slot >>= rest_slot frame_ut)
        t place (Page place) Any (alloc_4k_untyped-Post t place size v)
        (λ frame_ut t1 place1 size1 v1 k1 r1 q1. (
          All,
          (λ x y z. tt),
          bind-Post base 0 1 All (ask s.alloc_slot) (rest_slot frame_ut) t1 place1 Any Any
              (ask-Post s base t1 place1 size1 v1 All)
              (λ cptr t2 place2 size2 v2 k2 r2 q2. (
                All,
                (λ x y z. tt),
                bind-Post base 0 1 All (retype_ut s frame_ut.1 small_page cptr)
                    (λ u. map_frame_to_next_free_vaddr s cptr >>= push_structures 128 0) t2 place2
                    Any Any
                    (retype_ut-Post s base t2 place2 size2 v2 All frame_ut.1 small_page cptr)
                    (λ u t3 place3 size3 v3 k3 r3 q3. (
                      All,
                      (λ x y z. tt),
                      bind-Post base 1 0 All (map_frame_to_next_free_vaddr s cptr)
                          (push_structures 128 0) t3 place3 FreshPage Any
                          (map_frame_to_next_free_vaddr-Post cptr t3 place3 size3 v3
                            (omega (arith, r1, r2, r3, small)))
                          (λ new_uts t4 place4 size4 v4 k4 r4 q4. (
                            All,
                            (λ x y z. tt),
                            push_structures-Post 128 0 new_uts t4 place4 size4 v4 q4.0 q4.1 q4.2
                                (λ p c m le. q4.3 p c m (omega (arith, le))),
                          )),
                    )),
              )),
        ))

  pub ensure_new_structures-Post :
      (t : UtTable World) (place : Place) (size : ℕ → ℕ)
      → IsValid base t place size
      → top base t + 524288 < 2 ^ 64
      → Post s base 1 All (ensure_new_structures s t) t place Any
  unfolding ensure_new_structures
  ensure_new_structures-Post t place size v small = elim (Bool-cases (needs_structures t)) [
    | inl e ↦ rw e (new_structures-Post t place size v small)
    | inr e ↦ rw e (
        Post-weaken base 0 1 All All _ t place Any Any (omega arith) (λ p k h. k)
          (λ a t' place' q. tt) (done-Post base All Any tt t place size v tt))
  ]
