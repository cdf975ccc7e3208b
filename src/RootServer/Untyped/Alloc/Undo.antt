-- ===== src/RootServer/Untyped/Alloc/Undo.antt =====
-- What `alloc` undoes when a step fails, on a valid table.
use smos_thesis.Base.{ℕ, ◌+◌, ◌<◌, ◌≡◌, ◌≢◌, ◌∙◌, arith}
use smos_thesis.RootServer.Untyped.{UtTable, Op, ◌>>◌, push_structure, free}
use smos_thesis.RootServer.Untyped.Mapping.{Services, call, tell}
use smos_thesis.RootServer.Untyped.Alloc.{
  undo_first, undo_slot, undo_second, undo_both, undo_retyped,
}
use smos_thesis.RootServer.Untyped.Alloc.Valid.{Place, held, IsValid}
use smos_thesis.RootServer.Untyped.Alloc.Panics.{after_delete}
use smos_thesis.RootServer.Untyped.Alloc.Post.{
  Post, KeptBy, Any, All, Holds, bind-Post, Post-narrow, Post-weaken,
}
use smos_thesis.RootServer.Untyped.Alloc.Steps.{
  OtherThan, HasFirst, OnlyMoves, push_structure-Post, free-Post, call-Post, tell-Post,
}

abbrev pub OtherThanTwo : ℕ → ℕ → ℕ → Type 0
OtherThanTwo larger new1 p = (p ≢ larger) × (p ≢ new1)

abbrev pub OtherThanThree : ℕ → ℕ → ℕ → ℕ → Type 0
OtherThanThree larger new1 new2 p = (p ≢ larger) × (p ≢ new1) × (p ≢ new2)

module _ {World : Type 0} (base k larger : ℕ) (inside : k < 8) where
  -- The state before the undoing: the untyped taken, and a structure taken for the first half.
  pub record Taken (new1 : ℕ) (t : UtTable World) (place : Place) : Type 0 where
    pub larger_held : Holds larger (k + 5) t place
    pub new1_held : place new1 ≡ held
    pub other : new1 ≢ larger

  module _ (s : Services World) (new1 cslot1 new2 cslot2 : ℕ) where
    -- A structure is taken for the second half, too.
    pub record TakenTwo (t : UtTable World) (place : Place) : Type 0 where
      pub first : Taken new1 t place
      pub new2_held : place new2 ≡ held
      pub other_larger : new2 ≢ larger
      pub other_new1 : new2 ≢ new1

module _ {World : Type 0} (s : Services World) (base k larger : ℕ) (inside : k < 8) where
  pub push_held-Post :
      (new : ℕ) (t : UtTable World) (place : Place) (size : ℕ → ℕ)
      → IsValid base t place size
      → place new ≡ held
      → Post s base 0 (OtherThan new) (push_structure new t) t place Any
  push_held-Post new t place size v h =
      Post-weaken base 0 0 (OtherThan new) (OtherThan new) _ t place (OnlyMoves new t place) Any
        (omega arith) (λ p x y. x) (λ a t' place' q. tt)
        (push_structure-Post s base t place size v new (λ c n lt e. ground (arith, e, h))
          (v.known new 10 0 h).0 (v.known new 10 0 h).1)

  pub free_larger-Post :
      (t : UtTable World) (place : Place) (size : ℕ → ℕ)
      → IsValid base t place size
      → Holds larger (k + 5) t place
      → Post s base 0 (OtherThan larger) (free larger t) t place Any
  free_larger-Post t place size v h =
      Post-weaken base 0 0 (OtherThan larger) (OtherThan larger) _ t place (HasFirst (k + 1)) Any
        (omega arith) (λ p x y. x) (λ a t' place' q. tt)
        (free-Post s base t place size v larger (k + 1) (omega arith) (h.0, h.1 ∙ omega arith))

  pub undo_first-Post :
      (new1 : ℕ) (t : UtTable World) (place : Place) (size : ℕ → ℕ)
      → IsValid base t place size
      → Taken base k larger inside new1 t place
      → Post s base 0 (OtherThanTwo larger new1) (undo_first larger new1 t) t place Any
  unfolding undo_first
  undo_first-Post new1 t place size v h =
      bind-Post base 0 0 (OtherThanTwo larger new1) (free larger) (λ u. push_structure new1) t place
        (KeptBy (OtherThan larger) t place Any) Any
        (Post-narrow base 0 (OtherThan larger) (OtherThanTwo larger new1) _ t place Any
          (λ p x y. x.0) (free_larger-Post t place size v h.larger_held))
        (λ u t1 place1 size1 v1 k1 r1 q1. (
          OtherThan new1,
          (λ p x y. x.1),
          push_held-Post new1 t1 place1 size1 v1 (q1.1.place_kept new1 h.other h.new1_held),
        ))

  pub undo_slot-Post :
      (new1 cslot1 : ℕ) (t : UtTable World) (place : Place) (size : ℕ → ℕ)
      → IsValid base t place size
      → Taken base k larger inside new1 t place
      → Post s base 0 (OtherThanTwo larger new1) (undo_slot s larger new1 cslot1 t) t place Any
  unfolding undo_slot
  undo_slot-Post new1 cslot1 t place size v h =
      bind-Post base 0 0 (OtherThanTwo larger new1) (undo_first larger new1)
        (λ u. tell (s.free_slot cslot1)) t place Any Any (undo_first-Post new1 t place size v h)
        (λ u t1 place1 size1 v1 k1 r1 q1.
          (All, (λ p x y. tt), tell-Post s base t1 place1 size1 v1 All cslot1))

  module _ (new1 cslot1 new2 cslot2 : ℕ) where
    abbrev K3 : ℕ → Type 0
    K3 = OtherThanThree larger new1 new2

    pub undo_second-Post :
        (t : UtTable World) (place : Place) (size : ℕ → ℕ)
        → IsValid base t place size
        → TakenTwo base k larger inside s new1 cslot1 new2 cslot2 t place
        → Post s base 0 K3 (undo_second s larger new1 cslot1 new2 t) t place Any
    unfolding undo_second
    undo_second-Post t place size v h =
        bind-Post base 0 0 K3 (undo_slot s larger new1 cslot1) (λ u. push_structure new2) t place
          (KeptBy (OtherThanTwo larger new1) t place Any) Any
          (Post-narrow base 0 (OtherThanTwo larger new1) K3 _ t place Any (λ p x y. (x.0, x.1))
            (undo_slot-Post new1 cslot1 t place size v h.first))
          (λ u t1 place1 size1 v1 k1 r1 q1. (
            OtherThan new2,
            (λ p x y. x.2),
            push_held-Post new2 t1 place1 size1 v1
                (q1.1.place_kept new2 (h.other_larger, h.other_new1) h.new2_held),
          ))

    pub undo_both-Post :
        (t : UtTable World) (place : Place) (size : ℕ → ℕ)
        → IsValid base t place size
        → TakenTwo base k larger inside s new1 cslot1 new2 cslot2 t place
        → Post s base 0 K3 (undo_both s larger new1 cslot1 new2 cslot2 t) t place Any
    unfolding undo_both
    undo_both-Post t place size v h =
        bind-Post base 0 0 K3 (undo_second s larger new1 cslot1 new2)
          (λ u. tell (s.free_slot cslot2)) t place Any Any (undo_second-Post t place size v h)
          (λ u t1 place1 size1 v1 k1 r1 q1.
            (All, (λ p x y. tt), tell-Post s base t1 place1 size1 v1 All cslot2))

    abbrev second_back : Op World (Unit {0})
    second_back = push_structure new2 >> tell (s.free_slot cslot2)

    second_back-Post :
        (t : UtTable World) (place : Place) (size : ℕ → ℕ)
        → IsValid base t place size
        → place new2 ≡ held
        → Post s base 0 (OtherThan new2) (second_back t) t place Any
    second_back-Post t place size v h =
        bind-Post base 0 0 (OtherThan new2) (push_structure new2) (λ u. tell (s.free_slot cslot2)) t
          place Any Any (push_held-Post new2 t place size v h)
          (λ u t1 place1 size1 v1 k1 r1 q1.
            (All, (λ p x y. tt), tell-Post s base t1 place1 size1 v1 All cslot2))

    pub undo_retyped-Post :
        (t : UtTable World) (place : Place) (size : ℕ → ℕ)
        → IsValid base t place size
        → TakenTwo base k larger inside s new1 cslot1 new2 cslot2 t place
        → Post s base 0 K3 (undo_retyped s larger new1 cslot1 new2 cslot2 t) t place Any
    unfolding undo_retyped
    undo_retyped-Post t place size v h =
        bind-Post base 0 0 K3 (undo_first larger new1)
          (λ u. call (s.delete cslot1) >> (tell (s.free_slot cslot1) >> second_back)) t place
          (KeptBy (OtherThanTwo larger new1) t place Any) Any
          (Post-narrow base 0 (OtherThanTwo larger new1) K3 _ t place Any (λ p x y. (x.0, x.1))
            (undo_first-Post new1 t place size v h.first))
          (λ u t1 place1 size1 v1 k1 r1 q1. (
            OtherThan new2,
            (λ p x y. x.2),
            (let h1 = q1.1.place_kept new2 (h.other_larger, h.other_new1) h.new2_held in
                bind-Post base 0 0 (OtherThan new2) (call (s.delete cslot1))
                  (λ u. tell (s.free_slot cslot1) >> second_back) t1 place1
                  (KeptBy All t1 place1 Any) Any
                  (Post-narrow base 0 All (OtherThan new2) _ t1 place1 Any (λ p x y. tt)
                    (call-Post s base t1 place1 size1 v1 All (s.delete cslot1)
                      (after_delete cslot1 t1.world)))
                  (λ u t2 place2 size2 v2 k2 r2 q2. (
                    OtherThan new2,
                    (λ p x y. x),
                    (let h2 = q2.1.place_kept new2 tt h1 in
                        bind-Post base 0 0 (OtherThan new2) (tell (s.free_slot cslot1))
                          (λ u. second_back) t2 place2 (KeptBy All t2 place2 Any) Any
                          (Post-narrow base 0 All (OtherThan new2) _ t2 place2 Any (λ p x y. tt)
                            (tell-Post s base t2 place2 size2 v2 All cslot1))
                          (λ u t3 place3 size3 v3 k3 r3 q3. (
                            OtherThan new2,
                            (λ p x y. x),
                            second_back-Post t3 place3 size3 v3 (q3.1.place_kept new2 tt h2),
                          ))),
                  ))),
          ))
