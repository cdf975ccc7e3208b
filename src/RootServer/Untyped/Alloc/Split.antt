-- ===== src/RootServer/Untyped/Alloc/Split.antt =====
-- The second half of an untyped that is split, on a valid table.
use smos_thesis.Base.{ℕ, ◌+◌, ◌<◌, ◌≡◌, sym, ◌∙◌, arith}
use smos_thesis.RootServer.Untyped.{
  UtTable, Op, ◌>>=◌, ◌>>◌, or_undo, pop_structure, push_untyped, size_bits_to_index,
}
use smos_thesis.RootServer.Untyped.Mapping.{untyped, Services, ask}
use smos_thesis.RootServer.Untyped.Alloc.{
  retype_two, retype_ut, undo_slot, undo_second, undo_both, undo_retyped, second_half, set_untyped,
}
use smos_thesis.RootServer.Untyped.Alloc.Valid.{Place, IsValid}
use smos_thesis.RootServer.Untyped.Alloc.Post.{
  Post, Keeps, KeptBy, Any, All, Holds, Holds-Keeps, bind-Post, or_undo-Post, Post-narrow,
}
use smos_thesis.RootServer.Untyped.Alloc.Steps.{
  OtherThan, HasFirst, Spare, push_untyped-Post, pop_structure-Post, retype_ut-Post, ask-Post,
  set_untyped-Post,
}
use smos_thesis.RootServer.Untyped.Alloc.Undo.{
  OtherThanTwo, OtherThanThree, Taken, TakenTwo, undo_slot-Post, undo_second-Post, undo_both-Post,
  undo_retyped-Post,
}

module _ {World : Type 0} (s : Services World) (base k larger : ℕ) (inside : k < 8) where
  pub index_of : size_bits_to_index (k + 4) ≡ k
  index_of = omega arith

  pub Taken-Keeps :
      (new1 : ℕ) (t t' : UtTable World) (place place' : Place)
      → Keeps All t place t' place'
      → Taken base k larger inside new1 t place
      → Taken base k larger inside new1 t' place'
  Taken-Keeps new1 t t' place place' kp h = record {
    larger_held = Holds-Keeps All t t' place place' larger (k + 5) kp tt h.larger_held;
    new1_held = kp.place_kept new1 tt h.new1_held;
    other = h.other;
  }

  module _ (new1 cslot1 new2 cslot2 : ℕ) where
    abbrev pub K3 : ℕ → Type 0
    K3 = OtherThanThree larger new1 new2

    -- Both halves have their size.
    pub record Halves (t : UtTable World) (place : Place) : Type 0 where
      pub two : TakenTwo base k larger inside s new1 cslot1 new2 cslot2 t place
      pub half1 : (t.uts new1).size_bits ≡ k + 4
      pub half2 : (t.uts new2).size_bits ≡ k + 4

    Halves-Keeps :
        (t t' : UtTable World) (place place' : Place)
        → Keeps All t place t' place'
        → Halves t place
        → Halves t' place'
    Halves-Keeps t t' place place' kp h = record {
      two = record {
        first = Taken-Keeps new1 t t' place place' kp h.two.first;
        new2_held = kp.place_kept new2 tt h.two.new2_held;
        other_larger = h.two.other_larger;
        other_new1 = h.two.other_new1;
      };
      half1 = kp.size_kept new1 tt h.two.first.new1_held ∙ h.half1;
      half2 = kp.size_kept new2 tt h.two.new2_held ∙ h.half2;
    }

    push_both-Post :
        (t : UtTable World) (place : Place) (size : ℕ → ℕ)
        → IsValid base t place size
        → Halves t place
        → Post s base 0 K3 ((push_untyped k new1 >> push_untyped k new2) t) t place (HasFirst k)
    push_both-Post t place size v h =
        bind-Post base 0 0 K3 (push_untyped k new1) (λ u. push_untyped k new2) t place
          (KeptBy (OtherThan new1) t place (HasFirst k)) (HasFirst k)
          (Post-narrow base 0 (OtherThan new1) K3 _ t place (HasFirst k) (λ p x y. x.1)
            (push_untyped-Post s base t place size v k new1 (omega arith)
              (h.two.first.new1_held, h.half1)))
          (λ u t1 place1 size1 v1 k1 r1 q1. (
            OtherThan new2,
            (λ p x y. x.2),
            push_untyped-Post s base t1 place1 size1 v1 k new2 (omega arith) (
                Holds-Keeps (OtherThan new1) t t1 place place1 new2 (k + 4) q1.1 h.two.other_new1
                  (h.two.new2_held, h.half2)),
          ))

    abbrev retyped_second : Op World (Unit {0})
    retyped_second =
        or_undo (retype_ut s larger (untyped (k + 4)) cslot2)
          (undo_retyped s larger new1 cslot1 new2 cslot2)

    pub retype_two-Post :
        (t : UtTable World) (place : Place) (size : ℕ → ℕ)
        → IsValid base t place size
        → Halves t place
        → Post s base 0 K3
            (retype_two s (k + 4) larger new1 cslot1 new2 cslot2 t)
            t
            place
            (HasFirst k)
    unfolding retype_two
    retype_two-Post t place size v h = rw index_of (
        bind-Post base 0 0 K3
          (or_undo (retype_ut s larger (untyped (k + 4)) cslot1)
            (undo_both s larger new1 cslot1 new2 cslot2))
          (λ u. retyped_second >> (push_untyped k new1 >> push_untyped k new2)) t place
          (KeptBy All t place Any) (HasFirst k)
          (or_undo-Post base 0 K3 (retype_ut s larger (untyped (k + 4)) cslot1) _ t place Any
            (retype_ut-Post s base t place size v All larger (untyped (k + 4)) cslot1)
            (λ t' place' size' v' kp.
              undo_both-Post s base k larger inside new1 cslot1 new2 cslot2 t' place' size' v'
                (Halves-Keeps t t' place place' kp h).two))
          (λ u t1 place1 size1 v1 k1 r1 q1. (
            K3,
            (λ p x y. x),
            (let h1 = Halves-Keeps t t1 place place1 q1.1 h in
                bind-Post base 0 0 K3 retyped_second
                  (λ u. push_untyped k new1 >> push_untyped k new2) t1 place1
                  (KeptBy All t1 place1 Any) (HasFirst k)
                  (or_undo-Post base 0 K3 (retype_ut s larger (untyped (k + 4)) cslot2) _ t1 place1
                    Any
                    (retype_ut-Post s base t1 place1 size1 v1 All larger (untyped (k + 4)) cslot2)
                    (λ t' place' size' v' kp.
                      undo_retyped-Post s base k larger inside new1 cslot1 new2 cslot2 t' place'
                        size' v' (Halves-Keeps t1 t' place1 place' kp h1).two))
                  (λ u t2 place2 size2 v2 k2 r2 q2. (
                    K3,
                    (λ p x y. x),
                    push_both-Post t2 place2 size2 v2 (Halves-Keeps t1 t2 place1 place2 q2.1 h1),
                  ))),
          )))

  abbrev K2 : ℕ → ℕ → Type 0
  K2 new1 = OtherThanTwo larger new1

  abbrev set_second : (new1 cslot1 new2 cslot2 : ℕ) → Op World (Unit {0})
  set_second new1 cslot1 new2 cslot2 =
      set_untyped new2 cslot2 (k + 4) >> retype_two s (k + 4) larger new1 cslot1 new2 cslot2

  abbrev with_second : (new1 cslot1 new2 : ℕ) → Op World (Unit {0})
  with_second new1 cslot1 new2 =
      or_undo (ask s.alloc_slot) (undo_second s larger new1 cslot1 new2)
      >>= set_second new1 cslot1 new2

  set_second-Post :
      (new1 cslot1 new2 cslot2 : ℕ) (t : UtTable World) (place : Place) (size : ℕ → ℕ)
      → IsValid base t place size
      → TakenTwo base k larger inside s new1 cslot1 new2 cslot2 t place
      → (t.uts new1).size_bits ≡ k + 4
      → Post s base 0
          (K3 new1 cslot1 new2 cslot2)
          (set_second new1 cslot1 new2 cslot2 t)
          t
          place
          (HasFirst k)
  set_second-Post new1 cslot1 new2 cslot2 t place size v h sized1 =
      bind-Post base 0 0 (K3 new1 cslot1 new2 cslot2) (set_untyped new2 cslot2 (k + 4))
        (λ u. retype_two s (k + 4) larger new1 cslot1 new2 cslot2) t place
        (KeptBy (OtherThan new2) t place (λ u t' place'. Holds new2 (k + 4) t' place')) (HasFirst k)
        (Post-narrow base 0 (OtherThan new2) (K3 new1 cslot1 new2 cslot2) _ t place
          (λ u t' place'. Holds new2 (k + 4) t' place') (λ p x y. x.2)
          (set_untyped-Post s base t place size v new2 cslot2 (k + 4) h.new2_held))
        (λ u t1 place1 size1 v1 k1 r1 q1. (
          K3 new1 cslot1 new2 cslot2,
          (λ p x y. x),
          retype_two-Post new1 cslot1 new2 cslot2 t1 place1 size1 v1 (record {
            two = record {
              first = record {
                larger_held =
                    Holds-Keeps (OtherThan new2) t t1 place place1 larger (k + 5) q1.1
                      (λ e. h.other_larger (sym e)) h.first.larger_held;
                new1_held = q1.1.place_kept new1 (λ e. h.other_new1 (sym e)) h.first.new1_held;
                other = h.first.other;
              };
              new2_held = q1.0.0;
              other_larger = h.other_larger;
              other_new1 = h.other_new1;
            };
            half1 = q1.1.size_kept new1 (λ e. h.other_new1 (sym e)) h.first.new1_held ∙ sized1;
            half2 = q1.0.1;
          }),
        ))

  TakenTwo-Keeps :
      (new1 cslot1 new2 cslot2 : ℕ) (t t' : UtTable World) (place place' : Place)
      → Keeps All t place t' place'
      → TakenTwo base k larger inside s new1 cslot1 new2 0 t place
      → TakenTwo base k larger inside s new1 cslot1 new2 cslot2 t' place'
  TakenTwo-Keeps new1 cslot1 new2 cslot2 t t' place place' kp h = record {
    first = Taken-Keeps new1 t t' place place' kp h.first;
    new2_held = kp.place_kept new2 tt h.new2_held;
    other_larger = h.other_larger;
    other_new1 = h.other_new1;
  }

  with_second-Post :
      (new1 cslot1 new2 : ℕ) (t : UtTable World) (place : Place) (size : ℕ → ℕ)
      → IsValid base t place size
      → TakenTwo base k larger inside s new1 cslot1 new2 0 t place
      → (t.uts new1).size_bits ≡ k + 4
      → Post s base 0 (K3 new1 cslot1 new2 0) (with_second new1 cslot1 new2 t) t place (HasFirst k)
  with_second-Post new1 cslot1 new2 t place size v h sized1 =
      bind-Post base 0 0 (K3 new1 cslot1 new2 0)
        (or_undo (ask s.alloc_slot) (undo_second s larger new1 cslot1 new2))
        (set_second new1 cslot1 new2) t place (KeptBy All t place Any) (HasFirst k)
        (or_undo-Post base 0 (K3 new1 cslot1 new2 0) (ask s.alloc_slot) _ t place Any
          (ask-Post s base t place size v All)
          (λ t' place' size' v' kp.
            undo_second-Post s base k larger inside new1 cslot1 new2 0 t' place' size' v'
              (TakenTwo-Keeps new1 cslot1 new2 0 t t' place place' kp h)))
        (λ cslot2 t1 place1 size1 v1 k1 r1 q1. (
          K3 new1 cslot1 new2 cslot2,
          (λ p x y. x),
          set_second-Post new1 cslot1 new2 cslot2 t1 place1 size1 v1
              (TakenTwo-Keeps new1 cslot1 new2 cslot2 t t1 place place1 q1.1 h)
              (q1.1.size_kept new1 tt h.first.new1_held ∙ sized1),
        ))

  pub second_half-Post :
      (new1 cslot1 : ℕ) (t : UtTable World) (place : Place) (size : ℕ → ℕ)
      → IsValid base t place size
      → Taken base k larger inside new1 t place
      → (t.uts new1).size_bits ≡ k + 4
      → Post s base 0 (K2 new1) (second_half s (k + 4) larger new1 cslot1 t) t place (HasFirst k)
  unfolding second_half
  second_half-Post new1 cslot1 t place size v h sized1 =
      bind-Post base 0 0 (K2 new1) (or_undo pop_structure (undo_slot s larger new1 cslot1))
        (with_second new1 cslot1) t place (KeptBy All t place (Spare place)) (HasFirst k)
        (or_undo-Post base 0 (K2 new1) pop_structure _ t place (Spare place)
          (pop_structure-Post s base t place size v)
          (λ t' place' size' v' kp.
            undo_slot-Post s base k larger inside new1 cslot1 t' place' size' v'
              (Taken-Keeps new1 t t' place place' kp h)))
        (λ new2 t1 place1 size1 v1 k1 r1 q1. (
          K3 new1 cslot1 new2 0,
          (λ p x y. (x.0, x.1, q1.0.1 p y)),
          with_second-Post new1 cslot1 new2 t1 place1 size1 v1
              (record {
                first = Taken-Keeps new1 t t1 place place1 q1.1 h;
                new2_held = q1.0.0;
                other_larger = λ e. q1.0.1 larger h.larger_held.0 (sym e);
                other_new1 = λ e. q1.0.1 new1 h.new1_held (sym e);
              })
              (q1.1.size_kept new1 tt h.new1_held ∙ sized1),
        ))
