-- ===== src/RootServer/Untyped/Alloc/Laws.antt =====
-- `alloc` on a valid table: it hands out an untyped of the size, in use by nobody.
use mathlib.Core.Path.{subst}
use smos_thesis.Base.{
  ℕ, zero, suc, ◌+◌, ◌-◌, ◌*◌, ◌^◌, ◌<◌, ◌≤◌, ◌≡◌, sym, ◌∙◌, is_none, ltb, if◌then◌else◌, arith,
  inl, inr, Option-cases, Bool-cases,
}
use smos_thesis.RootServer.Kernel.{invalid_argument}
use smos_thesis.RootServer.Untyped.{
  UtTable, Op, done, refuse, ◌>>=◌, ◌>>◌, or_undo, free, pop_structure, alloc_4k_untyped,
  size_bits_to_index,
}
use smos_thesis.RootServer.Untyped.Mapping.{Services, ask}
use smos_thesis.RootServer.Untyped.Alloc.{
  undo_first, second_half, set_untyped, split, ensure_new_structures, alloc_level, alloc,
  take_first,
}
use smos_thesis.RootServer.Untyped.Alloc.Valid.{Place, top, IsValid}
use smos_thesis.RootServer.Untyped.Alloc.Post.{
  Post, KeptBy, Any, All, Holds, Holds-Keeps, bind-Post, or_undo-Post, done-Post, refuse-Post,
  Post-narrow, Post-weaken,
}
use smos_thesis.RootServer.Untyped.Alloc.Steps.{
  OtherThan, IsFresh, HasFirst, Spare, pop_structure-Post, ask-Post, set_untyped-Post,
  take_first-Post,
}
use smos_thesis.RootServer.Untyped.Alloc.Steps as S
use smos_thesis.RootServer.Untyped.Alloc.Structures.{
  Page, alloc_4k_untyped-Post, ensure_new_structures-Post,
}
use smos_thesis.RootServer.Untyped.Alloc.Undo.{
  OtherThanTwo, Taken, free_larger-Post, undo_first-Post,
}
use smos_thesis.RootServer.Untyped.Alloc.Split.{Taken-Keeps, second_half-Post}

-- An untyped of a size that was not in use.
abbrev pub Fresh : {World : Type 0} → ℕ → Place → ℕ → UtTable World → Place → Type 0
Fresh size_bits place p t' place' = Holds p size_bits t' place' × IsFresh place p

module _ {World : Type 0} (s : Services World) (base k larger : ℕ) (inside : k < 8) where
  abbrev set_first : (new1 cslot1 : ℕ) → Op World (Unit {0})
  set_first new1 cslot1 =
      set_untyped new1 cslot1 (k + 4) >> second_half s (k + 4) larger new1 cslot1

  abbrev with_first : ℕ → Op World (Unit {0})
  with_first new1 = or_undo (ask s.alloc_slot) (undo_first larger new1) >>= set_first new1

  abbrev with_structures : Op World (Unit {0})
  with_structures = or_undo pop_structure (free larger) >>= with_first

  set_first-Post :
      (new1 cslot1 : ℕ) (t : UtTable World) (place : Place) (size : ℕ → ℕ)
      → IsValid base t place size
      → Taken base k larger inside new1 t place
      → Post s base 0 (OtherThanTwo larger new1) (set_first new1 cslot1 t) t place (HasFirst k)
  set_first-Post new1 cslot1 t place size v h =
      bind-Post base 0 0 (OtherThanTwo larger new1) (set_untyped new1 cslot1 (k + 4))
        (λ u. second_half s (k + 4) larger new1 cslot1) t place
        (KeptBy (OtherThan new1) t place (λ u t' place'. Holds new1 (k + 4) t' place')) (HasFirst k)
        (Post-narrow base 0 (OtherThan new1) (OtherThanTwo larger new1) _ t place
          (λ u t' place'. Holds new1 (k + 4) t' place') (λ p x y. x.1)
          (set_untyped-Post s base t place size v new1 cslot1 (k + 4) h.new1_held))
        (λ u t1 place1 size1 v1 k1 r1 q1. (
          OtherThanTwo larger new1,
          (λ p x y. x),
          second_half-Post s base k larger inside new1 cslot1 t1 place1 size1 v1
              (record {
                larger_held =
                    Holds-Keeps (OtherThan new1) t t1 place place1 larger (k + 5) q1.1
                      (λ e. h.other (sym e)) h.larger_held;
                new1_held = q1.0.0;
                other = h.other;
              })
              q1.0.1,
        ))

  with_first-Post :
      (new1 : ℕ) (t : UtTable World) (place : Place) (size : ℕ → ℕ)
      → IsValid base t place size
      → Taken base k larger inside new1 t place
      → Post s base 0 (OtherThanTwo larger new1) (with_first new1 t) t place (HasFirst k)
  with_first-Post new1 t place size v h =
      bind-Post base 0 0 (OtherThanTwo larger new1)
        (or_undo (ask s.alloc_slot) (undo_first larger new1)) (set_first new1) t place
        (KeptBy All t place Any) (HasFirst k)
        (or_undo-Post base 0 (OtherThanTwo larger new1) (ask s.alloc_slot) _ t place Any
          (ask-Post s base t place size v All)
          (λ t' place' size' v' kp.
            undo_first-Post s base k larger inside new1 t' place' size' v'
              (Taken-Keeps s base k larger inside new1 t t' place place' kp h)))
        (λ cslot1 t1 place1 size1 v1 k1 r1 q1. (
          OtherThanTwo larger new1,
          (λ p x y. x),
          set_first-Post new1 cslot1 t1 place1 size1 v1
              (Taken-Keeps s base k larger inside new1 t t1 place place1 q1.1 h),
        ))

  with_structures-Post :
      (t : UtTable World) (place : Place) (size : ℕ → ℕ)
      → IsValid base t place size
      → Holds larger (k + 5) t place
      → Post s base 0 (OtherThan larger) (with_structures t) t place (HasFirst k)
  with_structures-Post t place size v h =
      bind-Post base 0 0 (OtherThan larger) (or_undo pop_structure (free larger)) with_first t place
        (KeptBy All t place (Spare place)) (HasFirst k)
        (or_undo-Post base 0 (OtherThan larger) pop_structure _ t place (Spare place)
          (pop_structure-Post s base t place size v)
          (λ t' place' size' v' kp.
            free_larger-Post s base k larger inside t' place' size' v'
              (Holds-Keeps All t t' place place' larger (k + 5) kp tt h)))
        (λ new1 t1 place1 size1 v1 k1 r1 q1. (
          OtherThanTwo larger new1,
          (λ p x y. (x, q1.0.1 p y)),
          with_first-Post new1 t1 place1 size1 v1 (record {
            larger_held = Holds-Keeps All t t1 place place1 larger (k + 5) q1.1 tt h;
            new1_held = q1.0.0;
            other = λ e. q1.0.1 larger h.0 (sym e);
          }),
        ))

  split-Post :
      (t : UtTable World) (place : Place) (size : ℕ → ℕ)
      → IsValid base t place size
      → Holds larger (k + 5) t place
      → top base t + 524288 < 2 ^ 64
      → Post s base 1 (OtherThan larger) (split s (k + 4) larger t) t place (HasFirst k)
  unfolding split
  split-Post t place size v h small =
      bind-Post base 1 0 (OtherThan larger) (or_undo (ensure_new_structures s) (free larger))
        (λ u. with_structures) t place (KeptBy All t place Any) (HasFirst k)
        (or_undo-Post base 1 (OtherThan larger) (ensure_new_structures s) _ t place Any
          (ensure_new_structures-Post s base t place size v small)
          (λ t' place' size' v' kp.
            free_larger-Post s base k larger inside t' place' size' v'
              (Holds-Keeps All t t' place place' larger (k + 5) kp tt h)))
        (λ u t1 place1 size1 v1 k1 r1 q1. (
          OtherThan larger,
          (λ p x y. x),
          with_structures-Post t1 place1 size1 v1
              (Holds-Keeps All t t1 place place1 larger (k + 5) q1.1 tt h),
        ))

module _ {World : Type 0} (s : Services World) (base : ℕ) where
  abbrev made : (levels k : ℕ) → Op World (Unit {0})
  made levels k = alloc_level s levels (k + 4 + 1) >>= split s (k + 4)

  alloc_level-Post :
      (levels k : ℕ) (t : UtTable World) (place : Place) (size : ℕ → ℕ)
      → levels + k ≡ 8
      → IsValid base t place size
      → top base t + levels * 524288 < 2 ^ 64
      → Post s base levels All (alloc_level s levels (k + 4) t) t place (Fresh (k + 4) place)
  unfolding alloc_level
  alloc_level-Post zero k t place size full v small =
      bind-Post base 0 0 All alloc_4k_untyped (λ out. done out.1) t place (Page place)
        (Fresh (k + 4) place) (alloc_4k_untyped-Post s base t place size v)
        (λ out t1 place1 size1 v1 k1 r1 q1. (
          All,
          (λ x y z. tt),
          done-Post base All (Fresh (k + 4) place) out.1 t1 place1 size1 v1
              ((q1.0.0, q1.0.1 ∙ omega (arith, full)), q1.1),
        ))
  alloc_level-Post (suc n) k t place size full v small =
      let index : size_bits_to_index (k + 4) ≡ k = omega arith in
      let size_of : k + 4 + 1 ≡ (k + 1) + 4 = omega arith in
      let ready : Post s base (suc n) All
          ((if is_none (t.free_untypeds k) then made n k else done tt) t) t place (HasFirst k) =
        elim (Option-cases (t.free_untypeds k)) [
          | inl e ↦ rw e (
              Post-weaken base (n + 1) (suc n) All All _ t place (HasFirst k) (HasFirst k)
                (omega arith) (λ p x y. x) (λ a t' place' q. q)
                (bind-Post base n 1 All (alloc_level s n (k + 4 + 1)) (split s (k + 4)) t place
                  (Fresh (k + 4 + 1) place) (HasFirst k)
                  (subst (λ x. Post s base n All (alloc_level s n x t) t place (Fresh x place))
                    (sym size_of)
                    (alloc_level-Post n (k + 1) t place size (omega (arith, full)) v
                      (omega (arith, small))))
                  (λ larger t1 place1 size1 v1 k1 r1 q1. (
                    OtherThan larger,
                    (λ p x y. q1.1 p y),
                    split-Post s base k larger (omega (arith, full)) t1 place1 size1 v1
                        (q1.0.0, q1.0.1 ∙ omega arith) (omega (arith, r1, small)),
                  ))))
          | inr (p, e) ↦ rw e (
              Post-weaken base 0 (suc n) All All _ t place (HasFirst k) (HasFirst k) (omega arith)
                (λ p x y. x) (λ a t' place' q. q)
                (done-Post base All (HasFirst k) tt t place size v (p, e)))
        ] in
      rw index (
        Post-weaken base (suc n + 0) (suc n) All All _ t place (Fresh (k + 4) place)
          (Fresh (k + 4) place) (omega arith) (λ p x y. x) (λ a t' place' q. q)
          (bind-Post base (suc n) 0 All (if is_none (t.free_untypeds k) then made n k else done tt)
            (λ u. take_first k) t place (KeptBy All t place (HasFirst k)) (Fresh (k + 4) place)
            (Post-narrow base (suc n) All All _ t place (HasFirst k) (λ p x y. x) ready)
            (λ u t1 place1 size1 v1 k1 r1 q1. (
              All,
              (λ p x y. x),
              Post-weaken base 0 0 All All _ t1 place1 (S.Taken k place1) (Fresh (k + 4) place)
                  (omega arith) (λ p x y. x)
                  (λ a t' place' q. (q.0, λ p h. q.1 p (q1.1.place_kept p tt h)))
                  (take_first-Post s base t1 place1 size1 v1 k (omega (arith, full)) q1.0),
            ))))

  -- On a valid table with addresses left for eight pages of structures, virtual ones and the physical
  -- ones that are computed of them, `alloc` panics only where a call of the cspace does, in a world to
  -- which the calls before lead. Otherwise it keeps the table valid and every untyped in use as it
  -- is, and hands out an untyped of the size asked for that was not in use, or returns an error.
  pub alloc-Post :
      (size_bits : ℕ) (t : UtTable World) (place : Place) (size : ℕ → ℕ)
      → IsValid base t place size
      → top base t + 8 * 524288 < 2 ^ 64
      → Post s base 8 All (alloc s size_bits t) t place (Fresh size_bits place)
  unfolding alloc
  alloc-Post size_bits t place size v small = elim (Bool-cases (ltb 12 size_bits)) [
    | inl e ↦ rw e (refused t place size v)
    | inr e ↦ elim (Bool-cases (ltb size_bits 4)) [
      | inl e' ↦ rw e (rw e' (refused t place size v))
      | inr e' ↦
          (let k = size_bits - 4 in
            let back : k + 4 ≡ size_bits = ground (arith, e') in
            let fits : size_bits ≤ 12 = ground (arith, e) in
            rw e (
              rw e' (
                Post-weaken base (12 - size_bits) 8 All All _ t place (Fresh size_bits place)
                  (Fresh size_bits place) (omega (arith, back)) (λ p x y. x) (λ a t' place' q. q)
                  (subst
                    (λ x.
                      Post s base (12 - size_bits) All (alloc_level s (12 - size_bits) x t) t place
                        (Fresh x place))
                    back
                    (alloc_level-Post (12 - size_bits) k t place size (omega (arith, back, fits)) v
                      (omega (arith, back, small)))))))
    ]
  ]
    where
      refused :
          {size_bits : ℕ} (t : UtTable World) (place : Place) (size : ℕ → ℕ)
          → IsValid base t place size
          → Post s base 8 All (refuse invalid_argument t) t place (Fresh size_bits place)
      refused t place size v =
          Post-weaken base 0 8 All All _ t place (Fresh _ place) (Fresh _ place) (omega arith)
            (λ p x y. x) (λ a t' place' q. q)
            (refuse-Post base All (Fresh _ place) invalid_argument t place size v)
