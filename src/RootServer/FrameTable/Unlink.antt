-- ===== src/RootServer/FrameTable/Unlink.antt =====
-- The two steps by which `remove_frame` links the neighbours of an allocated frame to each other.
use mathlib.Core.Bool.{false≢true}
use smos_thesis.Base.{
  ℕ, ◌≤◌, ◌<◌, ◌^◌, ◌≡◌, refl, sym, ap, ◌∙◌, List, [], ◌∷◌, ◌++◌, Option, none, some, true, false,
  inl, inr, arith, ◌==◌, Bool-cases, length, ret,
}
use smos_thesis.RootServer.FrameTable.{
  free_list, allocated_list, Frame, FrameList, Memory, write, FrameTable, frame_from_ref, set_prev,
  set_next, unlink_prev, unlink_next,
}
use smos_thesis.RootServer.FrameTable.Chain.{
  has, head_or, last_or, Chain, Represents, Holds, Chain-in, Chain-write, Chain-reprev,
  Chain-restop, Chain-split,
}
use smos_thesis.RootServer.FrameTable.Steps.{frame_from_ref-ok, Represents-write}

pub last_some :
    (z : ℕ) (zs : List ℕ) → (p : ℕ) × (last_or (some z) zs ≡ some p) × (has p (z ∷ zs) ≡ true)
last_some z [] = (z, refl, ground arith)
last_some z (w ∷ ws) = let (p, e, h) = last_some w ws in (p, e, ground arith)

pub last_or-append : (d : Option ℕ) (l r : List ℕ) → last_or d (l ++ r) ≡ last_or (last_or d l) r
last_or-append d [] r = refl
last_or-append d (x ∷ l) r = last_or-append (some x) l r

pub write-cap :
    (m : Memory) (i j : ℕ) (f : Frame) → f.cap ≡ (m i).cap → (write m i f j).cap ≡ (m j).cap
write-cap m i j f e = ground (arith, e)

-- After the frame before `x` was linked past it, in the memory `m`.
pub record AfterPrev (ft : FrameTable) (fs l r : List ℕ) (x : ℕ) (m : Memory) (q : FrameList)
    : Type 0 where
  pub named : q.list_id ≡ allocated_list
  pub front : q.first ≡ head_or none (l ++ r)
  pub back : q.last ≡ last_or none (l ++ x ∷ r)
  pub count : q.len ≡ length (l ++ x ∷ r)
  pub left : Chain m allocated_list ft.used none l (head_or none r)
  pub right : Chain m allocated_list ft.used (last_or none l) (x ∷ r) none
  pub free_part : Represents m free_list ft.used ft.free fs
  pub caps : (j : ℕ) → (m j).cap ≡ (ft.frames j).cap

unlink_prev-none :
    (ft : FrameTable) (q : FrameList) (x : ℕ)
    → (ft.frames x).prev ≡ none
    → unlink_prev ft q x ≡ ret (ft, record q { first = (ft.frames x).next })
unfolding unlink_prev
unlink_prev-none ft q x e = ground (arith, e)

unlink_prev-some :
    (ft : FrameTable) (q : FrameList) (x p : ℕ)
    → (ft.frames x).prev ≡ some p
    → frame_from_ref ft p ≡ ret p
    → unlink_prev ft q x ≡ ret (set_next ft p (ft.frames x).next, q)
unfolding unlink_prev
unlink_prev-some ft q x p e k = ground (arith, e, k)

pub unlink_prev-AfterPrev :
    (ft : FrameTable) (fs l r : List ℕ) (x out : ℕ)
    → Holds ft fs (l ++ x ∷ r) out
    → (m : Memory) × (q : FrameList) × (unlink_prev ft ft.allocated x
        ≡ ret (record ft { frames = m }, q))
      × AfterPrev ft fs l r x m q
unfolding set_next
unlink_prev-AfterPrev ft fs [] r x out h =
    let c = h.allocated_part.chain in
    (
      ft.frames,
      record ft.allocated { first = (ft.frames x).next },
      unlink_prev-none ft ft.allocated x c.0,
      record {
        named = h.allocated_part.named;
        front = c.1;
        back = h.allocated_part.back;
        count = h.allocated_part.count;
        left = tt;
        right = c;
        free_part = h.free_part;
        caps = λ j. refl;
      },
    )
unlink_prev-AfterPrev ft fs (z ∷ zs) r x out h =
    let m = ft.frames in
    let (left, right, apart) =
      Chain-split m allocated_list ft.used none (z ∷ zs) x r none h.allocated_part.chain in
    let (p, e, inside) = last_some z zs in
    let (mark, small) = Chain-in m allocated_list ft.used p none (z ∷ zs) (some x) left inside in
    let f = record (m p) { next = (m x).next } in
    (
      write m p f,
      ft.allocated,
      unlink_prev-some ft ft.allocated x p (right.0 ∙ e)
          (frame_from_ref-ok ft p (omega (arith, small, h.within)) h.small),
      record {
        named = h.allocated_part.named;
        front = h.allocated_part.front;
        back = h.allocated_part.back;
        count = h.allocated_part.count;
        left =
            Chain-restop m allocated_list ft.used p f none z zs (some x) (head_or none r) left e
              (ap (λ (o : Option ℕ). record (m p) { next = o }) right.1);
        right =
            Chain-write m allocated_list ft.used p f (last_or (some z) zs) (x ∷ r) none right
              (apart p inside);
        free_part =
            Represents-write m free_list ft.used ft.free fs p f h.free_part (λ k. cc (mark, k));
        caps = λ j. write-cap m p j f refl;
      },
    )

-- After the frame behind `x` was linked past it as well.
pub record AfterNext (ft : FrameTable) (fs l r : List ℕ) (x : ℕ) (m : Memory) (q : FrameList)
    : Type 0 where
  pub named : q.list_id ≡ allocated_list
  pub front : q.first ≡ head_or none (l ++ r)
  pub back : q.last ≡ last_or none (l ++ r)
  pub count : q.len ≡ length (l ++ x ∷ r)
  pub left : Chain m allocated_list ft.used none l (head_or none r)
  pub right : Chain m allocated_list ft.used (last_or none l) r none
  pub mark : (m x).list_id ≡ allocated_list
  pub small : x < ft.used
  pub fresh : has x r ≡ false
  pub free_part : Represents m free_list ft.used ft.free fs
  pub caps : (j : ℕ) → (m j).cap ≡ (ft.frames j).cap

unlink_next-none :
    (ft : FrameTable) (q : FrameList) (x : ℕ)
    → (ft.frames x).next ≡ none
    → unlink_next ft q x ≡ ret (ft, record q { last = (ft.frames x).prev })
unfolding unlink_next
unlink_next-none ft q x e = ground (arith, e)

unlink_next-some :
    (ft : FrameTable) (q : FrameList) (x p : ℕ)
    → (ft.frames x).next ≡ some p
    → frame_from_ref ft p ≡ ret p
    → unlink_next ft q x ≡ ret (set_prev ft p (ft.frames x).prev, q)
unfolding unlink_next
unlink_next-some ft q x p e k = ground (arith, e, k)

-- A frame behind `x` is not before it.
pub before_behind :
    (y : ℕ) (l xs : List ℕ)
    → ((a : ℕ) → has a l ≡ true → has a xs ≡ false)
    → has y xs ≡ true
    → has y l ≡ false
before_behind y l xs apart h = elim (Bool-cases (has y l)) [
  | inl e ↦ absurd (false≢true (sym (apart y e) ∙ h))
  | inr e ↦ e
]

pub unlink_next-AfterNext :
    (ft : FrameTable) (fs l r : List ℕ) (x : ℕ) (m : Memory) (q : FrameList)
    → ft.used ≤ ft.capacity
    → ft.capacity < 2 ^ 32
    → ((a : ℕ) → has a l ≡ true → has a (x ∷ r) ≡ false)
    → AfterPrev ft fs l r x m q
    → (m' : Memory) × (q' : FrameList) × (unlink_next (record ft { frames = m }) q x
        ≡ ret (record ft { frames = m' }, q'))
      × AfterNext ft fs l r x m' q'
unfolding set_prev
unlink_next-AfterNext ft fs l [] x m q h k apart a = (
  m,
  record q { last = (m x).prev },
  unlink_next-none (record ft { frames = m }) q x a.right.1,
  record {
    named = a.named;
    front = a.front;
    back = a.right.0 ∙ sym (last_or-append none l []);
    count = a.count;
    left = a.left;
    right = tt;
    mark = a.right.2;
    small = a.right.3;
    fresh = a.right.4;
    free_part = a.free_part;
    caps = a.caps;
  },
)
unlink_next-AfterNext ft fs l (y ∷ ys) x m q h k apart a =
    let f = record (m y) { prev = (m x).prev } in
    let c = a.right.5 in
    let off : has y l ≡ false = before_behind y l (x ∷ y ∷ ys) apart (ground arith) in
    let ne : (y == x) ≡ false = ground (arith, a.right.4) in
    (
      write m y f,
      q,
      unlink_next-some (record ft { frames = m }) q x y a.right.1
          (frame_from_ref-ok (record ft { frames = m }) y (omega (arith, c.3, h)) k),
      record {
        named = a.named;
        front = a.front;
        back = a.back ∙ last_or-append none l (x ∷ y ∷ ys) ∙ sym (last_or-append none l (y ∷ ys));
        count = a.count;
        left = Chain-write m allocated_list ft.used y f none l (some y) a.left off;
        right =
            Chain-reprev m allocated_list ft.used y f (some x) (last_or none l) ys none c
              (ap (λ (o : Option ℕ). record (m y) { prev = o }) a.right.0);
        mark = ground (arith, ne, a.right.2);
        small = a.right.3;
        fresh = a.right.4;
        free_part =
            Represents-write m free_list ft.used ft.free fs y f a.free_part (λ e. cc (c.2, e));
        caps = λ j. write-cap m y j f refl ∙ a.caps j;
      },
    )
