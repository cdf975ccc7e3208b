-- ===== src/RootServer/FrameTable/Pop.antt =====
-- `pop_front` on the list of free frames.
use mathlib.Core.Path.{fun_ext}
use smos_thesis.Base.{
  ℕ, suc, ◌≡◌, ◌⊎◌, refl, sym, ap, ◌∙◌, List, [], ◌∷◌, none, some, true, false, inl, inr, arith,
  ◌==◌, ret,
}
use smos_thesis.RootServer.Kernel.{dec}
use smos_thesis.RootServer.FrameTable.{
  free_list, allocated_list, Frame, FrameList, Memory, write, FrameTable, frame_from_ref, set_prev,
  get_list, put_list, detach_head, pop_head, pop_front, eq_ref,
}
use smos_thesis.RootServer.FrameTable.Chain.{
  has, last_or, Holds, Detached, Chain-write, Chain-reprev,
}
use smos_thesis.RootServer.FrameTable.Steps.{
  frame_from_ref-ok, clear, clear_popped, free-ne-allocated, Represents-write,
}

write-write : (m : Memory) (i : ℕ) (f g : Frame) → write (write m i f) i g ≡ write m i g
write-write m i f g = fun_ext λ j. ground arith

write_here : (m : Memory) (i : ℕ) (f : Frame) → write m i f i ≡ f
write_here m i f = ground arith

-- The last of the frames behind one is another frame.
last-ne-first :
    (x y : ℕ) (xs : List ℕ) → has x (y ∷ xs) ≡ false → eq_ref (last_or (some y) xs) (some x) ≡ false
last-ne-first x y [] h = ground arith
last-ne-first x y (z ∷ xs) h = last-ne-first x z xs (ground arith)

pop_front_at :
    (ft : FrameTable) (x : ℕ)
    → ft.free.first ≡ some x
    → pop_front ft free_list ≡ pop_head ft free_list ft.free x
unfolding pop_front get_list
pop_front_at ft x e = ground (arith, e)

pub pop_front_empty :
    (ft : FrameTable) → ft.free.first ≡ none → pop_front ft free_list ≡ ret (none, ft)
unfolding pop_front get_list
pop_front_empty ft e = ground (arith, e)

prev_kept :
    (ft : FrameTable) (x y : ℕ)
    → (y == x) ≡ false
    → (ft.frames x).prev ≡ none
    → ((set_prev ft y none).frames x).prev ≡ none
unfolding set_prev
prev_kept ft x y ne e = ground (arith, ne, e)

detach_one :
    (ft : FrameTable) (l : FrameList) (x : ℕ)
    → eq_ref l.last l.first ≡ true
    → (ft.frames x).next ≡ none
    → detach_head ft l x ≡ ret (ft, record l { last = none })
unfolding detach_head
detach_one ft l x eq nx = ground (arith, eq, nx)

detach_more :
    (ft : FrameTable) (l : FrameList) (x y : ℕ)
    → eq_ref l.last l.first ≡ false
    → (ft.frames x).next ≡ some y
    → frame_from_ref ft y ≡ ret y
    → detach_head ft l x ≡ ret (set_prev ft y none, l)
unfolding detach_head
detach_more ft l x y ne nx ok_y = ground (arith, ne, nx, ok_y)

pop_head_at :
    (ft ft' : FrameTable) (l l' : FrameList) (x : ℕ)
    → frame_from_ref ft x ≡ ret x
    → detach_head ft l x ≡ ret (ft', l')
    → (ft'.frames x).prev ≡ none
    → pop_head ft free_list l x
      ≡ ret (
        some x,
        record (clear ft' x) { free = record l' { first = (ft'.frames x).next; len = dec l'.len } },
      )
unfolding pop_head put_list
pop_head_at ft ft' l l' x ok_x d p = ground (arith, ok_x, d, p, clear_popped ft' x)

-- What a pop of the free list's first frame leaves.
pub record Popped (ft : FrameTable) (x : ℕ) (xs os : List ℕ) (out : ℕ) (ft' : FrameTable)
    : Type 0 where
  pub holds : Holds ft' xs os (suc out)
  pub detached : Detached ft' x
  pub used : ft'.used ≡ ft.used
  pub caps : (j : ℕ) → (ft'.frames j).cap ≡ (ft.frames j).cap

pop_one-Popped :
    (ft : FrameTable) (x : ℕ) (os : List ℕ) (out : ℕ)
    → Holds ft (x ∷ []) os out
    → Popped ft x [] os out (record (clear ft x) {
      free = record ft.free { last = none; first = (ft.frames x).next; len = dec ft.free.len };
    })
pop_one-Popped ft x os out h =
    let c = h.free_part.chain in
    record {
      holds = record {
        free_part = record {
          named = h.free_part.named;
          front = c.1;
          back = refl;
          count = omega (arith, h.free_part.count);
          chain = tt;
        };
        allocated_part =
            Represents-write ft.frames allocated_list ft.used ft.allocated os x _ h.allocated_part
              (λ e. free-ne-allocated (sym c.2 ∙ e));
        within = h.within;
        small = h.small;
        total = omega (arith, h.total);
      };
      detached = ground (arith, c.3);
      used = refl;
      caps = λ j. ground arith;
    }

pop_more-Popped :
    (ft : FrameTable) (x y : ℕ) (ys os : List ℕ) (out : ℕ)
    → Holds ft (x ∷ y ∷ ys) os out
    → Popped ft x (y ∷ ys) os out (record (clear (set_prev ft y none) x) {
      free = record ft.free { first = ((set_prev ft y none).frames x).next; len = dec ft.free.len };
    })
unfolding set_prev
pop_more-Popped ft x y ys os out h =
    let c = h.free_part.chain in
    let apart : (y == x) ≡ false = ground (arith, c.4) in
    let m = ft.frames in
    let f = record (m y) { prev = none } in
    let m' = write m y f in
    let unmoved : m' x ≡ m x = rw apart refl in
    record {
      holds = record {
        free_part = record {
          named = h.free_part.named;
          front = ap (λ (g : Frame). g.next) unmoved ∙ c.1;
          back = h.free_part.back;
          count = omega (arith, h.free_part.count, h.total, h.within, h.small);
          chain =
              Chain-write m' free_list ft.used x _ none (y ∷ ys) none
                (Chain-reprev m free_list ft.used y f (some x) none ys none c.5 refl) c.4;
        };
        allocated_part =
            Represents-write m' allocated_list ft.used ft.allocated os x _
              (Represents-write m allocated_list ft.used ft.allocated os y f h.allocated_part
                (λ e. free-ne-allocated (sym c.5.2 ∙ e)))
              (λ e. free-ne-allocated (sym c.2 ∙ ap (λ (g : Frame). g.list_id) (sym unmoved) ∙ e));
        within = h.within;
        small = h.small;
        total = omega (arith, h.total);
      };
      detached = ground (arith, c.3);
      used = refl;
      caps = λ j. ground arith;
    }

-- `pop_front` of the free list: nothing where it is empty, and otherwise its first frame, which is
-- then in neither list.
pub pop_front-Popped :
    (ft : FrameTable) (fs os : List ℕ) (out : ℕ)
    → Holds ft fs os out
    → ((fs ≡ []) × (pop_front ft free_list ≡ ret (none, ft)))
      ⊎ ((x : ℕ) × (xs : List ℕ) × (ft' : FrameTable) × (fs ≡ x ∷ xs)
          × (pop_front ft free_list ≡ ret (some x, ft'))
          × Popped ft x xs os out ft')
pop_front-Popped ft [] os out h = inl (refl, pop_front_empty ft h.free_part.front)
pop_front-Popped ft (x ∷ []) os out h =
    let c = h.free_part.chain in
    inr (
      x,
      [],
      _,
      refl,
      pop_front_at ft x h.free_part.front
          ∙ pop_head_at ft ft ft.free (record ft.free { last = none }) x
              (frame_from_ref-ok ft x (omega (arith, c.3, h.within)) h.small)
              (detach_one ft ft.free x (ground (arith, h.free_part.front, h.free_part.back)) c.1)
              c.0,
      pop_one-Popped ft x os out h,
    )
pop_front-Popped ft (x ∷ y ∷ ys) os out h =
    let c = h.free_part.chain in
    inr (
      x,
      y ∷ ys,
      _,
      refl,
      pop_front_at ft x h.free_part.front
          ∙ pop_head_at ft (set_prev ft y none) ft.free ft.free x
              (frame_from_ref-ok ft x (omega (arith, c.3, h.within)) h.small)
              (detach_more ft ft.free x y
                (ground (arith, h.free_part.front, h.free_part.back, last-ne-first x y ys c.4)) c.1
                (frame_from_ref-ok ft y (omega (arith, c.5.3, h.within)) h.small))
              (prev_kept ft x y (ground (arith, c.4)) c.0),
      pop_more-Popped ft x y ys os out h,
    )
