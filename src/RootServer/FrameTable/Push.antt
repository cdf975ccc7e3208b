-- ===== src/RootServer/FrameTable/Push.antt =====
-- `push_front` on the list of free frames and `push_back` on the list of allocated ones.
use smos_thesis.Base.{
  ℕ, suc, ◌<◌, ◌^◌, ◌≡◌, ◌≢◌, refl, sym, ap, ◌∙◌, List, [], ◌∷◌, Option, none, some, false, arith,
  ◌==◌, ret,
}
use smos_thesis.RootServer.Kernel.{inc}
use smos_thesis.RootServer.FrameTable.{
  ListId, free_list, allocated_list, no_list, FrameList, write, FrameTable, frame_from_ref,
  ref_from_frame, set_prev, set_next, set_list_id, get_list, put_list, link_back, push_front,
}
use smos_thesis.RootServer.FrameTable.Chain.{
  has, last_or, Chain, Represents, Holds, Detached, Chain-out, Chain-write, Chain-reprev,
}
use smos_thesis.RootServer.FrameTable.Steps.{frame_from_ref-ok, ref_from_frame-ok, Represents-write}

-- What a push of the frame `x` leaves.
pub record Pushed (ft : FrameTable) (fs os : List ℕ) (out : ℕ) (ft' : FrameTable) : Type 0 where
  pub holds : Holds ft' fs os out
  pub used : ft'.used ≡ ft.used
  pub caps : (j : ℕ) → (ft'.frames j).cap ≡ (ft.frames j).cap

-- A new last frame is taken only where the list had none.
abbrev pub last_ref : Option ℕ → ℕ → ℕ
last_ref none x = x
last_ref (some y) x = y

pub push_front_at :
    (ft ft' : FrameTable) (id : ListId) (x : ℕ) (l : FrameList) (next : Option ℕ)
    → Detached ft x
    → get_list ft id ≡ ret l
    → ref_from_frame ft x ≡ ret x
    → l.first ≡ next
    → ((set_next ft x next).frames x).next ≡ next
    → link_back (set_next ft x next) next x ≡ ret ft'
    → push_front ft id x
      ≡ put_list
          (set_list_id ft' x l.list_id)
          id
          (record l { last = some (last_ref l.last x); first = some x; len = inc l.len })
unfolding push_front
push_front_at ft ft' id x l next d gl ok_x e n k = ground (arith, d, gl, ok_x, e, n, k)

pub next_set : (ft : FrameTable) (x : ℕ) (v : Option ℕ) → ((set_next ft x v).frames x).next ≡ v
unfolding set_next
next_set ft x v = ground arith

pub link_back-none : (ft : FrameTable) (x : ℕ) → link_back ft none x ≡ ret ft
unfolding link_back
link_back-none ft x = refl

link_back-some :
    (ft : FrameTable) (x y : ℕ)
    → frame_from_ref ft y ≡ ret y
    → link_back ft (some y) x ≡ ret (set_prev ft y (some x))
unfolding link_back
link_back-some ft x y e = rw e refl

marked : (ft : FrameTable) (x : ℕ) (id : ListId) → ((set_list_id ft x id).frames x).list_id ≡ id
unfolding set_list_id
marked ft x id = ground arith

link_two :
    (ft : FrameTable) (x y : ℕ)
    → y < ft.capacity
    → ft.capacity < 2 ^ 32
    → link_back (set_next ft x (some y)) (some y) x
      ≡ ret (set_prev (set_next ft x (some y)) y (some x))
unfolding set_next
link_two ft x y h k =
    link_back-some (set_next ft x (some y)) x y (frame_from_ref-ok (set_next ft x (some y)) y h k)

-- The push on an empty list, of either mark.
abbrev pub alone : FrameTable → ListId → ℕ → FrameTable
alone ft mark x = set_list_id (set_next ft x none) x mark

pub alone-Chain :
    (ft : FrameTable) (mark id : ListId) (x : ℕ)
    → mark ≡ id
    → Detached ft x
    → Chain (alone ft mark x).frames id ft.used none (x ∷ []) none
unfolding set_list_id set_next
alone-Chain ft mark id x e d = ground (arith, e, d)

pub alone-Represents :
    (ft : FrameTable) (mark other : ListId) (x : ℕ) (l : FrameList) (xs : List ℕ)
    → Detached ft x
    → no_list ≢ other
    → Represents ft.frames other ft.used l xs
    → Represents (alone ft mark x).frames other ft.used l xs
unfolding set_list_id set_next
alone-Represents ft mark other x l xs d nl r =
    Represents-write _ other ft.used l xs x _
      (Represents-write ft.frames other ft.used l xs x _ r (λ e. nl (sym d.0 ∙ e)))
      (λ e. nl (sym d.0 ∙ (ground arith) ∙ e))

pub front_one-Pushed :
    (ft : FrameTable) (os : List ℕ) (out x : ℕ)
    → Holds ft [] os (suc out)
    → Detached ft x
    → Pushed ft (x ∷ []) os out (record (alone ft ft.free.list_id x) {
      free = record ft.free {
        last = some (last_ref ft.free.last x);
        first = some x;
        len = inc ft.free.len;
      };
    })
unfolding set_list_id set_next
front_one-Pushed ft os out x h d = record {
  holds = record {
    free_part = record {
      named = h.free_part.named;
      front = refl;
      back = ap (λ (o : Option ℕ). some (last_ref o x)) h.free_part.back;
      count = omega (arith, h.free_part.count);
      chain = alone-Chain ft ft.free.list_id free_list x h.free_part.named d;
    };
    allocated_part =
        alone-Represents ft ft.free.list_id allocated_list x ft.allocated os d (λ e. cc)
          h.allocated_part;
    within = h.within;
    small = h.small;
    total = omega (arith, h.total);
  };
  used = refl;
  caps = λ j. ground arith;
}

last_kept :
    (o : Option ℕ) (x y : ℕ) (ys : List ℕ)
    → o ≡ last_or (some y) ys
    → some (last_ref o x) ≡ last_or (some y) ys
last_kept o x y [] e = rw e refl
last_kept o x y (z ∷ zs) e = last_kept o x z zs e

front_more-Pushed :
    (ft : FrameTable) (y : ℕ) (ys os : List ℕ) (out x : ℕ)
    → Holds ft (y ∷ ys) os (suc out)
    → Detached ft x
    → Pushed ft
        (x ∷ y ∷ ys)
        os
        out
        (record (set_list_id (set_prev (set_next ft x (some y)) y (some x)) x ft.free.list_id) {
          free = record ft.free {
            last = some (last_ref ft.free.last x);
            first = some x;
            len = inc ft.free.len;
          };
        })
unfolding set_list_id set_next set_prev
front_more-Pushed ft y ys os out x h d =
    let c = h.free_part.chain in
    let m = ft.frames in
    let off : has x (y ∷ ys) ≡ false =
      Chain-out m free_list ft.used x none (y ∷ ys) none c (λ e. cc (d.0, e)) in
    let apart : (y == x) ≡ false = ground (arith, off) in
    let apart' : (x == y) ≡ false = ground (arith, off) in
    let f = record (m x) { next = some y } in
    let m' = write m x f in
    let unmoved : m' y ≡ m y = rw apart' refl in
    let g = record (m' y) { prev = some x } in
    let m'' = write m' y g in
    let still : (m'' x).list_id ≡ no_list = ground (arith, d.0, apart) in
    record {
      holds = record {
        free_part = record {
          named = h.free_part.named;
          front = refl;
          back = last_kept ft.free.last x y ys h.free_part.back;
          count = omega (arith, h.free_part.count, h.total, h.within, h.small);
          chain = (
            ground (arith, d, apart),
            ground (arith, d, apart),
            ground (arith, d, apart, h.free_part.named),
            d.3,
            off,
            Chain-write m'' free_list ft.used x _ (some x) (y ∷ ys) none
                (Chain-reprev m' free_list ft.used y g none (some x) ys none
                  (Chain-write m free_list ft.used x f none (y ∷ ys) none c off) refl)
                off,
          );
        };
        allocated_part =
            Represents-write m'' allocated_list ft.used ft.allocated os x _
              (Represents-write m' allocated_list ft.used ft.allocated os y g
                (Represents-write m allocated_list ft.used ft.allocated os x f h.allocated_part
                  (λ e. cc (d.0, e)))
                (λ e. cc (c.2, unmoved, e)))
              (λ e. cc (still, e));
        within = h.within;
        small = h.small;
        total = omega (arith, h.total);
      };
      used = refl;
      caps = λ j. ground arith;
    }

get_free : (ft : FrameTable) → get_list ft free_list ≡ ret ft.free
unfolding get_list
get_free ft = refl

put_free :
    (ft : FrameTable) (l : FrameList) → put_list ft free_list l ≡ ret (record ft { free = l })
unfolding put_list
put_free ft l = refl

-- `push_front` of a frame that is in neither list, to the free list: the frame becomes the list's
-- first, and no capability changes.
pub push_front-Pushed :
    (ft : FrameTable) (fs os : List ℕ) (out x : ℕ)
    → Holds ft fs os (suc out)
    → Detached ft x
    → (ft' : FrameTable) × (push_front ft free_list x ≡ ret ft') × Pushed ft (x ∷ fs) os out ft'
push_front-Pushed ft [] os out x h d =
    let k = link_back-none (set_next ft x none) x in
    (
      _,
      push_front_at ft (set_next ft x none) free_list x ft.free none d (get_free ft)
            (ref_from_frame-ok ft x d.3 (omega (arith, h.within, h.small))) h.free_part.front
            (next_set ft x none) k
          ∙ put_free (set_list_id (set_next ft x none) x ft.free.list_id) _,
      front_one-Pushed ft os out x h d,
    )
push_front-Pushed ft (y ∷ ys) os out x h d =
    let k = link_two ft x y (omega (arith, h.free_part.chain.3, h.within)) h.small in
    (
      _,
      push_front_at ft (set_prev (set_next ft x (some y)) y (some x)) free_list x ft.free (some y) d
            (get_free ft) (ref_from_frame-ok ft x d.3 (omega (arith, h.within, h.small)))
            h.free_part.front (next_set ft x (some y)) k
          ∙ put_free _ _,
      front_more-Pushed ft y ys os out x h d,
    )
