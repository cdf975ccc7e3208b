-- ===== src/RootServer/FrameTable/Remove.antt =====
-- `remove_frame` on the list of allocated frames, and `free_frame`.
use smos_thesis.Base.{
  ℕ, suc, ◌<◌, ◌^◌, ◌≡◌, refl, ◌∙◌, List, ◌∷◌, ◌++◌, none, true, false, arith, length,
  length-append, ret,
}
use smos_thesis.RootServer.Kernel.{dec}
use smos_thesis.RootServer.FrameTable.{
  free_list, allocated_list, Frame, FrameList, Memory, write, FrameTable, frame_from_ref, get_list,
  put_list, unlink_prev, unlink_next, remove_frame, free_frame, push_front,
}
use smos_thesis.RootServer.FrameTable.Chain.{
  has, head_or, last_or, Represents, Holds, Detached, Chain-write, Chain-split, Chain-join,
}
use smos_thesis.RootServer.FrameTable.Steps.{
  frame_from_ref-ok, Represents-write, clear, clear_removed,
}
use smos_thesis.RootServer.FrameTable.Push.{Pushed, push_front-Pushed}
use smos_thesis.RootServer.FrameTable.Unlink.{
  AfterNext, unlink_prev-AfterPrev, unlink_next-AfterNext, before_behind, write-cap,
}

-- What the removal of the frame `x` from the allocated ones leaves.
pub record Removed (ft : FrameTable) (fs os : List ℕ) (out x : ℕ) (ft' : FrameTable) : Type 0 where
  pub holds : Holds ft' fs os out
  pub detached : Detached ft' x
  pub used : ft'.used ≡ ft.used
  pub caps : (j : ℕ) → (ft'.frames j).cap ≡ (ft.frames j).cap

remove_frame_at :
    (ft ft' ft'' : FrameTable) (l' l'' : FrameList) (x : ℕ)
    → ft.allocated.list_id ≡ allocated_list
    → (ft.frames x).list_id ≡ allocated_list
    → unlink_prev ft ft.allocated x ≡ ret (ft', l')
    → unlink_next ft' l' x ≡ ret (ft'', l'')
    → remove_frame ft allocated_list x
      ≡ ret (record (clear ft'' x) { allocated = record l'' { len = dec l''.len } })
unfolding remove_frame get_list put_list
remove_frame_at ft ft' ft'' l' l'' x e k p n = ground (arith, e, k, p, n, clear_removed ft'' x)

Represents-join :
    (ft : FrameTable) (fs l r : List ℕ) (x : ℕ) (m : Memory) (q : FrameList) (f : Frame)
    → length (l ++ x ∷ r) < 2 ^ 32
    → ((a : ℕ) → has a l ≡ true → has a (x ∷ r) ≡ false)
    → AfterNext ft fs l r x m q
    → Represents (write m x f) allocated_list ft.used (record q { len = dec q.len }) (l ++ r)
Represents-join ft fs l r x m q f small apart a =
    let off : has x l ≡ false = before_behind x l (x ∷ r) apart (ground arith) in
    record {
      named = a.named;
      front = a.front;
      back = a.back;
      count = omega (arith, a.count, length-append l (x ∷ r), length-append l r, small);
      chain =
          Chain-join (write m x f) allocated_list ft.used none l r none
            (Chain-write m allocated_list ft.used x f none l (head_or none r) a.left off)
            (Chain-write m allocated_list ft.used x f (last_or none l) r none a.right a.fresh)
            (λ b h. ground (arith, apart b h));
    }

-- `remove_frame` of a frame anywhere in the list of allocated frames: the frames before and after it
-- stay, in their order, and the frame is then in neither list.
pub remove_frame-Removed :
    (ft : FrameTable) (fs l r : List ℕ) (x out : ℕ)
    → Holds ft fs (l ++ x ∷ r) out
    → (ft' : FrameTable) × (remove_frame ft allocated_list x ≡ ret ft')
      × Removed ft fs (l ++ r) (suc out) x ft'
remove_frame-Removed ft fs l r x out h =
    let (left, right, apart) =
      Chain-split ft.frames allocated_list ft.used none l x r none h.allocated_part.chain in
    let (m, q, e, a) = unlink_prev-AfterPrev ft fs l r x out h in
    let (m', q', e', a') = unlink_next-AfterNext ft fs l r x m q h.within h.small apart a in
    (
      _,
      remove_frame_at ft (record ft { frames = m }) (record ft { frames = m' }) q q' x
          h.allocated_part.named right.2 e e',
      record {
        holds = record {
          free_part =
              Represents-write m' free_list ft.used ft.free fs x _ a'.free_part
                (λ k. cc (a'.mark, k));
          allocated_part =
              Represents-join ft fs l r x m' q' _ (omega (arith, h.total, h.within, h.small)) apart
                a';
          within = h.within;
          small = h.small;
          total = omega (arith, h.total, length-append l (x ∷ r), length-append l r);
        };
        detached = ground (arith, right.3);
        used = refl;
        caps = λ j. write-cap m' x j _ refl ∙ a'.caps j;
      },
    )

free_frame_at :
    (ft ft' : FrameTable) (x : ℕ)
    → frame_from_ref ft x ≡ ret x
    → remove_frame ft allocated_list x ≡ ret ft'
    → free_frame ft x ≡ push_front ft' free_list x
unfolding free_frame
free_frame_at ft ft' x e k = ground (arith, e, k)

-- `free_frame` of an allocated frame moves it from its place among the allocated frames to the
-- front of the free ones; it panics on no assertion, and changes no capability.
pub free_frame-Pushed :
    (ft : FrameTable) (fs l r : List ℕ) (x out : ℕ)
    → Holds ft fs (l ++ x ∷ r) out
    → (ft' : FrameTable) × (free_frame ft x ≡ ret ft') × Pushed ft (x ∷ fs) (l ++ r) out ft'
free_frame-Pushed ft fs l r x out h =
    let (left, right, apart) =
      Chain-split ft.frames allocated_list ft.used none l x r none h.allocated_part.chain in
    let (ft', e, k) = remove_frame-Removed ft fs l r x out h in
    let (ft'', e', k') = push_front-Pushed ft' fs (l ++ r) out x k.holds k.detached in
    (
      ft'',
      free_frame_at ft ft' x (frame_from_ref-ok ft x (omega (arith, right.3, h.within)) h.small) e
          ∙ e',
      record { holds = k'.holds; used = k'.used ∙ k.used; caps = λ j. k'.caps j ∙ k.caps j },
    )
