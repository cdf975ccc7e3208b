-- ===== src/RootServer/FrameTable/PushBack.antt =====
-- `push_back` on the list of allocated frames.
use smos_thesis.Base.{
  ℕ, suc, ◌<◌, ◌≡◌, refl, sym, ap, ◌∙◌, List, [], ◌∷◌, ◌++◌, Option, none, some, true, false, arith,
  ◌==◌, length-append, ret,
}
use smos_thesis.RootServer.Kernel.{inc}
use smos_thesis.RootServer.FrameTable.{
  ListId, free_list, allocated_list, no_list, Frame, FrameList, Memory, write, FrameTable,
  frame_from_ref, ref_from_frame, set_prev, set_next, set_list_id, get_list, put_list, push_front,
  push_back,
}
use smos_thesis.RootServer.FrameTable.Chain.{
  has, last_or, Chain, Holds, Detached, Chain-out, Chain-in, Chain-write, Chain-restop, Chain-join,
  apart_of,
}
use smos_thesis.RootServer.FrameTable.Steps.{frame_from_ref-ok, ref_from_frame-ok, Represents-write}
use smos_thesis.RootServer.FrameTable.Push.{
  Pushed, last_ref, push_front_at, link_back-none, next_set, alone, alone-Chain, alone-Represents,
}
use smos_thesis.RootServer.FrameTable.Unlink.{last_some, last_or-append, write-cap}

push_back-none :
    (ft : FrameTable) (x : ℕ)
    → Detached ft x
    → ft.allocated.last ≡ none
    → ref_from_frame ft x ≡ ret x
    → push_back ft allocated_list x ≡ push_front ft allocated_list x
unfolding push_back get_list
push_back-none ft x d e k = ground (arith, d, e, k)

push_back-some :
    (ft : FrameTable) (x p : ℕ)
    → Detached ft x
    → ft.allocated.last ≡ some p
    → ref_from_frame ft x ≡ ret x
    → frame_from_ref ft p ≡ ret p
    → push_back ft allocated_list x
      ≡ ret
          (record (set_list_id
            (set_prev (set_next ft p (some x)) x ft.allocated.last)
            x
            ft.allocated.list_id) {
              allocated = record ft.allocated { last = some x; len = inc ft.allocated.len };
            })
unfolding push_back get_list put_list
push_back-some ft x p d e k o = ground (arith, d, e, k, o)

get_allocated : (ft : FrameTable) → get_list ft allocated_list ≡ ret ft.allocated
unfolding get_list
get_allocated ft = refl

put_allocated :
    (ft : FrameTable) (l : FrameList)
    → put_list ft allocated_list l ≡ ret (record ft { allocated = l })
unfolding put_list
put_allocated ft l = refl

back_one-Pushed :
    (ft : FrameTable) (fs : List ℕ) (out x : ℕ)
    → Holds ft fs [] (suc out)
    → Detached ft x
    → Pushed ft fs (x ∷ []) out (record (alone ft ft.allocated.list_id x) {
      allocated = record ft.allocated {
        last = some (last_ref ft.allocated.last x);
        first = some x;
        len = inc ft.allocated.len;
      };
    })
unfolding set_list_id set_next
back_one-Pushed ft fs out x h d = record {
  holds = record {
    free_part =
        alone-Represents ft ft.allocated.list_id free_list x ft.free fs d (λ e. cc) h.free_part;
    allocated_part = record {
      named = h.allocated_part.named;
      front = refl;
      back = ap (λ (o : Option ℕ). some (last_ref o x)) h.allocated_part.back;
      count = omega (arith, h.allocated_part.count);
      chain = alone-Chain ft ft.allocated.list_id allocated_list x h.allocated_part.named d;
    };
    within = h.within;
    small = h.small;
    total = omega (arith, h.total);
  };
  used = refl;
  caps = λ j. ground arith;
}

-- The appended frame as a chain of its own.
last-Chain :
    (m : Memory) (x used : ℕ) (prev o : Option ℕ) (mark : ListId)
    → (m x).next ≡ none
    → o ≡ prev
    → mark ≡ allocated_list
    → x < used
    → Chain
        (write
          (write m x (record (m x) { prev = o }))
          x
          (record (write m x (record (m x) { prev = o }) x) { list_id = mark }))
        allocated_list
        used
        prev
        (x ∷ [])
        none
last-Chain m x used prev o mark n e k s = ground (arith, n, e, k, s)

marked_after :
    (m : Memory) (x : ℕ) (o : Option ℕ)
    → (m x).list_id ≡ no_list
    → (write m x (record (m x) { prev = o }) x).list_id ≡ no_list
marked_after m x o e = ground (arith, e)

back_more-Pushed :
    (ft : FrameTable) (fs : List ℕ) (z : ℕ) (zs : List ℕ) (out x p : ℕ)
    → Holds ft fs (z ∷ zs) (suc out)
    → Detached ft x
    → last_or (some z) zs ≡ some p
    → has p (z ∷ zs) ≡ true
    → Pushed ft fs
        (z ∷ zs ++ x ∷ [])
        out
        (record (set_list_id
          (set_prev (set_next ft p (some x)) x ft.allocated.last)
          x
          ft.allocated.list_id) {
            allocated = record ft.allocated { last = some x; len = inc ft.allocated.len };
          })
unfolding set_list_id set_next set_prev
back_more-Pushed ft fs z zs out x p h d e inside =
    let c = h.allocated_part.chain in
    let m = ft.frames in
    let os = z ∷ zs in
    let off : has x os ≡ false =
      Chain-out m allocated_list ft.used x none os none c (λ k. cc (d.0, k)) in
    let mark = Chain-in m allocated_list ft.used p none os none c inside in
    let ne : (p == x) ≡ false = apart_of p x os inside off in
    let f = record (m p) { next = some x } in
    let m' = write m p f in
    let unmoved : m' x ≡ m x = rw ne refl in
    let g = record (m' x) { prev = ft.allocated.last } in
    let m'' = write m' x g in
    let still : (m'' x).list_id ≡ no_list =
      marked_after m' x ft.allocated.last (ap (λ (y : Frame). y.list_id) unmoved ∙ d.0) in
    let k = record (m'' x) { list_id = ft.allocated.list_id } in
    let before = Chain-restop m allocated_list ft.used p f none z zs none (some x) c e refl in
    record {
      holds = record {
        free_part =
            Represents-write m'' free_list ft.used ft.free fs x k
              (Represents-write m' free_list ft.used ft.free fs x g
                (Represents-write m free_list ft.used ft.free fs p f h.free_part
                  (λ q. cc (mark.0, q)))
                (λ q. cc (unmoved, d.0, q)))
              (λ q. cc (still, q));
        allocated_part = record {
          named = h.allocated_part.named;
          front = h.allocated_part.front;
          back = sym (last_or-append (some z) zs (x ∷ []));
          count = omega (
            arith,
            h.allocated_part.count,
            h.total,
            h.within,
            h.small,
            length-append os (x ∷ []),
          );
          chain =
              Chain-join (write m'' x k) allocated_list ft.used none os (x ∷ []) none
                (Chain-write m'' allocated_list ft.used x k none os (some x)
                  (Chain-write m' allocated_list ft.used x g none os (some x) before off) off)
                (last-Chain m' x ft.used (last_or (some z) zs) ft.allocated.last
                  ft.allocated.list_id (ap (λ (y : Frame). y.next) unmoved ∙ d.1)
                  h.allocated_part.back h.allocated_part.named d.3)
                (λ a q. let far = apart_of a x os q off in ground (arith, far));
        };
        within = h.within;
        small = h.small;
        total = omega (arith, h.total, length-append os (x ∷ []));
      };
      used = refl;
      caps = λ j. write-cap m'' x j k refl ∙ write-cap m' x j g refl ∙ write-cap m p j f refl;
    }

-- `push_back` of a frame that is in neither list, to the allocated ones: the frame becomes the
-- list's last, behind the others in their order, and no capability changes.
pub push_back-Pushed :
    (ft : FrameTable) (fs os : List ℕ) (out x : ℕ)
    → Holds ft fs os (suc out)
    → Detached ft x
    → (ft' : FrameTable) × (push_back ft allocated_list x ≡ ret ft')
      × Pushed ft fs (os ++ x ∷ []) out ft'
push_back-Pushed ft fs [] out x h d =
    let ok_x = ref_from_frame-ok ft x d.3 (omega (arith, h.within, h.small)) in
    (
      _,
      push_back-none ft x d h.allocated_part.back ok_x
          ∙ push_front_at ft (set_next ft x none) allocated_list x ft.allocated none d
              (get_allocated ft) ok_x h.allocated_part.front (next_set ft x none)
              (link_back-none (set_next ft x none) x)
          ∙ put_allocated (set_list_id (set_next ft x none) x ft.allocated.list_id) _,
      back_one-Pushed ft fs out x h d,
    )
push_back-Pushed ft fs (z ∷ zs) out x h d =
    let (p, e, inside) = last_some z zs in
    let c = h.allocated_part.chain in
    let mark = Chain-in ft.frames allocated_list ft.used p none (z ∷ zs) none c inside in
    (
      _,
      push_back-some ft x p d (h.allocated_part.back ∙ e)
          (ref_from_frame-ok ft x d.3 (omega (arith, h.within, h.small)))
          (frame_from_ref-ok ft p (omega (arith, mark.1, h.within)) h.small),
      back_more-Pushed ft fs z zs out x p h d e inside,
    )
