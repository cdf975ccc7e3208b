-- ===== src/RootServer/Untyped/Alloc/Steps.antt =====
-- The single steps of the allocation of untypeds on a valid table.
use mathlib.Core.Path.{subst}
use smos_thesis.Base.{
  ℕ, zero, suc, ◌+◌, ◌<◌, ◌≤◌, ◌≡◌, ◌≢◌, refl, sym, true, false, none, some, Result, ok, err, Run,
  Run-cases, ret, ltb, ◌==◌, arith, inl, inr, ◌⊎◌,
}
use smos_thesis.RootServer.Kernel.{SelError, not_enough_memory}
use smos_thesis.RootServer.Untyped.{
  UtTable, set_ut, push_untyped, push_structure, pop_untyped, pop_structure, free,
  size_bits_to_index,
}
use smos_thesis.RootServer.Untyped.Mapping.{ObjectBlueprint, Services, call, ask, tell, outcome}
use smos_thesis.RootServer.Untyped.Alloc.{set_untyped, take_first, retype_ut}
use smos_thesis.RootServer.Untyped.Alloc.Valid.{
  Place, held, move, set_size, IsValid, Follows, head_of, pushed, pushed-IsValid, popped,
  popped-IsValid,
}
use smos_thesis.RootServer.Untyped.Alloc.Panics.{
  CspacePanics, alloc_slot_panics, free_slot_panics, after_alloc_slot, after_free_slot,
  after_retype,
}
use smos_thesis.RootServer.Untyped.Alloc.Post.{
  Post, stopped, went, Any, All, Holds, OnOk, refuse-Post,
}

-- Another untyped than those that were in use.
abbrev pub IsFresh : Place → ℕ → Type 0
IsFresh place p = (q : ℕ) → place q ≡ held → q ≢ p

abbrev pub OtherThan : ℕ → ℕ → Type 0
OtherThan new p = p ≢ new

-- The first one of the list `k`.
abbrev pub Taken : {World : Type 0} → ℕ → Place → ℕ → UtTable World → Place → Type 0
Taken k place p t' place' = Holds p (k + 4) t' place' × IsFresh place p

-- A structure, of no size yet.
abbrev pub Spare : {World : Type 0} → Place → ℕ → UtTable World → Place → Type 0
Spare place p t' place' = (place' p ≡ held) × IsFresh place p

-- A list that is not empty.
abbrev pub HasFirst : {World : Type 0} → ℕ → Unit {0} → UtTable World → Place → Type 0
HasFirst k u t place = (p : ℕ) × (t.free_untypeds k ≡ some p)

-- Nothing but one structure has another place.
abbrev pub OnlyMoves :
    {World : Type 0} → ℕ → UtTable World → Place → Unit {0} → UtTable World → Place → Type 0
OnlyMoves new t place u t' place' =
    (t'.next_free_vaddr ≡ t.next_free_vaddr) × ((p : ℕ) → p ≢ new → place' p ≡ place p)

Size-cases : (n : ℕ) → (n ≡ 0) ⊎ ((m : ℕ) × (n ≡ suc m))
Size-cases zero = inl refl
Size-cases (suc m) = inr (m, refl)

OnOk-Any :
    {A World : Type 0} (r : Result SelError A) (t : UtTable World) (place : Place)
    → OnOk Any r t place
OnOk-Any (ok a) t place = tt
OnOk-Any (err e) t place = tt

module _ {World : Type 0} (s : Services World) (base : ℕ) (t : UtTable World) (place : Place)
    (size : ℕ → ℕ) (v : IsValid base t place size) where
  pub push_untyped-Post :
      (k new : ℕ)
      → k < 9
      → Holds new (k + 4) t place
      → Post s base 0 (OtherThan new) (push_untyped k new t) t place (HasFirst k)
  unfolding push_untyped
  push_untyped-Post k new inside h = went (record {
    result = ok tt;
    after = pushed base t place size k new;
    places = move place new (some (k, size k));
    sizes = set_size size k (suc (size k));
    returns =
        (let inside' : ltb k 9 ≡ true = ground (arith, inside) in
          let other : (k == 9) ≡ false = ground (arith, inside) in rw inside' (rw other refl));
    valid =
        pushed-IsValid base t place size k new v (omega arith) (λ c n lt e. ground (arith, e, h.0))
          (v.known new 10 0 h.0).0 (v.known new 10 0 h.0).1 (λ lt. h.1);
    keeps = record {
      place_kept = λ p ne e. ground (arith, ne, e);
      size_kept = λ p ne e. ground (arith, ne);
    };
    room = omega arith;
    good = (new, ground (arith, inside));
    reached = λ x. x;
  })

  pub push_structure-Post :
      (new : ℕ)
      → ((c n : ℕ) → c < 10 → place new ≢ some (c, n))
      → base ≤ new
      → new < t.next_free_vaddr
      → Post s base 0 (OtherThan new) (push_structure new t) t place (OnlyMoves new t place)
  unfolding push_structure
  push_structure-Post new away low high = went (record {
    result = ok tt;
    after = pushed base t place size 9 new;
    places = move place new (some (9, size 9));
    sizes = set_size size 9 (suc (size 9));
    returns = refl;
    valid =
        pushed-IsValid base t place size 9 new v (omega arith) away low high (λ lt. omega arith);
    keeps = record {
      place_kept = λ p ne e. ground (arith, ne, e);
      size_kept = λ p ne e. ground (arith, ne);
    };
    room = omega arith;
    good = (refl, λ p ne. ground (arith, ne));
    reached = λ x. x;
  })

  popped-Post :
      (k n p : ℕ) (out : Run (Result SelError ℕ × UtTable World))
      (Q : ℕ → UtTable World → Place → Type 0)
      → k < 10
      → size k ≡ suc n
      → place p ≡ some (k, n)
      → out ≡ ret (ok p, popped base t place size k p)
      → Q p (popped base t place size k p) (move place p held)
      → Post s base 0 All out t place Q
  popped-Post k n p out Q inside left at e q = went (record {
    result = ok p;
    after = popped base t place size k p;
    places = move place p held;
    sizes = set_size size k n;
    returns = e;
    valid = popped-IsValid base t place size k n p v inside left at;
    keeps = record { place_kept = λ x a h. ground (arith, h); size_kept = λ x a h. refl };
    room = omega arith;
    good = q;
    reached = λ x. x;
  })

  in_world : (w : World) → IsValid base (record t { world = w }) place size
  in_world w = record {
    based = v.based;
    below = v.below;
    low = v.low;
    fits = v.fits;
    headed = v.headed;
    linked = v.linked;
    unique = v.unique;
    sized = v.sized;
    known = v.known;
  }

  pub call-Post :
      {A : Type 0} (K : ℕ → Type 0) (f : World → Result SelError A × World)
      → (CspacePanics s (f t.world).1 → CspacePanics s t.world)
      → Post s base 0 K (call f t) t place Any
  call-Post K f reached = went (record {
    result = (f t.world).0;
    after = record t { world = (f t.world).1 };
    places = place;
    sizes = size;
    returns = refl;
    valid = in_world (f t.world).1;
    keeps = record { place_kept = λ p k h. h; size_kept = λ p k h. refl };
    room = omega arith;
    good = OnOk-Any (f t.world).0 _ place;
    reached = reached;
  })

  pub ask-Post : (K : ℕ → Type 0) → Post s base 0 K (ask s.alloc_slot t) t place Any
  ask-Post K = elim (Run-cases (s.alloc_slot t.world)) [
    | inl e ↦ stopped (alloc_slot_panics t.world e) (rw (ask, e) refl)
    | inr ((r, w), e) ↦ went (record {
      result = r;
      after = record t { world = w };
      places = place;
      sizes = size;
      returns = rw (ask, e) refl;
      valid = in_world w;
      keeps = record { place_kept = λ p k h. h; size_kept = λ p k h. refl };
      room = omega arith;
      good = OnOk-Any r _ place;
      reached = after_alloc_slot t.world w r e;
    })
  ]

  pub tell-Post :
      (K : ℕ → Type 0) (slot : ℕ) → Post s base 0 K (tell (s.free_slot slot) t) t place Any
  tell-Post K slot = elim (Run-cases (s.free_slot slot t.world)) [
    | inl e ↦ stopped (free_slot_panics slot t.world e) (rw (tell, e) refl)
    | inr (w, e) ↦ went (record {
      result = ok tt;
      after = record t { world = w };
      places = place;
      sizes = size;
      returns = rw (tell, e) refl;
      valid = in_world w;
      keeps = record { place_kept = λ p k h. h; size_kept = λ p k h. refl };
      room = omega arith;
      good = tt;
      reached = after_free_slot slot t.world w e;
    })
  ]

  pub outcome-Post :
      {A : Type 0} (K : ℕ → Type 0) (f : World → Result SelError A × World)
      → (CspacePanics s (f t.world).1 → CspacePanics s t.world)
      → Post s base 0 K (outcome f t) t place Any
  outcome-Post K f reached = went (record {
    result = ok (f t.world).0;
    after = record t { world = (f t.world).1 };
    places = place;
    sizes = size;
    returns = refl;
    valid = in_world (f t.world).1;
    keeps = record { place_kept = λ p k h. h; size_kept = λ p k h. refl };
    room = omega arith;
    good = tt;
    reached = reached;
  })

  pub retype_ut-Post :
      (K : ℕ → Type 0) (ut : ℕ) (b : ObjectBlueprint) (slot : ℕ)
      → Post s base 0 K (retype_ut s ut b slot t) t place Any
  unfolding retype_ut
  retype_ut-Post K ut b slot =
      call-Post K (s.untyped_retype (t.uts ut).cap b slot)
        (after_retype (t.uts ut).cap b slot t.world)

  none_left : (k : ℕ) → k < 10 → size k ≡ 0 → head_of t k ≡ none
  none_left k inside e = subst (λ n. Follows (head_of t k) place k n) e (v.headed k inside)

  first_left :
      (k n : ℕ)
      → k < 10
      → size k ≡ suc n
      → (p : ℕ) × (head_of t k ≡ some p) × (place p ≡ some (k, n))
  first_left k n inside e = subst (λ n. Follows (head_of t k) place k n) e (v.headed k inside)

  taken :
      (k n p : ℕ)
      → k < 9
      → place p ≡ some (k, n)
      → Taken k place p (popped base t place size k p) (move place p held)
  taken k n p inside at =
      ((ground arith, v.sized p k n inside at), λ q h e. ground (arith, h, e, at, inside))

  pub pop_untyped-Post :
      (k : ℕ) → k < 9 → Post s base 0 All (pop_untyped k t) t place (Taken k place)
  unfolding pop_untyped
  pop_untyped-Post k inside =
      let inside' : ltb k 9 ≡ true = ground (arith, inside) in
      let other : (k == 9) ≡ false = ground (arith, inside) in
      elim (Size-cases (size k)) [
        | inl e ↦
            (let empty : t.free_untypeds k ≡ none =
                ground (arith, none_left k (omega arith) e, other) in
              subst (λ out. Post s base 0 All out t place (Taken k place))
                (sym (rw inside' (rw empty refl)))
                (refuse-Post base All (Taken k place) not_enough_memory t place size v))
        | inr (n, e) ↦
            (let f = first_left k n (omega arith) e in
              let head : t.free_untypeds k ≡ some f.0 = ground (arith, f.1, other) in
              popped-Post k n f.0 _ (Taken k place) (omega arith) e f.2
                (rw inside' (rw head (rw other refl))) (taken k n f.0 inside f.2))
      ]

  pub take_first-Post :
      (k : ℕ)
      → k < 9
      → HasFirst k tt t place
      → Post s base 0 All (take_first k t) t place (Taken k place)
  unfolding take_first
  take_first-Post k inside first =
      let inside' : ltb k 9 ≡ true = ground (arith, inside) in
      let other : (k == 9) ≡ false = ground (arith, inside) in
      elim (Size-cases (size k)) [
        | inl e ↦
            (let no : t.free_untypeds k ≡ none =
                ground (arith, none_left k (omega arith) e, other) in
              ground (arith, no, first.1))
        | inr (n, e) ↦
            (let f = first_left k n (omega arith) e in
              let head : t.free_untypeds k ≡ some f.0 = ground (arith, f.1, other) in
              popped-Post k n f.0 _ (Taken k place) (omega arith) e f.2
                (rw inside' (rw head (rw other refl))) (taken k n f.0 inside f.2))
      ]

  pub pop_structure-Post : Post s base 0 All (pop_structure t) t place (Spare place)
  unfolding pop_structure
  pop_structure-Post = elim (Size-cases (size 9)) [
    | inl e ↦
        (let empty : t.free_structures ≡ none = none_left 9 (omega arith) e in
          subst (λ out. Post s base 0 All out t place (Spare place)) (sym (rw empty refl))
            (refuse-Post base All (Spare place) not_enough_memory t place size v))
    | inr (n, e) ↦
        (let f = first_left 9 n (omega arith) e in
          let head : t.free_structures ≡ some f.0 = f.1 in
          popped-Post 9 n f.0 _ (Spare place) (omega arith) e f.2 (rw head refl)
            (ground arith, λ q h e'. ground (arith, h, e', f.2)))
  ]

  pub set_untyped-Post :
      (new cslot size_bits : ℕ)
      → place new ≡ held
      → Post s base 0
          (OtherThan new)
          (set_untyped new cslot size_bits t)
          t
          place
          (λ u t' place'. Holds new size_bits t' place')
  unfolding set_untyped
  set_untyped-Post new cslot size_bits h = went (record {
    result = ok tt;
    after = record t {
      uts = set_ut t.uts new (record (t.uts new) { cap = cslot; size_bits = size_bits });
    };
    places = place;
    sizes = size;
    returns = refl;
    valid = record {
      based = v.based;
      below = v.below;
      low = v.low;
      fits = v.fits;
      headed = v.headed;
      linked = λ p c n lt at. (
        (v.linked p c n lt at).0,
        subst (λ x. Follows x place c n) (ground arith) (v.linked p c n lt at).1,
      );
      unique = v.unique;
      sized = λ p c n lt at. ground (arith, v.sized p c n lt at, h, at);
      known = v.known;
    };
    keeps = record { place_kept = λ p k e. e; size_kept = λ p ne e. ground (arith, ne) };
    room = omega arith;
    good = (h, ground arith);
    reached = λ x. x;
  })

  pub free-Post :
      (ut k : ℕ)
      → k < 9
      → Holds ut (k + 4) t place
      → Post s base 0 (OtherThan ut) (free ut t) t place (HasFirst k)
  unfolding free
  free-Post ut k inside h =
      let index : size_bits_to_index (t.uts ut).size_bits ≡ k = ground (arith, h.1, inside) in
      rw index (push_untyped-Post k ut inside h)
