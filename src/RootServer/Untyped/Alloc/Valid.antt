-- ===== src/RootServer/Untyped/Alloc/Valid.antt =====
-- The lists of the table of untyped memory: which structure stands where in which list.
use smos_thesis.Base.{
  ℕ, zero, suc, ◌+◌, ◌-◌, ◌*◌, ◌^◌, ◌<◌, ◌≤◌, ◌≡◌, ◌≢◌, refl, sym, Option, none, some, ◌==◌,
  if◌then◌else◌, arith, inl, inr, Nat-cases,
}
use smos_thesis.RootServer.Untyped.{UtTable, set_ut, set_list}

-- The list of a structure, and the number of those behind it there.
abbrev pub Place : Type 0
Place = ℕ → Option (ℕ × ℕ)

-- Behind the nine lists of untypeds: the free structures, and what is in use.
abbrev pub structures : ℕ
structures = 9

abbrev pub held : Option (ℕ × ℕ)
held = some (10, 0)

abbrev pub move : Place → ℕ → Option (ℕ × ℕ) → Place
move place p at q = if q == p then at else place q

abbrev pub set_size : (ℕ → ℕ) → ℕ → ℕ → ℕ → ℕ
set_size size k n j = if j == k then n else size j

abbrev pub head_of : {World : Type 0} → UtTable World → ℕ → Option ℕ
head_of t c = if c == 9 then t.free_structures else t.free_untypeds c

-- What a link reads where `n` structures of the list `c` are to follow.
abbrev pub Follows : Option ℕ → Place → ℕ → ℕ → Type 0
Follows link place c zero = link ≡ none
Follows link place c (suc n) = (p : ℕ) × (link ≡ some p) × (place p ≡ some (c, n))

-- The physical address of a structure's page is below this, whichever structure it is: a structure has
-- 32 bytes and a page 4096.
abbrev pub top : {World : Type 0} → ℕ → UtTable World → ℕ
top base t = t.first_paddr + (t.next_free_vaddr - base) * 128

-- The table's own structures begin at `base`, in the lower half of the addresses.
pub record IsValid {World : Type 0} (base : ℕ) (t : UtTable World) (place : Place) (size : ℕ → ℕ)
    : Type 0 where
  pub based : t.untypeds ≡ some base
  pub below : base ≤ t.next_free_vaddr
  pub low : base < 2 ^ 63
  pub fits : top base t < 2 ^ 64
  pub headed : (c : ℕ) → c < 10 → Follows (head_of t c) place c (size c)
  pub linked :
      (p c n : ℕ) → c < 10 → place p ≡ some (c, n) → (n < size c) × Follows (t.uts p).next place c n
  pub unique : (p q c n : ℕ) → c < 10 → place p ≡ some (c, n) → place q ≡ some (c, n) → p ≡ q
  pub sized : (p c n : ℕ) → c < 9 → place p ≡ some (c, n) → (t.uts p).size_bits ≡ c + 4
  pub known : (p c n : ℕ) → place p ≡ some (c, n) → (base ≤ p) × (p < t.next_free_vaddr)

pub Follows-move :
    (link : Option ℕ) (place : Place) (p : ℕ) (at : Option (ℕ × ℕ)) (c n : ℕ)
    → ((m : ℕ) → m < n → place p ≢ some (c, m))
    → Follows link place c n
    → Follows link (move place p at) c n
Follows-move link place p at c zero away f = f
Follows-move link place p at c (suc n) away f =
    (f.0, f.1, ground (arith, f.2, away n (omega arith)))

-- The same at equal links, lists and numbers.
pub Follows-cong :
    (link link' : Option ℕ) (place : Place) (c c' n n' : ℕ)
    → link' ≡ link
    → c' ≡ c
    → n' ≡ n
    → Follows link place c n
    → Follows link' place c' n'
Follows-cong link link' place c c' n n' el ec en f = rw el (rw ec (rw en f))

module _ {World : Type 0} (base : ℕ) (t : UtTable World) (place : Place) (size : ℕ → ℕ) where
  abbrev pub pushed : ℕ → ℕ → UtTable World
  pushed k new = record t {
    free_untypeds = if k == 9 then t.free_untypeds else set_list t.free_untypeds k (some new);
    free_structures = if k == 9 then some new else t.free_structures;
    uts = set_ut t.uts new (record (t.uts new) { next = head_of t k });
  }

  -- A structure that is in no list becomes the first one of a list.
  pub pushed-IsValid :
      (k new : ℕ)
      → IsValid base t place size
      → k < 10
      → ((c n : ℕ) → c < 10 → place new ≢ some (c, n))
      → (base ≤ new)
      → new < t.next_free_vaddr
      → (k < 9 → (t.uts new).size_bits ≡ k + 4)
      → IsValid base
          (pushed k new)
          (move place new (some (k, size k)))
          (set_size size k (suc (size k)))
  pushed-IsValid k new v inside away low high fits = record {
    based = v.based;
    below = v.below;
    low = v.low;
    fits = v.fits;
    headed = λ c h. elim (Nat-cases c k) [
      | inl e ↦
          Follows-cong (some new) _ (move place new (some (k, size k))) k c (suc (size k)) _
            (ground (arith, e)) e (ground (arith, e)) (new, refl, ground arith)
      | inr ne ↦
          Follows-cong (head_of t c) _ (move place new (some (k, size k))) c c (size c) _
            (ground (arith, ne, h)) refl (ground (arith, ne))
            (Follows-move (head_of t c) place new (some (k, size k)) c (size c) (λ m lt. away c m h)
              (v.headed c h))
    ];
    linked = λ p c n h at. elim (Nat-cases p new) [
      | inl e ↦
          (let same : (k ≡ c) × (size k ≡ n) = (ground (arith, at, e), ground (arith, at, e)) in
            (
              ground (arith, same.0, same.1),
              Follows-cong (head_of t k) _ (move place new (some (k, size k))) k c (size k) n
                  (ground (arith, e)) (sym same.0) (sym same.1)
                  (Follows-move (head_of t k) place new (some (k, size k)) k (size k)
                    (λ m lt. away k m inside) (v.headed k inside)),
            ))
      | inr ne ↦
          (let at' : place p ≡ some (c, n) = ground (arith, at, ne) in
            (
              ground (arith, (v.linked p c n h at').0),
              Follows-cong (t.uts p).next _ (move place new (some (k, size k))) c c n n
                  (ground (arith, ne)) refl refl
                  (Follows-move (t.uts p).next place new (some (k, size k)) c n (λ m lt. away c m h)
                    (v.linked p c n h at').1),
            ))
    ];
    unique = λ p q c n h at at'.
        ground (arith, at, at', v.unique p q c n h, v.linked p c n h, v.linked q c n h);
    sized = λ p c n h at. ground (arith, v.sized p c n h, fits);
    known = λ p c n at. ground (arith, v.known p c n, low, high);
  }

  abbrev pub popped : ℕ → ℕ → UtTable World
  popped k p = record t {
    free_untypeds = if k == 9 then t.free_untypeds else set_list t.free_untypeds k (t.uts p).next;
    free_structures = if k == 9 then (t.uts p).next else t.free_structures;
  }

  -- The first one of a list leaves it.
  pub popped-IsValid :
      (k n p : ℕ)
      → IsValid base t place size
      → k < 10
      → size k ≡ suc n
      → place p ≡ some (k, n)
      → IsValid base (popped k p) (move place p held) (set_size size k n)
  popped-IsValid k n p v inside some_left at = record {
    based = v.based;
    below = v.below;
    low = v.low;
    fits = v.fits;
    headed = λ c h. elim (Nat-cases c k) [
      | inl e ↦
          Follows-cong (t.uts p).next _ (move place p held) k c n _ (ground (arith, e)) e
            (ground (arith, e))
            (Follows-move (t.uts p).next place p held k n (λ m lt. ground (arith, at))
              (v.linked p k n inside at).1)
      | inr ne ↦
          Follows-cong (head_of t c) _ (move place p held) c c (size c) _ (ground (arith, ne, h))
            refl (ground (arith, ne))
            (Follows-move (head_of t c) place p held c (size c) (λ m lt. ground (arith, at, ne))
              (v.headed c h))
    ];
    linked = λ q c m h at'.
        let at0 : place q ≡ some (c, m) = ground (arith, at') in
        let other : q ≢ p = ground (arith, at') in
        let old = v.linked q c m h at0 in
        let short : m < set_size size k n c =
          ground (arith, old.0, some_left, at, at0, other, v.unique q p k n inside) in
        (
          short,
          Follows-move (t.uts q).next place p held c m
              (λ i lt. ground (arith, at, some_left, old.0)) old.1,
        );
    unique = λ q r c m h at1 at2. ground (arith, at1, at2, v.unique q r c m h);
    sized = λ q c m h at'. ground (arith, v.sized q c m h, at);
    known = λ q c m at'. ground (arith, v.known q c m, v.known p k n at);
  }
