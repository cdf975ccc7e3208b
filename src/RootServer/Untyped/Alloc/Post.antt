-- ===== src/RootServer/Untyped/Alloc/Post.antt =====
-- What an operation on the table does to a valid one: it panics only where the cspace does, keeps the table valid, and leaves
-- what is in use.
use mathlib.Core.Path.{subst}
use smos_thesis.Base.{
  ℕ, ◌+◌, ◌*◌, ◌≤◌, ◌≡◌, refl, ◌∙◌, Result, ok, err, Result-cases, Run, ret, panic, arith, inl, inr,
}
use smos_thesis.RootServer.Kernel.{SelError}
use smos_thesis.RootServer.Untyped.{UtTable, Op, done, refuse, ◌>>=◌, or_undo}
use smos_thesis.RootServer.Untyped.Mapping.{Services}
use smos_thesis.RootServer.Untyped.Alloc.Panics.{CspacePanics}
use smos_thesis.RootServer.Untyped.Alloc.Valid.{Place, held, top, IsValid}

-- The untypeds in use of which `K` holds are in use afterwards, with their sizes.
pub record Keeps {World : Type 0} (K : ℕ → Type 0) (t : UtTable World) (place : Place)
    (after : UtTable World) (place' : Place) : Type 0 where
  pub place_kept : (p : ℕ) → K p → place p ≡ held → place' p ≡ held
  pub size_kept : (p : ℕ) → K p → place p ≡ held → (after.uts p).size_bits ≡ (t.uts p).size_bits

-- Of an untyped that is handed over; nothing of an error.
abbrev pub OnOk :
    {A World : Type 0}
    → (A → UtTable World → Place → Type 0)
    → Result SelError A
    → UtTable World
    → Place
    → Type 0
OnOk Q (ok a) t place = Q a t place
OnOk Q (err e) t place = Unit

-- `pages` pages of structures are mapped at most.
pub record Done {World : Type 0} (s : Services World) {A : Type 0} (base pages : ℕ) (K : ℕ → Type 0)
    (out : Run (Result SelError A × UtTable World)) (t : UtTable World) (place : Place)
    (Q : A → UtTable World → Place → Type 0) : Type 0 where
  pub result : Result SelError A
  pub after : UtTable World
  pub places : Place
  pub sizes : ℕ → ℕ
  pub returns : out ≡ ret (result, after)
  pub valid : IsValid base after places sizes
  pub keeps : Keeps K t place after places
  pub room : top base after ≤ top base t + pages * 524288
  pub good : OnOk Q result after places
  pub reached : CspacePanics s after.world → CspacePanics s t.world

-- There is no other panic than one of the cspace.
pub data Post {World : Type 0} (s : Services World) {A : Type 0} (base pages : ℕ) (K : ℕ → Type 0)
    (out : Run (Result SelError A × UtTable World)) (t : UtTable World) (place : Place)
    (Q : A → UtTable World → Place → Type 0) : Type 0 where
  stopped : CspacePanics s t.world → out ≡ panic → Post s base pages K out t place Q
  went : Done s base pages K out t place Q → Post s base pages K out t place Q

OnOk-map :
    {A World : Type 0} (Q R : A → UtTable World → Place → Type 0) (r : Result SelError A)
    (t : UtTable World) (place : Place)
    → ((a : A) → Q a t place → R a t place)
    → OnOk Q r t place
    → OnOk R r t place
OnOk-map Q R (ok a) t place f q = f a q
OnOk-map Q R (err e) t place f q = tt

abbrev pub Any : {A World : Type 0} → A → UtTable World → Place → Type 0
Any a t place = Unit

-- The same, with what is kept.
abbrev pub KeptBy :
    {A World : Type 0}
    → (ℕ → Type 0)
    → UtTable World
    → Place
    → (A → UtTable World → Place → Type 0)
    → A
    → UtTable World
    → Place
    → Type 0
KeptBy K t place Q a t' place' = Q a t' place' × Keeps K t place t' place'

abbrev pub All : ℕ → Type 0
All p = Unit

-- An untyped in use, of a size.
abbrev pub Holds : {World : Type 0} → ℕ → ℕ → UtTable World → Place → Type 0
Holds p size_bits t place = (place p ≡ held) × ((t.uts p).size_bits ≡ size_bits)

pub Holds-Keeps :
    {World : Type 0} (K : ℕ → Type 0) (t after : UtTable World) (place place' : Place)
    (p size_bits : ℕ)
    → Keeps K t place after place'
    → K p
    → Holds p size_bits t place
    → Holds p size_bits after place'
Holds-Keeps K t after place place' p size_bits k kp h =
    (k.place_kept p kp h.0, k.size_kept p kp h.0 ∙ h.1)

Keeps-refl :
    {World : Type 0} (K : ℕ → Type 0) (t : UtTable World) (place : Place) → Keeps K t place t place
Keeps-refl K t place = record { place_kept = λ p k h. h; size_kept = λ p k h. refl }

pub Keeps-All :
    {World : Type 0} (K : ℕ → Type 0) (t : UtTable World) (place : Place) (t' : UtTable World)
    (place' : Place)
    → Keeps All t place t' place'
    → Keeps K t place t' place'
Keeps-All K t place t' place' k = record {
  place_kept = λ p y. k.place_kept p tt;
  size_kept = λ p y. k.size_kept p tt;
}

pub Keeps-trans :
    {World : Type 0} (K K' : ℕ → Type 0) (t t1 t2 : UtTable World) (place place1 place2 : Place)
    → ((p : ℕ) → K p → place p ≡ held → K' p)
    → Keeps K t place t1 place1
    → Keeps K' t1 place1 t2 place2
    → Keeps K t place t2 place2
Keeps-trans K K' t t1 t2 place place1 place2 i a b = record {
  place_kept = λ p k h. b.place_kept p (i p k h) (a.place_kept p k h);
  size_kept = λ p k h. b.size_kept p (i p k h) (a.place_kept p k h) ∙ a.size_kept p k h;
}

-- What the rest of a block has to do behind its first operation.
abbrev Rest :
    {A B World : Type 0}
    → (s : Services World) (base first : ℕ) → (ℕ → Type 0)
    → (A → Op World B)
    → UtTable World
    → Place
    → (A → UtTable World → Place → Type 0)
    → (pages : ℕ) → (B → UtTable World → Place → Type 0)
    → Type 1
Rest s base first K f t place Q pages R =
    (a : _) (t' : UtTable _) (place' : Place) (size' : ℕ → ℕ)
    → IsValid base t' place' size'
    → Keeps K t place t' place'
    → top base t' ≤ top base t + first * 524288
    → Q a t' place'
    → (K' : ℕ → Type 0) × ((p : ℕ) → K p → place p ≡ held → K' p)
      × Post s base pages K' (f a t') t' place' R

module _ {World : Type 0} {s : Services World} (base : ℕ) where
  pub done-Post :
      {A : Type 0} (K : ℕ → Type 0) (Q : A → UtTable World → Place → Type 0) (a : A)
      (t : UtTable World) (place : Place) (size : ℕ → ℕ)
      → IsValid base t place size
      → Q a t place
      → Post s base 0 K (done a t) t place Q
  done-Post K Q a t place size v q = went (record {
    result = ok a;
    after = t;
    places = place;
    sizes = size;
    returns = refl;
    valid = v;
    keeps = Keeps-refl K t place;
    room = omega arith;
    good = q;
    reached = λ x. x;
  })

  pub refuse-Post :
      {A : Type 0} (K : ℕ → Type 0) (Q : A → UtTable World → Place → Type 0) (e : SelError)
      (t : UtTable World) (place : Place) (size : ℕ → ℕ)
      → IsValid base t place size
      → Post s base 0 K (refuse e t) t place Q
  refuse-Post K Q e t place size v = went (record {
    result = err e;
    after = t;
    places = place;
    sizes = size;
    returns = refl;
    valid = v;
    keeps = Keeps-refl K t place;
    room = omega arith;
    good = tt;
    reached = λ x. x;
  })

  pub bind-Post :
      {A B : Type 0} (first pages : ℕ) (K : ℕ → Type 0) (m : Op World A) (f : A → Op World B)
      (t : UtTable World) (place : Place) (Q : A → UtTable World → Place → Type 0)
      (R : B → UtTable World → Place → Type 0)
      → Post s base first K (m t) t place Q
      → Rest s base first K f t place Q pages R
      → Post s base (first + pages) K ((m >>= f) t) t place R
  bind-Post first pages K m f t place Q R (stopped x e) k = stopped x (ground (arith, e))
  bind-Post first pages K m f t place Q R (went p) k = elim (Result-cases p.result) [
    | inl (e, q) ↦ went (record {
      result = err e;
      after = p.after;
      places = p.places;
      sizes = p.sizes;
      returns = ground (arith, p.returns, q);
      valid = p.valid;
      keeps = p.keeps;
      room = ground (arith, p.room);
      good = tt;
      reached = p.reached;
    })
    | inr (a, q) ↦
        (let good : Q a p.after p.places = subst (λ r. OnOk Q r p.after p.places) q p.good in
          let rest = k a p.after p.places p.sizes p.valid p.keeps p.room good in
          elim rest.2 [
            | stopped x e ↦ stopped (p.reached x) (ground (arith, p.returns, q, e))
            | went n ↦ went (record {
              result = n.result;
              after = n.after;
              places = n.places;
              sizes = n.sizes;
              returns = ground (arith, p.returns, q, n.returns);
              valid = n.valid;
              keeps =
                  Keeps-trans K rest.0 t p.after n.after place p.places n.places rest.1 p.keeps
                    n.keeps;
              room = ground (arith, p.room, n.room);
              good = n.good;
              reached = λ x. p.reached (n.reached x);
            })
          ])
  ]

  -- An error is followed by what undoes the operation.
  pub or_undo-Post :
      {A : Type 0} (pages : ℕ) (K : ℕ → Type 0) (m : Op World A) (undo : Op World (Unit {0}))
      (t : UtTable World) (place : Place) (Q : A → UtTable World → Place → Type 0)
      → Post s base pages All (m t) t place Q
      → ((t' : UtTable World) (place' : Place) (size' : ℕ → ℕ)
          → IsValid base t' place' size'
          → Keeps All t place t' place'
          → Post s base 0 K (undo t') t' place' Any)
      → Post s base pages K (or_undo m undo t) t place (KeptBy All t place Q)
  or_undo-Post pages K m undo t place Q (stopped x e) k = stopped x (ground (arith, e))
  or_undo-Post pages K m undo t place Q (went p) k = elim (Result-cases p.result) [
    | inl (e, q) ↦ elim (k p.after p.places p.sizes p.valid p.keeps) [
      | stopped x e' ↦ stopped (p.reached x) (ground (arith, p.returns, q, e'))
      | went n ↦ elim (Result-cases n.result) [
        | inl (e', q') ↦ went (record {
          result = err e';
          after = n.after;
          places = n.places;
          sizes = n.sizes;
          returns = ground (arith, p.returns, q, n.returns, q');
          valid = n.valid;
          keeps =
              Keeps-trans K K t p.after n.after place p.places n.places (λ x y z. y)
                (Keeps-All K t place p.after p.places p.keeps) n.keeps;
          room = ground (arith, p.room, n.room);
          good = tt;
          reached = λ x. p.reached (n.reached x);
        })
        | inr (u, q') ↦ went (record {
          result = err e;
          after = n.after;
          places = n.places;
          sizes = n.sizes;
          returns = ground (arith, p.returns, q, n.returns, q');
          valid = n.valid;
          keeps =
              Keeps-trans K K t p.after n.after place p.places n.places (λ x y z. y)
                (Keeps-All K t place p.after p.places p.keeps) n.keeps;
          room = ground (arith, p.room, n.room);
          good = tt;
          reached = λ x. p.reached (n.reached x);
        })
      ]
    ]
    | inr (a, q) ↦ went (record {
      result = ok a;
      after = p.after;
      places = p.places;
      sizes = p.sizes;
      returns = ground (arith, p.returns, q);
      valid = p.valid;
      keeps = Keeps-All K t place p.after p.places p.keeps;
      room = p.room;
      good = (subst (λ r. OnOk Q r p.after p.places) q p.good, p.keeps);
      reached = p.reached;
    })
  ]

  pub Post-weaken :
      {A : Type 0} (pages more : ℕ) (K K' : ℕ → Type 0)
      (out : Run (Result SelError A × UtTable World)) (t : UtTable World) (place : Place)
      (Q R : A → UtTable World → Place → Type 0)
      → pages ≤ more
      → ((p : ℕ) → K' p → place p ≡ held → K p)
      → ((a : A) (t' : UtTable World) (place' : Place) → Q a t' place' → R a t' place')
      → Post s base pages K out t place Q
      → Post s base more K' out t place R
  Post-weaken pages more K K' out t place Q R le i f (stopped x e) = stopped x e
  Post-weaken pages more K K' out t place Q R le i f (went p) = went (record {
    result = p.result;
    after = p.after;
    places = p.places;
    sizes = p.sizes;
    returns = p.returns;
    valid = p.valid;
    keeps = record {
      place_kept = λ q k h. p.keeps.place_kept q (i q k h) h;
      size_kept = λ q k h. p.keeps.size_kept q (i q k h) h;
    };
    room = omega (arith, p.room, le);
    good = OnOk-map Q R p.result p.after p.places (λ a. f a p.after p.places) p.good;
    reached = p.reached;
  })

  -- Fewer are kept, and the rest is remembered.
  pub Post-narrow :
      {A : Type 0} (pages : ℕ) (K K' : ℕ → Type 0) (out : Run (Result SelError A × UtTable World))
      (t : UtTable World) (place : Place) (Q : A → UtTable World → Place → Type 0)
      → ((p : ℕ) → K' p → place p ≡ held → K p)
      → Post s base pages K out t place Q
      → Post s base pages K' out t place (KeptBy K t place Q)
  Post-narrow pages K K' out t place Q i (stopped x e) = stopped x e
  Post-narrow pages K K' out t place Q i (went p) = went (record {
    result = p.result;
    after = p.after;
    places = p.places;
    sizes = p.sizes;
    returns = p.returns;
    valid = p.valid;
    keeps = record {
      place_kept = λ q k h. p.keeps.place_kept q (i q k h) h;
      size_kept = λ q k h. p.keeps.size_kept q (i q k h) h;
    };
    room = p.room;
    good = OnOk-map Q (KeptBy K t place Q) p.result p.after p.places (λ a q. (q, p.keeps)) p.good;
    reached = p.reached;
  })
