-- ===== src/RootServer/FrameTable/Chain.antt =====
-- The doubly linked lists of the frame table as lists of frame numbers.
use mathlib.Core.Bool.{false≢true}
use smos_thesis.Base.{
  ℕ, ◌+◌, ◌≤◌, ◌<◌, ◌^◌, ◌≡◌, ◌≢◌, refl, sym, ap, ◌∙◌, List, [], ◌∷◌, ◌++◌, Option, none, some,
  Bool, true, false, ◌||◌, inl, inr, arith, ◌==◌, Bool-cases, length,
}
use smos_thesis.RootServer.FrameTable.{
  ListId, free_list, allocated_list, no_list, Frame, FrameList, Memory, write, FrameTable,
}

abbrev pub has : ℕ → List ℕ → Bool
has a [] = false
has a (x ∷ xs) = (x == a) || has a xs

abbrev pub head_or : Option ℕ → List ℕ → Option ℕ
head_or d [] = d
head_or d (x ∷ xs) = some x

abbrev pub last_or : Option ℕ → List ℕ → Option ℕ
last_or d [] = d
last_or d (x ∷ xs) = last_or (some x) xs

-- From `prev` on, the frames `xs` are linked in this order, up to `stop`, and are marked `id`;
-- none occurs twice, and each is one of the `used` frames.
abbrev pub Chain : Memory → ListId → ℕ → Option ℕ → List ℕ → Option ℕ → Type 0
Chain m id used prev [] stop = Unit
Chain m id used prev (x ∷ xs) stop =
    ((m x).prev ≡ prev)
    × ((m x).next ≡ head_or stop xs)
    × ((m x).list_id ≡ id)
    × (x < used)
    × (has x xs ≡ false)
    × Chain m id used (some x) xs stop

-- A list header and its frames.
pub record Represents (m : Memory) (id : ListId) (used : ℕ) (l : FrameList) (xs : List ℕ)
    : Type 0 where
  pub named : l.list_id ≡ id
  pub front : l.first ≡ head_or none xs
  pub back : l.last ≡ last_or none xs
  pub count : l.len ≡ length xs
  pub chain : Chain m id used none xs none

-- The frames in use: `fs` are free, `os` are allocated, and `out` are in neither list, with the
-- bounds that the code asserts.
pub record Holds (ft : FrameTable) (fs os : List ℕ) (out : ℕ) : Type 0 where
  pub free_part : Represents ft.frames free_list ft.used ft.free fs
  pub allocated_part : Represents ft.frames allocated_list ft.used ft.allocated os
  pub within : ft.used ≤ ft.capacity
  pub small : ft.capacity < 2 ^ 32
  pub total : length fs + length os + out ≡ ft.used

-- A frame that is in no list, and what the pushes assert of it.
abbrev pub Detached : FrameTable → ℕ → Type 0
Detached ft x =
    ((ft.frames x).list_id ≡ no_list)
    × ((ft.frames x).next ≡ none)
    × ((ft.frames x).prev ≡ none)
    × (x < ft.used)

has-last : (w : ℕ) (ws : List ℕ) (z : ℕ) → last_or (some w) ws ≡ some z → has z (w ∷ ws) ≡ true
has-last w [] z l = ground arith
has-last w (v ∷ ws) z l = ground (arith, has-last v ws z l)

pub apart_of : (z y : ℕ) (ws : List ℕ) → has z ws ≡ true → has y ws ≡ false → (z == y) ≡ false
apart_of z y ws h k = elim (Bool-cases (z == y)) [
  | inl same ↦
      let e : z ≡ y = ground arith in
      absurd (false≢true (sym k ∙ ap (λ (a : ℕ). has a ws) (sym e) ∙ h))
  | inr e ↦ e
]

head_or-append :
    (l : List ℕ) (x : ℕ) (r : List ℕ) (stop : Option ℕ)
    → head_or stop (l ++ x ∷ r) ≡ head_or (some x) l
head_or-append [] x r stop = refl
head_or-append (y ∷ l) x r stop = refl

head_or_join : (l r : List ℕ) (stop : Option ℕ) → head_or (head_or stop r) l ≡ head_or stop (l ++ r)
head_or_join [] r stop = refl
head_or_join (y ∷ l) r stop = refl

pub has-append : (a : ℕ) (l r : List ℕ) → has a (l ++ r) ≡ (has a l || has a r)
has-append a [] r = refl
has-append a (y ∷ l) r = ground (arith, has-append a l r)

has-append_left : (a : ℕ) (l r : List ℕ) → has a (l ++ r) ≡ false → has a l ≡ false
has-append_left a l r h = ground (arith, has-append a l r)

has-append_right : (a : ℕ) (l r : List ℕ) → has a (l ++ r) ≡ false → has a r ≡ false
has-append_right a l r h = ground (arith, has-append a l r)

has-append_none :
    (a : ℕ) (l r : List ℕ) → has a l ≡ false → has a r ≡ false → has a (l ++ r) ≡ false
has-append_none a l r h k = ground (arith, has-append a l r)

module _ (m : Memory) (id : ListId) (used : ℕ) where
  -- Only the frames of a chain bear its mark.
  pub Chain-out :
      (a : ℕ) (prev : Option ℕ) (xs : List ℕ) (stop : Option ℕ)
      → Chain m id used prev xs stop
      → (m a).list_id ≢ id
      → has a xs ≡ false
  Chain-out a prev [] stop c ne = refl
  Chain-out a prev (x ∷ xs) stop c ne =
      let rest = Chain-out a (some x) xs stop c.5 ne in
      let other : (x == a) ≡ false = elim (Bool-cases (x == a)) [
        | inl same ↦ absurd (ne (let e : x ≡ a = ground arith in rw (← e) c.2))
        | inr e ↦ e
      ] in
      rw (other, rest) refl

  -- A frame of a chain bears its mark.
  pub Chain-in :
      (a : ℕ) (prev : Option ℕ) (xs : List ℕ) (stop : Option ℕ)
      → Chain m id used prev xs stop
      → has a xs ≡ true
      → ((m a).list_id ≡ id) × (a < used)
  Chain-in a prev [] stop c h = cc
  Chain-in a prev (x ∷ xs) stop c h = elim (Bool-cases (x == a)) [
    | inl same ↦ let e : x ≡ a = ground arith in rw (← e) (c.2, c.3)
    | inr other ↦ Chain-in a (some x) xs stop c.5 (ground arith)
  ]

  -- Writing to a frame outside a chain leaves it.
  pub Chain-write :
      (i : ℕ) (f : Frame) (prev : Option ℕ) (xs : List ℕ) (stop : Option ℕ)
      → Chain m id used prev xs stop
      → has i xs ≡ false
      → Chain (write m i f) id used prev xs stop
  Chain-write i f prev [] stop c h = tt
  Chain-write i f prev (x ∷ xs) stop c h =
      let other : (i == x) ≡ false = ground arith in
      rw other (c.0, c.1, c.2, c.3, c.4, Chain-write i f (some x) xs stop c.5 (ground arith))

  -- The first frame's `prev` can be changed.
  pub Chain-reprev :
      (y : ℕ) (f : Frame) (prev prev' : Option ℕ) (ys : List ℕ) (stop : Option ℕ)
      → Chain m id used prev (y ∷ ys) stop
      → f ≡ record (m y) { prev = prev' }
      → Chain (write m y f) id used prev' (y ∷ ys) stop
  Chain-reprev y f prev prev' ys stop c e =
      let self : (y == y) ≡ true = ground arith in
      rw (self, e) (refl, c.1, c.2, c.3, c.4, Chain-write y f (some y) ys stop c.5 c.4)

  -- The last frame's `next` can be changed.
  pub Chain-restop :
      (z : ℕ) (f : Frame) (prev : Option ℕ) (y : ℕ) (ys : List ℕ) (stop stop' : Option ℕ)
      → Chain m id used prev (y ∷ ys) stop
      → last_or (some y) ys ≡ some z
      → f ≡ record (m z) { next = stop' }
      → Chain (write m z f) id used prev (y ∷ ys) stop'
  Chain-restop z f prev y [] stop stop' c l e =
      let same : z ≡ y = ground arith in
      let self : (z == y) ≡ true = ground arith in
      let e' : f ≡ record (m y) { next = stop' } = rw (← same) e in
      rw (self, e') (c.0, refl, c.2, c.3, refl, tt)
  Chain-restop z f prev y (w ∷ ws) stop stop' c l e =
      let later : has z (w ∷ ws) ≡ true = has-last w ws z l in
      let other : (z == y) ≡ false = apart_of z y (w ∷ ws) later c.4 in
      rw other (c.0, c.1, c.2, c.3, c.4, Chain-restop z f (some y) w ws stop stop' c.5 l e)

  -- A chain falls apart at a frame, and comes together there.
  pub Chain-split :
      (prev : Option ℕ) (l : List ℕ) (x : ℕ) (r : List ℕ) (stop : Option ℕ)
      → Chain m id used prev (l ++ x ∷ r) stop
      → Chain m id used prev l (some x)
        × Chain m id used (last_or prev l) (x ∷ r) stop
        × ((a : ℕ) → has a l ≡ true → has a (x ∷ r) ≡ false)
  Chain-split prev [] x r stop c = (tt, c, λ a h. cc)
  Chain-split prev (y ∷ l) x r stop c =
      let (left, right, apart) = Chain-split (some y) l x r stop c.5 in
      (
        (c.0, c.1 ∙ head_or-append l x r stop, c.2, c.3, has-append_left y l (x ∷ r) c.4, left),
        right,
        λ a h. elim (Bool-cases (y == a)) [
          | inl same ↦
              let e : y ≡ a = ground arith in
              ap (λ (b : ℕ). has b (x ∷ r)) (sym e) ∙ has-append_right y l (x ∷ r) c.4
          | inr other ↦ apart a (ground arith)
        ],
      )

  pub Chain-join :
      (prev : Option ℕ) (l r : List ℕ) (stop : Option ℕ)
      → Chain m id used prev l (head_or stop r)
      → Chain m id used (last_or prev l) r stop
      → ((a : ℕ) → has a l ≡ true → has a r ≡ false)
      → Chain m id used prev (l ++ r) stop
  Chain-join prev [] r stop left right apart = right
  Chain-join prev (y ∷ l) r stop left right apart = (
    left.0,
    left.1 ∙ head_or_join l r stop,
    left.2,
    left.3,
    has-append_none y l r left.4 (apart y (ground arith)),
    Chain-join (some y) l r stop left.5 right (λ a h. apart a (ground arith)),
  )
