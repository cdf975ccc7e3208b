-- ===== src/RootServer/Windows/Overlap.antt =====
-- Which windows `overlapping_window` finds.
use mathlib.Core.Bool.{false≢true}
use mathlib.Core.Path.{subst}
use smos_thesis.Base.{
  ℕ, ◌+◌, ◌^◌, ◌≤◌, ◌<◌, ◌≡◌, ◌⊎◌, refl, sym, ◌∙◌, List, [], ◌∷◌, true, false, Option, none, some,
  inl, inr, arith, Bool-cases,
}
use smos_thesis.RootServer.Windows.{
  Window, UserProcess, contains_addr, overlaps, overlapping_in, overlapping_window,
}

abbrev pub All : (Window → Type 0) → List Window → Type 0
All P [] = Unit
All P (w ∷ ws) = P w × All P ws

abbrev pub Among : Window → List Window → Type 0
Among w [] = ⊥
Among w (x ∷ xs) = (x ≡ w) ⊎ Among w xs

-- A range of the address space that is not empty and does not wrap.
abbrev pub IsRange : ℕ → ℕ → Type 0
IsRange start size = (0 < size) × (start + size < 2 ^ 64)

abbrev pub HasRange : Window → Type 0
HasRange w = IsRange w.start w.size

-- The window and the range have no address in common.
abbrev pub Apart : ℕ → ℕ → Window → Type 0
Apart start size w = (start + size ≤ w.start) ⊎ (w.start + w.size ≤ start)

-- The window lies in the range, and begins after it.
abbrev pub Enclosed : ℕ → ℕ → Window → Type 0
Enclosed start size w = (start < w.start) × (w.start + w.size ≤ start + size)

-- An address of both.
abbrev pub Meets : ℕ → ℕ → Window → Type 0
Meets start size w =
    (v : ℕ) × (w.start ≤ v) × (v < w.start + w.size) × (start ≤ v) × (v < start + size)

overlaps-Meets :
    (start size : ℕ) (w : Window)
    → IsRange start size
    → HasRange w
    → overlaps w start size ≡ true
    → Meets start size w
overlaps-Meets start size w r h e = elim (Bool-cases (contains_addr w start)) [
  | inl c ↦
      (start, ground (arith, r, h, e, c), ground (arith, r, h, e, c), omega arith, omega (arith, r))
  | inr c ↦ (
    w.start,
    omega arith,
    omega (arith, h),
    ground (arith, r, h, e, c),
    ground (arith, r, h, e, c),
  )
]

overlaps_not :
    (start size : ℕ) (w : Window)
    → IsRange start size
    → HasRange w
    → overlaps w start size ≡ false
    → Apart start size w ⊎ Enclosed start size w
overlaps_not start size w r h e = ground (arith, r, h, e)

not_overlaps :
    (start size : ℕ) (w : Window)
    → IsRange start size
    → HasRange w
    → Apart start size w ⊎ Enclosed start size w
    → overlaps w start size ≡ false
not_overlaps start size w r h e = ground (arith, r, h, e)

-- What `overlapping_window` answers, in full.
pub record Overlapping (ws : List Window) (start size : ℕ) (r : Option Window) : Type 0 where
  pub sound : (w : Window) → r ≡ some w → Among w ws × Meets start size w
  pub clear : r ≡ none → All (λ w. Apart start size w ⊎ Enclosed start size w) ws
  pub misses : All (λ w. Apart start size w ⊎ Enclosed start size w) ws → r ≡ none

overlapping_hit :
    (w : Window) (ws : List Window) (start size : ℕ)
    → overlaps w start size ≡ true
    → overlapping_in (w ∷ ws) start size ≡ some w
unfolding overlapping_in
overlapping_hit w ws start size e = rw (overlapping_in, e) refl

overlapping_miss :
    (w : Window) (ws : List Window) (start size : ℕ)
    → overlaps w start size ≡ false
    → overlapping_in (w ∷ ws) start size ≡ overlapping_in ws start size
unfolding overlapping_in
overlapping_miss w ws start size e = rw (overlapping_in, e) refl

overlapping_in-Overlapping :
    (ws : List Window) (start size : ℕ)
    → IsRange start size
    → All HasRange ws
    → Overlapping ws start size (overlapping_in ws start size)
unfolding overlapping_in
overlapping_in-Overlapping [] start size r h = record {
  sound = λ w e. absurd (cc (e));
  clear = λ e. tt;
  misses = λ a. refl;
}
overlapping_in-Overlapping (w ∷ ws) start size r h = elim (Bool-cases (overlaps w start size)) [
  | inl e ↦
      let hit = overlapping_hit w ws start size e in
      record {
        sound = λ v k.
            let same : w ≡ v = cc (hit, k) in
            (
              inl same,
              subst (λ (u : Window). Meets start size u) same (overlaps-Meets start size w r h.0 e),
            );
        clear = λ k. absurd (cc (hit, k));
        misses = λ a. absurd (false≢true (sym (not_overlaps start size w r h.0 a.0) ∙ e));
      }
  | inr e ↦
      let miss = overlapping_miss w ws start size e in
      let rest = overlapping_in-Overlapping ws start size r h.1 in
      record {
        sound = λ v k. let (a, m) = rest.sound v (sym miss ∙ k) in (inr a, m);
        clear = λ k. (overlaps_not start size w r h.0 e, rest.clear (sym miss ∙ k));
        misses = λ a. miss ∙ rest.misses a.1;
      }
]

-- `overlapping_window`, for a range and windows that are not empty and do not wrap: a window that it
-- returns is one of the process' and shares an address with the range; and it returns none exactly
-- where each window is apart from the range, or begins inside the range and ends no later than the
-- range, so that these windows are missed.
pub overlapping_window-Overlapping :
    (p : UserProcess) (start size : ℕ)
    → IsRange start size
    → All HasRange p.windows
    → Overlapping p.windows start size (overlapping_window p start size)
unfolding overlapping_window
overlapping_window-Overlapping p start size r h =
    overlapping_in-Overlapping p.windows start size r h
