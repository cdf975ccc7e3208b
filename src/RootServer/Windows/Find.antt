-- ===== src/RootServer/Windows/Find.antt =====
-- The window at an address.
use mathlib.Core.Path.{subst}
use smos_thesis.Base.{
  ℕ, ◌+◌, ◌≤◌, ◌<◌, ◌≡◌, ◌⊎◌, refl, sym, ap, ◌∙◌, List, [], ◌∷◌, true, false, Option, none, some,
  Option-cases, inl, inr, arith, Bool-cases,
}
use smos_thesis.RootServer.Windows.{
  Window, UserProcess, containing_in, find_window_containing, contains_addr,
}
use smos_thesis.RootServer.Windows.Overlap.{All, Among, HasRange}

abbrev pub Contains : ℕ → Window → Type 0
Contains vaddr w = (w.start ≤ vaddr) × (vaddr < w.start + w.size)

abbrev pub Outside : ℕ → Window → Type 0
Outside vaddr w = (vaddr < w.start) ⊎ (w.start + w.size ≤ vaddr)

-- The search of a list of windows.
pub record Finds (ws : List Window) (vaddr : ℕ) (r : Option Window) : Type 0 where
  pub sound : (w : Window) → r ≡ some w → Among w ws × Contains vaddr w
  pub complete : r ≡ none → All (Outside vaddr) ws

containing_hit :
    (w : Window) (ws : List Window) (vaddr : ℕ)
    → contains_addr w vaddr ≡ true
    → containing_in (w ∷ ws) vaddr ≡ some w
unfolding containing_in
containing_hit w ws vaddr e = rw (containing_in, e) refl

containing_miss :
    (w : Window) (ws : List Window) (vaddr : ℕ)
    → contains_addr w vaddr ≡ false
    → containing_in (w ∷ ws) vaddr ≡ containing_in ws vaddr
unfolding containing_in
containing_miss w ws vaddr e = rw (containing_in, e) refl

containing_in-Finds :
    (ws : List Window) (vaddr : ℕ) → All HasRange ws → Finds ws vaddr (containing_in ws vaddr)
unfolding containing_in
containing_in-Finds [] vaddr h = record { sound = λ w e. absurd (cc (e)); complete = λ e. tt }
containing_in-Finds (w ∷ ws) vaddr h = elim (Bool-cases (contains_addr w vaddr)) [
  | inl e ↦
      let hit = containing_hit w ws vaddr e in
      let range = h.0 in
      let inside : Contains vaddr w = ground (arith, e, range) in
      record {
        sound = λ v k.
            let same : w ≡ v = cc (hit, k) in
            (inl same, subst (λ (u : Window). Contains vaddr u) same inside);
        complete = λ k. absurd (cc (hit, k));
      }
  | inr e ↦
      let miss = containing_miss w ws vaddr e in
      let rest = containing_in-Finds ws vaddr h.1 in
      let range = h.0 in
      record {
        sound = λ v k. let (a, m) = rest.sound v (sym miss ∙ k) in (inr a, m);
        complete = λ k. (ground (arith, e, range), rest.complete (sym miss ∙ k));
      }
]

-- The search of the initial windows, then of the created ones.
pub record FindsWindow (p : UserProcess) (vaddr : ℕ) (r : Option Window) : Type 0 where
  pub sound :
      (w : Window) → r ≡ some w → (Among w p.initial_windows ⊎ Among w p.windows) × Contains vaddr w
  pub complete : r ≡ none → All (Outside vaddr) p.initial_windows × All (Outside vaddr) p.windows

find_initial :
    (p : UserProcess) (vaddr : ℕ) (w : Window)
    → containing_in p.initial_windows vaddr ≡ some w
    → find_window_containing p vaddr ≡ some w
unfolding find_window_containing
find_initial p vaddr w e = rw (find_window_containing, e) refl

find_created :
    (p : UserProcess) (vaddr : ℕ)
    → containing_in p.initial_windows vaddr ≡ none
    → find_window_containing p vaddr ≡ containing_in p.windows vaddr
unfolding find_window_containing
find_created p vaddr e = rw (find_window_containing, e) refl

-- `find_window_containing`, for windows that are not empty and do not wrap: it returns a window of
-- the process that has the address, and none only where no window has it.
pub find_window_containing-FindsWindow :
    (p : UserProcess) (vaddr : ℕ)
    → All HasRange p.initial_windows
    → All HasRange p.windows
    → FindsWindow p vaddr (find_window_containing p vaddr)
find_window_containing-FindsWindow p vaddr h k =
    let i = containing_in-Finds p.initial_windows vaddr h in
    let c = containing_in-Finds p.windows vaddr k in
    elim (Option-cases (containing_in p.initial_windows vaddr)) [
      | inl e ↦
          let at_created = find_created p vaddr e in
          record {
            sound = λ w q. let (a, m) = c.sound w (sym at_created ∙ q) in (inr a, m);
            complete = λ q. (i.complete e, c.complete (sym at_created ∙ q));
          }
      | inr (w, e) ↦
          let at_initial = find_initial p vaddr w e in
          record {
            sound = λ v q.
                let same : w ≡ v = cc (at_initial, q) in
                let (a, m) = i.sound v (e ∙ ap (λ (x : Window). some x) same) in (inl a, m);
            complete = λ q. absurd (cc (at_initial, q));
          }
    ]
