-- ===== src/RootServer/Windows/Remove.antt =====
-- Taking a window off a process, and finding the one at an address.
use smos_thesis.Base.{
  ℕ, ◌≡◌, ◌≢◌, refl, ap, ◌∙◌, List, [], ◌∷◌, ◌++◌, false, none, some, arith, ◌==◌, length, set,
}
use smos_thesis.RootServer.Windows.{
  Window, UserProcess, drop_last, last_of, swap_remove, position, remove_window,
}
use smos_thesis.RootServer.Windows.Overlap.{All}

-- What follows the removed window: its last element takes the window's place.
abbrev pub rotated : List Window → List Window
rotated [] = []
rotated (x ∷ xs) = last_of x xs ∷ drop_last (x ∷ xs)

last_of-append :
    (x : Window) (l : List Window) (y : Window) (r : List Window)
    → last_of x (l ++ y ∷ r) ≡ last_of y r
last_of-append x [] y r = refl
last_of-append x (z ∷ l) y r = last_of-append z l y r

drop_last-append :
    (l : List Window) (y : Window) (r : List Window)
    → drop_last (l ++ y ∷ r) ≡ l ++ drop_last (y ∷ r)
drop_last-append [] y r = refl
drop_last-append (x ∷ []) y r = refl
drop_last-append (x ∷ z ∷ l) y r = ap (λ (t : List Window). x ∷ t) (drop_last-append (z ∷ l) y r)

set-append :
    (l : List Window) (w : Window) (r : List Window) (v : Window)
    → set (l ++ w ∷ r) (length l) v ≡ l ++ v ∷ r
set-append [] w r v = refl
set-append (x ∷ l) w r v = ap (λ (t : List Window). x ∷ t) (set-append l w r v)

drop_last-rotated : (w : Window) (r : List Window) → drop_last (last_of w r ∷ r) ≡ rotated r
drop_last-rotated w [] = refl
drop_last-rotated w (y ∷ r) = refl

swap_remove-append :
    (l : List Window) (w : Window) (r : List Window)
    → swap_remove (l ++ w ∷ r) (length l) ≡ l ++ rotated r
unfolding swap_remove
swap_remove-append [] w [] = refl
swap_remove-append [] w (y ∷ r) = refl
swap_remove-append (x ∷ l) w r =
    ap (λ (t : List Window). drop_last (x ∷ t))
      (set-append l w r (last_of x (l ++ w ∷ r))
        ∙ ap (λ (v : Window). l ++ v ∷ r) (last_of-append x l w r))
    ∙ drop_last-append (x ∷ l) (last_of w r) r
    ∙ ap (λ (t : List Window). x ∷ (l ++ t)) (drop_last-rotated w r)

-- No window of these has the reference `id`.
abbrev pub Without : ℕ → List Window → Type 0
Without id ws = All (λ w. w.id ≢ id) ws

position-append :
    (l : List Window) (w : Window) (r : List Window)
    → Without w.id l
    → position (l ++ w ∷ r) w.id ≡ some (length l)
unfolding position
position-append [] w r a = ground arith
position-append (x ∷ l) w r a =
    let ne : (x.id == w.id) ≡ false = let k = a.0 in ground arith in
    rw (position, ne, position-append l w r a.1) refl

position-none : (ws : List Window) (id : ℕ) → Without id ws → position ws id ≡ none
unfolding position
position-none [] id a = refl
position-none (x ∷ ws) id a =
    let ne : (x.id == id) ≡ false = let k = a.0 in ground arith in
    rw (position, ne, position-none ws id a.1) refl

remove_window_at :
    (p : UserProcess) (w : Window) (i : ℕ)
    → position p.windows w.id ≡ some i
    → remove_window p w ≡ record p { windows = swap_remove p.windows i }
unfolding remove_window
remove_window_at p w i e = rw (remove_window, e) refl

-- `remove_window` takes off the first window with the reference: the windows before it stay, and of
-- those behind it the last takes its place. Where no window has the reference nothing changes.
pub remove_window_lem :
    (p : UserProcess) (w : Window)
    → (Without w.id p.windows → remove_window p w ≡ p)
      × ((l r : List Window)
          → p.windows ≡ l ++ w ∷ r
          → Without w.id l
          → remove_window p w ≡ record p { windows = l ++ rotated r })
unfolding remove_window
remove_window_lem p w = (
  λ a. rw (remove_window, position-none p.windows w.id a) refl,
  λ l r e a.
      remove_window_at p w (length l)
        (ap (λ (ws : List Window). position ws w.id) e ∙ position-append l w r a)
      ∙ ap (λ (ws : List Window). record p { windows = swap_remove ws (length l) }) e
      ∙ ap (λ (ws : List Window). record p { windows = ws }) (swap_remove-append l w r),
)
