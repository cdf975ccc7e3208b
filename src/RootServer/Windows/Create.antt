-- ===== src/RootServer/Windows/Create.antt =====
-- `handle_window_create` on each branch, and the windows of a process as ranges apart from each
-- other.
use smos_thesis.Base.{
  ℕ, ◌%◌, ◌≡◌, ◌≢◌, ◌⊎◌, refl, sym, ap, ◌∙◌, List, [], ◌∷◌, ◌++◌, Bool, true, false, Option, none,
  some, Option-cases, inl, inr, arith, ◌==◌, Bool-cases, Result, ok, err, Result-cases, Run, ret,
  panic, Run-cases,
}
use smos_thesis.Common.Errors.{InvocationError}
use smos_thesis.Server.Handles.{generic_allocate_handle}
use smos_thesis.Server.Reply.{HandleOrHandleCap, handle}
use smos_thesis.RootServer.Kernel.{page_size_4k}
use smos_thesis.RootServer.Windows.{
  Window, UserProcess, overlapping_window, install_window, returned_handle, add_window_unchecked,
  handle_window_create,
}
use smos_thesis.RootServer.Windows.Overlap.{
  All, Among, IsRange, HasRange, Apart, Enclosed, Meets, overlapping_window-Overlapping,
}

-- The window that a call makes.
abbrev pub made : ℕ → ℕ → ℕ → Window
made id start size = record { id = id; start = start; size = size; bound_view = none }

-- The outcomes of `handle_window_create`.
pub data Creates (p : UserProcess) (id start size : ℕ) (return_cap : Bool)
    (r : Run (Result InvocationError HandleOrHandleCap × UserProcess)) : Type 0 where
  misaligned :
      start % page_size_4k ≢ 0
      → r ≡ ret (err (InvocationError.alignment_error 0), p)
      → Creates p id start size return_cap r
  overlapping :
      (w : Window)
      → Among w p.windows
      → Meets start size w
      → r ≡ ret (err InvocationError.invalid_arguments, p)
      → Creates p id start size return_cap r
  no_handle :
      (e : InvocationError)
      → generic_allocate_handle p.tables return_cap ≡ err e
      → r ≡ ret (err e, p)
      → Creates p id start size return_cap r
  no_cap :
      (idx : ℕ)
      → generic_allocate_handle p.tables return_cap ≡ ok (idx, none)
      → r ≡ panic
      → Creates p id start size return_cap r
  created :
      (h : HandleOrHandleCap) (idx : ℕ) (cptr : Option ℕ) (p' : UserProcess)
      → r ≡ ret (ok h, p')
      → start % page_size_4k ≡ 0
      → generic_allocate_handle p.tables return_cap ≡ ok (idx, cptr)
      → returned_handle return_cap idx cptr ≡ ret h
      → All (λ w. Apart start size w ⊎ Enclosed start size w) p.windows
      → p'.windows ≡ p.windows ++ made id start size ∷ []
      → p'.initial_windows ≡ p.initial_windows
      → Creates p id start size return_cap r

cap_missing :
    (return_cap : Bool) (idx : ℕ) (cptr : Option ℕ)
    → returned_handle return_cap idx cptr ≡ panic
    → cptr ≡ none
cap_missing false idx cptr e = absurd (cc (e))
cap_missing true idx none e = refl
cap_missing true idx (some c) e = absurd (cc (e))

installed_windows :
    (p : UserProcess) (w : Window) (return_cap : Bool) (idx : ℕ)
    → ((install_window p w return_cap idx).windows ≡ p.windows ++ w ∷ [])
      × ((install_window p w return_cap idx).initial_windows ≡ p.initial_windows)
unfolding install_window add_window_unchecked
installed_windows p w true idx = (refl, refl)
installed_windows p w false idx = (refl, refl)

module _ (p : UserProcess) (id start size : ℕ) (return_cap : Bool) where
  abbrev outcome : Run (Result InvocationError HandleOrHandleCap × UserProcess)
  outcome = handle_window_create p id start size return_cap

  with_handle :
      (idx : ℕ) (cptr : Option ℕ)
      → start % page_size_4k ≡ 0
      → overlapping_window p start size ≡ none
      → All (λ w. Apart start size w ⊎ Enclosed start size w) p.windows
      → generic_allocate_handle p.tables return_cap ≡ ok (idx, cptr)
      → Creates p id start size return_cap outcome
  unfolding handle_window_create
  with_handle idx cptr al none_found clear g =
      let ok_al : (start % page_size_4k == 0) ≡ true = ground arith in
      elim (Run-cases (returned_handle return_cap idx cptr)) [
        | inl e ↦
            no_cap idx (g ∙ ap (λ (c : Option ℕ). ok (idx, c)) (cap_missing return_cap idx cptr e))
              (rw (handle_window_create, ok_al, none_found, g, e) refl)
        | inr (h, e) ↦
            let (ws, is) = installed_windows p (made id start size) return_cap idx in
            created h idx cptr (install_window p (made id start size) return_cap idx)
              (rw (handle_window_create, ok_al, none_found, g, e) refl) al g e clear ws is
      ]

  pub handle_window_create-Creates :
      IsRange start size → All HasRange p.windows → Creates p id start size return_cap outcome
  unfolding handle_window_create
  handle_window_create-Creates r h = elim (Bool-cases (start % page_size_4k == 0)) [
    | inr ne ↦ misaligned (ground arith) (rw (handle_window_create, ne) refl)
    | inl al ↦
        let o = overlapping_window-Overlapping p start size r h in
        elim (Option-cases (overlapping_window p start size)) [
          | inl none_found ↦ elim (Result-cases (generic_allocate_handle p.tables return_cap)) [
            | inl (e, g) ↦ no_handle e g (rw (handle_window_create, al, none_found, g) refl)
            | inr ((idx, cptr), g) ↦
                with_handle idx cptr (ground arith) none_found (o.clear none_found) g
          ]
          | inr (w, found) ↦
              let (a, m) = o.sound w found in
              overlapping w a m (rw (handle_window_create, al, found) refl)
        ]
  ]

-- No two of these windows have an address in common.
abbrev pub Separate : List Window → Type 0
Separate [] = Unit
Separate (w ∷ ws) = All (λ v. Apart w.start w.size v) ws × Separate ws

All-append :
    (P : Window → Type 0) (ws : List Window) (w : Window) → All P ws → P w → All P (ws ++ w ∷ [])
All-append P [] w a b = (b, tt)
All-append P (v ∷ ws) w a b = (a.0, All-append P ws w a.1 b)

Apart_sym :
    (start size : ℕ) (w : Window) (id : ℕ)
    → Apart start size w
    → Apart w.start w.size (made id start size)
Apart_sym start size w id (inl h) = inr h
Apart_sym start size w id (inr h) = inl h

Separate-append :
    (id start size : ℕ) (ws : List Window)
    → All (λ w. Apart start size w ⊎ Enclosed start size w) ws
    → All (λ w. ¬ Enclosed start size w) ws
    → Separate ws
    → Separate (ws ++ made id start size ∷ [])
Separate-append id start size [] c n s = (tt, tt)
Separate-append id start size (w ∷ ws) c n s =
    let apart : Apart start size w = elim c.0 [ inl a ↦ a | inr e ↦ absurd (n.0 e) ] in
    (
      All-append (λ v. Apart w.start w.size v) ws (made id start size) s.0
          (Apart_sym start size w id apart),
      Separate-append id start size ws c.1 n.1 s.1,
    )

-- Where the windows of a process are separate, and no one of them lies in the range of a new window
-- beginning after it, a successful `handle_window_create` leaves them separate.
pub handle_window_create-Separate :
    (p p' : UserProcess) (id start size : ℕ) (return_cap : Bool) (h : HandleOrHandleCap)
    → IsRange start size
    → All HasRange p.windows
    → Separate p.windows
    → All (λ w. ¬ Enclosed start size w) p.windows
    → handle_window_create p id start size return_cap ≡ ret (ok h, p')
    → Separate p'.windows × All HasRange p'.windows
handle_window_create-Separate p p' id start size return_cap h r hs sep n e =
    elim (handle_window_create-Creates p id start size return_cap r hs) [
      | misaligned ne k ↦ absurd (cc (e, k))
      | overlapping w a m k ↦ absurd (cc (e, k))
      | no_handle er g k ↦ absurd (cc (e, k))
      | no_cap idx g k ↦ absurd (cc (e, k))
      | created h' idx cptr p'' k al g q clear ws is ↦
          let same : p'' ≡ p' = cc (e, k) in
          let now : p'.windows ≡ p.windows ++ made id start size ∷ [] =
            ap (λ (x : UserProcess). x.windows) (sym same) ∙ ws in
          rw now (
            Separate-append id start size p.windows clear n sep,
            All-append HasRange p.windows (made id start size) hs r,
          )
    ]

All-map :
    (P Q : Window → Type 0) (ws : List Window) → ((w : Window) → P w → Q w) → All P ws → All Q ws
All-map P Q [] f a = tt
All-map P Q (w ∷ ws) f a = (f w a.0, All-map P Q ws f a.1)

-- A page-aligned range around every window of the process, beginning before each, is accepted where
-- the handle table has a free slot: the new window joins those that it overlaps.
pub handle_window_create_enclosing :
    (p : UserProcess) (id start size idx : ℕ)
    → IsRange start size
    → All HasRange p.windows
    → start % page_size_4k ≡ 0
    → All (Enclosed start size) p.windows
    → generic_allocate_handle p.tables false ≡ ok (idx, none)
    → (p' : UserProcess) × (handle_window_create p id start size false ≡ ret (ok (handle idx), p'))
      × (p'.windows ≡ p.windows ++ made id start size ∷ [])
unfolding handle_window_create
handle_window_create_enclosing p id start size idx r hs al around g =
    let o = overlapping_window-Overlapping p start size r hs in
    let missed = o.misses (
      All-map (Enclosed start size) (λ w. Apart start size w ⊎ Enclosed start size w) p.windows
        (λ w e. inr e) around) in
    let ok_al : (start % page_size_4k == 0) ≡ true = ground arith in
    (
      install_window p (made id start size) false idx,
      rw (handle_window_create, ok_al, missed, g) refl,
      (installed_windows p (made id start size) false idx).0,
    )
