-- ===== src/RootServer/Windows.antt =====
-- crates/root_server/src/window.rs and the windows of proc.rs: the ranges of a process' address
-- space in which a view can be placed.
pub mod Overlap
pub mod Create
pub mod Remove
pub mod Find
use smos_thesis.Base.{
  ℕ, zero, suc, ◌+◌, ◌-◌, ◌%◌, ◌^◌, List, [], ◌∷◌, ◌++◌, Bool, true, false, ◌&&◌, ◌||◌, Option,
  none, some, Result, ok, err, Run, ret, panic, ◌>>=◌, unwrap, ltb, leb, ◌==◌, if◌then◌else◌, not,
  get_elem?, set,
}
use smos_thesis.Common.Errors.{InvocationError}
use smos_thesis.Server.Handles.{ServerHandle, HandleCapability, Tables, generic_allocate_handle}
use smos_thesis.Server.Reply.{HandleOrHandleCap, handle, handle_cap}
use smos_thesis.RootServer.Kernel.{page_size_4k}

-- A window is shared by reference; `id` is the reference, and `bound_view` that of a view.
pub record Window : Type 0 where
  pub id : ℕ
  pub start : ℕ
  pub size : ℕ
  pub bound_view : Option ℕ

-- What the handles of the root server's clients name, as far as windows go.
pub data RootServerResource : Type 0 where
  window : Window → RootServerResource
  other_resource : ℕ → RootServerResource

-- The part of a process that the handlers of windows use.
pub record UserProcess : Type 0 where
  pub initial_windows : List Window
  pub windows : List Window
  pub tables : Tables RootServerResource
  pub created_handle_caps : List ℕ

-- `+` on `usize`
abbrev pub add_word : ℕ → ℕ → ℕ
add_word a b = (a + b) % 2 ^ 64

abbrev pub contains_addr : Window → ℕ → Bool
contains_addr w vaddr = leb w.start vaddr && ltb vaddr (add_word w.start w.size)

abbrev pub overlaps : Window → ℕ → ℕ → Bool
overlaps w start size =
    contains_addr w start
    || (ltb w.start (add_word start size) && ltb (add_word start size) (add_word w.start w.size))

unfoldable pub overlapping_in : List Window → ℕ → ℕ → Option Window
overlapping_in [] start size = none
overlapping_in (w ∷ ws) start size =
    let rest = overlapping_in ws start size in if overlaps w start size then some w else rest

unfoldable pub overlapping_window : UserProcess → ℕ → ℕ → Option Window
overlapping_window p start size = overlapping_in p.windows start size

unfoldable pub containing_in : List Window → ℕ → Option Window
containing_in [] vaddr = none
containing_in (w ∷ ws) vaddr =
    let rest = containing_in ws vaddr in if contains_addr w vaddr then some w else rest

unfoldable pub find_window_containing : UserProcess → ℕ → Option Window
find_window_containing p vaddr = elim (containing_in p.initial_windows vaddr) [
  | some w ↦ some w
  | none ↦ containing_in p.windows vaddr
]

unfoldable pub add_window_unchecked : UserProcess → Window → UserProcess
add_window_unchecked p w = record p { windows = p.windows ++ w ∷ [] }

-- The elements but the last, and the last.
abbrev pub drop_last {ℓ} : {A : Type ℓ} → List A → List A
drop_last [] = []
drop_last (x ∷ []) = []
drop_last (x ∷ y ∷ ys) = x ∷ drop_last (y ∷ ys)

abbrev pub last_of {ℓ} : {A : Type ℓ} → A → List A → A
last_of x [] = x
last_of x (y ∷ ys) = last_of y ys

-- `Vec::swap_remove`: the last element takes the place of the one removed.
unfoldable pub swap_remove {ℓ} : {A : Type ℓ} → List A → ℕ → List A
swap_remove [] i = []
swap_remove (x ∷ xs) i = drop_last (set (x ∷ xs) i (last_of x xs))

-- `position` of a reference.
unfoldable pub position : List Window → ℕ → Option ℕ
position [] id = none
position (w ∷ ws) id =
    let rest = position ws id in
    if w.id == id then some 0 else elim rest [ none ↦ none | some i ↦ some (suc i) ]

unfoldable pub remove_window : UserProcess → Window → UserProcess
remove_window p w = elim (position p.windows w.id) [
  | none ↦ p
  | some i ↦ record p { windows = swap_remove p.windows i }
]

-- The rest of `handle_window_create`, with the slot `idx` that was allocated: the slot gets the
-- window, and an index that names a capability is recorded.
unfoldable pub install_window : UserProcess → Window → Bool → ℕ → UserProcess
install_window p w true idx =
    add_window_unchecked
      (record p {
        tables = record p.tables {
          handle_cap_table = elim (get_elem? p.tables.handle_cap_table idx) [
            | none ↦ p.tables.handle_cap_table
            | some c ↦
                set p.tables.handle_cap_table idx
                  (record c { handle = some (record { inner = window w }) })
          ];
        };
        created_handle_caps = p.created_handle_caps ++ idx ∷ [];
      })
      w
install_window p w false idx =
    add_window_unchecked
      (record p {
        tables = record p.tables {
          handle_table = set p.tables.handle_table idx (some (record { inner = window w }));
        };
      })
      w

abbrev pub returned_handle : Bool → ℕ → Option ℕ → Run HandleOrHandleCap
returned_handle true idx cptr = unwrap cptr >>= λ c. ret (handle_cap c)
returned_handle false idx cptr = ret (handle idx)

-- `id` is the reference of the window that is made.
unfoldable pub handle_window_create :
    UserProcess → ℕ → ℕ → ℕ → Bool → Run (Result InvocationError HandleOrHandleCap × UserProcess)
handle_window_create p id base_vaddr size return_cap =
    if not (base_vaddr % page_size_4k == 0)
    then ret (err (InvocationError.alignment_error 0), p)
    else elim (overlapping_window p base_vaddr size) [
      | some w ↦ ret (err InvocationError.invalid_arguments, p)
      | none ↦ elim (generic_allocate_handle p.tables return_cap) [
        | err e ↦ ret (err e, p)
        | ok (idx, cptr) ↦ returned_handle return_cap idx cptr >>= λ h. ret (
          ok h,
          install_window p (record { id = id; start = base_vaddr; size = size; bound_view = none })
              return_cap idx,
        )
      ]
    ]
