-- ===== src/Tests/WindowRuns.antt =====
-- A process with two windows.
use smos_thesis.Base.{◌≡◌, refl, [], ◌∷◌, false, none, inl, arith, ok, ret}
use smos_thesis.Server.Handles.{Tables, allocate_handle, generic_allocate_handle}
use smos_thesis.Server.Reply.{handle}
use smos_thesis.RootServer.Windows.{
  Window, UserProcess, RootServerResource, overlapping_window, overlapping_in, handle_window_create,
  install_window, find_window_containing,
}
use smos_thesis.RootServer.Windows.Overlap.{
  All, HasRange, Enclosed, Overlapping, overlapping_window-Overlapping,
}
use smos_thesis.RootServer.Windows.Create.{
  made, Separate, handle_window_create-Separate, handle_window_create_enclosing,
}
use smos_thesis.RootServer.Windows.Find.{FindsWindow, find_window_containing-FindsWindow}

abbrev low : Window
low = record { id = 1; start = 0x10000; size = 0x2000; bound_view = none }

abbrev high : Window
high = record { id = 2; start = 0x20000; size = 0x1000; bound_view = none }

abbrev free_tables : Tables RootServerResource
free_tables = record { handle_table = none ∷ none ∷ []; handle_cap_table = [] }

abbrev process : UserProcess
process = record {
  initial_windows = [];
  windows = low ∷ high ∷ [];
  tables = free_tables;
  created_handle_caps = [];
}

ranges : All HasRange process.windows
ranges = ((omega arith, omega arith), ((omega arith, omega arith), tt))

separate : Separate process.windows
separate = ((inl (omega arith), tt), (tt, tt))

overlapping_window-Overlapping_example :
    Overlapping process.windows 0x11000 0x1000 (overlapping_window process 0x11000 0x1000)
overlapping_window-Overlapping_example =
    overlapping_window-Overlapping process 0x11000 0x1000 (omega arith, omega arith) ranges

creates_third :
    handle_window_create process 3 0x30000 0x1000 false
    ≡ ret (ok (handle 0), install_window process (made 3 0x30000 0x1000) false 0)
unfolding handle_window_create overlapping_window generic_allocate_handle allocate_handle
    overlapping_in
creates_third = refl

not_after_low : ¬ Enclosed 0x30000 0x1000 low
not_after_low e = absurd (omega (arith, e.0))

not_after_high : ¬ Enclosed 0x30000 0x1000 high
not_after_high e = absurd (omega (arith, e.0))

handle_window_create-Separate_example :
    Separate (install_window process (made 3 0x30000 0x1000) false 0).windows
    × All HasRange (install_window process (made 3 0x30000 0x1000) false 0).windows
handle_window_create-Separate_example =
    handle_window_create-Separate process (install_window process (made 3 0x30000 0x1000) false 0) 3
      0x30000 0x1000 false (handle 0) (omega arith, omega arith) ranges separate
      (not_after_low, (not_after_high, tt)) creates_third

allocates_0 : generic_allocate_handle free_tables false ≡ ok (0, none)
unfolding generic_allocate_handle allocate_handle
allocates_0 = refl

-- A range from 0 on is around both windows.
handle_window_create_enclosing_example :
    (p' : UserProcess) × (handle_window_create process 3 0 0x100000 false ≡ ret (ok (handle 0), p'))
    × (p'.windows ≡ low ∷ high ∷ made 3 0 0x100000 ∷ [])
handle_window_create_enclosing_example =
    handle_window_create_enclosing process 3 0 0x100000 0 (omega arith, omega arith) ranges refl
      ((omega arith, omega arith), ((omega arith, omega arith), tt)) allocates_0

find_window_containing-FindsWindow_example :
    FindsWindow process 0x20010 (find_window_containing process 0x20010)
find_window_containing-FindsWindow_example =
    find_window_containing-FindsWindow process 0x20010 tt ranges
