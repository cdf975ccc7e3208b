-- ===== src/Tests/Untypeds.antt =====
-- The table of untyped memory with one page.
use smos_thesis.Base.{ℕ, ◌+◌, true, none, some, ok, ret}
use smos_thesis.RootServer.Untyped.{Ut, UtTable}
use smos_thesis.RootServer.Untyped.Mapping.{Services}
use smos_thesis.RootServer.Untyped.Alloc.Valid.{Place, move, pushed}
use smos_thesis.RootServer.Untyped.Alloc.Post.{Post}
use smos_thesis.RootServer.Untyped.Alloc.Served.{Served}

-- The next free slot is the state.
abbrev services : Services ℕ
services = record {
  alloc_slot = λ w. ret (ok w, w + 1);
  free_slot = λ slot w. ret w;
  delete = λ slot w. (ok tt, w);
  untyped_retype = λ ut blueprint slot w. (ok tt, w);
  frame_map = λ frame vspace vaddr rights attributes w. (ok tt, w);
  pt_map = λ pt_slot vspace vaddr attributes w. (ok tt, w);
}

abbrev page : Ut
page = record { cap = 5; valid = true; size_bits = 12; next = none }

abbrev bare : UtTable ℕ
bare = record {
  first_paddr = 0;
  untypeds = some 8192;
  free_untypeds = λ k. none;
  n_4k_untyped = 1;
  free_structures = none;
  next_free_vaddr = 16384;
  uts = λ p. page;
  world = 20;
}

abbrev nowhere : Place
nowhere p = none

abbrev no_size : ℕ → ℕ
no_size c = 0

-- The page stands at the beginning of the table.
abbrev one_page : UtTable ℕ
one_page = pushed 8192 bare nowhere no_size 8 8192

abbrev one_place : Place
one_place = move nowhere 8192 (some (8, 0))
