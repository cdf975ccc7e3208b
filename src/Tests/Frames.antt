-- ===== src/Tests/Frames.antt =====
-- A frame table of four frames.
use smos_thesis.Base.{ℕ, ◌+◌, ◌≡◌, refl, [], ◌∷◌, none, some, ok, ret, arith, ◌==◌, if◌then◌else◌}
use smos_thesis.RootServer.FrameTable.{
  ListId, free_list, allocated_list, no_list, FrameList, Memory, FrameTable, remove_frame,
  free_frame,
}
use smos_thesis.RootServer.FrameTable.Chain.{Holds}
use smos_thesis.RootServer.FrameTable.Push.{Pushed}
use smos_thesis.RootServer.FrameTable.Remove.{Removed, remove_frame-Removed, free_frame-Pushed}
use smos_thesis.RootServer.FrameTable.Alloc.{Services}

-- Frames 0, 1 and 2 are allocated, in this order, and frame 3 has the mark `last`.
abbrev frame : ListId → Memory
frame last j =
    if j == 0
    then record { cap = 10; prev = none; next = some 1; list_id = allocated_list }
    else if j == 1
    then record { cap = 11; prev = some 0; next = some 2; list_id = allocated_list }
    else if j == 2
    then record { cap = 12; prev = some 1; next = none; list_id = allocated_list }
    else record { cap = 13; prev = none; next = none; list_id = last }

abbrev three_allocated : FrameList
three_allocated = record { list_id = allocated_list; first = some 0; last = some 2; len = 3 }

-- Frame 3 is free.
abbrev four : FrameTable
four = record {
  frames = frame free_list;
  capacity = 128;
  used = 4;
  byte_length = 4096;
  free = record { list_id = free_list; first = some 3; last = some 3; len = 1 };
  allocated = three_allocated;
}

-- Frame 3 is in neither list.
abbrev one_out : FrameTable
one_out = record {
  frames = frame no_list;
  capacity = 128;
  used = 4;
  byte_length = 4096;
  free = record { list_id = free_list; first = none; last = none; len = 0 };
  allocated = three_allocated;
}

four-Holds : Holds four (3 ∷ []) (0 ∷ 1 ∷ 2 ∷ []) 0
four-Holds = record {
  free_part = record {
    named = refl;
    front = refl;
    back = refl;
    count = refl;
    chain = ground arith;
  };
  allocated_part = record {
    named = refl;
    front = refl;
    back = refl;
    count = refl;
    chain = ground arith;
  };
  within = omega arith;
  small = omega arith;
  total = refl;
}

one_out-Holds : Holds one_out [] (0 ∷ 1 ∷ 2 ∷ []) 1
one_out-Holds = record {
  free_part = record { named = refl; front = refl; back = refl; count = refl; chain = tt };
  allocated_part = record {
    named = refl;
    front = refl;
    back = refl;
    count = refl;
    chain = ground arith;
  };
  within = omega arith;
  small = omega arith;
  total = refl;
}

remove_frame-Removed_example :
    (ft' : FrameTable) × (remove_frame four allocated_list 1 ≡ ret ft')
    × Removed four (3 ∷ []) (0 ∷ 2 ∷ []) 1 1 ft'
remove_frame-Removed_example = remove_frame-Removed four (3 ∷ []) (0 ∷ []) (2 ∷ []) 1 0 four-Holds

free_frame-Pushed_example :
    (ft' : FrameTable) × (free_frame four 1 ≡ ret ft') × Pushed four (1 ∷ 3 ∷ []) (0 ∷ 2 ∷ []) 0 ft'
free_frame-Pushed_example = free_frame-Pushed four (3 ∷ []) (0 ∷ []) (2 ∷ []) 1 0 four-Holds

-- Services that hand out the next number.
abbrev counting : Services ℕ
counting = record {
  alloc_4k_untyped = λ w. ret (ok w, w + 1);
  free_ut = λ w ut. ret w;
  alloc_slot = λ w. ret (ok w, w + 1);
  free_slot = λ w slot. ret w;
  delete = λ w slot. w;
  untyped_retype = λ w ut slot. (ok tt, w);
  map_frame = λ w frame vaddr. ret (ok tt, w);
}
