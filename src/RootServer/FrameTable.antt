-- ===== src/RootServer/FrameTable.antt =====
-- crates/root_server/src/frame_table.rs: the table of physical frames, whose entries are linked
-- into a list of free frames and a list of allocated ones.
pub mod Chain
pub mod Steps
pub mod Pop
pub mod Push
pub mod Unlink
pub mod PushBack
pub mod Remove
pub mod Alloc
use smos_thesis.Base.{
  ℕ, ◌+◌, ◌-◌, ◌*◌, ◌/◌, ◌^◌, ◌≤◌, ◌<◌, Bool, true, false, ◌&&◌, Option, none, some, Result, ok,
  err, Run, ret, panic, ◌>>=◌, unwrap, assert, ltb, leb, is_none, ◌==◌, if◌then◌else◌,
}
use smos_thesis.RootServer.Kernel.{SelError, page_size_4k, inc, dec}

pub data ListId : Type 0 where
  no_list free_list allocated_list : ListId

-- References are the indices of frames.
pub record Frame : Type 0 where
  pub cap : ℕ
  pub prev : Option ℕ
  pub next : Option ℕ
  pub list_id : ListId

pub record FrameList : Type 0 where
  pub list_id : ListId
  pub first : Option ℕ
  pub last : Option ℕ
  pub len : ℕ

-- The frames are an array in memory, of which the first `capacity` are mapped.
abbrev pub Memory : Type 0
Memory = ℕ → Frame

abbrev pub write : Memory → ℕ → Frame → Memory
write m i f j = if i == j then f else m j

pub record FrameTable : Type 0 where
  pub frames : Memory
  pub capacity : ℕ
  pub used : ℕ
  pub byte_length : ℕ
  pub free : FrameList
  pub allocated : FrameList

-- `size_of::<Frame>()`: a capability of 8 bytes, two options of 8 bytes and a tag, padded.
abbrev pub frame_bytes : ℕ
frame_bytes = 32

-- `vmem_layout::FRAME_TABLE` and `FRAME_DATA`.
abbrev pub frame_table_base : ℕ
frame_table_base = 0x8100000000

abbrev pub frame_data_base : ℕ
frame_data_base = 0x8200000000

-- `try_into::<u32>().unwrap()`
abbrev pub as_u32 : ℕ → Run ℕ
as_u32 n = assert (ltb n (2 ^ 32)) (ret n)

abbrev pub eq_ref : Option ℕ → Option ℕ → Bool
eq_ref none none = true
eq_ref (some a) (some b) = a == b
eq_ref _ _ = false

abbrev pub is_no_list : ListId → Bool
is_no_list no_list = true
is_no_list _ = false

abbrev pub eq_list_id : ListId → ListId → Bool
eq_list_id no_list no_list = true
eq_list_id free_list free_list = true
eq_list_id allocated_list allocated_list = true
eq_list_id _ _ = false

-- A wrapper is the frame's index; `frame_from_ref` checks it against the capacity, and
-- `ref_from_frame` against the frames in use.
unfoldable pub frame_from_ref : FrameTable → ℕ → Run ℕ
frame_from_ref ft r = do c ← as_u32 ft.capacity; assert (ltb r c) (ret r)

unfoldable pub ref_from_frame : FrameTable → ℕ → Run ℕ
ref_from_frame ft f = assert (ltb f ft.used) (as_u32 f)

-- The address of a frame's contents.
unfoldable pub frame_data : FrameTable → ℕ → Run ℕ
frame_data ft r = do
  c ← as_u32 ft.capacity
  assert (ltb r c) (ret (frame_data_base + r * page_size_4k))

unfoldable pub set_prev : FrameTable → ℕ → Option ℕ → FrameTable
set_prev ft f prev = record ft { frames = write ft.frames f (record (ft.frames f) { prev = prev }) }

unfoldable pub set_next : FrameTable → ℕ → Option ℕ → FrameTable
set_next ft f next = record ft { frames = write ft.frames f (record (ft.frames f) { next = next }) }

unfoldable pub set_list_id : FrameTable → ℕ → ListId → FrameTable
set_list_id ft f id = record ft {
  frames = write ft.frames f (record (ft.frames f) { list_id = id });
}

unfoldable pub set_cap : FrameTable → ℕ → ℕ → FrameTable
set_cap ft f cap = record ft { frames = write ft.frames f (record (ft.frames f) { cap = cap }) }

-- The two lists by their identifiers; no other identifier names one.
unfoldable pub get_list : FrameTable → ListId → Run FrameList
get_list ft free_list = ret ft.free
get_list ft allocated_list = ret ft.allocated
get_list ft no_list = panic

unfoldable pub put_list : FrameTable → ListId → FrameList → Run FrameTable
put_list ft free_list l = ret (record ft { free = l })
put_list ft allocated_list l = ret (record ft { allocated = l })
put_list ft no_list l = panic

-- Unlinking the head from what follows it: the list becomes empty, or the next frame becomes the
-- first.
unfoldable pub detach_head : FrameTable → FrameList → ℕ → Run (FrameTable × FrameList)
detach_head ft l head =
    if eq_ref l.last l.first
    then assert (is_none (ft.frames head).next) (ret (ft, record l { last = none }))
    else (do
      next ← unwrap (ft.frames head).next
      next_frame ← frame_from_ref ft next
      ret (set_prev ft next_frame none, l))

unfoldable pub pop_head : FrameTable → ListId → FrameList → ℕ → Run (Option ℕ × FrameTable)
pop_head ft id l first = do
  head ← frame_from_ref ft first
  (ft', l') ← detach_head ft l head
  assert (is_none (ft'.frames head).prev) (
      put_list (set_prev (set_list_id (set_next ft' head none) head no_list) head none) id
        (record l' { first = (ft'.frames head).next; len = dec l'.len })
      >>= λ ft''. ret (some head, ft''))

unfoldable pub pop_front : FrameTable → ListId → Run (Option ℕ × FrameTable)
pop_front ft id = do
  l ← get_list ft id
  elim l.first [ none ↦ ret (none, ft) | some first ↦ pop_head ft id l first ]

-- The three assertions of a push.
abbrev pub is_detached : Frame → Bool
is_detached f = is_no_list f.list_id && is_none f.next && is_none f.prev

-- The old first frame, if there is one, points back to the new one.
unfoldable pub link_back : FrameTable → Option ℕ → ℕ → Run FrameTable
link_back ft none frame_ref = ret ft
link_back ft (some next_ref) frame_ref =
    frame_from_ref ft next_ref >>= λ next_frame. ret (set_prev ft next_frame (some frame_ref))

unfoldable pub push_front : FrameTable → ListId → ℕ → Run FrameTable
push_front ft id frame = assert (is_detached (ft.frames frame)) (do
  l ← get_list ft id
  frame_ref ← ref_from_frame ft frame
  let last : Option ℕ = elim l.last [ none ↦ some frame_ref | some x ↦ some x ]
  let linked = set_next ft frame l.first
  ft' ← link_back linked (linked.frames frame).next frame_ref
  put_list (set_list_id ft' frame l.list_id) id
      (record l { last = last; first = some frame_ref; len = inc l.len }))

unfoldable pub push_back : FrameTable → ListId → ℕ → Run FrameTable
push_back ft id frame = assert (is_detached (ft.frames frame)) (do
  l ← get_list ft id
  frame_ref ← ref_from_frame ft frame
  elim l.last [
    | none ↦ push_front ft id frame
    | some last_ref ↦ frame_from_ref ft last_ref >>= λ last_frame.
        put_list
          (set_list_id (set_prev (set_next ft last_frame (some frame_ref)) frame l.last) frame
            l.list_id)
          id (record l { last = some frame_ref; len = inc l.len })
  ])

-- The neighbours of a removed frame are linked to each other, or to the ends of the list.
unfoldable pub unlink_prev : FrameTable → FrameList → ℕ → Run (FrameTable × FrameList)
unlink_prev ft l frame = elim (ft.frames frame).prev [
  | none ↦ ret (ft, record l { first = (ft.frames frame).next })
  | some prev_ref ↦ frame_from_ref ft prev_ref >>= λ prev_frame.
      ret (set_next ft prev_frame (ft.frames frame).next, l)
]

unfoldable pub unlink_next : FrameTable → FrameList → ℕ → Run (FrameTable × FrameList)
unlink_next ft l frame = elim (ft.frames frame).next [
  | none ↦ ret (ft, record l { last = (ft.frames frame).prev })
  | some next_ref ↦ frame_from_ref ft next_ref >>= λ next_frame.
      ret (set_prev ft next_frame (ft.frames frame).prev, l)
]

unfoldable pub remove_frame : FrameTable → ListId → ℕ → Run FrameTable
remove_frame ft id frame = do
  l ← get_list ft id
  assert (eq_list_id (ft.frames frame).list_id l.list_id) (do
    (ft', l') ← unlink_prev ft l frame
    (ft'', l'') ← unlink_next ft' l' frame
    put_list (set_next (set_prev (set_list_id ft'' frame no_list) frame none) frame none) id
        (record l'' { len = dec l''.len }))

unfoldable pub free_frame : FrameTable → ℕ → Run FrameTable
free_frame ft frame_ref = do
  frame ← frame_from_ref ft frame_ref
  ft' ← remove_frame ft allocated_list frame
  push_front ft' free_list frame
