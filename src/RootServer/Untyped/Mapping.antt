-- ===== src/RootServer/Untyped/Mapping.antt =====
-- crates/root_server/src/mapping.rs: frames are mapped, with the page tables that are missing.
use smos_thesis.Base.{
  ℕ, zero, suc, ◌+◌, ◌-◌, ◌/◌, ◌^◌, Bool, true, false, Option, none, some, Result, ok, err, Run,
  ret, panic, ltb, ◌==◌, if◌then◌else◌,
}
use smos_thesis.RootServer.Kernel.{SelError, failed_lookup, invalid_capability, page_size_4k}
use smos_thesis.RootServer.Untyped.{
  UtTable, Op, done, refuse, ◌>>=◌, alloc_4k_untyped, alloc_4k_device,
}

-- What an untyped becomes; the other objects have their numbers.
pub data ObjectBlueprint : Type 0 where
  untyped : (size_bits : ℕ) → ObjectBlueprint
  small_page pt : ObjectBlueprint
  object : ℕ → ObjectBlueprint

-- The cspace and the kernel: an untyped's capability is retyped into a slot, and a frame's or a page
-- table's is mapped into a vspace at an address. The cspace may panic.
pub record Services (World : Type 0) : Type 0 where
  pub alloc_slot : World → Run (Result SelError ℕ × World)
  pub free_slot : ℕ → World → Run World
  pub delete : ℕ → World → Result SelError (Unit {0}) × World
  pub untyped_retype : ℕ → ObjectBlueprint → ℕ → World → Result SelError (Unit {0}) × World
  pub frame_map :
      (frame vspace vaddr rights attributes : ℕ) → World → Result SelError (Unit {0}) × World
  pub pt_map : (pt_slot vspace vaddr attributes : ℕ) → World → Result SelError (Unit {0}) × World

abbrev pub mapping_slots : ℕ
mapping_slots = 3

-- `VmAttributes::DEFAULT` and `NONE`, `CapRightsBuilder::all()`, and `init_thread::slot::VSPACE`.
abbrev pub default_attributes : ℕ
default_attributes = 1

abbrev pub all_rights : ℕ
all_rights = 15

abbrev no_attributes : ℕ
no_attributes = 0

abbrev pub init_vspace : ℕ
init_vspace = 3

abbrev pub is_failed_lookup : Result SelError (Unit {0}) → Bool
is_failed_lookup (ok u) = false
is_failed_lookup (err failed_lookup) = true
is_failed_lookup (err e) = false

abbrev pub used_slots : Option (ℕ → ℕ) → ℕ → ℕ → ℕ
used_slots none i used = used
used_slots (some slots) i used = used + 2 ^ i

module _ {World : Type 0} where
  abbrev pub mapped : Result SelError (Unit {0}) → ℕ → Op World ℕ
  mapped (ok u) used = done used
  mapped (err e) used = refuse e

  -- A call of the kernel.
  abbrev pub call : {A : Type 0} → (World → Result SelError A × World) → Op World A
  call f t = let (r, w) = f t.world in ret (r, record t { world = w })

  -- A call of the cspace.
  abbrev pub ask : {A : Type 0} → (World → Run (Result SelError A × World)) → Op World A
  ask f t = elim (f t.world) [ panic ↦ panic | ret (r, w) ↦ ret (r, record t { world = w }) ]

  abbrev pub tell : (World → Run World) → Op World (Unit {0})
  tell f t = elim (f t.world) [ panic ↦ panic | ret w ↦ ret (ok tt, record t { world = w }) ]

  -- The result of a call, as a value.
  abbrev pub outcome :
      {A : Type 0} → (World → Result SelError A × World) → Op World (Result SelError A)
  outcome f t = let (r, w) = f t.world in ret (ok r, record t { world = w })

module _ {World : Type 0} (s : Services World) where
  unfoldable pub retype_map_pt :
      (vspace vaddr ut pt_slot : ℕ) → World → Result SelError (Unit {0}) × World
  retype_map_pt vspace vaddr ut pt_slot w =
      let (r, w') = s.untyped_retype ut ObjectBlueprint.pt pt_slot w in
      elim r [ ok u ↦ s.pt_map pt_slot vspace vaddr default_attributes w' | err e ↦ (err e, w') ]

  -- The page table, and then the frame once more.
  unfoldable pub map_once_more :
      (frame vspace vaddr rights attributes ut pt_slot : ℕ)
      → World
      → Result SelError (Unit {0}) × World
  unfolding retype_map_pt
  map_once_more frame vspace vaddr rights attributes ut pt_slot w =
      let (r, w') = retype_map_pt vspace vaddr ut pt_slot w in
      elim r [ ok u ↦ s.frame_map frame vspace vaddr rights attributes w' | err e ↦ (err e, w') ]

  abbrev pub next_slot : Option (ℕ → ℕ) → ℕ → Op World ℕ
  next_slot none i = ask s.alloc_slot
  next_slot (some slots) i = done (slots i)

  -- The loop of `map_frame` from `i` on, with `left` of its rounds left.
  unfoldable pub map_loop :
      (left i used : ℕ)
      → Result SelError (Unit {0})
      → (frame vspace vaddr rights attributes : ℕ) → Option (ℕ → ℕ)
      → Op World ℕ
  unfolding map_once_more
  map_loop zero i used r frame vspace vaddr rights attributes free_slots = mapped r used
  map_loop (suc left) i used r frame vspace vaddr rights attributes free_slots =
      if is_failed_lookup r
      then (alloc_4k_untyped >>= λ out. next_slot free_slots i >>= λ slot.
          (if slot == 0
            then refuse invalid_capability
            else ((λ t.
                  outcome
                    (map_once_more frame vspace vaddr rights attributes (t.uts out.1).cap slot) t)
                >>= λ r'.
                    map_loop left (i + 1) (used_slots free_slots i used) r' frame vspace vaddr
                      rights attributes free_slots)))
      else mapped r used

  unfoldable pub map_frame :
      (frame vspace vaddr rights attributes : ℕ) → Option (ℕ → ℕ) → Op World ℕ
  unfolding map_loop
  map_frame frame vspace vaddr rights attributes free_slots =
      outcome (s.frame_map frame vspace vaddr rights attributes) >>= λ r.
      map_loop mapping_slots 0 0 r frame vspace vaddr rights attributes free_slots

  -- One page of `map_device`.
  unfoldable pub map_device_page : (curr device_virt : ℕ) → Op World ℕ
  unfolding map_frame
  map_device_page curr device_virt = alloc_4k_device curr >>= λ ut.
      ask s.alloc_slot >>= λ frame_cptr.
      (λ t. call (s.untyped_retype (t.uts ut).cap small_page frame_cptr) t) >>= λ u.
      map_frame frame_cptr init_vspace device_virt all_rights no_attributes none

  -- Its loop, with the static `DEVICE_VIRT`, which is returned as well.
  unfoldable pub map_device_pages :
      (n curr device_virt : ℕ)
      → UtTable World
      → Run (Result SelError (Unit {0}) × ℕ × UtTable World)
  unfolding map_device_page
  map_device_pages zero curr device_virt t = ret (ok tt, device_virt, t)
  map_device_pages (suc n) curr device_virt t =
      let rest = map_device_pages n (curr + page_size_4k) (device_virt + page_size_4k) in
      elim (map_device_page curr device_virt t) [
        | panic ↦ panic
        | ret (ok used, t') ↦ if ltb (device_virt + page_size_4k) (2 ^ 64) then rest t' else panic
        | ret (err e, t') ↦ ret (err e, device_virt, t')
      ]

  abbrev mapped_from :
      ℕ
      → Run (Result SelError (Unit {0}) × ℕ × UtTable World)
      → Run (Result SelError ℕ × ℕ × UtTable World)
  mapped_from vstart panic = panic
  mapped_from vstart (ret (ok u, device_virt, t)) = ret (ok vstart, device_virt, t)
  mapped_from vstart (ret (err e, device_virt, t)) = ret (err e, device_virt, t)

  unfoldable pub map_device :
      (paddr size device_virt : ℕ) → UtTable World → Run (Result SelError ℕ × ℕ × UtTable World)
  unfolding map_device_pages
  map_device paddr size device_virt t =
      if ltb (paddr + size) (2 ^ 64)
      then mapped_from device_virt
          (map_device_pages ((size + (page_size_4k - 1)) / page_size_4k) paddr device_virt t)
      else panic
