-- ===== src/RootServer/Untyped/Alloc/Panics.antt =====
-- The panics of the cspace that an allocation may run into, and the calls that lead there.
use mathlib.Core.Path.{subst}
use smos_thesis.Base.{ℕ, ◌≡◌, refl, Result, Result-cases, ret, panic, inl, inr}
use smos_thesis.RootServer.Kernel.{SelError}
use smos_thesis.RootServer.Untyped.Mapping.{
  ObjectBlueprint, Services, retype_map_pt, map_once_more, default_attributes,
}

-- A call of the cspace panics, in a world to which the calls of the cspace and of the kernel lead.
pub data CspacePanics {World : Type 0} (s : Services World) : World → Type 0 where
  alloc_slot_panics : (w : World) → s.alloc_slot w ≡ panic → CspacePanics s w
  free_slot_panics : (slot : ℕ) (w : World) → s.free_slot slot w ≡ panic → CspacePanics s w
  after_alloc_slot :
      (w w' : World) (r : Result SelError ℕ)
      → s.alloc_slot w ≡ ret (r, w')
      → CspacePanics s w'
      → CspacePanics s w
  after_free_slot :
      (slot : ℕ) (w w' : World) → s.free_slot slot w ≡ ret w' → CspacePanics s w' → CspacePanics s w
  after_delete : (slot : ℕ) (w : World) → CspacePanics s (s.delete slot w).1 → CspacePanics s w
  after_retype :
      (ut : ℕ) (b : ObjectBlueprint) (slot : ℕ) (w : World)
      → CspacePanics s (s.untyped_retype ut b slot w).1
      → CspacePanics s w
  after_frame_map :
      (frame vspace vaddr rights attributes : ℕ) (w : World)
      → CspacePanics s (s.frame_map frame vspace vaddr rights attributes w).1
      → CspacePanics s w
  after_pt_map :
      (pt_slot vspace vaddr attributes : ℕ) (w : World)
      → CspacePanics s (s.pt_map pt_slot vspace vaddr attributes w).1
      → CspacePanics s w

module _ {World : Type 0} (s : Services World) (frame vspace vaddr rights attributes : ℕ) where
  retype_map_pt-Reached :
      (ut pt_slot : ℕ) (w : World)
      → CspacePanics s (retype_map_pt s vspace vaddr ut pt_slot w).1
      → CspacePanics s w
  unfolding retype_map_pt
  retype_map_pt-Reached ut pt_slot w x =
      let r = s.untyped_retype ut ObjectBlueprint.pt pt_slot w in
      after_retype ut ObjectBlueprint.pt pt_slot w (elim (Result-cases r.0) [
        | inl (e, is) ↦ subst (λ w'. CspacePanics s w') (rw (retype_map_pt, is) refl) x
        | inr (u, is) ↦
            after_pt_map pt_slot vspace vaddr default_attributes r.1
              (subst (λ w'. CspacePanics s w') (rw (retype_map_pt, is) refl) x)
      ])

  pub map_once_more-Reached :
      (ut pt_slot : ℕ) (w : World)
      → CspacePanics s (map_once_more s frame vspace vaddr rights attributes ut pt_slot w).1
      → CspacePanics s w
  unfolding map_once_more
  map_once_more-Reached ut pt_slot w x =
      let r = retype_map_pt s vspace vaddr ut pt_slot w in
      retype_map_pt-Reached ut pt_slot w (elim (Result-cases r.0) [
        | inl (e, is) ↦ subst (λ w'. CspacePanics s w') (rw (map_once_more, is) refl) x
        | inr (u, is) ↦
            after_frame_map frame vspace vaddr rights attributes r.1
              (subst (λ w'. CspacePanics s w') (rw (map_once_more, is) refl) x)
      ])
