-- ===== src/RootServer/Untyped.antt =====
-- crates/root_server/src/ut.rs: the table of untyped memory, with its lists by size.
pub mod Mapping
pub mod Alloc
pub mod Retype
use smos_thesis.Base.{
  ℕ, zero, suc, ◌+◌, ◌-◌, ◌*◌, ◌/◌, ◌%◌, ◌^◌, Bool, true, false, Option, none, some, Result, ok,
  err, Run, ret, panic, ltb, leb, ◌==◌, if◌then◌else◌,
}
use smos_thesis.RootServer.Kernel.{
  SelError, not_enough_memory, invalid_argument, page_bits, endpoint_bits, page_size_4k,
}

-- Sums and differences of the code that leave the 64 bits are panics.
abbrev pub checked : ℕ → Run ℕ
checked n = if ltb n (2 ^ 64) then ret n else panic

-- A capability is the number of its slot, and a pointer its address.
pub record Ut : Type 0 where
  pub cap : ℕ
  pub valid : Bool
  pub size_bits : ℕ
  pub next : Option ℕ

-- `size_of::<UT>()`
abbrev pub ut_bytes : ℕ
ut_bytes = 32

abbrev pub n_untyped_lists : ℕ
n_untyped_lists = page_bits - endpoint_bits + 1

-- The table, the memory of the structures by their addresses, which are multiples of their size apart
-- so that no two structures overlap, and the rest of the system.
pub record UtTable (World : Type 0) : Type 0 where
  pub first_paddr : ℕ
  pub untypeds : Option ℕ
  pub free_untypeds : ℕ → Option ℕ
  pub n_4k_untyped : ℕ
  pub free_structures : Option ℕ
  pub next_free_vaddr : ℕ
  pub uts : ℕ → Ut
  pub world : World

abbrev pub Op : Type 0 → Type 0 → Type 0
Op World A = UtTable World → Run (Result SelError A × UtTable World)

abbrev pub set_ut : (ℕ → Ut) → ℕ → Ut → ℕ → Ut
set_ut uts p u q = if q == p then u else uts q

abbrev pub set_list : (ℕ → Option ℕ) → ℕ → Option ℕ → ℕ → Option ℕ
set_list lists k head j = if j == k then head else lists j

-- `SIZE_BITS_TO_INDEX`: a size below the smallest is an index out of range here and a panic there, and
-- every use of it as an index panics.
abbrev pub size_bits_to_index : ℕ → ℕ
size_bits_to_index x = (x + (2 ^ 64 - endpoint_bits)) % 2 ^ 64

module _ {World : Type 0} where
  abbrev pub done : {A : Type 0} → A → Op World A
  done a t = ret (ok a, t)

  abbrev pub refuse : {A : Type 0} → SelError → Op World A
  refuse e t = ret (err e, t)

  abbrev pub and_then :
      {A B : Type 0}
      → Run (Result SelError A × UtTable World)
      → (A → Op World B)
      → Run (Result SelError B × UtTable World)
  and_then panic f = panic
  and_then (ret (err e, t)) f = ret (err e, t)
  and_then (ret (ok a, t)) f = f a t

  infixl 5 ◌>>=◌ ◌>>◌
  abbrev pub ◌>>=◌ : {A B : Type 0} → Op World A → (A → Op World B) → Op World B
  ◌>>=◌ m f t = and_then (m t) f

  abbrev pub ◌>>◌ : {B : Type 0} → Op World (Unit {0}) → Op World B → Op World B
  ◌>>◌ m k t = and_then (m t) (λ _. k)

  abbrev failed :
      {A : Type 0}
      → SelError
      → Run (Result SelError (Unit {0}) × UtTable World)
      → Run (Result SelError A × UtTable World)
  failed e panic = panic
  failed e (ret (ok u, t)) = ret (err e, t)
  failed e (ret (err e', t)) = ret (err e', t)

  abbrev recovered :
      {A : Type 0}
      → Run (Result SelError A × UtTable World)
      → Op World (Unit {0})
      → Run (Result SelError A × UtTable World)
  recovered panic undo = panic
  recovered (ret (ok a, t)) undo = ret (ok a, t)
  recovered (ret (err e, t)) undo = failed e (undo t)

  -- `m.map_err(|e| { undo; e })?`
  abbrev pub or_undo : {A : Type 0} → Op World A → Op World (Unit {0}) → Op World A
  or_undo m undo t = recovered (m t) undo

  abbrev pub ut_to_paddr : UtTable World → ℕ → Run ℕ
  ut_to_paddr t ut = elim t.untypeds [
    | none ↦ panic
    | some base ↦
        if ltb ut base
        then panic
        else checked ((ut - base) / ut_bytes * page_size_4k + t.first_paddr)
  ]

  abbrev pub paddr_to_ut : UtTable World → ℕ → Run ℕ
  paddr_to_ut t paddr = elim t.untypeds [
    | none ↦ panic
    | some base ↦
        if ltb paddr t.first_paddr
        then panic
        else ret ((base + (paddr - t.first_paddr) / page_size_4k * ut_bytes) % 2 ^ 64)
  ]

  -- `self.free_untypeds[k] = push(self.free_untypeds[k], new)`
  unfoldable pub push_untyped : ℕ → ℕ → Op World (Unit {0})
  push_untyped k new t =
      if ltb k n_untyped_lists
      then done tt (record t {
        free_untypeds = set_list t.free_untypeds k (some new);
        uts = set_ut t.uts new (record (t.uts new) { next = t.free_untypeds k });
      })
      else panic

  -- `self.free_structures = push(self.free_structures, new)`
  unfoldable pub push_structure : ℕ → Op World (Unit {0})
  push_structure new t = done tt (record t {
    free_structures = some new;
    uts = set_ut t.uts new (record (t.uts new) { next = t.free_structures });
  })

  -- `pop(self.free_untypeds[k])?`, whose rest becomes the list.
  unfoldable pub pop_untyped : ℕ → Op World ℕ
  pop_untyped k t =
      if ltb k n_untyped_lists
      then elim (t.free_untypeds k) [
        | none ↦ refuse not_enough_memory t
        | some p ↦ done p (record t { free_untypeds = set_list t.free_untypeds k (t.uts p).next })
      ]
      else panic

  unfoldable pub pop_structure : Op World ℕ
  pop_structure t = elim t.free_structures [
    | none ↦ refuse not_enough_memory t
    | some p ↦ done p (record t { free_structures = (t.uts p).next })
  ]

  unfoldable pub with_paddr : ℕ → Op World (ℕ × ℕ)
  with_paddr ut t = elim (ut_to_paddr t ut) [ panic ↦ panic | ret paddr ↦ done (paddr, ut) t ]

  unfoldable pub alloc_4k_untyped : Op World (ℕ × ℕ)
  alloc_4k_untyped = pop_untyped (size_bits_to_index page_bits) >>= with_paddr

  unfoldable pub alloc_4k_device : ℕ → Op World ℕ
  alloc_4k_device paddr t = elim (paddr_to_ut t paddr) [
    | panic ↦ panic
    | ret ut ↦ if (t.uts ut).valid then done ut t else refuse invalid_argument t
  ]

  unfoldable pub free : ℕ → Op World (Unit {0})
  unfolding push_untyped
  free ut t = push_untyped (size_bits_to_index (t.uts ut).size_bits) ut t

  unfoldable pub count_4k : Op World (Unit {0})
  count_4k t = elim (checked (t.n_4k_untyped + 1)) [
    | panic ↦ panic
    | ret n ↦ done tt (record t { n_4k_untyped = n })
  ]

  -- One page of `add_untyped_range`, with its capability.
  unfoldable pub add_untyped : ℕ → ℕ → Bool → Op World (Unit {0})
  unfolding push_untyped count_4k
  add_untyped paddr cptr device t = elim (paddr_to_ut t paddr) [
    | panic ↦ panic
    | ret node ↦
        (let t' = record t {
          uts = set_ut t.uts node (record (t.uts node) { cap = cptr; valid = true });
        } in
          if device
          then done tt t'
          else and_then
              (push_untyped (size_bits_to_index page_bits) node (record t' {
                uts = set_ut t'.uts node (record (t'.uts node) { size_bits = page_bits });
              }))
              (λ u. count_4k))
  ]

  -- The loop of `add_untyped_range`, for the pages from `i` on.
  unfoldable pub add_untyped_range : (i n_pages : ℕ) → (paddr cptr : ℕ) → Bool → Op World (Unit {0})
  unfolding add_untyped
  add_untyped_range i zero paddr cptr device t = done tt t
  add_untyped_range i (suc n) paddr cptr device t =
      let rest = add_untyped_range (i + 1) n paddr (cptr + 1) device in
      elim (checked (paddr + i * page_size_4k)) [
        | panic ↦ panic
        | ret page ↦
            if ltb (cptr + 1) (2 ^ 64)
            then and_then (add_untyped page cptr device t) (λ u. rest)
            else panic
      ]

unfoldable pub new_table : {World : Type 0} → ℕ → (start : ℕ) → ℕ → (ℕ → Ut) → World → UtTable World
new_table memory start next_free_vaddr uts world = record {
  first_paddr = start;
  untypeds = some memory;
  free_untypeds = λ k. none;
  n_4k_untyped = 0;
  free_structures = none;
  next_free_vaddr = next_free_vaddr;
  uts = uts;
  world = world;
}
