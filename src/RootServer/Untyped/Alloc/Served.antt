-- ===== src/RootServer/Untyped/Alloc/Served.antt =====
-- Where an untyped of the size is free, `alloc` hands out the first one of its list.
use smos_thesis.Base.{ℕ, ◌-◌, ◌<◌, ◌≡◌, ◌⊎◌, none, some, ok, ret}
use smos_thesis.RootServer.Untyped.{UtTable, set_list}
use smos_thesis.RootServer.Untyped.Mapping.{Services}
use smos_thesis.RootServer.Untyped.Alloc.{alloc}
use smos_thesis.RootServer.Untyped.Alloc.Valid.{Place, IsValid}
use smos_thesis.RootServer.Untyped.Alloc.Post.{Post}

module _ {World : Type 0} (s : Services World) (base : ℕ) (t : UtTable World) (place : Place)
    (size : ℕ → ℕ) (v : IsValid base t place size) where
  abbrev after_first : ℕ → ℕ → UtTable World
  after_first k p = record t { free_untypeds = set_list t.free_untypeds k (t.uts p).next }

  -- A size out of range, or with an empty list, or what `alloc` returns is the list's first one.
  abbrev pub Served : ℕ → Type 0
  Served size_bits =
      (size_bits < 4)
      ⊎ ((12 < size_bits)
          ⊎ ((t.free_untypeds (size_bits - 4) ≡ none)
              ⊎ ((p : ℕ) × (after : UtTable World) × (t.free_untypeds (size_bits - 4) ≡ some p)
                  × (alloc s size_bits t ≡ ret (ok p, after)))))
