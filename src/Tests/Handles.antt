-- ===== src/Tests/Handles.antt =====
-- Handle tables and capability tables.
use smos_thesis.Base.{
  ℕ, ◌<◌, ◌≡◌, refl, List, [], ◌∷◌, true, false, Option, none, some, ok, err, ret, panic, length,
  get_elem?,
}
use smos_thesis.Server.Handles.{
  ServerHandle, HandleCapability, Tables, allocate_handle, get_handle, allocate_handle_cap,
  generic_allocate_handle,
}
use smos_thesis.Server.Handles.Table.{get_handle_lem}
use smos_thesis.Server.Handles.Generic.{
  Lives, CapLives, generic_allocate_handle-Lives, generic_allocate_handle-CapLives,
}

-- A table with a handle at 0, and a capability table with a free slot at 1.
abbrev handles : List (Option (ServerHandle ℕ))
handles = some (record { inner = 7 }) ∷ none ∷ none ∷ []

abbrev caps : List (HandleCapability ℕ)
caps =
    (record { handle = some (record { inner = 8 }); root_cap = some 100 })
    ∷ (record { handle = none; root_cap = some 101 })
    ∷ []

abbrev tables : Tables ℕ
tables = record { handle_table = handles; handle_cap_table = caps }

get_handle_lem_example :
    (3 < length handles
      → (h : Option (ServerHandle ℕ)) × (get_elem? handles 3 ≡ some h)
        × (get_handle handles 3 ≡ ret (ok h)))
    × (3 ≡ length handles → get_handle handles 3 ≡ panic)
    × (length handles < 3 → get_handle handles 3 ≡ ret (err tt))
get_handle_lem_example = get_handle_lem handles 3

allocates_1 : generic_allocate_handle tables false ≡ ok (1, none)
unfolding generic_allocate_handle allocate_handle
allocates_1 = refl

generic_allocate_handle-Lives_example :
    Lives (λ cap. true) tables 1 (record { inner = 9 }) 0 × (◌≡◌ {A = Option ℕ} none none)
generic_allocate_handle-Lives_example =
    generic_allocate_handle-Lives (λ cap. true) tables 1 none (record { inner = 9 }) 0 allocates_1

allocates_cap_1 : generic_allocate_handle tables true ≡ ok (1, some 101)
unfolding generic_allocate_handle allocate_handle_cap
allocates_cap_1 = refl

generic_allocate_handle-CapLives_example :
    CapLives (λ cap. true) tables 1 101 (record { inner = 9 }) 0
generic_allocate_handle-CapLives_example =
    generic_allocate_handle-CapLives (λ cap. true) tables 1 101 (record { inner = 9 }) 0
      allocates_cap_1
