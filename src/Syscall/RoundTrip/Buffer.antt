-- ===== src/Syscall/RoundTrip/Buffer.antt =====
-- The shared buffer between a client's writes and a server's reads of terminated names.
use mathlib.Core.List.{append-nil, append_assoc}
use smos_thesis.Base.{
  ℕ, zero, suc, ◌+◌, ◌-◌, ◌≤◌, ◌≡◌, refl, ap, ◌∙◌, List, [], ◌∷◌, ◌++◌, some, arith, ret, ok,
  length,
}
use smos_thesis.Syscall.Text.{
  IsName, drop, rust_str_from_buffer, rust_str_from_buffer-terminated, copy_fits,
}
use smos_thesis.Syscall.Call.{room, All}
use smos_thesis.Syscall.Client.{Client, put_name}
use smos_thesis.Syscall.Client.Servers.{put_names}
use smos_thesis.Syscall.Decode.Objects.{read_args}
use smos_thesis.Syscall.Request.{done}

-- The names as they stand in the buffer.
abbrev pub text : List (List ℕ) → List ℕ
text [] = []
text (name ∷ names) = (name ++ 0 ∷ []) ++ text names

drop-drop : (i j : ℕ) (bs : List ℕ) → drop i (drop j bs) ≡ drop (j + i) bs
unfolding drop
drop-drop zero j [] = refl
drop-drop (suc i) j [] = refl
drop-drop zero zero (b ∷ bs) = refl
drop-drop (suc i) zero (b ∷ bs) = ap (λ k. drop k (b ∷ bs)) {x = suc i} (omega arith)
drop-drop i (suc j) (b ∷ bs) =
    drop-drop i j bs
    ∙ ap (λ k. drop k (b ∷ bs)) (let e : suc (j + i) ≡ suc j + i = omega arith in e)

pub length-drop : (i : ℕ) (bs : List ℕ) → length (drop i bs) ≡ length bs - i
unfolding drop
length-drop zero [] = refl
length-drop (suc i) [] = omega arith
length-drop zero (b ∷ bs) = omega arith
length-drop (suc i) (b ∷ bs) = omega (arith, length-drop i bs)

drop-none : (bs : List ℕ) → drop 0 bs ≡ bs
unfolding drop
drop-none [] = refl
drop-none (b ∷ bs) = refl

module _ {World : Type 0} where
  pub put_name_lem :
      (before rest name : List ℕ) (c : Client World)
      → length name + 1 ≤ length rest
      → put_name before rest name c
        ≡ ret (
          ok (before ++ (name ++ 0 ∷ []), drop (length name + 1) rest),
          record c { buf = some ((before ++ (name ++ 0 ∷ [])) ++ drop (length name + 1) rest) },
        )
  unfolding put_name
  put_name_lem before rest name c h = ground (arith, copy_fits rest name h)

  pub put_names_lem :
      (before rest : List ℕ) (names : List (List ℕ)) (c : Client World)
      → room names ≤ length rest
      → put_names before rest names (record c { buf = some (before ++ rest) })
        ≡ ret (
          ok (before ++ text names, drop (room names) rest),
          record c { buf = some ((before ++ text names) ++ drop (room names) rest) },
        )
  unfolding put_names
  put_names_lem before rest [] c h = rw (append-nil, drop-none) refl
  put_names_lem before rest (name ∷ names) c h =
      rw
        (
          put_name_lem before rest name (record c { buf = some (before ++ rest) }) (omega arith),
          put_names_lem (before ++ (name ++ 0 ∷ [])) (drop (length name + 1) rest) names c
              (omega (arith, length-drop (length name + 1) rest)),
          append_assoc before (name ++ 0 ∷ []) (text names),
          drop-drop (room names) (length name + 1) rest,
        )
        refl

pub rust_str_from_buffer-written :
    (name rest : List ℕ)
    → IsName name
    → rust_str_from_buffer ((name ++ 0 ∷ []) ++ rest) ≡ ok (name, rest)
rust_str_from_buffer-written name rest v =
    rw (append_assoc) (rust_str_from_buffer-terminated name rest v)

-- The server's loop reads as many names as the client wrote.
pub read_args-text :
    (names : List (List ℕ)) (rest : List ℕ)
    → All IsName names
    → read_args (length names) (text names ++ rest) ≡ done names
unfolding read_args
read_args-text [] rest v = refl
read_args-text (name ∷ names) rest v =
    rw
      (
        append_assoc (name ++ 0 ∷ []) (text names) rest,
        rust_str_from_buffer-written name (text names ++ rest) v.0,
        read_args-text names rest v.1,
      )
      refl
