-- ===== src/Common/Errors.antt =====
-- crates/smos-common/src/error.rs: errors, their labels, and how a client reads them.
use smos_thesis.Base.{
  ℕ, ◌≡◌, refl, List, [], ◌∷◌, Option, some, Run, ret, panic, ◌>>=◌, unwrap, Result, ok, err,
  get_elem?,
}
use smos_thesis.Common.Invocations.{SmosInvocation, try_from_u64}

pub data InvocationErrorLabel : Type 0 where
  no_error invalid_invocation not_enough_args not_enough_caps invalid_type cspace_full :
      InvocationErrorLabel
  unsupported_invocation out_of_handles out_of_handle_caps alignment_error invalid_arguments :
      InvocationErrorLabel
  invalid_handle invalid_handle_capability data_buffer_not_set buffer_too_large :
      InvocationErrorLabel
  insufficient_resources server_error : InvocationErrorLabel

abbrev pub label_into_u64 : InvocationErrorLabel → ℕ
label_into_u64 no_error = 0
label_into_u64 invalid_invocation = 1
label_into_u64 not_enough_args = 2
label_into_u64 not_enough_caps = 3
label_into_u64 invalid_type = 4
label_into_u64 cspace_full = 5
label_into_u64 unsupported_invocation = 6
label_into_u64 out_of_handles = 7
label_into_u64 out_of_handle_caps = 8
label_into_u64 alignment_error = 9
label_into_u64 invalid_arguments = 10
label_into_u64 invalid_handle = 11
label_into_u64 invalid_handle_capability = 12
label_into_u64 data_buffer_not_set = 13
label_into_u64 buffer_too_large = 14
label_into_u64 insufficient_resources = 15
label_into_u64 server_error = 16

abbrev pub label_variants : List InvocationErrorLabel
label_variants =
    no_error ∷ invalid_invocation ∷ not_enough_args ∷ not_enough_caps ∷ invalid_type ∷ cspace_full
    ∷ unsupported_invocation ∷ out_of_handles ∷ out_of_handle_caps ∷ alignment_error
    ∷ invalid_arguments ∷ invalid_handle ∷ invalid_handle_capability ∷ data_buffer_not_set
    ∷ buffer_too_large ∷ insufficient_resources ∷ server_error ∷ []

unfoldable pub label_try_from_u64 : ℕ → Option InvocationErrorLabel
label_try_from_u64 n = get_elem? label_variants n

-- `UnsupportedInvocation { label }` and the others with fields.
pub data InvocationError : Type 0 where
  no_error invalid_invocation : InvocationError
  not_enough_args not_enough_caps : (expected actual : ℕ) → InvocationError
  invalid_type : (which_arg : ℕ) → InvocationError
  cspace_full : InvocationError
  unsupported_invocation : (label : SmosInvocation) → InvocationError
  out_of_handles out_of_handle_caps : InvocationError
  alignment_error : (which_arg : ℕ) → InvocationError
  invalid_arguments : InvocationError
  invalid_handle invalid_handle_capability : (which_arg : ℕ) → InvocationError
  data_buffer_not_set buffer_too_large insufficient_resources server_error : InvocationError

-- A read of the message registers; out of bounds it panics.
abbrev pub register : List ℕ → ℕ → Run ℕ
register ipc_buf i = unwrap (get_elem? ipc_buf i)

-- The arms of `try_unpack_error` after the label is decoded; `InvalidType` is a `todo!()`.
unfoldable pub unpack_label :
    InvocationErrorLabel → List ℕ → Run (Result InvocationError (Unit {0}))
unpack_label InvocationErrorLabel.no_error ipc_buf = ret (ok tt)
unpack_label InvocationErrorLabel.invalid_invocation ipc_buf =
    ret (err InvocationError.invalid_invocation)
unpack_label InvocationErrorLabel.not_enough_args ipc_buf = do
  expected ← register ipc_buf 0
  actual ← register ipc_buf 1
  ret (err (InvocationError.not_enough_args expected actual))
unpack_label InvocationErrorLabel.not_enough_caps ipc_buf = do
  expected ← register ipc_buf 0
  actual ← register ipc_buf 1
  ret (err (InvocationError.not_enough_caps expected actual))
unpack_label InvocationErrorLabel.invalid_type ipc_buf = panic
unpack_label InvocationErrorLabel.cspace_full ipc_buf = ret (err InvocationError.cspace_full)
unpack_label InvocationErrorLabel.unsupported_invocation ipc_buf = do
  label ← register ipc_buf 0
  invocation ← unwrap (try_from_u64 label)
  ret (err (InvocationError.unsupported_invocation invocation))
unpack_label InvocationErrorLabel.out_of_handles ipc_buf = ret (err InvocationError.out_of_handles)
unpack_label InvocationErrorLabel.out_of_handle_caps ipc_buf =
    ret (err InvocationError.out_of_handle_caps)
unpack_label InvocationErrorLabel.alignment_error ipc_buf = do
  which ← register ipc_buf 0
  ret (err (InvocationError.alignment_error which))
unpack_label InvocationErrorLabel.invalid_arguments ipc_buf =
    ret (err InvocationError.invalid_arguments)
unpack_label InvocationErrorLabel.invalid_handle ipc_buf = do
  which ← register ipc_buf 0
  ret (err (InvocationError.invalid_handle which))
unpack_label InvocationErrorLabel.invalid_handle_capability ipc_buf = do
  which ← register ipc_buf 0
  ret (err (InvocationError.invalid_handle_capability which))
unpack_label InvocationErrorLabel.data_buffer_not_set ipc_buf =
    ret (err InvocationError.data_buffer_not_set)
unpack_label InvocationErrorLabel.buffer_too_large ipc_buf =
    ret (err InvocationError.buffer_too_large)
unpack_label InvocationErrorLabel.insufficient_resources ipc_buf =
    ret (err InvocationError.insufficient_resources)
unpack_label InvocationErrorLabel.server_error ipc_buf = ret (err InvocationError.server_error)

-- An unknown label panics (`expect`).
unfoldable pub try_unpack_error : ℕ → List ℕ → Run (Result InvocationError (Unit {0}))
unfolding unpack_label label_try_from_u64
try_unpack_error label ipc_buf = do l ← unwrap (label_try_from_u64 label); unpack_label l ipc_buf

pub label_try_from-into :
    (l : InvocationErrorLabel) → label_try_from_u64 (label_into_u64 l) ≡ some l
unfolding label_try_from_u64
label_try_from-into no_error = refl
label_try_from-into invalid_invocation = refl
label_try_from-into not_enough_args = refl
label_try_from-into not_enough_caps = refl
label_try_from-into invalid_type = refl
label_try_from-into cspace_full = refl
label_try_from-into unsupported_invocation = refl
label_try_from-into out_of_handles = refl
label_try_from-into out_of_handle_caps = refl
label_try_from-into alignment_error = refl
label_try_from-into invalid_arguments = refl
label_try_from-into invalid_handle = refl
label_try_from-into invalid_handle_capability = refl
label_try_from-into data_buffer_not_set = refl
label_try_from-into buffer_too_large = refl
label_try_from-into insufficient_resources = refl
label_try_from-into server_error = refl
