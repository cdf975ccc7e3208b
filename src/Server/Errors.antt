-- ===== src/Server/Errors.antt =====
-- crates/smos-server/src/error.rs: how a server reports an error, and what the client reads.
use smos_thesis.Base.{
  ℕ, ◌≤◌, ◌≡◌, refl, Bool, true, false, List, ◌∷◌, arith, Run, ret, panic, ◌>>=◌, Result, err,
  length, two_of, get_elem?, some,
}
use smos_thesis.Common.Invocations.{into_u64, try_from_u64-into_u64}
use smos_thesis.Common.Errors.{
  InvocationError, InvocationErrorLabel, label_into_u64, try_unpack_error,
}
use smos_thesis.Server.Message.{IpcBuffer, MessageInfo, default_info, write_reg, delivered}

abbrev labelled : InvocationErrorLabel → MessageInfo
labelled l = record default_info { label = label_into_u64 l }

-- One word of detail, and two.
abbrev with_word : IpcBuffer → InvocationErrorLabel → ℕ → Run (IpcBuffer × MessageInfo)
with_word buf l a = write_reg buf 0 a >>= λ buf'. ret (buf', record (labelled l) { msg_length = 1 })

abbrev with_words : IpcBuffer → InvocationErrorLabel → ℕ → ℕ → Run (IpcBuffer × MessageInfo)
with_words buf l a b = do
  buf' ← write_reg buf 0 a
  buf'' ← write_reg buf' 1 b
  ret (buf'', record (labelled l) { msg_length = 2 })

-- `InvalidType` carries the label and the length of `NotEnoughCaps`, as the source has it.
unfoldable pub handle_error : IpcBuffer → InvocationError → Run (IpcBuffer × MessageInfo)
handle_error buf InvocationError.no_error = panic
handle_error buf InvocationError.invalid_invocation =
    ret (buf, labelled InvocationErrorLabel.invalid_invocation)
handle_error buf (InvocationError.not_enough_args expected actual) =
    with_words buf InvocationErrorLabel.not_enough_args expected actual
handle_error buf (InvocationError.not_enough_caps expected actual) =
    with_words buf InvocationErrorLabel.not_enough_caps expected actual
handle_error buf (InvocationError.invalid_type which_arg) = do
  buf' ← write_reg buf 0 which_arg
  ret (buf', record (labelled InvocationErrorLabel.not_enough_caps) { msg_length = 2 })
handle_error buf InvocationError.cspace_full = panic
handle_error buf (InvocationError.unsupported_invocation label) =
    with_word buf InvocationErrorLabel.unsupported_invocation (into_u64 label)
handle_error buf InvocationError.out_of_handles =
    ret (buf, labelled InvocationErrorLabel.out_of_handles)
handle_error buf InvocationError.out_of_handle_caps =
    ret (buf, labelled InvocationErrorLabel.out_of_handle_caps)
handle_error buf (InvocationError.alignment_error which_arg) =
    with_word buf InvocationErrorLabel.alignment_error which_arg
handle_error buf InvocationError.invalid_arguments =
    ret (buf, labelled InvocationErrorLabel.invalid_arguments)
handle_error buf (InvocationError.invalid_handle which_arg) =
    with_word buf InvocationErrorLabel.invalid_handle which_arg
handle_error buf (InvocationError.invalid_handle_capability which_arg) =
    with_word buf InvocationErrorLabel.invalid_handle_capability which_arg
handle_error buf InvocationError.data_buffer_not_set =
    ret (buf, labelled InvocationErrorLabel.data_buffer_not_set)
handle_error buf InvocationError.buffer_too_large =
    ret (buf, labelled InvocationErrorLabel.buffer_too_large)
handle_error buf InvocationError.insufficient_resources =
    ret (buf, labelled InvocationErrorLabel.insufficient_resources)
handle_error buf InvocationError.server_error = panic

-- A server reports an error, the kernel delivers the message into the client's registers `own`, and
-- the client unpacks it.
unfoldable pub report :
    IpcBuffer → List ℕ → InvocationError → Run (Result InvocationError (Unit {0}))
report buf own e = handle_error buf e >>= λ out.
    try_unpack_error out.1.label (delivered out.1.msg_length out.0.msg_regs own)

-- The errors that a server does not report: those of the client's side, and `InvalidType`.
abbrev pub is_reported : InvocationError → Bool
is_reported InvocationError.no_error = false
is_reported (InvocationError.invalid_type which_arg) = false
is_reported InvocationError.cspace_full = false
is_reported InvocationError.server_error = false
is_reported _ = true

report_to :
    (a b c d : ℕ) (rest caps own : List ℕ) (e : InvocationError)
    → is_reported e ≡ true
    → report (record { msg_regs = a ∷ b ∷ rest; caps_or_badges = caps }) (c ∷ d ∷ own) e
      ≡ ret (err e)
unfolding report handle_error try_unpack_error
report_to a b c d rest caps own InvocationError.no_error h = cc
report_to a b c d rest caps own (InvocationError.unsupported_invocation label) h =
    rw (try_from_u64-into_u64 label) refl
report_to a b c d rest caps own InvocationError.cspace_full h = cc
report_to a b c d rest caps own (InvocationError.invalid_type which_arg) h = cc
report_to a b c d rest caps own InvocationError.server_error h = cc
report_to a b c d rest caps own _ h = refl

-- From a server's buffer of at least two message registers to a client's, of which the kernel writes
-- as many as the message is long, each error that a server may report, other than `InvalidType`, is
-- what the client unpacks, whatever stood in the client's registers.
pub try_unpack_error-handle_error :
    (buf : IpcBuffer) (own : List ℕ) (e : InvocationError)
    → 2 ≤ length buf.msg_regs
    → 2 ≤ length own
    → is_reported e ≡ true
    → report buf own e ≡ ret (err e)
try_unpack_error-handle_error buf own e h k r =
    let (a, b, rest, eq) = two_of buf.msg_regs h in
    let (c, d, own', eq') = two_of own k in
    let whole : buf ≡ record { msg_regs = a ∷ b ∷ rest; caps_or_badges = buf.caps_or_badges } =
      ground arith in
    rw whole (rw eq' (report_to a b c d rest buf.caps_or_badges own' e r))

-- From such a buffer to such a buffer, `InvalidType` reaches the client as `NotEnoughCaps`: the
-- argument's number as the expected count, and as the actual count what the server's second register
-- held, which the message's length takes along.
pub handle_error-invalid_type :
    (buf : IpcBuffer) (own : List ℕ) (which_arg : ℕ)
    → 2 ≤ length buf.msg_regs
    → 2 ≤ length own
    → (b : ℕ) × (get_elem? buf.msg_regs 1 ≡ some b)
      × (report buf own (InvocationError.invalid_type which_arg)
          ≡ ret (err (InvocationError.not_enough_caps which_arg b)))
unfolding report handle_error try_unpack_error
handle_error-invalid_type buf own which_arg h k =
    let (a, b, rest, eq) = two_of buf.msg_regs h in
    let (c, d, own', eq') = two_of own k in (b, rw eq refl, rw (eq, eq') refl)
