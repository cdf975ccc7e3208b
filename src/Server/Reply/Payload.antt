-- ===== src/Server/Reply/Payload.antt =====
-- What a reply carries: its words, from the first register on, and at most one capability.
use smos_thesis.Base.{
  ℕ, ◌≤◌, ◌≡◌, refl, List, [], ◌∷◌, Option, none, some, Run, ret, panic, arith, length, one_of,
  two_of,
}
use smos_thesis.Server.Message.{IpcBuffer, MessageInfo}
use smos_thesis.Server.Reply.{
  HandleOrHandleCap, handle, handle_cap, SmosReply, window_create, obj_create, obj_open,
  conn_create, server_create_channel, sddf_channel_register_bidirectional, sddf_get_data_region,
  channel_open, server_handle_cap_create, conn_publish, reply_create, view, window_register,
  irq_register, conn_register, process_spawn, obj_stat, process_wait, handle_reply,
}

-- The specification: the words and the capability of each reply; a reply to `ProcWait` has none.
pub record Payload : Type 0 where
  pub words : List ℕ
  pub cap : Option ℕ

abbrev both : ℕ → ℕ → Option Payload
both w c = some (record { words = w ∷ []; cap = some c })

abbrev word : ℕ → Option Payload
word w = some (record { words = w ∷ []; cap = none })

abbrev capability : ℕ → Option Payload
capability c = some (record { words = []; cap = some c })

abbrev either : HandleOrHandleCap → Option Payload
either (handle idx) = word idx
either (handle_cap cptr) = capability cptr

abbrev address : Option ℕ → ℕ
address none = 0
address (some x) = x

abbrev pub payload : SmosReply → Option Payload
payload process_wait = none
payload (window_create hndl) = either hndl
payload (obj_create hndl) = either hndl
payload (obj_open hndl) = either hndl
payload (conn_create hndl ep) = both hndl ep
payload (server_create_channel bit hndl_cap) = both bit hndl_cap
payload (sddf_channel_register_bidirectional hndl_cap) = capability hndl_cap
payload (sddf_get_data_region hndl_cap) = capability hndl_cap
payload (channel_open ntfn) = capability ntfn
payload (server_handle_cap_create hndl cap) = both hndl cap
payload (conn_publish hndl ep) = both hndl ep
payload (reply_create hndl reply) = both hndl reply
payload (view hndl) = word hndl
payload (window_register hndl) = word hndl
payload (irq_register hndl irq_handler badge_bit) =
    some (record { words = hndl ∷ badge_bit ∷ []; cap = some irq_handler })
payload (conn_register hndl) = word hndl
payload (process_spawn hndl) = word hndl
payload (obj_stat stat) = some (record { words = stat.size ∷ address stat.paddr ∷ []; cap = none })
payload _ = some (record { words = []; cap = none })

-- Overwriting the first elements of a list.
abbrev pub over : List ℕ → List ℕ → List ℕ
over [] xs = xs
over (w ∷ ws) [] = []
over (w ∷ ws) (x ∷ xs) = w ∷ over ws xs

abbrev opt : Option ℕ → List ℕ
opt none = []
opt (some c) = c ∷ []

-- The message of a payload, in a buffer of two registers and one capability slot at least.
abbrev pub message : IpcBuffer → Option Payload → Run (IpcBuffer × MessageInfo)
message buf none = panic
message buf (some p) = ret (
  record {
    msg_regs = over p.words buf.msg_regs;
    caps_or_badges = over (opt p.cap) buf.caps_or_badges;
  },
  record { label = 0; msg_length = length p.words; extra_caps = length (opt p.cap) },
)

abbrev buffer : ℕ → ℕ → ℕ → List ℕ → List ℕ → IpcBuffer
buffer a b c regs caps = record { msg_regs = a ∷ b ∷ regs; caps_or_badges = c ∷ caps }

in_buffer :
    (a b c : ℕ) (regs caps : List ℕ) (r : SmosReply)
    → handle_reply (buffer a b c regs caps) r ≡ message (buffer a b c regs caps) (payload r)
unfolding handle_reply
in_buffer a b c regs caps process_wait = refl
in_buffer a b c regs caps (window_create (handle idx)) = refl
in_buffer a b c regs caps (window_create (handle_cap cptr)) = refl
in_buffer a b c regs caps (obj_create (handle idx)) = refl
in_buffer a b c regs caps (obj_create (handle_cap cptr)) = refl
in_buffer a b c regs caps (obj_open (handle idx)) = refl
in_buffer a b c regs caps (obj_open (handle_cap cptr)) = refl
in_buffer a b c regs caps (obj_stat stat) = ground arith
in_buffer a b c regs caps _ = refl

-- In a buffer with two message registers and a capability slot, a reply is the label `NoError`,
-- its words written from the first register on and its capability in the first slot, with the
-- length and the number of capabilities that were written, and nothing else is touched. The reply
-- to `ProcWait` panics, and no other.
pub handle_reply-message :
    (buf : IpcBuffer) (r : SmosReply)
    → 2 ≤ length buf.msg_regs
    → 1 ≤ length buf.caps_or_badges
    → handle_reply buf r ≡ message buf (payload r)
handle_reply-message buf r h k =
    let (a, b, regs, e) = two_of buf.msg_regs h in
    let (c, caps, f) = one_of buf.caps_or_badges k in
    let whole : buf ≡ buffer a b c regs caps = ground arith in
    rw whole (in_buffer a b c regs caps r)
