-- ===== src/Server/Reply.antt =====
-- crates/smos-server/src/reply.rs: the messages that answer invocations and faults.
pub mod Payload
use smos_thesis.Base.{ℕ, Bool, true, false, Option, none, some, Run, ret, panic, ◌>>=◌}
use smos_thesis.Common.Errors.{InvocationErrorLabel, label_into_u64}
use smos_thesis.Server.Message.{IpcBuffer, MessageInfo, default_info, write_reg, write_cap}

-- A handle's index, or the slot of a capability to it.
pub data HandleOrHandleCap : Type 0 where
  handle : (idx : ℕ) → HandleOrHandleCap
  handle_cap : (cptr : ℕ) → HandleOrHandleCap

pub record ObjStat : Type 0 where
  pub size : ℕ
  pub paddr : Option ℕ

-- Local handles are their indices, capabilities the bits of their slots.
pub data SmosReply : Type 0 where
  window_create : (hndl : HandleOrHandleCap) → SmosReply
  window_destroy page_map unview window_deregister obj_close obj_destroy : SmosReply
  conn_destroy conn_deregister load_complete sddf_provide_data_region process_wait : SmosReply
  conn_register window_register : (hndl : ℕ) → SmosReply
  irq_register : (hndl irq_handler badge_bit : ℕ) → SmosReply
  conn_open conn_close : SmosReply
  conn_create server_handle_cap_create conn_publish reply_create : (hndl cap : ℕ) → SmosReply
  view process_spawn : (hndl : ℕ) → SmosReply
  obj_create obj_open : (hndl : HandleOrHandleCap) → SmosReply
  obj_stat : (stat : ObjStat) → SmosReply
  sddf_channel_register_bidirectional : (hndl_cap : ℕ) → SmosReply
  sddf_channel_register_recv_only : SmosReply
  sddf_get_data_region : (hndl_cap : ℕ) → SmosReply
  sddf_queue_register : SmosReply
  server_create_channel : (bit hndl_cap : ℕ) → SmosReply
  channel_open : (ntfn : ℕ) → SmosReply

unfoldable pub match_hndl_or_hndl_cap :
    HandleOrHandleCap → IpcBuffer → MessageInfo → Run (IpcBuffer × MessageInfo)
match_hndl_or_hndl_cap (handle idx) buf info =
    write_reg buf 0 idx >>= λ buf'. ret (buf', record info { msg_length = 1 })
match_hndl_or_hndl_cap (handle_cap cptr) buf info =
    write_cap buf 0 cptr >>= λ buf'. ret (buf', record info { extra_caps = 1 })

-- The tag of every reply before its arm sets a length.
abbrev no_error_info : MessageInfo
no_error_info = record default_info { label = label_into_u64 InvocationErrorLabel.no_error }

-- The arms of one word and a capability, a capability alone, and a word alone.
abbrev word_and_cap : IpcBuffer → ℕ → ℕ → Run (IpcBuffer × MessageInfo)
word_and_cap buf word cap = do
  buf' ← write_reg buf 0 word
  buf'' ← write_cap buf' 0 cap
  ret (buf'', record no_error_info { msg_length = 1; extra_caps = 1 })

abbrev cap_alone : IpcBuffer → ℕ → Run (IpcBuffer × MessageInfo)
cap_alone buf cap =
    write_cap buf 0 cap >>= λ buf'. ret (buf', record no_error_info { extra_caps = 1 })

abbrev word_alone : IpcBuffer → ℕ → Run (IpcBuffer × MessageInfo)
word_alone buf word =
    write_reg buf 0 word >>= λ buf'. ret (buf', record no_error_info { msg_length = 1 })

unfoldable pub handle_reply : IpcBuffer → SmosReply → Run (IpcBuffer × MessageInfo)
unfolding match_hndl_or_hndl_cap
handle_reply buf (window_create hndl) = match_hndl_or_hndl_cap hndl buf no_error_info
handle_reply buf (obj_create hndl) = match_hndl_or_hndl_cap hndl buf no_error_info
handle_reply buf (obj_open hndl) = match_hndl_or_hndl_cap hndl buf no_error_info
handle_reply buf (conn_create hndl ep) = word_and_cap buf hndl ep
handle_reply buf (server_create_channel bit hndl_cap) = word_and_cap buf bit hndl_cap
handle_reply buf (sddf_channel_register_bidirectional hndl_cap) = cap_alone buf hndl_cap
handle_reply buf (sddf_get_data_region hndl_cap) = cap_alone buf hndl_cap
handle_reply buf (channel_open ntfn) = cap_alone buf ntfn
handle_reply buf (server_handle_cap_create hndl cap) = word_and_cap buf hndl cap
handle_reply buf (conn_publish hndl ep) = word_and_cap buf hndl ep
handle_reply buf (reply_create hndl reply) = word_and_cap buf hndl reply
handle_reply buf (view hndl) = word_alone buf hndl
handle_reply buf (window_register hndl) = word_alone buf hndl
handle_reply buf (irq_register hndl irq_handler badge_bit) = do
  buf' ← write_reg buf 0 hndl
  buf'' ← write_reg buf' 1 badge_bit
  buf''' ← write_cap buf'' 0 irq_handler
  ret (buf''', record no_error_info { msg_length = 2; extra_caps = 1 })
handle_reply buf (conn_register hndl) = word_alone buf hndl
handle_reply buf (process_spawn hndl) = word_alone buf hndl
handle_reply buf (obj_stat stat) = do
  buf' ← write_reg buf 0 stat.size
  buf'' ← write_reg buf' 1 (elim stat.paddr [ some x ↦ x | none ↦ 0 ])
  ret (buf'', record no_error_info { msg_length = 2 })
handle_reply buf window_destroy = ret (buf, no_error_info)
handle_reply buf conn_open = ret (buf, no_error_info)
handle_reply buf page_map = ret (buf, no_error_info)
handle_reply buf unview = ret (buf, no_error_info)
handle_reply buf window_deregister = ret (buf, no_error_info)
handle_reply buf conn_close = ret (buf, no_error_info)
handle_reply buf obj_close = ret (buf, no_error_info)
handle_reply buf obj_destroy = ret (buf, no_error_info)
handle_reply buf conn_destroy = ret (buf, no_error_info)
handle_reply buf load_complete = ret (buf, no_error_info)
handle_reply buf sddf_channel_register_recv_only = ret (buf, no_error_info)
handle_reply buf sddf_queue_register = ret (buf, no_error_info)
handle_reply buf sddf_provide_data_region = ret (buf, no_error_info)
handle_reply buf conn_deregister = ret (buf, no_error_info)
handle_reply buf process_wait = panic

-- `FaultReply::VMFault { resume }`
pub data FaultReply : Type 0 where
  vm_fault : (resume : Bool) → FaultReply

unfoldable pub handle_fault_reply : FaultReply → Option MessageInfo
handle_fault_reply (vm_fault true) = some no_error_info
handle_fault_reply (vm_fault false) = none
