-- ===== src/Syscall/Call.antt =====
-- The calls that a client can make, the request of each, and the invocation that the server should
-- see. `test_simple`, which a server that supports it answers by a panic, is not among them.
use smos_thesis.Base.{
  ℕ, ◌+◌, ◌≤◌, ◌<◌, ◌≡◌, ◌≢◌, Bool, not, List, [], ◌∷◌, Option, none, some, is_none, length,
}
use smos_thesis.Word.{max_word}
use smos_thesis.Server.Handles.{
  ServerReceivedHandleOrHandleCap, unwrapped_handle_cap, wrapped_handle_cap,
}
use smos_thesis.Server.Message.{MessageInfo}
use smos_thesis.Server.Reply.{HandleOrHandleCap, handle, handle_cap}
use smos_thesis.Common.Invocations.{SmosInvocation}
use smos_thesis.Syscall.Client.{Ipc}
use smos_thesis.Syscall.Client.Servers.{argv_names}
use smos_thesis.Syscall.Client.Root
use smos_thesis.Syscall.Client.Servers
use smos_thesis.Syscall.Client.Objects
use smos_thesis.Syscall.Client.Sddf
use smos_thesis.Syscall.Invocation.{Invocation, QueueType, VirtType}
use smos_thesis.Syscall.Text.{IsName}

pub data Call : Type 0 where
  conn_create : (slot : ℕ) (server_name : List ℕ) → Call
  conn_register : (publish_hndl id : ℕ) → Call
  irq_register : (publish_hndl irq_num : ℕ) (edge_triggered : Bool) (slot : ℕ) → Call
  conn_deregister : (reg_hndl : ℕ) → Call
  conn_publish : (ntfn_buffer slot : ℕ) (name : List ℕ) → Call
  conn_destroy : (hndl : ℕ) → Call
  window_create : (base_vaddr size : ℕ) (return_cap : Option ℕ) → Call
  window_register : (publish_hndl window_hndl_cap client_id reference : ℕ) → Call
  window_deregister : (win_reg_hndl : ℕ) → Call
  page_map : (win_reg_hndl view_offset content_vaddr : ℕ) → Call
  window_destroy : (hndl : HandleOrHandleCap) → Call
  reply_create : (return_cap : ℕ) → Call
  server_handle_cap_create : (publish_hndl ident return_slot : ℕ) → Call
  process_spawn :
      (executable_name fs_name : List ℕ) (prio : ℕ) (argv : Option (List (List ℕ))) → Call
  process_wait : (hndl : ℕ) → Call
  process_exit : Call
  load_complete : (entry_point sp : ℕ) → Call
  channel_open : (channel_hndl_cap ntfn_slot : ℕ) → Call
  server_channel_create : (publish_hndl channel_slot : ℕ) → Call
  conn_open : (shared_buf : Option (HandleOrHandleCap × List ℕ)) → Call
  conn_close : Call
  obj_create :
      (name_opt : Option (List ℕ)) (size rights attributes : ℕ) (return_cap : Option ℕ) → Call
  obj_open : (name : List ℕ) (rights : ℕ) (return_cap : Option ℕ) → Call
  obj_close obj_destroy obj_stat : (hndl : HandleOrHandleCap) → Call
  view : (win obj : HandleOrHandleCap) (win_offset obj_offset size rights : ℕ) → Call
  unview : (view_hndl : ℕ) → Call
  sddf_channel_register_bidirectional : (hndl_cap : ℕ) (kind : Option VirtType) (slot : ℕ) → Call
  sddf_channel_register_recv_only : (hndl_cap : ℕ) → Call
  sddf_queue_register : (obj_hndl_cap size : ℕ) (kind : QueueType) → Call
  sddf_get_data_region : (slot : ℕ) → Call
  sddf_data_region_provide : (obj_hndl_cap size : ℕ) → Call

abbrev pub request : {World : Type 0} → Call → Ipc World MessageInfo
request (Call.conn_create slot server_name) = Root.conn_create_request slot server_name
request (Call.conn_register publish_hndl id) = Root.conn_register_request publish_hndl id
request (Call.irq_register publish_hndl irq_num edge_triggered slot) =
    Root.irq_register_request publish_hndl irq_num edge_triggered slot
request (Call.conn_deregister reg_hndl) = Root.conn_deregister_request reg_hndl
request (Call.conn_publish ntfn_buffer slot name) = Root.conn_publish_request ntfn_buffer slot name
request (Call.conn_destroy hndl) = Root.conn_destroy_request hndl
request (Call.window_create base_vaddr size return_cap) =
    Root.window_create_request base_vaddr size return_cap
request (Call.window_register publish_hndl window_hndl_cap client_id reference) =
    Root.window_register_request publish_hndl window_hndl_cap client_id reference
request (Call.window_deregister win_reg_hndl) = Root.window_deregister_request win_reg_hndl
request (Call.page_map win_reg_hndl view_offset content_vaddr) =
    Root.page_map_request win_reg_hndl view_offset content_vaddr
request (Call.window_destroy hndl) = Root.window_destroy_request hndl
request (Call.reply_create return_cap) = Servers.reply_create_request return_cap
request (Call.server_handle_cap_create publish_hndl ident return_slot) =
    Servers.server_handle_cap_create_request publish_hndl ident return_slot
request (Call.process_spawn executable_name fs_name prio argv) =
    Servers.process_spawn_request executable_name fs_name prio argv
request (Call.process_wait hndl) = Servers.process_wait_request hndl
request Call.process_exit = Servers.process_exit_request
request (Call.load_complete entry_point sp) = Servers.load_complete_request entry_point sp
request (Call.channel_open channel_hndl_cap ntfn_slot) =
    Servers.channel_open_request channel_hndl_cap ntfn_slot
request (Call.server_channel_create publish_hndl channel_slot) =
    Servers.server_channel_create_request publish_hndl channel_slot
request (Call.conn_open shared_buf) = Servers.conn_open_request shared_buf
request Call.conn_close = Servers.conn_close_request
request (Call.obj_create name_opt size rights attributes return_cap) =
    Objects.obj_create_request name_opt size rights attributes return_cap
request (Call.obj_open name rights return_cap) = Objects.obj_open_request name rights return_cap
request (Call.obj_close hndl) = Objects.obj_close_request hndl
request (Call.obj_destroy hndl) = Objects.obj_destroy_request hndl
request (Call.obj_stat hndl) = Objects.obj_stat_request hndl
request (Call.view win obj win_offset obj_offset size rights) =
    Objects.view_request win obj win_offset obj_offset size rights
request (Call.unview view_hndl) = Objects.unview_request view_hndl
request (Call.sddf_channel_register_bidirectional hndl_cap kind slot) =
    Sddf.sddf_channel_register_bidirectional_request hndl_cap kind slot
request (Call.sddf_channel_register_recv_only hndl_cap) =
    Sddf.sddf_channel_register_recv_only_request hndl_cap
request (Call.sddf_queue_register obj_hndl_cap size kind) =
    Sddf.sddf_queue_register_request (handle_cap obj_hndl_cap) size kind
request (Call.sddf_get_data_region slot) = Sddf.sddf_get_data_region_request slot
request (Call.sddf_data_region_provide obj_hndl_cap size) =
    Sddf.sddf_data_region_provide_request (handle_cap obj_hndl_cap) size

abbrev pub label_of : Call → SmosInvocation
label_of (Call.conn_create slot server_name) = SmosInvocation.conn_create
label_of (Call.conn_register publish_hndl id) = SmosInvocation.conn_register
label_of (Call.irq_register publish_hndl irq_num edge_triggered slot) = SmosInvocation.irq_register
label_of (Call.conn_deregister reg_hndl) = SmosInvocation.conn_deregister
label_of (Call.conn_publish ntfn_buffer slot name) = SmosInvocation.conn_publish
label_of (Call.conn_destroy hndl) = SmosInvocation.conn_destroy
label_of (Call.window_create base_vaddr size return_cap) = SmosInvocation.window_create
label_of (Call.window_register publish_hndl window_hndl_cap client_id reference) =
    SmosInvocation.window_register
label_of (Call.window_deregister win_reg_hndl) = SmosInvocation.window_deregister
label_of (Call.page_map win_reg_hndl view_offset content_vaddr) = SmosInvocation.page_map
label_of (Call.window_destroy hndl) = SmosInvocation.window_destroy
label_of (Call.reply_create return_cap) = SmosInvocation.reply_create
label_of (Call.server_handle_cap_create publish_hndl ident return_slot) =
    SmosInvocation.server_handle_cap_create
label_of (Call.process_spawn executable_name fs_name prio argv) = SmosInvocation.proc_spawn
label_of (Call.process_wait hndl) = SmosInvocation.proc_wait
label_of Call.process_exit = SmosInvocation.proc_exit
label_of (Call.load_complete entry_point sp) = SmosInvocation.load_complete
label_of (Call.channel_open channel_hndl_cap ntfn_slot) = SmosInvocation.channel_open
label_of (Call.server_channel_create publish_hndl channel_slot) =
    SmosInvocation.server_create_channel
label_of (Call.conn_open shared_buf) = SmosInvocation.conn_open
label_of Call.conn_close = SmosInvocation.conn_close
label_of (Call.obj_create name_opt size rights attributes return_cap) = SmosInvocation.obj_create
label_of (Call.obj_open name rights return_cap) = SmosInvocation.obj_open
label_of (Call.obj_close hndl) = SmosInvocation.obj_close
label_of (Call.obj_destroy hndl) = SmosInvocation.obj_destroy
label_of (Call.obj_stat hndl) = SmosInvocation.obj_stat
label_of (Call.view win obj win_offset obj_offset size rights) = SmosInvocation.view
label_of (Call.unview view_hndl) = SmosInvocation.unview
label_of (Call.sddf_channel_register_bidirectional hndl_cap kind slot) =
    SmosInvocation.sddf_channel_register_bidirectional
label_of (Call.sddf_channel_register_recv_only hndl_cap) =
    SmosInvocation.sddf_channel_register_receive_only
label_of (Call.sddf_queue_register obj_hndl_cap size kind) = SmosInvocation.sddf_queue_register
label_of (Call.sddf_get_data_region slot) = SmosInvocation.sddf_get_data_region
label_of (Call.sddf_data_region_provide obj_hndl_cap size) = SmosInvocation.sddf_provide_data_region

-- How a server sees a handle or a handle capability: unwrapped if the kernel finds a badge of the
-- server's own endpoint, and otherwise in the server's receive slot.
abbrev pub received : (ℕ → Option ℕ) → ℕ → HandleOrHandleCap → ServerReceivedHandleOrHandleCap
received arrives slot (handle idx) = ServerReceivedHandleOrHandleCap.handle idx
received arrives slot (handle_cap cptr) = elim (arrives cptr) [
  | some badge ↦ unwrapped_handle_cap badge
  | none ↦ wrapped_handle_cap slot
]

abbrev pub received_buf :
    (ℕ → Option ℕ)
    → ℕ
    → Option (HandleOrHandleCap × List ℕ)
    → Option (ServerReceivedHandleOrHandleCap × ℕ)
received_buf arrives slot none = none
received_buf arrives slot (some (hndl, buffer)) = some (received arrives slot hndl, length buffer)

abbrev pub badge_of : (ℕ → Option ℕ) → ℕ → ℕ
badge_of arrives cptr = elim (arrives cptr) [ some badge ↦ badge | none ↦ 0 ]

-- What the server with the receive slot `slot` should decode.
abbrev pub decoded : (ℕ → Option ℕ) → ℕ → Call → Invocation
decoded arrives slot (Call.conn_create return_slot server_name) =
    Invocation.conn_create (record { name = server_name })
decoded arrives slot (Call.conn_register publish_hndl id) =
    Invocation.conn_register
      (record { publish_hndl = record { idx = publish_hndl }; client_id = id })
decoded arrives slot (Call.irq_register publish_hndl irq_num edge_triggered return_slot) =
    Invocation.irq_register (record {
      publish_hndl = record { idx = publish_hndl };
      irq_num = irq_num;
      edge_triggered = edge_triggered;
    })
decoded arrives slot (Call.conn_deregister reg_hndl) =
    Invocation.conn_deregister (record { hndl = record { idx = reg_hndl } })
decoded arrives slot (Call.conn_publish ntfn_buffer return_slot name) =
    Invocation.conn_publish (record { ntfn_buffer = ntfn_buffer; name = name })
decoded arrives slot (Call.conn_destroy hndl) =
    Invocation.conn_destroy (record { hndl = record { idx = hndl } })
decoded arrives slot (Call.window_create base_vaddr size return_cap) =
    Invocation.window_create
      (record { base_vaddr = base_vaddr; size = size; return_cap = not (is_none return_cap) })
decoded arrives slot (Call.window_register publish_hndl window_hndl_cap client_id reference) =
    Invocation.window_register (record {
      publish_hndl = record { idx = publish_hndl };
      window_hndl = record { idx = badge_of arrives window_hndl_cap };
      client_id = client_id;
      reference = reference;
    })
decoded arrives slot (Call.window_deregister win_reg_hndl) =
    Invocation.window_deregister (record { hndl = record { idx = win_reg_hndl } })
decoded arrives slot (Call.page_map win_reg_hndl view_offset content_vaddr) =
    Invocation.page_map (record {
      window_registration_hndl = record { idx = win_reg_hndl };
      view_offset = view_offset;
      content_vaddr = content_vaddr;
    })
decoded arrives slot (Call.window_destroy hndl) =
    Invocation.window_destroy (record { hndl = received arrives slot hndl })
decoded arrives slot (Call.reply_create return_cap) = Invocation.reply_create
decoded arrives slot (Call.server_handle_cap_create publish_hndl ident return_slot) =
    Invocation.server_handle_cap_create
      (record { publish_hndl = record { idx = publish_hndl }; ident = ident })
decoded arrives slot (Call.process_spawn executable_name fs_name prio argv) =
    Invocation.process_spawn
      (record { exec_name = executable_name; fs_name = fs_name; prio = prio; args = argv })
decoded arrives slot (Call.process_wait hndl) =
    Invocation.process_wait (record { hndl = record { idx = hndl } })
decoded arrives slot Call.process_exit = Invocation.process_exit
decoded arrives slot (Call.load_complete entry_point sp) =
    Invocation.load_complete (record { entry_point = entry_point; sp = sp })
decoded arrives slot (Call.channel_open channel_hndl_cap ntfn_slot) =
    Invocation.channel_open
      (record { hndl_cap = record { idx = badge_of arrives channel_hndl_cap } })
decoded arrives slot (Call.server_channel_create publish_hndl channel_slot) =
    Invocation.server_create_channel (record { publish_hndl = record { idx = publish_hndl } })
decoded arrives slot (Call.conn_open shared_buf) =
    Invocation.conn_open (record { shared_buf_obj = received_buf arrives slot shared_buf })
decoded arrives slot Call.conn_close = Invocation.conn_close
decoded arrives slot (Call.obj_create name_opt size rights attributes return_cap) =
    Invocation.obj_create (record {
      name = name_opt;
      size = size;
      rights = rights;
      attributes = attributes;
      return_cap = not (is_none return_cap);
    })
decoded arrives slot (Call.obj_open name rights return_cap) =
    Invocation.obj_open
      (record { name = name; rights = rights; return_cap = not (is_none return_cap) })
decoded arrives slot (Call.obj_close hndl) =
    Invocation.obj_close (record { hndl = received arrives slot hndl })
decoded arrives slot (Call.obj_destroy hndl) =
    Invocation.obj_destroy (record { hndl = received arrives slot hndl })
decoded arrives slot (Call.obj_stat hndl) =
    Invocation.obj_stat (record { hndl = received arrives slot hndl })
decoded arrives slot (Call.view win obj win_offset obj_offset size rights) =
    Invocation.view (record {
      window = received arrives slot win;
      object = received arrives slot obj;
      window_offset = win_offset;
      obj_offset = obj_offset;
      size = size;
      rights = rights;
    })
decoded arrives slot (Call.unview view_hndl) =
    Invocation.unview (record { hndl = record { idx = view_hndl } })
decoded arrives slot (Call.sddf_channel_register_bidirectional hndl_cap kind return_slot) =
    Invocation.sddf_channel_register_bidirectional
      (record { channel_hndl_cap = record { cptr = slot }; virt_type = kind })
decoded arrives slot (Call.sddf_channel_register_recv_only hndl_cap) =
    Invocation.sddf_channel_register_recv_only
      (record { channel_hndl_cap = record { cptr = slot } })
decoded arrives slot (Call.sddf_queue_register obj_hndl_cap size kind) =
    Invocation.sddf_queue_register
      (record { hndl_cap = record { cptr = slot }; size = size; queue_type = kind })
decoded arrives slot (Call.sddf_get_data_region return_slot) = Invocation.sddf_get_data_region
decoded arrives slot (Call.sddf_data_region_provide obj_hndl_cap size) =
    Invocation.sddf_provide_data_region (record { hndl_cap = record { cptr = slot }; size = size })

abbrev pub room : List (List ℕ) → ℕ
room [] = 0
room (name ∷ names) = (length name + 1) + room names

abbrev pub All : (List ℕ → Type 0) → List (List ℕ) → Type 0
All P [] = Unit
All P (name ∷ names) = P name × All P names

-- The names fit into the shared buffer, and a terminated string can carry each.
pub record Fits (buf : Option (List ℕ)) (names : List (List ℕ)) : Type 0 where
  pub bytes : List ℕ
  pub there : buf ≡ some bytes
  pub valid : All IsName names
  pub room : room names ≤ length bytes

abbrev pub IsUnwrapped : (ℕ → Option ℕ) → HandleOrHandleCap → Type 0
IsUnwrapped arrives (handle idx) = Unit
IsUnwrapped arrives (handle_cap cptr) = (badge : ℕ) × (arrives cptr ≡ some badge)

-- The mark of a capability is no handle.
abbrev pub IsUnmarked : HandleOrHandleCap → Type 0
IsUnmarked (handle idx) = idx ≢ max_word
IsUnmarked (handle_cap cptr) = Unit

-- What a call must meet for the server to see it: its capabilities are of the kind that the
-- invocation takes, its names fit, and its priority is a byte.
abbrev pub Sendable : (ℕ → Option ℕ) → Option (List ℕ) → Call → Type 0
Sendable arrives buf (Call.conn_create slot server_name) = Fits buf (server_name ∷ [])
Sendable arrives buf (Call.conn_publish ntfn_buffer slot name) = Fits buf (name ∷ [])
Sendable arrives buf (Call.window_register publish_hndl window_hndl_cap client_id reference) =
    (badge : ℕ) × (arrives window_hndl_cap ≡ some badge)
Sendable arrives buf (Call.window_destroy hndl) = IsUnwrapped arrives hndl
Sendable arrives buf (Call.process_spawn executable_name fs_name prio argv) =
    (prio < 256) × (argv ≢ some []) × Fits buf (executable_name ∷ fs_name ∷ argv_names argv)
Sendable arrives buf (Call.channel_open channel_hndl_cap ntfn_slot) =
    (badge : ℕ) × (arrives channel_hndl_cap ≡ some badge)
Sendable arrives buf (Call.obj_create (some name) size rights attributes return_cap) =
    Fits buf (name ∷ [])
Sendable arrives buf (Call.obj_open name rights return_cap) = Fits buf (name ∷ [])
Sendable arrives buf (Call.obj_close hndl) = IsUnwrapped arrives hndl
Sendable arrives buf (Call.obj_destroy hndl) = IsUnwrapped arrives hndl
Sendable arrives buf (Call.obj_stat hndl) = IsUnwrapped arrives hndl
Sendable arrives buf (Call.view win obj win_offset obj_offset size rights) =
    IsUnmarked win × IsUnmarked obj × IsUnwrapped arrives obj
Sendable arrives buf (Call.sddf_channel_register_bidirectional hndl_cap kind slot) =
    arrives hndl_cap ≡ none
Sendable arrives buf (Call.sddf_channel_register_recv_only hndl_cap) = arrives hndl_cap ≡ none
Sendable arrives buf (Call.sddf_queue_register obj_hndl_cap size kind) = arrives obj_hndl_cap ≡ none
Sendable arrives buf (Call.sddf_data_region_provide obj_hndl_cap size) = arrives obj_hndl_cap ≡ none
Sendable arrives buf _ = Unit
