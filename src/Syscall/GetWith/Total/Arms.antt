-- ===== src/Syscall/GetWith/Total/Arms.antt =====
-- The arms of the decoding that do not panic, given the words that they read.
use smos_thesis.Base.{
  ℕ, zero, suc, ◌<◌, ◌≡◌, ◌≢◌, true, List, Option, none, some, inl, inr, arith, panic, get_elem?,
  Result-cases,
}
use smos_thesis.Common.Invocations.{SmosInvocation}
use smos_thesis.Syscall.Decode.{
  get_window_create, get_window_destroy, get_obj_close, get_obj_destroy,
  get_sddf_channel_register_bidirectional, get_sddf_channel_register_receive_only,
  get_sddf_queue_register, get_sddf_provide_data_region, get_window_register,
  get_server_create_channel, get_channel_open, get_window_deregister, get_page_map, get_conn_create,
  get_conn_publish,
}
use smos_thesis.Syscall.Decode.Objects.{
  get_obj_create, get_obj_open, get_obj_stat, get_view, get_view_window, get_view_object,
  get_unview, get_conn_destroy, get_conn_deregister, get_load_complete, get_conn_open,
  get_conn_register, get_irq_register, get_server_handle_cap_create, get_proc_spawn, get_proc_wait,
  read_args,
}
use smos_thesis.Syscall.GetWith.{
  ServerConnection, root_server_connection, object_server_connection, sddf_connection, is_supported,
  get_label,
}
use smos_thesis.Syscall.Text.{rust_str_from_buffer}
use smos_thesis.Syscall.Request.{Request}

-- What keeps the arms from a panic: `TestSimple` always panics, `ConnRegister` does at another
-- length than two, and `ProcSpawn` at a priority that is no byte.
abbrev pub IsAnswerable : SmosInvocation → Request → Type 0
IsAnswerable SmosInvocation.test_simple m = ⊥
IsAnswerable SmosInvocation.conn_register m = m.info.msg_length ≡ 2
IsAnswerable SmosInvocation.proc_spawn m =
    (prio : ℕ) → get_elem? m.ipcbuf.msg_regs 1 ≡ some prio → prio < 256
IsAnswerable _ m = Unit

-- The same of a label that is decoded, if it can be.
abbrev pub IsAnswered : Option SmosInvocation → Request → Type 0
IsAnswered none m = Unit
IsAnswered (some label) m = IsAnswerable label m

read_args-ne-panic : (n : ℕ) (buffer : List ℕ) → read_args n buffer ≢ panic
unfolding read_args
read_args-ne-panic zero buffer e = cc
read_args-ne-panic (suc n) buffer e = elim (Result-cases (rust_str_from_buffer buffer)) [
  | inl (x, h) ↦ ground (arith, h)
  | inr (out, h) ↦ ground (arith, h, read_args-ne-panic n out.1)
]

-- The registers and capabilities that the arms read.
pub record Words (m : Request) (r0 r1 r2 r3 r4 r5 k0 k1 : ℕ) : Type 0 where
  pub e0 : get_elem? m.ipcbuf.msg_regs 0 ≡ some r0
  pub e1 : get_elem? m.ipcbuf.msg_regs 1 ≡ some r1
  pub e2 : get_elem? m.ipcbuf.msg_regs 2 ≡ some r2
  pub e3 : get_elem? m.ipcbuf.msg_regs 3 ≡ some r3
  pub e4 : get_elem? m.ipcbuf.msg_regs 4 ≡ some r4
  pub e5 : get_elem? m.ipcbuf.msg_regs 5 ≡ some r5
  pub b0 : get_elem? m.ipcbuf.caps_or_badges 0 ≡ some k0
  pub b1 : get_elem? m.ipcbuf.caps_or_badges 1 ≡ some k1

module _ (m : Request) {r0 r1 r2 r3 r4 r5 k0 k1 : ℕ} (w : Words m r0 r1 r2 r3 r4 r5 k0 k1) where
  get_window_create-ne-panic : get_window_create m ≢ panic
  unfolding get_window_create
  get_window_create-ne-panic e = ground arith

  get_window_destroy-ne-panic : get_window_destroy m ≢ panic
  unfolding get_window_destroy
  get_window_destroy-ne-panic e = ground arith

  get_obj_close-ne-panic : get_obj_close m ≢ panic
  unfolding get_obj_close
  get_obj_close-ne-panic e = ground arith

  get_obj_destroy-ne-panic : get_obj_destroy m ≢ panic
  unfolding get_obj_destroy
  get_obj_destroy-ne-panic e = ground arith

  get_sddf_channel_register_bidirectional-ne-panic :
      get_sddf_channel_register_bidirectional m ≢ panic
  unfolding get_sddf_channel_register_bidirectional
  get_sddf_channel_register_bidirectional-ne-panic e = ground arith

  get_sddf_channel_register_receive_only-ne-panic : get_sddf_channel_register_receive_only m ≢ panic
  unfolding get_sddf_channel_register_receive_only
  get_sddf_channel_register_receive_only-ne-panic e = ground arith

  get_sddf_queue_register-ne-panic : get_sddf_queue_register m ≢ panic
  unfolding get_sddf_queue_register
  get_sddf_queue_register-ne-panic e = ground arith

  get_sddf_provide_data_region-ne-panic : get_sddf_provide_data_region m ≢ panic
  unfolding get_sddf_provide_data_region
  get_sddf_provide_data_region-ne-panic e = ground arith

  get_window_register-ne-panic : get_window_register m ≢ panic
  unfolding get_window_register
  get_window_register-ne-panic e = ground arith

  get_server_create_channel-ne-panic : get_server_create_channel m ≢ panic
  unfolding get_server_create_channel
  get_server_create_channel-ne-panic e = ground arith

  get_channel_open-ne-panic : get_channel_open m ≢ panic
  unfolding get_channel_open
  get_channel_open-ne-panic e = ground arith

  get_window_deregister-ne-panic : get_window_deregister m ≢ panic
  unfolding get_window_deregister
  get_window_deregister-ne-panic e = ground arith

  get_page_map-ne-panic : get_page_map m ≢ panic
  unfolding get_page_map
  get_page_map-ne-panic e = ground arith

  get_conn_create-ne-panic : get_conn_create m ≢ panic
  unfolding get_conn_create
  get_conn_create-ne-panic e = ground arith

  get_conn_publish-ne-panic : get_conn_publish m ≢ panic
  unfolding get_conn_publish
  get_conn_publish-ne-panic e = ground arith

  get_obj_create-ne-panic : get_obj_create m ≢ panic
  unfolding get_obj_create
  get_obj_create-ne-panic e = ground arith

  get_obj_open-ne-panic : get_obj_open m ≢ panic
  unfolding get_obj_open
  get_obj_open-ne-panic e = ground arith

  get_obj_stat-ne-panic : get_obj_stat m ≢ panic
  unfolding get_obj_stat
  get_obj_stat-ne-panic e = ground arith

  get_view-ne-panic : get_view m ≢ panic
  unfolding get_view get_view_window get_view_object
  get_view-ne-panic e = ground arith

  get_unview-ne-panic : get_unview m ≢ panic
  unfolding get_unview
  get_unview-ne-panic e = ground arith

  get_conn_destroy-ne-panic : get_conn_destroy m ≢ panic
  unfolding get_conn_destroy
  get_conn_destroy-ne-panic e = ground arith

  get_conn_deregister-ne-panic : get_conn_deregister m ≢ panic
  unfolding get_conn_deregister
  get_conn_deregister-ne-panic e = ground arith

  get_load_complete-ne-panic : get_load_complete m ≢ panic
  unfolding get_load_complete
  get_load_complete-ne-panic e = ground arith

  get_conn_open-ne-panic : get_conn_open m ≢ panic
  unfolding get_conn_open
  get_conn_open-ne-panic e = ground arith

  get_irq_register-ne-panic : get_irq_register m ≢ panic
  unfolding get_irq_register
  get_irq_register-ne-panic e = ground arith

  get_server_handle_cap_create-ne-panic : get_server_handle_cap_create m ≢ panic
  unfolding get_server_handle_cap_create
  get_server_handle_cap_create-ne-panic e = ground arith

  get_proc_wait-ne-panic : get_proc_wait m ≢ panic
  unfolding get_proc_wait
  get_proc_wait-ne-panic e = ground arith

  get_conn_register-ne-panic : m.info.msg_length ≡ 2 → get_conn_register m ≢ panic
  unfolding get_conn_register
  get_conn_register-ne-panic two e = ground arith

  get_proc_spawn-ne-panic : r1 < 256 → get_proc_spawn m ≢ panic
  unfolding get_proc_spawn
  get_proc_spawn-ne-panic small e = grind (arith, read_args-ne-panic)

  pub get_label-ne-panic :
      (server : ServerConnection) (label : SmosInvocation)
      → is_supported server label ≡ true
      → IsAnswerable label m
      → get_label label m ≢ panic
  unfolding get_label is_supported
  get_label-ne-panic server SmosInvocation.window_create h a = get_window_create-ne-panic
  get_label-ne-panic server SmosInvocation.window_destroy h a = get_window_destroy-ne-panic
  get_label-ne-panic server SmosInvocation.obj_close h a = get_obj_close-ne-panic
  get_label-ne-panic server SmosInvocation.obj_destroy h a = get_obj_destroy-ne-panic
  get_label-ne-panic server SmosInvocation.sddf_channel_register_bidirectional h a =
      get_sddf_channel_register_bidirectional-ne-panic
  get_label-ne-panic server SmosInvocation.sddf_channel_register_receive_only h a =
      get_sddf_channel_register_receive_only-ne-panic
  get_label-ne-panic server SmosInvocation.sddf_queue_register h a =
      get_sddf_queue_register-ne-panic
  get_label-ne-panic server SmosInvocation.sddf_provide_data_region h a =
      get_sddf_provide_data_region-ne-panic
  get_label-ne-panic server SmosInvocation.window_register h a = get_window_register-ne-panic
  get_label-ne-panic server SmosInvocation.server_create_channel h a =
      get_server_create_channel-ne-panic
  get_label-ne-panic server SmosInvocation.channel_open h a = get_channel_open-ne-panic
  get_label-ne-panic server SmosInvocation.window_deregister h a = get_window_deregister-ne-panic
  get_label-ne-panic server SmosInvocation.page_map h a = get_page_map-ne-panic
  get_label-ne-panic server SmosInvocation.conn_create h a = get_conn_create-ne-panic
  get_label-ne-panic server SmosInvocation.conn_publish h a = get_conn_publish-ne-panic
  get_label-ne-panic server SmosInvocation.obj_create h a = get_obj_create-ne-panic
  get_label-ne-panic server SmosInvocation.obj_open h a = get_obj_open-ne-panic
  get_label-ne-panic server SmosInvocation.obj_stat h a = get_obj_stat-ne-panic
  get_label-ne-panic server SmosInvocation.view h a = get_view-ne-panic
  get_label-ne-panic server SmosInvocation.unview h a = get_unview-ne-panic
  get_label-ne-panic server SmosInvocation.conn_destroy h a = get_conn_destroy-ne-panic
  get_label-ne-panic server SmosInvocation.conn_deregister h a = get_conn_deregister-ne-panic
  get_label-ne-panic server SmosInvocation.load_complete h a = get_load_complete-ne-panic
  get_label-ne-panic server SmosInvocation.conn_open h a = get_conn_open-ne-panic
  get_label-ne-panic server SmosInvocation.irq_register h a = get_irq_register-ne-panic
  get_label-ne-panic server SmosInvocation.server_handle_cap_create h a =
      get_server_handle_cap_create-ne-panic
  get_label-ne-panic server SmosInvocation.proc_wait h a = get_proc_wait-ne-panic
  get_label-ne-panic server SmosInvocation.conn_register h a = get_conn_register-ne-panic a
  get_label-ne-panic server SmosInvocation.proc_spawn h a = get_proc_spawn-ne-panic (a r1 w.e1)
  get_label-ne-panic server SmosInvocation.test_simple h a = absurd a
  get_label-ne-panic server SmosInvocation.conn_close h a = λ e. cc
  get_label-ne-panic server SmosInvocation.reply_create h a = λ e. cc
  get_label-ne-panic server SmosInvocation.proc_exit h a = λ e. cc
  get_label-ne-panic server SmosInvocation.sddf_get_data_region h a = λ e. cc
  get_label-ne-panic root_server_connection SmosInvocation.conn_unpublish h a = λ e. cc
  get_label-ne-panic object_server_connection SmosInvocation.conn_unpublish h a = λ e. cc
  get_label-ne-panic sddf_connection SmosInvocation.conn_unpublish h a = λ e. cc
  get_label-ne-panic root_server_connection SmosInvocation.authorise h a = λ e. cc
  get_label-ne-panic object_server_connection SmosInvocation.authorise h a = λ e. cc
  get_label-ne-panic sddf_connection SmosInvocation.authorise h a = λ e. cc
  get_label-ne-panic root_server_connection SmosInvocation.proc_destroy h a = λ e. cc
  get_label-ne-panic object_server_connection SmosInvocation.proc_destroy h a = λ e. cc
  get_label-ne-panic sddf_connection SmosInvocation.proc_destroy h a = λ e. cc
  get_label-ne-panic root_server_connection SmosInvocation.proc_create_complete h a = λ e. cc
  get_label-ne-panic object_server_connection SmosInvocation.proc_create_complete h a = λ e. cc
  get_label-ne-panic sddf_connection SmosInvocation.proc_create_complete h a = λ e. cc
  get_label-ne-panic root_server_connection SmosInvocation.reply_destroy h a = λ e. cc
  get_label-ne-panic object_server_connection SmosInvocation.reply_destroy h a = λ e. cc
  get_label-ne-panic sddf_connection SmosInvocation.reply_destroy h a = λ e. cc
  get_label-ne-panic root_server_connection SmosInvocation.server_handle_cap_destroy h a = λ e. cc
  get_label-ne-panic object_server_connection SmosInvocation.server_handle_cap_destroy h a = λ e. cc
  get_label-ne-panic sddf_connection SmosInvocation.server_handle_cap_destroy h a = λ e. cc
  get_label-ne-panic root_server_connection SmosInvocation.dir_open h a = λ e. cc
  get_label-ne-panic object_server_connection SmosInvocation.dir_open h a = λ e. cc
  get_label-ne-panic sddf_connection SmosInvocation.dir_open h a = λ e. cc
  get_label-ne-panic root_server_connection SmosInvocation.dir_close h a = λ e. cc
  get_label-ne-panic object_server_connection SmosInvocation.dir_close h a = λ e. cc
  get_label-ne-panic sddf_connection SmosInvocation.dir_close h a = λ e. cc
  get_label-ne-panic root_server_connection SmosInvocation.dir_read h a = λ e. cc
  get_label-ne-panic object_server_connection SmosInvocation.dir_read h a = λ e. cc
  get_label-ne-panic sddf_connection SmosInvocation.dir_read h a = λ e. cc
  get_label-ne-panic root_server_connection SmosInvocation.page_unmap h a = λ e. cc
  get_label-ne-panic object_server_connection SmosInvocation.page_unmap h a = λ e. cc
  get_label-ne-panic sddf_connection SmosInvocation.page_unmap h a = λ e. cc
