-- ===== src/Syscall/Serve/Refusal/Arms.antt =====
-- The errors of each arm of the decoding are reported to the client.
use smos_thesis.Base.{ℕ, zero, suc, ◌≡◌, true, List, inl, inr, arith, err, ret, Result-cases}
use smos_thesis.Common.Errors.{InvocationError}
use smos_thesis.Common.Invocations.{SmosInvocation}
use smos_thesis.Server.Errors.{is_reported}
use smos_thesis.Syscall.Decode.{
  get_window_create, get_window_destroy, get_obj_close, get_obj_destroy,
  get_sddf_channel_register_bidirectional, get_sddf_channel_register_receive_only,
  get_sddf_queue_register, get_sddf_provide_data_region, get_window_register,
  get_server_create_channel, get_channel_open, get_window_deregister, get_page_map, get_conn_create,
  get_conn_publish,
}
use smos_thesis.Syscall.Decode.Objects.{
  get_obj_create, get_obj_open, get_obj_stat, get_view, get_view_window, get_view_object,
  get_unview, get_conn_destroy, get_conn_deregister, get_load_complete, get_conn_open,
  get_conn_register, get_irq_register, get_server_handle_cap_create, get_proc_spawn, get_proc_wait,
  read_args,
}
use smos_thesis.Syscall.GetWith.{get_label}
use smos_thesis.Syscall.Request.{Request}
use smos_thesis.Syscall.Text.{rust_str_from_buffer}

rust_str_from_buffer-reported :
    (buffer : List ℕ) (e : InvocationError)
    → rust_str_from_buffer buffer ≡ err e
    → is_reported e ≡ true
unfolding rust_str_from_buffer
rust_str_from_buffer-reported buffer e h = ground arith

read_args-reported :
    (n : ℕ) (buffer : List ℕ) (e : InvocationError)
    → read_args n buffer ≡ ret (err e)
    → is_reported e ≡ true
unfolding read_args
read_args-reported zero buffer e h = cc
read_args-reported (suc n) buffer e h = elim (Result-cases (rust_str_from_buffer buffer)) [
  | inl (x, k) ↦ ground (arith, k, rust_str_from_buffer-reported buffer x k)
  | inr (out, k) ↦ ground (arith, k, read_args-reported n out.1 e)
]

module _ (m : Request) (e : InvocationError) where
  get_window_create-reported : get_window_create m ≡ ret (err e) → is_reported e ≡ true
  unfolding get_window_create
  get_window_create-reported h = ground arith

  get_window_destroy-reported : get_window_destroy m ≡ ret (err e) → is_reported e ≡ true
  unfolding get_window_destroy
  get_window_destroy-reported h = ground arith

  get_obj_close-reported : get_obj_close m ≡ ret (err e) → is_reported e ≡ true
  unfolding get_obj_close
  get_obj_close-reported h = ground arith

  get_obj_destroy-reported : get_obj_destroy m ≡ ret (err e) → is_reported e ≡ true
  unfolding get_obj_destroy
  get_obj_destroy-reported h = ground arith

  get_sddf_channel_register_bidirectional-reported :
      get_sddf_channel_register_bidirectional m ≡ ret (err e) → is_reported e ≡ true
  unfolding get_sddf_channel_register_bidirectional
  get_sddf_channel_register_bidirectional-reported h = ground arith

  get_sddf_channel_register_receive_only-reported :
      get_sddf_channel_register_receive_only m ≡ ret (err e) → is_reported e ≡ true
  unfolding get_sddf_channel_register_receive_only
  get_sddf_channel_register_receive_only-reported h = ground arith

  get_sddf_queue_register-reported : get_sddf_queue_register m ≡ ret (err e) → is_reported e ≡ true
  unfolding get_sddf_queue_register
  get_sddf_queue_register-reported h = ground arith

  get_sddf_provide_data_region-reported :
      get_sddf_provide_data_region m ≡ ret (err e) → is_reported e ≡ true
  unfolding get_sddf_provide_data_region
  get_sddf_provide_data_region-reported h = ground arith

  get_window_register-reported : get_window_register m ≡ ret (err e) → is_reported e ≡ true
  unfolding get_window_register
  get_window_register-reported h = ground arith

  get_server_create_channel-reported :
      get_server_create_channel m ≡ ret (err e) → is_reported e ≡ true
  unfolding get_server_create_channel
  get_server_create_channel-reported h = ground arith

  get_channel_open-reported : get_channel_open m ≡ ret (err e) → is_reported e ≡ true
  unfolding get_channel_open
  get_channel_open-reported h = ground arith

  get_window_deregister-reported : get_window_deregister m ≡ ret (err e) → is_reported e ≡ true
  unfolding get_window_deregister
  get_window_deregister-reported h = ground arith

  get_page_map-reported : get_page_map m ≡ ret (err e) → is_reported e ≡ true
  unfolding get_page_map
  get_page_map-reported h = ground arith

  get_conn_create-reported : get_conn_create m ≡ ret (err e) → is_reported e ≡ true
  unfolding get_conn_create
  get_conn_create-reported h = grind (arith, rust_str_from_buffer-reported)

  get_conn_publish-reported : get_conn_publish m ≡ ret (err e) → is_reported e ≡ true
  unfolding get_conn_publish
  get_conn_publish-reported h = grind (arith, rust_str_from_buffer-reported)

  get_obj_create-reported : get_obj_create m ≡ ret (err e) → is_reported e ≡ true
  unfolding get_obj_create
  get_obj_create-reported h = grind (arith, rust_str_from_buffer-reported)

  get_obj_open-reported : get_obj_open m ≡ ret (err e) → is_reported e ≡ true
  unfolding get_obj_open
  get_obj_open-reported h = grind (arith, rust_str_from_buffer-reported)

  get_obj_stat-reported : get_obj_stat m ≡ ret (err e) → is_reported e ≡ true
  unfolding get_obj_stat
  get_obj_stat-reported h = ground arith

  get_view-reported : get_view m ≡ ret (err e) → is_reported e ≡ true
  unfolding get_view get_view_window get_view_object
  get_view-reported h = ground arith

  get_unview-reported : get_unview m ≡ ret (err e) → is_reported e ≡ true
  unfolding get_unview
  get_unview-reported h = ground arith

  get_conn_destroy-reported : get_conn_destroy m ≡ ret (err e) → is_reported e ≡ true
  unfolding get_conn_destroy
  get_conn_destroy-reported h = ground arith

  get_conn_deregister-reported : get_conn_deregister m ≡ ret (err e) → is_reported e ≡ true
  unfolding get_conn_deregister
  get_conn_deregister-reported h = ground arith

  get_load_complete-reported : get_load_complete m ≡ ret (err e) → is_reported e ≡ true
  unfolding get_load_complete
  get_load_complete-reported h = ground arith

  get_conn_open-reported : get_conn_open m ≡ ret (err e) → is_reported e ≡ true
  unfolding get_conn_open
  get_conn_open-reported h = ground arith

  get_conn_register-reported : get_conn_register m ≡ ret (err e) → is_reported e ≡ true
  unfolding get_conn_register
  get_conn_register-reported h = ground arith

  get_irq_register-reported : get_irq_register m ≡ ret (err e) → is_reported e ≡ true
  unfolding get_irq_register
  get_irq_register-reported h = ground arith

  get_server_handle_cap_create-reported :
      get_server_handle_cap_create m ≡ ret (err e) → is_reported e ≡ true
  unfolding get_server_handle_cap_create
  get_server_handle_cap_create-reported h = ground arith

  get_proc_spawn-reported : get_proc_spawn m ≡ ret (err e) → is_reported e ≡ true
  unfolding get_proc_spawn
  get_proc_spawn-reported h = grind (arith, rust_str_from_buffer-reported, read_args-reported)

  get_proc_wait-reported : get_proc_wait m ≡ ret (err e) → is_reported e ≡ true
  unfolding get_proc_wait
  get_proc_wait-reported h = ground arith

  pub get_label-reported :
      (label : SmosInvocation) → get_label label m ≡ ret (err e) → is_reported e ≡ true
  unfolding get_label
  get_label-reported SmosInvocation.window_create h = get_window_create-reported h
  get_label-reported SmosInvocation.window_destroy h = get_window_destroy-reported h
  get_label-reported SmosInvocation.obj_close h = get_obj_close-reported h
  get_label-reported SmosInvocation.obj_destroy h = get_obj_destroy-reported h
  get_label-reported SmosInvocation.sddf_channel_register_bidirectional h =
      get_sddf_channel_register_bidirectional-reported h
  get_label-reported SmosInvocation.sddf_channel_register_receive_only h =
      get_sddf_channel_register_receive_only-reported h
  get_label-reported SmosInvocation.sddf_queue_register h = get_sddf_queue_register-reported h
  get_label-reported SmosInvocation.sddf_provide_data_region h =
      get_sddf_provide_data_region-reported h
  get_label-reported SmosInvocation.window_register h = get_window_register-reported h
  get_label-reported SmosInvocation.server_create_channel h = get_server_create_channel-reported h
  get_label-reported SmosInvocation.channel_open h = get_channel_open-reported h
  get_label-reported SmosInvocation.window_deregister h = get_window_deregister-reported h
  get_label-reported SmosInvocation.page_map h = get_page_map-reported h
  get_label-reported SmosInvocation.conn_create h = get_conn_create-reported h
  get_label-reported SmosInvocation.conn_publish h = get_conn_publish-reported h
  get_label-reported SmosInvocation.obj_create h = get_obj_create-reported h
  get_label-reported SmosInvocation.obj_open h = get_obj_open-reported h
  get_label-reported SmosInvocation.obj_stat h = get_obj_stat-reported h
  get_label-reported SmosInvocation.view h = get_view-reported h
  get_label-reported SmosInvocation.unview h = get_unview-reported h
  get_label-reported SmosInvocation.conn_destroy h = get_conn_destroy-reported h
  get_label-reported SmosInvocation.conn_deregister h = get_conn_deregister-reported h
  get_label-reported SmosInvocation.load_complete h = get_load_complete-reported h
  get_label-reported SmosInvocation.conn_open h = get_conn_open-reported h
  get_label-reported SmosInvocation.conn_register h = get_conn_register-reported h
  get_label-reported SmosInvocation.irq_register h = get_irq_register-reported h
  get_label-reported SmosInvocation.server_handle_cap_create h =
      get_server_handle_cap_create-reported h
  get_label-reported SmosInvocation.proc_spawn h = get_proc_spawn-reported h
  get_label-reported SmosInvocation.proc_wait h = get_proc_wait-reported h
  get_label-reported _ h = cc
