-- ===== src/Syscall/Serve/Slot/Arms.antt =====
-- The arms of the decoding that hold the capability of the receive slot take that slot.
use Prim.Native.Nat.{bit_and}
use native.Mathlib.Decide.{dec_le}
use smos_thesis.Base.{
  ℕ, zero, suc, ◌^◌, ◌≤◌, ◌≡◌, refl, Bool, true, false, not, ◌||◌, arith, ok, ret, ◌==◌,
  if◌then◌else◌,
}
use smos_thesis.Common.Invocations.{SmosInvocation}
use smos_thesis.Syscall.Decode.{
  get_window_create, get_window_destroy, get_obj_close, get_obj_destroy,
  get_sddf_channel_register_bidirectional, get_sddf_channel_register_receive_only,
  get_sddf_queue_register, get_sddf_provide_data_region, get_window_register,
  get_server_create_channel, get_channel_open, get_window_deregister, get_page_map, get_conn_create,
  get_conn_publish,
}
use smos_thesis.Syscall.Decode.Objects.{
  get_view_window, get_view_object, get_obj_create, get_obj_open, get_obj_stat, get_view,
  get_unview, get_conn_destroy, get_conn_deregister, get_load_complete, get_conn_open,
  get_conn_register, get_irq_register, get_server_handle_cap_create, get_proc_spawn, get_proc_wait,
}
use smos_thesis.Syscall.GetWith.{get_label, consumes}
use smos_thesis.Syscall.Invocation.{Invocation, contains_cap}
use smos_thesis.Syscall.Request.{Request}

-- A test that passes at every number up to a bound.
holds_to : (test : ℕ → Bool) (bound : ℕ) → Bool
holds_to test zero = test 0
holds_to test (suc bound) = if test (suc bound) then holds_to test bound else false

test_of_holds_to :
    (test : ℕ → Bool) (bound n : ℕ) → n ≤ bound → holds_to test bound ≡ true → test n ≡ true
unfolding holds_to
test_of_holds_to test zero zero h e = e
test_of_holds_to test zero (suc n) h e = absurd (omega arith)
test_of_holds_to test (suc bound) n h e = elim (dec_le n bound) [
  | yes below ↦ ground (arith, test_of_holds_to test bound n below)
  | no above ↦ (let top : n ≡ suc bound = omega arith in rw top (ground arith))
]

abbrev first_wrapped : ℕ → ℕ → Bool
first_wrapped e k = (e == 0) || (not (bit_and k (2 ^ 0) == 0) || consumes e k)

-- Every pair that the fields of a message tag can hold.
consumes_table : holds_to (λ e. holds_to (λ k. first_wrapped e k) 7) 3 ≡ true
unfolding holds_to consumes
consumes_table = refl

first_wrapped-consumes :
    (e k : ℕ) → 1 ≤ e → e ≤ 3 → k ≤ 7 → (bit_and k (2 ^ 0) == 0) ≡ true → consumes e k ≡ true
first_wrapped-consumes e k some_cap small few h =
    let row =
      test_of_holds_to (λ n. holds_to (λ i. first_wrapped n i) 7) 3 e small consumes_table in
    let cell = test_of_holds_to (λ i. first_wrapped e i) 7 k few row in ground (arith, h, cell)

pub none_unwrapped-consumes : (e k : ℕ) → e ≡ 1 → k ≡ 0 → consumes e k ≡ true
none_unwrapped-consumes e k one none_came =
    first_wrapped-consumes e k (omega arith) (omega arith) (omega arith) (rw none_came refl)

module _ (m : Request) (small : m.info.extra_caps ≤ 3) (few : m.info.caps_unwrapped ≤ 7)
    (inv : Invocation) (holds : contains_cap inv ≡ true) where
  get_window_create-holds :
      get_window_create m ≡ ret (ok inv) → consumes m.info.extra_caps m.info.caps_unwrapped ≡ true
  unfolding get_window_create contains_cap
  get_window_create-holds h = ground arith

  get_window_destroy-holds :
      get_window_destroy m ≡ ret (ok inv) → consumes m.info.extra_caps m.info.caps_unwrapped ≡ true
  unfolding get_window_destroy contains_cap
  get_window_destroy-holds h = ground arith

  get_obj_close-holds :
      get_obj_close m ≡ ret (ok inv) → consumes m.info.extra_caps m.info.caps_unwrapped ≡ true
  unfolding get_obj_close contains_cap
  get_obj_close-holds h = ground arith

  get_obj_destroy-holds :
      get_obj_destroy m ≡ ret (ok inv) → consumes m.info.extra_caps m.info.caps_unwrapped ≡ true
  unfolding get_obj_destroy contains_cap
  get_obj_destroy-holds h = ground arith

  get_sddf_channel_register_bidirectional-holds :
      get_sddf_channel_register_bidirectional m ≡ ret (ok inv)
      → consumes m.info.extra_caps m.info.caps_unwrapped ≡ true
  unfolding get_sddf_channel_register_bidirectional contains_cap
  get_sddf_channel_register_bidirectional-holds h =
      ground (arith, none_unwrapped-consumes m.info.extra_caps m.info.caps_unwrapped)

  get_sddf_channel_register_receive_only-holds :
      get_sddf_channel_register_receive_only m ≡ ret (ok inv)
      → consumes m.info.extra_caps m.info.caps_unwrapped ≡ true
  unfolding get_sddf_channel_register_receive_only contains_cap
  get_sddf_channel_register_receive_only-holds h =
      ground (arith, none_unwrapped-consumes m.info.extra_caps m.info.caps_unwrapped)

  get_sddf_queue_register-holds :
      get_sddf_queue_register m ≡ ret (ok inv)
      → consumes m.info.extra_caps m.info.caps_unwrapped ≡ true
  unfolding get_sddf_queue_register contains_cap
  get_sddf_queue_register-holds h =
      ground (arith, none_unwrapped-consumes m.info.extra_caps m.info.caps_unwrapped)

  get_sddf_provide_data_region-holds :
      get_sddf_provide_data_region m ≡ ret (ok inv)
      → consumes m.info.extra_caps m.info.caps_unwrapped ≡ true
  unfolding get_sddf_provide_data_region contains_cap
  get_sddf_provide_data_region-holds h =
      ground (arith, none_unwrapped-consumes m.info.extra_caps m.info.caps_unwrapped)

  get_window_register-holds :
      get_window_register m ≡ ret (ok inv) → consumes m.info.extra_caps m.info.caps_unwrapped ≡ true
  unfolding get_window_register contains_cap
  get_window_register-holds h = ground arith

  get_server_create_channel-holds :
      get_server_create_channel m ≡ ret (ok inv)
      → consumes m.info.extra_caps m.info.caps_unwrapped ≡ true
  unfolding get_server_create_channel contains_cap
  get_server_create_channel-holds h = ground arith

  get_channel_open-holds :
      get_channel_open m ≡ ret (ok inv) → consumes m.info.extra_caps m.info.caps_unwrapped ≡ true
  unfolding get_channel_open contains_cap
  get_channel_open-holds h = ground arith

  get_window_deregister-holds :
      get_window_deregister m ≡ ret (ok inv)
      → consumes m.info.extra_caps m.info.caps_unwrapped ≡ true
  unfolding get_window_deregister contains_cap
  get_window_deregister-holds h = ground arith

  get_page_map-holds :
      get_page_map m ≡ ret (ok inv) → consumes m.info.extra_caps m.info.caps_unwrapped ≡ true
  unfolding get_page_map contains_cap
  get_page_map-holds h = ground arith

  get_conn_create-holds :
      get_conn_create m ≡ ret (ok inv) → consumes m.info.extra_caps m.info.caps_unwrapped ≡ true
  unfolding get_conn_create contains_cap
  get_conn_create-holds h = ground arith

  get_conn_publish-holds :
      get_conn_publish m ≡ ret (ok inv) → consumes m.info.extra_caps m.info.caps_unwrapped ≡ true
  unfolding get_conn_publish contains_cap
  get_conn_publish-holds h = ground arith

  get_obj_create-holds :
      get_obj_create m ≡ ret (ok inv) → consumes m.info.extra_caps m.info.caps_unwrapped ≡ true
  unfolding get_obj_create contains_cap
  get_obj_create-holds h = ground arith

  get_obj_open-holds :
      get_obj_open m ≡ ret (ok inv) → consumes m.info.extra_caps m.info.caps_unwrapped ≡ true
  unfolding get_obj_open contains_cap
  get_obj_open-holds h = ground arith

  get_obj_stat-holds :
      get_obj_stat m ≡ ret (ok inv) → consumes m.info.extra_caps m.info.caps_unwrapped ≡ true
  unfolding get_obj_stat contains_cap
  get_obj_stat-holds h = ground arith

  get_view-holds :
      get_view m ≡ ret (ok inv) → consumes m.info.extra_caps m.info.caps_unwrapped ≡ true
  unfolding get_view get_view_window get_view_object contains_cap
  get_view-holds h = ground (arith, first_wrapped-consumes m.info.extra_caps m.info.caps_unwrapped)

  get_unview-holds :
      get_unview m ≡ ret (ok inv) → consumes m.info.extra_caps m.info.caps_unwrapped ≡ true
  unfolding get_unview contains_cap
  get_unview-holds h = ground arith

  get_conn_destroy-holds :
      get_conn_destroy m ≡ ret (ok inv) → consumes m.info.extra_caps m.info.caps_unwrapped ≡ true
  unfolding get_conn_destroy contains_cap
  get_conn_destroy-holds h = ground arith

  get_conn_deregister-holds :
      get_conn_deregister m ≡ ret (ok inv) → consumes m.info.extra_caps m.info.caps_unwrapped ≡ true
  unfolding get_conn_deregister contains_cap
  get_conn_deregister-holds h = ground arith

  get_load_complete-holds :
      get_load_complete m ≡ ret (ok inv) → consumes m.info.extra_caps m.info.caps_unwrapped ≡ true
  unfolding get_load_complete contains_cap
  get_load_complete-holds h = ground arith

  get_conn_open-holds :
      get_conn_open m ≡ ret (ok inv) → consumes m.info.extra_caps m.info.caps_unwrapped ≡ true
  unfolding get_conn_open contains_cap
  get_conn_open-holds h =
      ground (arith, first_wrapped-consumes m.info.extra_caps m.info.caps_unwrapped)

  get_conn_register-holds :
      get_conn_register m ≡ ret (ok inv) → consumes m.info.extra_caps m.info.caps_unwrapped ≡ true
  unfolding get_conn_register contains_cap
  get_conn_register-holds h = ground arith

  get_irq_register-holds :
      get_irq_register m ≡ ret (ok inv) → consumes m.info.extra_caps m.info.caps_unwrapped ≡ true
  unfolding get_irq_register contains_cap
  get_irq_register-holds h = ground arith

  get_server_handle_cap_create-holds :
      get_server_handle_cap_create m ≡ ret (ok inv)
      → consumes m.info.extra_caps m.info.caps_unwrapped ≡ true
  unfolding get_server_handle_cap_create contains_cap
  get_server_handle_cap_create-holds h = ground arith

  get_proc_spawn-holds :
      get_proc_spawn m ≡ ret (ok inv) → consumes m.info.extra_caps m.info.caps_unwrapped ≡ true
  unfolding get_proc_spawn contains_cap
  get_proc_spawn-holds h = ground arith

  get_proc_wait-holds :
      get_proc_wait m ≡ ret (ok inv) → consumes m.info.extra_caps m.info.caps_unwrapped ≡ true
  unfolding get_proc_wait contains_cap
  get_proc_wait-holds h = ground arith

  pub get_label-holds :
      (label : SmosInvocation)
      → get_label label m ≡ ret (ok inv)
      → consumes m.info.extra_caps m.info.caps_unwrapped ≡ true
  unfolding get_label contains_cap
  get_label-holds SmosInvocation.window_create h = get_window_create-holds h
  get_label-holds SmosInvocation.window_destroy h = get_window_destroy-holds h
  get_label-holds SmosInvocation.obj_close h = get_obj_close-holds h
  get_label-holds SmosInvocation.obj_destroy h = get_obj_destroy-holds h
  get_label-holds SmosInvocation.sddf_channel_register_bidirectional h =
      get_sddf_channel_register_bidirectional-holds h
  get_label-holds SmosInvocation.sddf_channel_register_receive_only h =
      get_sddf_channel_register_receive_only-holds h
  get_label-holds SmosInvocation.sddf_queue_register h = get_sddf_queue_register-holds h
  get_label-holds SmosInvocation.sddf_provide_data_region h = get_sddf_provide_data_region-holds h
  get_label-holds SmosInvocation.window_register h = get_window_register-holds h
  get_label-holds SmosInvocation.server_create_channel h = get_server_create_channel-holds h
  get_label-holds SmosInvocation.channel_open h = get_channel_open-holds h
  get_label-holds SmosInvocation.window_deregister h = get_window_deregister-holds h
  get_label-holds SmosInvocation.page_map h = get_page_map-holds h
  get_label-holds SmosInvocation.conn_create h = get_conn_create-holds h
  get_label-holds SmosInvocation.conn_publish h = get_conn_publish-holds h
  get_label-holds SmosInvocation.obj_create h = get_obj_create-holds h
  get_label-holds SmosInvocation.obj_open h = get_obj_open-holds h
  get_label-holds SmosInvocation.obj_stat h = get_obj_stat-holds h
  get_label-holds SmosInvocation.view h = get_view-holds h
  get_label-holds SmosInvocation.unview h = get_unview-holds h
  get_label-holds SmosInvocation.conn_destroy h = get_conn_destroy-holds h
  get_label-holds SmosInvocation.conn_deregister h = get_conn_deregister-holds h
  get_label-holds SmosInvocation.load_complete h = get_load_complete-holds h
  get_label-holds SmosInvocation.conn_open h = get_conn_open-holds h
  get_label-holds SmosInvocation.conn_register h = get_conn_register-holds h
  get_label-holds SmosInvocation.irq_register h = get_irq_register-holds h
  get_label-holds SmosInvocation.server_handle_cap_create h = get_server_handle_cap_create-holds h
  get_label-holds SmosInvocation.proc_spawn h = get_proc_spawn-holds h
  get_label-holds SmosInvocation.proc_wait h = get_proc_wait-holds h
  get_label-holds _ h = ground arith
