-- ===== src/Common/Invocations.antt =====
-- crates/smos-common/src/invocations.rs: the labels of invocations.
use smos_thesis.Base.{
  ℕ, ◌≡◌, refl, ◌∙◌, Bool, true, false, List, [], ◌∷◌, Option, some, arith, get_elem?,
}
use smos_thesis.Common.Enum.{Numbered, number_of_get}

pub data SmosInvocation : Type 0 where
  window_create window_destroy window_register window_deregister obj_create obj_destroy :
      SmosInvocation
  obj_open obj_close view unview obj_stat conn_create conn_destroy conn_open conn_close :
      SmosInvocation
  conn_publish conn_unpublish conn_register conn_deregister test_simple authorise proc_spawn :
      SmosInvocation
  proc_wait proc_exit proc_destroy proc_create_complete reply_create reply_destroy : SmosInvocation
  server_handle_cap_create server_handle_cap_destroy dir_open dir_close dir_read page_map :
      SmosInvocation
  page_unmap load_complete irq_register sddf_channel_register_bidirectional : SmosInvocation
  sddf_channel_register_receive_only sddf_queue_register sddf_get_data_region : SmosInvocation
  sddf_provide_data_region server_create_channel channel_open : SmosInvocation

-- The number of a variant: 0, and one more at each.
abbrev pub into_u64 : SmosInvocation → ℕ
into_u64 window_create = 0
into_u64 window_destroy = 1
into_u64 window_register = 2
into_u64 window_deregister = 3
into_u64 obj_create = 4
into_u64 obj_destroy = 5
into_u64 obj_open = 6
into_u64 obj_close = 7
into_u64 view = 8
into_u64 unview = 9
into_u64 obj_stat = 10
into_u64 conn_create = 11
into_u64 conn_destroy = 12
into_u64 conn_open = 13
into_u64 conn_close = 14
into_u64 conn_publish = 15
into_u64 conn_unpublish = 16
into_u64 conn_register = 17
into_u64 conn_deregister = 18
into_u64 test_simple = 19
into_u64 authorise = 20
into_u64 proc_spawn = 21
into_u64 proc_wait = 22
into_u64 proc_exit = 23
into_u64 proc_destroy = 24
into_u64 proc_create_complete = 25
into_u64 reply_create = 26
into_u64 reply_destroy = 27
into_u64 server_handle_cap_create = 28
into_u64 server_handle_cap_destroy = 29
into_u64 dir_open = 30
into_u64 dir_close = 31
into_u64 dir_read = 32
into_u64 page_map = 33
into_u64 page_unmap = 34
into_u64 load_complete = 35
into_u64 irq_register = 36
into_u64 sddf_channel_register_bidirectional = 37
into_u64 sddf_channel_register_receive_only = 38
into_u64 sddf_queue_register = 39
into_u64 sddf_get_data_region = 40
into_u64 sddf_provide_data_region = 41
into_u64 server_create_channel = 42
into_u64 channel_open = 43

abbrev pub variants : List SmosInvocation
variants =
    window_create ∷ window_destroy ∷ window_register ∷ window_deregister ∷ obj_create ∷ obj_destroy
    ∷ obj_open ∷ obj_close ∷ view ∷ unview ∷ obj_stat ∷ conn_create ∷ conn_destroy ∷ conn_open
    ∷ conn_close ∷ conn_publish ∷ conn_unpublish ∷ conn_register ∷ conn_deregister ∷ test_simple
    ∷ authorise ∷ proc_spawn ∷ proc_wait ∷ proc_exit ∷ proc_destroy ∷ proc_create_complete
    ∷ reply_create ∷ reply_destroy ∷ server_handle_cap_create ∷ server_handle_cap_destroy ∷ dir_open
    ∷ dir_close ∷ dir_read ∷ page_map ∷ page_unmap ∷ load_complete ∷ irq_register
    ∷ sddf_channel_register_bidirectional ∷ sddf_channel_register_receive_only ∷ sddf_queue_register
    ∷ sddf_get_data_region ∷ sddf_provide_data_region ∷ server_create_channel ∷ channel_open ∷ []

unfoldable pub try_from_u64 : ℕ → Option SmosInvocation
try_from_u64 n = get_elem? variants n

unfoldable pub can_contain_wrapped_cap : SmosInvocation → Bool
can_contain_wrapped_cap sddf_channel_register_bidirectional = true
can_contain_wrapped_cap sddf_channel_register_receive_only = true
can_contain_wrapped_cap sddf_queue_register = true
can_contain_wrapped_cap sddf_provide_data_region = true
can_contain_wrapped_cap view = true
can_contain_wrapped_cap conn_open = true
can_contain_wrapped_cap _ = false

-- Every label decodes to its invocation.
pub try_from_u64-into_u64 : (i : SmosInvocation) → try_from_u64 (into_u64 i) ≡ some i
unfolding try_from_u64
try_from_u64-into_u64 window_create = refl
try_from_u64-into_u64 window_destroy = refl
try_from_u64-into_u64 window_register = refl
try_from_u64-into_u64 window_deregister = refl
try_from_u64-into_u64 obj_create = refl
try_from_u64-into_u64 obj_destroy = refl
try_from_u64-into_u64 obj_open = refl
try_from_u64-into_u64 obj_close = refl
try_from_u64-into_u64 view = refl
try_from_u64-into_u64 unview = refl
try_from_u64-into_u64 obj_stat = refl
try_from_u64-into_u64 conn_create = refl
try_from_u64-into_u64 conn_destroy = refl
try_from_u64-into_u64 conn_open = refl
try_from_u64-into_u64 conn_close = refl
try_from_u64-into_u64 conn_publish = refl
try_from_u64-into_u64 conn_unpublish = refl
try_from_u64-into_u64 conn_register = refl
try_from_u64-into_u64 conn_deregister = refl
try_from_u64-into_u64 test_simple = refl
try_from_u64-into_u64 authorise = refl
try_from_u64-into_u64 proc_spawn = refl
try_from_u64-into_u64 proc_wait = refl
try_from_u64-into_u64 proc_exit = refl
try_from_u64-into_u64 proc_destroy = refl
try_from_u64-into_u64 proc_create_complete = refl
try_from_u64-into_u64 reply_create = refl
try_from_u64-into_u64 reply_destroy = refl
try_from_u64-into_u64 server_handle_cap_create = refl
try_from_u64-into_u64 server_handle_cap_destroy = refl
try_from_u64-into_u64 dir_open = refl
try_from_u64-into_u64 dir_close = refl
try_from_u64-into_u64 dir_read = refl
try_from_u64-into_u64 page_map = refl
try_from_u64-into_u64 page_unmap = refl
try_from_u64-into_u64 load_complete = refl
try_from_u64-into_u64 irq_register = refl
try_from_u64-into_u64 sddf_channel_register_bidirectional = refl
try_from_u64-into_u64 sddf_channel_register_receive_only = refl
try_from_u64-into_u64 sddf_queue_register = refl
try_from_u64-into_u64 sddf_get_data_region = refl
try_from_u64-into_u64 sddf_provide_data_region = refl
try_from_u64-into_u64 server_create_channel = refl
try_from_u64-into_u64 channel_open = refl

-- And only its own label decodes to an invocation.
pub into_u64_of_try_from : (n : ℕ) (i : SmosInvocation) → try_from_u64 n ≡ some i → into_u64 i ≡ n
unfolding try_from_u64
into_u64_of_try_from n i e = number_of_get into_u64 0 variants n i numbered e ∙ omega arith
  where
    numbered : Numbered into_u64 0 variants
    numbered = omega arith
