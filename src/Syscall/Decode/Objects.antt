-- ===== src/Syscall/Decode/Objects.antt =====
-- crates/smos-server/src/syscalls.rs: the arms of `get_with` for objects, views, connections and
-- processes.
use Prim.Native.Nat.{bit_and}
use smos_thesis.Base.{
  ℕ, zero, suc, ◌+◌, ◌^◌, Bool, not, List, [], ◌∷◌, Option, none, some, panic, ltb, ◌==◌,
  if◌then◌else◌,
}
use smos_thesis.Word.{max_word}
use smos_thesis.Common.Errors.{invalid_arguments}
use smos_thesis.Server.Handles.{
  ServerReceivedHandleOrHandleCap, handle, unwrapped_handle_cap, wrapped_handle_cap,
}
use smos_thesis.Syscall.Text.{rust_str_from_buffer}
use smos_thesis.Syscall.Invocation.{Invocation}
use smos_thesis.Syscall.Request.{
  Request, Decode, done, refuse, ◌>>=◌, ◌>>◌, reject_if, try, f_msg, f_cap, the_buffer,
}
use smos_thesis.Syscall.Decode.{to_bool}

-- The name is in the shared buffer if the first register says so.
abbrev get_name : Request → ℕ → Decode (Option (List ℕ))
get_name m has_name =
    if to_bool has_name
    then (the_buffer m >>= λ buffer. try (rust_str_from_buffer buffer) >>= λ out. done (some out.0))
    else done none

unfoldable pub get_obj_create : Request → Decode Invocation
get_obj_create m = do
  has_name ← f_msg m 0
  name ← get_name m has_name
  size ← f_msg m 1
  rights ← f_msg m 2
  attributes ← f_msg m 3
  return_cap ← f_msg m 4
  done (
      Invocation.obj_create (record {
        name = name;
        size = size;
        rights = rights;
        attributes = attributes;
        return_cap = to_bool return_cap;
      }))

unfoldable pub get_obj_open : Request → Decode Invocation
get_obj_open m = do
  buffer ← the_buffer m
  name ← try (rust_str_from_buffer buffer)
  rights ← f_msg m 0
  return_cap ← f_msg m 1
  done (
      Invocation.obj_open
        (record { name = name.0; rights = rights; return_cap = to_bool return_cap }))

unfoldable pub get_obj_stat : Request → Decode Invocation
get_obj_stat m = do
  hndl ←
      (if m.info.extra_caps == 1
        then if m.info.caps_unwrapped == 1
          then (f_cap m 0 >>= λ idx. done (unwrapped_handle_cap idx))
          else refuse invalid_arguments
        else if m.info.msg_length == 1
        then (f_msg m 0 >>= λ idx. done (handle idx))
        else refuse invalid_arguments)
  done (Invocation.obj_stat (record { hndl = hndl }))

-- The capability argument `cap_arg_counter` was unwrapped.
abbrev pub cap_unwrapped : Request → ℕ → Bool
cap_unwrapped m cap_arg_counter = not (bit_and m.info.caps_unwrapped (2 ^ cap_arg_counter) == 0)

-- The window and the count of capabilities that it used up.
unfoldable pub get_view_window : Request → ℕ → Decode (ServerReceivedHandleOrHandleCap × ℕ)
get_view_window m window_buf =
    if window_buf == max_word
    then if ltb m.info.extra_caps 1
      then refuse invalid_arguments
      else if cap_unwrapped m 0
      then (f_cap m 0 >>= λ idx. done (unwrapped_handle_cap idx, 1))
      else done (wrapped_handle_cap m.recv_slot, 1)
    else done (handle window_buf, 0)

unfoldable pub get_view_object : Request → ℕ → ℕ → Decode ServerReceivedHandleOrHandleCap
get_view_object m cap_arg_counter object_buf =
    if object_buf == max_word
    then if ltb m.info.extra_caps (cap_arg_counter + 1)
      then refuse invalid_arguments
      else if cap_unwrapped m cap_arg_counter
      then (f_cap m cap_arg_counter >>= λ idx. done (unwrapped_handle_cap idx))
      else refuse invalid_arguments
    else done (handle object_buf)

unfoldable pub get_view : Request → Decode Invocation
get_view m = do
  window_buf ← f_msg m 0
  window ← get_view_window m window_buf
  object_buf ← f_msg m 1
  object ← get_view_object m window.1 object_buf
  window_offset ← f_msg m 2
  obj_offset ← f_msg m 3
  size ← f_msg m 4
  rights ← f_msg m 5
  done (
      Invocation.view (record {
        window = window.0;
        object = object;
        window_offset = window_offset;
        obj_offset = obj_offset;
        size = size;
        rights = rights;
      }))

unfoldable pub get_unview : Request → Decode Invocation
get_unview m = do
  reject_if (not (m.info.msg_length == 1)) invalid_arguments
  hndl ← f_msg m 0
  done (Invocation.unview (record { hndl = record { idx = hndl } }))

unfoldable pub get_conn_destroy : Request → Decode Invocation
get_conn_destroy m = do
  reject_if (not (m.info.msg_length == 1)) invalid_arguments
  hndl ← f_msg m 0
  done (Invocation.conn_destroy (record { hndl = record { idx = hndl } }))

unfoldable pub get_conn_deregister : Request → Decode Invocation
get_conn_deregister m = do
  reject_if (not (m.info.msg_length == 1)) invalid_arguments
  hndl ← f_msg m 0
  done (Invocation.conn_deregister (record { hndl = record { idx = hndl } }))

unfoldable pub get_load_complete : Request → Decode Invocation
get_load_complete m = do
  reject_if (not (m.info.msg_length == 2)) invalid_arguments
  entry_point ← f_msg m 0
  sp ← f_msg m 1
  done (Invocation.load_complete (record { entry_point = entry_point; sp = sp }))

-- The memory object of the shared buffer, whose handle is read from the tag that fits.
abbrev get_buf_hndl : Request → Decode ServerReceivedHandleOrHandleCap
get_buf_hndl m =
    if m.info.extra_caps == 1
    then if cap_unwrapped m 0
      then (f_cap m 0 >>= λ idx. done (unwrapped_handle_cap idx))
      else done (wrapped_handle_cap m.recv_slot)
    else (f_msg m 0 >>= λ idx. done (handle idx))

unfoldable pub get_conn_open : Request → Decode Invocation
get_conn_open m =
    if m.info.msg_length == 0
    then done (Invocation.conn_open (record { shared_buf_obj = none }))
    else do
      object ← get_buf_hndl m
      size ← f_msg m 1
      done (Invocation.conn_open (record { shared_buf_obj = some (object, size) }))

-- Another length is a `todo!()`.
unfoldable pub get_conn_register : Request → Decode Invocation
get_conn_register m = if not (m.info.msg_length == 2) then panic else do
  publish_hndl ← f_msg m 0
  client_id ← f_msg m 1
  done (
      Invocation.conn_register
        (record { publish_hndl = record { idx = publish_hndl }; client_id = client_id }))

unfoldable pub get_irq_register : Request → Decode Invocation
get_irq_register m = do
  reject_if (not (m.info.msg_length == 3)) invalid_arguments
  publish_hndl ← f_msg m 0
  irq_num ← f_msg m 1
  edge_triggered ← f_msg m 2
  done (
      Invocation.irq_register (record {
        publish_hndl = record { idx = publish_hndl };
        irq_num = irq_num;
        edge_triggered = to_bool edge_triggered;
      }))

unfoldable pub get_server_handle_cap_create : Request → Decode Invocation
get_server_handle_cap_create m = do
  reject_if (not (m.info.msg_length == 2)) invalid_arguments
  publish_hndl ← f_msg m 0
  ident ← f_msg m 1
  done (
      Invocation.server_handle_cap_create
        (record { publish_hndl = record { idx = publish_hndl }; ident = ident }))

-- The loop `for _ in 0..f_msg(0)`, which pushes one name in each round.
unfoldable pub read_args : ℕ → List ℕ → Decode (List (List ℕ))
read_args zero buffer = done []
read_args (suc n) buffer = do
  out ← try (rust_str_from_buffer buffer)
  args ← read_args n out.1
  done (out.0 ∷ args)

abbrev get_args : Request → ℕ → List ℕ → Decode (Option (List (List ℕ)))
get_args m n buffer =
    if n == 0 then done none else (read_args n buffer >>= λ args. done (some args))

-- `prio` is a `u8`, and the conversion is an `expect`.
unfoldable pub get_proc_spawn : Request → Decode Invocation
get_proc_spawn m = do
  buffer ← the_buffer m
  reject_if (not (m.info.msg_length == 2)) invalid_arguments
  exec_name ← try (rust_str_from_buffer buffer)
  fs_name ← try (rust_str_from_buffer exec_name.1)
  n ← f_msg m 0
  args ← get_args m n fs_name.1
  prio ← f_msg m 1
  if ltb prio 256
      then done (
          Invocation.process_spawn
            (record { exec_name = exec_name.0; fs_name = fs_name.0; prio = prio; args = args }))
      else panic

unfoldable pub get_proc_wait : Request → Decode Invocation
get_proc_wait m = do
  reject_if (not (m.info.msg_length == 1)) invalid_arguments
  hndl ← f_msg m 0
  done (Invocation.process_wait (record { hndl = record { idx = hndl } }))
