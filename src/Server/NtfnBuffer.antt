-- ===== src/Server/NtfnBuffer.antt =====
-- crates/smos-server/src/ntfn_buffer.rs: notifications from the root server to a server, through
-- a ring in shared memory. The ring itself is the `sel4_shared_ring_buffer` crate, a parameter.
pub mod Fifo
use smos_thesis.Base.{
  ℕ, ◌≡◌, ◌≤◌, ◌<◌, List, [], ◌∷◌, ◌++◌, Option, none, some, Result, ok, err, Run, ret, panic,
  ◌>>=◌, unwrap, length, get_elem?,
}

abbrev pub ntfn_buffer_capacity : ℕ
ntfn_buffer_capacity = 64

pub record NtfnBufferData : Type 0 where
  pub label : ℕ
  pub data0 : ℕ
  pub data1 : ℕ
  pub data2 : ℕ

pub data NotificationLabel : Type 0 where
  vm_fault_notification_label conn_destroy_notification_label : NotificationLabel
  window_destroy_notification_label : NotificationLabel

abbrev pub label_into : NotificationLabel → ℕ
label_into vm_fault_notification_label = 0
label_into conn_destroy_notification_label = 1
label_into window_destroy_notification_label = 2

-- `TryFromPrimitive`: the variants in declaration order.
abbrev pub label_try_from : ℕ → Option NotificationLabel
label_try_from n =
    get_elem?
      (vm_fault_notification_label ∷ conn_destroy_notification_label
        ∷ window_destroy_notification_label ∷ [])
      n

pub record VmFaultNotification : Type 0 where
  pub client_id : ℕ
  pub reference : ℕ
  pub fault_offset : ℕ

pub record ConnDestroyNotification : Type 0 where
  pub conn_id : ℕ

pub record WindowDestroyNotification : Type 0 where
  pub client_id : ℕ
  pub reference : ℕ

pub data NotificationType : Type 0 where
  vm_fault_notification : VmFaultNotification → NotificationType
  conn_destroy_notification : ConnDestroyNotification → NotificationType
  window_destroy_notification : WindowDestroyNotification → NotificationType

unfoldable pub vm_fault_into_data : VmFaultNotification → NtfnBufferData
vm_fault_into_data x = record {
  label = label_into vm_fault_notification_label;
  data0 = x.client_id;
  data1 = x.reference;
  data2 = x.fault_offset;
}

unfoldable pub data_into_vm_fault : NtfnBufferData → VmFaultNotification
data_into_vm_fault d = record { client_id = d.data0; reference = d.data1; fault_offset = d.data2 }

unfoldable pub conn_destroy_into_data : ConnDestroyNotification → NtfnBufferData
conn_destroy_into_data x = record {
  label = label_into conn_destroy_notification_label;
  data0 = x.conn_id;
  data1 = 0;
  data2 = 0;
}

unfoldable pub data_into_conn_destroy : NtfnBufferData → ConnDestroyNotification
data_into_conn_destroy d = record { conn_id = d.data0 }

unfoldable pub window_destroy_into_data : WindowDestroyNotification → NtfnBufferData
window_destroy_into_data x = record {
  label = label_into window_destroy_notification_label;
  data0 = x.client_id;
  data1 = x.reference;
  data2 = 0;
}

unfoldable pub data_into_window_destroy : NtfnBufferData → WindowDestroyNotification
data_into_window_destroy d = record { client_id = d.data0; reference = d.data1 }

unfoldable pub into_data : NotificationType → NtfnBufferData
unfolding vm_fault_into_data conn_destroy_into_data window_destroy_into_data
into_data (vm_fault_notification x) = vm_fault_into_data x
into_data (conn_destroy_notification x) = conn_destroy_into_data x
into_data (window_destroy_notification x) = window_destroy_into_data x

unfoldable pub with_label : NotificationLabel → NtfnBufferData → NotificationType
unfolding data_into_vm_fault data_into_conn_destroy data_into_window_destroy
with_label vm_fault_notification_label d = vm_fault_notification (data_into_vm_fault d)
with_label conn_destroy_notification_label d = conn_destroy_notification (data_into_conn_destroy d)
with_label window_destroy_notification_label d =
    window_destroy_notification (data_into_window_destroy d)

-- An unknown label panics (`expect`).
unfoldable pub data_into_notification : NtfnBufferData → Run NotificationType
unfolding with_label
data_into_notification d = unwrap (label_try_from d.label) >>= λ l. ret (with_label l d)

-- What the code uses of the ring: its entries, oldest first, and that it is a bounded FIFO. A
-- `panic` of `enqueue` or `dequeue` is the crate's report that its peer broke the ring's counters.
pub record SharedRing : Type 1 where
  pub Ring : Type 0
  pub entries : Ring → List NtfnBufferData
  pub enqueue_and_commit : Ring → NtfnBufferData → Run (Result NtfnBufferData (Unit {0}) × Ring)
  pub dequeue : Ring → Run (Option NtfnBufferData × Ring)
  pub enqueue_room :
      (r : Ring) (d : NtfnBufferData)
      → length (entries r) < ntfn_buffer_capacity
      → (r' : Ring) × (enqueue_and_commit r d ≡ ret (ok tt, r'))
        × (entries r' ≡ entries r ++ d ∷ [])
  pub enqueue_full :
      (r : Ring) (d : NtfnBufferData)
      → ntfn_buffer_capacity ≤ length (entries r)
      → enqueue_and_commit r d ≡ ret (err d, r)
  pub dequeue_empty : (r : Ring) → entries r ≡ [] → dequeue r ≡ ret (none, r)
  pub dequeue_oldest :
      (r : Ring) (d : NtfnBufferData) (ds : List NtfnBufferData)
      → entries r ≡ d ∷ ds
      → (r' : Ring) × (dequeue r ≡ ret (some d, r')) × (entries r' ≡ ds)

module _ (s : SharedRing) where
  open s use {Ring, enqueue_and_commit, dequeue}

  unfoldable pub enqueue_ntfn_buffer_msg :
      Ring → NotificationType → Run (Result NtfnBufferData (Unit {0}) × Ring)
  enqueue_ntfn_buffer_msg r msg = enqueue_and_commit r (into_data msg)

  -- The arms of `if let Some(msg)`.
  decoded : Option NtfnBufferData × Ring → Run (Option NotificationType × Ring)
  decoded (none, r) = ret (none, r)
  decoded (some d, r) = data_into_notification d >>= λ msg. ret (some msg, r)

  unfoldable pub dequeue_ntfn_buffer_msg : Ring → Run (Option NotificationType × Ring)
  unfolding decoded
  dequeue_ntfn_buffer_msg r = dequeue r >>= decoded
