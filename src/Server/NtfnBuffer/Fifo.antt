-- ===== src/Server/NtfnBuffer/Fifo.antt =====
-- The buffer is a bounded queue of notifications: what one side enqueues the other dequeues.
use mathlib.Core.List.{map-append}
use smos_thesis.Base.{
  suc, ◌≤◌, ◌<◌, ◌≡◌, refl, ◌∙◌, ap, List, [], ◌∷◌, ◌++◌, map, none, some, ok, err, ret, arith,
  length,
}
use smos_thesis.Server.NtfnBuffer.{
  NotificationType, vm_fault_notification, conn_destroy_notification, window_destroy_notification,
  NtfnBufferData, SharedRing, ntfn_buffer_capacity, into_data, data_into_notification,
  enqueue_ntfn_buffer_msg, dequeue_ntfn_buffer_msg,
}

-- Every notification survives the four words of a descriptor.
pub data_into_notification-into_data :
    (msg : NotificationType) → data_into_notification (into_data msg) ≡ ret msg
unfolding data_into_notification into_data
data_into_notification-into_data (vm_fault_notification x) = refl
data_into_notification-into_data (conn_destroy_notification x) = refl
data_into_notification-into_data (window_destroy_notification x) = refl

length-map : (msgs : List NotificationType) → length (map into_data msgs) ≡ length msgs
length-map [] = refl
length-map (m ∷ msgs) = ap suc (length-map msgs)

module _ (s : SharedRing) where
  open s use {Ring, entries}

  -- The ring holds the descriptors of these notifications.
  abbrev pub Holds : Ring → List NotificationType → Type 0
  Holds r msgs = entries r ≡ map into_data msgs

  -- The specification of both calls on a ring that holds `msgs`.
  pub record Behaves (r : Ring) (msgs : List NotificationType) : Type 0 where
    pub accepts :
        (m : NotificationType)
        → length msgs < ntfn_buffer_capacity
        → (r' : Ring) × (enqueue_ntfn_buffer_msg s r m ≡ ret (ok tt, r'))
          × Holds r' (msgs ++ m ∷ [])
    pub refuses :
        (m : NotificationType)
        → ntfn_buffer_capacity ≤ length msgs
        → enqueue_ntfn_buffer_msg s r m ≡ ret (err (into_data m), r)
    pub nothing : msgs ≡ [] → dequeue_ntfn_buffer_msg s r ≡ ret (none, r)
    pub oldest :
        (m : NotificationType) (rest : List NotificationType)
        → msgs ≡ m ∷ rest
        → (r' : Ring) × (dequeue_ntfn_buffer_msg s r ≡ ret (some m, r')) × Holds r' rest

  -- The buffer is a queue of at most 64 notifications: a message is appended or, when the queue is
  -- full, given back, and the oldest is taken out as it was put in.
  pub ntfn_buffer-Behaves :
      (r : Ring) (msgs : List NotificationType) → Holds r msgs → Behaves r msgs
  unfolding enqueue_ntfn_buffer_msg dequeue_ntfn_buffer_msg
  ntfn_buffer-Behaves r msgs holds = record {
    accepts = λ m room.
        let (r', e, c) =
          s.enqueue_room r (into_data m)
            (omega (arith, ap (λ (l : List NtfnBufferData). length l) holds, length-map msgs)) in
        (r', e, c ∙ rw (holds, map-append) refl);
    refuses = λ m full.
        s.enqueue_full r (into_data m)
          (omega (arith, ap (λ (l : List NtfnBufferData). length l) holds, length-map msgs));
    nothing = λ e. rw (s.dequeue_empty r (holds ∙ ap (map into_data) e)) refl;
    oldest = λ m rest e.
        let (r', d, c) =
          s.dequeue_oldest r (into_data m) (map into_data rest) (holds ∙ ap (map into_data) e) in
        (r', rw d (rw (data_into_notification-into_data m) refl), c);
  }
