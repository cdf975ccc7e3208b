-- ===== src/Syscall/RoundTrip/Names.antt =====
-- Round trips of the calls that send names through the shared buffer.
use mathlib.Core.List.{append_assoc}
use smos_thesis.Base.{
  ◌∙◌, ℕ, ◌+◌, ◌≤◌, ◌<◌, ◌≡◌, ◌≢◌, refl, List, [], ◌∷◌, ◌++◌, Option, none, some, arith, ret, ok,
  length,
}
use smos_thesis.Common.Invocations.{SmosInvocation}
use smos_thesis.Syscall.Text.{IsName, drop}
use smos_thesis.Syscall.Call.{Call, request, label_of, decoded, room, All}
use smos_thesis.Syscall.Client.{message}
use smos_thesis.Syscall.Client.Root.{conn_create_request, conn_publish_request}
use smos_thesis.Syscall.Client.Servers.{process_spawn_request, argv_names}
use smos_thesis.Syscall.Client.Objects.{obj_create_request, obj_open_request}
use smos_thesis.Syscall.Decode.{get_conn_create, get_conn_publish}
use smos_thesis.Syscall.Decode.Objects.{get_obj_create, get_obj_open, get_proc_spawn}
use smos_thesis.Syscall.GetWith.{get_label}
use smos_thesis.Syscall.RoundTrip.{Carries, client, get_plain}
use smos_thesis.Syscall.RoundTrip.Buffer.{
  text, put_name_lem, put_names_lem, length-drop, rust_str_from_buffer-written, read_args-text,
}

regroup : (e f a rest : List ℕ) → ((e ++ f) ++ a) ++ rest ≡ e ++ (f ++ (a ++ rest))
regroup e f a rest = append_assoc (e ++ f) a rest ∙ append_assoc e f (a ++ rest)

nonempty_length : (argv : List (List ℕ)) → some argv ≢ some [] → 1 ≤ length argv
nonempty_length [] h = absurd (h refl)
nonempty_length (a ∷ r) h = omega arith

module _ (arrives : ℕ → Option ℕ) {World : Type 0} (r0 r1 r2 r3 r4 r5 : ℕ) (rs : List ℕ) (c0 c1 : ℕ)
    (cs : List ℕ) (slot : ℕ) (bytes : List ℕ) (w : World) where
  pub conn_create-Carries :
      (return_slot : ℕ) (name : List ℕ)
      → IsName name
      → length name + 1 ≤ length bytes
      → Carries arrives
          (client r0 r1 r2 r3 r4 r5 rs c0 c1 cs slot (some bytes) w)
          (request (Call.conn_create return_slot name))
          (label_of (Call.conn_create return_slot name))
          (λ m. decoded arrives m.recv_slot (Call.conn_create return_slot name))
  unfolding conn_create_request get_label get_conn_create
  conn_create-Carries return_slot name v h =
      let rest = drop (length name + 1) bytes in
      record {
        info = message SmosInvocation.conn_create 0 0;
        labelled = refl;
        after =
            client r0 r1 r2 r3 r4 r5 rs c0 c1 cs return_slot (some ((name ++ 0 ∷ []) ++ rest)) w;
        sent =
            rw
              (put_name_lem [] bytes name (client r0 r1 r2 r3 r4 r5 rs c0 c1 cs slot (some bytes) w)
                h)
              refl;
        received = λ m t.
            get_plain m SmosInvocation.conn_create t.label (t.caps (omega arith))
              (ground (arith, t.buffer, rust_str_from_buffer-written name rest v));
      }

  pub conn_publish-Carries :
      (ntfn_buffer return_slot : ℕ) (name : List ℕ)
      → IsName name
      → length name + 1 ≤ length bytes
      → Carries arrives
          (client r0 r1 r2 r3 r4 r5 rs c0 c1 cs slot (some bytes) w)
          (request (Call.conn_publish ntfn_buffer return_slot name))
          (label_of (Call.conn_publish ntfn_buffer return_slot name))
          (λ m. decoded arrives m.recv_slot (Call.conn_publish ntfn_buffer return_slot name))
  unfolding conn_publish_request get_label get_conn_publish
  conn_publish-Carries ntfn_buffer return_slot name v h =
      let rest = drop (length name + 1) bytes in
      record {
        info = message SmosInvocation.conn_publish 1 0;
        labelled = refl;
        after =
            client ntfn_buffer r1 r2 r3 r4 r5 rs c0 c1 cs return_slot
              (some ((name ++ 0 ∷ []) ++ rest)) w;
        sent =
            rw
              (put_name_lem [] bytes name (client r0 r1 r2 r3 r4 r5 rs c0 c1 cs slot (some bytes) w)
                h)
              refl;
        received = λ m t. get_plain m SmosInvocation.conn_publish t.label (t.caps (omega arith)) (
            ground (
              arith,
              t.buffer,
              rust_str_from_buffer-written name rest v,
              t.regs 0 ntfn_buffer (omega arith) refl,
            ));
      }

  pub obj_open-Carries :
      (name : List ℕ) (rights : ℕ) (return_cap : Option ℕ)
      → IsName name
      → length name + 1 ≤ length bytes
      → Carries arrives
          (client r0 r1 r2 r3 r4 r5 rs c0 c1 cs slot (some bytes) w)
          (request (Call.obj_open name rights return_cap))
          (label_of (Call.obj_open name rights return_cap))
          (λ m. decoded arrives m.recv_slot (Call.obj_open name rights return_cap))
  unfolding obj_open_request get_label get_obj_open
  obj_open-Carries name rights none v h =
      let rest = drop (length name + 1) bytes in
      record {
        info = message SmosInvocation.obj_open 3 0;
        labelled = refl;
        after = client rights 0 r2 r3 r4 r5 rs c0 c1 cs slot (some ((name ++ 0 ∷ []) ++ rest)) w;
        sent =
            rw
              (put_name_lem [] bytes name (client r0 r1 r2 r3 r4 r5 rs c0 c1 cs slot (some bytes) w)
                h)
              refl;
        received = λ m t. get_plain m SmosInvocation.obj_open t.label (t.caps (omega arith)) (
            ground (
              arith,
              t.buffer,
              rust_str_from_buffer-written name rest v,
              t.regs 0 rights (omega arith) refl,
              t.regs 1 0 (omega arith) refl,
            ));
      }
  obj_open-Carries name rights (some return_slot) v h =
      let rest = drop (length name + 1) bytes in
      record {
        info = message SmosInvocation.obj_open 3 0;
        labelled = refl;
        after =
            client rights 1 r2 r3 r4 r5 rs c0 c1 cs return_slot (some ((name ++ 0 ∷ []) ++ rest)) w;
        sent =
            rw
              (put_name_lem [] bytes name (client r0 r1 r2 r3 r4 r5 rs c0 c1 cs slot (some bytes) w)
                h)
              refl;
        received = λ m t. get_plain m SmosInvocation.obj_open t.label (t.caps (omega arith)) (
            ground (
              arith,
              t.buffer,
              rust_str_from_buffer-written name rest v,
              t.regs 0 rights (omega arith) refl,
              t.regs 1 1 (omega arith) refl,
            ));
      }

  pub obj_create_named-Carries :
      (name : List ℕ) (size rights attributes : ℕ) (return_cap : Option ℕ)
      → IsName name
      → length name + 1 ≤ length bytes
      → Carries arrives
          (client r0 r1 r2 r3 r4 r5 rs c0 c1 cs slot (some bytes) w)
          (request (Call.obj_create (some name) size rights attributes return_cap))
          (label_of (Call.obj_create (some name) size rights attributes return_cap))
          (λ m.
            decoded arrives m.recv_slot
              (Call.obj_create (some name) size rights attributes return_cap))
  unfolding obj_create_request get_label get_obj_create
  obj_create_named-Carries name size rights attributes none v h =
      let rest = drop (length name + 1) bytes in
      record {
        info = message SmosInvocation.obj_create 5 0;
        labelled = refl;
        after =
            client 1 size rights attributes 0 r5 rs c0 c1 cs slot (some ((name ++ 0 ∷ []) ++ rest))
              w;
        sent =
            rw
              (put_name_lem [] bytes name (client 1 r1 r2 r3 r4 r5 rs c0 c1 cs slot (some bytes) w)
                h)
              refl;
        received = λ m t. get_plain m SmosInvocation.obj_create t.label (t.caps (omega arith)) (
            ground (
              arith,
              t.buffer,
              rust_str_from_buffer-written name rest v,
              t.regs 0 1 (omega arith) refl,
              t.regs 1 size (omega arith) refl,
              t.regs 2 rights (omega arith) refl,
              t.regs 3 attributes (omega arith) refl,
              t.regs 4 0 (omega arith) refl,
            ));
      }
  obj_create_named-Carries name size rights attributes (some return_slot) v h =
      let rest = drop (length name + 1) bytes in
      record {
        info = message SmosInvocation.obj_create 5 0;
        labelled = refl;
        after =
            client 1 size rights attributes 1 r5 rs c0 c1 cs return_slot
              (some ((name ++ 0 ∷ []) ++ rest)) w;
        sent =
            rw
              (put_name_lem [] bytes name (client 1 r1 r2 r3 r4 r5 rs c0 c1 cs slot (some bytes) w)
                h)
              refl;
        received = λ m t. get_plain m SmosInvocation.obj_create t.label (t.caps (omega arith)) (
            ground (
              arith,
              t.buffer,
              rust_str_from_buffer-written name rest v,
              t.regs 0 1 (omega arith) refl,
              t.regs 1 size (omega arith) refl,
              t.regs 2 rights (omega arith) refl,
              t.regs 3 attributes (omega arith) refl,
              t.regs 4 1 (omega arith) refl,
            ));
      }

  -- The names of a spawn in order, behind each other.
  put_spawn :
      (exec fs : List ℕ) (argv : List (List ℕ))
      → room (exec ∷ fs ∷ argv) ≤ length bytes
      → (prio : ℕ) (args : Option (List (List ℕ))) → argv_names args ≡ argv
      → process_spawn_request exec fs prio args
          (client r0 r1 r2 r3 r4 r5 rs c0 c1 cs slot (some bytes) w)
        ≡ ret (
          ok (message SmosInvocation.proc_spawn 2 0),
          client
              (length argv)
              prio
              r2
              r3
              r4
              r5
              rs
              c0
              c1
              cs
              slot
              (some (
                (((exec ++ 0 ∷ []) ++ (fs ++ 0 ∷ [])) ++ text argv)
                ++ drop (room argv) (drop (length fs + 1) (drop (length exec + 1) bytes))))
              w,
        )
  unfolding process_spawn_request
  put_spawn exec fs argv h prio args e =
      let c = client r0 r1 r2 r3 r4 r5 rs c0 c1 cs slot (some bytes) w in
      let rest = drop (length exec + 1) bytes in
      rw
        (
          e,
          put_name_lem [] bytes exec c (omega arith),
          put_name_lem (exec ++ 0 ∷ []) rest fs _
              (omega (arith, length-drop (length exec + 1) bytes)),
          put_names_lem ((exec ++ 0 ∷ []) ++ (fs ++ 0 ∷ [])) (drop (length fs + 1) rest) argv c (
              omega (arith, length-drop (length exec + 1) bytes, length-drop (length fs + 1) rest)),
        )
        refl

  pub process_spawn-Carries :
      (exec fs : List ℕ) (prio : ℕ) (args : Option (List (List ℕ)))
      → prio < 256
      → args ≢ some []
      → All IsName (exec ∷ fs ∷ argv_names args)
      → room (exec ∷ fs ∷ argv_names args) ≤ length bytes
      → Carries arrives
          (client r0 r1 r2 r3 r4 r5 rs c0 c1 cs slot (some bytes) w)
          (request (Call.process_spawn exec fs prio args))
          (label_of (Call.process_spawn exec fs prio args))
          (λ m. decoded arrives m.recv_slot (Call.process_spawn exec fs prio args))
  unfolding get_label get_proc_spawn
  process_spawn-Carries exec fs prio none small nonempty v h =
      let rest = drop 0 (drop (length fs + 1) (drop (length exec + 1) bytes)) in
      record {
        info = message SmosInvocation.proc_spawn 2 0;
        labelled = refl;
        after =
            client 0 prio r2 r3 r4 r5 rs c0 c1 cs slot
              (some ((((exec ++ 0 ∷ []) ++ (fs ++ 0 ∷ [])) ++ []) ++ rest)) w;
        sent = put_spawn exec fs [] h prio none refl;
        received = λ m t. get_plain m SmosInvocation.proc_spawn t.label (t.caps (omega arith)) (
            ground (
              arith,
              t.buffer,
              t.msg_length,
              t.regs 0 0 (omega arith) refl,
              t.regs 1 prio (omega arith) refl,
              regroup (exec ++ 0 ∷ []) (fs ++ 0 ∷ []) [] rest,
              rust_str_from_buffer-written exec ((fs ++ 0 ∷ []) ++ ([] ++ rest)) v.0,
              rust_str_from_buffer-written fs ([] ++ rest) v.1.0,
            ));
      }
  process_spawn-Carries exec fs prio (some argv) small nonempty v h =
      let rest = drop (room argv) (drop (length fs + 1) (drop (length exec + 1) bytes)) in
      record {
        info = message SmosInvocation.proc_spawn 2 0;
        labelled = refl;
        after =
            client (length argv) prio r2 r3 r4 r5 rs c0 c1 cs slot
              (some ((((exec ++ 0 ∷ []) ++ (fs ++ 0 ∷ [])) ++ text argv) ++ rest)) w;
        sent = put_spawn exec fs argv h prio (some argv) refl;
        received = λ m t. get_plain m SmosInvocation.proc_spawn t.label (t.caps (omega arith)) (
            ground (
              arith,
              t.buffer,
              t.msg_length,
              t.regs 0 (length argv) (omega arith) refl,
              t.regs 1 prio (omega arith) refl,
              regroup (exec ++ 0 ∷ []) (fs ++ 0 ∷ []) (text argv) rest,
              rust_str_from_buffer-written exec ((fs ++ 0 ∷ []) ++ (text argv ++ rest)) v.0,
              rust_str_from_buffer-written fs (text argv ++ rest) v.1.0,
              read_args-text argv rest v.1.1,
              nonempty_length argv nonempty,
            ));
      }
