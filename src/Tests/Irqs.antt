-- ===== src/Tests/Irqs.antt =====
-- The dispatch of interrupts, and registrations.
use smos_thesis.Base.{
  ℕ, suc, ◌+◌, ◌-◌, ◌^◌, ◌≡◌, ◌≢◌, refl, List, [], ◌∷◌, none, some, ok, err, ret, arith, replicate,
}
use smos_thesis.RootServer.Kernel.{SelError}
use smos_thesis.RootServer.Irq.{
  IrqDispatch, CallbackCall, UserNotificationDispatch, IrqServices, handle_irq, ntfn_register,
}
use smos_thesis.RootServer.Irq.Dispatch.{pending, handle_irq_lem}
use smos_thesis.RootServer.Irq.Bits.{IsDispatch}
use smos_thesis.RootServer.Irq.Registers.{Registers, NtfnGiven}
use smos_thesis.RootServer.Irq.Register.{ntfn_register-Registers}

-- Bit 0 is registered, and every bit is an identifier.
abbrev dispatch : IrqDispatch
dispatch = record {
  irq_control = 1;
  ntfn = 2;
  flag_bits = 0;
  ident_bits = 0xFFFFFFFFFFFFFFFF;
  allocated_bits = 1 ∷ [];
  irq_handlers =
      some (record { irq = 5; irq_handler = 6; ntfn = 7; callback = 8; data_ptr = 9 })
      ∷ replicate 63 none;
}

handle_irq_lem_example :
    (pending dispatch 1 1 ≢ 0
      → (fuel : ℕ) (r : ℕ × List CallbackCall) → handle_irq fuel dispatch 1 ≢ ret (some (ret r)))
    × (pending dispatch 1 1 ≡ 0
        → (fuel : ℕ) → handle_irq (suc fuel) dispatch 1 ≡ ret (some (ret (1, []))))
handle_irq_lem_example = handle_irq_lem dispatch 1 1 (omega arith) refl

one_pending : pending dispatch 1 1 ≡ 1
one_pending = refl

abbrev user_dispatch : UserNotificationDispatch
user_dispatch = record {
  irq_control = 1;
  ntfn = 2;
  flag_bits = 2 ^ 63;
  ident_bits = 2 ^ 63 - 1;
  allocated_bits = 2 ^ 63 ∷ [];
  badged_ntfns = replicate 64 none;
  irq_handler_caps = replicate 64 none;
}

user_dispatch-IsDispatch : IsDispatch user_dispatch
user_dispatch-IsDispatch = record {
  words = (omega arith, tt);
  one_word = refl;
  ntfns = refl;
  handlers = refl;
}

-- Services that hand out the slots from `w` on; only binding a handler to a notification fails.
abbrev generous : IrqServices ℕ
generous = record {
  alloc_slot = λ w. ret (ok w, w + 1);
  free_slot = λ w slot. ret w;
  delete_cap = λ w cap. (ok tt, w);
  irq_control_get_trigger = λ w control irq edge slot. (ok tt, w);
  mint = λ w dest src badge. (ok tt, w);
  set_notification = λ w handler ntfn. (err SelError.illegal_operation, w);
}

ntfn_register-Registers_example :
    Registers generous 40 user_dispatch
      (NtfnGiven generous 40 user_dispatch)
      (ntfn_register generous 40 user_dispatch)
ntfn_register-Registers_example =
    ntfn_register-Registers generous 40 user_dispatch user_dispatch-IsDispatch
