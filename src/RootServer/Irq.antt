-- ===== src/RootServer/Irq.antt =====
-- crates/root_server/src/irq.rs: the dispatch of the root server's interrupts, and the badge bits
-- that a process' notification hands out.
pub mod Dispatch
pub mod Bits
pub mod Registers
pub mod Settles
pub mod Register
use Prim.Native.Nat.{bit_and, bit_or}
use smos_thesis.Base.{
  ℕ, zero, suc, ◌<◌, ◌^◌, List, [], ◌∷◌, ◌++◌, Bool, true, false, Option, none, some, Result, ok,
  err, map_err, Run, ret, panic, ◌>>=◌, assert, unwrap, ltb, leb, ◌&&◌, ◌==◌, if◌then◌else◌, length,
  get_elem?, set, replicate,
}
use smos_thesis.Word.{word_not, trailing_zeros}
use smos_thesis.Bitfield.{Bitfield, bf_clr_bit, claim}
use smos_thesis.Common.Errors.{InvocationError}
use smos_thesis.RootServer.Kernel.{SelError}

-- Capabilities and addresses are their numbers, a callback the address of its code.
pub record IrqHandlerInfo : Type 0 where
  pub irq : ℕ
  pub irq_handler : ℕ
  pub ntfn : ℕ
  pub callback : ℕ
  pub data_ptr : ℕ

pub record IrqDispatch : Type 0 where
  pub irq_control : ℕ
  pub ntfn : ℕ
  pub flag_bits : ℕ
  pub ident_bits : ℕ
  pub allocated_bits : Bitfield
  pub irq_handlers : List (Option IrqHandlerInfo)

unfoldable pub new_dispatch : ℕ → ℕ → ℕ → ℕ → IrqDispatch
new_dispatch irq_control ntfn flag_bits ident_bits = record {
  irq_control = irq_control;
  ntfn = ntfn;
  flag_bits = flag_bits;
  ident_bits = ident_bits;
  allocated_bits = word_not ident_bits ∷ [];
  irq_handlers = replicate 64 none;
}

-- The call of a handler's callback: its code, and its three arguments.
pub record CallbackCall : Type 0 where
  pub callback : ℕ
  pub data_ptr : ℕ
  pub irq : ℕ
  pub irq_handler : ℕ

-- Indexing out of bounds panics, and so does `expect` on an entry that is not registered.
unfoldable pub registered : IrqDispatch → ℕ → Run IrqHandlerInfo
registered d b = unwrap (get_elem? d.irq_handlers b) >>= λ entry. unwrap entry

abbrev call_of : IrqHandlerInfo → CallbackCall
call_of h = record {
  callback = h.callback;
  data_ptr = h.data_ptr;
  irq = h.irq;
  irq_handler = h.irq_handler;
}

-- The loop of `handle_irq`, at most `fuel` iterations of it: `none` where these do not finish it.
-- `calls` are the callbacks that were called.
unfoldable pub handle_loop :
    ℕ → IrqDispatch → ℕ → ℕ → List CallbackCall → Option (Run (ℕ × List CallbackCall))
handle_loop zero d badge unchecked calls = none
handle_loop (suc fuel) d badge unchecked calls = elim (unchecked == 0) [
  | true ↦ some (ret (badge, calls))
  | false ↦
      let b = trailing_zeros unchecked in
      elim (registered d b) [
        | panic ↦ some panic
        | ret h ↦
            let badge' = bit_and badge (word_not (2 ^ b)) in
            handle_loop fuel d badge' (bit_and unchecked (word_not badge'))
              (calls ++ call_of h ∷ [])
      ]
]

unfoldable pub handle_irq : ℕ → IrqDispatch → ℕ → Run (Option (Run (ℕ × List CallbackCall)))
handle_irq fuel d badge = unwrap (get_elem? d.allocated_bits 0) >>= λ bits.
    ret (handle_loop fuel d badge (bit_and (bit_and badge bits) d.ident_bits) [])

unfoldable pub alloc_irq_bit : IrqDispatch → Run (Result SelError ℕ × IrqDispatch)
alloc_irq_bit d = do
  (r, bits) ← claim d.allocated_bits
  ret (map_err r (λ u. SelError.not_enough_memory), record d { allocated_bits = bits })

unfoldable pub free_irq_bit : IrqDispatch → ℕ → Run IrqDispatch
free_irq_bit d b = do bits ← bf_clr_bit d.allocated_bits b; ret (record d { allocated_bits = bits })

pub record UserNotificationDispatch : Type 0 where
  pub irq_control : ℕ
  pub ntfn : ℕ
  pub flag_bits : ℕ
  pub ident_bits : ℕ
  pub allocated_bits : Bitfield
  pub badged_ntfns : List (Option ℕ)
  pub irq_handler_caps : List (Option ℕ)

unfoldable pub new_ntfn_dispatch : ℕ → ℕ → ℕ → ℕ → UserNotificationDispatch
new_ntfn_dispatch irq_control ntfn flag_bits ident_bits = record {
  irq_control = irq_control;
  ntfn = ntfn;
  flag_bits = flag_bits;
  ident_bits = ident_bits;
  allocated_bits = word_not ident_bits ∷ [];
  badged_ntfns = replicate 64 none;
  irq_handler_caps = replicate 64 none;
}

unfoldable pub alloc_ntfn_bit :
    UserNotificationDispatch → Run (Result SelError ℕ × UserNotificationDispatch)
alloc_ntfn_bit d = do
  (r, bits) ← claim d.allocated_bits
  ret (map_err r (λ u. SelError.not_enough_memory), record d { allocated_bits = bits })

unfoldable pub free_ntfn_bit : UserNotificationDispatch → ℕ → Run UserNotificationDispatch
free_ntfn_bit d b = do
  bits ← bf_clr_bit d.allocated_bits b
  ret (record d { allocated_bits = bits })

-- `a[i] = v`
abbrev pub store {ℓ} : {A : Type ℓ} → List A → ℕ → A → Run (List A)
store a i v = assert (ltb i (length a)) (ret (set a i v))

-- What the registrations ask of the root server's cspace, which may panic (`ensure_levels` is a
-- `todo!()`), and of the kernel; `World` is their state.
pub record IrqServices (World : Type 0) : Type 0 where
  pub alloc_slot : World → Run (Result SelError ℕ × World)
  pub free_slot : World → ℕ → Run World
  pub delete_cap : World → ℕ → Result {0, 0} SelError Unit × World
  pub irq_control_get_trigger : World → ℕ → ℕ → Bool → ℕ → Result {0, 0} SelError Unit × World
  pub mint : World → ℕ → ℕ → ℕ → Result {0, 0} SelError Unit × World
  pub set_notification : World → ℕ → ℕ → Result {0, 0} SelError Unit × World

module _ {World : Type 0} (s : IrqServices World) where
  abbrev pub Outcome : Type 0
  Outcome = Run (Result InvocationError (ℕ × ℕ) × UserNotificationDispatch × World)

  -- `CSpace::irq_control_get`: a failure is an `expect` for the interrupts of one core.
  unfoldable pub irq_control_get : World → ℕ → ℕ → ℕ → Bool → Run (Result SelError ℕ × World)
  irq_control_get w cptr irq_control irq edge_triggered =
      let (r, w') = s.irq_control_get_trigger w irq_control irq edge_triggered cptr in
      if leb 16 irq && ltb irq 32
      then elim r [ ok _ ↦ ret (ok cptr, w') | err e ↦ panic ]
      else if leb 32 irq && ltb irq 1021
      then elim r [ ok _ ↦ ret (ok cptr, w') | err e ↦ ret (err SelError.invalid_argument, w') ]
      else ret (err SelError.invalid_argument, w)

  -- A failure that gives the bit back.
  unfoldable pub give_back : World → UserNotificationDispatch → ℕ → InvocationError → Outcome
  give_back w d b e = free_ntfn_bit d b >>= λ d'. ret (err e, d', w)

  -- The badge of bit `b`, minted from the process' notification; a failure is an `expect`.
  unfoldable pub mint_badged : World → UserNotificationDispatch → ℕ → ℕ → Run World
  mint_badged w d b ntfn =
      let (r, w') = s.mint w ntfn d.ntfn (bit_or d.flag_bits (2 ^ b)) in
      elim r [ ok _ ↦ ret w' | err e ↦ panic ]

  unfoldable pub deleted : World → ℕ → Run World
  deleted w cap = let (r, w') = s.delete_cap w cap in elim r [ ok _ ↦ ret w' | err e ↦ panic ]

  unfoldable pub ntfn_with_bit : World → UserNotificationDispatch → ℕ → Outcome
  ntfn_with_bit w d b = s.alloc_slot w >>= λ (r, w'). elim r [
    | ok ntfn ↦ (do
      w'' ← mint_badged w' d b ntfn
      badged ← store d.badged_ntfns b (some ntfn)
      ident_bit ← assert (ltb b (2 ^ 8)) (ret b)
      ret (ok (ident_bit, ntfn), record d { badged_ntfns = badged }, w''))
    | err e ↦ give_back w' d b InvocationError.insufficient_resources
  ]

  unfoldable pub ntfn_register : World → UserNotificationDispatch → Outcome
  ntfn_register w d = do
    (r, d') ← alloc_ntfn_bit d
    elim r [
      | ok b ↦ ntfn_with_bit w d' b
      | err e ↦ ret (err InvocationError.insufficient_resources, d', w)
    ]

  -- Both slots, and then the bit.
  unfoldable pub give_back_two :
      World → UserNotificationDispatch → ℕ → (ntfn handler : ℕ) → InvocationError → Outcome
  unfolding give_back
  give_back_two w d b ntfn handler e = do
    w1 ← s.free_slot w ntfn
    w2 ← s.free_slot w1 handler
    give_back w2 d b e

  -- What `irq_register` undoes when the handler cannot be bound is deleted under `unwrap`.
  unfoldable pub irq_unbound : World → UserNotificationDispatch → ℕ → (handler ntfn : ℕ) → Outcome
  unfolding deleted give_back_two
  irq_unbound w d b handler ntfn = do
    w1 ← deleted w ntfn
    w2 ← deleted w1 handler
    give_back_two w2 d b ntfn handler InvocationError.invalid_arguments

  -- The last steps of `irq_register`.
  unfoldable pub irq_bound : World → UserNotificationDispatch → ℕ → ℕ → ℕ → Outcome
  unfolding irq_unbound
  irq_bound w d b handler ntfn =
      let (r, w') = s.set_notification w handler ntfn in
      elim r [
        | ok _ ↦ (do
          badged ← store d.badged_ntfns b (some ntfn)
          caps ← store d.irq_handler_caps b (some handler)
          ident_bit ← assert (ltb b (2 ^ 8)) (ret b)
          ret (
            ok (ident_bit, handler),
            record d { badged_ntfns = badged; irq_handler_caps = caps },
            w',
          ))
        | err e ↦ irq_unbound w' d b handler ntfn
      ]

  unfoldable pub irq_with_ntfn : World → UserNotificationDispatch → ℕ → Bool → ℕ → ℕ → ℕ → Outcome
  irq_with_ntfn w d irq_num edge_triggered b handler_cptr ntfn =
      irq_control_get w handler_cptr d.irq_control irq_num edge_triggered >>= λ (r, w'). elim r [
        | ok handler ↦ mint_badged w' d b ntfn >>= λ w''. irq_bound w'' d b handler ntfn
        | err e ↦ give_back_two w' d b ntfn handler_cptr InvocationError.insufficient_resources
      ]

  unfoldable pub irq_with_slot : World → UserNotificationDispatch → ℕ → Bool → ℕ → ℕ → Outcome
  irq_with_slot w d irq_num edge_triggered b handler_cptr = s.alloc_slot w >>= λ (r, w'). elim r [
    | ok ntfn ↦ irq_with_ntfn w' d irq_num edge_triggered b handler_cptr ntfn
    | err e ↦ s.free_slot w' handler_cptr >>= λ w''.
        give_back w'' d b InvocationError.insufficient_resources
  ]

  unfoldable pub irq_with_bit : World → UserNotificationDispatch → ℕ → Bool → ℕ → Outcome
  irq_with_bit w d irq_num edge_triggered b = s.alloc_slot w >>= λ (r, w'). elim r [
    | ok handler_cptr ↦ irq_with_slot w' d irq_num edge_triggered b handler_cptr
    | err e ↦ give_back w' d b InvocationError.insufficient_resources
  ]

  unfoldable pub irq_register : World → UserNotificationDispatch → ℕ → Bool → Outcome
  irq_register w d irq_num edge_triggered = do
    (r, d') ← alloc_ntfn_bit d
    elim r [
      | ok b ↦ irq_with_bit w d' irq_num edge_triggered b
      | err e ↦ ret (err InvocationError.insufficient_resources, d', w)
    ]
