-- ===== src/RootServer/Irq/Register.antt =====
-- What `ntfn_register` and `irq_register` leave of the dispatch, whatever the cspace and the kernel
-- answer.
use mathlib.Core.Path.{subst}
use smos_thesis.Base.{
  ℕ, ◌<◌, ◌^◌, ◌≡◌, ◌⊎◌, refl, sym, ap, ◌∙◌, Bool, true, false, inl, inr, arith, ltb, length, set,
  some, Result, ok, err, Result-cases, ret, panic, assert,
}
use Prim.Native.Nat.{bit_or}
use smos_thesis.Bitfield.{Bitfield}
use smos_thesis.Bitfield.Laws.{member, Writes}
use smos_thesis.Common.Errors.{InvocationError}
use smos_thesis.RootServer.Kernel.{SelError}
use smos_thesis.RootServer.Irq.{
  UserNotificationDispatch, IrqServices, Outcome, give_back, give_back_two, store, mint_badged,
  irq_control_get, ntfn_with_bit, ntfn_register, irq_unbound, irq_bound, irq_with_ntfn,
  irq_with_slot, irq_with_bit,
}
use smos_thesis.RootServer.Irq.Bits.{
  IsDispatch, same_bits, bit_taken, no_bit, alloc_ntfn_bit-BitTaken, give_back-SameBits,
}
use smos_thesis.RootServer.Irq.Settles.{
  alloc_slot-Settles, free_slot-Settles, deleted-Settles, irq_control_get-Settles,
}
use smos_thesis.RootServer.Irq.Registers.{
  StepFailed, after_alloc, after_mint, after_set_notification, mint_failed, NtfnGiven, IrqGiven,
  Given, Registers, given, refused, panics,
}

module _ {World : Type 0} (s : IrqServices World) where
  -- How a stage ends that starts from the dispatch `d` with the bit `b` taken, as `bf` has it.
  module _ (d : UserNotificationDispatch) (v : IsDispatch d) (b : ℕ) (bf : Bitfield)
      (small : b < 64) (clear : member d.allocated_bits b ≡ false)
      (taken : Writes true d.allocated_bits b bf) (w0 : World) where
    -- The dispatch with the bit taken.
    abbrev held : UserNotificationDispatch
    held = record d { allocated_bits = bf }

    abbrev badge : ℕ
    badge = bit_or d.flag_bits (2 ^ b)

    after_give_back :
        (w : World) (e : InvocationError) (r : Outcome s) (G : Given s)
        → r ≡ give_back s w held b e
        → Registers s w0 d G r
    after_give_back w e r G is =
        let (bf', k, same) = give_back-SameBits s w d b bf e small v.one_word clear taken in
        refused e (record d { allocated_bits = bf' }) w (is ∙ k) same refl refl

    after_give_back_two :
        (w : World) (ntfn handler : ℕ) (e : InvocationError) (r : Outcome s) (G : Given s)
        → (StepFailed s w → StepFailed s w0)
        → r ≡ give_back_two s w held b ntfn handler e
        → Registers s w0 d G r
    unfolding give_back_two
    after_give_back_two w ntfn handler e r G before is = elim (free_slot-Settles s w ntfn) [
      | inl (f, k) ↦ panics (before f) (is ∙ rw (give_back_two, k) refl)
      | inr (w1, k, after) ↦ elim (free_slot-Settles s w1 handler) [
        | inl (f, k') ↦ panics (before (after f)) (is ∙ rw (give_back_two, k, k') refl)
        | inr (w2, k', after') ↦ after_give_back w2 e r G (is ∙ rw (give_back_two, k, k') refl)
      ]
    ]

    store_ntfn :
        (ntfn : ℕ) → store d.badged_ntfns b (some ntfn) ≡ ret (set d.badged_ntfns b (some ntfn))
    store_ntfn ntfn =
        let k : ltb b (length d.badged_ntfns) ≡ true = ground (arith, v.ntfns) in rw k refl

    store_handler :
        (c : ℕ) → store d.irq_handler_caps b (some c) ≡ ret (set d.irq_handler_caps b (some c))
    store_handler c =
        let k : ltb b (length d.irq_handler_caps) ≡ true = ground (arith, v.handlers) in rw k refl

    byte_ok : assert {A = ℕ} (ltb b (2 ^ 8)) (ret b) ≡ ret b
    byte_ok = ground arith

    mint_badged-Settles :
        (w : World) (ntfn : ℕ)
        → StepFailed s w × (mint_badged s w held b ntfn ≡ panic)
          ⊎ ((w' : World) × (mint_badged s w held b ntfn ≡ ret w')
              × (s.mint w ntfn d.ntfn badge ≡ (ok tt, w'))
              × (StepFailed s w' → StepFailed s w))
    unfolding mint_badged
    mint_badged-Settles w ntfn =
        let r = s.mint w ntfn d.ntfn badge in
        elim (Result-cases r.0) [
          | inl (e, is) ↦ inl (mint_failed w ntfn d.ntfn badge e is, rw (mint_badged, is) refl)
          | inr (u, is) ↦ inr (
            r.1,
            rw (mint_badged, is) refl,
            ap (λ (q : Result {0, 0} SelError Unit). (q, r.1)) is,
            after_mint w ntfn d.ntfn badge,
          )
        ]

    pub ntfn_with_bit-Registers : Registers s w0 d (NtfnGiven s w0 d) (ntfn_with_bit s w0 held b)
    unfolding ntfn_with_bit
    ntfn_with_bit-Registers = elim (alloc_slot-Settles s w0) [
      | inl (f, k) ↦ panics f (rw (ntfn_with_bit, k) refl)
      | inr ((err e, w1), k, after) ↦
          after_give_back w1 InvocationError.insufficient_resources (ntfn_with_bit s w0 held b)
            (NtfnGiven s w0 d) (rw (ntfn_with_bit, k) refl)
      | inr ((ok ntfn, w1), k, after) ↦ elim (mint_badged-Settles w1 ntfn) [
        | inl (f, k') ↦ panics (after f) (rw (ntfn_with_bit, k, k') refl)
        | inr (w', k', m, after') ↦
            given b ntfn ntfn (record held { badged_ntfns = set d.badged_ntfns b (some ntfn) }) w'
              (rw (ntfn_with_bit, k, k', store_ntfn ntfn, byte_ok) refl) small clear taken refl
              (record { between = w1; same = refl; allocated = k; minted = m; handlers = refl })
      ]
    ]

    module _ (irq : ℕ) (edge : Bool) where
      abbrev G : Given s
      G = IrqGiven s irq edge w0 d

      unbound-Registers :
          (w : World) (handler ntfn : ℕ)
          → (StepFailed s w → StepFailed s w0)
          → Registers s w0 d G (irq_unbound s w held b handler ntfn)
      unfolding irq_unbound
      unbound-Registers w handler ntfn before = elim (deleted-Settles s w ntfn) [
        | inl (f, k) ↦ panics (before f) (rw (irq_unbound, k) refl)
        | inr (w1, k, after) ↦ elim (deleted-Settles s w1 handler) [
          | inl (f, k') ↦ panics (before (after f)) (rw (irq_unbound, k, k') refl)
          | inr (w2, k', after') ↦
              after_give_back_two w2 ntfn handler InvocationError.invalid_arguments
                (irq_unbound s w held b handler ntfn) G (λ x. before (after (after' x)))
                (rw (irq_unbound, k, k') refl)
        ]
      ]

      irq_bound-Registers :
          (w1 w2 w3 w4 : World) (handler ntfn : ℕ)
          → s.alloc_slot w0 ≡ ret (ok handler, w1)
          → s.alloc_slot w1 ≡ ret (ok ntfn, w2)
          → irq_control_get s w2 handler d.irq_control irq edge ≡ ret (ok handler, w3)
          → s.mint w3 ntfn d.ntfn badge ≡ (ok tt, w4)
          → (StepFailed s w4 → StepFailed s w0)
          → Registers s w0 d G (irq_bound s w4 held b handler ntfn)
      unfolding irq_bound
      irq_bound-Registers w1 w2 w3 w4 handler ntfn a a' g m before =
          let r = s.set_notification w4 handler ntfn in
          elim (Result-cases r.0) [
            | inl (e, is) ↦ subst (Registers s w0 d G) (sym (rw (irq_bound, is) refl)) (
                unbound-Registers r.1 handler ntfn
                  (λ x. before (after_set_notification w4 handler ntfn x)))
            | inr (u, is) ↦
                given b handler ntfn
                  (record held {
                    badged_ntfns = set d.badged_ntfns b (some ntfn);
                    irq_handler_caps = set d.irq_handler_caps b (some handler);
                  })
                  r.1 (rw (irq_bound, is, store_ntfn ntfn, store_handler handler, byte_ok) refl)
                  small clear taken refl
                  (record {
                    w1 = w1;
                    w2 = w2;
                    w3 = w3;
                    w4 = w4;
                    allocated_handler = a;
                    allocated_ntfn = a';
                    got = g;
                    minted = m;
                    bound = ap (λ (q : Result {0, 0} SelError Unit). (q, r.1)) is;
                    handlers = refl;
                  })
          ]

      irq_with_ntfn-Registers :
          (w1 w2 : World) (slot ntfn : ℕ)
          → s.alloc_slot w0 ≡ ret (ok slot, w1)
          → s.alloc_slot w1 ≡ ret (ok ntfn, w2)
          → Registers s w0 d G (irq_with_ntfn s w2 held irq edge b slot ntfn)
      unfolding irq_with_ntfn
      irq_with_ntfn-Registers w1 w2 slot ntfn a a' =
          let before = λ (x : StepFailed s w2).
            after_alloc w0 w1 (ok slot) a (after_alloc w1 w2 (ok ntfn) a' x) in
          elim (irq_control_get-Settles s w2 slot d.irq_control irq edge) [
            | inl (f, k) ↦ panics (before f) (rw (irq_with_ntfn, k) refl)
            | inr (w3, inl (e, k), after) ↦
                after_give_back_two w3 ntfn slot InvocationError.insufficient_resources
                  (irq_with_ntfn s w2 held irq edge b slot ntfn) G (λ x. before (after x))
                  (rw (irq_with_ntfn, k) refl)
            | inr (w3, inr k, after) ↦ elim (mint_badged-Settles w3 ntfn) [
              | inl (f, k') ↦ panics (before (after f)) (rw (irq_with_ntfn, k, k') refl)
              | inr (w4, k', m, after') ↦
                  rw (irq_with_ntfn, k, k')
                    (irq_bound-Registers w1 w2 w3 w4 slot ntfn a a' k m
                      (λ x. before (after (after' x))))
            ]
          ]

      irq_with_slot-Registers :
          (w1 : World) (slot : ℕ)
          → s.alloc_slot w0 ≡ ret (ok slot, w1)
          → Registers s w0 d G (irq_with_slot s w1 held irq edge b slot)
      unfolding irq_with_slot
      irq_with_slot-Registers w1 slot a =
          let before = after_alloc w0 w1 (ok slot) a in
          elim (alloc_slot-Settles s w1) [
            | inl (f, k) ↦ panics (before f) (rw (irq_with_slot, k) refl)
            | inr ((err e, w2), k, after) ↦ elim (free_slot-Settles s w2 slot) [
              | inl (f, k') ↦ panics (before (after f)) (rw (irq_with_slot, k, k') refl)
              | inr (w3, k', after') ↦
                  after_give_back w3 InvocationError.insufficient_resources
                    (irq_with_slot s w1 held irq edge b slot) G (rw (irq_with_slot, k, k') refl)
            ]
            | inr ((ok ntfn, w2), k, after) ↦
                rw (irq_with_slot, k) (irq_with_ntfn-Registers w1 w2 slot ntfn a k)
          ]

      pub irq_with_bit-Registers : Registers s w0 d G (irq_with_bit s w0 held irq edge b)
      unfolding irq_with_bit
      irq_with_bit-Registers = elim (alloc_slot-Settles s w0) [
        | inl (f, k) ↦ panics f (rw (irq_with_bit, k) refl)
        | inr ((err e, w1), k, after) ↦
            after_give_back w1 InvocationError.insufficient_resources
              (irq_with_bit s w0 held irq edge b) G (rw (irq_with_bit, k) refl)
        | inr ((ok slot, w1), k, after) ↦ rw (irq_with_bit, k) (irq_with_slot-Registers w1 slot k)
      ]

  -- `ntfn_register` on a dispatch of one word of bits and tables of 64 entries, whatever the cspace
  -- and the kernel answer: it gives out a bit that was clear, which it marks, with a capability that
  -- it minted in a fresh slot from the process' notification with the flags and the bit as the badge,
  -- and enters that as the bit's badged notification; or it returns an error with the bits and the
  -- tables as they were; or it panics, where the cspace does or the minting failed.
  pub ntfn_register-Registers :
      (w : World) (d : UserNotificationDispatch)
      → IsDispatch d
      → Registers s w d (NtfnGiven s w d) (ntfn_register s w d)
  unfolding ntfn_register
  ntfn_register-Registers w d v = elim (alloc_ntfn_bit-BitTaken d v) [
    | bit_taken b bf e small clear u ↦
        rw (ntfn_register, e) (ntfn_with_bit-Registers d v b bf small clear u w)
    | no_bit e ↦
        refused InvocationError.insufficient_resources d w (rw (ntfn_register, e) refl)
          (same_bits d.allocated_bits v.words) refl refl
  ]
