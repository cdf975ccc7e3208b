-- ===== src/RootServer/Irq/Bits.antt =====
-- The badge bits of a process' notification: taking one, and giving it back.
use smos_thesis.Base.{
  ℕ, ◌<◌, ◌≡◌, refl, ap, ◌∙◌, true, false, inl, inr, arith, ◌==◌, Bool-cases, length, Result, ok,
  err, Run, ret,
}
use smos_thesis.Bitfield.{Bitfield, claim}
use smos_thesis.Bitfield.Laws.{IsBitfield, member, Writes, bf_clr_bit-Writes}
use smos_thesis.Bitfield.Claim.{Claimed, taken, exhausted, claim-Claimed}
use smos_thesis.Common.Errors.{InvocationError}
use smos_thesis.RootServer.Kernel.{SelError}
use smos_thesis.RootServer.Irq.{
  UserNotificationDispatch, IrqServices, alloc_ntfn_bit, free_ntfn_bit, give_back,
}

pub record IsDispatch (d : UserNotificationDispatch) : Type 0 where
  pub words : IsBitfield d.allocated_bits
  pub one_word : length d.allocated_bits ≡ 1
  pub ntfns : length d.badged_ntfns ≡ 64
  pub handlers : length d.irq_handler_caps ≡ 64

-- Two bitfields with the same bits.
pub record SameBits (bf bf' : Bitfield) : Type 0 where
  pub words : IsBitfield bf'
  pub size : length bf' ≡ length bf
  pub bits : (b : ℕ) → member bf' b ≡ member bf b

pub same_bits : (bf : Bitfield) → IsBitfield bf → SameBits bf bf
same_bits bf v = record { words = v; size = refl; bits = λ b. refl }

-- What the taking of a bit does.
pub data BitTaken (d : UserNotificationDispatch)
    (r : Run (Result SelError ℕ × UserNotificationDispatch)) : Type 0 where
  bit_taken :
      (b : ℕ) (bf : Bitfield)
      → r ≡ ret (ok b, record d { allocated_bits = bf })
      → b < 64
      → member d.allocated_bits b ≡ false
      → Writes true d.allocated_bits b bf
      → BitTaken d r
  no_bit : r ≡ ret (err SelError.not_enough_memory, d) → BitTaken d r

pub alloc_ntfn_bit-BitTaken :
    (d : UserNotificationDispatch) → IsDispatch d → BitTaken d (alloc_ntfn_bit d)
unfolding alloc_ntfn_bit
alloc_ntfn_bit-BitTaken d v = from (claim-Claimed d.allocated_bits v.words)
  where
    from : Claimed d.allocated_bits (claim d.allocated_bits) → BitTaken d (alloc_ntfn_bit d)
    from (taken b bf e small clear below w) =
        bit_taken b bf (rw (alloc_ntfn_bit, e) refl) (omega (arith, v.one_word)) clear w
    from (exhausted e all) = no_bit (rw (alloc_ntfn_bit, e) refl)

cleared_again :
    (bf bf' bf'' : Bitfield) (b : ℕ)
    → member bf b ≡ false
    → Writes true bf b bf'
    → Writes false bf' b bf''
    → SameBits bf bf''
cleared_again bf bf' bf'' b clear w u = record {
  words = u.words;
  size = u.size ∙ w.size;
  bits = λ c. elim (Bool-cases (c == b)) [
    | inl here ↦
        let e : c ≡ b = ground arith in ground (arith, u.bits c, w.bits c, ap (member bf) e, clear)
    | inr there ↦ ground (arith, u.bits c, w.bits c)
  ];
}

-- A bit that was taken and is given back leaves the bits as they were.
pub give_back-SameBits :
    {World : Type 0} (s : IrqServices World) (w : World) (d : UserNotificationDispatch) (b : ℕ)
    (bf : Bitfield) (e : InvocationError)
    → b < 64
    → length d.allocated_bits ≡ 1
    → member d.allocated_bits b ≡ false
    → Writes true d.allocated_bits b bf
    → (bf' : Bitfield) × (give_back s w (record d { allocated_bits = bf }) b e
        ≡ ret (err e, record d { allocated_bits = bf' }, w))
      × SameBits d.allocated_bits bf'
unfolding give_back free_ntfn_bit
give_back-SameBits s w d b bf e small one clear u =
    let (bf', k, u') = bf_clr_bit-Writes bf b u.words (omega (arith, u.size)) in
    (bf', rw (give_back, free_ntfn_bit, k) refl, cleared_again d.allocated_bits bf bf' b clear u u')
