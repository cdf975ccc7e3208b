-- ===== src/RootServer/Irq/Registers.antt =====
-- What a registration of a badge bit may do to the dispatch, and on which steps it panics.
use smos_thesis.Base.{
  ℕ, ◌≤◌, ◌<◌, ◌^◌, ◌≡◌, Bool, true, false, set, some, Result, ok, err, ret, panic,
}
use Prim.Native.Nat.{bit_or}
use smos_thesis.Bitfield.Laws.{member, Writes}
use smos_thesis.Common.Errors.{InvocationError}
use smos_thesis.RootServer.Kernel.{SelError}
use smos_thesis.RootServer.Irq.{UserNotificationDispatch, IrqServices, Outcome, irq_control_get}
use smos_thesis.RootServer.Irq.Bits.{SameBits}

module _ {World : Type 0} (s : IrqServices World) where
  -- A step that the code takes to be sure of failed, in a world to which calls lead: the cspace
  -- panicked, or a badge was not minted, a capability not deleted, or the handler of an interrupt of
  -- one core not given out.
  pub data StepFailed : World → Type 0 where
    alloc_panics : (w : World) → s.alloc_slot w ≡ panic → StepFailed w
    free_panics : (w : World) (slot : ℕ) → s.free_slot w slot ≡ panic → StepFailed w
    mint_failed :
        (w : World) (dest src badge : ℕ) (e : SelError)
        → (s.mint w dest src badge).0 ≡ err e
        → StepFailed w
    delete_failed :
        (w : World) (cap : ℕ) (e : SelError) → (s.delete_cap w cap).0 ≡ err e → StepFailed w
    trigger_failed :
        (w : World) (control irq slot : ℕ) (edge : Bool) (e : SelError)
        → 16 ≤ irq
        → irq < 32
        → (s.irq_control_get_trigger w control irq edge slot).0 ≡ err e
        → StepFailed w
    after_alloc :
        (w w' : World) (r : Result SelError ℕ)
        → s.alloc_slot w ≡ ret (r, w')
        → StepFailed w'
        → StepFailed w
    after_free :
        (w w' : World) (slot : ℕ) → s.free_slot w slot ≡ ret w' → StepFailed w' → StepFailed w
    after_mint :
        (w : World) (dest src badge : ℕ) → StepFailed (s.mint w dest src badge).1 → StepFailed w
    after_delete : (w : World) (cap : ℕ) → StepFailed (s.delete_cap w cap).1 → StepFailed w
    after_trigger :
        (w : World) (control irq slot : ℕ) (edge : Bool)
        → StepFailed (s.irq_control_get_trigger w control irq edge slot).1
        → StepFailed w
    after_set_notification :
        (w : World) (handler ntfn : ℕ)
        → StepFailed (s.set_notification w handler ntfn).1
        → StepFailed w

  -- The capability in a fresh slot is the process' notification with the bit in its badge.
  pub record NtfnGiven (w : World) (d : UserNotificationDispatch) (b cap ntfn : ℕ)
      (d' : UserNotificationDispatch) (w' : World) : Type 0 where
    pub between : World
    pub same : cap ≡ ntfn
    pub allocated : s.alloc_slot w ≡ ret (ok ntfn, between)
    pub minted : s.mint between ntfn d.ntfn (bit_or d.flag_bits (2 ^ b)) ≡ (ok tt, w')
    pub handlers : d'.irq_handler_caps ≡ d.irq_handler_caps

  -- The capability in a fresh slot is the handler of the interrupt, bound to such a notification in
  -- another slot.
  pub record IrqGiven (irq : ℕ) (edge : Bool) (w : World) (d : UserNotificationDispatch)
      (b cap ntfn : ℕ) (d' : UserNotificationDispatch) (w' : World) : Type 0 where
    pub w1 : World
    pub w2 : World
    pub w3 : World
    pub w4 : World
    pub allocated_handler : s.alloc_slot w ≡ ret (ok cap, w1)
    pub allocated_ntfn : s.alloc_slot w1 ≡ ret (ok ntfn, w2)
    pub got : irq_control_get s w2 cap d.irq_control irq edge ≡ ret (ok cap, w3)
    pub minted : s.mint w3 ntfn d.ntfn (bit_or d.flag_bits (2 ^ b)) ≡ (ok tt, w4)
    pub bound : s.set_notification w4 cap ntfn ≡ (ok tt, w')
    pub handlers : d'.irq_handler_caps ≡ set d.irq_handler_caps b (some cap)

  abbrev pub Given : Type 1
  Given = (b cap ntfn : ℕ) → UserNotificationDispatch → World → Type 0

  -- A registration gives out a bit that was free and a capability, as `G` says of them, and enters
  -- the badged notification in the table; or it fails with the bits as they were and the tables
  -- untouched; or it panics, on a failed step.
  pub data Registers (w0 : World) (d : UserNotificationDispatch) (G : Given) (r : Outcome s)
      : Type 0 where
    given :
        (b cap ntfn : ℕ) (d' : UserNotificationDispatch) (w : World)
        → r ≡ ret (ok (b, cap), d', w)
        → b < 64
        → member d.allocated_bits b ≡ false
        → Writes true d.allocated_bits b d'.allocated_bits
        → d'.badged_ntfns ≡ set d.badged_ntfns b (some ntfn)
        → G b cap ntfn d' w
        → Registers w0 d G r
    refused :
        (e : InvocationError) (d' : UserNotificationDispatch) (w : World)
        → r ≡ ret (err e, d', w)
        → SameBits d.allocated_bits d'.allocated_bits
        → d'.badged_ntfns ≡ d.badged_ntfns
        → d'.irq_handler_caps ≡ d.irq_handler_caps
        → Registers w0 d G r
    panics : StepFailed w0 → r ≡ panic → Registers w0 d G r
