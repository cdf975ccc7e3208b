-- ===== src/RootServer/Irq/Dispatch.antt =====
-- The dispatch loop of `handle_irq`.
use Prim.Native.Nat.{bit_and}
use smos_thesis.Base.{
  ℕ, zero, suc, ◌<◌, ◌^◌, ◌≡◌, ◌≢◌, refl, sym, ap, ◌∙◌, List, [], ◌∷◌, ◌++◌, true, false, not,
  Option, some, inl, inr, arith, Run, ret, panic, Run-cases, ◌==◌, get_elem?,
}
use smos_thesis.Word.{
  IsWord, word_not, test_bit, trailing_zeros, test_bit-zero, test_bit-bit_and, test_bit-word_not,
  test_bit-pow, trailing_zeros-IsLowest, bit_and-lt, bit-IsWord,
}
use smos_thesis.RootServer.Irq.{
  IrqDispatch, CallbackCall, IrqHandlerInfo, registered, handle_loop, handle_irq, call_of,
}

-- The bits that `handle_irq` is to handle.
abbrev pub pending : IrqDispatch → ℕ → ℕ → ℕ
pending d badge bits = bit_and (bit_and badge bits) d.ident_bits

bit_cleared : (badge b : ℕ) → b < 64 → test_bit (bit_and badge (word_not (2 ^ b))) b ≡ false
bit_cleared badge b h = ground (
  arith,
  test_bit-bit_and b badge (word_not (2 ^ b)),
  test_bit-word_not b (2 ^ b) (bit-IsWord b h) h,
  test_bit-pow b b,
)

-- One turn of the loop leaves the bit that it handled among those to check.
still_pending :
    (badge unchecked : ℕ)
    → IsWord badge
    → IsWord unchecked
    → unchecked ≢ 0
    → bit_and unchecked (word_not (bit_and badge (word_not (2 ^ trailing_zeros unchecked)))) ≢ 0
still_pending badge unchecked hb hu nz z =
    let (low, small) = trailing_zeros-IsLowest unchecked hu nz in
    let b = trailing_zeros unchecked in
    let badge' = bit_and badge (word_not (2 ^ b)) in
    let taken : test_bit badge' b ≡ false = bit_cleared badge b small in
    let kept : test_bit (word_not badge') b ≡ true =
      test_bit-word_not b badge' (bit_and-lt 64 badge (word_not (2 ^ b)) hb) small ∙ ap not taken in
    ground
      (arith, z, low.here, kept, test_bit-bit_and b unchecked (word_not badge'), test_bit-zero b)

loop_panic :
    (fuel : ℕ) (d : IrqDispatch) (badge unchecked : ℕ) (calls : List CallbackCall)
    → unchecked ≢ 0
    → registered d (trailing_zeros unchecked) ≡ panic
    → handle_loop (suc fuel) d badge unchecked calls ≡ some panic
unfolding handle_loop
loop_panic fuel d badge unchecked calls nz e =
    let more : (unchecked == 0) ≡ false = ground arith in rw (handle_loop, more, e) refl

loop_next :
    (fuel : ℕ) (d : IrqDispatch) (badge unchecked : ℕ) (calls : List CallbackCall)
    (h : IrqHandlerInfo)
    → unchecked ≢ 0
    → registered d (trailing_zeros unchecked) ≡ ret h
    → handle_loop (suc fuel) d badge unchecked calls ≡ (
        let badge' = bit_and badge (word_not (2 ^ trailing_zeros unchecked)) in
        handle_loop fuel d badge' (bit_and unchecked (word_not badge')) (calls ++ call_of h ∷ []))
unfolding handle_loop
loop_next fuel d badge unchecked calls h nz e =
    let more : (unchecked == 0) ≡ false = ground arith in rw (handle_loop, more, e) refl

loop_done :
    (fuel : ℕ) (d : IrqDispatch) (badge : ℕ) (calls : List CallbackCall)
    → handle_loop (suc fuel) d badge 0 calls ≡ some (ret (badge, calls))
unfolding handle_loop
loop_done fuel d badge calls = refl

handle_irq_at :
    (fuel : ℕ) (d : IrqDispatch) (badge bits : ℕ)
    → get_elem? d.allocated_bits 0 ≡ some bits
    → handle_irq fuel d badge ≡ ret (handle_loop fuel d badge (pending d badge bits) [])
unfolding handle_irq
handle_irq_at fuel d badge bits e = rw e refl

loop_stuck :
    (fuel : ℕ) (d : IrqDispatch) (badge unchecked : ℕ) (calls : List CallbackCall)
    → IsWord badge
    → IsWord unchecked
    → unchecked ≢ 0
    → (r : ℕ × List CallbackCall) → handle_loop fuel d badge unchecked calls ≢ some (ret r)
unfolding handle_loop
loop_stuck zero d badge unchecked calls hb hu nz r = λ e. cc (e)
loop_stuck (suc fuel) d badge unchecked calls hb hu nz r =
    elim (Run-cases (registered d (trailing_zeros unchecked))) [
      | inl e ↦ λ k. let step = loop_panic fuel d badge unchecked calls nz e in cc (step, k)
      | inr (h, e) ↦ λ k.
          loop_stuck fuel d _ _ _ (bit_and-lt 64 badge _ hb) (bit_and-lt 64 unchecked _ hu)
            (still_pending badge unchecked hb hu nz) r
            (sym (loop_next fuel d badge unchecked calls h nz e) ∙ k)
    ]

-- `handle_irq`, where a bit is to be handled: however many iterations are allowed, the loop does not
-- return, since it clears from the bits to check all but the one it has just handled. Where no
-- bit is to be handled it returns the badge and calls nothing.
pub handle_irq_lem :
    (d : IrqDispatch) (badge bits : ℕ)
    → IsWord badge
    → get_elem? d.allocated_bits 0 ≡ some bits
    → (pending d badge bits ≢ 0
        → (fuel : ℕ) (r : ℕ × List CallbackCall) → handle_irq fuel d badge ≢ ret (some (ret r)))
      × (pending d badge bits ≡ 0
          → (fuel : ℕ) → handle_irq (suc fuel) d badge ≡ ret (some (ret (badge, []))))
handle_irq_lem d badge bits hb e = (
  λ nz fuel r.
      let stuck =
        loop_stuck fuel d badge (pending d badge bits) [] hb
          (bit_and-lt 64 (bit_and badge bits) d.ident_bits (bit_and-lt 64 badge bits hb)) nz r in
      λ k. let step = handle_irq_at fuel d badge bits e in stuck (cc (step, k)),
  λ z fuel.
      handle_irq_at (suc fuel) d badge bits e
      ∙ ap (λ (p : ℕ). ret (handle_loop (suc fuel) d badge p [])) z
      ∙ ap (λ (o : Option (Run (ℕ × List CallbackCall))). ret o) (loop_done fuel d badge []),
)
