-- ===== src/Bitfield/Claim.antt =====
-- Taking the first free bit, the step that every allocator makes.
use smos_thesis.Base.{ℕ, ◌<◌, ◌≡◌, refl, ◌∙◌, true, false, arith, Result, ok, err, Run, ret}
use smos_thesis.Bitfield.{Bitfield, bf_first_free, claim}
use smos_thesis.Bitfield.Laws.{IsBitfield, member, capacity, Writes, bf_set_bit-Writes}
use smos_thesis.Bitfield.FirstFree.{FirstFree, found, full, bf_first_free-FirstFree}

-- The specification of an allocation from the set of clear bits.
pub data Claimed (bf : Bitfield) (r : Run (Result (Unit {0}) ℕ × Bitfield)) : Type 0 where
  taken :
      (b : ℕ) (bf' : Bitfield)
      → r ≡ ret (ok b, bf')
      → b < capacity bf
      → member bf b ≡ false
      → ((c : ℕ) → c < b → member bf c ≡ true)
      → Writes true bf b bf'
      → Claimed bf r
  exhausted : r ≡ ret (err tt, bf) → ((b : ℕ) → b < capacity bf → member bf b ≡ true) → Claimed bf r

pub claim-Claimed : (bf : Bitfield) → IsBitfield bf → Claimed bf (claim bf)
unfolding claim
claim-Claimed bf v = from (bf_first_free-FirstFree bf v)
  where
    from : FirstFree bf 0 (bf_first_free bf) → Claimed bf (claim bf)
    from (found b e small clear below) =
        let (bf', s, w) = bf_set_bit-Writes bf b v small in
        let e' : bf_first_free bf ≡ ok b = e ∙ ground arith in
        taken b bf' (rw (e', claim, s) refl) small clear below w
    from (full e all) = exhausted (rw (e, claim) refl) all
