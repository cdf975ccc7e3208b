-- ===== src/RootServer/Cspace/TwoLevel.antt =====
-- A cspace of two levels, as the root server has it: slots as pairs of a CNode and a slot in it.
use mathlib.Core.Bool.{false≢true}
use mathlib.Core.Path.{subst}
use smos_thesis.Base.{
  ℕ, ◌+◌, ◌*◌, ◌/◌, ◌≤◌, ◌<◌, ◌≡◌, ◌≢◌, refl, sym, ap, ◌∙◌, Bool, true, false, inl, inr, arith, leb,
  ◌==◌, Bool-cases, length, Result, ok, err, Run, ret, panic,
}
use smos_thesis.Bitfield.{Bitfield, bf_set_bit}
use smos_thesis.Bitfield.Laws.{IsBitfield, member, capacity, Writes, bf_set_bit-Writes}
use smos_thesis.RootServer.Kernel.{SelError}
use smos_thesis.RootServer.Cspace.{CSpace, cnode_slots, get_cnode, set_cnode, note_full}
use smos_thesis.RootServer.Cspace.Cnodes.{
  Present, set_cnode_at, set_cnode_here, set_cnode_elsewhere,
}

-- The CNode `c`: its last slot is free, and another one where the top level shows it free.
pub record CnodeOk (cs : CSpace) (c : ℕ) : Type 0 where
  pub bf : Bitfield
  pub at : Present cs (c * 256) bf
  pub words : IsBitfield bf
  pub size : length bf ≡ 4
  pub last : member bf 255 ≡ false
  pub room : member cs.top_bf c ≡ false → (b : ℕ) × (b < 255) × (member bf b ≡ false)

-- Two levels, of which the first `n` CNodes are present.
pub record IsTwoLevel (cs : CSpace) (n : ℕ) : Type 0 where
  pub two : cs.two_level ≡ true
  pub words : IsBitfield cs.top_bf
  pub size : cnode_slots cs.top_lvl_size_bits ≤ capacity cs.top_bf
  pub within : n ≤ cnode_slots cs.top_lvl_size_bits
  pub cnodes : (c : ℕ) → c < n → CnodeOk cs c

pub Present-top :
    (cs : CSpace) (p : ℕ) (bf t : Bitfield)
    → Present cs p bf
    → Present (record cs { top_bf = t }) p bf
Present-top cs p bf t x = record {
  node = x.node;
  node_in = x.node_in;
  node_at = x.node_at;
  cnode_in = x.cnode_in;
  cnode_at = x.cnode_at;
}

-- What an allocation in the CNode `c` changes.
pub record TakesIn (cs : CSpace) (c b : ℕ) (cs' : CSpace) : Type 0 where
  pub bf : Bitfield
  pub bf' : Bitfield
  pub before : Present cs (c * 256) bf
  pub clear : member bf b ≡ false
  pub writes : Writes true bf b bf'
  pub after : Present cs' (c * 256) bf'
  pub elsewhere : (q : ℕ) (bq : Bitfield) → q / 256 ≢ c → Present cs q bq → Present cs' q bq

-- The outcomes of an allocation.
pub data AllocatesTwo (cs : CSpace) (n : ℕ) (r : Run (Result SelError ℕ × CSpace)) : Type 0 where
  two_found :
      (c b : ℕ) (cs' : CSpace)
      → r ≡ ret (ok (c * 256 + b), cs')
      → c < n
      → b < 255
      → TakesIn cs c b cs'
      → IsTwoLevel cs' n
      → AllocatesTwo cs n r
  two_missing :
      (c : ℕ)
      → n ≤ c
      → c < cnode_slots cs.top_lvl_size_bits
      → member cs.top_bf c ≡ false
      → ((d : ℕ) → d < c → member cs.top_bf d ≡ true)
      → (get_cnode cs (c * 256) ≡ panic → r ≡ panic)
      → AllocatesTwo cs n r
  two_full :
      (e : SelError)
      → r ≡ ret (err e, cs)
      → ((c : ℕ) → c < n → member cs.top_bf c ≡ true)
      → AllocatesTwo cs n r

-- The cspace after the CNode `c` was written, and the top level perhaps marked.
pub record AfterSet (cs : CSpace) (c b : ℕ) (bf bf' : Bitfield) (cs' : CSpace) : Type 0 where
  pub two : cs'.two_level ≡ cs.two_level
  pub bits : cs'.top_lvl_size_bits ≡ cs.top_lvl_size_bits
  pub words : IsBitfield cs'.top_bf
  pub size : length cs'.top_bf ≡ length cs.top_bf
  pub top : (d : ℕ) → d ≢ c → member cs'.top_bf d ≡ member cs.top_bf d
  pub room : member cs'.top_bf c ≡ false → (k : ℕ) × (k < 255) × (member bf' k ≡ false)
  pub here : Present cs' (c * 256) bf'
  pub elsewhere : (q : ℕ) (bq : Bitfield) → q / 256 ≢ c → Present cs q bq → Present cs' q bq

pub AfterSet-IsTwoLevel :
    (cs cs' : CSpace) (n c b : ℕ) (bf bf' : Bitfield) (on : Bool)
    → IsTwoLevel cs n
    → b < 255
    → length bf ≡ 4
    → member bf 255 ≡ false
    → Writes on bf b bf'
    → AfterSet cs c b bf bf' cs'
    → IsTwoLevel cs' n
AfterSet-IsTwoLevel cs cs' n c b bf bf' on v small four last w a = record {
  two = a.two ∙ v.two;
  words = a.words;
  size =
      let h = v.size in let k = a.size in let g = a.bits in omega (arith, h, ap cnode_slots g, k);
  within = let h = v.within in let g = a.bits in omega (arith, h, ap cnode_slots g);
  cnodes = λ d h. elim (Bool-cases (d == c)) [
    | inl same ↦
        let e : d ≡ c = ground arith in
        rw e (record {
          bf = bf';
          at = a.here;
          words = w.words;
          size = w.size ∙ four;
          last = ground (arith, w.bits 255, last, small);
          room = a.room;
        })
    | inr other ↦
        let ne : d ≢ c = ground (arith, other) in
        let o = v.cnodes d h in
        record {
          bf = o.bf;
          at = a.elsewhere (d * 256) o.bf (λ k. ne (omega (arith, k))) o.at;
          words = o.words;
          size = o.size;
          last = o.last;
          room = λ k. o.room (sym (a.top d ne) ∙ k);
        }
  ];
}

pub own_bit : (bf bf' : Bitfield) (b : ℕ) (on : Bool) → Writes on bf b bf' → member bf' b ≡ on
own_bit bf bf' b on w = ground (arith, w.bits b)

pub other_bit :
    (bf bf' : Bitfield) (b d : ℕ) (on : Bool)
    → Writes on bf b bf'
    → d ≢ b
    → member bf' d ≡ member bf d
other_bit bf bf' b d on w ne = ground (arith, w.bits d, ne)

pub record SameTop (cs cs' : CSpace) : Type 0 where
  pub two : cs'.two_level ≡ cs.two_level
  pub bits : cs'.top_lvl_size_bits ≡ cs.top_lvl_size_bits
  pub top : cs'.top_bf ≡ cs.top_bf

pub set_cnode-SameTop :
    (cs : CSpace) (p : ℕ) (bf bf' : Bitfield) → Present cs p bf → SameTop cs (set_cnode cs p bf')
set_cnode-SameTop cs p bf bf' x =
    rw (set_cnode_at cs p bf bf' x) (record { two = refl; bits = refl; top = refl })

pub elsewhere_after :
    (cs : CSpace) (c : ℕ) (bf bf' : Bitfield)
    → Present cs (c * 256) bf
    → (q : ℕ) (bq : Bitfield) → q / 256 ≢ c
    → Present cs q bq
    → Present (set_cnode cs (c * 256) bf') q bq
elsewhere_after cs c bf bf' x q bq ne y =
    set_cnode_elsewhere cs (c * 256) q bf bf' bq x (λ e. ne (omega (arith, e))) y

note_full_room : (cs : CSpace) (c next : ℕ) → next < 255 → note_full cs c next ≡ ret cs
unfolding note_full
note_full_room cs c next h = ground (arith, h)

note_full_last :
    (cs : CSpace) (c next : ℕ) (t : Bitfield)
    → 255 ≤ next
    → bf_set_bit cs.top_bf c ≡ ret t
    → note_full cs c next ≡ ret (record cs { top_bf = t })
unfolding note_full
note_full_last cs c next t h e = ground (arith, h, e)

pub note_full-AfterSet :
    (cs : CSpace) (c b next : ℕ) (bf bf' : Bitfield)
    → IsBitfield cs.top_bf
    → c < capacity cs.top_bf
    → Present cs (c * 256) bf
    → member bf' next ≡ false
    → (cs' : CSpace) × (note_full (set_cnode cs (c * 256) bf') c next ≡ ret cs')
      × AfterSet cs c b bf bf' cs'
note_full-AfterSet cs c b next bf bf' words inside x clear =
    let cs1 = set_cnode cs (c * 256) bf' in
    let same = set_cnode-SameTop cs (c * 256) bf bf' x in
    let words1 : IsBitfield cs1.top_bf = subst IsBitfield (sym same.top) words in
    elim (Bool-cases (leb 255 next)) [
      | inr room ↦
          let h : next < 255 = ground (arith, room) in
          (
            cs1,
            note_full_room cs1 c next h,
            record {
              two = same.two;
              bits = same.bits;
              words = words1;
              size = ap (λ (t : Bitfield). length t) same.top;
              top = λ d ne. ap (λ (t : Bitfield). member t d) same.top;
              room = λ k. (next, h, clear);
              here = set_cnode_here cs (c * 256) bf bf' x;
              elsewhere = elsewhere_after cs c bf bf' x;
            },
          )
      | inl last ↦
          let (t, e, w) =
            bf_set_bit-Writes cs1.top_bf c words1
              (omega (arith, inside, ap (λ (u : Bitfield). length u) same.top)) in
          (
            record cs1 { top_bf = t },
            note_full_last cs1 c next t (ground (arith, last)) e,
            record {
              two = same.two;
              bits = same.bits;
              words = w.words;
              size = w.size ∙ ap (λ (u : Bitfield). length u) same.top;
              top = λ d ne.
                  other_bit cs1.top_bf t c d true w ne ∙ ap (λ (u : Bitfield). member u d) same.top;
              room = λ k. absurd (false≢true (sym k ∙ own_bit cs1.top_bf t c true w));
              here = Present-top cs1 (c * 256) bf' t (set_cnode_here cs (c * 256) bf bf' x);
              elsewhere =
                  λ q bq ne y. Present-top cs1 q bq t (elsewhere_after cs c bf bf' x q bq ne y);
            },
          )
    ]
