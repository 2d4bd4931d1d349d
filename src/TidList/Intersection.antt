-- ===== src/TidList/Intersection.antt =====
-- The intersection of two lists of src/bitdrill/Tid_List.hxx that writes its result elsewhere.
use bitdrill.Base.{ℕ, ◌<◌, ◌≡◌, arith, refl, ap, ◌∙◌, sym}
use bitdrill.Base.{Bool, ◌&&◌, some, List, []}
use bitdrill.Base.Count.{bit_of, bit_of-zip_and}
use bitdrill.BitVector
use bitdrill.BitVector.Laws.{
  to_bits, intersect-HasBits, intersect_into-intersect, resize-IsValid, num_bits-resize,
}
use bitdrill.TidVector
use bitdrill.TidVector.Laws.{has, IsAscending, intersect-has}
use bitdrill.TidVector.Hits.{keep, has-keep, All-keep, IsAscending-keep, intersect_bits-keep}
use bitdrill.TidList.{
  Implementation, bitvector, tidvector, TidList, intersect_into_by, intersect_into, make_bitvector,
  make_tidvector,
}
use bitdrill.TidList.Laws.{
  holds_by, holds, HasWords, Content, IsTidList, InRange, Holds, reads-All, range-intersect,
  &&_comm,
}

-- A vector of identifiers with the bit vector emptied, as the result is left.
tids_only :
    (n : ℕ) (ts : List ℕ) (p : ℕ → Bool)
    → IsAscending ts
    → InRange n ts
    → ((t : ℕ) → has ts t ≡ p t)
    → Holds n p (some (record { implementation = tidvector; bits = BitVector.resize 0; tids = ts }))
tids_only n ts p a r h = record {
  out = record { implementation = tidvector; bits = BitVector.resize 0; tids = ts };
  returns = refl;
  valid = (a, r, num_bits-resize 0);
  tells = λ t _. h t;
}

hits_only :
    (n : ℕ) (ts : List ℕ) (p q : ℕ → Bool)
    → IsAscending ts
    → InRange n ts
    → ((t : ℕ) → (has ts t && p t) ≡ q t)
    → Holds n q
        (some (record { implementation = tidvector; bits = BitVector.resize 0; tids = keep p ts }))
hits_only n ts p q a r h =
    tids_only n (keep p ts) q (IsAscending-keep p ts a) (All-keep (λ t. t < n) p ts r)
      λ t. has-keep p ts t ∙ h t

intersect_into-by-Holds :
    (i j : Implementation) (n : ℕ) (a b result : TidList)
    → Content i n a
    → Content j n b
    → HasWords i j n
    → Holds n (λ t. holds_by i a t && holds_by j b t) (intersect_into_by i j a b result)
unfolding intersect_into_by make_bitvector make_tidvector
intersect_into-by-Holds bitvector bitvector n a b result ca cb some_word =
    let same : a.bits.num_bits ≡ b.bits.num_bits = ca.1 ∙ sym cb.1 in
    let some_bit : 0 < a.bits.num_bits = omega (arith, some_word, ca.1) in
    let h = intersect-HasBits a.bits b.bits ca.0 cb.0 same some_bit in
    let written =
      intersect_into-intersect a.bits b.bits (BitVector.resize a.bits.num_bits) ca.0 cb.0
        (resize-IsValid a.bits.num_bits) same some_bit
      ∙ h.returns in
    record {
      out = record { implementation = bitvector; bits = h.out; tids = [] };
      returns = rw written;
      valid = (h.valid, h.same_size ∙ ca.1, refl);
      tells = λ t _.
          ap (λ bits. bit_of bits t) h.holds ∙ bit_of-zip_and (to_bits a.bits) (to_bits b.bits) t;
    }
intersect_into-by-Holds bitvector tidvector n a b result ca cb some_word =
    let reads = reads-All a.bits n b.tids ca.0 ca.1 cb.1 in
    let found = intersect_bits-keep a.bits (bit_of (to_bits a.bits)) b.tids reads in
    rw found (
      hits_only n b.tids (bit_of (to_bits a.bits)) _ cb.0 cb.1
        λ t. &&_comm (has b.tids t) (bit_of (to_bits a.bits) t))
intersect_into-by-Holds tidvector bitvector n a b result ca cb some_word =
    let reads = reads-All b.bits n a.tids cb.0 cb.1 ca.1 in
    let found = intersect_bits-keep b.bits (bit_of (to_bits b.bits)) a.tids reads in
    rw found (hits_only n a.tids (bit_of (to_bits b.bits)) _ ca.0 ca.1 (λ t. refl))
intersect_into-by-Holds tidvector tidvector n a b result ca cb some_word =
    let common = intersect-has a.tids b.tids ca.0 cb.0 in
    rw (common.2) (
      tids_only n (TidVector.intersect a.tids b.tids) _ common.1
        (range-intersect n a.tids b.tids ca.1) common.0)

-- `intersect (b, result)` of two valid lists, in whichever representations they are, over at least one
-- transaction if both are bit vectors, and whatever the result held before, comes back with a valid list of the transactions that both hold.
pub intersect_into-Holds :
    (n : ℕ) (a b result : TidList)
    → IsTidList n a
    → IsTidList n b
    → HasWords a.implementation b.implementation n
    → Holds n (λ t. holds a t && holds b t) (intersect_into a b result)
unfolding intersect_into
intersect_into-Holds n a b result ca cb some_word =
    intersect_into-by-Holds a.implementation b.implementation n a b result ca cb some_word
