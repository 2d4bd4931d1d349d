-- ===== src/TidList/Faults.antt =====
-- The two intersections of src/bitdrill/Tid_List.hxx that overwrite their left list, by the
-- representations of the lists: what they compute, and where they exit or lose transactions.
use bitdrill.Base.{ℕ, zero, suc, ◌<◌, arith, ◌≡◌, refl, ap, ◌∙◌, sym}
use bitdrill.Base.{Bool, false, ◌&&◌, Option, some, none, List, [], ◌∷◌, ◌>>=◌, zip_and}
use bitdrill.Base.Count.{count_below, count_below_ext, bit_of, bit_of-zip_and}
use bitdrill.BitVector
use bitdrill.BitVector.Laws.{
  to_bits, intersect-HasBits, intersect-empty, intersect_and_count_lem, count-count_true,
}
use bitdrill.BitVector.Access.{length-to_bits}
use bitdrill.TidVector
use bitdrill.TidVector.Laws.{intersect-has}
use bitdrill.TidVector.Hits.{length-count_below}
use bitdrill.TidList.{
  Implementation, bitvector, tidvector, TidList, intersect_by, intersect, intersect_and_count_by,
  intersect_and_count,
}
use bitdrill.TidList.Laws.{holds_by, holds, Content, IsTidList, Holds, range-intersect, count_bits}

abbrev pub Both : ℕ → TidList → TidList → Option TidList → Type 0
Both n a b result = Holds n (λ t. holds a t && holds b t) result

-- The outcome of `intersect` by the two representations: the common transactions for two bit
-- vectors that are not empty, a read outside them for two that are, no transaction at all for identifiers with a bit vector, an exit otherwise.
abbrev pub Outcome : Implementation → Implementation → ℕ → (ℕ → Bool) → Option TidList → Type 0
Outcome bitvector bitvector zero both result = result ≡ none
Outcome bitvector bitvector (suc n) both result = Holds (suc n) both result
Outcome tidvector bitvector n both result = Holds n (λ t. false) result
Outcome bitvector tidvector n both result = result ≡ none
Outcome tidvector tidvector n both result = result ≡ none

intersect_nothing : (l : List ℕ) → TidVector.intersect l [] ≡ []
unfolding TidVector.intersect
intersect_nothing [] = refl
intersect_nothing (x ∷ l) = refl

intersect-by-Outcome :
    (i j : Implementation) (n : ℕ) (a b : TidList)
    → Content i n a
    → Content j n b
    → Outcome i j n (λ t. holds_by i a t && holds_by j b t) (intersect_by i j a b)
unfolding intersect_by
intersect-by-Outcome bitvector bitvector zero a b ca cb =
    let fails = (intersect-empty a.bits b.bits ca.0 cb.0 ca.1 cb.1).0 in rw fails refl
intersect-by-Outcome bitvector bitvector (suc n) a b ca cb =
    let h = intersect-HasBits a.bits b.bits ca.0 cb.0 (ca.1 ∙ sym cb.1) (omega (arith, ca.1)) in
    record {
      out = record { implementation = bitvector; bits = h.out; tids = a.tids };
      returns = rw h.returns;
      valid = (h.valid, h.same_size ∙ ca.1, ca.2);
      tells = λ t _.
          ap (λ bits. bit_of bits t) h.holds ∙ bit_of-zip_and (to_bits a.bits) (to_bits b.bits) t;
    }
intersect-by-Outcome bitvector tidvector n a b ca cb = refl
intersect-by-Outcome tidvector bitvector n a b ca cb =
    let lost : TidVector.intersect a.tids b.tids ≡ [] =
      ap (TidVector.intersect a.tids) cb.2 ∙ intersect_nothing a.tids in
    record {
      out = record { implementation = tidvector; bits = a.bits; tids = [] };
      returns = rw lost;
      valid = (tt, tt, ca.2);
      tells = λ t _. refl;
    }
intersect-by-Outcome tidvector tidvector n a b ca cb = refl

-- `intersect` of two valid lists comes back with the transactions that both hold only where both
-- are bit vectors over at least one transaction. It reads outside two that are over none. It exits where the other list is a vector of identifiers, and where it is a
-- bit vector and this one is not, it comes back with a list that holds no transaction.
pub intersect-Outcome :
    (n : ℕ) (a b : TidList)
    → IsTidList n a
    → IsTidList n b
    → Outcome a.implementation b.implementation n (λ t. holds a t && holds b t) (intersect a b)
unfolding intersect
intersect-Outcome n a b ca cb = intersect-by-Outcome a.implementation b.implementation n a b ca cb

-- The outcome of `intersect_and_count`: the common transactions and their number where the
-- representations are the same, an exit otherwise, and a read outside two empty bit vectors.
pub record HoldsCounted (n : ℕ) (p : ℕ → Bool) (result : Option (ℕ × TidList)) : Type 0 where
  pub out : TidList
  pub returns : result ≡ some (count_below n p, out)
  pub valid : IsTidList n out
  pub tells : (t : ℕ) → t < n → holds out t ≡ p t

abbrev pub CountedOutcome :
    Implementation → Implementation → ℕ → (ℕ → Bool) → Option (ℕ × TidList) → Type 0
CountedOutcome bitvector bitvector zero both result = result ≡ none
CountedOutcome bitvector bitvector (suc n) both result = HoldsCounted (suc n) both result
CountedOutcome tidvector tidvector n both result = HoldsCounted n both result
CountedOutcome bitvector tidvector n both result = result ≡ none
CountedOutcome tidvector bitvector n both result = result ≡ none

intersect_and_count-by-Outcome :
    (i j : Implementation) (n : ℕ) (a b : TidList)
    → Content i n a
    → Content j n b
    → CountedOutcome i j n (λ t. holds_by i a t && holds_by j b t) (intersect_and_count_by i j a b)
unfolding intersect_and_count_by
intersect_and_count-by-Outcome bitvector bitvector zero a b ca cb =
    let fails = (intersect-empty a.bits b.bits ca.0 cb.0 ca.1 cb.1).1 in rw fails refl
intersect_and_count-by-Outcome bitvector bitvector (suc n) a b ca cb =
    let some_bit : 0 < a.bits.num_bits = omega (arith, ca.1) in
    let same : a.bits.num_bits ≡ b.bits.num_bits = ca.1 ∙ sym cb.1 in
    let h = intersect-HasBits a.bits b.bits ca.0 cb.0 same some_bit in
    let size =
      count_bits (to_bits h.out) (suc n) (length-to_bits h.out h.valid ∙ h.same_size ∙ ca.1)
      ∙ count_below_ext (suc n) _ _ (λ t _. both h.holds t) in
    record {
      out = record { implementation = bitvector; bits = h.out; tids = a.tids };
      returns =
          ap (λ o. o >>= as_list)
            ((intersect_and_count_lem a.bits b.bits ca.0 cb.0 same some_bit).0
              ∙ ap (λ o. o >>= λ out. BitVector.count out >>= λ total. some (total, out)) h.returns
              ∙ ap (λ o. o >>= λ total. some (total, h.out))
                  (count-count_true h.out h.valid (omega (arith, h.same_size, some_bit))))
          ∙ ap (λ k. some (k, record { implementation = bitvector; bits = h.out; tids = a.tids }))
              size;
      valid = (h.valid, h.same_size ∙ ca.1, ca.2);
      tells = λ t _. both h.holds t;
    }
  where
    as_list : ℕ × BitVector.BitVector → Option (ℕ × TidList)
    as_list result =
        some (result.0, record { implementation = bitvector; bits = result.1; tids = a.tids })

    both :
        {bits : List Bool}
        → bits ≡ zip_and (to_bits a.bits) (to_bits b.bits)
        → (t : ℕ) → bit_of bits t ≡ (bit_of (to_bits a.bits) t && bit_of (to_bits b.bits) t)
    both e t = ap (λ bits. bit_of bits t) e ∙ bit_of-zip_and (to_bits a.bits) (to_bits b.bits) t
intersect_and_count-by-Outcome bitvector tidvector n a b ca cb = refl
intersect_and_count-by-Outcome tidvector bitvector n a b ca cb = refl
intersect_and_count-by-Outcome tidvector tidvector n a b ca cb =
    let common = intersect-has a.tids b.tids ca.0 cb.0 in
    let range = range-intersect n a.tids b.tids ca.1 in
    let size =
      length-count_below n (TidVector.intersect a.tids b.tids) common.1 range
      ∙ count_below_ext n _ _ (λ t _. common.0 t) in
    record {
      out = record {
        implementation = tidvector;
        bits = a.bits;
        tids = TidVector.intersect a.tids b.tids;
      };
      returns = rw (common.3) (ap (λ k. some (k, out_list)) size);
      valid = (common.1, range, ca.2);
      tells = λ t _. common.0 t;
    }
  where
    out_list : TidList
    out_list = record {
      implementation = tidvector;
      bits = a.bits;
      tids = TidVector.intersect a.tids b.tids;
    }

-- `intersect_and_count` of two valid lists comes back, where both are bit vectors over at least one
-- transaction or both vectors of identifiers, with the list of the transactions that both hold and
-- their number. It reads outside two bit vectors over no transaction, and exits where the
-- representations differ.
pub intersect_and_count-Outcome :
    (n : ℕ) (a b : TidList)
    → IsTidList n a
    → IsTidList n b
    → CountedOutcome a.implementation b.implementation n
        (λ t. holds a t && holds b t)
        (intersect_and_count a b)
unfolding intersect_and_count
intersect_and_count-Outcome n a b ca cb =
    intersect_and_count-by-Outcome a.implementation b.implementation n a b ca cb
