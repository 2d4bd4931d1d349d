-- ===== src/TidList/BitsOnly.antt =====
-- The representation of the result of an intersection of src/bitdrill/Tid_List.hxx.
use bitdrill.Base.{
  ℕ, zero, suc, ◌<◌, arith, ◌≡◌, refl, ap, ◌∙◌, sym, Bool, ◌&&◌, Option, some, none, Option-cases,
  inl, inr,
}
use bitdrill.BitVector
use bitdrill.TidVector
use bitdrill.TidList.{
  TidList, Implementation, bitvector, tidvector, intersect_by, intersect, intersect_into_by,
  intersect_into, make_bitvector, make_tidvector,
}
use bitdrill.TidList.Laws.{IsTidList, holds, Holds, some-HasWords}
use bitdrill.TidList.Intersection.{intersect_into-Holds}
use bitdrill.TidList.Faults.{Outcome, intersect-Outcome}

-- A result of `intersect` on bit vectors, which is a bit vector again.
pub record BitsHold (n : ℕ) (p : ℕ → Bool) (result : Option TidList) : Type 0 where
  pub held : Holds n p result
  pub uses_bits : held.out.implementation ≡ bitvector

kind_of : Option TidList → Implementation
kind_of none = bitvector
kind_of (some tl) = tl.implementation

kind_of-intersect_into :
    (i j : Implementation) (a b result : TidList)
    → i ≡ bitvector
    → j ≡ bitvector
    → kind_of (intersect_into_by i j a b result) ≡ bitvector
unfolding intersect_into_by kind_of make_bitvector
kind_of-intersect_into bitvector bitvector a b result hi hj =
    elim (Option-cases
      (BitVector.intersect_into a.bits b.bits (BitVector.resize a.bits.num_bits))) [
        | inl missing ↦ rw missing
        | inr (bits, found) ↦ rw found
      ]
kind_of-intersect_into bitvector tidvector a b result hi hj = absurd cc
kind_of-intersect_into tidvector j a b result hi hj = absurd cc

kind_of-intersect :
    (i j : Implementation) (a b : TidList)
    → i ≡ bitvector
    → j ≡ bitvector
    → kind_of (intersect_by i j a b) ≡ bitvector
unfolding intersect_by kind_of
kind_of-intersect bitvector bitvector a b hi hj =
    elim (Option-cases (BitVector.intersect a.bits b.bits)) [
      | inl missing ↦ rw missing
      | inr (bits, found) ↦ rw found
    ]
kind_of-intersect bitvector tidvector a b hi hj = absurd cc
kind_of-intersect tidvector j a b hi hj = absurd cc

Outcome→Holds :
    (i j : Implementation) (n : ℕ) (p : ℕ → Bool) (result : Option TidList)
    → i ≡ bitvector
    → j ≡ bitvector
    → 0 < n
    → Outcome i j n p result
    → Holds n p result
Outcome→Holds bitvector bitvector zero p result hi hj some_txn o = absurd (omega arith)
Outcome→Holds bitvector bitvector (suc n) p result hi hj some_txn o = o
Outcome→Holds bitvector tidvector n p result hi hj some_txn o = absurd cc
Outcome→Holds tidvector j n p result hi hj some_txn o = absurd cc

pub intersect_into-BitsHold :
    (n : ℕ) (a b result : TidList)
    → IsTidList n a
    → IsTidList n b
    → a.implementation ≡ bitvector
    → b.implementation ≡ bitvector
    → 0 < n
    → BitsHold n (λ t. holds a t && holds b t) (intersect_into a b result)
unfolding intersect_into kind_of
intersect_into-BitsHold n a b result va vb ia ib some_txn =
    let h =
      intersect_into-Holds n a b result va vb
        (some-HasWords a.implementation b.implementation n some_txn) in
    record {
      held = h;
      uses_bits =
          sym (ap kind_of h.returns)
          ∙ kind_of-intersect_into a.implementation b.implementation a b result ia ib;
    }

pub intersect-BitsHold :
    (n : ℕ) (a b : TidList)
    → IsTidList n a
    → IsTidList n b
    → a.implementation ≡ bitvector
    → b.implementation ≡ bitvector
    → 0 < n
    → BitsHold n (λ t. holds a t && holds b t) (intersect a b)
unfolding intersect kind_of
intersect-BitsHold n a b va vb ia ib some_txn =
    let h =
      Outcome→Holds a.implementation b.implementation n _ _ ia ib some_txn
        (intersect-Outcome n a b va vb) in
    record {
      held = h;
      uses_bits =
          sym (ap kind_of h.returns)
          ∙ kind_of-intersect a.implementation b.implementation a b ia ib;
    }

kind_or : Implementation → Option TidList → Implementation
kind_or other none = other
kind_or other (some tl) = tl.implementation

intersect_into-by-identifiers :
    (i j : Implementation) (a b result : TidList)
    → i ≡ tidvector
    → kind_or tidvector (intersect_into_by i j a b result) ≡ tidvector
unfolding intersect_into_by kind_or make_tidvector
intersect_into-by-identifiers bitvector j a b result h = absurd cc
intersect_into-by-identifiers tidvector tidvector a b result h = refl
intersect_into-by-identifiers tidvector bitvector a b result h =
    elim (Option-cases (TidVector.intersect_bits a.tids b.bits)) [
      | inl missing ↦ rw missing
      | inr (ids, found) ↦ rw found
    ]

-- Identifiers intersected with any list are identifiers again.
pub intersect_into-identifiers :
    (a b result : TidList) {out : TidList}
    → a.implementation ≡ tidvector
    → intersect_into a b result ≡ some out
    → out.implementation ≡ tidvector
unfolding intersect_into kind_or
intersect_into-identifiers a b result h e =
    sym (ap (kind_or tidvector) e)
    ∙ intersect_into-by-identifiers a.implementation b.implementation a b result h

intersect-by-identifiers :
    (i j : Implementation) (a b : TidList)
    → i ≡ tidvector
    → kind_or tidvector (intersect_by i j a b) ≡ tidvector
unfolding intersect_by kind_or
intersect-by-identifiers bitvector j a b h = absurd cc
intersect-by-identifiers tidvector tidvector a b h = refl
intersect-by-identifiers tidvector bitvector a b h = refl

pub intersect-identifiers :
    (a b : TidList) {out : TidList}
    → a.implementation ≡ tidvector
    → intersect a b ≡ some out
    → out.implementation ≡ tidvector
unfolding intersect kind_or
intersect-identifiers a b h e =
    sym (ap (kind_or tidvector) e)
    ∙ intersect-by-identifiers a.implementation b.implementation a b h
