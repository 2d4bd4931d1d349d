-- ===== src/TidList/Laws.antt =====
-- src/bitdrill/Tid_List.hxx as a set of transactions, whatever the representation.
use bitdrill.Base.{ℕ, ◌<◌, ◌≡◌, ap, ◌∙◌, sym, arith}
use bitdrill.Base.{Bool, ◌&&◌, Option, some, List, [], ◌∷◌}
use bitdrill.Base.{length, All, count_true, zip_and}
use bitdrill.Base.Count.{
  count_below, count_below_ext, bit_of, count_true-bit_of, bit_of-zip_and, length-zip_and,
}
use bitdrill.BitVector
use bitdrill.BitVector.{BitVector}
use bitdrill.BitVector.Laws.{IsValid, to_bits, count-count_true, intersect_and_count_lem}
use bitdrill.BitVector.Access.{get-bit_of, length-to_bits}
use bitdrill.TidVector
use bitdrill.TidVector.Laws.{has, IsAscending, intersect-has, All-set_intersection}
use bitdrill.TidVector.Hits.{
  keep, has-keep, All-keep, IsAscending-keep, length-count_below, count_intersection_bits-keep,
}
use bitdrill.TidList.{
  Implementation, bitvector, tidvector, TidList, count_by, count, count_intersection_by,
  count_intersection,
}

-- Whether transaction t is in the list.
abbrev pub holds_by : Implementation → TidList → ℕ → Bool
holds_by bitvector tl t = bit_of (to_bits tl.bits) t
holds_by tidvector tl t = has tl.tids t

abbrev pub holds : TidList → ℕ → Bool
holds tl = holds_by tl.implementation tl

abbrev pub InRange : ℕ → List ℕ → Type 0
InRange n = All (λ t. t < n)

-- What the part in use keeps, for n transactions, while the other part is empty.
abbrev pub Content : Implementation → ℕ → TidList → Type 0
Content bitvector n tl = IsValid tl.bits × (tl.bits.num_bits ≡ n) × (tl.tids ≡ [])
Content tidvector n tl = IsAscending tl.tids × InRange n tl.tids × (tl.bits.num_bits ≡ 0)

abbrev pub IsTidList : ℕ → TidList → Type 0
IsTidList n tl = Content tl.implementation n tl

-- An operation came back with a list over n transactions of those that pass `p`.
pub record Holds (n : ℕ) (p : ℕ → Bool) (result : Option TidList) : Type 0 where
  pub out : TidList
  pub returns : result ≡ some out
  pub valid : IsTidList n out
  pub tells : (t : ℕ) → t < n → holds out t ≡ p t

-- Two bit vectors have a word to work on.
abbrev pub HasWords : Implementation → Implementation → ℕ → Type 0
HasWords bitvector bitvector n = 0 < n
HasWords bitvector tidvector n = Unit
HasWords tidvector bitvector n = Unit
HasWords tidvector tidvector n = Unit

pub some-HasWords : (i j : Implementation) (n : ℕ) → 0 < n → HasWords i j n
some-HasWords bitvector bitvector n h = h
some-HasWords bitvector tidvector n h = tt
some-HasWords tidvector bitvector n h = tt
some-HasWords tidvector tidvector n h = tt

pub reads-All :
    (bv : BitVector) (n : ℕ) (ts : List ℕ)
    → IsValid bv
    → bv.num_bits ≡ n
    → InRange n ts
    → All (λ t. BitVector.get bv t ≡ some (bit_of (to_bits bv) t)) ts
reads-All bv n [] v e r = tt
reads-All bv n (t ∷ ts) v e r = (get-bit_of bv t v (omega arith), reads-All bv n ts v e r.1)

pub count_bits :
    (bits : List Bool) (n : ℕ) → length bits ≡ n → count_true bits ≡ count_below n (bit_of bits)
count_bits bits n e = count_true-bit_of bits ∙ ap (λ k. count_below k (bit_of bits)) e

count-by-count_below :
    (i : Implementation) (n : ℕ) (a : TidList)
    → Content i n a
    → HasWords i i n
    → count_by i a ≡ some (count_below n (holds_by i a))
unfolding count_by
count-by-count_below bitvector n a c some_word =
    count-count_true a.bits c.0 (omega (arith, some_word, c.1))
    ∙ ap some (count_bits (to_bits a.bits) n (length-to_bits a.bits c.0 ∙ c.1))
count-by-count_below tidvector n a c some_word =
    unfold TidVector.count in ap some (length-count_below n a.tids c.0 c.1)

-- `count` of a valid list, over at least one transaction if it is a bit vector, comes back with the
-- number of its transactions.
pub count-count_below :
    (n : ℕ) (a : TidList)
    → IsTidList n a
    → HasWords a.implementation a.implementation n
    → count a ≡ some (count_below n (holds a))
unfolding count
count-count_below n a c some_word = count-by-count_below a.implementation n a c some_word

count_hits :
    (n : ℕ) (ts : List ℕ) (p : ℕ → Bool)
    → IsAscending ts
    → InRange n ts
    → length (keep p ts) ≡ count_below n (λ t. has ts t && p t)
count_hits n ts p a r =
    length-count_below n (keep p ts) (IsAscending-keep p ts a) (All-keep (λ t. t < n) p ts r)
    ∙ count_below_ext n _ _ (λ t _. has-keep p ts t)

pub range-intersect : (n : ℕ) (l r : List ℕ) → InRange n l → InRange n (TidVector.intersect l r)
unfolding TidVector.intersect
range-intersect n l r h = All-set_intersection (λ t. t < n) l r h

pub &&_comm : (x y : Bool) → (x && y) ≡ (y && x)
&&_comm x y = ground arith

count_intersection-by-count_below :
    (i j : Implementation) (n : ℕ) (a b : TidList) (support : ℕ)
    → Content i n a
    → Content j n b
    → HasWords i j n
    → count_intersection_by i j a b support
      ≡ some (count_below n (λ t. holds_by i a t && holds_by j b t))
unfolding count_intersection_by
count_intersection-by-count_below bitvector bitvector n a b support ca cb some_word =
    let same : a.bits.num_bits ≡ b.bits.num_bits = ca.1 ∙ sym cb.1 in
    let la = length-to_bits a.bits ca.0 in
    let lb = length-to_bits b.bits cb.0 in
    let size = length-zip_and (to_bits a.bits) (to_bits b.bits) (la ∙ same ∙ sym lb) in
    (intersect_and_count_lem a.bits b.bits ca.0 cb.0 same (omega (arith, some_word, ca.1))).1
    ∙ ap some (
        count_bits (zip_and (to_bits a.bits) (to_bits b.bits)) n (size ∙ la ∙ ca.1)
        ∙ count_below_ext n _ _ (λ t _. bit_of-zip_and (to_bits a.bits) (to_bits b.bits) t))
count_intersection-by-count_below bitvector tidvector n a b support ca cb some_word =
    count_intersection_bits-keep a.bits (bit_of (to_bits a.bits)) b.tids
      (reads-All a.bits n b.tids ca.0 ca.1 cb.1)
    ∙ ap some (
        count_hits n b.tids (bit_of (to_bits a.bits)) cb.0 cb.1
        ∙ count_below_ext n _ _ (λ t _. &&_comm (has b.tids t) (bit_of (to_bits a.bits) t)))
count_intersection-by-count_below tidvector bitvector n a b support ca cb some_word =
    count_intersection_bits-keep b.bits (bit_of (to_bits b.bits)) a.tids
      (reads-All b.bits n a.tids cb.0 cb.1 ca.1)
    ∙ ap some (count_hits n a.tids (bit_of (to_bits b.bits)) ca.0 ca.1)
count_intersection-by-count_below tidvector tidvector n a b support ca cb some_word =
    let common = intersect-has a.tids b.tids ca.0 cb.0 in
    ap some (
      common.4 support
      ∙ length-count_below n _ common.1 (range-intersect n a.tids b.tids ca.1)
      ∙ count_below_ext n _ _ (λ t _. common.0 t))

-- `count_intersection` of two valid lists, in whichever representations they are, and over at least
-- one transaction if both are bit vectors, comes back with the number of transactions that both hold.
pub count_intersection-count_below :
    (n : ℕ) (a b : TidList) (support : ℕ)
    → IsTidList n a
    → IsTidList n b
    → HasWords a.implementation b.implementation n
    → count_intersection a b support ≡ some (count_below n (λ t. holds a t && holds b t))
unfolding count_intersection
count_intersection-count_below n a b support ca cb some_word =
    count_intersection-by-count_below a.implementation b.implementation n a b support ca cb
      some_word
