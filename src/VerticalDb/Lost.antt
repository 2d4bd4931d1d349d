-- ===== src/VerticalDb/Lost.antt =====
-- `frequency` of src/bitdrill/Vertical_DB.cxx for three items, the first kept as identifiers: the
-- second intersection is the one of Tid_List that overwrites its left list.
use bitdrill.TidList.BitsOnly.{intersect-identifiers}
use bitdrill.TidList.Laws.{HasWords}
use bitdrill.Base.{
  ℕ, arith, zero, suc, ◌≡◌, refl, ap, ◌∙◌, sym, Bool, true, false, Option, some, none, List, [],
  ◌∷◌, ◌>>=◌,
}
use bitdrill.Base.Count.{count_below, count_below_ext}
use bitdrill.TidVector.Laws.{has}
use bitdrill.TidList
use bitdrill.TidList.{TidList, Implementation, bitvector, tidvector}
use bitdrill.TidList.Laws.{count-count_below}
use bitdrill.TidList.Intersection.{intersect_into-Holds}
use bitdrill.TidList.Faults.{Outcome, intersect-Outcome}
use bitdrill.TidList.BitsOnly.{intersect_into-identifiers}
use bitdrill.TidList.Building.{reset-Holds}
use bitdrill.VerticalDb.{VerticalDb, item, intersect_rest, tidlist, frequency}
use bitdrill.VerticalDb.Building.{IsVertical}

-- What the frequency of three items comes to, by the representation of the third list.
abbrev pub Lost : Implementation → Option ℕ → Type 0
Lost bitvector result = result ≡ some 0
Lost tidvector result = result ≡ none

none_of : (n : ℕ) → count_below n (λ t. false) ≡ 0
none_of zero = refl
none_of (suc n) = omega (arith, none_of n)

ids-HasWords : (i : Implementation) (n : ℕ) → i ≡ tidvector → HasWords i i n
ids-HasWords bitvector n h = absurd cc
ids-HasWords tidvector n h = tt

other-HasWords : (i j : Implementation) (n : ℕ) → i ≡ tidvector → HasWords i j n
other-HasWords bitvector j n h = absurd cc
other-HasWords tidvector bitvector n h = tt
other-HasWords tidvector tidvector n h = tt

-- The last step, from the intersection of the first two lists on.
Outcome→Lost :
    (i j : Implementation) (n : ℕ) (p : ℕ → Bool) (result : Option TidList)
    → i ≡ tidvector
    → ((out : TidList) → result ≡ some out → out.implementation ≡ tidvector)
    → Outcome i j n p result
    → Lost j (result >>= λ tl. TidList.count tl)
Outcome→Lost bitvector j n p result h kind o = absurd cc
Outcome→Lost tidvector bitvector n p result h kind o =
    let total =
      count-count_below n o.out o.valid
        (ids-HasWords o.out.implementation n (kind o.out o.returns)) in
    rw (o.returns, total) (ap some (count_below_ext n _ _ o.tells ∙ none_of n))
Outcome→Lost tidvector tidvector n p result h kind o = rw o

some-injective : {a b : TidList} → some a ≡ some b → a ≡ b
some-injective e = cc

return_last : (o : Option TidList) → (o >>= λ tl. some tl) ≡ o
return_last none = refl
return_last (some tl) = refl

-- In a database over n transactions, the frequency of three of its items of which the first is
-- kept as identifiers is never computed: it comes out as 0 where the third is kept as a bit
-- vector, whatever the transactions are, and the program exits where it is kept as identifiers.
pub frequency-Lost :
    (n : ℕ) (f : List ℕ) (view : ℕ → ℕ → Bool) (db : VerticalDb) (i j k : ℕ) (first third : TidList)
    → IsVertical n f view db
    → has f i ≡ true
    → has f j ≡ true
    → has f k ≡ true
    → item db i ≡ some first
    → item db k ≡ some third
    → first.implementation ≡ tidvector
    → Lost third.implementation (frequency db (i ∷ j ∷ k ∷ []))
unfolding frequency tidlist intersect_rest
frequency-Lost n f view db i j k first third v hi hj hk ri rk kind =
    let one = v.lists i hi in
    let two = v.lists j hj in
    let three = v.lists k hk in
    let same : some one.out ≡ some first = sym one.reads ∙ ri in
    let same_third : some three.out ≡ some third = sym three.reads ∙ rk in
    let ids : one.out.implementation ≡ tidvector =
      ap (λ tl. tl.implementation) (some-injective same) ∙ kind in
    let counted = v.counted i hi in
    let fresh =
      (reset-Holds n counted.expected (TidList.new_tid_list bitvector) counted.positive).0 in
    let both =
      intersect_into-Holds n one.out two.out fresh.out one.tells.0 two.tells.0
        (other-HasWords one.out.implementation two.out.implementation n ids) in
    let kept : both.out.implementation ≡ tidvector =
      intersect_into-identifiers one.out two.out fresh.out ids both.returns in
    let step =
      Outcome→Lost both.out.implementation three.out.implementation n _ _ kept
        (λ out e. intersect-identifiers both.out three.out kept e)
        (intersect-Outcome n both.out three.out both.valid three.tells.0) in
    rw
      (
        sym (ap (λ tl. tl.implementation) (some-injective same_third)),
        counted.reads,
        v.size,
        fresh.returns,
        one.reads,
        two.reads,
        both.returns,
        three.reads,
        return_last (TidList.intersect both.out three.out),
      )
      step
