-- ===== src/TidList/Runs.antt =====
-- Runs of src/bitdrill/Tid_List.hxx over 8 transactions.
use bitdrill.Base.{◌≡◌, refl, false, ◌&&◌, ◌||◌, some, [], ◌∷◌, arith, ◌==◌}
use bitdrill.Base.Count.{count_below}
use bitdrill.BitVector
use bitdrill.TidVector
use bitdrill.TidList.{
  bitvector, tidvector, TidList, add_transaction, intersect, intersect_into, intersect_and_count,
  count_intersection,
}
use bitdrill.TidList.Laws.{IsTidList, Holds, holds, count_intersection-count_below}
use bitdrill.TidList.Intersection.{intersect_into-Holds}
use bitdrill.TidList.Building.{Before, add_transaction-Holds}
use bitdrill.TidList.Faults.{intersect-Outcome, HoldsCounted, intersect_and_count-Outcome}

abbrev dense : TidList
dense = record {
  implementation = bitvector;
  bits = record { num_bits = 8; start_offset = 0; end_offset = 8; vec = 0b10110 ∷ [] };
  tids = [];
}

abbrev sparse : TidList
sparse = record {
  implementation = tidvector;
  bits = record { num_bits = 0; start_offset = 0; end_offset = 0; vec = [] };
  tids = 2 ∷ 3 ∷ 4 ∷ [];
}

dense-IsTidList : IsTidList 8 dense
dense-IsTidList =
    (record { starts = refl; ends = refl; size = refl; words = omega arith }, refl, refl)

sparse-IsTidList : IsTidList 8 sparse
sparse-IsTidList = (omega arith, omega arith, refl)

mixed_count : count_intersection dense sparse 1 ≡ some 2
unfolding count_intersection BitVector.get TidVector.count_intersection_bits
mixed_count = refl

count_intersection-count_below_example :
    count_intersection dense dense 1 ≡ some (count_below 8 (λ t. holds dense t && holds dense t))
count_intersection-count_below_example =
    count_intersection-count_below 8 dense dense 1 dense-IsTidList dense-IsTidList (omega arith)

intersect_into-Holds_example :
    Holds 8 (λ t. holds dense t && holds dense t) (intersect_into dense dense sparse)
intersect_into-Holds_example =
    intersect_into-Holds 8 dense dense sparse dense-IsTidList dense-IsTidList (omega arith)

sparse-Before : Before 6 sparse
sparse-Before t h = ground arith

add_transaction-Holds_example : Holds 8 (λ t. 6 == t || holds sparse t) (add_transaction 6 sparse)
add_transaction-Holds_example =
    add_transaction-Holds 8 sparse 6 sparse-IsTidList (omega arith) sparse-Before

intersect-Outcome_example : Holds 8 (λ t. false) (intersect sparse dense)
intersect-Outcome_example = intersect-Outcome 8 sparse dense sparse-IsTidList dense-IsTidList

intersect_and_count-Outcome_example :
    HoldsCounted 8 (λ t. holds sparse t && holds sparse t) (intersect_and_count sparse sparse)
intersect_and_count-Outcome_example =
    intersect_and_count-Outcome 8 sparse sparse sparse-IsTidList sparse-IsTidList
