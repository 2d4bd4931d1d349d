-- ===== src/TidList.antt =====
-- src/bitdrill/Tid_List.hxx and Tid_List.cxx: the transactions of an item, kept as a bit vector
-- or as a vector of identifiers. `none` is a call of `error`, which exits, a failed `assert`, or
-- what `none` means in BitVector.
pub mod Laws
pub mod Intersection
pub mod Building
pub mod Faults
pub mod BitsOnly
pub mod Runs
use bitdrill.Base.{ℕ, ◌+◌, ◌/◌, Option, some, none, List, [], ◌∷◌, ◌++◌}
use bitdrill.Base.{if◌then◌else◌, ltb, ◌==◌, ◌>>=◌}
use bitdrill.BitVector
use bitdrill.BitVector.{BitVector}
use bitdrill.TidVector

pub data Implementation : Type 0 where
  bitvector tidvector : Implementation

pub record TidList : Type 0 where
  pub implementation : Implementation
  pub bits : BitVector
  pub tids : List ℕ

-- The constructor: both parts are empty.
unfoldable pub new_tid_list : Implementation → TidList
new_tid_list impl = record { implementation = impl; bits = BitVector.resize 0; tids = [] }

-- A bit vector, unless fewer than one transaction in 32 is expected to have the item.
unfoldable pub choose_implementation : ℕ → ℕ → Implementation
choose_implementation num_txn expected_count =
    if ltb (num_txn / expected_count) 32 then bitvector else tidvector

unfoldable pub make_bitvector : ℕ → TidList → TidList
make_bitvector num_txn tl = record tl {
  implementation = bitvector;
  bits = BitVector.resize num_txn;
  tids = [];
}

unfoldable pub make_tidvector : TidList → TidList
make_tidvector tl = record tl { implementation = tidvector; bits = BitVector.resize 0; tids = [] }

pub reset_to : Implementation → ℕ → TidList → TidList
reset_to bitvector num_txn tl = record tl {
  implementation = bitvector;
  bits = BitVector.resize num_txn;
  tids = [];
}
reset_to tidvector num_txn tl = record tl {
  implementation = tidvector;
  bits = BitVector.resize 0;
  tids = [];
}

unfoldable pub reset : ℕ → ℕ → TidList → Option TidList
unfolding reset_to choose_implementation
reset num_txn expected_count tl =
    if ltb 0 expected_count
    then some (reset_to (choose_implementation num_txn expected_count) num_txn tl)
    else none

-- The functions named `_by` take the implementation that the list has.
pub add_to : Implementation → ℕ → TidList → Option TidList
add_to bitvector txn_id tl = do
  changed ← BitVector.set_bit tl.bits txn_id
  some (record { implementation = bitvector; bits = changed; tids = tl.tids })
add_to tidvector txn_id tl =
    some (record { implementation = tidvector; bits = tl.bits; tids = tl.tids ++ txn_id ∷ [] })

unfoldable pub add_transaction : ℕ → TidList → Option TidList
unfolding add_to
add_transaction txn_id tl = add_to tl.implementation txn_id tl

pub intersect_by : Implementation → Implementation → TidList → TidList → Option TidList
intersect_by bitvector bitvector a b = do
  changed ← BitVector.intersect a.bits b.bits
  some (record { implementation = bitvector; bits = changed; tids = a.tids })
intersect_by bitvector tidvector a b = none
intersect_by tidvector bitvector a b =
    let common = TidVector.intersect a.tids b.tids in
    some (record { implementation = tidvector; bits = a.bits; tids = common })
intersect_by tidvector tidvector a b = none

-- `a.intersect(b)`: the new value of `a`.
unfoldable pub intersect : TidList → TidList → Option TidList
unfolding intersect_by
intersect a b = intersect_by a.implementation b.implementation a b

pub intersect_into_by :
    Implementation → Implementation → TidList → TidList → TidList → Option TidList
intersect_into_by bitvector bitvector a b result =
    let out = make_bitvector a.bits.num_bits result in
    do
      changed ← BitVector.intersect_into a.bits b.bits out.bits
      some (record out { bits = changed })
intersect_into_by bitvector tidvector a b result =
    let out = make_tidvector result in
    do changed ← TidVector.intersect_bits b.tids a.bits; some (record out { tids = changed })
intersect_into_by tidvector tidvector a b result =
    let out = make_tidvector result in
    some (record out { tids = TidVector.intersect_into a.tids b.tids })
intersect_into_by tidvector bitvector a b result =
    let out = make_tidvector result in
    do changed ← TidVector.intersect_bits a.tids b.bits; some (record out { tids = changed })

-- `a.intersect(b, result)`: the new value of `result`, another list than `a` and `b`.
unfoldable pub intersect_into : TidList → TidList → TidList → Option TidList
unfolding intersect_into_by make_bitvector make_tidvector
intersect_into a b result = intersect_into_by a.implementation b.implementation a b result

pub count_by : Implementation → TidList → Option ℕ
count_by bitvector tl = BitVector.count tl.bits
count_by tidvector tl = some (TidVector.count tl.tids)

unfoldable pub count : TidList → Option ℕ
unfolding count_by
count tl = count_by tl.implementation tl

pub intersect_and_count_by :
    Implementation → Implementation → TidList → TidList → Option (ℕ × TidList)
intersect_and_count_by bitvector bitvector a b = do
  result ← BitVector.intersect_and_count a.bits b.bits
  some (result.0, record { implementation = bitvector; bits = result.1; tids = a.tids })
intersect_and_count_by bitvector tidvector a b = none
intersect_and_count_by tidvector tidvector a b =
    let result = TidVector.intersect_and_count a.tids b.tids in
    some (result.0, record { implementation = tidvector; bits = a.bits; tids = result.1 })
intersect_and_count_by tidvector bitvector a b = none

-- `a.intersect_and_count(b)`: the count, and the new value of `a`.
unfoldable pub intersect_and_count : TidList → TidList → Option (ℕ × TidList)
unfolding intersect_and_count_by
intersect_and_count a b = intersect_and_count_by a.implementation b.implementation a b

pub count_intersection_by : Implementation → Implementation → TidList → TidList → ℕ → Option ℕ
count_intersection_by bitvector bitvector a b support = BitVector.count_intersection a.bits b.bits
count_intersection_by bitvector tidvector a b support =
    TidVector.count_intersection_bits b.tids a.bits
count_intersection_by tidvector tidvector a b support =
    some (TidVector.count_intersection a.tids b.tids support)
count_intersection_by tidvector bitvector a b support =
    TidVector.count_intersection_bits a.tids b.bits

unfoldable pub count_intersection : TidList → TidList → ℕ → Option ℕ
unfolding count_intersection_by
count_intersection a b support = count_intersection_by a.implementation b.implementation a b support
