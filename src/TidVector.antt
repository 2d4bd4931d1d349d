-- ===== src/TidVector.antt =====
-- src/bitdrill/Tid_Vector.hxx: the identifiers of the transactions of an item, in increasing
-- order. `none` is a read of a bit vector outside its words.
pub mod Laws
pub mod Hits
pub mod Runs
use Prim.Native.Nat.{compare, Ordering}
use bitdrill.Base.{ℕ, suc, ◌+◌, Option, some, List, [], ◌∷◌, ◌++◌}
use bitdrill.Base.{length, if◌then◌else◌, ◌>>=◌}
use bitdrill.BitVector.{BitVector, get}

-- The standard library's algorithm, which appends to the result what both ranges hold.
pub set_intersection : List ℕ → List ℕ → List ℕ
set_intersection (x ∷ l) (y ∷ r) = elim (compare x y) [
  | Ordering.lt ↦ set_intersection l (y ∷ r)
  | Ordering.gt ↦ set_intersection (x ∷ l) r
  | Ordering.eq ↦ x ∷ set_intersection l r
]
set_intersection _ _ = []

-- `a.intersect(b, result)`: the new value of `result`, which is emptied first.
unfoldable pub intersect_into : List ℕ → List ℕ → List ℕ
unfolding set_intersection
intersect_into a b = set_intersection a b

-- `a.intersect(b)`: the new value of `a`, by way of a temporary.
unfoldable pub intersect : List ℕ → List ℕ → List ℕ
unfolding intersect_into
intersect a b = let tmp = intersect_into a b in tmp

intersect_bits_loop : BitVector → List ℕ → List ℕ → Option (List ℕ)
intersect_bits_loop bv [] result = some result
intersect_bits_loop bv (txn_id ∷ rest) result = do
  hit ← get bv txn_id
  intersect_bits_loop bv rest (if hit then result ++ txn_id ∷ [] else result)

-- `a.intersect(bv, result)` with a bit vector: the new value of `result`.
unfoldable pub intersect_bits : List ℕ → BitVector → Option (List ℕ)
unfolding intersect_bits_loop
intersect_bits a bv = intersect_bits_loop bv a []

unfoldable pub count : List ℕ → ℕ
count a = length a

-- `a.intersect_and_count(b)`: the count, and the new value of `a`.
unfoldable pub intersect_and_count : List ℕ → List ℕ → ℕ × List ℕ
unfolding intersect count
intersect_and_count a b = let a' = intersect a b in (count a', a')

pub count_loop : List ℕ → List ℕ → ℕ → ℕ
count_loop (x ∷ l) (y ∷ r) count = elim (compare x y) [
  | Ordering.eq ↦ count_loop l r (count + 1)
  | Ordering.lt ↦ count_loop l (y ∷ r) count
  | Ordering.gt ↦ count_loop (x ∷ l) r count
]
count_loop _ _ count = count

-- The support is a parameter that the function does not read.
unfoldable pub count_intersection : List ℕ → List ℕ → ℕ → ℕ
unfolding count_loop
count_intersection a b support = count_loop a b 0

count_bits_loop : BitVector → List ℕ → ℕ → Option ℕ
count_bits_loop bv [] count = some count
count_bits_loop bv (txn_id ∷ rest) count = do
  hit ← get bv txn_id
  count_bits_loop bv rest (if hit then count + 1 else count)

unfoldable pub count_intersection_bits : List ℕ → BitVector → Option ℕ
unfolding count_bits_loop
count_intersection_bits a bv = count_bits_loop bv a 0
