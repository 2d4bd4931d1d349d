-- ===== src/PatternSet.antt =====
-- src/bitdrill/Pattern.cxx and Pattern.hxx: a set of patterns, itemsets with their counts, and its
-- decomposition by size. Reading and writing patterns, the projection to a part, and `compute`,
-- are not here; nor are the fields that only these fill. `none` is an access outside a vector.
pub mod Laws
pub mod Runs
use bitdrill.Base.{ℕ, zero, suc, ◌+◌, max, min, Option, some, none, List, [], ◌∷◌, ◌++◌}
use bitdrill.Base.{length, get_elem?, set, ◌>>=◌}

pub record Pattern : Type 0 where
  pub itemset : List ℕ
  pub count : ℕ

pub record PatternSet : Type 0 where
  pub patterns : List Pattern
  pub max_length : ℕ
  pub bysize : List (List Pattern)

-- The loop that raises `max_length` to the longest pattern.
pub find_max : ℕ → List Pattern → ℕ
find_max so_far [] = so_far
find_max so_far (p ∷ ps) = find_max (max so_far (length p.itemset)) ps

-- `vector::resize`: new places hold the empty list, and places past the size are dropped.
pub resize_rows : ℕ → List (List Pattern) → List (List Pattern)
resize_rows zero rows = []
resize_rows (suc n) [] = [] ∷ resize_rows n []
resize_rows (suc n) (row ∷ rows) = row ∷ resize_rows n rows

-- The loop that pushes each pattern to the list of its size.
pub push_rows : List Pattern → List (List Pattern) → Option (List (List Pattern))
push_rows [] rows = some rows
push_rows (p ∷ ps) rows = do
  row ← get_elem? rows (length p.itemset)
  push_rows ps (set rows (length p.itemset) (row ++ p ∷ []))

unfoldable pub decompose_by_size : PatternSet → Option PatternSet
unfolding find_max resize_rows push_rows
decompose_by_size s =
    let longest = find_max s.max_length s.patterns in
    do
      rows ← push_rows s.patterns (resize_rows (longest + 1) s.bysize)
      some (record s { max_length = longest; bysize = rows })

pub find_min : ℕ → List Pattern → ℕ
find_min so_far [] = so_far
find_min so_far (p ∷ ps) = find_min (min so_far (length p.itemset)) ps

-- `none` for the empty set, of which the source takes the first pattern.
unfoldable pub min_length : PatternSet → Option ℕ
unfolding find_min
min_length s = elim s.patterns [ [] ↦ none | p ∷ ps ↦ some (find_min (length p.itemset) (p ∷ ps)) ]
