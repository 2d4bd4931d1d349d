-- ===== src/Miner/Given.antt =====
-- `discover_cand (vertical_db, ...)` of src/bitdrill/Miner.cxx: the given candidates are counted,
-- size by size. The trie `freq` of the frequent ones is never read, and left out.
use bitdrill.Base.{ℕ, zero, suc, ◌+◌, ◌-◌, min, Option, some, List, [], ◌∷◌, ◌++◌}
use bitdrill.Base.{get_elem?, if◌then◌else◌, leb, ◌==◌, ◌>>=◌}
use bitdrill.Trie.{def_node}
use bitdrill.TidList
use bitdrill.VerticalDb.{VerticalDb}
use bitdrill.PatternSet.{Pattern, PatternSet, min_length}
use bitdrill.Walk.{ref}
use bitdrill.TidlistWalk.{TidlistWalk, new_tidlist_walk, tidlist_of, for_walk}
use bitdrill.Miner.{insert_patterns, walk_rounds}

-- The body of the loop over the candidates of a size.
unfoldable pub count_itemset : ℕ → TidlistWalk → List Pattern → Option (List Pattern)
unfolding tidlist_of TidList.count
count_itemset support walk out = do
  intersection ← tidlist_of walk
  frequency ← TidList.count intersection
  some (
      if leb support frequency
      then out ++ record { itemset = ref walk.walk; count = frequency } ∷ []
      else out)

-- The candidates of size k.
unfoldable pub count_size : VerticalDb → ℕ → PatternSet → ℕ → List Pattern → Option (List Pattern)
unfolding insert_patterns new_tidlist_walk for_walk count_itemset
count_size db support cand_patterns k out = do
  row ← get_elem? cand_patterns.bysize k
  cand ← insert_patterns db row def_node
  walk ← new_tidlist_walk cand db k
  for_walk (walk_rounds cand) db (count_itemset support) (walk_rounds cand) walk out

-- The loop over the sizes from k on, as many as are left.
unfoldable pub count_sizes :
    ℕ → VerticalDb → ℕ → PatternSet → ℕ → List Pattern → Option (List Pattern)
unfolding count_size
count_sizes zero db support cand_patterns k out = some out
count_sizes (suc left) db support cand_patterns k out = do
  out' ← count_size db support cand_patterns k out
  count_sizes left db support cand_patterns (k + 1) out'

unfoldable pub discover_cand :
    VerticalDb → ℕ → PatternSet → List Pattern → ℕ → Option (List Pattern)
unfolding count_sizes min_length
discover_cand db support cand_patterns out max_level = do
  k ← min_length cand_patterns
  let last =
      if max_level == 0 then cand_patterns.max_length else min max_level cand_patterns.max_length
  if last == 0 then some out else count_sizes (last + 1 - k) db support cand_patterns k out
