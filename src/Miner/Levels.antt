-- ===== src/Miner/Levels.antt =====
-- `discover (vertical_db, ...)` of src/bitdrill/Miner.cxx: the level-wise search from given
-- patterns of one size.
use bitdrill.Base.{
  ℕ, zero, suc, ◌+◌, true, false, not, ◌&&◌, Option, some, none, List, [], ◌∷◌, ◌++◌,
}
use bitdrill.Base.{length, replicate, get_elem?, if◌then◌else◌, ltb, leb, ◌==◌, ◌>>=◌}
use bitdrill.Trie.{Trie, def_node, empty, insert, check_supports}
use bitdrill.TidList
use bitdrill.TidList.{TidList}
use bitdrill.VerticalDb.{VerticalDb, greater_freq, item}
use bitdrill.PatternSet.{Pattern, PatternSet}
use bitdrill.Walk.{ref, new_candidate_walk, for_candidates}
use bitdrill.TidlistWalk.{TidlistWalk, new_tidlist_walk, tidlist_of, for_walk}
use bitdrill.Miner.{Mined, merge_into, insert_patterns, walk_rounds}

-- What is done with a candidate whose supports are there.
unfoldable pub count_candidate : VerticalDb → ℕ → TidList → ℕ → List ℕ → Mined → Option Mined
unfolding item insert
count_candidate db support intersection diff candidate m = do
  tl ← item db diff
  frequency ← TidList.count_intersection intersection tl support
  some (
      if leb support frequency
      then record {
        freq_next = insert candidate m.freq_next;
        candidate_itemset = candidate;
        out = m.out ++ record { itemset = candidate; count = frequency } ∷ [];
      }
      else record m { candidate_itemset = candidate })

-- The body of the loop over the candidates.
unfoldable pub consider : VerticalDb → ℕ → Trie → TidList → List ℕ → ℕ → Mined → Option Mined
unfolding count_candidate merge_into check_supports
consider db support freq intersection itemset diff m = do
  candidate ← merge_into (greater_freq db.count) itemset diff m.candidate_itemset
  supported ← check_supports candidate freq
  if supported
      then count_candidate db support intersection diff candidate m
      else some (record m { candidate_itemset = candidate })

-- The body of the loop over the itemsets of a level.
unfoldable pub extend_itemset : VerticalDb → ℕ → Trie → TidlistWalk → Mined → Option Mined
unfolding consider tidlist_of new_candidate_walk for_candidates
extend_itemset db support freq walk m = do
  intersection ← tidlist_of walk
  cand_walk ← new_candidate_walk walk.walk
  for_candidates (consider db support freq intersection (ref walk.walk)) cand_walk m

-- The level of the itemsets of size k.
unfoldable pub mine_level : VerticalDb → ℕ → ℕ → Trie → List Pattern → Option Mined
unfolding extend_itemset new_tidlist_walk for_walk
mine_level db support k freq out = do
  walk ← new_tidlist_walk freq db k
  for_walk (walk_rounds freq) db (extend_itemset db support freq) (walk_rounds freq) walk
      (record { freq_next = def_node; candidate_itemset = replicate k 0; out = out })

-- The loop over the levels.
unfoldable pub mine_levels :
    ℕ → VerticalDb → ℕ → ℕ → ℕ → Trie → List Pattern → Option (List Pattern)
unfolding mine_level empty
mine_levels zero db support max_level k freq out = none
mine_levels (suc fuel) db support max_level k freq out = elim (empty freq) [
  | true ↦ some out
  | false ↦ elim (not (max_level == 0) && ltb max_level k) [
    | true ↦ some out
    | false ↦ do
      m ← mine_level db support k freq out
      mine_levels fuel db support max_level (k + 1) m.freq_next m.out
  ]
]

-- One level for each item, since an itemset has no item twice, and one for the end.
unfoldable pub discover : VerticalDb → ℕ → PatternSet → List Pattern → ℕ → Option (List Pattern)
unfolding mine_levels insert_patterns
discover db support freq_patterns out max_level = do
  row ← get_elem? freq_patterns.bysize freq_patterns.max_length
  freq ← insert_patterns db row def_node
  mine_levels (2 + length db.frequent) db support max_level (freq_patterns.max_length + 1) freq out
