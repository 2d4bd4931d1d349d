-- ===== src/Miner/Serial.antt =====
-- `discover_cand_serial` of src/bitdrill/Miner.cxx: the smallest candidates are counted, and from
-- then on the level-wise search keeps to the given candidates.
use bitdrill.Base.{
  ℕ, zero, suc, ◌+◌, true, false, not, ◌&&◌, Option, some, none, List, [], ◌∷◌, ◌++◌,
}
use bitdrill.Base.{length, replicate, get_elem?, if◌then◌else◌, ltb, leb, ◌==◌, ◌>>=◌}
use bitdrill.Trie.{Trie, def_node, empty, insert, query, check_supports}
use bitdrill.TidList
use bitdrill.TidList.{TidList}
use bitdrill.VerticalDb.{VerticalDb, greater_freq, item}
use bitdrill.PatternSet.{Pattern, PatternSet, min_length}
use bitdrill.Walk.{ref, new_candidate_walk, for_candidates}
use bitdrill.TidlistWalk.{TidlistWalk, new_tidlist_walk, tidlist_of, for_walk}
use bitdrill.Miner.{Mined, merge_into, insert_patterns, walk_rounds}

-- The body of the loop over the candidates of the first size.
pub keep_frequent : ℕ → TidlistWalk → Mined → Option Mined
unfolding tidlist_of TidList.count insert
keep_frequent support walk m = do
  intersection ← tidlist_of walk
  frequency ← TidList.count intersection
  some (
      if leb support frequency
      then record m {
        freq_next = insert (ref walk.walk) m.freq_next;
        out = m.out ++ record { itemset = ref walk.walk; count = frequency } ∷ [];
      }
      else m)

-- The trie of the given candidates of size k.
pub candidates_of_size : VerticalDb → PatternSet → ℕ → Option Trie
unfolding insert_patterns
candidates_of_size db cand_patterns k = do
  row ← get_elem? cand_patterns.bysize k
  insert_patterns db row def_node

-- The first level: its trie, which the source names `freq`, is `freq_next` here.
pub first_level : VerticalDb → ℕ → PatternSet → ℕ → List Pattern → Option Mined
unfolding candidates_of_size new_tidlist_walk for_walk keep_frequent
first_level db support cand_patterns k out = do
  cand ← candidates_of_size db cand_patterns k
  walk ← new_tidlist_walk cand db k
  for_walk (walk_rounds cand) db (keep_frequent support) (walk_rounds cand) walk
      (record { freq_next = def_node; candidate_itemset = replicate k 0; out = out })

-- What is done with a candidate that is given and whose supports are there.
pub count_given : VerticalDb → ℕ → TidList → ℕ → List ℕ → Mined → Option Mined
unfolding item insert TidList.count_intersection
count_given db support intersection diff candidate m = do
  tl ← item db diff
  frequency ← TidList.count_intersection intersection tl support
  some (
      if leb support frequency
      then record {
        freq_next = insert candidate m.freq_next;
        candidate_itemset = candidate;
        out = m.out ++ record { itemset = candidate; count = frequency } ∷ [];
      }
      else record m { candidate_itemset = candidate })

-- The body of the loop over the candidates of a later level.
pub consider_given : VerticalDb → ℕ → Trie → Trie → TidList → List ℕ → ℕ → Mined → Option Mined
unfolding merge_into query check_supports count_given
consider_given db support cand freq intersection itemset diff m = do
  candidate ← merge_into (greater_freq db.count) itemset diff m.candidate_itemset
  supported ← if query candidate cand then check_supports candidate freq else some false
  if supported
      then count_given db support intersection diff candidate m
      else some (record m { candidate_itemset = candidate })

pub extend_given : VerticalDb → ℕ → Trie → Trie → TidlistWalk → Mined → Option Mined
unfolding consider_given tidlist_of new_candidate_walk for_candidates
extend_given db support cand freq walk m = do
  intersection ← tidlist_of walk
  cand_walk ← new_candidate_walk walk.walk
  for_candidates (consider_given db support cand freq intersection (ref walk.walk)) cand_walk m

pub given_level : VerticalDb → ℕ → PatternSet → ℕ → Trie → List Pattern → Option Mined
unfolding candidates_of_size extend_given new_tidlist_walk for_walk
given_level db support cand_patterns k freq out = do
  cand ← candidates_of_size db cand_patterns k
  walk ← new_tidlist_walk freq db k
  for_walk (walk_rounds freq) db (extend_given db support cand freq) (walk_rounds freq) walk
      (record { freq_next = def_node; candidate_itemset = replicate k 0; out = out })

pub given_levels :
    ℕ → VerticalDb → ℕ → PatternSet → ℕ → ℕ → Trie → List Pattern → Option (List Pattern)
unfolding given_level empty
given_levels zero db support cand_patterns max_level k freq out = none
given_levels (suc fuel) db support cand_patterns max_level k freq out = elim (empty freq) [
  | true ↦ some out
  | false ↦ elim (not (max_level == 0) && ltb max_level k) [
    | true ↦ some out
    | false ↦ do
      m ← given_level db support cand_patterns k freq out
      given_levels fuel db support cand_patterns max_level (k + 1) m.freq_next m.out
  ]
]

unfoldable pub discover_cand_serial :
    VerticalDb → ℕ → PatternSet → List Pattern → ℕ → Option (List Pattern)
unfolding first_level given_levels min_length
discover_cand_serial db support cand_patterns out max_level = do
  k ← min_length cand_patterns
  let last = if max_level == 0 then cand_patterns.max_length else max_level
  m ← first_level db support cand_patterns k out
  given_levels (2 + length db.frequent) db support cand_patterns last (k + 1) m.freq_next m.out
