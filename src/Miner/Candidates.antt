-- ===== src/Miner/Candidates.antt =====
-- `gen_candidates` of src/bitdrill/Miner.cxx: candidates from patterns of one size, level by
-- level, without a database. A level puts out every candidate whose supports are there, with the
-- count 0. As there is no database, the levels are as many as the fuel allows: an item of a
-- candidate is an item of one of the patterns.
use bitdrill.Base.{
  ℕ, zero, suc, ◌+◌, true, false, not, ◌&&◌, Option, some, none, List, [], ◌∷◌, ◌++◌,
}
use bitdrill.Base.{replicate, get_elem?, if◌then◌else◌, ltb, ◌==◌, ◌>>=◌}
use bitdrill.Trie.{Trie, def_node, empty, insert, check_supports}
use bitdrill.VerticalDb.{greater_freq, sort_by}
use bitdrill.PatternSet.{Pattern, PatternSet}
use bitdrill.Walk.{Walk, new_walk, next, ref, new_candidate_walk, for_candidates}
use bitdrill.Miner.{Mined, merge_into, walk_rounds}

-- The loop that sorts each itemset and inserts it.
pub insert_sorted_patterns : List ℕ → List Pattern → Trie → Trie
unfolding insert sort_by
insert_sorted_patterns count_vec [] t = t
insert_sorted_patterns count_vec (p ∷ ps) t =
    insert_sorted_patterns count_vec ps (insert (sort_by (greater_freq count_vec) p.itemset) t)

-- The body of the loop over the candidates.
pub propose : List ℕ → Trie → List ℕ → ℕ → Mined → Option Mined
unfolding merge_into check_supports insert
propose count_vec freq itemset diff m = do
  candidate ← merge_into (greater_freq count_vec) itemset diff m.candidate_itemset
  supported ← check_supports candidate freq
  some (
      if supported
      then record {
        freq_next = insert candidate m.freq_next;
        candidate_itemset = candidate;
        out = m.out ++ record { itemset = candidate; count = 0 } ∷ [];
      }
      else record m { candidate_itemset = candidate })

-- The body of the loop over the itemsets of a level.
pub propose_all : List ℕ → Trie → Walk → Mined → Option Mined
unfolding propose new_candidate_walk for_candidates
propose_all count_vec freq walk m = do
  cand_walk ← new_candidate_walk walk
  for_candidates (propose count_vec freq (ref walk)) cand_walk m

-- The loop `while (!walk.end ()) if (walk.next ()) ...`.
pub propose_walk : ℕ → ℕ → List ℕ → Trie → Walk → Mined → Option Mined
unfolding propose_all next
propose_walk rounds zero count_vec freq w m = none
propose_walk rounds (suc fuel) count_vec freq w m = elim w.frames [
  | [] ↦ some m
  | top ∷ below ↦ do
    step ← next rounds w
    m' ← if step.0 then propose_all count_vec freq step.1 m else some m
    propose_walk rounds fuel count_vec freq step.1 m'
]

pub propose_levels : ℕ → List ℕ → ℕ → ℕ → Trie → List Pattern → Option (List Pattern)
unfolding propose_walk new_walk empty
propose_levels zero count_vec max_level k freq out = none
propose_levels (suc fuel) count_vec max_level k freq out = elim (empty freq) [
  | true ↦ some out
  | false ↦ elim (not (max_level == 0) && ltb max_level k) [
    | true ↦ some out
    | false ↦ do
      m ←
          propose_walk (walk_rounds freq) (walk_rounds freq) count_vec freq (new_walk freq)
            (record { freq_next = def_node; candidate_itemset = replicate k 0; out = out })
      propose_levels fuel count_vec max_level (k + 1) m.freq_next m.out
  ]
]

unfoldable pub gen_candidates : ℕ → List ℕ → PatternSet → List Pattern → ℕ → Option (List Pattern)
unfolding propose_levels insert_sorted_patterns
gen_candidates fuel count_vec freq_patterns out max_level = do
  row ← get_elem? freq_patterns.bysize freq_patterns.max_length
  propose_levels fuel count_vec max_level (freq_patterns.max_length + 1)
      (insert_sorted_patterns count_vec row def_node) out
