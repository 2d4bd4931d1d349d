-- ===== src/Miner.antt =====
-- src/bitdrill/Miner.cxx: what its searches share. They keep the itemsets of one size in a trie,
-- with each itemset in the order of falling counts, and make candidates of the next size from
-- two itemsets that differ in the last item. Logging, the time, and the numbers that are only
-- printed are left out. The second buffer `candidate_itemset` of a level keeps its size: `merge`
-- writes from its front, and past its end is `none`.
pub mod Levels
pub mod Frequent
pub mod Considered
pub mod Inserted
pub mod Counted
pub mod Extended
pub mod Made
pub mod LevelLaws
pub mod Sizes
pub mod LevelsLaws
pub mod Written
pub mod Mining
pub mod LevelRuns
pub mod GivenLost
pub mod GivenLaws
pub mod GivenRuns
pub mod Whole
pub mod Discovered
pub mod AllFound
pub mod FileRuns
pub mod Candidates
pub mod Given
pub mod Serial
pub mod Runs
use bitdrill.Base.{ℕ, zero, suc, ◌+◌, Bool, true, false, Option, some, none, List, [], ◌∷◌, ◌++◌}
use bitdrill.Base.{length, drop, get_elem?, if◌then◌else◌, leb, ◌>>=◌}
use bitdrill.Trie.{Trie, insert}
use bitdrill.VerticalDb.{VerticalDb, greater_freq, insert_by}
use bitdrill.VerticalDb.Reorder.{reorder}
use bitdrill.PatternSet.{Pattern, PatternSet}
use bitdrill.Walk.Rounds.{cost_node}

-- What a level changes: the next trie, the buffer of the candidate, and the patterns put out.
pub record Mined : Type 0 where
  pub freq_next : Trie
  pub candidate_itemset : List ℕ
  pub out : List Pattern

-- `std::merge` of an itemset and one item, written to the front of a vector.
unfoldable pub merge_into : (ℕ → ℕ → Bool) → List ℕ → ℕ → List ℕ → Option (List ℕ)
unfolding insert_by
merge_into before itemset diff buffer =
    let merged = insert_by before diff itemset in
    if leb (length merged) (length buffer)
    then some (merged ++ drop (length merged) buffer)
    else none

-- The loop that reorders each itemset and inserts it.
unfoldable pub insert_patterns : VerticalDb → List Pattern → Trie → Option Trie
unfolding insert reorder
insert_patterns db [] t = some t
insert_patterns db (p ∷ ps) t = do x ← reorder db p.itemset; insert_patterns db ps (insert x t)

-- Rounds that are enough for a walk over a trie, in `next ()` and in the loop around it.
abbrev pub walk_rounds : Trie → ℕ
walk_rounds t = 2 + cost_node t
