-- ===== src/Miner/GivenRuns.antt =====
-- Runs of `discover_cand` of src/bitdrill/Miner.cxx on the database of four reads.
use bitdrill.Base.{ℕ, ◌≡◌, refl, arith}
use bitdrill.Base.{some, none, List, [], ◌∷◌}
use bitdrill.Trie.{empty}
use bitdrill.PatternSet.{Pattern, PatternSet, min_length}
use bitdrill.VerticalDb.Building.{contains}
use bitdrill.VerticalDb.Runs.{frequent_items, four_reads, small_db, small_db-IsVertical}
use bitdrill.TidlistWalk.Loop.{Ends}
use bitdrill.Miner.Given.{count_size, discover_cand}
use bitdrill.Miner.GivenLost.{discover_cand-Lost}
use bitdrill.Miner.GivenLaws.{IsCounting, count_size-IsCounting}
use bitdrill.Miner.LevelRuns.{
  singles, row, single_patterns, small_db-HasFirst, singles_made, singles-IsLevelOf,
}

count_size-IsCounting_example :
    Ends
      (IsCounting 4 (contains four_reads) 3 singles [] (λ itemset. ⊥))
      (count_size small_db 3 single_patterns 1 [])
unfolding empty
count_size-IsCounting_example =
    count_size-IsCounting 4 frequent_items (contains four_reads) small_db small_db-IsVertical
      (omega arith) small_db-HasFirst 3 0 [] single_patterns row singles refl singles_made
      singles-IsLevelOf.level singles-IsLevelOf.distinct refl

abbrev pattern : List ℕ → Pattern
pattern itemset = record { itemset = itemset; count = 0 }

-- Candidates with one and with three items.
abbrev no_pairs : PatternSet
no_pairs = record {
  patterns = pattern (2 ∷ []) ∷ pattern (0 ∷ 2 ∷ 0 ∷ []) ∷ [];
  max_length = 3;
  bysize = [] ∷ (pattern (2 ∷ []) ∷ []) ∷ [] ∷ (pattern (0 ∷ 2 ∷ 0 ∷ []) ∷ []) ∷ [];
}

no_pairs-min_length : min_length no_pairs ≡ some 1
unfolding min_length
no_pairs-min_length = refl

discover_cand-Lost_example : discover_cand small_db 1 no_pairs [] 0 ≡ none
discover_cand-Lost_example =
    discover_cand-Lost small_db 1 no_pairs [] 0 1 2 no_pairs-min_length (omega arith) (omega arith)
      (omega arith) refl
