-- ===== src/Miner/Runs.antt =====
-- Runs of the parts of src/bitdrill/Miner.cxx that need no list of transactions.
use bitdrill.Base.{ℕ, ◌≡◌, refl, some, none, List, [], ◌∷◌}
use bitdrill.VerticalDb.{VerticalDb, greater_freq}
use bitdrill.VerticalDb.Reorder.{reorder}
use bitdrill.PatternSet.{Pattern, PatternSet}
use bitdrill.Miner.{merge_into}
use bitdrill.Miner.Candidates.{gen_candidates}

abbrev counts : List ℕ
counts = 0 ∷ 4 ∷ 5 ∷ 3 ∷ 3 ∷ []

abbrev pattern : List ℕ → ℕ → Pattern
pattern itemset count = record { itemset = itemset; count = count }

-- The pairs 1 2, 1 3, 2 3, 2 4 and 1 4.
abbrev pairs : PatternSet
pairs = record {
  patterns = [];
  max_length = 2;
  bysize =
      []
      ∷ []
      ∷ (pattern (1 ∷ 2 ∷ []) 4
          ∷ pattern (3 ∷ 1 ∷ []) 3
          ∷ pattern (2 ∷ 3 ∷ []) 3
          ∷ pattern (2 ∷ 4 ∷ []) 3
          ∷ pattern (4 ∷ 1 ∷ []) 2
          ∷ [])
      ∷ [];
}

abbrev counts_only : VerticalDb
counts_only = record {
  frequent = 2 ∷ 1 ∷ 3 ∷ 4 ∷ [];
  count = counts;
  tidlists = [];
  num_txn = 5;
  map_freq_item = 2 ∷ 1 ∷ 3 ∷ 4 ∷ [];
  map_item_freq = [];
}

reorder_run : reorder counts_only (4 ∷ 3 ∷ 1 ∷ 2 ∷ []) ≡ some (2 ∷ 1 ∷ 3 ∷ 4 ∷ [])
unfolding reorder
reorder_run = refl

merge_run : merge_into (greater_freq counts) (2 ∷ 4 ∷ []) 1 (0 ∷ 0 ∷ 0 ∷ []) ≡ some (2 ∷ 1 ∷ 4 ∷ [])
unfolding merge_into greater_freq
merge_run = refl

merge_past_the_end : merge_into (greater_freq counts) (2 ∷ 4 ∷ []) 1 (0 ∷ 0 ∷ []) ≡ none
unfolding merge_into greater_freq
merge_past_the_end = refl

-- The two triples all of whose pairs are given; 1 3 4 and 2 3 4 lack the pair 3 4.
candidates_run :
    gen_candidates 10 counts pairs [] 0
    ≡ some (pattern (2 ∷ 1 ∷ 4 ∷ []) 0 ∷ pattern (2 ∷ 1 ∷ 3 ∷ []) 0 ∷ [])
unfolding gen_candidates greater_freq
candidates_run = refl
