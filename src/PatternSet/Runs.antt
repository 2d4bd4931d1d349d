-- ===== src/PatternSet/Runs.antt =====
-- Runs of src/bitdrill/Pattern.cxx on three patterns.
use bitdrill.Base.{◌≡◌, refl, some, [], ◌∷◌, ◌>>=◌}
use bitdrill.PatternSet.{Pattern, PatternSet, decompose_by_size, min_length}
use bitdrill.PatternSet.Laws.{IsDecomposed, decompose_by_size-IsDecomposed}

abbrev pair : Pattern
pair = record { itemset = 2 ∷ 5 ∷ []; count = 3 }

abbrev single : Pattern
single = record { itemset = 2 ∷ []; count = 4 }

abbrev small_set : PatternSet
small_set = record { patterns = pair ∷ single ∷ []; max_length = 0; bysize = [] }

decompose_runs :
    decompose_by_size small_set
    ≡ some (record {
      patterns = pair ∷ single ∷ [];
      max_length = 2;
      bysize = [] ∷ (single ∷ []) ∷ (pair ∷ []) ∷ [];
    })
unfolding decompose_by_size
decompose_runs = refl

-- A second decomposition has every pattern twice.
decompose_twice :
    (decompose_by_size small_set >>= λ s. decompose_by_size s)
    ≡ some (record {
      patterns = pair ∷ single ∷ [];
      max_length = 2;
      bysize = [] ∷ (single ∷ single ∷ []) ∷ (pair ∷ pair ∷ []) ∷ [];
    })
unfolding decompose_by_size
decompose_twice = refl

min_length_runs : min_length small_set ≡ some 1
unfolding min_length
min_length_runs = refl

decompose_by_size-IsDecomposed_example : IsDecomposed small_set (decompose_by_size small_set)
decompose_by_size-IsDecomposed_example = decompose_by_size-IsDecomposed small_set
