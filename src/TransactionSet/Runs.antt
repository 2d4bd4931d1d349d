-- ===== src/TransactionSet/Runs.antt =====
-- Runs of src/transaction-db/Transaction_Set.cxx on three transactions.
use bitdrill.Base.{ℕ, ◌≡◌, refl, some, none, List, [], ◌∷◌, ◌++◌, map, length, ltb}
use bitdrill.TransactionSet.{
  encode, decode, decode_step, buffer_reads, large_items, has_item, prune_small_items,
}
use bitdrill.TransactionSet.Codec.{decode-encode}
use bitdrill.TransactionSet.Frequent.{occurrences_in, has_item-large_items}
use bitdrill.TransactionSet.Pruning.{ArePruned, prune_small_items-ArePruned}

abbrev baskets : List (List ℕ)
baskets = (3 ∷ 1 ∷ []) ∷ [] ∷ (1 ∷ 2 ∷ 3 ∷ []) ∷ (3 ∷ []) ∷ []

encode_runs : encode baskets [] ≡ 2 ∷ 3 ∷ 1 ∷ 0 ∷ 3 ∷ 1 ∷ 2 ∷ 3 ∷ 1 ∷ 3 ∷ []
unfolding encode
encode_runs = refl

decode_past_end : decode_step (3 ∷ 1 ∷ 2 ∷ []) ≡ none
unfolding decode_step
decode_past_end = refl

-- Item 1 occurs twice, and is not large for a threshold of 2.
large_runs : large_items 2 baskets ≡ 3 ∷ []
unfolding large_items
large_runs = refl

prune_runs : prune_small_items 1 baskets ≡ (1 ∷ 3 ∷ []) ∷ [] ∷ (1 ∷ 3 ∷ []) ∷ (3 ∷ []) ∷ []
unfolding prune_small_items large_items
prune_runs = refl

encoding_example :
    (decode (encode baskets []) ((9 ∷ []) ∷ []) ≡ some (((9 ∷ []) ∷ []) ++ baskets))
    × (buffer_reads (length (encode baskets [])) (encode baskets []) ≡ some (map some baskets))
encoding_example = decode-encode baskets ((9 ∷ []) ∷ [])

has_item-large_items_example : has_item (large_items 2 baskets) 1 ≡ ltb 2 (occurrences_in 1 baskets)
has_item-large_items_example = has_item-large_items 2 baskets 1

prune_small_items-ArePruned_example :
    ArePruned (λ x. ltb 1 (occurrences_in x baskets)) baskets (prune_small_items 1 baskets)
prune_small_items-ArePruned_example = prune_small_items-ArePruned 1 baskets
