-- ===== src/VerticalDb/ReorderRuns.antt =====
-- Runs of `reorder` of src/bitdrill/Vertical_DB.hxx.
use bitdrill.Base.{◌≡◌, refl, arith, some, [], ◌∷◌}
use bitdrill.VerticalDb.{VerticalDb, greater_freq, sort_by}
use bitdrill.VerticalDb.Reorder.{reorder}
use bitdrill.VerticalDb.Reorder.Sorted.{IsReordered, reorder-IsReordered, reorder-sort_by}

-- Of the items 1 to 4 the second is the most frequent one, and two have the same count.
abbrev counted_db : VerticalDb
counted_db = record {
  frequent = 2 ∷ 1 ∷ 3 ∷ 4 ∷ [];
  count = 0 ∷ 4 ∷ 5 ∷ 3 ∷ 3 ∷ [];
  tidlists = [];
  num_txn = 5;
  map_freq_item = 2 ∷ 1 ∷ 3 ∷ 4 ∷ [];
  map_item_freq = [];
}

reorder-IsReordered_example :
    IsReordered
      (0 ∷ 4 ∷ 5 ∷ 3 ∷ 3 ∷ [])
      (4 ∷ 3 ∷ 1 ∷ 4 ∷ 2 ∷ [])
      (reorder counted_db (4 ∷ 3 ∷ 1 ∷ 4 ∷ 2 ∷ []))
reorder-IsReordered_example = reorder-IsReordered counted_db (4 ∷ 3 ∷ 1 ∷ 4 ∷ 2 ∷ []) (omega arith)

reorder-sort_by_example :
    reorder counted_db (4 ∷ 3 ∷ 1 ∷ 2 ∷ [])
    ≡ some (sort_by (greater_freq (0 ∷ 4 ∷ 5 ∷ 3 ∷ 3 ∷ [])) (4 ∷ 3 ∷ 1 ∷ 2 ∷ []))
reorder-sort_by_example =
    reorder-sort_by counted_db (4 ∷ 3 ∷ 1 ∷ 2 ∷ []) (refl, (refl, (refl, (refl, tt)))) (omega arith)

reorder_repeated : reorder counted_db (4 ∷ 3 ∷ 1 ∷ 4 ∷ 2 ∷ []) ≡ some (2 ∷ 1 ∷ 3 ∷ 4 ∷ 4 ∷ [])
unfolding reorder
reorder_repeated = refl
