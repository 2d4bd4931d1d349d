-- ===== src/VerticalDb/Merged.antt =====
-- The constructor of src/bitdrill/Vertical_DB.cxx that merges two databases of the same
-- transactions. `none` is the failed `assert`, an access outside a vector, or at the -1 that an
-- item without a rank has.
use bitdrill.Base.{ℕ, max, ◌&&◌, Option, some, none, List, [], ◌∷◌, ◌++◌}
use bitdrill.Base.{length, get_elem?, set, replicate, if◌then◌else◌, ltb, ◌==◌, ◌>>=◌}
use bitdrill.TidList
use bitdrill.TidList.{TidList, bitvector}
use bitdrill.VerticalDb.{VerticalDb, greater_freq, sort_by, make_map, item, item_to_freq}

-- The loop that takes over the positive counts of a database.
pub take_counts : List ℕ → List ℕ → List ℕ
take_counts [] my_count = my_count
take_counts (c ∷ count) [] = []
take_counts (c ∷ count) (mine ∷ my_count) =
    (if ltb 0 c then c else mine) ∷ take_counts count my_count

-- The loop that takes over a database's counts and lists, item by item.
pub take_lists :
    VerticalDb → List ℕ → List (Option ℕ) → List ℕ → List TidList → Option (List ℕ × List TidList)
unfolding item item_to_freq
take_lists db [] ranks my_count tidlists = some (my_count, tidlists)
take_lists db (i ∷ items) ranks my_count tidlists = do
  c ← get_elem? db.count i
  rank ← get_elem? ranks i
  freq ← rank
  tl ← item db i
  if ltb freq (length tidlists) && ltb i (length my_count)
      then take_lists db items ranks (set my_count i c) (set tidlists freq tl)
      else none

unfoldable pub merge : VerticalDb → VerticalDb → Option VerticalDb
unfolding take_counts take_lists sort_by make_map
merge db1 db2 =
    let num_items = max (length db1.count) (length db2.count) in
    let my_count = take_counts db2.count (take_counts db1.count (replicate num_items 0)) in
    let sorted = sort_by (greater_freq my_count) (db1.frequent ++ db2.frequent) in
    do
      ranks ← make_map 0 sorted (replicate num_items none)
      first ←
          take_lists db1 db1.frequent ranks my_count
            (replicate (length sorted) (TidList.new_tid_list bitvector))
      second ← take_lists db2 db2.frequent ranks first.0 first.1
      if db1.num_txn == db2.num_txn
          then some (record {
            frequent = sorted;
            count = second.0;
            tidlists = second.1;
            num_txn = db1.num_txn;
            map_freq_item = sorted;
            map_item_freq = ranks;
          })
          else none
