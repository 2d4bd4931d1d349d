-- ===== src/VerticalDb.antt =====
-- src/bitdrill/Vertical_DB.cxx and Vertical_DB.hxx: for each frequent item the list of the
-- transactions that contain it. A frequent item has a rank, the index of its list, by which the
-- more frequent items come first. `none` is an access outside a vector, or at the -1 that an item
-- without a rank has in `map_item_freq`, or what `none` means in TidList. `print` is not here.
pub mod FailedReads
pub mod Ranks
pub mod Order
pub mod Laws
pub mod Filling
pub mod Building
pub mod Frequency
pub mod Message
pub mod Lost
pub mod Reorder
pub mod Merged
pub mod LostRuns
pub mod ReorderRuns
pub mod Runs
use bitdrill.Base.{ℕ, zero, suc, ◌+◌, Bool, true, false, Option, some, none, List, [], ◌∷◌}
use bitdrill.Base.{length, get_elem?, set, replicate, if◌then◌else◌, ltb, ◌==◌, ◌>>=◌}
use bitdrill.TidList
use bitdrill.TidList.{TidList, bitvector}

-- An entry of `map_item_freq` is `none` where the source has -1.
pub record VerticalDb : Type 0 where
  pub frequent : List ℕ
  pub count : List ℕ
  pub tidlists : List TidList
  pub num_txn : ℕ
  pub map_freq_item : List ℕ
  pub map_item_freq : List (Option ℕ)

-- Past the end of the counts 0 stands for what the source reads there. No result depends on it,
-- since the constructor then reads the count of every frequent item.
abbrev pub count_at : List ℕ → ℕ → ℕ
count_at count item = elim (get_elem? count item) [ some c ↦ c | none ↦ 0 ]

unfoldable pub greater_freq : List ℕ → ℕ → ℕ → Bool
greater_freq count i j =
    if count_at count i == count_at count j
    then ltb i j
    else ltb (count_at count j) (count_at count i)

-- `std::sort` by `greater_freq`, under which no two items are equal.
unfoldable pub insert_by : (ℕ → ℕ → Bool) → ℕ → List ℕ → List ℕ
insert_by before x [] = x ∷ []
insert_by before x (y ∷ ys) =
    let rest = insert_by before x ys in if before x y then x ∷ y ∷ ys else y ∷ rest

unfoldable pub sort_by : (ℕ → ℕ → Bool) → List ℕ → List ℕ
unfolding insert_by
sort_by before [] = []
sort_by before (x ∷ xs) = insert_by before x (sort_by before xs)

-- The loop that fills `map_item_freq`; `map_freq_item` becomes the sorted items.
unfoldable pub make_map : ℕ → List ℕ → List (Option ℕ) → Option (List (Option ℕ))
make_map freq [] ranks = some ranks
make_map freq (item ∷ rest) ranks =
    let filled = make_map (freq + 1) rest (set ranks item (some freq)) in
    if ltb item (length ranks) then filled else none

-- The loop that resets the list of each rank.
pub reset_lists : ℕ → List ℕ → List ℕ → Option (List TidList)
reset_lists num_txn count [] = some []
reset_lists num_txn count (item ∷ rest) = do
  expected ← get_elem? count item
  tl ← TidList.reset num_txn expected (TidList.new_tid_list bitvector)
  others ← reset_lists num_txn count rest
  some (tl ∷ others)

pub add_at : Option ℕ → ℕ → List TidList → Option (List TidList)
add_at none txn_id tidlists = some tidlists
add_at (some freq) txn_id tidlists = do
  tl ← get_elem? tidlists freq
  changed ← TidList.add_transaction txn_id tl
  some (set tidlists freq changed)

-- One round of the loop of `insert`: only an item with a rank is added.
pub insert_item : List (Option ℕ) → ℕ → ℕ → List TidList → Option (List TidList)
unfolding add_at
insert_item ranks txn_id item tidlists = elim (get_elem? ranks item) [
  | none ↦ some tidlists
  | some rank ↦ add_at rank txn_id tidlists
]

-- `insert (txn, txn_id)`: the new lists.
pub insert_txn : List (Option ℕ) → ℕ → List ℕ → List TidList → Option (List TidList)
unfolding insert_item
insert_txn ranks txn_id [] tidlists = some tidlists
insert_txn ranks txn_id (item ∷ txn) tidlists = do
  changed ← insert_item ranks txn_id item tidlists
  insert_txn ranks txn_id txn changed

-- The loop over the scanner, which gives `none` where a read has no transaction.
pub scan : List (Option ℕ) → ℕ → List (Option (List ℕ)) → List TidList → Option (List TidList)
unfolding insert_txn
scan ranks txn_id [] tidlists = some tidlists
scan ranks txn_id (none ∷ reads) tidlists = scan ranks (txn_id + 1) reads tidlists
scan ranks txn_id (some txn ∷ reads) tidlists = do
  changed ← insert_txn ranks txn_id txn tidlists
  scan ranks (txn_id + 1) reads changed

-- The constructor from the frequent items, the counts of all items, how many items and
-- transactions there are, and the transactions.
unfoldable pub build : List ℕ → List ℕ → ℕ → ℕ → List (Option (List ℕ)) → Option VerticalDb
unfolding sort_by make_map reset_lists scan
build f count num_items num_txn reads =
    let sorted = sort_by (greater_freq count) f in
    do
      ranks ← make_map 0 sorted (replicate num_items none)
      fresh ← reset_lists num_txn count sorted
      filled ← scan ranks 0 reads fresh
      some (record {
        frequent = sorted;
        count = count;
        tidlists = filled;
        num_txn = num_txn;
        map_freq_item = sorted;
        map_item_freq = ranks;
      })

unfoldable pub item_to_freq : VerticalDb → ℕ → Option ℕ
item_to_freq db item = do rank ← get_elem? db.map_item_freq item; rank

unfoldable pub item : VerticalDb → ℕ → Option TidList
unfolding item_to_freq
item db i = do freq ← item_to_freq db i; get_elem? db.tidlists freq

-- The loop of `tidlist` from the third item on.
pub intersect_rest : VerticalDb → List ℕ → TidList → Option TidList
unfolding item
intersect_rest db [] intersection = some intersection
intersect_rest db (i ∷ rest) intersection = do
  tl ← item db i
  changed ← TidList.intersect intersection tl
  intersect_rest db rest changed

-- `tidlist (itemset, intersection)`: the new value of `intersection`.
unfoldable pub tidlist : VerticalDb → List ℕ → TidList → Option TidList
unfolding item intersect_rest
tidlist db [] intersection = some intersection
tidlist db (i ∷ []) intersection = item db i
tidlist db (i ∷ j ∷ rest) intersection = do
  first ← item db i
  second ← item db j
  both ← TidList.intersect_into first second intersection
  intersect_rest db rest both

unfoldable pub frequency : VerticalDb → List ℕ → Option ℕ
unfolding tidlist
frequency db [] = none
frequency db (i ∷ rest) = do
  expected ← get_elem? db.count i
  tid_list ← TidList.reset db.num_txn expected (TidList.new_tid_list bitvector)
  intersection ← tidlist db (i ∷ rest) tid_list
  TidList.count intersection
