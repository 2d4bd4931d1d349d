-- ===== src/Counting.antt =====
-- src/2-items/Count.cxx, Count.hxx and kdci.hxx: the counter that finds the frequent items and the
-- frequent pairs, with kDCI, as the switch USE_KDCI says. Its first scan, the mapping of the
-- transactions and the places of the counts are the parameter `Kdci`. `none` is an access outside a
-- vector, a failed `assert`, or an `exit`. An entry of `item_f` is `none` where the source has -100. The
-- set of frequent items is the list of its items in their order. Files, times and the numbers that are
-- only printed are not here.
pub mod Project
pub mod Table
pub mod Places
pub mod Candidates
pub mod Failed
pub mod Scan
pub mod Items
pub mod Edges
pub mod PairsKept
pub mod Tally
pub mod Kept
pub mod Pruning
pub mod Exact
pub mod Stages
pub mod Counted
pub mod Runs
use bitdrill.Base.{
  ℕ, zero, suc, ◌+◌, ◌-◌, ◌*◌, ◌/◌, ◌%◌, ◌^◌, Bool, true, false, not, ◌&&◌, Option, some, none,
}
use bitdrill.Base.{
  List, [], ◌∷◌, ◌||◌, length, replicate, get_elem?, set, if◌then◌else◌, ltb, leb, ◌==◌, ◌>>=◌,
}
use bitdrill.Graph.{
  Graph, new_graph, resize, resize_list, addu, set_weight, num_uedges, vertex_induced_subgraph,
}
use bitdrill.UtMatrix.{UtMatrix, new_matrix, next_place, mtx_add}
use bitdrill.TransactionSet.{has_item, insert_sorted}
use bitdrill.PatternSet.{Pattern}
use bitdrill.Miner.Whole.{Counter, discover_file}

-- What comes from kDCI: the number of items and of transactions, each item with its count, the largest
-- support, the items of the candidates, the transactions of its temporary file as the second scan
-- gets them, mapped to the places of these items, and where `direct_position2_init` puts the
-- counts of a place.
pub record Kdci : Type 0 where
  pub m : ℕ
  pub num_of_trans : ℕ
  pub counts : List (ℕ × ℕ)
  pub max_support : ℕ
  pub unmap : List ℕ
  pub mapped : List (List ℕ)
  pub position_init : ℕ → ℕ

pub record TsCounter : Type 0 where
  pub num_items : ℕ
  pub num_transactions : ℕ
  pub support : ℕ
  pub count : List ℕ
  pub frequent : List ℕ
  pub f_item : List ℕ
  pub item_f : List (Option ℕ)
  pub f2 : Graph
  pub f2_load : Graph
  pub f2_edges : ℕ
  pub f2_edge_weight : ℕ

abbrev pub new_counter : TsCounter
new_counter = record {
  num_items = 0;
  num_transactions = 0;
  support = 0;
  count = [];
  frequent = [];
  f_item = [];
  item_f = [];
  f2 = new_graph;
  f2_load = new_graph;
  f2_edges = 0;
  f2_edge_weight = 0;
}

-- The loop that takes over the counts.
unfoldable pub take_over : List (ℕ × ℕ) → List ℕ → Option (List ℕ)
take_over [] count = some count
take_over ((id, c) ∷ counts) count =
    let rest = take_over counts (set count id c) in if ltb id (length count) then rest else none

unfoldable pub count_1_items_local : Kdci → TsCounter → Option TsCounter
unfolding take_over
count_1_items_local k c = do
  count ← take_over k.counts (resize_list k.m 0 c.count)
  some (record c { num_items = k.m; num_transactions = k.num_of_trans; count = count })

-- The items from i on that occur often enough, as many as are left.
unfoldable pub large_from : ℕ → ℕ → ℕ → List ℕ → Option (List ℕ)
large_from zero i support count = some []
large_from (suc left) i support count = do
  c ← get_elem? count i
  rest ← large_from left (i + 1) support count
  some (if leb support c then i ∷ rest else rest)

-- `large_items ()`, for an empty F.
unfoldable pub large_items : TsCounter → Option TsCounter
unfolding large_from
large_items c = do f ← large_from c.num_items 0 c.support c.count; some (record c { frequent = f })

-- The loop that fills the map of the items.
unfoldable pub number_items : ℕ → List ℕ → List (Option ℕ) → Option (List (Option ℕ))
number_items fix [] item_f = some item_f
number_items fix (i ∷ f) item_f =
    let rest = number_items (fix + 1) f (set item_f i (some fix)) in
    if ltb i (length item_f) then rest else none

-- The loop that writes the weights of the vertices.
unfoldable pub write_weights : List ℕ → List (Option ℕ) → List ℕ → Graph → Option Graph
unfolding set_weight
write_weights [] item_f count g = some g
write_weights (item ∷ f) item_f count g = do
  vertex ← get_elem? item_f item
  v ← vertex
  c ← get_elem? count item
  weighted ← set_weight v c g
  write_weights f item_f count weighted

-- What a count of the candidates cannot hold: its type is chosen by the largest support.
unfoldable pub count_limit : ℕ → ℕ
count_limit max_support =
    if ltb max_support (2 ^ 8) then 2 ^ 8 else if ltb max_support (2 ^ 16) then 2 ^ 16 else 2 ^ 32

-- `incr_cand_count (i)`, in the width of the counts.
unfoldable pub incr_cand_count : ℕ → ℕ → List ℕ → Option (List ℕ)
incr_cand_count limit i counts = do c ← get_elem? counts i; some (set counts i ((c + 1) % limit))

-- The loop over the second place in a transaction, the one over the first, and the loop over the
-- transactions, in `only_second_scan`.
unfoldable pub count_with : ℕ → (ℕ → ℕ) → ℕ → List ℕ → List ℕ → Option (List ℕ)
unfolding incr_cand_count
count_with limit init x0 [] counts = some counts
count_with limit init x0 (y ∷ ys) counts =
    incr_cand_count limit ((init x0 + y) % 2 ^ 64) counts >>= count_with limit init x0 ys

unfoldable pub count_pairs : ℕ → (ℕ → ℕ) → List ℕ → List ℕ → Option (List ℕ)
unfolding count_with
count_pairs limit init [] counts = some counts
count_pairs limit init (x ∷ xs) counts =
    count_with limit init x xs counts >>= count_pairs limit init xs

unfoldable pub count_transactions : ℕ → (ℕ → ℕ) → List (List ℕ) → List ℕ → Option (List ℕ)
unfolding count_pairs
count_transactions limit init [] counts = some counts
count_transactions limit init (t_out ∷ mapped) counts =
    count_pairs limit init t_out counts >>= count_transactions limit init mapped

-- What the second scan does with the count of two candidates.
unfoldable pub add_counted : Option ℕ → Option ℕ → ℕ → UtMatrix → Option UtMatrix
unfolding mtx_add
add_counted (some u) (some v) count g = mtx_add u v count g
add_counted (some u) none count g = some g
add_counted none v count g = some g

-- The loop over the second item, with the counts that are left.
unfoldable pub scan_with :
    List (Option ℕ) → ℕ → List ℕ → List ℕ → UtMatrix → Option (List ℕ × UtMatrix)
unfolding add_counted
scan_with item_f x [] counts g = some (counts, g)
scan_with item_f x (y ∷ ys) [] g = none
scan_with item_f x (y ∷ ys) (count ∷ counts) g = do
  u ← get_elem? item_f x
  v ← get_elem? item_f y
  added ← add_counted u v count g
  scan_with item_f x ys counts added

-- The loop over the first item.
unfoldable pub second_scan : List (Option ℕ) → List ℕ → List ℕ → UtMatrix → Option UtMatrix
unfolding scan_with
second_scan item_f [] counts g = some g
second_scan item_f (x ∷ xs) counts g = do
  row ← scan_with item_f x xs counts g
  second_scan item_f xs row.0 row.1

-- `only_second_scan`, with as many counts as there are pairs of candidates.
unfoldable pub only_second_scan : Kdci → List (Option ℕ) → UtMatrix → Option UtMatrix
unfolding count_limit count_transactions second_scan
only_second_scan k item_f g =
    let m1 = length k.unmap in
    count_transactions (count_limit k.max_support) k.position_init k.mapped
      (replicate (m1 * (m1 - 1) / 2) 0)
    >>= λ counts. second_scan item_f k.unmap counts g

-- `count_2_items_local ()`, with the matrix of the pairs.
unfoldable pub count_2_items_local : Kdci → TsCounter → Option (TsCounter × UtMatrix)
unfolding resize number_items write_weights new_matrix only_second_scan
count_2_items_local k c =
    let size = length c.frequent in
    do
      item_f ← number_items 0 c.frequent (replicate c.num_items none)
      f2 ← write_weights c.frequent item_f c.count (resize size c.f2)
      two_items ←
          if k.max_support == 0 || ltb (length k.unmap) 2
          then some (new_matrix size)
          else only_second_scan k item_f (new_matrix size)
      some (
        record c { f2 = f2; f2_load = resize size c.f2_load; f_item = c.frequent; item_f = item_f },
        two_items,
      )

-- What the loop of `prune_2_items` changes.
pub record Pruned : Type 0 where
  pub f2 : Graph
  pub f2_load : Graph
  pub edges : ℕ
  pub edge_weight : ℕ

unfoldable pub keep_edge : ℕ → ℕ → ℕ → Pruned → Option Pruned
unfolding addu
keep_edge i j weight s = do
  f2 ← addu i j weight s.f2
  f2_load ← addu i j weight s.f2_load
  some (record {
    f2 = f2;
    f2_load = f2_load;
    edges = s.edges + 1;
    edge_weight = s.edge_weight + weight;
  })

-- The body of the loop.
unfoldable pub keep_pair : ℕ → ℕ → ℕ → ℕ → Pruned → Option Pruned
unfolding keep_edge
keep_pair support i j weight s =
    if leb support weight && not (i == j) then keep_edge i j weight s else some s

-- The walk over the matrix.
unfoldable pub prune_loop : ℕ → ℕ → List ℕ → ℕ → ℕ → Pruned → Option Pruned
unfolding keep_pair
prune_loop support n [] i j s = some s
prune_loop support n (weight ∷ rest) i j s = do
  kept ← keep_pair support i j weight s
  prune_loop support n rest (next_place n i j).0 (next_place n i j).1 kept

unfoldable pub prune_2_items : UtMatrix → TsCounter → Option TsCounter
unfolding prune_loop
prune_2_items two_items c = do
  s ←
      prune_loop c.support two_items.rows two_items.rep 0 0
        (record { f2 = c.f2; f2_load = c.f2_load; edges = 0; edge_weight = 0 })
  some (record c {
    f2 = s.f2;
    f2_load = s.f2_load;
    f2_edges = s.edges;
    f2_edge_weight = s.edge_weight;
  })

unfoldable pub count_items_serial : Kdci → ℕ → TsCounter → Option TsCounter
unfolding count_1_items_local large_items count_2_items_local prune_2_items
count_items_serial k level c = do
  counted ← count_1_items_local k c
  large ← large_items counted
  let pairs : Option TsCounter = do both ← count_2_items_local k large; prune_2_items both.1 both.0
  if level == 2 && ltb 0 (length large.frequent) then pairs else some large

-- `count_items_absolute (sup, level)`.
unfoldable pub count_items_absolute : Kdci → ℕ → ℕ → TsCounter → Option TsCounter
unfolding count_items_serial
count_items_absolute k sup level c = count_items_serial k level (record c { support = sup })

-- What a miner takes from it.
abbrev pub miner_view : TsCounter → Counter
miner_view c = record {
  frequent = c.frequent;
  count = c.count;
  num_items = c.num_items;
  num_transactions = c.num_transactions;
  support = c.support;
  f_item = c.f_item;
  pairs = c.f2.adjacency;
}

-- `discover ()` of src/bitdrill/Miner.cxx without a given counter, for an absolute support.
unfoldable pub discover_anew :
    Kdci → ℕ → List (Option (List ℕ)) → Bool → ℕ → Option (Option (List Pattern))
unfolding count_items_absolute discover_file
discover_anew k support reads write_output max_level = do
  c ← count_items_absolute k support 2 new_counter
  discover_file (miner_view c) reads write_output max_level
