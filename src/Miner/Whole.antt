-- ===== src/Miner/Whole.antt =====
-- `discover ()` of src/bitdrill/Miner.cxx, where the miner is given a counter: the vertical database
-- is built from the counter's results, and the frequent items, the frequent pairs and what the
-- levels find are written to a file. A line of the file is kept as a pattern; the first line, with
-- the number of transactions, has no item. `none` for the file is no output.
pub mod Pairs
use bitdrill.Base.{
  ℕ, zero, suc, ◌+◌, Bool, true, false, not, ◌&&◌, Option, some, none, List, [], ◌∷◌, ◌++◌,
}
use bitdrill.Base.{length, replicate, get_elem?, if◌then◌else◌, ltb, leb, ◌==◌, ◌>>=◌}
use bitdrill.Trie.{Trie, def_node, empty, insert, check_supports}
use bitdrill.TidList
use bitdrill.TidList.{TidList}
use bitdrill.VerticalDb.{VerticalDb, build, greater_freq, item}
use bitdrill.VerticalDb.Reorder.{reorder}
use bitdrill.Graph.{Edge}
use bitdrill.PatternSet.{Pattern}
use bitdrill.Walk.{ref, new_candidate_walk, for_candidates}
use bitdrill.TidlistWalk.{TidlistWalk, new_tidlist_walk, tidlist_of, for_walk}
use bitdrill.Miner.{merge_into, walk_rounds}

-- What the miner takes from a `TS_Counter`: F2 is the list of the edges of each vertex.
pub record Counter : Type 0 where
  pub frequent : List ℕ
  pub count : List ℕ
  pub num_items : ℕ
  pub num_transactions : ℕ
  pub support : ℕ
  pub f_item : List ℕ
  pub pairs : List (List Edge)

unfoldable pub write_pattern : Option (List Pattern) → List ℕ → ℕ → Option (List Pattern)
write_pattern none itemset frequency = none
write_pattern (some lines) itemset frequency =
    some (lines ++ record { itemset = itemset; count = frequency } ∷ [])

-- The loop that writes the frequent items, in the order of their ranks.
pub write_items : List ℕ → List ℕ → Option (List Pattern) → Option (Option (List Pattern))
unfolding write_pattern
write_items count items none = some none
write_items count [] (some lines) = some (some lines)
write_items count (i ∷ items) (some lines) = do
  c ← get_elem? count i
  write_items count items (write_pattern (some lines) (i ∷ []) c)

pub record Buffers : Type 0 where
  pub freq_next : Trie
  pub candidate_itemset : List ℕ
  pub pattern_out : Option (List Pattern)

-- The loop over the edges of the vertex u: a pair is taken at its smaller end.
pub insert_edges :
    VerticalDb
    → List ℕ
    → ℕ
    → List Edge
    → Trie
    → Option (List Pattern)
    → Option (Trie × Option (List Pattern))
unfolding reorder insert write_pattern
insert_edges db f_item u [] freq pattern_out = some (freq, pattern_out)
insert_edges db f_item u (e ∷ edges) freq pattern_out = elim (ltb u e.neighbor) [
  | false ↦ insert_edges db f_item u edges freq pattern_out
  | true ↦ do
    a ← get_elem? f_item u
    b ← get_elem? f_item e.neighbor
    x ← reorder db (a ∷ b ∷ [])
    insert_edges db f_item u edges (insert x freq) (write_pattern pattern_out x e.weight)
]

-- The loop over the vertices from u on.
pub insert_pairs :
    VerticalDb
    → List ℕ
    → ℕ
    → List (List Edge)
    → Trie
    → Option (List Pattern)
    → Option (Trie × Option (List Pattern))
unfolding insert_edges
insert_pairs db f_item u [] freq pattern_out = some (freq, pattern_out)
insert_pairs db f_item u (edges ∷ pairs) freq pattern_out = do
  step ← insert_edges db f_item u edges freq pattern_out
  insert_pairs db f_item (u + 1) pairs step.0 step.1

-- The body of the loop over the candidates.
unfoldable pub consider_and_write :
    VerticalDb → ℕ → Trie → TidList → List ℕ → ℕ → Buffers → Option Buffers
unfolding merge_into check_supports item insert write_pattern TidList.count_intersection
consider_and_write db support freq intersection itemset diff s = do
  candidate ← merge_into (greater_freq db.count) itemset diff s.candidate_itemset
  supported ← check_supports candidate freq
  let skipped : Option Buffers = some (record s { candidate_itemset = candidate })
  let counted : Option Buffers = do
    tl ← item db diff
    frequency ← TidList.count_intersection intersection tl support
    some (
        if leb support frequency
        then record {
          freq_next = insert candidate s.freq_next;
          candidate_itemset = candidate;
          pattern_out = write_pattern s.pattern_out candidate frequency;
        }
        else record s { candidate_itemset = candidate })
  if supported then counted else skipped

unfoldable pub extend_and_write : VerticalDb → ℕ → Trie → TidlistWalk → Buffers → Option Buffers
unfolding consider_and_write tidlist_of new_candidate_walk for_candidates
extend_and_write db support freq walk s = do
  intersection ← tidlist_of walk
  cand_walk ← new_candidate_walk walk.walk
  for_candidates (consider_and_write db support freq intersection (ref walk.walk)) cand_walk s

-- The level of the itemsets of size k.
unfoldable pub write_level : VerticalDb → ℕ → ℕ → Trie → Option (List Pattern) → Option Buffers
unfolding extend_and_write new_tidlist_walk for_walk
write_level db support k freq pattern_out = do
  walk ← new_tidlist_walk freq db k
  for_walk (walk_rounds freq) db (extend_and_write db support freq) (walk_rounds freq) walk
      (record {
        freq_next = def_node;
        candidate_itemset = replicate k 0;
        pattern_out = pattern_out;
      })

-- The loop over the levels.
unfoldable pub write_levels :
    ℕ → VerticalDb → ℕ → ℕ → ℕ → Trie → Option (List Pattern) → Option (Option (List Pattern))
unfolding write_level empty
write_levels zero db support max_level k freq pattern_out = none
write_levels (suc fuel) db support max_level k freq pattern_out = elim (empty freq) [
  | true ↦ some pattern_out
  | false ↦ elim (not (max_level == 0) && ltb max_level k) [
    | true ↦ some pattern_out
    | false ↦ do
      s ← write_level db support k freq pattern_out
      write_levels fuel db support max_level (k + 1) s.freq_next s.pattern_out
  ]
]

-- `reads` is what the scanner of the transactions gives. The result is the file.
unfoldable pub discover_file :
    Counter → List (Option (List ℕ)) → Bool → ℕ → Option (Option (List Pattern))
unfolding build write_items insert_pairs write_levels
discover_file counter reads write_output max_level = do
  db ← build counter.frequent counter.count counter.num_items counter.num_transactions reads
  let header : List Pattern = record { itemset = []; count = counter.num_transactions } ∷ []
  items ← write_items counter.count db.map_freq_item (if write_output then some header else none)
  let mined : Option (Option (List Pattern)) = do
    pairs ← insert_pairs db counter.f_item 0 counter.pairs def_node items
    write_levels (2 + length db.frequent) db counter.support max_level 3 pairs.0 pairs.1
  if not (max_level == 0) && ltb max_level 2 then some items else mined
