-- ===== src/TidlistWalk/Runs.antt =====
-- Runs of `Walk_Tidlist` of src/bitdrill/Trie.hxx on the database of four reads.
use bitdrill.Base.{◌≡◌, refl, true, false, some, List, [], ◌∷◌, arith}
use bitdrill.Trie.{Trie, node, nil, arc}
use bitdrill.BitVector
use bitdrill.TidList
use bitdrill.TidList.{TidList}
use bitdrill.VerticalDb.Building.{contains}
use bitdrill.VerticalDb.Runs.{frequent_items, four_reads, small_db, small_db-IsVertical, list_of}
use bitdrill.Walk.{Walk, at_node, next}
use bitdrill.TidlistWalk.{new_tidlist_walk, tidlist_next}
use bitdrill.TidlistWalk.Follows.{with_cache, IsKept, NextFollows, next-NextFollows}

-- The itemsets 2 and 2 0.
abbrev chain : Trie
chain = node false (arc 2 (node true (arc 0 (node true nil) nil)) nil)

abbrev start : Walk
start = record { frames = at_node chain ∷ []; current = [] }

abbrev blank : List TidList
blank = list_of 0 ∷ list_of 0 ∷ []

start_run : new_tidlist_walk chain small_db 2 ≡ some (with_cache start blank)
unfolding new_tidlist_walk TidList.reset BitVector.resize
start_run = refl

start-IsKept : IsKept 4 frequent_items (contains four_reads) 2 start blank
start-IsKept = record {
  depth = 2;
  fits = ((refl, (refl, tt, tt), tt), tt);
  sums = refl;
  same_size = refl;
  holds = tt;
}

next-NextFollows_example :
    NextFollows 4 frequent_items
      (contains four_reads)
      2
      (next 9 start)
      (tidlist_next 9 small_db (with_cache start blank))
next-NextFollows_example =
    next-NextFollows 4 frequent_items (contains four_reads) small_db small_db-IsVertical
      (omega arith) 2 9 start blank start-IsKept
