-- ===== src/Miner/LevelRuns.antt =====
-- Runs of the level-wise search of src/bitdrill/Miner.cxx on the database of four reads.
use bitdrill.Base.{ℕ, zero, suc, ◌≡◌, refl, arith, inr}
use bitdrill.Base.{true, false, some, List, [], ◌∷◌, ◌>>=◌, inl, Any}
use bitdrill.Trie.{Trie, node, nil, arc, def_node, query, empty}
use bitdrill.PatternSet.{Pattern, PatternSet}
use bitdrill.VerticalDb.{build}
use bitdrill.VerticalDb.Building.{contains}
use bitdrill.VerticalDb.Runs.{
  counts, frequent_items, four_reads, small_db, small_db-IsVertical, below_three,
  frequent-IsCounted,
}
use bitdrill.TidlistWalk.Loop.{Ends}
use bitdrill.TidlistWalk.Cache.{HasFirst}
use bitdrill.Miner.{insert_patterns}
use bitdrill.Miner.Levels.{mine_level, mine_levels, discover}
use bitdrill.Miner.Whole.{write_levels}
use bitdrill.Miner.Frequent.{IsFrequent}
use bitdrill.Miner.Considered.{IsLevelOf}
use bitdrill.Miner.Inserted.{AreGiven}
use bitdrill.TidVector.Laws.{has}
use bitdrill.Miner.LevelLaws.{IsMinedLevel, mine_level-IsMinedLevel}
use bitdrill.Miner.LevelsLaws.{IsFound, discover-IsFound}
use bitdrill.Miner.Mining.{discover-build}
use bitdrill.Miner.Written.{write_levels-mine_levels}

abbrev pub leaf : Trie
leaf = node true nil

-- The two single items.
abbrev pub singles : Trie
singles = node false (arc 2 leaf (arc 0 leaf nil))

abbrev pub row : List Pattern
row = record { itemset = 0 ∷ []; count = 2 } ∷ record { itemset = 2 ∷ []; count = 3 } ∷ []

abbrev pub single_patterns : PatternSet
single_patterns = record { patterns = row; max_length = 1; bysize = [] ∷ row ∷ [] }

abbrev IsSingle : List ℕ → Type 0
IsSingle = IsFrequent 4 frequent_items (contains four_reads) counts 2 1

first-IsSingle : IsSingle (0 ∷ [])
first-IsSingle = record {
  of_size = refl;
  known = (refl, tt);
  in_order = (tt, tt);
  enough = omega arith;
}

second-IsSingle : IsSingle (2 ∷ [])
second-IsSingle = record {
  of_size = refl;
  known = (refl, tt);
  in_order = (tt, tt);
  enough = omega arith;
}

singles_sound : (itemset : List ℕ) → query itemset singles ≡ true → IsSingle itemset
unfolding query
singles_sound [] h = absurd (ground (arith, h))
singles_sound (zero ∷ []) h = first-IsSingle
singles_sound (suc zero ∷ []) h = absurd (ground (arith, h))
singles_sound (suc (suc zero) ∷ []) h = second-IsSingle
singles_sound (suc (suc (suc x)) ∷ []) h = absurd (ground (arith, h))
singles_sound (zero ∷ y ∷ ys) h = absurd (ground (arith, h))
singles_sound (suc zero ∷ y ∷ ys) h = absurd (ground (arith, h))
singles_sound (suc (suc zero) ∷ y ∷ ys) h = absurd (ground (arith, h))
singles_sound (suc (suc (suc x)) ∷ y ∷ ys) h = absurd (ground (arith, h))

singles_complete : (itemset : List ℕ) → IsSingle itemset → query itemset singles ≡ true
unfolding query
singles_complete [] h = absurd (omega (arith, h.of_size))
singles_complete (zero ∷ []) h = refl
singles_complete (suc zero ∷ []) h = absurd (ground (arith, h.known.0))
singles_complete (suc (suc zero) ∷ []) h = refl
singles_complete (suc (suc (suc x)) ∷ []) h = absurd (ground (arith, h.known.0))
singles_complete (x ∷ y ∷ ys) h = absurd (omega (arith, h.of_size))

pub singles-IsLevelOf : IsLevelOf 4 frequent_items (contains four_reads) counts 2 1 singles
unfolding query
singles-IsLevelOf = record {
  level = (refl, (refl, refl, (refl, refl, tt)));
  distinct = (tt, refl, (tt, refl, tt));
  sound = singles_sound;
  complete = singles_complete;
  no_dead_ends = inr (0 ∷ [], refl);
}

pub small_db-HasFirst : HasFirst frequent_items small_db
small_db-HasFirst = record { first = 2; reads = refl; known = refl }

pub singles_made : insert_patterns small_db row def_node ≡ some singles
unfolding insert_patterns
singles_made = refl

row-AreGiven : AreGiven 4 frequent_items (contains four_reads) counts 2 1 row
row-AreGiven = record {
  sound = (
    record { of_size = refl; distinct = (refl, tt); known = (refl, tt); enough = omega arith },
    (
      record { of_size = refl; distinct = (refl, tt); known = (refl, tt); enough = omega arith },
      tt,
    ),
  );
  complete = given;
}
  where
    given :
        (itemset : List ℕ)
        → IsSingle itemset
        → Any (λ p. (i : ℕ) → has p.itemset i ≡ has itemset i) row
    given [] h = absurd (omega (arith, h.of_size))
    given (zero ∷ []) h = inl (λ i. refl)
    given (suc zero ∷ []) h = absurd (ground (arith, h.known.0))
    given (suc (suc zero) ∷ []) h = inr (inl (λ i. refl))
    given (suc (suc (suc x)) ∷ []) h = absurd (ground (arith, h.known.0))
    given (x ∷ y ∷ ys) h = absurd (omega (arith, h.of_size))

discover-IsFound_example :
    Ends
      (IsFound 4 frequent_items (contains four_reads) counts 2 2 0 [])
      (discover small_db 2 single_patterns [] 0)
discover-IsFound_example =
    discover-IsFound 4 frequent_items (contains four_reads) small_db small_db-IsVertical
      small_db-HasFirst 2 0 (omega arith) 0 single_patterns row [] refl refl row-AreGiven
      (omega arith)

mine_level-IsMinedLevel_example :
    Ends
      (IsMinedLevel 4 frequent_items (contains four_reads) counts 2 2 [])
      (mine_level small_db 2 2 singles [])
mine_level-IsMinedLevel_example =
    mine_level-IsMinedLevel 4 frequent_items (contains four_reads) small_db small_db-IsVertical
      small_db-HasFirst 2 0 (omega arith) [] singles (unfold empty in refl) singles-IsLevelOf

write_levels-mine_levels_example :
    write_levels 4 small_db 2 0 2 singles (some row)
    ≡ (mine_levels 4 small_db 2 0 2 singles row >>= λ lines. some (some lines))
write_levels-mine_levels_example = write_levels-mine_levels 4 small_db 2 0 2 singles row

discover-build_example :
    Ends
      (IsFound 4 frequent_items (contains four_reads) counts 2 2 0 [])
      (build frequent_items counts 3 4 four_reads >>= λ db. discover db 2 single_patterns [] 0)
discover-build_example =
    discover-build frequent_items counts 3 4 four_reads (refl, (refl, tt)) below_three
      frequent-IsCounted
      ((refl, (refl, tt)), ((refl, (refl, tt)), ((refl, (refl, (refl, tt))), tt))) (omega arith)
      (omega arith) 2 0 0 (omega arith) single_patterns row [] refl refl row-AreGiven
