-- ===== src/Counting/Runs.antt =====
-- Runs of src/2-items/Count.cxx on three transactions and a last read that fails.
use bitdrill.Base.{ℕ, zero, suc, ◌+◌, ◌-◌, ◌*◌, ◌/◌, ◌%◌, ◌^◌, ◌<◌, ◌≡◌, ◌≤◌, refl, arith}
use bitdrill.Base.{false, true, some, none, List, [], ◌∷◌, ◌++◌, leb}
use bitdrill.TidVector.Laws.{has}
use bitdrill.VerticalDb.Building.{contains}
use bitdrill.VerticalDb.Message.{reads_of}
use bitdrill.VerticalDb.Reorder.Moves.{at}
use bitdrill.Base.Count.{count_below-le}
use bitdrill.Counting.Candidates.{only_second_scan-second_scan}
use bitdrill.Counting.Table.{pair_place}
use bitdrill.Graph.{Graph, addu}
use bitdrill.Graph.Laws.{IsJoined, addu-IsJoined}
use bitdrill.UtMatrix.{new_matrix}
use bitdrill.TidlistWalk.Loop.{Ends}
use bitdrill.Miner.Discovered.{AreAllFrequent}
use bitdrill.Miner.AllFound.{HasLines}
use bitdrill.Counting.{
  Kdci, TsCounter, new_counter, miner_view, count_items_absolute, discover_anew, second_scan,
  only_second_scan,
}
use bitdrill.Counting.Items.{ids}
use bitdrill.Counting.Exact.{IsKdciOf, number}
use bitdrill.Counting.Counted.{discover_anew-AreAllFrequent}

abbrev three_baskets : List (List ℕ)
three_baskets = (0 ∷ 2 ∷ []) ∷ (2 ∷ 1 ∷ []) ∷ (7 ∷ 2 ∷ 0 ∷ []) ∷ []

-- The items by ascending count, the last two of which are candidates.
abbrev small_scans : Kdci
small_scans = record {
  m = 8;
  num_of_trans = 3;
  counts = (3, 0) ∷ (4, 0) ∷ (5, 0) ∷ (6, 0) ∷ (1, 1) ∷ (7, 1) ∷ (0, 2) ∷ (2, 3) ∷ [];
  max_support = 3;
  unmap = 0 ∷ 2 ∷ [];
  mapped = (0 ∷ 1 ∷ []) ∷ (1 ∷ []) ∷ (0 ∷ 1 ∷ []) ∷ [];
  position_init = λ x. x + (2 ^ 64 - x * (x + 1) / 2) - 1;
}

other_items :
    (i : ℕ) → has (ids small_scans.counts) i ≡ false → number small_scans three_baskets i ≡ 0
other_items zero h = absurd (ground (arith, h))
other_items (suc zero) h = absurd (ground (arith, h))
other_items (suc (suc zero)) h = absurd (ground (arith, h))
other_items (suc (suc (suc i))) h = ground (arith, h)

at_most_three :
    (i : ℕ) → 2 ≤ number small_scans three_baskets i → number small_scans three_baskets i ≤ 3
at_most_three i h = omega (arith, count_below-le 3 (contains (reads_of three_baskets) i))

the_candidates : (i : ℕ) → has (0 ∷ 2 ∷ []) i ≡ leb 2 (number small_scans three_baskets i)
the_candidates zero = refl
the_candidates (suc zero) = refl
the_candidates (suc (suc zero)) = refl
the_candidates (suc (suc (suc i))) = ground arith

first_mapped : (i : ℕ) → i < 2 → has (0 ∷ 1 ∷ []) i ≡ has (0 ∷ 2 ∷ []) (at (0 ∷ 2 ∷ []) i)
first_mapped zero h = refl
first_mapped (suc zero) h = refl
first_mapped (suc (suc i)) h = absurd (omega (arith, h))

second_mapped : (i : ℕ) → i < 2 → has (1 ∷ []) i ≡ has (2 ∷ 1 ∷ []) (at (0 ∷ 2 ∷ []) i)
second_mapped zero h = refl
second_mapped (suc zero) h = refl
second_mapped (suc (suc i)) h = absurd (omega (arith, h))

third_mapped : (i : ℕ) → i < 2 → has (0 ∷ 1 ∷ []) i ≡ has (7 ∷ 2 ∷ 0 ∷ []) (at (0 ∷ 2 ∷ []) i)
third_mapped zero h = refl
third_mapped (suc zero) h = refl
third_mapped (suc (suc i)) h = absurd (omega (arith, h))

the_position :
    (i j : ℕ) → i < j → j < 2 → (small_scans.position_init i + j) % 2 ^ 64 ≡ pair_place 2 i j
the_position zero zero h l = absurd (omega (arith, h))
the_position zero (suc zero) h l = refl
the_position (suc i) zero h l = absurd (omega (arith, h))
the_position (suc i) (suc zero) h l = absurd (omega (arith, h))
the_position i (suc (suc j)) h l = absurd (omega (arith, l))

small_scans-IsKdciOf : IsKdciOf three_baskets 2 small_scans
small_scans-IsKdciOf = record {
  full = (omega arith, (omega arith, (omega arith, tt)));
  transactions = refl;
  fits = omega arith;
  small = omega arith;
  below = omega arith;
  exact = (refl, (refl, (refl, (refl, (refl, (refl, (refl, (refl, tt))))))));
  others = other_items;
  largest = at_most_three;
  distinct = (refl, (refl, tt));
  inside = (omega arith, (omega arith, tt));
  candidates = the_candidates;
  mapped = (
    (omega arith, omega arith, first_mapped),
    ((omega arith, omega arith, second_mapped), ((omega arith, omega arith, third_mapped), tt)),
  );
  positions = the_position;
}

-- The read after the last transaction fails.
discover_anew-AreAllFrequent_example :
    (c : TsCounter) × (count_items_absolute small_scans 2 2 new_counter ≡ some c)
    × Ends
        (HasLines (miner_view c) (AreAllFrequent 3 (contains (reads_of three_baskets)) c.count 2 0))
        (discover_anew small_scans 2 (reads_of three_baskets ++ none ∷ []) true 0)
discover_anew-AreAllFrequent_example =
    discover_anew-AreAllFrequent three_baskets small_scans 2 1 0 2 small_scans-IsKdciOf
      (omega arith) (omega arith)
      ((refl, (refl, tt)), ((refl, (refl, tt)), ((refl, (refl, (refl, tt))), tt)))

no_more : (i : ℕ) → i < 2 → number small_scans three_baskets (at (0 ∷ 2 ∷ []) i) ≤ 3
no_more i h = count_below-le 3 (contains (reads_of three_baskets) (at (0 ∷ 2 ∷ []) i))

-- The frequent items 0 and 2 are in two transactions together.
only_second_scan-second_scan_example :
    only_second_scan small_scans (some 0 ∷ none ∷ some 1 ∷ []) (new_matrix 2)
    ≡ second_scan (some 0 ∷ none ∷ some 1 ∷ []) (0 ∷ 2 ∷ []) (2 ∷ []) (new_matrix 2)
only_second_scan-second_scan_example =
    only_second_scan-second_scan three_baskets small_scans the_position small_scans-IsKdciOf.mapped
      (omega arith) no_more (some 0 ∷ none ∷ some 1 ∷ []) (new_matrix 2)

abbrev one_edge : Graph
one_edge = record {
  weights = 4 ∷ 5 ∷ [];
  adjacency =
      (record { neighbor = 1; weight = 2 } ∷ []) ∷ (record { neighbor = 0; weight = 2 } ∷ []) ∷ [];
}

addu-IsJoined_example : IsJoined 0 1 3 one_edge (addu 0 1 3 one_edge)
addu-IsJoined_example = addu-IsJoined 0 1 3 one_edge (omega arith) (omega arith)
