-- ===== src/Miner/FileRuns.antt =====
-- Runs of `discover ()` of src/bitdrill/Miner.cxx on four reads of which one gives no transaction.
use bitdrill.Base.{ℕ, zero, suc, ◌≡◌, refl, arith, inl}
use bitdrill.Base.{true, some, List, [], ◌∷◌, Any, leb, get_elem?}
use bitdrill.Base.Count.{count_below}
use bitdrill.TidVector.Laws.{has}
use bitdrill.VerticalDb.{greater_freq}
use bitdrill.VerticalDb.Building.{contains}
use bitdrill.VerticalDb.Runs.{counts, frequent_items, four_reads}
use bitdrill.PatternSet.{Pattern}
use bitdrill.TidlistWalk.Loop.{Ends}
use bitdrill.Miner.Frequent.{IsFrequent}
use bitdrill.Miner.Inserted.{AreGiven}
use bitdrill.Miner.Whole.{Counter, discover_file}
use bitdrill.Miner.Discovered.{IsCounterOf, AreAllFrequent}
use bitdrill.Miner.AllFound.{HasLines, discover_file-AreAllFrequent}

-- Items 0 and 2 are the vertices 0 and 1, with one edge.
abbrev small_counter : Counter
small_counter = record {
  frequent = frequent_items;
  count = counts;
  num_items = 8;
  num_transactions = 4;
  support = 2;
  f_item = frequent_items;
  pairs =
      (record { neighbor = 1; weight = 2 } ∷ []) ∷ (record { neighbor = 0; weight = 2 } ∷ []) ∷ [];
}

abbrev IsPair : List ℕ → Type 0
IsPair = IsFrequent 4 frequent_items (contains four_reads) counts 2 2

abbrev pair_row : List Pattern
pair_row = record { itemset = 0 ∷ 2 ∷ []; count = 2 } ∷ []

the_pair : (x y : ℕ) → IsPair (x ∷ y ∷ []) → (i : ℕ) → has (0 ∷ 2 ∷ []) i ≡ has (x ∷ y ∷ []) i
unfolding greater_freq
the_pair zero zero h i = absurd (ground (arith, h.in_order.0.0))
the_pair zero (suc zero) h i = absurd (ground (arith, h.known.1.0))
the_pair zero (suc (suc zero)) h i = refl
the_pair zero (suc (suc (suc y))) h i = absurd (ground (arith, h.known.1.0))
the_pair (suc zero) y h i = absurd (ground (arith, h.known.0))
the_pair (suc (suc zero)) zero h i = ground arith
the_pair (suc (suc zero)) (suc zero) h i = absurd (ground (arith, h.known.1.0))
the_pair (suc (suc zero)) (suc (suc zero)) h i = absurd (ground (arith, h.in_order.0.0))
the_pair (suc (suc zero)) (suc (suc (suc y))) h i = absurd (ground (arith, h.known.1.0))
the_pair (suc (suc (suc x))) y h i = absurd (ground (arith, h.known.0))

pair_row-AreGiven : AreGiven 4 frequent_items (contains four_reads) counts 2 2 pair_row
pair_row-AreGiven = record {
  sound = (
    record {
      of_size = refl;
      distinct = (refl, (refl, tt));
      known = (refl, (refl, tt));
      enough = omega arith;
    },
    tt,
  );
  complete = given;
}
  where
    given :
        (itemset : List ℕ)
        → IsPair itemset
        → Any (λ p. (i : ℕ) → has p.itemset i ≡ has itemset i) pair_row
    given [] h = absurd (omega (arith, h.of_size))
    given (x ∷ []) h = absurd (omega (arith, h.of_size))
    given (x ∷ y ∷ []) h = inl (the_pair x y h)
    given (x ∷ y ∷ z ∷ rest) h = absurd (omega (arith, h.of_size))

enough_reads : (i : ℕ) → has frequent_items i ≡ leb 2 (count_below 4 (contains four_reads i))
enough_reads zero = refl
enough_reads (suc zero) = refl
enough_reads (suc (suc zero)) = refl
enough_reads (suc (suc (suc i))) = ground arith

exact_counts :
    (i : ℕ)
    → has frequent_items i ≡ true
    → get_elem? counts i ≡ some (count_below 4 (contains four_reads i))
exact_counts zero h = refl
exact_counts (suc zero) h = absurd (ground (arith, h))
exact_counts (suc (suc zero)) h = refl
exact_counts (suc (suc (suc i))) h = absurd (ground (arith, h))

small_counter-IsCounterOf : IsCounterOf four_reads small_counter
small_counter-IsCounterOf = record {
  room = omega arith;
  positive = omega arith;
  distinct = (refl, (refl, tt));
  frequent = enough_reads;
  counts = exact_counts;
  items = λ i h. ground (arith, h);
  vertices = omega arith;
  ends = ((omega arith, tt), ((omega arith, tt), tt));
  pairs = pair_row-AreGiven;
  weights = (refl, tt);
}

discover_file-AreAllFrequent_example :
    Ends
      (HasLines small_counter (AreAllFrequent 4 (contains four_reads) counts 2 0))
      (discover_file small_counter four_reads true 0)
discover_file-AreAllFrequent_example =
    discover_file-AreAllFrequent small_counter four_reads 0 small_counter-IsCounterOf
      ((refl, (refl, tt)), ((refl, (refl, tt)), ((refl, (refl, (refl, tt))), tt))) (omega arith)
