-- ===== src/VerticalDb/LostRuns.antt =====
-- A run of src/bitdrill/Vertical_DB.cxx that loses transactions, over three reads and three items.
use bitdrill.Base.{
  ℕ, zero, suc, ◌<◌, ◌≡◌, refl, true, false, Option, some, none, List, [], ◌∷◌, arith,
}
use bitdrill.TidVector.Laws.{has}
use bitdrill.TidList.{TidList, bitvector, tidvector}
use bitdrill.VerticalDb.{VerticalDb, item, frequency}
use bitdrill.VerticalDb.Laws.{Entry}
use bitdrill.VerticalDb.Building.{contains, IsCounted, IsVertical}
use bitdrill.VerticalDb.Lost.{frequency-Lost}

abbrev items : List ℕ
items = 0 ∷ 1 ∷ 2 ∷ []

-- Two of the three transactions have all the items.
abbrev three_reads : List (Option (List ℕ))
three_reads = some (0 ∷ 1 ∷ 2 ∷ []) ∷ some (2 ∷ []) ∷ some (0 ∷ 1 ∷ 2 ∷ []) ∷ []

abbrev identifiers : TidList
identifiers = record {
  implementation = tidvector;
  bits = record { num_bits = 0; start_offset = 0; end_offset = 0; vec = [] };
  tids = 0 ∷ 2 ∷ [];
}

abbrev all_three : TidList
all_three = record {
  implementation = bitvector;
  bits = record { num_bits = 3; start_offset = 0; end_offset = 3; vec = 0b111 ∷ [] };
  tids = [];
}

abbrev mixed_db : VerticalDb
mixed_db = record {
  frequent = 2 ∷ 0 ∷ 1 ∷ [];
  count = 2 ∷ 2 ∷ 3 ∷ [];
  tidlists = all_three ∷ identifiers ∷ identifiers ∷ [];
  num_txn = 3;
  map_freq_item = 2 ∷ 0 ∷ 1 ∷ [];
  map_item_freq = some 1 ∷ some 2 ∷ some 0 ∷ [];
}

three_cases : (P : ℕ → Type 0) → P 0 → P 1 → P 2 → (t : ℕ) → t < 3 → P t
three_cases P a b c zero h = a
three_cases P a b c (suc zero) h = b
three_cases P a b c (suc (suc zero)) h = c
three_cases P a b c (suc (suc (suc t))) h = absurd (omega arith)

mixed_lists : (i : ℕ) → has items i ≡ true → Entry 3 (contains three_reads i) (item mixed_db i)
unfolding item
mixed_lists zero found = record {
  out = identifiers;
  reads = refl;
  tells = (((omega arith), (omega arith), refl), three_cases _ refl refl refl);
}
mixed_lists (suc zero) found = record {
  out = identifiers;
  reads = refl;
  tells = (((omega arith), (omega arith), refl), three_cases _ refl refl refl);
}
mixed_lists (suc (suc zero)) found = record {
  out = all_three;
  reads = refl;
  tells = (
    (record { starts = refl; ends = refl; size = refl; words = omega arith }, refl, refl),
    three_cases _ refl refl refl,
  );
}
mixed_lists (suc (suc (suc i))) found = absurd (ground (arith, found))

mixed_counts : (i : ℕ) → has items i ≡ true → IsCounted (2 ∷ 2 ∷ 3 ∷ []) i
mixed_counts zero found = record { expected = 2; reads = refl; positive = omega arith }
mixed_counts (suc zero) found = record { expected = 2; reads = refl; positive = omega arith }
mixed_counts (suc (suc zero)) found = record { expected = 3; reads = refl; positive = omega arith }
mixed_counts (suc (suc (suc i))) found = absurd (ground (arith, found))

mixed_others : (i : ℕ) → has items i ≡ false → item mixed_db i ≡ none
unfolding item
mixed_others zero missing = absurd (ground (arith, missing))
mixed_others (suc zero) missing = absurd (ground (arith, missing))
mixed_others (suc (suc zero)) missing = absurd (ground (arith, missing))
mixed_others (suc (suc (suc i))) missing = refl

mixed_db-IsVertical : IsVertical 3 items (contains three_reads) mixed_db
mixed_db-IsVertical = record {
  size = refl;
  counted = mixed_counts;
  lists = mixed_lists;
  others = mixed_others;
}

frequency-Lost_example : frequency mixed_db (0 ∷ 1 ∷ 2 ∷ []) ≡ some 0
unfolding item
frequency-Lost_example =
    frequency-Lost 3 items (contains three_reads) mixed_db 0 1 2 identifiers all_three
      mixed_db-IsVertical refl refl refl refl refl refl
