-- ===== src/VerticalDb/Runs.antt =====
-- Runs of src/bitdrill/Vertical_DB.cxx on three reads over three items, one of them rare.
use bitdrill.Base.{
  ℕ, ◌<◌, ◌^◌, ◌≡◌, zero, suc, refl, true, false, Option, some, none, List, [], ◌∷◌, arith, inl,
}
use bitdrill.TidVector.Laws.{has}
use bitdrill.Base.{length, ◌>>=◌}
use bitdrill.TidList
use bitdrill.TidList.{TidList, bitvector, tidvector}
use bitdrill.VerticalDb.{
  VerticalDb, greater_freq, sort_by, make_map, reset_lists, build, item, frequency,
}
use bitdrill.TidList.Laws.{IsTidList}
use bitdrill.VerticalDb.Laws.{Entry}
use bitdrill.VerticalDb.Message.{frequency-encode}
use bitdrill.TransactionSet.{encode, buffer_reads}
use bitdrill.VerticalDb.Building.{contains, IsCounted, IsVertical, Built, build-IsVertical}
use bitdrill.VerticalDb.Frequency.{frequency-count_below}

abbrev pub counts : List ℕ
counts = 2 ∷ 0 ∷ 3 ∷ []

abbrev two_baskets : List (List ℕ)
two_baskets = (0 ∷ 2 ∷ []) ∷ (2 ∷ 1 ∷ []) ∷ []

abbrev pub frequent_items : List ℕ
frequent_items = 0 ∷ 2 ∷ []

-- The third read gives no transaction.
abbrev pub four_reads : List (Option (List ℕ))
four_reads = some (0 ∷ 2 ∷ []) ∷ some (2 ∷ 1 ∷ []) ∷ none ∷ some (7 ∷ 2 ∷ 0 ∷ []) ∷ []

sort_runs : sort_by (greater_freq counts) (0 ∷ 1 ∷ 2 ∷ []) ≡ 2 ∷ 0 ∷ 1 ∷ []
unfolding sort_by greater_freq
sort_runs = refl

map_runs : make_map 0 (2 ∷ 0 ∷ []) (none ∷ none ∷ none ∷ []) ≡ some (some 1 ∷ none ∷ some 0 ∷ [])
unfolding make_map
map_runs = refl

-- The lists of two items with a bit vector each.
lists_run :
    reset_lists 4 counts (2 ∷ 0 ∷ [])
    ≡ some (
        TidList.make_bitvector 4 (TidList.new_tid_list bitvector)
        ∷ TidList.make_bitvector 4 (TidList.new_tid_list bitvector)
        ∷ [])
unfolding reset_lists TidList.reset TidList.new_tid_list TidList.make_bitvector
lists_run = refl

four_cases : (P : ℕ → Type 0) → P 0 → P 1 → P 2 → P 3 → (t : ℕ) → t < 4 → P t
four_cases P a b c d zero h = a
four_cases P a b c d (suc zero) h = b
four_cases P a b c d (suc (suc zero)) h = c
four_cases P a b c d (suc (suc (suc zero))) h = d
four_cases P a b c d (suc (suc (suc (suc t)))) h = absurd (omega arith)

pub below_three : (i : ℕ) → has frequent_items i ≡ true → i < 3
below_three i found = ground (arith, found)

pub frequent-IsCounted : (i : ℕ) → has frequent_items i ≡ true → IsCounted counts i
frequent-IsCounted zero found = record { expected = 2; reads = refl; positive = omega arith }
frequent-IsCounted (suc zero) found = absurd (ground (arith, found))
frequent-IsCounted (suc (suc zero)) found = record {
  expected = 3;
  reads = refl;
  positive = omega arith;
}
frequent-IsCounted (suc (suc (suc i))) found = absurd (ground (arith, found))

build-IsVertical_example :
    Built 4 frequent_items counts (contains four_reads) (build frequent_items counts 3 4 four_reads)
build-IsVertical_example =
    build-IsVertical frequent_items counts 3 4 four_reads (refl, (refl, tt)) below_three
      frequent-IsCounted
      ((refl, (refl, tt)), ((refl, (refl, tt)), ((refl, (refl, (refl, tt))), tt))) (omega arith)

-- A list over four transactions, from the word of its bits.
abbrev pub list_of : ℕ → TidList
list_of word = record {
  implementation = bitvector;
  bits = record { num_bits = 4; start_offset = 0; end_offset = 4; vec = word ∷ [] };
  tids = [];
}

-- The database of the four reads.
abbrev pub small_db : VerticalDb
small_db = record {
  frequent = 2 ∷ 0 ∷ [];
  count = counts;
  tidlists = list_of 0b1011 ∷ list_of 0b1001 ∷ [];
  num_txn = 4;
  map_freq_item = 2 ∷ 0 ∷ [];
  map_item_freq = some 1 ∷ none ∷ some 0 ∷ [];
}

pub list_of-IsTidList : (word : ℕ) → word < 2 ^ 32 → IsTidList 4 (list_of word)
list_of-IsTidList word h =
    (record { starts = refl; ends = refl; size = refl; words = (h, tt) }, refl, refl)

small_lists :
    (i : ℕ) → has frequent_items i ≡ true → Entry 4 (contains four_reads i) (item small_db i)
unfolding item
small_lists zero found = record {
  out = list_of 0b1001;
  reads = refl;
  tells = (list_of-IsTidList 0b1001 (omega arith), four_cases _ refl refl refl refl);
}
small_lists (suc zero) found = absurd (ground (arith, found))
small_lists (suc (suc zero)) found = record {
  out = list_of 0b1011;
  reads = refl;
  tells = (list_of-IsTidList 0b1011 (omega arith), four_cases _ refl refl refl refl);
}
small_lists (suc (suc (suc i))) found = absurd (ground (arith, found))

small_others : (i : ℕ) → has frequent_items i ≡ false → item small_db i ≡ none
unfolding item
small_others zero missing = absurd (ground (arith, missing))
small_others (suc zero) missing = refl
small_others (suc (suc zero)) missing = absurd (ground (arith, missing))
small_others (suc (suc (suc i))) missing = refl

pub small_db-IsVertical : IsVertical 4 frequent_items (contains four_reads) small_db
small_db-IsVertical = record {
  size = refl;
  counted = frequent-IsCounted;
  lists = small_lists;
  others = small_others;
}

frequency-count_below_example : frequency small_db (2 ∷ 0 ∷ []) ≡ some 2
frequency-count_below_example =
    frequency-count_below 4 frequent_items (contains four_reads) small_db (2 ∷ 0 ∷ [])
      small_db-IsVertical (omega arith) (omega arith) (refl, (refl, tt)) (inl (omega arith))

-- The two transactions 0 2 and 2 1 in a message, and the items 0 and 2 counted in both.
frequency-encode_example :
    (buffer_reads (length (encode two_baskets [])) (encode two_baskets []) >>= λ reads.
    build frequent_items counts 3 4 reads >>= λ db. frequency db (2 ∷ 0 ∷ []))
    ≡ some 1
frequency-encode_example =
    frequency-encode frequent_items counts 3 4 two_baskets (2 ∷ 0 ∷ []) (refl, (refl, tt))
      below_three frequent-IsCounted ((refl, (refl, tt)), ((refl, (refl, tt)), tt)) (omega arith)
      (omega arith) (omega arith) (omega arith) (refl, (refl, tt))
