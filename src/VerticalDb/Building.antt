-- ===== src/VerticalDb/Building.antt =====
-- The constructor of src/bitdrill/Vertical_DB.cxx as a whole: a database of the transactions read.
use bitdrill.Base.{ℕ, zero, suc, ◌+◌, ◌<◌, ◌≤◌, ◌≡◌, refl, ap, ◌∙◌, sym, arith}
use bitdrill.Base.{
  Bool, true, false, Option, some, none, List, [], ◌∷◌, length, length-replicate, All, get_elem?,
  replicate, ◌>>=◌, Option-cases, inl, inr,
}
use bitdrill.TidVector.Laws.{has}
use bitdrill.TidList
use bitdrill.TidList.{TidList, bitvector}
use bitdrill.TidList.Building.{reset-Holds}
use bitdrill.VerticalDb.{VerticalDb, greater_freq, sort_by, reset_lists, build, item, item_to_freq}
use bitdrill.VerticalDb.Ranks.{
  length-sort_by, index_of, index_of-none, index_of-some, NoRepeats, ranked, make_map-IsMap,
  has-sort_by, sort_by-NoRepeats,
}
use bitdrill.VerticalDb.Laws.{Listed, Listed-Agree, Entry, Listed→Entry}
use bitdrill.VerticalDb.Filling.{Ranks, Filled, AllOnce, occurs, scan-Filled}

-- Whether transaction t has item x: the t-th read gave a transaction with that item.
abbrev pub contains : List (Option (List ℕ)) → ℕ → ℕ → Bool
contains [] x t = false
contains (none ∷ reads) x zero = false
contains (some txn ∷ reads) x zero = has txn x
contains (read ∷ reads) x (suc t) = contains reads x t

occurs-before :
    (txn_id : ℕ) (reads : List (Option (List ℕ))) (x t : ℕ)
    → t < txn_id
    → occurs txn_id reads x t ≡ false
occurs-before txn_id [] x t h = refl
occurs-before txn_id (none ∷ reads) x t h = occurs-before (txn_id + 1) reads x t (omega arith)
occurs-before txn_id (some txn ∷ reads) x t h =
    let later = occurs-before (txn_id + 1) reads x t (omega arith) in ground (arith, later, h)

occurs-contains :
    (txn_id : ℕ) (reads : List (Option (List ℕ))) (x t : ℕ)
    → occurs txn_id reads x (txn_id + t) ≡ contains reads x t
occurs-contains txn_id [] x t = refl
occurs-contains txn_id (none ∷ reads) x zero =
    occurs-before (txn_id + 1) reads x (txn_id + 0) (omega arith)
occurs-contains txn_id (some txn ∷ reads) x zero =
    let later = occurs-before (txn_id + 1) reads x (txn_id + 0) (omega arith) in
    ground (arith, later)
occurs-contains txn_id (none ∷ reads) x (suc t) =
    let ih = occurs-contains (txn_id + 1) reads x t in
    let same : txn_id + suc t ≡ txn_id + 1 + t = omega arith in
    ap (occurs (txn_id + 1) reads x) same ∙ ih
occurs-contains txn_id (some txn ∷ reads) x (suc t) =
    let ih = occurs-contains (txn_id + 1) reads x t in
    let same : txn_id + suc t ≡ txn_id + 1 + t = omega arith in
    let later = ap (occurs (txn_id + 1) reads x) same ∙ ih in ground (arith, later)

-- An item has a count, which is positive.
pub record IsCounted (count : List ℕ) (i : ℕ) : Type 0 where
  pub expected : ℕ
  pub reads : get_elem? count i ≡ some expected
  pub positive : 0 < expected

-- A database over n transactions of the items `f`, whose list of an item holds what `view` says.
pub record IsVertical (n : ℕ) (f : List ℕ) (view : ℕ → ℕ → Bool) (db : VerticalDb) : Type 0 where
  pub size : db.num_txn ≡ n
  pub counted : (i : ℕ) → has f i ≡ true → IsCounted db.count i
  pub lists : (i : ℕ) → has f i ≡ true → Entry n (view i) (item db i)
  pub others : (i : ℕ) → has f i ≡ false → item db i ≡ none

pub record Built (n : ℕ) (f count : List ℕ) (view : ℕ → ℕ → Bool) (result : Option VerticalDb)
    : Type 0 where
  pub out : VerticalDb
  pub returns : result ≡ some out
  pub valid : IsVertical n f view out
  pub items : (out.map_freq_item ≡ out.frequent) × ((i : ℕ) → has out.frequent i ≡ has f i)
  pub sized : length out.frequent ≡ length f
  pub counts : out.count ≡ count

pub All-has : (P : ℕ → Type 0) (items : List ℕ) → ((i : ℕ) → has items i ≡ true → P i) → All P items
All-has P [] h = tt
All-has P (x ∷ items) h =
    (h x (ground arith), All-has P items (λ i found. h i (ground (arith, found))))

reset_lists-Filled :
    (n : ℕ) (count : List ℕ) (items : List ℕ)
    → All (IsCounted count) items
    → Filled n (λ x t. false) items (reset_lists n count items)
unfolding reset_lists
reset_lists-Filled n count [] h = record { out = []; returns = refl; lists = tt }
reset_lists-Filled n count (x ∷ items) h =
    let rest = reset_lists-Filled n count items h.1 in
    let first = (reset-Holds n h.0.expected (TidList.new_tid_list bitvector) h.0.positive).0 in
    record {
      out = first.out ∷ rest.out;
      returns = rw (h.0.reads, first.returns, rest.returns) refl;
      lists = ((first.valid, first.tells), rest.lists);
    }

no_ranks : (k i : ℕ) → (get_elem? (replicate k none) i >>= λ (rank : Option ℕ). rank) ≡ none
no_ranks zero i = refl
no_ranks (suc k) zero = refl
no_ranks (suc k) (suc i) = no_ranks k i

map-Ranks :
    (k : ℕ) (items : List ℕ) (ranks : List (Option ℕ))
    → ((i : ℕ) → get_elem? ranks i ≡ ranked 0 (index_of i items) (get_elem? (replicate k none) i))
    → Ranks ranks items
map-Ranks k items ranks reads i =
    ap (λ o. o >>= λ (rank : Option ℕ). rank) (reads i) ∙ elim (Option-cases (index_of i items)) [
      | inl missing ↦ rw (missing, ranked) (no_ranks k i)
      | inr (r, found) ↦ rw (found, ranked) (ap some (omega arith))
    ]

item-rank :
    (db : VerticalDb) (items : List ℕ) (i : ℕ)
    → Ranks db.map_item_freq items
    → item db i ≡ (index_of i items >>= λ r. get_elem? db.tidlists r)
unfolding item item_to_freq
item-rank db items i m = ap (λ o. o >>= λ r. get_elem? db.tidlists r) (m i)

-- What the maps and the lists have to be for a database to be vertical.
Listed-IsVertical :
    (n : ℕ) (f : List ℕ) (view : ℕ → ℕ → Bool) (db : VerticalDb) (items : List ℕ)
    → ((i : ℕ) → has items i ≡ has f i)
    → db.num_txn ≡ n
    → ((i : ℕ) → has f i ≡ true → IsCounted db.count i)
    → Ranks db.map_item_freq items
    → Listed n view items db.tidlists
    → IsVertical n f view db
Listed-IsVertical n f view db items same size counted ranks lists = record {
  size = size;
  counted = counted;
  lists = λ i found.
      let rank = index_of-some i items (same i ∙ found) in
      let entry = Listed→Entry n view items db.tidlists i lists rank.1 in
      record {
        out = entry.out;
        reads = item-rank db items i ranks ∙ rw rank.1 entry.reads;
        tells = entry.tells;
      };
  others =
      λ i missing. item-rank db items i ranks ∙ rw (index_of-none i items (same i ∙ missing)) refl;
}

-- For distinct frequent items with positive counts, and reads that are at most n and have no item
-- twice in a transaction, the constructor comes back with a database over n transactions that
-- keeps a valid list for each frequent item, of exactly the transactions that have the item, and
-- no list for any other item. It keeps the counts given, and as many frequent items as were
-- given, the same ones, in the order of their ranks.
pub build-IsVertical :
    (f count : List ℕ) (num_items n : ℕ) (reads : List (Option (List ℕ)))
    → NoRepeats f
    → ((i : ℕ) → has f i ≡ true → i < num_items)
    → ((i : ℕ) → has f i ≡ true → IsCounted count i)
    → AllOnce reads
    → length reads ≤ n
    → Built n f count (contains reads) (build f count num_items n reads)
unfolding build
build-IsVertical f count num_items n reads d below counted once le =
    let sorted = sort_by (greater_freq count) f in
    let kept = has-sort_by (greater_freq count) f in
    let distinct = sort_by-NoRepeats (greater_freq count) f d in
    let wide = length-replicate {A = Option ℕ} num_items none in
    let map =
      make_map-IsMap 0 sorted (replicate num_items none) distinct
        (All-has _ sorted (λ i found. rw wide (below i (sym (kept i) ∙ found)))) in
    let ranks = map-Ranks num_items sorted map.out map.reads in
    let fresh =
      reset_lists-Filled n count sorted
        (All-has _ sorted (λ i found. counted i (sym (kept i) ∙ found))) in
    let filled =
      scan-Filled n sorted distinct map.out ranks (λ x t. false) 0 reads fresh.out once fresh.lists
        (omega arith) (λ i t hit. absurd cc) in
    let lists =
      Listed-Agree n _ (contains reads) sorted filled.out
        (λ x found t. ap (occurs 0 reads x) (omega arith) ∙ occurs-contains 0 reads x t)
        filled.lists in
    let db : VerticalDb = record {
      frequent = sorted;
      count = count;
      tidlists = filled.out;
      num_txn = n;
      map_freq_item = sorted;
      map_item_freq = map.out;
    } in
    record {
      out = db;
      returns = rw (map.returns, fresh.returns, filled.returns) refl;
      valid = Listed-IsVertical n f (contains reads) db sorted kept refl counted ranks lists;
      items = (refl, kept);
      sized = length-sort_by (greater_freq count) f;
      counts = refl;
    }
