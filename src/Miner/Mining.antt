-- ===== src/Miner/Mining.antt =====
-- The constructor of src/bitdrill/Vertical_DB.cxx and `discover` of src/bitdrill/Miner.cxx together, as
-- `discover ()` calls them.
use bitdrill.Base.{ℕ, suc, ◌+◌, ◌<◌, ◌≤◌, ◌≡◌, refl, ap, ◌∙◌, sym, arith}
use bitdrill.Base.{true, Option, some, List, [], ◌∷◌, length, get_elem?, ◌>>=◌}
use bitdrill.TidVector.Laws.{has}
use bitdrill.VerticalDb.{build}
use bitdrill.VerticalDb.Ranks.{NoRepeats}
use bitdrill.VerticalDb.Filling.{AllOnce}
use bitdrill.VerticalDb.Building.{contains, IsCounted, build-IsVertical}
use bitdrill.PatternSet.{Pattern, PatternSet}
use bitdrill.TidlistWalk.Loop.{Ends}
use bitdrill.TidlistWalk.Cache.{HasFirst}
use bitdrill.Miner.Levels.{discover}
use bitdrill.Miner.Inserted.{AreGiven}
use bitdrill.Miner.LevelsLaws.{IsFound, discover-IsFound}

pub first_known :
    (xs f : List ℕ)
    → ((i : ℕ) → has xs i ≡ has f i)
    → 0 < length xs
    → (x : ℕ) × (get_elem? xs 0 ≡ some x) × (has f x ≡ true)
first_known [] f same some_item = absurd (omega arith)
first_known (x ∷ xs) f same some_item = (x, refl, sym (same x) ∙ ground arith)

-- Let a database be made of distinct frequent items with positive counts, at least one, and of reads
-- that are at most n and have no item twice in a transaction, let n and `support` not both be 0, and
-- let the patterns of the largest size given, which is positive, be the itemsets of that size that at
-- least `support` of the transactions read have, and no others, each with its items in any order. Then
-- the constructor and `discover` in the database that it makes come back, and what is put out after
-- `out` are exactly the itemsets of the larger sizes, up to the largest level where one is given, that at
-- least `support` of the transactions read have, each with the number of the transactions that have it.
pub discover-build :
    (f count : List ℕ) (num_items n : ℕ) (reads : List (Option (List ℕ)))
    → NoRepeats f
    → ((i : ℕ) → has f i ≡ true → i < num_items)
    → ((i : ℕ) → has f i ≡ true → IsCounted count i)
    → AllOnce reads
    → length reads ≤ n
    → 0 < length f
    → (support max_level d : ℕ) → 0 < n + support
    → (s : PatternSet) (row out : List Pattern) → s.max_length ≡ suc d
    → get_elem? s.bysize s.max_length ≡ some row
    → AreGiven n f (contains reads) count support (suc d) row
    → Ends
        (IsFound n f (contains reads) count support (suc (suc d)) max_level out)
        (build f count num_items n reads >>= λ db. discover db support s out max_level)
discover-build f count num_items n reads distinct below counted once le some_item support max_level
      d some_left s row out size given frequent =
    let built = build-IsVertical f count num_items n reads distinct below counted once le in
    let first =
      first_known built.out.frequent f built.items.1 (omega (arith, built.sized, some_item)) in
    let has_first : HasFirst f built.out = record {
      first = first.0;
      reads = ap (λ (l : List ℕ). get_elem? l 0) built.items.0 ∙ first.1;
      known = first.2;
    } in
    let found =
      discover-IsFound n f (contains reads) built.out built.valid has_first support max_level
        some_left d s row out size given (rw built.counts frequent) (omega (arith, built.sized)) in
    rw built.returns (rw built.counts at found)
