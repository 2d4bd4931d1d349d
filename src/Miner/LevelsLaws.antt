-- ===== src/Miner/LevelsLaws.antt =====
-- The level-wise search of src/bitdrill/Miner.cxx finds exactly the frequent itemsets, and ends.
use mathlib.Core.List.{append-nil, append_assoc}
use bitdrill.Base.{ℕ, zero, suc, ◌+◌, ◌≤◌, ◌<◌, ◌≡◌, refl, ap, ◌∙◌, sym, arith, ◌⊎◌, inl, inr}
use bitdrill.Base.{
  Bool, true, false, not, ◌&&◌, some, List, [], ◌∷◌, ◌++◌, length, get_elem?, get_elem?→inside, All,
  All-map, All-append, ltb, ◌==◌, Bool-cases, le_cases,
}
use bitdrill.Trie.{Trie, node, nil, arc, empty, query}
use bitdrill.VerticalDb.{VerticalDb}
use bitdrill.VerticalDb.Building.{IsVertical}
use bitdrill.PatternSet.{Pattern, PatternSet}
use bitdrill.TidlistWalk.Loop.{Ends}
use bitdrill.TidlistWalk.Cache.{HasFirst}
use bitdrill.Miner.{Mined}
use bitdrill.Miner.Inserted.{AreGiven, insert_patterns-IsLevelOf}
use bitdrill.TidVector.Laws.{has}
use bitdrill.Miner.Levels.{mine_levels, discover}
use bitdrill.Miner.Frequent.{IsFrequent}
use bitdrill.Miner.Considered.{IsLevelOf, IsPattern, listed, listed-append}
use bitdrill.Miner.LevelLaws.{IsMinedLevel, mine_level-IsMinedLevel}
use bitdrill.Miner.Sizes.{
  length-InOrder, smaller-IsFrequent, IsSearched, search_over, search_goes_on,
}

-- What was put out after `out` are exactly the frequent itemsets of those sizes, each with the
-- number of its transactions.
pub record IsFound (n : ℕ) (f : List ℕ) (view : ℕ → ℕ → Bool) (count : List ℕ)
    (support k max_level : ℕ) (out result : List Pattern) : Type 0 where
  pub new : List Pattern
  pub put_out : result ≡ out ++ new
  pub patterns :
      All
        (λ p. (size : ℕ) × IsSearched k max_level size × IsPattern n f view count support size p)
        new
  pub complete :
      (size : ℕ) (itemset : List ℕ)
      → IsSearched k max_level size
      → IsFrequent n f view count support size itemset
      → listed new itemset ≡ true

query-empty : (x : ℕ) (xs : List ℕ) (t : Trie) → empty t ≡ true → query (x ∷ xs) t ≡ false
unfolding query empty
query-empty x xs (node e nil) h = refl
query-empty x xs (node e (arc y t rest)) h = cc

module _ (n : ℕ) (f : List ℕ) (view : ℕ → ℕ → Bool) (db : VerticalDb) (v : IsVertical n f view db)
    (first : HasFirst f db) (support max_level : ℕ) (some_left : 0 < n + support) where
  -- An empty trie: no larger itemset is frequent.
  none_left :
      (d : ℕ) (freq : Trie)
      → empty freq ≡ true
      → IsLevelOf n f view db.count support (suc d) freq
      → (size : ℕ) (itemset : List ℕ) → suc (suc d) ≤ size
      → IsFrequent n f view db.count support size itemset
      → ⊥
  none_left d freq none_there l size itemset le h =
      let s =
        smaller-IsFrequent n f view db.count support (suc d) size itemset (omega (arith, le)) h in
      missing s.0 s.1.of_size (l.complete s.0 s.1)
    where
      missing : (xs : List ℕ) → length xs ≡ suc d → query xs freq ≡ true → ⊥
      missing [] e q = absurd (omega (arith, e))
      missing (x ∷ xs) e q = absurd (ground (arith, q, query-empty x xs freq none_there))

  finished :
      (d : ℕ) (out : List Pattern)
      → ((size : ℕ) (itemset : List ℕ)
          → IsSearched (suc (suc d)) max_level size
          → IsFrequent n f view db.count support size itemset
          → ⊥)
      → Ends (IsFound n f view db.count support (suc (suc d)) max_level out) (some out)
  finished d out over = record {
    out = out;
    returns = refl;
    is_so = record {
      new = [];
      put_out = sym (append-nil out);
      patterns = tt;
      complete = λ size itemset s h. absurd (over size itemset s h);
    };
  }

  -- A level and what is found after it.
  IsFound-level :
      (d : ℕ) (out : List Pattern) (m : Mined) (result : List Pattern)
      → (max_level ≡ 0) ⊎ (suc (suc d) ≤ max_level)
      → IsMinedLevel n f view db.count support (suc (suc d)) out m
      → IsFound n f view db.count support (suc (suc (suc d))) max_level m.out result
      → IsFound n f view db.count support (suc (suc d)) max_level out result
  IsFound-level d out m result within level rest = record {
    new = level.new ++ rest.new;
    put_out = rest.put_out ∙ ap (◌++ rest.new) level.put_out ∙ append_assoc out level.new rest.new;
    patterns =
        All-append _ level.new rest.new
          (All-map _ _ level.new (λ p h. (suc (suc d), (omega arith, within), h)) level.patterns)
          (All-map _ _ rest.new (λ p h. (h.0, (omega (arith, h.1.0), h.1.1), h.2)) rest.patterns);
    complete = λ size itemset s h. elim (le_cases (suc (suc (suc d))) size) [
      | inl later ↦ ground (
        arith,
        listed-append level.new rest.new itemset,
        rest.complete size itemset (later, s.1) h,
      )
      | inr now ↦
          let same : size ≡ suc (suc d) = omega (arith, now, s.0) in
          ground
            (arith, listed-append level.new rest.new itemset, level.complete itemset (rw same at h))
    ];
  }

  -- From a trie of exactly the frequent itemsets of size k - 1, with fuel for as many levels as
  -- there are items, the search comes back.
  pub mine_levels-IsFound :
      (fuel d : ℕ) (freq : Trie) (out : List Pattern)
      → 0 < fuel
      → length f < fuel + d
      → IsLevelOf n f view db.count support (suc d) freq
      → Ends
          (IsFound n f view db.count support (suc (suc d)) max_level out)
          (mine_levels fuel db support max_level (suc (suc d)) freq out)
  unfolding mine_levels
  mine_levels-IsFound zero d freq out some_fuel enough l = absurd (omega arith)
  mine_levels-IsFound (suc fuel) d freq out some_fuel enough l = elim (Bool-cases (empty freq)) [
    | inl none_there ↦
        rw (none_there, mine_levels)
          (finished d out (λ size itemset s h. none_left d freq none_there l size itemset s.0 h))
    | inr more ↦ elim (Bool-cases (not (max_level == 0) && ltb max_level (suc (suc d)))) [
      | inl over ↦
          rw (more, over, mine_levels)
            (finished d out (λ size itemset s h. search_over (suc (suc d)) max_level size s over))
      | inr within ↦
          let level =
            mine_level-IsMinedLevel n f view db v first support d some_left out freq more l in
          let bound = longest l.no_dead_ends in
          let rest =
            mine_levels-IsFound fuel (suc d) level.out.freq_next level.out.out
              (omega (arith, bound more, enough)) (omega (arith, enough)) level.is_so.next in
          let step : suc (suc d) + 1 ≡ suc (suc (suc d)) = omega arith in
          rw (more, within, level.returns, step, mine_levels)
            (record {
              out = rest.out;
              returns = rest.returns;
              is_so =
                  IsFound-level d out level.out rest.out
                    (search_goes_on (suc (suc d)) max_level within) level.is_so rest.is_so;
            })
    ]
  ]
    where
      longest :
          (empty freq ≡ true) ⊎ ((itemset : List ℕ) × (query itemset freq ≡ true))
          → empty freq ≡ false
          → suc d ≤ length f
      longest (inl none_there) more = absurd (ground (arith, more, none_there))
      longest (inr (itemset, q)) more =
          let h = l.sound itemset q in
          let fewer = length-InOrder db.count f itemset h.in_order h.known in
          omega (arith, h.of_size, fewer)

  -- In a database over n transactions that keeps the list of each of the items `f`, which are no
  -- more than its frequent ones and of which one has rank 0, and with n and the support not both 0, let the patterns of the largest size
  -- given, which is positive, be the frequent itemsets of that size and no others, each with its
  -- items in any order. Then `discover` comes back, and what it puts out after `out` are exactly
  -- the frequent itemsets of the larger sizes, up to the largest level where one is given, each
  -- with the number of its transactions.
  pub discover-IsFound :
      (d : ℕ) (s : PatternSet) (row : List Pattern) (out : List Pattern)
      → s.max_length ≡ suc d
      → get_elem? s.bysize s.max_length ≡ some row
      → AreGiven n f view db.count support (suc d) row
      → length f ≤ length db.frequent
      → Ends
          (IsFound n f view db.count support (suc (suc d)) max_level out)
          (discover db support s out max_level)
  unfolding discover
  discover-IsFound d s row out e reads given le =
      let step : s.max_length + 1 ≡ suc (suc d) = omega (arith, e) in
      let inside : (i : ℕ) → has f i ≡ true → i < length db.count =
        λ i known. let c = v.counted i known in get_elem?→inside db.count i c.reads in
      let made =
        insert_patterns-IsLevelOf n f view db support (suc d) inside row (omega arith) given in
      let done =
        mine_levels-IsFound (2 + length db.frequent) d made.out out (omega arith)
          (omega (arith, le)) made.is_so in
      rw (reads, made.returns, step) done
