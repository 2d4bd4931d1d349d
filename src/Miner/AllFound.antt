-- ===== src/Miner/AllFound.antt =====
-- `discover ()` of src/bitdrill/Miner.cxx as a whole, with a given counter and an output file.
use bitdrill.Base.{ℕ, ◌+◌, ◌<◌, ◌≤◌, ◌≡◌, refl, ap, ◌∙◌, sym, arith, inl, inr}
use bitdrill.Base.{
  Bool, true, false, not, ◌&&◌, Option, some, List, [], ◌∷◌, ◌++◌, length, All, All-map, get_elem?,
  get_elem?→inside, ltb, leb, ◌==◌, Bool-cases, ◌>>=◌,
}
use bitdrill.Base.Count.{count_below}
use bitdrill.VerticalDb.Frequency.{has_all}
use bitdrill.Miner.Inserted.{AreGiven}
use bitdrill.Miner.Whole.Pairs.{HasEnds}
use bitdrill.TidVector.Laws.{has}
use bitdrill.Trie.{def_node}
use bitdrill.VerticalDb.{VerticalDb}
use bitdrill.VerticalDb.Filling.{AllOnce}
use bitdrill.VerticalDb.Building.{All-has, contains, IsCounted, IsVertical, build-IsVertical}
use bitdrill.PatternSet.{Pattern}
use bitdrill.TidlistWalk.Loop.{Ends}
use bitdrill.TidlistWalk.Cache.{HasFirst}
use bitdrill.Miner.Sizes.{search_goes_on}
use bitdrill.Miner.Inserted.{insert_patterns-IsLevelOf}
use bitdrill.Miner.LevelsLaws.{mine_levels-IsFound}
use bitdrill.Miner.Written.{write_levels-mine_levels}
use bitdrill.Miner.Mining.{first_known}
use bitdrill.Miner.Whole.{Counter, insert_pairs, write_levels, discover_file}
use bitdrill.Miner.Whole.Pairs.{
  pair_patterns, arrange, single_patterns, insert_pairs-insert_patterns,
  write_items-single_patterns,
}
use bitdrill.Miner.Discovered.{
  IsCounterOf, AreAllFrequent, AreAllFrequent-singles, AreAllFrequent-levels,
}

-- The first line, with the number of transactions.
abbrev pub header : Counter → Pattern
header c = record { itemset = []; count = c.num_transactions }

-- The file has the first line, and then what `P` says.
abbrev pub HasLines : Counter → (List Pattern → Type 0) → Option (List Pattern) → Type 0
HasLines c P file = (lines : List Pattern) × (file ≡ some (header c ∷ lines)) × P lines

module _ (n : ℕ) (f : List ℕ) (view : ℕ → ℕ → Bool) (db : VerticalDb) (v : IsVertical n f view db)
    (first : HasFirst f db) (support : ℕ) (positive : 0 < support)
    (frequent : (i : ℕ) → has f i ≡ leb support (count_below n (view i)))
    (counts : (i : ℕ) → has f i ≡ true → get_elem? db.count i ≡ some (count_below n (view i)))
    (items : List ℕ) (every : (i : ℕ) → has items i ≡ has f i) (c : Counter)
    (pairs : AreGiven n f view db.count support 2 (pair_patterns c.f_item 0 c.pairs))
    (weights : All
      (λ p. p.count ≡ count_below n (has_all view p.itemset))
      (pair_patterns c.f_item 0 c.pairs))
    (vertices : length c.pairs ≤ length c.f_item) (ends : All (HasEnds c.f_item) c.pairs)
    (sized : length f ≤ length db.frequent) (max_level : ℕ) where
  inside : (i : ℕ) → has f i ≡ true → i < length db.count
  inside i known = get_elem?→inside db.count i (counts i known)

  known_items : All (λ i. has f i ≡ true) items
  known_items = All-has (λ i. has f i ≡ true) items (λ i h. sym (every i) ∙ h)

  -- After the single items the pairs and the levels complete the file.
  levels_found :
      (not (max_level == 0) && ltb max_level 2) ≡ false
      → Ends (HasLines c (AreAllFrequent n view db.count support max_level)) (
          insert_pairs db c.f_item 0 c.pairs def_node
            (some (header c ∷ single_patterns db.count items))
          >>= λ pairs. write_levels (2 + length db.frequent) db support max_level 3 pairs.0 pairs.1)
  levels_found within =
      let ps = pair_patterns c.f_item 0 c.pairs in
      let singles = single_patterns db.count items in
      let out = header c ∷ singles ++ arrange db.count ps in
      let inserted =
        insert_pairs-insert_patterns n f view db support inside c.f_item 0 c.pairs def_node
          (header c ∷ singles) (omega (arith, vertices)) ends pairs.sound in
      let made = insert_patterns-IsLevelOf n f view db support 2 inside ps (omega arith) pairs in
      let found =
        mine_levels-IsFound n f view db v first support max_level (omega (arith, positive))
          (2 + length db.frequent) 1 made.out out (omega arith) (omega (arith, sized)) made.is_so in
      let written =
        write_levels-mine_levels (2 + length db.frequent) db support max_level 3 made.out out in
      let joined : found.out ≡ header c ∷ ((singles ++ arrange db.count ps) ++ found.is_so.new) =
        found.is_so.put_out in
      rw (inserted, made.returns, written, found.returns)
        (record {
          out = some found.out;
          returns = refl;
          is_so = (
            (singles ++ arrange db.count ps) ++ found.is_so.new,
            ap some joined,
            AreAllFrequent-levels n f view db.count support frequent counts items known_items every
                max_level ps found.is_so.new (search_goes_on 2 max_level within) pairs weights
                found.is_so.patterns found.is_so.complete,
          );
        })

-- Let a counter have the items that at least its support, which is positive, of the transactions read
-- have, at least one, and the pairs that as many have, with their exact counts, and let the reads be no
-- more than its transactions, with no item twice in a transaction. Then `discover ()` comes back, and
-- the file that it writes has, after the first line, exactly the itemsets that at least that many
-- transactions have, up to the largest level where one is given, each with the number of its
-- transactions.
pub discover_file-AreAllFrequent :
    (c : Counter) (reads : List (Option (List ℕ))) (max_level : ℕ)
    → IsCounterOf reads c
    → AllOnce reads
    → 0 < length c.frequent
    → Ends
        (HasLines c
          (AreAllFrequent c.num_transactions (contains reads) c.count c.support max_level))
        (discover_file c reads true max_level)
unfolding discover_file
discover_file-AreAllFrequent c reads max_level k once some_item =
    let counted : (i : ℕ) → has c.frequent i ≡ true → IsCounted c.count i = λ i known. record {
      expected = count_below c.num_transactions (contains reads i);
      reads = k.counts i known;
      positive = let h = k.frequent i in let p = k.positive in ground (arith, h, p, known);
    } in
    let built =
      build-IsVertical c.frequent c.count c.num_items c.num_transactions reads k.distinct k.items
        counted once k.room in
    let items = built.out.map_freq_item in
    let every : (i : ℕ) → has items i ≡ has c.frequent i =
      λ i. ap (λ (l : List ℕ). has l i) built.items.0 ∙ built.items.1 i in
    let first =
      first_known built.out.frequent c.frequent built.items.1
        (omega (arith, built.sized, some_item)) in
    let has_first : HasFirst c.frequent built.out = record {
      first = first.0;
      reads = ap (λ (l : List ℕ). get_elem? l 0) built.items.0 ∙ first.1;
      known = first.2;
    } in
    let known = All-has (λ i. has c.frequent i ≡ true) items (λ i h. sym (every i) ∙ h) in
    let listed_items =
      write_items-single_patterns c.count items (header c ∷ [])
        (All-map _ _ items (λ i h. get_elem?→inside c.count i (k.counts i h)) known) in
    elim (Bool-cases (not (max_level == 0) && ltb max_level 2)) [
      | inl over ↦
          rw (built.returns, listed_items, over)
            (record {
              out = _;
              returns = refl;
              is_so = (
                single_patterns c.count items,
                refl,
                AreAllFrequent-singles c.num_transactions c.frequent (contains reads) c.count
                    c.support k.frequent k.counts items known every max_level over
                    (ground (arith, over)),
              );
            })
      | inr within ↦
          let rest =
            levels_found c.num_transactions c.frequent (contains reads) built.out built.valid
              has_first c.support k.positive k.frequent (rw built.counts k.counts) items every c
              (rw built.counts k.pairs) k.weights k.vertices k.ends (omega (arith, built.sized))
              max_level within in
          rw (built.returns, listed_items, within) (rw built.counts at rest)
    ]
