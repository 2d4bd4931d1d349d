-- ===== src/Miner/Discovered.antt =====
-- `discover ()` of src/bitdrill/Miner.cxx with a given counter: the file holds all frequent itemsets.
use bitdrill.Base.{ℕ, ◌<◌, ◌≤◌, ◌≡◌, refl, ap, ◌∙◌, sym, arith, ◌⊎◌, inl, inr}
use bitdrill.Base.{
  Bool, true, not, ◌&&◌, ◌||◌, Option, some, none, List, [], ◌∷◌, ◌++◌, length, All, All-map,
  All-append, get_elem?, leb, ltb, ◌==◌, ==_iff, ==_refl, Bool-cases,
}
use bitdrill.Base.Count.{count_below, count_below_ext}
use bitdrill.TidVector.Laws.{has}
use bitdrill.Trie.Laws.{list_eq}
use bitdrill.VerticalDb.{greater_freq, sort_by}
use bitdrill.VerticalDb.Ranks.{NoRepeats}
use bitdrill.VerticalDb.Order.{InOrder}
use bitdrill.VerticalDb.Frequency.{has_all}
use bitdrill.VerticalDb.Building.{contains}
use bitdrill.PatternSet.{Pattern}
use bitdrill.Miner.Frequent.{IsFrequent, count_below_mono}
use bitdrill.Miner.Sizes.{IsSearched}
use bitdrill.Miner.Considered.{IsPattern, listed, listed-append}
use bitdrill.Miner.Inserted.{
  IsGiven, AreGiven, arranged, arranged_there, sort_by-IsFrequent, has_all-sort_by,
}
use bitdrill.Miner.Whole.{Counter}
use bitdrill.Miner.Whole.Pairs.{HasEnds, pair_patterns, arrange, single_patterns}

-- What a counter has of the transactions read: the items that at least `support` of them have, with
-- their counts, and in its graph the pairs that at least `support` have, with theirs.
pub record IsCounterOf (reads : List (Option (List ℕ))) (c : Counter) : Type 0 where
  pub room : length reads ≤ c.num_transactions
  pub positive : 0 < c.support
  pub distinct : NoRepeats c.frequent
  pub frequent :
      (i : ℕ) → has c.frequent i ≡ leb c.support (count_below c.num_transactions (contains reads i))
  pub counts :
      (i : ℕ)
      → has c.frequent i ≡ true
      → get_elem? c.count i ≡ some (count_below c.num_transactions (contains reads i))
  pub items : (i : ℕ) → has c.frequent i ≡ true → i < c.num_items
  pub vertices : length c.pairs ≤ length c.f_item
  pub ends : All (HasEnds c.f_item) c.pairs
  pub pairs :
      AreGiven c.num_transactions c.frequent
        (contains reads)
        c.count
        c.support
        2
        (pair_patterns c.f_item 0 c.pairs)
  pub weights :
      All
        (λ p. p.count ≡ count_below c.num_transactions (has_all (contains reads) p.itemset))
        (pair_patterns c.f_item 0 c.pairs)

abbrev pub IsWithin : ℕ → ℕ → Type 0
IsWithin max_level size = (max_level ≡ 0) ⊎ (size ≤ max_level)

-- An itemset with enough transactions, within the sizes, and the number of its transactions.
abbrev pub IsLine : ℕ → (ℕ → ℕ → Bool) → List ℕ → ℕ → ℕ → Pattern → Type 0
IsLine n view count support max_level p =
    (0 < length p.itemset)
    × IsWithin max_level (length p.itemset)
    × InOrder (greater_freq count) p.itemset
    × (support ≤ p.count)
    × (p.count ≡ count_below n (has_all view p.itemset))

-- All itemsets, up to the largest size where one is given, that at least `support` of n
-- transactions have, in the order of the counts, each with the number of its transactions.
pub record AreAllFrequent (n : ℕ) (view : ℕ → ℕ → Bool) (count : List ℕ) (support max_level : ℕ)
    (lines : List Pattern) : Type 0 where
  pub sound : All (IsLine n view count support max_level) lines
  pub complete :
      (itemset : List ℕ)
      → 0 < length itemset
      → IsWithin max_level (length itemset)
      → InOrder (greater_freq count) itemset
      → support ≤ count_below n (has_all view itemset)
      → listed lines itemset ≡ true

-- What is listed of the arranged pairs.
listed-arrange :
    (count : List ℕ) (ps : List Pattern) (itemset : List ℕ)
    → listed (arrange count ps) itemset ≡ arranged count ps itemset
listed-arrange count [] itemset = refl
listed-arrange count (p ∷ ps) itemset =
    ap (list_eq (sort_by (greater_freq count) p.itemset) itemset ||◌)
      (listed-arrange count ps itemset)

listed-single_patterns :
    (count items : List ℕ) (x : ℕ)
    → has items x ≡ true
    → listed (single_patterns count items) (x ∷ []) ≡ true
listed-single_patterns count [] x h = cc
listed-single_patterns count (i ∷ items) x h = elim (Bool-cases (x == i)) [
  | inl same ↦ let e : x ≡ i = (==_iff x i).0 same in ground (arith, e, ==_refl i)
  | inr other ↦ ground (arith, listed-single_patterns count items x (ground (arith, h, other)))
]

module _ (n : ℕ) (f : List ℕ) (view : ℕ → ℕ → Bool) (count : List ℕ) (support : ℕ) where
  arrange-IsPattern :
      (ps : List Pattern)
      → All (λ p. IsGiven n f view support 2 p.itemset) ps
      → All (λ p. p.count ≡ count_below n (has_all view p.itemset)) ps
      → All (IsPattern n f view count support 2) (arrange count ps)
  arrange-IsPattern [] g w = tt
  arrange-IsPattern (p ∷ ps) g w = (
    record {
      frequent = sort_by-IsFrequent n f view count support 2 p.itemset g.0;
      counted =
          w.0
          ∙ sym (
              count_below_ext n (has_all view (sort_by (greater_freq count) p.itemset))
                (has_all view p.itemset) (λ t inside. has_all-sort_by view count p.itemset t));
    },
    arrange-IsPattern ps g.1 w.1,
  )

  -- The items of an itemset with enough transactions have enough.
  known_of_enough :
      (itemset : List ℕ)
      → ((i : ℕ) → has f i ≡ leb support (count_below n (view i)))
      → support ≤ count_below n (has_all view itemset)
      → All (λ i. has f i ≡ true) itemset
  known_of_enough [] frequent h = tt
  known_of_enough (x ∷ xs) frequent h =
      let first =
        count_below_mono n (has_all view (x ∷ xs)) (view x) (λ t both. ground (arith, both)) in
      let others =
        count_below_mono n (has_all view (x ∷ xs)) (has_all view xs)
          (λ t both. ground (arith, both)) in
      let enough : support ≤ count_below n (view x) = omega (arith, h, first) in
      (frequent x ∙ ground (arith, enough), known_of_enough xs frequent (omega (arith, h, others)))

  IsPattern-IsLine :
      (max_level size : ℕ) (p : Pattern)
      → 0 < size
      → IsWithin max_level size
      → IsPattern n f view count support size p
      → IsLine n view count support max_level p
  IsPattern-IsLine max_level size p some_size within h = (
    omega (arith, h.frequent.of_size),
    rw h.frequent.of_size within,
    h.frequent.in_order,
    omega (arith, h.counted, h.frequent.enough),
    h.counted,
  )

  single_patterns-IsPattern :
      (items : List ℕ)
      → ((i : ℕ) → has f i ≡ leb support (count_below n (view i)))
      → ((i : ℕ) → has f i ≡ true → get_elem? count i ≡ some (count_below n (view i)))
      → All (λ i. has f i ≡ true) items
      → All (IsPattern n f view count support 1) (single_patterns count items)
  single_patterns-IsPattern [] frequent counts h = tt
  single_patterns-IsPattern (i ∷ items) frequent counts h =
      let alone = count_below_ext n (has_all view (i ∷ [])) (view i) (λ t inside. ground arith) in
      let enough : support ≤ count_below n (view i) = ground (arith, frequent i, h.0) in
      (
        record {
          frequent = record {
            of_size = refl;
            known = (h.0, tt);
            in_order = (tt, tt);
            enough = omega (arith, alone, enough);
          };
          counted = counted (get_elem? count i) (count_below n (view i)) (counts i h.0) ∙ sym alone;
        },
        single_patterns-IsPattern items frequent counts h.1,
      )
    where
      counted : (o : Option ℕ) (c : ℕ) → o ≡ some c → elim o [ some c ↦ c | none ↦ 0 ] ≡ c
      counted none c e = cc
      counted (some d) c e = cc

  module _ (frequent : (i : ℕ) → has f i ≡ leb support (count_below n (view i)))
      (counts : (i : ℕ) → has f i ≡ true → get_elem? count i ≡ some (count_below n (view i)))
      (items : List ℕ) (known : All (λ i. has f i ≡ true) items)
      (every : (i : ℕ) → has items i ≡ has f i) (max_level : ℕ) where
    -- The single items are all there is up to size 1.
    pub AreAllFrequent-singles :
        (not (max_level == 0) && ltb max_level 2) ≡ true
        → 0 < max_level
        → AreAllFrequent n view count support max_level (single_patterns count items)
    AreAllFrequent-singles over one = record {
      sound =
          All-map _ _ (single_patterns count items)
            (λ p. IsPattern-IsLine max_level 1 p (omega arith) (inr one))
            (single_patterns-IsPattern items frequent counts known);
      complete = λ itemset some_size within o enough.
          only itemset some_size within (known_of_enough itemset frequent enough);
    }
      where
        only :
            (itemset : List ℕ)
            → 0 < length itemset
            → IsWithin max_level (length itemset)
            → All (λ i. has f i ≡ true) itemset
            → listed (single_patterns count items) itemset ≡ true
        only [] some_size within h = absurd (omega arith)
        only (x ∷ []) some_size within h = listed-single_patterns count items x (every x ∙ h.0)
        only (x ∷ y ∷ rest) some_size (inl none_given) h = absurd (omega arith)
        only (x ∷ y ∷ rest) some_size (inr le) h = absurd (ground (arith, over, le))

    -- With the pairs, and what the levels find from size 3 on, there are all.
    pub AreAllFrequent-levels :
        (ps new : List Pattern)
        → (max_level ≡ 0) ⊎ (2 ≤ max_level)
        → AreGiven n f view count support 2 ps
        → All (λ p. p.count ≡ count_below n (has_all view p.itemset)) ps
        → All
            (λ p.
              (size : ℕ) × IsSearched 3 max_level size × IsPattern n f view count support size p)
            new
        → ((size : ℕ) (itemset : List ℕ)
            → IsSearched 3 max_level size
            → IsFrequent n f view count support size itemset
            → listed new itemset ≡ true)
        → AreAllFrequent n view count support max_level
            ((single_patterns count items ++ arrange count ps) ++ new)
    AreAllFrequent-levels ps new within given weights patterns complete = record {
      sound =
          All-append _ (singles ++ arrange count ps) new
            (All-append _ singles (arrange count ps)
              (All-map _ _ singles (λ p. IsPattern-IsLine max_level 1 p (omega arith) one)
                (single_patterns-IsPattern items frequent counts known))
              (All-map _ _ (arrange count ps)
                (λ p. IsPattern-IsLine max_level 2 p (omega arith) within)
                (arrange-IsPattern ps given.sound weights)))
            (All-map _ _ new
              (λ p h. IsPattern-IsLine max_level h.0 p (omega (arith, h.1.0)) h.1.1 h.2) patterns);
      complete = λ itemset some_size small o enough.
          listed-append (singles ++ arrange count ps) new itemset
          ∙ ap (◌|| listed new itemset) (listed-append singles (arrange count ps) itemset)
          ∙ each itemset some_size small o enough (known_of_enough itemset frequent enough);
    }
      where
        singles : List Pattern
        singles = single_patterns count items

        one : IsWithin max_level 1
        one = elim within [ inl e ↦ inl e | inr le ↦ inr (omega (arith, le)) ]

        each :
            (itemset : List ℕ)
            → 0 < length itemset
            → IsWithin max_level (length itemset)
            → InOrder (greater_freq count) itemset
            → support ≤ count_below n (has_all view itemset)
            → All (λ i. has f i ≡ true) itemset
            → (listed singles itemset || listed (arrange count ps) itemset || listed new itemset)
              ≡ true
        each [] some_size small o enough h = absurd (omega arith)
        each (x ∷ []) some_size small o enough h =
            ground (arith, listed-single_patterns count items x (every x ∙ h.0))
        each (x ∷ y ∷ []) some_size small o enough h =
            let pair : IsFrequent n f view count support 2 (x ∷ y ∷ []) = record {
              of_size = refl;
              known = h;
              in_order = o;
              enough = enough;
            } in
            let there =
              arranged_there n f view count support 2 ps (x ∷ y ∷ []) given.sound o
                (given.complete (x ∷ y ∷ []) pair) in
            ground (arith, listed-arrange count ps (x ∷ y ∷ []), there)
        each (x ∷ y ∷ z ∷ rest) some_size small o enough h =
            let itemset = x ∷ y ∷ z ∷ rest in
            let found =
              complete (length itemset) itemset (omega arith, small)
                (record { of_size = refl; known = h; in_order = o; enough = enough }) in
            ground (arith, found)
