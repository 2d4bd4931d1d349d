-- ===== src/Miner/Inserted.antt =====
-- The loop of src/bitdrill/Miner.cxx that reorders the given itemsets and inserts them into the first
-- trie of a search.
use bitdrill.Base.{ℕ, zero, suc, ◌<◌, ◌≤◌, ◌≡◌, refl, ap, ◌∙◌, arith, ◌⊎◌, inl, inr}
use bitdrill.Base.{
  Bool, true, false, ◌&&◌, ◌||◌, List, [], ◌∷◌, length, All, All-map, Any, Bool-cases,
}
use bitdrill.Base.Count.{count_below, count_below_ext}
use bitdrill.TidVector.Laws.{has}
use bitdrill.Trie.{Trie, def_node, empty, insert, query}
use bitdrill.Trie.Laws.{list_eq, query-insert}
use bitdrill.Trie.Merge.{query-def_node, HasDistinctArcs, insert-HasDistinctArcs}
use bitdrill.Trie.Level.{IsLevel, insert-IsLevel}
use bitdrill.VerticalDb.{VerticalDb, greater_freq, sort_by}
use bitdrill.VerticalDb.Ranks.{NoRepeats, length-sort_by}
use bitdrill.VerticalDb.Order.{InOrder, All-insert_by, sort_by-InOrder}
use bitdrill.VerticalDb.Reorder.Sorted.{InOrder-unique, reorder-sort_by}
use bitdrill.VerticalDb.Frequency.{has_all}
use bitdrill.PatternSet.{Pattern}
use bitdrill.TidlistWalk.Loop.{Ends}
use bitdrill.Miner.{insert_patterns}
use bitdrill.Miner.Frequent.{IsFrequent, has_all-insert_by}
use bitdrill.Miner.Considered.{IsLevelOf, list_eq_refl, list_eq→≡}

-- An itemset of k of the items `f`, in any order, which at least `support` of n transactions have.
pub record IsGiven (n : ℕ) (f : List ℕ) (view : ℕ → ℕ → Bool) (support k : ℕ) (itemset : List ℕ)
    : Type 0 where
  pub of_size : length itemset ≡ k
  pub distinct : NoRepeats itemset
  pub known : All (λ i. has f i ≡ true) itemset
  pub enough : support ≤ count_below n (has_all view itemset)

-- Of one size, the frequent itemsets and no others are given, each in any order.
pub record AreGiven (n : ℕ) (f : List ℕ) (view : ℕ → ℕ → Bool) (count : List ℕ) (support k : ℕ)
    (row : List Pattern) : Type 0 where
  pub sound : All (λ p. IsGiven n f view support k p.itemset) row
  pub complete :
      (itemset : List ℕ)
      → IsFrequent n f view count support k itemset
      → Any (λ p. (i : ℕ) → has p.itemset i ≡ has itemset i) row

All-sort_by :
    (P : ℕ → Type 0) (count xs : List ℕ) → All P xs → All P (sort_by (greater_freq count) xs)
unfolding sort_by
All-sort_by P count [] h = tt
All-sort_by P count (x ∷ xs) h =
    All-insert_by count P (greater_freq count) x (sort_by (greater_freq count) xs) h.0
      (All-sort_by P count xs h.1)

pub has_all-sort_by :
    (view : ℕ → ℕ → Bool) (count xs : List ℕ) (t : ℕ)
    → has_all view (sort_by (greater_freq count) xs) t ≡ has_all view xs t
unfolding sort_by
has_all-sort_by view count [] t = refl
has_all-sort_by view count (x ∷ xs) t =
    has_all-insert_by view (greater_freq count) x (sort_by (greater_freq count) xs) t
    ∙ ap (view x t &&◌) (has_all-sort_by view count xs t)

-- Whether an itemset is one of the patterns in its order.
abbrev pub arranged : List ℕ → List Pattern → List ℕ → Bool
arranged count [] itemset = false
arranged count (p ∷ ps) itemset =
    list_eq (sort_by (greater_freq count) p.itemset) itemset || arranged count ps itemset

module _ (n : ℕ) (f : List ℕ) (view : ℕ → ℕ → Bool) (count : List ℕ) (support k : ℕ) where
  pub sort_by-IsFrequent :
      (itemset : List ℕ)
      → IsGiven n f view support k itemset
      → IsFrequent n f view count support k (sort_by (greater_freq count) itemset)
  sort_by-IsFrequent itemset g = record {
    of_size = length-sort_by (greater_freq count) itemset ∙ g.of_size;
    known = All-sort_by (λ i. has f i ≡ true) count itemset g.known;
    in_order = (sort_by-InOrder count itemset g.distinct).0;
    enough =
        let same =
          count_below_ext n (has_all view (sort_by (greater_freq count) itemset))
            (has_all view itemset) (λ t inside. has_all-sort_by view count itemset t) in
        omega (arith, g.enough, same);
  }

  arranged-IsFrequent :
      (ps : List Pattern) (itemset : List ℕ)
      → All (λ p. IsGiven n f view support k p.itemset) ps
      → arranged count ps itemset ≡ true
      → IsFrequent n f view count support k itemset
  arranged-IsFrequent [] itemset g h = cc
  arranged-IsFrequent (p ∷ ps) itemset g h =
      elim (Bool-cases (list_eq (sort_by (greater_freq count) p.itemset) itemset)) [
        | inl here ↦
            let same : sort_by (greater_freq count) p.itemset ≡ itemset = list_eq→≡ _ _ here in
            rw same at (sort_by-IsFrequent p.itemset g.0)
        | inr later ↦ arranged-IsFrequent ps itemset g.1 (ground (arith, h, later))
      ]

  pub arranged_there :
      (ps : List Pattern) (itemset : List ℕ)
      → All (λ p. IsGiven n f view support k p.itemset) ps
      → InOrder (greater_freq count) itemset
      → Any (λ p. (i : ℕ) → has p.itemset i ≡ has itemset i) ps
      → arranged count ps itemset ≡ true
  arranged_there [] itemset g o h = absurd h
  arranged_there (p ∷ ps) itemset g o (inl same) =
      let sorted = sort_by-InOrder count p.itemset g.0.distinct in
      let e =
        InOrder-unique count (sort_by (greater_freq count) p.itemset) itemset sorted.0 o
          (λ i. sorted.1 i ∙ same i) in
      let eq : list_eq (sort_by (greater_freq count) p.itemset) itemset ≡ true =
        rw e (list_eq_refl itemset) in
      ground (arith, eq)
  arranged_there (p ∷ ps) itemset g o (inr later) =
      ground (arith, arranged_there ps itemset g.1 o later)

-- What the loop makes of a trie: it holds the patterns as well, each in its order.
record IsInserted (f count : List ℕ) (k : ℕ) (ps : List Pattern) (t result : Trie) : Type 0 where
  level : IsLevel f k result
  distinct : HasDistinctArcs result
  finds : (itemset : List ℕ) → query itemset result ≡ (arranged count ps itemset || query itemset t)
  no_dead_ends : (empty result ≡ true) ⊎ ((itemset : List ℕ) × (query itemset result ≡ true))

module _ (n : ℕ) (f : List ℕ) (view : ℕ → ℕ → Bool) (db : VerticalDb) (support k : ℕ)
    (inside : (i : ℕ) → has f i ≡ true → i < length db.count) where
  insert_patterns-IsInserted :
      (ps : List Pattern) (t : Trie)
      → All (λ p. IsGiven n f view support k p.itemset) ps
      → IsLevel f k t
      → HasDistinctArcs t
      → (empty t ≡ true) ⊎ ((itemset : List ℕ) × (query itemset t ≡ true))
      → Ends (IsInserted f db.count k ps t) (insert_patterns db ps t)
  unfolding insert_patterns
  insert_patterns-IsInserted [] t g l d e = record {
    out = t;
    returns = refl;
    is_so = record { level = l; distinct = d; finds = λ itemset. refl; no_dead_ends = e };
  }
  insert_patterns-IsInserted (p ∷ ps) t g l d e =
      let sorted = sort_by (greater_freq db.count) p.itemset in
      let h = sort_by-IsFrequent n f view db.count support k p.itemset g.0 in
      let reordered =
        reorder-sort_by db p.itemset g.0.distinct (All-map _ _ p.itemset inside g.0.known) in
      let there : query sorted (insert sorted t) ≡ true =
        query-insert sorted sorted t ∙ ground (arith, list_eq_refl sorted) in
      let rest =
        insert_patterns-IsInserted ps (insert sorted t) g.1
          (insert-IsLevel f k sorted t h.of_size h.known l) (insert-HasDistinctArcs sorted t d)
          (inr (sorted, there)) in
      rw (reordered, insert_patterns)
        (record {
          out = rest.out;
          returns = rest.returns;
          is_so = record {
            level = rest.is_so.level;
            distinct = rest.is_so.distinct;
            finds =
                λ itemset. rest.is_so.finds itemset ∙ ground (arith, query-insert sorted itemset t);
            no_dead_ends = rest.is_so.no_dead_ends;
          };
        })

  -- Of all frequent itemsets of a size, each in any order, the trie of exactly these is made.
  pub insert_patterns-IsLevelOf :
      (row : List Pattern)
      → 0 < k
      → AreGiven n f view db.count support k row
      → Ends (IsLevelOf n f view db.count support k) (insert_patterns db row def_node)
  insert_patterns-IsLevelOf row some_size given =
      let done =
        insert_patterns-IsInserted row def_node given.sound (fresh k some_size) tt
          (inl (unfold empty in refl)) in
      record {
        out = done.out;
        returns = done.returns;
        is_so = record {
          level = done.is_so.level;
          distinct = done.is_so.distinct;
          sound = λ itemset found.
              arranged-IsFrequent n f view db.count support k row itemset given.sound
                (ground (arith, found, done.is_so.finds itemset, query-def_node itemset));
          complete = λ itemset h.
              done.is_so.finds itemset
              ∙ ground (
                arith,
                arranged_there n f view db.count support k row itemset given.sound h.in_order
                    (given.complete itemset h),
              );
          no_dead_ends = done.is_so.no_dead_ends;
        };
      }
    where
      fresh : (k : ℕ) → 0 < k → IsLevel f k def_node
      fresh zero h = absurd (omega arith)
      fresh (suc k) h = (refl, tt)
