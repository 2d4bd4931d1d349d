-- ===== src/Counting/PairsKept.antt =====
-- The pairs in the graph of the counter of src/2-items/Count.cxx are the frequent ones.
use bitdrill.Base.{ℕ, suc, ◌+◌, ◌<◌, ◌≤◌, ◌≡◌, refl, ap, ◌∙◌, sym, arith, inl, inr}
use bitdrill.Base.{
  Bool, true, List, [], ◌∷◌, length, All, Any, if◌then◌else◌, ltb, ◌==◌, ==_iff, Bool-cases,
}
use bitdrill.Base.Count.{count_below, count_below_ext}
use bitdrill.TidVector.Laws.{has}
use bitdrill.VerticalDb.{greater_freq}
use bitdrill.VerticalDb.Ranks.{NoRepeats, index_of-some}
use bitdrill.VerticalDb.Order.{greater_freq_irrefl}
use bitdrill.VerticalDb.Frequency.{has_all}
use bitdrill.VerticalDb.Reorder.Moves.{at}
use bitdrill.VerticalDb.Reorder.Sorted.{has-at}
use bitdrill.PatternSet.{Pattern}
use bitdrill.Graph.{Edge, Graph}
use bitdrill.Graph.Laws.{edges_at, joined_at, weight_at}
use bitdrill.UtMatrix.{elt}
use bitdrill.Miner.Frequent.{IsFrequent}
use bitdrill.Miner.Inserted.{IsGiven}
use bitdrill.Miner.Whole.Pairs.{HasEnds, pair_patterns}
use bitdrill.Counting.Scan.{at-index_of, different}
use bitdrill.Counting.Edges.{All-edges, pair_patterns-All, pair_patterns-Any}
use bitdrill.Counting.Kept.{IsKept, kept, value}

-- The number of transactions with both items.
abbrev pub pair_number : ℕ → (ℕ → ℕ → Bool) → ℕ → ℕ → ℕ
pair_number n view x y = count_below n (has_all view (x ∷ y ∷ []))

pub pair_number_comm :
    (n : ℕ) (view : ℕ → ℕ → Bool) (x y : ℕ) → pair_number n view x y ≡ pair_number n view y x
pair_number_comm n view x y =
    count_below_ext n (has_all view (x ∷ y ∷ [])) (has_all view (y ∷ x ∷ [])) (λ t h. ground arith)

All-edges_at :
    (P : List Edge → Type 0) (pairs : List (List Edge))
    → ((k : ℕ) → k < length pairs → P (edges_at pairs k))
    → All P pairs
All-edges_at P [] h = tt
All-edges_at P (adj ∷ pairs) h =
    (h 0 (omega arith), All-edges_at P pairs (λ k less. h (suc k) (omega (arith, less))))

module _ (n : ℕ) (f : List ℕ) (view : ℕ → ℕ → Bool) (count : List ℕ) (support : ℕ)
    (distinct : NoRepeats f) (rep : List ℕ) (g : Graph)
    (entries : (a b : ℕ)
      → a < b
      → b < length f
      → at rep (elt (length f) a b) ≡ pair_number n view (at f a) (at f b))
    (k : IsKept (length f) support rep (length f) (length f) g) where
  -- What is at an edge to a larger vertex.
  record IsFrequentPair (u v w : ℕ) : Type 0 where
    inside : v < length f
    enough : support ≤ pair_number n view (at f u) (at f v)
    weight : w ≡ pair_number n view (at f u) (at f v)

  joined-IsFrequentPair :
      (u v : ℕ) → joined_at g u v ≡ true → u < v → IsFrequentPair u v (weight_at g u v)
  joined-IsFrequentPair u v there less =
      let known : kept (length f) support rep (length f) (length f) u v ≡ true =
        sym (k.joins u v) ∙ there in
      let inside : v < length f = ground (arith, known, less) in
      let exact = entries u v less inside in
      record {
        inside = inside;
        enough = ground (arith, known, less, exact);
        weight =
            k.weighs u v
            ∙ ap (λ b. if b then value (length f) support rep u v else 0) known
            ∙ ground (arith, less, exact);
      }

  joined-lt : (u v : ℕ) → joined_at g u v ≡ true → v < length f
  joined-lt u v there =
      let known : kept (length f) support rep (length f) (length f) u v ≡ true =
        sym (k.joins u v) ∙ there in
      ground (arith, known)

  pub pairs-HasEnds : All (HasEnds f) g.adjacency
  pairs-HasEnds = All-edges_at (HasEnds f) g.adjacency λ u less.
      All-edges (λ v w. v < length f) (edges_at g.adjacency u) (k.distinct u) (joined-lt u)

  abbrev IsExact : Pattern → Type 0
  IsExact p =
      IsGiven n f view support 2 p.itemset × (p.count ≡ count_below n (has_all view p.itemset))

  pair-IsExact :
      (u v w : ℕ)
      → u < v
      → IsFrequentPair u v w
      → IsExact (record { itemset = at f u ∷ at f v ∷ []; count = w })
  pair-IsExact u v w less p = (
    record {
      of_size = refl;
      distinct = (ground (arith, different f u v distinct less p.inside), (refl, tt));
      known = (has-at f u (omega (arith, p.inside, less)), (has-at f v p.inside, tt));
      enough = p.enough;
    },
    p.weight,
  )

  pub pairs-IsExact : All IsExact (pair_patterns f 0 g.adjacency)
  pairs-IsExact = pair_patterns-All f IsExact 0 g.adjacency λ u inside.
      let start : 0 + u ≡ u = omega arith in
      rw start (
        All-edges (λ v w. u < v → IsExact (record { itemset = at f u ∷ at f v ∷ []; count = w }))
          (edges_at g.adjacency u) (k.distinct u)
          (λ v there less.
            pair-IsExact u v (weight_at g u v) less (joined-IsFrequentPair u v there less)))

  -- A pair of frequent items that is frequent has an edge at its smaller vertex.
  pair_there :
      (Q : List ℕ → Type 0) (a b : ℕ)
      → a < b
      → b < length f
      → support ≤ pair_number n view (at f a) (at f b)
      → Q (at f a ∷ at f b ∷ [])
      → Any (λ p. Q p.itemset) (pair_patterns f 0 g.adjacency)
  pair_there Q a b less inside enough q =
      let start : 0 + a ≡ a = omega arith in
      let exact = entries a b less inside in
      let there : joined_at g a b ≡ true =
        k.joins a b ∙ ground (arith, less, inside, enough, exact) in
      pair_patterns-Any f Q 0 a b g.adjacency there (omega (arith, less)) (rw start q)

  pub pairs_complete :
      (itemset : List ℕ)
      → IsFrequent n f view count support 2 itemset
      → Any (λ p. (i : ℕ) → has p.itemset i ≡ has itemset i) (pair_patterns f 0 g.adjacency)
  pairs_complete [] h = absurd (omega (arith, h.of_size))
  pairs_complete (x ∷ []) h = absurd (omega (arith, h.of_size))
  pairs_complete (x ∷ y ∷ z ∷ rest) h = absurd (omega (arith, h.of_size))
  pairs_complete (x ∷ y ∷ []) h =
      let (a, of_x) = index_of-some x f h.known.0 in
      let (b, of_y) = index_of-some y f h.known.1.0 in
      let (at_a, in_a) = at-index_of x a f of_x in
      let (at_b, in_b) = at-index_of y b f of_y in
      elim (Bool-cases (ltb a b)) [
        | inl less ↦
            pair_there (λ l. (i : ℕ) → has l i ≡ has (x ∷ y ∷ []) i) a b (ground (arith, less)) in_b
              (rw (at_a, at_b) h.enough) (rw (at_a, at_b) (λ i. refl))
        | inr more ↦ elim (Bool-cases (a == b)) [
          | inr other ↦
              let turned = pair_number_comm n view x y in
              pair_there (λ l. (i : ℕ) → has l i ≡ has (x ∷ y ∷ []) i) b a
                (ground (arith, more, other)) in_a (rw (at_a, at_b) (rw turned at h.enough))
                (rw (at_a, at_b) (λ i. ground arith))
          | inl same ↦
              let e : x ≡ y = sym at_a ∙ ap (at f) ((==_iff a b).0 same) ∙ at_b in
              let self : greater_freq count x x ≡ true =
                ap (greater_freq count x) e ∙ h.in_order.0.0 in
              absurd (ground (arith, self, greater_freq_irrefl count x))
        ]
      ]
