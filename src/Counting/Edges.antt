-- ===== src/Counting/Edges.antt =====
-- The pairs of items that the miner of src/bitdrill/Miner.cxx reads off the graph of a counter.
use bitdrill.Base.{ℕ, zero, suc, ◌+◌, ◌<◌, ◌≡◌, refl, ap, ◌∙◌, arith, inl, inr}
use bitdrill.Base.{
  true, List, [], ◌∷◌, length, All, All-append, Any, Any-append_left, Any-append_right, ltb, ◌==◌,
  ==_iff, Bool-cases,
}
use bitdrill.VerticalDb.Ranks.{NoRepeats}
use bitdrill.VerticalDb.Reorder.Moves.{at}
use bitdrill.PatternSet.{Pattern}
use bitdrill.Graph.{Edge, has_edge, edge_weight}
use bitdrill.Graph.Laws.{edges_at, neighbors, has-neighbors}
use bitdrill.Miner.Whole.Pairs.{edge_patterns, pair_patterns}

-- What holds at every neighbour, with the weight to it, holds of every edge.
pub All-edges :
    (P : ℕ → ℕ → Type 0) (adj : List Edge)
    → NoRepeats (neighbors adj)
    → ((v : ℕ) → has_edge adj v ≡ true → P v (edge_weight adj v))
    → All (λ e. P e.neighbor e.weight) adj
unfolding has_edge edge_weight
All-edges P [] d h = tt
All-edges P (e ∷ adj) d h = (first, All-edges P adj d.1 rest)
  where
    self : (e.neighbor == e.neighbor) ≡ true
    self = ground arith

    first : P e.neighbor e.weight
    first = rw self at (h e.neighbor (rw self refl))

    rest : (v : ℕ) → has_edge adj v ≡ true → P v (edge_weight adj v)
    rest v there = elim (Bool-cases (e.neighbor == v)) [
      | inl same ↦
          let one : e.neighbor ≡ v = (==_iff e.neighbor v).0 same in
          let again : has_edge adj e.neighbor ≡ true = ap (has_edge adj) one ∙ there in
          absurd (ground (arith, has-neighbors adj e.neighbor, again, d.0))
      | inr other ↦ rw other at (h v (rw other there))
    ]

module _ (f_item : List ℕ) where
  edge_patterns-All :
      (Q : Pattern → Type 0) (u : ℕ) (adj : List Edge)
      → All
          (λ e.
            u < e.neighbor
            → Q (record { itemset = at f_item u ∷ at f_item e.neighbor ∷ []; count = e.weight }))
          adj
      → All Q (edge_patterns f_item u adj)
  edge_patterns-All Q u [] h = tt
  edge_patterns-All Q u (e ∷ adj) h = elim (Bool-cases (ltb u e.neighbor)) [
    | inl forth ↦ rw forth (h.0 (ground (arith, forth)), edge_patterns-All Q u adj h.1)
    | inr back ↦ rw back (edge_patterns-All Q u adj h.1)
  ]

  -- What holds at every edge to a larger vertex holds of every pair.
  pub pair_patterns-All :
      (Q : Pattern → Type 0) (u : ℕ) (pairs : List (List Edge))
      → ((k : ℕ)
          → k < length pairs
          → All
              (λ e.
                u + k < e.neighbor
                → Q (record {
                  itemset = at f_item (u + k) ∷ at f_item e.neighbor ∷ [];
                  count = e.weight;
                }))
              (edges_at pairs k))
      → All Q (pair_patterns f_item u pairs)
  pair_patterns-All Q u [] h = tt
  pair_patterns-All Q u (adj ∷ pairs) h =
      let start : u + 0 ≡ u = omega arith in
      All-append Q (edge_patterns f_item u adj) (pair_patterns f_item (u + 1) pairs)
        (edge_patterns-All Q u adj (rw start at (h 0 (omega arith))))
        (pair_patterns-All Q (u + 1) pairs λ k less.
          let step : u + suc k ≡ u + 1 + k = omega arith in
          rw step at (h (suc k) (omega (arith, less))))

  edge_patterns-Any :
      (Q : List ℕ → Type 0) (u v : ℕ) (adj : List Edge)
      → has_edge adj v ≡ true
      → u < v
      → Q (at f_item u ∷ at f_item v ∷ [])
      → Any (λ p. Q p.itemset) (edge_patterns f_item u adj)
  unfolding has_edge
  edge_patterns-Any Q u v [] there less q = cc
  edge_patterns-Any Q u v (e ∷ adj) there less q = elim (Bool-cases (e.neighbor == v)) [
    | inl here ↦
        let same : e.neighbor ≡ v = (==_iff e.neighbor v).0 here in
        let forth : ltb u e.neighbor ≡ true = ground (arith, less, same) in
        rw forth (inl (rw same q))
    | inr other ↦
        let later = edge_patterns-Any Q u v adj (rw other at there) less q in
        elim (Bool-cases (ltb u e.neighbor)) [
          | inl forth ↦ rw forth (inr later)
          | inr back ↦ rw back later
        ]
  ]

  -- The pair of two vertices that are joined is among the pairs.
  pub pair_patterns-Any :
      (Q : List ℕ → Type 0) (u k v : ℕ) (pairs : List (List Edge))
      → has_edge (edges_at pairs k) v ≡ true
      → u + k < v
      → Q (at f_item (u + k) ∷ at f_item v ∷ [])
      → Any (λ p. Q p.itemset) (pair_patterns f_item u pairs)
  unfolding has_edge
  pair_patterns-Any Q u k v [] there less q = cc
  pair_patterns-Any Q u zero v (adj ∷ pairs) there less q =
      let start : u + 0 ≡ u = omega arith in
      Any-append_left (λ p. Q p.itemset) (edge_patterns f_item u adj)
        (pair_patterns f_item (u + 1) pairs)
        (edge_patterns-Any Q u v adj there (omega arith) (rw start at q))
  pair_patterns-Any Q u (suc k) v (adj ∷ pairs) there less q =
      let step : u + suc k ≡ u + 1 + k = omega arith in
      Any-append_right (λ p. Q p.itemset) (edge_patterns f_item u adj)
        (pair_patterns f_item (u + 1) pairs)
        (pair_patterns-Any Q (u + 1) k v pairs there (omega arith) (rw step at q))
