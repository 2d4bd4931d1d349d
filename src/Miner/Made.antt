-- ===== src/Miner/Made.antt =====
-- The frequent itemsets of the next size are all made in a level of src/bitdrill/Miner.cxx.
use mathlib.Core.List.{append-nil, append_assoc}
use bitdrill.Base.{ℕ, zero, suc, ◌≡◌, refl, ap, ◌∙◌, sym, subst, arith, inl, inr}
use bitdrill.Base.{
  Bool, true, false, List, [], ◌∷◌, ◌++◌, length, Any, Any-map, ◌==◌, ==_iff, Bool-cases,
}
use bitdrill.Trie.{Trie, node, Subtries, nil, arc}
use bitdrill.Trie.Level.{IsLevel, LevelArcs}
use bitdrill.VerticalDb.{greater_freq}
use bitdrill.VerticalDb.Order.{InOrder}
use bitdrill.Walk.Visits.{visits_arcs}
use bitdrill.Walk.Generated.{visits-IsPair}
use bitdrill.TidlistWalk.Laws.{Fits, FitsArcs}
use bitdrill.Miner.Frequent.{IsFrequent, IsFrequent-without}
use bitdrill.VerticalDb.Order.{greater_freq_irrefl}
use bitdrill.Miner.Considered.{IsLevelOf}
use bitdrill.Miner.Extended.{IsMade, IsPair-IsMade}

mutual
  level-Fits : (f : List ℕ) (d : ℕ) (t : Trie) → IsLevel f d t → Fits f d t
  level-Fits f zero (node e nil) l = tt
  level-Fits f zero (node e (arc x t rest)) l = absurd l
  level-Fits f (suc d) (node e b) l = arcs-FitsArcs f d b l.1

  -- The arcs of a level reach as deep as its itemsets are long.
  pub arcs-FitsArcs : (f : List ℕ) (d : ℕ) (b : Subtries) → LevelArcs f d b → FitsArcs f (suc d) b
  arcs-FitsArcs f d nil l = tt
  arcs-FitsArcs f d (arc x t rest) l = (l.0, level-Fits f d t l.1, arcs-FitsArcs f d rest l.2)

mutual
  Fits-suc : (f : List ℕ) (d : ℕ) (t : Trie) → Fits f d t → Fits f (suc d) t
  Fits-suc f d (node e b) h = FitsArcs-suc f d b h

  pub FitsArcs-suc : (f : List ℕ) (d : ℕ) (b : Subtries) → FitsArcs f d b → FitsArcs f (suc d) b
  FitsArcs-suc f d nil h = tt
  FitsArcs-suc f zero (arc x t rest) h = absurd h
  FitsArcs-suc f (suc d) (arc x t rest) h =
      (h.0, Fits-suc f d t h.1, FitsArcs-suc f (suc d) rest h.2)

-- Apart from its last two items.
pub split_last :
    (d : ℕ) (itemset : List ℕ)
    → length itemset ≡ suc (suc d)
    → (common : List ℕ) × (a : ℕ) × (c : ℕ) × (itemset ≡ common ++ a ∷ c ∷ []) × (length common ≡ d)
split_last d [] e = absurd (omega (arith, e))
split_last d (x ∷ []) e = absurd (omega (arith, e))
split_last zero (x ∷ y ∷ []) e = ([], x, y, refl, refl)
split_last zero (x ∷ y ∷ z ∷ rest) e = absurd (omega (arith, e))
split_last (suc d) (x ∷ y ∷ rest) e =
    let s = split_last d (y ∷ rest) (omega (arith, e)) in
    (x ∷ s.0, s.1, s.2, ap (◌∷◌ x) s.3, ap suc s.4)

-- Every frequent itemset of the next size is made at a place that is visited.
pub frequent-IsMade :
    (n : ℕ) (f : List ℕ) (view : ℕ → ℕ → Bool) (count : List ℕ) (support d : ℕ) (b : Subtries)
    → IsLevelOf n f view count support (suc d) (node false b)
    → (itemset : List ℕ) → IsFrequent n f view count support (suc (suc d)) itemset
    → Any (IsMade count itemset) (visits_arcs [] [] (node false b) b)
frequent-IsMade n f view count support d b l itemset h =
    let s = split_last d itemset h.of_size in made s.0 s.1 s.2 s.4 s.3 (rw s.3 at h)
  where
    made :
        (common : List ℕ) (a c : ℕ)
        → length common ≡ d
        → itemset ≡ common ++ a ∷ c ∷ []
        → IsFrequent n f view count support (suc (suc d)) (common ++ a ∷ c ∷ [])
        → Any (IsMade count itemset) (visits_arcs [] [] (node false b) b)
    made common a c size e h =
        let assoc : (common ++ a ∷ []) ++ c ∷ [] ≡ common ++ a ∷ c ∷ [] =
          append_assoc common (a ∷ []) (c ∷ []) in
        let first : IsFrequent n f view count support (suc d) (common ++ a ∷ []) =
          subst (IsFrequent n f view count support (suc d)) (append-nil (common ++ a ∷ [])) (
            IsFrequent-without n f view count support (suc d) (common ++ a ∷ []) c []
              (subst (IsFrequent n f view count support (suc (suc d))) (sym assoc) h)) in
        let second = IsFrequent-without n f view count support (suc d) common a (c ∷ []) h in
        let before = (order_of_end common h.in_order).0.0 in
        let differ : (a == c) ≡ false = elim (Bool-cases (a == c)) [
          | inl same ↦
              let turned : greater_freq count a a ≡ true =
                ap (greater_freq count a) ((==_iff a c).0 same) ∙ before in
              absurd (ground (arith, turned, greater_freq_irrefl count a))
          | inr other ↦ other
        ] in
        let pairs =
          visits-IsPair f d [] [] b b common a c l.level.1 size differ (l.complete _ first)
            (l.complete _ second) in
        rw e (Any-map _ _ _ (λ w p. IsPair-IsMade count common a c w h.in_order p) pairs)
      where
        order_of_end :
            (common : List ℕ)
            → InOrder (greater_freq count) (common ++ a ∷ c ∷ [])
            → InOrder (greater_freq count) (a ∷ c ∷ [])
        order_of_end [] o = o
        order_of_end (x ∷ common) o = order_of_end common o.1
