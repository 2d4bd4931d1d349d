-- ===== src/Miner/Extended.antt =====
-- The body of the loop over the itemsets of a level, in src/bitdrill/Miner.cxx.
use bitdrill.Base.{◌<◌}
use bitdrill.Base.{ℕ, suc, ◌≡◌, ap, ap₂, ◌∙◌, sym, arith, ◌⊎◌, inl, inr}
use bitdrill.Base.{Bool, true, false, List, [], ◌∷◌, ◌++◌, All, Any, ◌==◌}
use bitdrill.TidVector.Laws.{has}
use bitdrill.TidList.{TidList}
use bitdrill.Trie.{Trie, Subtries, nil, arc}
use bitdrill.Trie.Level.{HasSymbol}
use bitdrill.VerticalDb.{VerticalDb, greater_freq, insert_by}
use bitdrill.VerticalDb.Laws.{Tells}
use bitdrill.VerticalDb.Ranks.{length-insert_by}
use bitdrill.VerticalDb.Order.{InOrder, All-insert_by, insert_by-InOrder}
use bitdrill.VerticalDb.Building.{IsVertical}
use bitdrill.VerticalDb.Frequency.{has_all}
use bitdrill.Walk.{Frame, Walk, string_of, ref, new_candidate_walk}
use bitdrill.Walk.Visits.{frame}
use bitdrill.Walk.Places.{at_arc, IsVisit}
use bitdrill.Walk.Generated.{IsPair}
use bitdrill.PatternSet.{Pattern}
use bitdrill.TidlistWalk.Follows.{with_cache, IsKept}
use bitdrill.TidlistWalk.Loop.{Ends, tidlist_of-Entry}
use bitdrill.Miner.{Mined}
use bitdrill.Miner.Levels.{extend_itemset}
use bitdrill.Miner.Frequent.{
  IsFrequent, All-back, has_all-string_of, has-before_last, insert_by-last, insert_by-next_to_last,
}
use bitdrill.Miner.Considered.{IsLevelOf, IsMining}
use bitdrill.Miner.Counted.{IsCandidate, for_candidates-Ends}

-- The arcs after the one that a walk has gone down.
abbrev rest_of : Subtries → Subtries
rest_of nil = nil
rest_of (arc x t rest) = rest

abbrev pub arcs_ahead : List Frame → Subtries
arcs_ahead [] = nil
arcs_ahead (top ∷ []) = nil
arcs_ahead (top ∷ parent ∷ below) = rest_of parent.it

-- An itemset is a candidate that is made at a place.
abbrev pub IsMade : List ℕ → List ℕ → Walk → Type 0
IsMade count itemset w =
    (y : ℕ) × HasSymbol y (arcs_ahead w.frames)
    × (insert_by (greater_freq count) y (ref w) ≡ itemset)

has-append_last :
    (xs : List ℕ) (last y : ℕ)
    → has xs y ≡ false
    → (y == last) ≡ false
    → has (xs ++ last ∷ []) y ≡ false
has-append_last [] last y h d = ground (arith, h, d)
has-append_last (x ∷ xs) last y h d =
    ground (arith, h, has-append_last xs last y (ground (arith, h)) d)

-- Two frequent itemsets that differ in the last item make a candidate.
pair-IsCandidate :
    (n : ℕ) (f : List ℕ) (view : ℕ → ℕ → Bool) (count : List ℕ) (support j : ℕ) (xs : List ℕ)
    (last y : ℕ)
    → IsFrequent n f view count support j (xs ++ last ∷ [])
    → IsFrequent n f view count support j (xs ++ y ∷ [])
    → (y == last) ≡ false
    → (has f y ≡ true)
      × IsCandidate f count (suc j) (insert_by (greater_freq count) y (xs ++ last ∷ []))
pair-IsCandidate n f view count support j xs last y h k d =
    let known : has f y ≡ true = (All-back (λ i. has f i ≡ true) xs (y ∷ []) k.known).0 in
    let new = has-append_last xs last y (has-before_last count xs y k.in_order) d in
    (
      known,
      record {
        of_size = length-insert_by (greater_freq count) y (xs ++ last ∷ []) ∙ ap suc h.of_size;
        known =
            All-insert_by count (λ i. has f i ≡ true) (greater_freq count) y (xs ++ last ∷ []) known
              h.known;
        in_order = insert_by-InOrder count y (xs ++ last ∷ []) new h.in_order;
      },
    )

-- A frequent itemset is made at a place with two of its parts.
pub IsPair-IsMade :
    (count : List ℕ) (common : List ℕ) (a c : ℕ) (w : Walk)
    → InOrder (greater_freq count) (common ++ a ∷ c ∷ [])
    → IsPair common a c w
    → IsMade count (common ++ a ∷ c ∷ []) w
IsPair-IsMade count common a c w o p = rw p.place (p.next, p.ahead, made p.which)
  where
    made :
        ((p.last ≡ a) × (p.next ≡ c)) ⊎ ((p.last ≡ c) × (p.next ≡ a))
        → insert_by (greater_freq count) p.next (string_of (p.last ∷ p.front))
          ≡ common ++ a ∷ c ∷ []
    made (inl (e, g)) =
        ap₂ (λ y x. insert_by (greater_freq count) y x) g (p.spells ∙ ap (λ z. common ++ z ∷ []) e)
        ∙ insert_by-last count common a c o
    made (inr (e, g)) =
        ap₂ (λ y x. insert_by (greater_freq count) y x) g (p.spells ∙ ap (λ z. common ++ z ∷ []) e)
        ∙ insert_by-next_to_last count common a c o

module _ (n : ℕ) (f : List ℕ) (view : ℕ → ℕ → Bool) (db : VerticalDb) (v : IsVertical n f view db)
    (some_txn : 0 < n) (support j : ℕ) (freq : Trie)
    (l : IsLevelOf n f view db.count support j freq) (out : List Pattern) where
  -- In the loop, what is made at a place that is still to be visited is ahead.
  abbrev pub Ahead : List Walk → Mined → Type 0
  Ahead later m =
      All (IsVisit freq) later
      × IsMining n f view db.count support (suc j) out (λ x. Any (IsMade db.count x) later) m

  extend_at-Ends :
      (size : ℕ) (w : Walk) (cache : List TidList) (p : IsVisit freq w) (H : List ℕ → Type 0)
      (m : Mined)
      → IsKept n f view size w cache
      → IsMining n f view db.count support (suc j) out (λ x. IsMade db.count x w ⊎ H x) m
      → Ends
          (IsMining n f view db.count support (suc j) out H)
          (extend_itemset db support freq (with_cache w cache) m)
  unfolding extend_itemset new_candidate_walk
  extend_at-Ends size w cache p H m k i =
      let itemset = string_of (p.last ∷ p.front) in
      let h = l.sound itemset p.found in
      let here = at_arc p.top p.below p.parent p.last p.child p.rest p.front in
      let kept : IsKept n f view size here cache = rw p.place at k in
      let mining : IsMining n f view db.count support (suc j) out
          (λ x. IsMade db.count x here ⊎ H x) m =
        rw p.place at i in
      let entry =
        tidlist_of-Entry n f view size
          (p.top ∷ frame p.parent (arc p.last p.child p.rest) ∷ p.below) p.last p.front cache
          kept in
      let tells : Tells n (has_all view itemset) entry.out = (
        entry.tells.0,
        λ t inside. entry.tells.1 t inside ∙ sym (has_all-string_of view (p.last ∷ p.front) t),
      ) in
      let done =
        for_candidates-Ends n f view db v some_txn support j freq l out entry.out itemset tells H
          p.last p.child p.rest m h.of_size
          (λ y ahead.
            pair-IsCandidate n f view db.count support j (string_of p.front) p.last y h
              (l.sound _ (p.others y ahead)) (p.distinct y ahead))
          mining in
      rw (p.place, entry.reads) done

  pub extend_itemset-Ends :
      (size : ℕ) (w : Walk) (later : List Walk) (cache : List TidList) (m : Mined)
      → IsKept n f view size w cache
      → Ahead (w ∷ later) m
      → Ends (Ahead later) (extend_itemset db support freq (with_cache w cache) m)
  extend_itemset-Ends size w later cache m k a =
      let done = extend_at-Ends size w cache a.0.0 (λ x. Any (IsMade db.count x) later) m k a.1 in
      record { out = done.out; returns = done.returns; is_so = (a.0.1, done.is_so) }
