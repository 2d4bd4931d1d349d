-- ===== src/Miner/LevelLaws.antt =====
-- A level of src/bitdrill/Miner.cxx as a whole.
use bitdrill.Base.Count.{count_below-le}
use bitdrill.VerticalDb.Frequency.{has_all}
use bitdrill.Base.{ℕ, suc, ◌<◌, ◌+◌, ◌≡◌, refl, ◌∙◌, sym, arith, ◌⊎◌, inl, inr}
use bitdrill.Base.{
  Bool, true, false, List, [], ◌∷◌, ◌++◌, length-replicate, replicate, All, Any, Bool-cases,
}
use mathlib.Core.List.{append-nil}
use bitdrill.Trie.{Trie, node, Subtries, nil, arc, def_node, empty, query}
use bitdrill.Trie.Laws.{list_eq}
use bitdrill.Trie.Level.{HasArc-query}
use bitdrill.VerticalDb.{VerticalDb}
use bitdrill.VerticalDb.Building.{IsVertical}
use bitdrill.Walk.{Walk, at_node}
use bitdrill.Walk.Visits.{pending, visits_arcs}
use bitdrill.Walk.Places.{IsVisit, visits-IsVisit}
use bitdrill.PatternSet.{Pattern}
use bitdrill.TidlistWalk.{new_tidlist_walk}
use bitdrill.TidlistWalk.Follows.{IsKept}
use bitdrill.TidlistWalk.Loop.{Ends, for_walk-Ends}
use bitdrill.TidlistWalk.Cache.{HasFirst, make_cache-length}
use bitdrill.Miner.{Mined, walk_rounds}
use bitdrill.Miner.Levels.{extend_itemset, mine_level}
use bitdrill.Miner.Frequent.{IsFrequent}
use bitdrill.Miner.Considered.{IsLevelOf, IsPattern, IsMining, listed, list_eq→≡}
use bitdrill.Miner.Extended.{IsMade, Ahead, extend_itemset-Ends}
use bitdrill.Miner.Made.{frequent-IsMade, arcs-FitsArcs, FitsArcs-suc}

-- A level came back: it has put out the frequent itemsets of size k, each with the number of its
-- transactions, and its next trie has them.
pub record IsMinedLevel (n : ℕ) (f : List ℕ) (view : ℕ → ℕ → Bool) (count : List ℕ) (support k : ℕ)
    (out : List Pattern) (m : Mined) : Type 0 where
  pub new : List Pattern
  pub put_out : m.out ≡ out ++ new
  pub patterns : All (IsPattern n f view count support k) new
  pub complete :
      (itemset : List ℕ) → IsFrequent n f view count support k itemset → listed new itemset ≡ true
  pub next : IsLevelOf n f view count support k m.freq_next

listed-IsFrequent :
    (n : ℕ) (f : List ℕ) (view : ℕ → ℕ → Bool) (count : List ℕ) (support k : ℕ) (ps : List Pattern)
    (itemset : List ℕ)
    → All (IsPattern n f view count support k) ps
    → listed ps itemset ≡ true
    → IsFrequent n f view count support k itemset
listed-IsFrequent n f view count support k [] itemset a h = absurd cc
listed-IsFrequent n f view count support k (p ∷ ps) itemset a h =
    elim (Bool-cases (list_eq p.itemset itemset)) [
      | inl here ↦ rw (list_eq→≡ p.itemset itemset here) at a.0.frequent
      | inr other ↦
          listed-IsFrequent n f view count support k ps itemset a.1 (ground (arith, h, other))
    ]

-- With nothing left to be made, the level is complete.
IsMining-IsMinedLevel :
    (n : ℕ) (f : List ℕ) (view : ℕ → ℕ → Bool) (count : List ℕ) (support k : ℕ) (out : List Pattern)
    (m : Mined)
    → IsMining n f view count support k out (λ itemset. ⊥) m
    → IsMinedLevel n f view count support k out m
IsMining-IsMinedLevel n f view count support k out m i =
    let complete = λ (itemset : List ℕ) (h : IsFrequent n f view count support k itemset).
      there (i.reaches itemset h) in
    record {
      new = i.new;
      put_out = i.put_out;
      patterns = i.patterns;
      complete = complete;
      next = record {
        level = i.level;
        distinct = i.distinct;
        sound = λ itemset found.
            listed-IsFrequent n f view count support k i.new itemset i.patterns
              (sym (i.finds itemset) ∙ found);
        complete = λ itemset h. i.finds itemset ∙ complete itemset h;
        no_dead_ends = elim i.no_dead_ends [
          | inl none_yet ↦ inl none_yet
          | inr (itemset, h) ↦ inr (itemset, i.finds itemset ∙ h)
        ];
      };
    }
  where
    there : {P : Type 0} → P ⊎ ⊥ → P
    there (inl p) = p
    there (inr h) = absurd h

module _ (n : ℕ) (f : List ℕ) (view : ℕ → ℕ → Bool) (db : VerticalDb) (v : IsVertical n f view db)
    (first : HasFirst f db) (support d : ℕ) (some_left : 0 < n + support) (out : List Pattern) where
  -- An itemset of the trie is frequent, so that there is a transaction.
  some_transaction :
      (b : Subtries)
      → IsLevelOf n f view db.count support (suc d) (node false b)
      → empty (node false b) ≡ false
      → 0 < n
  some_transaction b l more = elim l.no_dead_ends [
    | inl none_there ↦ absurd (ground (arith, more, none_there))
    | inr (itemset, found) ↦
        let h = l.sound itemset found in
        let most = count_below-le n (has_all view itemset) in
        omega (arith, h.enough, most, some_left)
  ]

  mine_level_at :
      (x : ℕ) (t : Trie) (rest : Subtries)
      → IsLevelOf n f view db.count support (suc d) (node false (arc x t rest))
      → Ends
          (IsMinedLevel n f view db.count support (suc (suc d)) out)
          (mine_level db support (suc (suc d)) (node false (arc x t rest)) out)
  unfolding mine_level new_tidlist_walk
  mine_level_at x t rest l =
      let b = arc x t rest in
      let freq = node false b in
      let some_txn = some_transaction b l (unfold empty in refl) in
      let cache = make_cache-length n f view db v first (suc (suc d)) in
      let all_visits : All (IsVisit freq) (visits_arcs [] [] freq b) =
        visits-IsVisit f freq d [] [] b b l.level.1 l.distinct
          (λ y u s has q. HasArc-query y u s false b l.distinct has ∙ q) in
      let walk : Walk = record { frames = at_node freq ∷ []; current = [] } in
      let kept : IsKept n f view (suc (suc d)) walk cache.out = record {
        depth = suc (suc d);
        fits = (FitsArcs-suc f (suc d) b (arcs-FitsArcs f d b l.level.1), tt);
        sums = omega arith;
        same_size = cache.is_so;
        holds = tt;
      } in
      let start : Mined = record {
        freq_next = def_node;
        candidate_itemset = replicate (suc (suc d)) 0;
        out = out;
      } in
      let mining : IsMining n f view db.count support (suc (suc d)) out
          (λ z. Any (IsMade db.count z) (visits_arcs [] [] freq b)) start =
        record {
          new = [];
          put_out = sym (append-nil out);
          patterns = tt;
          level = (refl, tt);
          distinct = tt;
          finds = nothing_found;
          buffer = length-replicate (suc (suc d)) 0;
          no_dead_ends = inl (unfold empty in refl);
          reaches = λ z h. inr (frequent-IsMade n f view db.count support d b l z h);
        } in
      let ahead : Ahead n f view db v some_txn support (suc d) freq l out (pending walk.frames [])
          start =
        rw (append-nil (visits_arcs [] [] freq b)) (all_visits, mining) in
      let done =
        for_walk-Ends n f view db v some_txn (suc (suc d)) (walk_rounds freq)
          (extend_itemset db support freq) (Ahead n f view db v some_txn support (suc d) freq l out)
          (λ w later cache' m is left kept' a.
            extend_itemset-Ends n f view db v some_txn support (suc d) freq l out (suc (suc d)) w
              later cache' m kept' a)
          (walk_rounds freq) walk.frames [] cache.out start (tt, tt) (omega arith) (omega arith)
          kept ahead in
      rw cache.returns (record {
        out = done.out;
        returns = done.returns;
        is_so =
            IsMining-IsMinedLevel n f view db.count support (suc (suc d)) out done.out done.is_so.1;
      })
    where
      nothing_found : (itemset : List ℕ) → query itemset def_node ≡ false
      nothing_found [] = unfold query in refl
      nothing_found (y ∷ ys) = unfold query in refl

  -- In a database over n transactions that keeps the list of each of the items `f`, of which one
  -- has rank 0, where n and the support are not both 0, the level of size k, at least 2, comes back from a trie of exactly the frequent
  -- itemsets of size k - 1 that is not empty: what it puts out after `out` are exactly the
  -- frequent itemsets of size k, each with the number of its transactions, and its next trie is
  -- one of exactly these.
  pub mine_level-IsMinedLevel :
      (freq : Trie)
      → empty freq ≡ false
      → IsLevelOf n f view db.count support (suc d) freq
      → Ends
          (IsMinedLevel n f view db.count support (suc (suc d)) out)
          (mine_level db support (suc (suc d)) freq out)
  unfolding empty
  mine_level-IsMinedLevel (node e nil) more l = absurd (ground (arith, more))
  mine_level-IsMinedLevel (node true (arc x t rest)) more l = absurd (ground (arith, l.level.0))
  mine_level-IsMinedLevel (node false (arc x t rest)) more l = mine_level_at x t rest l
