-- ===== src/Miner/GivenLaws.antt =====
-- `discover_cand` of src/bitdrill/Miner.cxx, for the candidates of one size.
use bitdrill.Base.{◌<◌}
use bitdrill.TidList.Laws.{some-HasWords}
use mathlib.Core.List.{append-nil, append_assoc}
use bitdrill.Base.{ℕ, suc, ◌≤◌, ◌≡◌, refl, ap, ◌∙◌, sym, arith, ◌⊎◌, inl, inr}
use bitdrill.Base.{
  Bool, true, false, some, List, [], ◌∷◌, ◌++◌, All, All-append, Any, get_elem?, leb, if◌then◌else◌,
  ◌>>=◌, Bool-cases,
}
use bitdrill.Base.Count.{count_below, count_below_ext}
use bitdrill.TidList
use bitdrill.TidList.{TidList}
use bitdrill.TidList.Laws.{count-count_below}
use bitdrill.Trie.{Trie, node, Subtries, nil, arc, def_node, empty, query}
use bitdrill.Trie.Merge.{HasDistinctArcs}
use bitdrill.Trie.Level.{IsLevel, HasArc-query, level-length}
use bitdrill.VerticalDb.{VerticalDb}
use bitdrill.VerticalDb.Building.{IsVertical}
use bitdrill.VerticalDb.Frequency.{has_all}
use bitdrill.Walk.{Walk, at_node, ref, string_of}
use bitdrill.Walk.Visits.{frame, pending, visits_arcs}
use bitdrill.Walk.Places.{at_arc, IsVisit, visits-IsVisit, visits-found}
use bitdrill.PatternSet.{Pattern, PatternSet}
use bitdrill.TidlistWalk.{new_tidlist_walk, for_walk}
use bitdrill.TidlistWalk.Follows.{with_cache, IsKept}
use bitdrill.TidlistWalk.Loop.{Ends, tidlist_of-Entry, for_walk-Ends}
use bitdrill.TidlistWalk.Cache.{HasFirst, make_cache-length}
use bitdrill.Miner.{insert_patterns, walk_rounds}
use bitdrill.Miner.Given.{count_itemset, count_size}
use bitdrill.Miner.Frequent.{has_all-string_of}
use bitdrill.Miner.Considered.{listed, listed-append, list_eq_refl}
use bitdrill.Miner.Made.{arcs-FitsArcs}

-- A candidate with the number of its transactions, which is at least the support.
pub record IsCounted (n : ℕ) (view : ℕ → ℕ → Bool) (support : ℕ) (cand : Trie) (p : Pattern)
    : Type 0 where
  pub given : query p.itemset cand ≡ true
  pub counted : p.count ≡ count_below n (has_all view p.itemset)
  pub enough : support ≤ p.count

-- What was put out are such candidates; each one with enough transactions is there, or is still to
-- come as `G` says.
pub record IsCounting (n : ℕ) (view : ℕ → ℕ → Bool) (support : ℕ) (cand : Trie) (out : List Pattern)
    (G : List ℕ → Type 0) (result : List Pattern) : Type 0 where
  pub new : List Pattern
  pub put_out : result ≡ out ++ new
  pub patterns : All (IsCounted n view support cand) new
  pub reaches :
      (itemset : List ℕ)
      → query itemset cand ≡ true
      → support ≤ count_below n (has_all view itemset)
      → (listed new itemset ≡ true) ⊎ G itemset

module _ (n : ℕ) (f : List ℕ) (view : ℕ → ℕ → Bool) (db : VerticalDb) (v : IsVertical n f view db)
    (some_txn : 0 < n) (support : ℕ) (cand : Trie) (out : List Pattern) where
  put_counted :
      (G H : List ℕ → Type 0) (itemset : List ℕ) (result : List Pattern)
      → query itemset cand ≡ true
      → ((x : List ℕ) → G x → (itemset ≡ x) ⊎ H x)
      → IsCounting n view support cand out G result
      → IsCounting n view support cand out H (
          if leb support (count_below n (has_all view itemset))
          then result
            ++ record { itemset = itemset; count = count_below n (has_all view itemset) } ∷ []
          else result)
  put_counted G H itemset result found split i =
      let frequency = count_below n (has_all view itemset) in
      let p : Pattern = record { itemset = itemset; count = frequency } in
      elim (Bool-cases (leb support frequency)) [
        | inl enough ↦ rw enough (record {
          new = i.new ++ p ∷ [];
          put_out = ap (◌++ (p ∷ [])) i.put_out ∙ append_assoc out i.new (p ∷ []);
          patterns =
              All-append _ i.new (p ∷ []) i.patterns
                (record { given = found; counted = refl; enough = ground (arith, enough) }, tt);
          reaches = λ x q more. elim (i.reaches x q more) [
            | inl there ↦ inl (ground (arith, there, listed-append i.new (p ∷ []) x))
            | inr ahead ↦ elim (split x ahead) [
              | inl same ↦ inl (
                  rw (sym same)
                    (ground (arith, list_eq_refl itemset, listed-append i.new (p ∷ []) itemset)))
              | inr later ↦ inr later
            ]
          ];
        })
        | inr rare ↦ rw rare (record {
          new = i.new;
          put_out = i.put_out;
          patterns = i.patterns;
          reaches = λ x q more. elim (i.reaches x q more) [
            | inl there ↦ inl there
            | inr ahead ↦ elim (split x ahead) [
              | inl same ↦
                  let few : support ≤ frequency = rw (sym same) at more in
                  absurd (ground (arith, few, rare))
              | inr later ↦ inr later
            ]
          ];
        })
      ]

  count_itemset-Ends :
      (size : ℕ) (w : Walk) (cache : List TidList) (p : IsVisit cand w) (H : List ℕ → Type 0)
      (result : List Pattern)
      → IsKept n f view size w cache
      → IsCounting n view support cand out (λ x. (ref w ≡ x) ⊎ H x) result
      → Ends
          (IsCounting n view support cand out H)
          (count_itemset support (with_cache w cache) result)
  unfolding count_itemset
  count_itemset-Ends size w cache p H result k i =
      let itemset = string_of (p.last ∷ p.front) in
      let here = at_arc p.top p.below p.parent p.last p.child p.rest p.front in
      let kept : IsKept n f view size here cache = rw p.place at k in
      let counting : IsCounting n view support cand out (λ x. (itemset ≡ x) ⊎ H x) result =
        rw p.place at i in
      let entry =
        tidlist_of-Entry n f view size
          (p.top ∷ frame p.parent (arc p.last p.child p.rest) ∷ p.below) p.last p.front cache
          kept in
      let counts : TidList.count entry.out ≡ some (count_below n (has_all view itemset)) =
        count-count_below n entry.out entry.tells.0
          (some-HasWords entry.out.implementation entry.out.implementation n some_txn)
        ∙ ap some (
            count_below_ext n _ _ λ t inside.
              entry.tells.1 t inside ∙ sym (has_all-string_of view (p.last ∷ p.front) t)) in
      rw (p.place, entry.reads, counts)
        (record {
          out = _;
          returns = refl;
          is_so = put_counted _ H itemset result p.found (λ x h. h) counting;
        })

  abbrev Left : List Walk → List Pattern → Type 0
  Left later result =
      All (IsVisit cand) later
      × IsCounting n view support cand out (λ x. Any (λ w. ref w ≡ x) later) result

  count_step :
      (size : ℕ) (w : Walk) (later : List Walk) (cache : List TidList) (result : List Pattern)
      → IsKept n f view size w cache
      → Left (w ∷ later) result
      → Ends (Left later) (count_itemset support (with_cache w cache) result)
  count_step size w later cache result k a =
      let done =
        count_itemset-Ends size w cache a.0.0 (λ x. Any (λ u. ref u ≡ x) later) result k a.1 in
      record { out = done.out; returns = done.returns; is_so = (a.0.1, done.is_so) }

module _ (n : ℕ) (f : List ℕ) (view : ℕ → ℕ → Bool) (db : VerticalDb) (v : IsVertical n f view db)
    (some_txn : 0 < n) (first : HasFirst f db) (support d : ℕ) (out : List Pattern) where
  count_level :
      (x : ℕ) (t : Trie) (rest : Subtries)
      → IsLevel f (suc d) (node false (arc x t rest))
      → HasDistinctArcs (node false (arc x t rest))
      → Ends (IsCounting n view support (node false (arc x t rest)) out (λ itemset. ⊥)) (
          new_tidlist_walk (node false (arc x t rest)) db (suc d) >>= λ walk.
          for_walk
            (walk_rounds (node false (arc x t rest)))
            db
            (count_itemset support)
            (walk_rounds (node false (arc x t rest)))
            walk
            out)
  unfolding new_tidlist_walk
  count_level x t rest l distinct =
      let b = arc x t rest in
      let cand = node false b in
      let cache = make_cache-length n f view db v first (suc d) in
      let all_visits : All (IsVisit cand) (visits_arcs [] [] cand b) =
        visits-IsVisit f cand d [] [] b b l.1 distinct
          (λ y u s ahead q. HasArc-query y u s false b distinct ahead ∙ q) in
      let walk : Walk = record { frames = at_node cand ∷ []; current = [] } in
      let kept : IsKept n f view (suc d) walk cache.out = record {
        depth = suc d;
        fits = (arcs-FitsArcs f d b l.1, tt);
        sums = omega arith;
        same_size = cache.is_so;
        holds = tt;
      } in
      let counting : IsCounting n view support cand out
          (λ z. Any (λ w. ref w ≡ z) (visits_arcs [] [] cand b)) out =
        record {
          new = [];
          put_out = sym (append-nil out);
          patterns = tt;
          reaches = λ z q more.
              inr (visits-found f d [] [] b b z l.1 (level-length f (suc d) z cand l q) q);
        } in
      let left : Left n f view db v some_txn support cand out (pending walk.frames []) out =
        rw (append-nil (visits_arcs [] [] cand b)) (all_visits, counting) in
      let done =
        for_walk-Ends n f view db v some_txn (suc d) (walk_rounds cand) (count_itemset support)
          (Left n f view db v some_txn support cand out)
          (λ w later cache' result is ahead kept' a.
            count_step n f view db v some_txn support cand out (suc d) w later cache' result kept'
              a)
          (walk_rounds cand) walk.frames [] cache.out out (tt, tt) (omega arith) (omega arith) kept
          left in
      rw cache.returns (record { out = done.out; returns = done.returns; is_so = done.is_so.1 })

  -- In a database over n transactions, n not being 0, that keeps the list of each of the items `f`, of which one
  -- has rank 0, let the candidates of a positive size make a trie of itemsets of that size with
  -- items among `f` and distinct arcs that is not empty. Then their count comes back: what it
  -- puts out after `out` are exactly the itemsets of the trie that at least `support`
  -- transactions have, each with the number of its transactions.
  pub count_size-IsCounting :
      (s : PatternSet) (row : List Pattern) (cand : Trie)
      → get_elem? s.bysize (suc d) ≡ some row
      → insert_patterns db row def_node ≡ some cand
      → IsLevel f (suc d) cand
      → HasDistinctArcs cand
      → empty cand ≡ false
      → Ends
          (IsCounting n view support cand out (λ itemset. ⊥))
          (count_size db support s (suc d) out)
  unfolding count_size empty
  count_size-IsCounting s row (node e nil) reads made l distinct some_there =
      absurd (ground (arith, some_there))
  count_size-IsCounting s row (node true (arc x t rest)) reads made l distinct some_there =
      absurd (ground (arith, l.0))
  count_size-IsCounting s row (node false (arc x t rest)) reads made l distinct some_there =
      rw (reads, made) (count_level x t rest l distinct)
