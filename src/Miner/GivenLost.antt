-- ===== src/Miner/GivenLost.antt =====
-- `discover_cand` of src/bitdrill/Miner.cxx makes a walk over the candidates of each size without
-- looking whether there are any, and `Walk_Tidlist` over an empty trie pops from an empty vector.
use bitdrill.Base.{ℕ, zero, suc, ◌+◌, ◌-◌, ◌<◌, ◌≤◌, ◌≡◌, refl, arith, inl, inr}
use bitdrill.Base.{
  false, Option, some, none, List, [], ◌∷◌, get_elem?, if◌then◌else◌, ◌==◌, ◌>>=◌, min,
  Option-cases,
}
use bitdrill.Trie.{def_node}
use bitdrill.TidList.{TidList}
use bitdrill.VerticalDb.{VerticalDb}
use bitdrill.Walk.{at_node, leave}
use bitdrill.TidlistWalk.{TidlistWalk, make_cache, new_tidlist_walk, tidlist_next, for_walk}
use bitdrill.TidlistWalk.Follows.{with_cache}
use bitdrill.PatternSet.{Pattern, PatternSet, min_length}
use bitdrill.Miner.{insert_patterns, walk_rounds}
use bitdrill.Miner.Given.{count_itemset, count_size, count_sizes, discover_cand}

empty_walk-none :
    {S : Type 0} (db : VerticalDb) (body : TidlistWalk → S → Option S) (cache : List TidList)
    (s : S)
    → for_walk
        (walk_rounds def_node)
        db
        body
        (walk_rounds def_node)
        (with_cache (record { frames = at_node def_node ∷ []; current = [] }) cache)
        s
      ≡ none
unfolding for_walk tidlist_next leave
empty_walk-none db body cache s = refl

empty_size-none :
    (db : VerticalDb) (support : ℕ) (s : PatternSet) (k : ℕ) (out : List Pattern)
    → get_elem? s.bysize k ≡ some []
    → count_size db support s k out ≡ none
unfolding count_size insert_patterns new_tidlist_walk
empty_size-none db support s k out e = elim (Option-cases (make_cache db k)) [
  | inl missing ↦ rw (e, missing) refl
  | inr (cache, made) ↦ rw (e, made) (empty_walk-none db (count_itemset support) cache out)
]

count_sizes-none :
    (left i : ℕ) (db : VerticalDb) (support : ℕ) (s : PatternSet) (k : ℕ) (out : List Pattern)
    → i < left
    → get_elem? s.bysize (k + i) ≡ some []
    → count_sizes left db support s k out ≡ none
unfolding count_sizes
count_sizes-none zero i db support s k out lt e = absurd (omega arith)
count_sizes-none (suc left) zero db support s k out lt e =
    let here : k + 0 ≡ k = omega arith in
    rw (empty_size-none db support s k out (rw here at e)) refl
count_sizes-none (suc left) (suc i) db support s k out lt e =
    let there : k + suc i ≡ k + 1 + i = omega arith in
    later (count_size db support s k out)
      (λ out'. count_sizes-none left i db support s (k + 1) out' (omega arith) (rw there at e))
  where
    later :
        (o : Option (List Pattern))
        → ((out' : List Pattern) → count_sizes left db support s (k + 1) out' ≡ none)
        → (o >>= λ out'. count_sizes left db support s (k + 1) out') ≡ none
    later none h = refl
    later (some out') h = h out'

-- Where no pattern of a positive size is given, and the size is at least that of the smallest
-- pattern given and at most the largest that is to be counted, `discover_cand` does not come back
-- with a result, whatever the database is and whatever the candidates of the other sizes are.
pub discover_cand-Lost :
    (db : VerticalDb) (support : ℕ) (s : PatternSet) (out : List Pattern)
    (max_level smallest size : ℕ)
    → min_length s ≡ some smallest
    → smallest ≤ size
    → size ≤ (if max_level == 0 then s.max_length else min max_level s.max_length)
    → 0 < size
    → get_elem? s.bysize size ≡ some []
    → discover_cand db support s out max_level ≡ none
unfolding discover_cand
discover_cand-Lost db support s out max_level smallest size starts le ends positive e =
    rw starts (with_last (if max_level == 0 then s.max_length else min max_level s.max_length) ends)
  where
    with_last :
        (last : ℕ)
        → size ≤ last
        → (if last == 0
            then some out
            else count_sizes (last + 1 - smallest) db support s smallest out)
          ≡ none
    with_last last ends =
        let some_level : (last == 0) ≡ false = ground (arith, positive, ends) in
        let place : smallest + (size - smallest) ≡ size = omega (arith, le) in
        rw some_level (
          count_sizes-none (last + 1 - smallest) (size - smallest) db support s smallest out
            (omega (arith, le, ends)) (rw place e))
