-- ===== src/Miner/Counted.antt =====
-- The body of the loop over the candidates, in src/bitdrill/Miner.cxx.
use bitdrill.Base.{◌<◌}
use bitdrill.TidList.Laws.{some-HasWords}
use bitdrill.Base.{ℕ, suc, ◌≡◌, refl, ap, ap₂, ◌∙◌, sym, arith, ◌⊎◌, inl, inr}
use bitdrill.Base.{Bool, true, ◌&&◌, some, List, length, All, leb, Bool-cases}
use bitdrill.Base.Count.{count_below, count_below_ext}
use bitdrill.TidVector.Laws.{has}
use bitdrill.TidList
use bitdrill.TidList.{TidList}
use bitdrill.TidList.Laws.{count_intersection-count_below}
use bitdrill.Trie.{Trie, Subtries, nil, arc}
use bitdrill.Trie.Level.{HasSymbol}
use bitdrill.VerticalDb.{VerticalDb, greater_freq, insert_by}
use bitdrill.VerticalDb.Laws.{Tells}
use bitdrill.VerticalDb.Order.{InOrder}
use bitdrill.VerticalDb.Building.{IsVertical}
use bitdrill.VerticalDb.Frequency.{has_all}
use bitdrill.Walk.{for_candidates}
use bitdrill.PatternSet.{Pattern}
use bitdrill.TidlistWalk.Loop.{Ends}
use bitdrill.Miner.{Mined}
use bitdrill.Miner.Levels.{count_candidate, consider}
use bitdrill.Miner.Frequent.{IsFrequent, has_all-insert_by}
use bitdrill.Miner.Considered.{
  IsLevelOf, IsMining, IsMining-map, merge_into_lem, answers, frequent-supported, leave_out, put_in,
}

-- What a candidate has, frequent or not.
pub record IsCandidate (f count : List ℕ) (k : ℕ) (itemset : List ℕ) : Type 0 where
  pub of_size : length itemset ≡ k
  pub known : All (λ i. has f i ≡ true) itemset
  pub in_order : InOrder (greater_freq count) itemset

module _ (n : ℕ) (f : List ℕ) (view : ℕ → ℕ → Bool) (db : VerticalDb) (v : IsVertical n f view db)
    (some_txn : 0 < n) (support j : ℕ) (freq : Trie)
    (l : IsLevelOf n f view db.count support j freq) (out : List Pattern) (intersection : TidList)
    (itemset : List ℕ) (tells : Tells n (has_all view itemset) intersection) where
  count_candidate-Ends :
      (G H : List ℕ → Type 0) (diff : ℕ) (candidate : List ℕ) (m : Mined)
      → insert_by (greater_freq db.count) diff itemset ≡ candidate
      → has f diff ≡ true
      → IsCandidate f db.count (suc j) candidate
      → ((x : List ℕ) → G x → (candidate ≡ x) ⊎ H x)
      → IsMining n f view db.count support (suc j) out G m
      → Ends
          (IsMining n f view db.count support (suc j) out H)
          (count_candidate db support intersection diff candidate m)
  unfolding count_candidate
  count_candidate-Ends G H diff candidate m merged known c split i =
      let entry = v.lists diff known in
      let same : (t : ℕ) → has_all view candidate t ≡ (view diff t && has_all view itemset t) = λ t.
        ap (λ c. has_all view c t) (sym merged)
        ∙ has_all-insert_by view (greater_freq db.count) diff itemset t in
      let frequency = count_below n (has_all view candidate) in
      let counts : TidList.count_intersection intersection entry.out support ≡ some frequency =
        count_intersection-count_below n intersection entry.out support tells.0 entry.tells.0
          (some-HasWords intersection.implementation entry.out.implementation n some_txn)
        ∙ ap some (
            count_below_ext n _ (has_all view candidate) λ t inside.
              ap₂ ◌&&◌ (tells.1 t inside) (entry.tells.1 t inside) ∙ ground (arith, same t)) in
      elim (Bool-cases (leb support frequency)) [
        | inl enough ↦
            let h : IsFrequent n f view db.count support (suc j) candidate = record {
              of_size = c.of_size;
              known = c.known;
              in_order = c.in_order;
              enough = ground (arith, enough);
            } in
            rw (entry.reads, counts, enough)
              (record {
                out = _;
                returns = refl;
                is_so =
                    put_in n f view db v support j freq l out G H candidate frequency m h refl split
                      i;
              })
        | inr rare ↦
            rw (entry.reads, counts, rare)
              (record {
                out = _;
                returns = refl;
                is_so =
                    leave_out n f view db v support j freq l out G H candidate m c.of_size
                      (λ h. ground (arith, h.enough, rare)) split i;
              })
      ]

  -- One candidate: afterwards it need no longer be made.
  pub consider-Ends :
      (G H : List ℕ → Type 0) (diff : ℕ) (m : Mined)
      → length itemset ≡ j
      → has f diff ≡ true
      → IsCandidate f db.count (suc j) (insert_by (greater_freq db.count) diff itemset)
      → ((x : List ℕ) → G x → (insert_by (greater_freq db.count) diff itemset ≡ x) ⊎ H x)
      → IsMining n f view db.count support (suc j) out G m
      → Ends
          (IsMining n f view db.count support (suc j) out H)
          (consider db support freq intersection itemset diff m)
  unfolding consider
  consider-Ends G H diff m size known c split i =
      let candidate = insert_by (greater_freq db.count) diff itemset in
      let merged =
        merge_into_lem (greater_freq db.count) itemset diff m.candidate_itemset
          (omega (arith, size, i.buffer)) in
      let answer = answers candidate freq (omega (arith, c.of_size)) in
      elim (Bool-cases answer.0) [
        | inl supported ↦
            rw (merged, answer.1, supported)
              (count_candidate-Ends G H diff candidate m refl known c split i)
        | inr missing ↦
            rw (merged, answer.1, missing)
              (record {
                out = _;
                returns = refl;
                is_so =
                    leave_out n f view db v support j freq l out G H candidate m c.of_size
                      (λ h.
                        let says : some answer.0 ≡ some true =
                          sym answer.1
                          ∙ frequent-supported n f view db v support j freq l out candidate h in
                        absurd (ground (arith, says, missing)))
                      split i;
              })
      ]

  -- What the arcs after the first still make.
  abbrev pub Makes : (List ℕ → Type 0) → Subtries → List ℕ → Type 0
  Makes H it x =
      ((y : ℕ) × HasSymbol y it × (insert_by (greater_freq db.count) y itemset ≡ x)) ⊎ H x

  -- All candidates of an itemset.
  pub for_candidates-Ends :
      (H : List ℕ → Type 0) (z : ℕ) (u : Trie) (it : Subtries) (m : Mined)
      → length itemset ≡ j
      → ((y : ℕ)
          → HasSymbol y it
          → (has f y ≡ true)
            × IsCandidate f db.count (suc j) (insert_by (greater_freq db.count) y itemset))
      → IsMining n f view db.count support (suc j) out (Makes H it) m
      → Ends
          (IsMining n f view db.count support (suc j) out H)
          (for_candidates (consider db support freq intersection itemset) (arc z u it) m)
  unfolding for_candidates
  for_candidates-Ends H z u nil m size fine i = record {
    out = m;
    returns = refl;
    is_so =
        IsMining-map n f view db.count support (suc j) out (Makes H nil) H m
          (λ x h ahead. elim ahead [ inl none_left ↦ absurd none_left.1 | inr later ↦ later ]) i;
  }
  for_candidates-Ends H z u (arc y t rest) m size fine i =
      let now = fine y (inl refl) in
      let first =
        consider-Ends (Makes H (arc y t rest)) (Makes H rest) y m size now.0 now.1 (after y rest)
          i in
      rw first.returns
        (for_candidates-Ends H y t rest first.out size (λ x ahead. fine x (inr ahead)) first.is_so)
    where
      after :
          (y : ℕ) (rest : Subtries) (x : List ℕ)
          → ((z : ℕ) × ((z ≡ y) ⊎ HasSymbol z rest)
              × (insert_by (greater_freq db.count) z itemset ≡ x))
            ⊎ H x
          → (insert_by (greater_freq db.count) y itemset ≡ x)
            ⊎ (((z : ℕ) × HasSymbol z rest × (insert_by (greater_freq db.count) z itemset ≡ x))
                ⊎ H x)
      after y rest x (inl (z, inl same, e)) =
          inl (ap (λ k. insert_by (greater_freq db.count) k itemset) (sym same) ∙ e)
      after y rest x (inl (z, inr ahead, e)) = inr (inl (z, ahead, e))
      after y rest x (inr h) = inr (inr h)
