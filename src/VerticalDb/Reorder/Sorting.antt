-- ===== src/VerticalDb/Reorder/Sorting.antt =====
-- The two quick sorts of src/bitdrill/Vertical_DB.cxx come back and sort.
use bitdrill.Base.{ℕ, zero, suc, ◌+◌, ◌≤◌, ◌<◌, ◌≡◌, refl, ◌∙◌, arith, inl, inr}
use bitdrill.Base.{Bool, false, Option, some, List, length, ltb, Bool-cases, le_cases}
use bitdrill.VerticalDb.Reorder.{sort_part}
use bitdrill.VerticalDb.Reorder.Moves.{
  at, IsMoved, IsMoved-refl, IsMoved-trans, IsMoved-widen, at-IsMoved,
}
use bitdrill.VerticalDb.Reorder.Scans.{IsOrderTest, AllOk}
use bitdrill.VerticalDb.Reorder.Partition.{partition-IsDivided}

-- The part from p to r has its items in order, and nothing else has moved.
pub record IsSortedPart (lt : ℕ → ℕ → Bool) (p r : ℕ) (xs : List ℕ) (result : Option (List ℕ))
    : Type 0 where
  pub out : List ℕ
  pub returns : result ≡ some out
  pub moved : IsMoved p r xs out
  pub sorted : (k l : ℕ) → p ≤ k → k < l → l ≤ r → lt (at out l) (at out k) ≡ false

module _ (ok : ℕ → Type 0) (before : ℕ → ℕ → Option Bool) (lt : ℕ → ℕ → Bool)
    (t : IsOrderTest ok before lt) where
  -- Two sorted parts that a partition has divided are one.
  sorted_across :
      (p q r : ℕ) (x : ℕ) (ys zs out : List ℕ)
      → ((k : ℕ) → p ≤ k → k ≤ q → lt x (at ys k) ≡ false)
      → ((k : ℕ) → q < k → k ≤ r → lt (at ys k) x ≡ false)
      → IsMoved p q ys zs
      → IsMoved (q + 1) r zs out
      → (k l : ℕ) → p ≤ k
      → k ≤ q
      → q < l
      → l ≤ r
      → lt (at out l) (at out k) ≡ false
  sorted_across p q r x ys zs out low high left right k l a b c d =
      let (k', ka, kb, of_k) = left.inside k a b in
      let (l', la, lb, of_l) = right.inside l (omega (arith, c)) d in
      let at_k : at out k ≡ at ys k' = right.outside k (inl (omega (arith, b))) ∙ of_k in
      let at_l : at out l ≡ at ys l' = of_l ∙ left.outside l' (inr (omega (arith, la))) in
      rw (at_k, at_l)
        (t.level (at ys k') x (at ys l') (low k' ka kb) (high l' (omega (arith, la)) lb))

  -- A part inside the vector is sorted, with fuel for each of its places.
  pub sort_part-IsSortedPart :
      (fuel : ℕ) (xs : List ℕ) (p r : ℕ)
      → AllOk ok xs
      → r < p + fuel
      → p ≤ r
      → r < length xs
      → IsSortedPart lt p r xs (sort_part fuel before xs p r)
  unfolding sort_part
  sort_part-IsSortedPart zero xs p r all enough part size = absurd (omega arith)
  sort_part-IsSortedPart (suc fuel) xs p r all enough part size = elim (Bool-cases (ltb p r)) [
    | inr one ↦
        rw (one, sort_part)
          (record {
            out = xs;
            returns = refl;
            moved = IsMoved-refl p r xs;
            sorted = λ k l a b c. absurd (ground (arith, one, a, b, c));
          })
    | inl more ↦
        let d = partition-IsDivided ok before lt t xs p r all (ground (arith, more)) size in
        let all_d = at-IsMoved ok p r xs d.out d.moved size all in
        let left =
          sort_part-IsSortedPart fuel d.out p d.q all_d (omega (arith, d.less, enough)) d.ge
            (omega (arith, d.less, size, d.moved.sized)) in
        let size_l : d.q < length d.out = omega (arith, d.less, size, d.moved.sized) in
        let all_l = at-IsMoved ok p d.q d.out left.out left.moved size_l all_d in
        let size_r : r < length left.out = omega (arith, size, d.moved.sized, left.moved.sized) in
        let right =
          sort_part-IsSortedPart fuel left.out (d.q + 1) r all_l (omega (arith, d.ge, enough))
            (omega (arith, d.less)) size_r in
        let both =
          IsMoved-trans p r d.out left.out right.out
            (IsMoved-widen p r p d.q d.out left.out (omega arith) (omega (arith, d.less))
              left.moved)
            (IsMoved-widen p r (d.q + 1) r left.out right.out (omega (arith, d.ge)) (omega arith)
              right.moved) in
        rw (more, d.returns, left.returns, sort_part)
          (record {
            out = right.out;
            returns = right.returns;
            moved = IsMoved-trans p r xs d.out right.out d.moved both;
            sorted = λ k l a b c. elim (le_cases l d.q) [
              | inl low ↦
                  rw
                    (
                      right.moved.outside k (inl (omega (arith, b, low))),
                      right.moved.outside l (inl (omega (arith, low))),
                    )
                    (left.sorted k l a b low)
              | inr after ↦ elim (le_cases k d.q) [
                | inl across ↦
                    sorted_across p d.q r (at xs p) d.out left.out right.out d.low d.high left.moved
                      right.moved k l a across after c
                | inr high ↦ right.sorted k l (omega (arith, high)) b c
              ]
            ];
          })
  ]
