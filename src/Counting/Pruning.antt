-- ===== src/Counting/Pruning.antt =====
-- `prune_2_items` of src/2-items/Count.cxx: its walk comes back, and has kept exactly the pairs that
-- occur often enough.
use bitdrill.Base.{ℕ, suc, ◌+◌, ◌-◌, ◌^◌, ◌<◌, ◌≤◌, ◌≡◌, refl, ap, ◌∙◌, sym, arith, ◌⊎◌, inl, inr}
use bitdrill.Base.{
  not, ◌&&◌, Option, some, List, [], ◌∷◌, length, leb, ◌==◌, ==_iff, Bool-cases, le_cases,
}
use bitdrill.VerticalDb.Reorder.Moves.{at}
use bitdrill.Graph.{Graph}
use bitdrill.Graph.Laws.{addu-IsJoined}
use bitdrill.UtMatrix.{elt, next_place}
use bitdrill.UtMatrix.Places.{tri, elt-lt, elt_first, elt-next_row, elt-next_column, elt-last}
use bitdrill.Counting.{Pruned, keep_edge, keep_pair, prune_loop}
use bitdrill.Counting.Kept.{IsKept, kept, passed_over, joined-IsKept}

module _ (n support : ℕ) (rep : List ℕ)
    (small : (a b : ℕ) → a < b → b < n → at rep (elt n a b) < 2 ^ 32) where
  -- What is left of the vector at (i, j), or nothing past the last row.
  abbrev IsLeft : ℕ → ℕ → List ℕ → Type 0
  IsLeft i j rest =
      ((i ≤ j)
        × (j < n)
        × (elt n i j + length rest ≡ tri n)
        × ((k : ℕ) → at rest k ≡ at rep (elt n i j + k)))
      ⊎ ((n ≤ i) × (length rest ≡ 0))

  next-IsLeft :
      (i j weight : ℕ) (rest : List ℕ)
      → i ≤ j
      → j < n
      → elt n i j + length (weight ∷ rest) ≡ tri n
      → ((k : ℕ) → at (weight ∷ rest) k ≡ at rep (elt n i j + k))
      → IsLeft (next_place n i j).0 (next_place n i j).1 rest
  next-IsLeft i j weight rest le h size reads = elim (Bool-cases (j + 1 == n)) [
    | inr goes_on ↦
        let inside : suc j < n = ground (arith, goes_on, h) in
        let step = elt-next_column n i j le inside in
        let column : j + 1 ≡ suc j = omega arith in
        rw (goes_on, column)
          (inl (
            omega arith,
            inside,
            omega (arith, step, size),
            λ k. reads (suc k) ∙ ap (at rep) (omega (arith, step)),
          ))
    | inl row_ends ↦
        let last : j + 1 ≡ n = (==_iff (j + 1) n).0 row_ends in
        let row : i + 1 ≡ suc i = omega arith in
        elim (le_cases n (suc i)) [
          | inl over ↦
              let full = elt-last n i j le h (omega (arith, last)) over in
              rw (row_ends, row) (inr (over, omega (arith, full, size)))
          | inr more ↦
              let before : n - 1 ≡ j = omega (arith, last) in
              let step : elt n (suc i) (suc i) ≡ elt n i j + 1 =
                elt-next_row n i more ∙ ap (λ c. elt n i c + 1) before in
              rw (row_ends, row)
                (inl (
                  omega arith,
                  more,
                  omega (arith, step, size),
                  λ k. reads (suc k) ∙ ap (at rep) (omega (arith, step)),
                ))
        ]
  ]

  AreKept : ℕ → ℕ → Pruned → Type 0
  AreKept i j s = IsKept n support rep i j s.f2 × IsKept n support rep i j s.f2_load

  pub record IsPruned (result : Option Pruned) : Type 0 where
    pub out : Pruned
    pub returns : result ≡ some out
    pub f2 : IsKept n support rep n n out.f2
    pub f2_load : IsKept n support rep n n out.f2_load

  record IsStep (i j : ℕ) (result : Option Pruned) : Type 0 where
    out : Pruned
    returns : result ≡ some out
    f2 : IsKept n support rep i j out.f2
    f2_load : IsKept n support rep i j out.f2_load

  keep_pair-IsStep :
      (i j : ℕ) (s : Pruned)
      → i ≤ j
      → j < n
      → IsKept n support rep i j s.f2
      → IsKept n support rep i j s.f2_load
      → IsStep
          (next_place n i j).0
          (next_place n i j).1
          (keep_pair support i j (at rep (elt n i j)) s)
  unfolding keep_pair keep_edge
  keep_pair-IsStep i j s le h k l =
      let w = at rep (elt n i j) in
      elim (Bool-cases (leb support w && not (i == j))) [
        | inr rare ↦ rw rare (record {
          out = s;
          returns = refl;
          f2 = passed_over n support rep i j s.f2 le h rare k;
          f2_load = passed_over n support rep i j s.f2_load le h rare l;
        })
        | inl often ↦
            let first =
              addu-IsJoined i j w s.f2 (omega (arith, le, h, k.sized))
                (omega (arith, h, k.sized)) in
            let second =
              addu-IsJoined i j w s.f2_load (omega (arith, le, h, l.sized))
                (omega (arith, h, l.sized)) in
            rw (often, first.returns, second.returns)
              (record {
                out = _;
                returns = refl;
                f2 =
                    joined-IsKept n support rep i j le h often (λ less. small i j less h) s.f2 _ k
                      first;
                f2_load =
                    joined-IsKept n support rep i j le h often (λ less. small i j less h) s.f2_load
                      _ l second;
              })
      ]

  -- Past the last row the walk has been everywhere.
  past-IsKept :
      (i j : ℕ) (g : Graph) → n ≤ i → IsKept n support rep i j g → IsKept n support rep n n g
  past-IsKept i j g h k = record {
    sized = k.sized;
    joins = λ a b. k.joins a b ∙ everywhere a b;
    weighs = λ a b. rw (sym (everywhere a b)) (k.weighs a b);
    distinct = k.distinct;
  }
    where
      everywhere : (a b : ℕ) → kept n support rep i j a b ≡ kept n support rep n n a b
      everywhere a b = ground (arith, h)

  prune_loop-IsPruned :
      (rest : List ℕ) (i j : ℕ) (s : Pruned)
      → IsLeft i j rest
      → IsKept n support rep i j s.f2
      → IsKept n support rep i j s.f2_load
      → IsPruned (prune_loop support n rest i j s)
  unfolding prune_loop
  prune_loop-IsPruned [] i j s (inl (le, h, size, reads)) k l =
      absurd (omega (arith, elt-lt n i j le h, size))
  prune_loop-IsPruned [] i j s (inr (over, size)) k l = record {
    out = s;
    returns = refl;
    f2 = past-IsKept i j s.f2 over k;
    f2_load = past-IsKept i j s.f2_load over l;
  }
  prune_loop-IsPruned (weight ∷ rest) i j s (inr (over, size)) k l = absurd (omega (arith, size))
  prune_loop-IsPruned (weight ∷ rest) i j s (inl (le, h, size, reads)) k l =
      let here : weight ≡ at rep (elt n i j) = reads 0 ∙ ap (at rep) (omega arith) in
      let step = keep_pair-IsStep i j s le h k l in
      rw (here, step.returns, prune_loop)
        (prune_loop-IsPruned rest (next_place n i j).0 (next_place n i j).1 step.out
          (next-IsLeft i j weight rest le h size reads) step.f2 step.f2_load)

  -- From graphs without edges.
  pub prune_walk-IsPruned :
      (s : Pruned)
      → length rep ≡ tri n
      → IsKept n support rep 0 0 s.f2
      → IsKept n support rep 0 0 s.f2_load
      → IsPruned (prune_loop support n rep 0 0 s)
  prune_walk-IsPruned s size k l = prune_loop-IsPruned rep 0 0 s start k l
    where
      start : IsLeft 0 0 rep
      start = elim (le_cases n 0) [
        | inl none_there ↦
            let empty : n ≡ 0 = omega (arith, none_there) in
            let of_tri = ap tri empty in inr (none_there, omega (arith, size, of_tri))
        | inr some_row ↦
            let first = elt_first n some_row in
            inl (
              omega arith,
              some_row,
              omega (arith, first, size),
              λ k. ap (at rep) (omega (arith, first)),
            )
      ]
