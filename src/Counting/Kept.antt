-- ===== src/Counting/Kept.antt =====
-- The walk of `prune_2_items` in src/2-items/Count.cxx leaves a graph of the pairs that occur often
-- enough.
use bitdrill.Base.{ℕ, ◌+◌, ◌^◌, ◌<◌, ◌≤◌, ◌≡◌, refl, ap, ◌∙◌, sym, arith, inl, inr}
use bitdrill.Base.{
  Bool, true, false, not, ◌&&◌, ◌||◌, Option, List, length, if◌then◌else◌, leb, ltb, ◌==◌,
  Bool-cases,
}
use bitdrill.VerticalDb.Reorder.Moves.{at}
use bitdrill.Graph.{Graph}
use bitdrill.Graph.Laws.{weight_at, joined_at, HasDistinctEdges, raised, IsJoined}
use bitdrill.UtMatrix.{elt, next_place}

-- Whether a walk that is at (i, j) has been at (a, b).
abbrev pub passed : ℕ → ℕ → ℕ → ℕ → Bool
passed i j a b = ltb a i || (a == i && ltb b j)

passed-next_place :
    (n i j a b : ℕ)
    → j < n
    → a ≤ b
    → b < n
    → passed (next_place n i j).0 (next_place n i j).1 a b ≡ (passed i j a b || (a == i && b == j))
passed-next_place n i j a b h l k = elim (Bool-cases (j + 1 == n)) [
  | inl row_ends ↦ rw row_ends (ground (arith, row_ends))
  | inr goes_on ↦ rw goes_on (ground arith)
]

module _ (n support : ℕ) (rep : List ℕ) where
  abbrev weight_of : ℕ → ℕ → ℕ
  weight_of a b = at rep (elt n a b)

  -- A pair a < b that the walk has passed, and that is kept.
  abbrev kept_up : ℕ → ℕ → ℕ → ℕ → Bool
  kept_up i j a b = ltb a b && ltb b n && passed i j a b && leb support (weight_of a b)

  abbrev pub kept : ℕ → ℕ → ℕ → ℕ → Bool
  kept i j a b = kept_up i j a b || kept_up i j b a

  abbrev pub value : ℕ → ℕ → ℕ
  value a b = if ltb a b then weight_of a b else weight_of b a

  kept_up-next :
      (i j a b : ℕ)
      → i ≤ j
      → j < n
      → kept_up (next_place n i j).0 (next_place n i j).1 a b
        ≡ (kept_up i j a b || (a == i && b == j && leb support (weight_of i j) && not (i == j)))
  kept_up-next i j a b le h = elim (Bool-cases (ltb a b && ltb b n)) [
    | inr outside ↦ ground (arith, outside, h)
    | inl within ↦
        let step =
          passed-next_place n i j a b h (ground (arith, within)) (ground (arith, within)) in
        elim (Bool-cases (a == i && b == j)) [
          | inl here ↦
              let first : a ≡ i = ground (arith, here) in
              let second : b ≡ j = ground (arith, here) in
              let same : weight_of a b ≡ weight_of i j =
                ap (λ x. weight_of x b) first ∙ ap (weight_of i) second in
              rw step (rw same (ground (arith, within, here)))
          | inr elsewhere ↦ rw step (ground (arith, within, elsewhere))
        ]
  ]

  pub record IsKept (i j : ℕ) (g : Graph) : Type 0 where
    pub sized : length g.adjacency ≡ n
    pub joins : (a b : ℕ) → joined_at g a b ≡ kept i j a b
    pub weighs : (a b : ℕ) → weight_at g a b ≡ (if kept i j a b then value a b else 0)
    pub distinct : HasDistinctEdges g

  pub passed_over :
      (i j : ℕ) (g : Graph)
      → i ≤ j
      → j < n
      → (leb support (weight_of i j) && not (i == j)) ≡ false
      → IsKept i j g
      → IsKept (next_place n i j).0 (next_place n i j).1 g
  passed_over i j g le h rare k = record {
    sized = k.sized;
    joins = λ a b.
        k.joins a b ∙ ground (arith, kept_up-next i j a b le h, kept_up-next i j b a le h, rare);
    weighs = λ a b.
        let same : kept (next_place n i j).0 (next_place n i j).1 a b ≡ kept i j a b =
          ground (arith, kept_up-next i j a b le h, kept_up-next i j b a le h, rare) in
        rw same (k.weighs a b);
    distinct = k.distinct;
  }

  module _ (i j : ℕ) (le : i ≤ j) (h : j < n)
      (often : (leb support (weight_of i j) && not (i == j)) ≡ true)
      (small : i < j → weight_of i j < 2 ^ 32) where
    kept-next :
        (a b : ℕ)
        → kept (next_place n i j).0 (next_place n i j).1 a b
          ≡ ((j == a && i == b) || ((i == a && j == b) || kept i j a b))
    kept-next a b = ground (arith, kept_up-next i j a b le h, kept_up-next i j b a le h, often)

    value_here : (a b : ℕ) → (i == a && j == b) ≡ true → value a b ≡ weight_of i j
    value_here a b here =
        let first : a ≡ i = ground (arith, here) in
        let second : b ≡ j = ground (arith, here) in
        let same : weight_of a b ≡ weight_of i j =
          ap (λ x. weight_of x b) first ∙ ap (weight_of i) second in
        ground (arith, same, often, le, first, second)

    value_turned : (a b : ℕ) → (j == a && i == b) ≡ true → value a b ≡ weight_of i j
    value_turned a b here =
        let first : a ≡ j = ground (arith, here) in
        let second : b ≡ i = ground (arith, here) in
        let same : weight_of b a ≡ weight_of i j =
          ap (λ x. weight_of x a) second ∙ ap (weight_of i) first in
        ground (arith, same, often, le, first, second)

    kept_weight :
        (a b : ℕ)
        → raised
            (j == a && i == b)
            (weight_of i j)
            (raised (i == a && j == b) (weight_of i j) (if kept i j a b then value a b else 0))
          ≡ (if kept (next_place n i j).0 (next_place n i j).1 a b then value a b else 0)
    kept_weight a b =
        let within = small (ground (arith, often, le)) in
        rw (kept-next a b) (elim (Bool-cases (i == a && j == b)) [
          | inl here ↦
              let new : kept i j a b ≡ false = ground (arith, here, le) in
              let once : (j == a && i == b) ≡ false = ground (arith, here, often) in
              rw (new, here, once) (ground (arith, value_here a b here, within))
          | inr other ↦ elim (Bool-cases (j == a && i == b)) [
            | inl turned ↦
                let new : kept i j a b ≡ false = ground (arith, turned, le) in
                rw (new, other, turned) (ground (arith, value_turned a b turned, within))
            | inr neither ↦ rw (other, neither) refl
          ]
        ])

    pub joined-IsKept :
        (g : Graph) (result : Option Graph)
        → IsKept i j g
        → (d : IsJoined i j (weight_of i j) g result)
        → IsKept (next_place n i j).0 (next_place n i j).1 d.out
    joined-IsKept g result k d = record {
      sized = d.sized ∙ k.sized;
      joins = λ a b.
          d.joins a b
          ∙ ap (λ q. (j == a && i == b) || ((i == a && j == b) || q)) (k.joins a b)
          ∙ sym (kept-next a b);
      weighs = λ a b.
          d.weighs a b
          ∙ ap
              (λ q.
                raised (j == a && i == b) (weight_of i j)
                  (raised (i == a && j == b) (weight_of i j) q))
              (k.weighs a b)
          ∙ kept_weight a b;
      distinct = d.distinct k.distinct;
    }
