-- ===== src/VerticalDb/Reorder/Moves.antt =====
-- Reads and swaps in a list, and lists that differ only in the order of a part.
use bitdrill.Base.{ℕ, zero, suc, ◌+◌, ◌≤◌, ◌<◌, ◌≡◌, refl, ◌∙◌, arith, ◌⊎◌, inl, inr}
use bitdrill.Base.{
  some, List, [], ◌∷◌, length, length-set, get_elem?, set, ◌==◌, one_if, if◌then◌else◌, Bool-cases,
}
use bitdrill.TransactionSet.Frequent.{occurrences}
use bitdrill.VerticalDb.Reorder.{swap}

-- The item at a place, 0 outside.
abbrev pub at : List ℕ → ℕ → ℕ
at [] k = 0
at (x ∷ xs) zero = x
at (x ∷ xs) (suc k) = at xs k

pub get_elem?-at : (xs : List ℕ) (k : ℕ) → k < length xs → get_elem? xs k ≡ some (at xs k)
get_elem?-at [] k h = absurd (omega arith)
get_elem?-at (x ∷ xs) zero h = refl
get_elem?-at (x ∷ xs) (suc k) h = get_elem?-at xs k (omega arith)

pub at-set :
    (xs : List ℕ) (i v k : ℕ) → i < length xs → at (set xs i v) k ≡ (if i == k then v else at xs k)
at-set [] i v k h = absurd (omega arith)
at-set (x ∷ xs) zero v zero h = refl
at-set (x ∷ xs) zero v (suc k) h = ground arith
at-set (x ∷ xs) (suc i) v zero h = ground arith
at-set (x ∷ xs) (suc i) v (suc k) h = ground (arith, at-set xs i v k)

occurrences-set :
    (y : ℕ) (xs : List ℕ) (i v : ℕ)
    → i < length xs
    → occurrences y (set xs i v) + one_if (y == at xs i) ≡ occurrences y xs + one_if (y == v)
occurrences-set y [] i v h = absurd (omega arith)
occurrences-set y (x ∷ xs) zero v h = omega arith
occurrences-set y (x ∷ xs) (suc i) v h = omega (arith, occurrences-set y xs i v)

-- The places from p to r hold the items that they held before, all else is as it was, and every
-- item occurs as often.
pub record IsMoved (p r : ℕ) (old new : List ℕ) : Type 0 where
  pub sized : length new ≡ length old
  pub outside : (k : ℕ) → (k < p) ⊎ (r < k) → at new k ≡ at old k
  pub inside : (k : ℕ) → p ≤ k → k ≤ r → (l : ℕ) × (p ≤ l) × (l ≤ r) × (at new k ≡ at old l)
  pub same : (y : ℕ) → occurrences y new ≡ occurrences y old

pub IsMoved-refl : (p r : ℕ) (xs : List ℕ) → IsMoved p r xs xs
IsMoved-refl p r xs = record {
  sized = refl;
  outside = λ k h. refl;
  inside = λ k a b. (k, a, b, refl);
  same = λ y. refl;
}

pub IsMoved-trans :
    (p r : ℕ) (xs ys zs : List ℕ) → IsMoved p r xs ys → IsMoved p r ys zs → IsMoved p r xs zs
IsMoved-trans p r xs ys zs f g = record {
  sized = g.sized ∙ f.sized;
  outside = λ k h. g.outside k h ∙ f.outside k h;
  inside = λ k a b.
      let (l, c, d, e) = g.inside k a b in
      let (m, c', d', e') = f.inside l c d in (m, c', d', e ∙ e');
  same = λ y. g.same y ∙ f.same y;
}

pub outside_or_inside : (p r k : ℕ) → ((k < p) ⊎ (r < k)) ⊎ ((p ≤ k) × (k ≤ r))
outside_or_inside p r k = ground arith

-- A move within a part is one within a larger part.
pub IsMoved-widen :
    (p r p' r' : ℕ) (xs ys : List ℕ) → p ≤ p' → r' ≤ r → IsMoved p' r' xs ys → IsMoved p r xs ys
IsMoved-widen p r p' r' xs ys lo hi f = record {
  sized = f.sized;
  outside = λ k h. f.outside k (further k h);
  inside = λ k a b. elim (outside_or_inside p' r' k) [
    | inl out ↦ (k, a, b, f.outside k out)
    | inr within ↦
        let (l, c, d, e) = f.inside k within.0 within.1 in
        (l, omega (arith, c), omega (arith, d), e)
  ];
  same = f.same;
}
  where
    further : (k : ℕ) → (k < p) ⊎ (r < k) → (k < p') ⊎ (r' < k)
    further k (inl a) = inl (omega arith)
    further k (inr b) = inr (omega arith)

abbrev pub swapped : List ℕ → ℕ → ℕ → List ℕ
swapped xs i j = set (set xs i (at xs j)) j (at xs i)

pub swap-swapped :
    (xs : List ℕ) (i j : ℕ) → i < length xs → j < length xs → swap xs i j ≡ some (swapped xs i j)
swap-swapped xs i j hi hj = rw (get_elem?-at xs i hi, get_elem?-at xs j hj) refl

pub at-swapped :
    (xs : List ℕ) (i j k : ℕ)
    → i < length xs
    → j < length xs
    → at (swapped xs i j) k ≡ (if j == k then at xs i else if i == k then at xs j else at xs k)
at-swapped xs i j k hi hj =
    let sized = length-set xs i (at xs j) in
    let outer = at-set (set xs i (at xs j)) j (at xs i) k (rw sized hj) in
    ground (arith, outer, at-set xs i (at xs j) k hi)

pub swapped-IsMoved :
    (p r : ℕ) (xs : List ℕ) (i j : ℕ)
    → p ≤ i
    → i < j
    → j ≤ r
    → r < length xs
    → IsMoved p r xs (swapped xs i j)
swapped-IsMoved p r xs i j pi ij jr size = record {
  sized = length-set first j (at xs i) ∙ first_sized;
  outside = λ k h. at-swapped xs i j k below_i below_j ∙ ground (arith, h);
  inside = λ k a b. from k a b;
  same = λ y.
      let one = occurrences-set y xs i (at xs j) below_i in
      let two = occurrences-set y first j (at xs i) (rw first_sized below_j) in
      let there : at first j ≡ at xs j = at-set xs i (at xs j) j below_i ∙ ground arith in
      omega (arith, one, rw there at two);
}
  where
    first : List ℕ
    first = set xs i (at xs j)

    first_sized : length first ≡ length xs
    first_sized = length-set xs i (at xs j)

    below_i : i < length xs
    below_i = omega (arith, pi, ij, jr, size)

    below_j : j < length xs
    below_j = omega (arith, jr, size)

    from : (k : ℕ) → p ≤ k → k ≤ r → (l : ℕ) × (p ≤ l) × (l ≤ r) × (at (swapped xs i j) k ≡ at xs l)
    from k a b = elim (Bool-cases (j == k)) [
      | inl last ↦
          (i, pi, omega (arith, ij, jr), at-swapped xs i j k below_i below_j ∙ ground (arith, last))
      | inr other ↦ elim (Bool-cases (i == k)) [
        | inl here ↦ (
          j,
          omega (arith, pi, ij),
          jr,
          at-swapped xs i j k below_i below_j ∙ ground (arith, other, here),
        )
        | inr neither ↦
            (k, a, b, at-swapped xs i j k below_i below_j ∙ ground (arith, other, neither))
      ]
    ]

-- What holds of every item holds of every item after a move.
pub at-IsMoved :
    (P : ℕ → Type 0) (p r : ℕ) (xs ys : List ℕ)
    → IsMoved p r xs ys
    → r < length xs
    → ((k : ℕ) → k < length xs → P (at xs k))
    → (k : ℕ) → k < length ys
    → P (at ys k)
at-IsMoved P p r xs ys f size h k b = elim (outside_or_inside p r k) [
  | inl out ↦ rw (f.outside k out) (h k (omega (arith, b, f.sized)))
  | inr within ↦
      let (l, c, d, e) = f.inside k within.0 within.1 in rw e (h l (omega (arith, d, size)))
]
