-- ===== src/Counting/Places.antt =====
-- The loops of `only_second_scan` in src/2-items/kdci.hxx that count the pairs of candidates in the
-- transactions.
use bitdrill.Base.{ℕ, ◌+◌, ◌%◌, ◌^◌, ◌<◌, ◌≤◌, ◌≡◌, refl, ap, ap₂, ◌∙◌, sym, arith, inl, inr}
use bitdrill.Base.{
  Bool, false, ◌&&◌, ◌||◌, some, List, [], ◌∷◌, All, if◌then◌else◌, ltb, ◌==◌, one_if, Bool-cases,
}
use bitdrill.TidVector.Laws.{has, has-below, IsAscending}
use bitdrill.Counting.{count_limit, incr_cand_count, count_with, count_pairs, count_transactions}
use bitdrill.Counting.Table.{table, table_ext, pair_place, get_elem?-table, set-table}

-- Cut to the width of the counts.
abbrev pub cut : ℕ → ℕ → ℕ
cut s x = x % count_limit s

cut_suc : (s x : ℕ) → cut s (cut s x + 1) ≡ cut s (x + 1)
unfolding count_limit
cut_suc s x = elim (Bool-cases (ltb s (2 ^ 8))) [
  | inl byte ↦ rw byte (omega arith)
  | inr more ↦ elim (Bool-cases (ltb s (2 ^ 16))) [
    | inl short ↦ rw (more, short) (omega arith)
    | inr long ↦ rw (more, long) (omega arith)
  ]
]

-- A count that is at most the largest support is not cut.
pub cut_small : (s x : ℕ) → x ≤ s → s < 2 ^ 32 → cut s x ≡ x
unfolding count_limit
cut_small s x le fits = elim (Bool-cases (ltb s (2 ^ 8))) [
  | inl byte ↦ rw byte (ground (arith, byte, le))
  | inr more ↦ elim (Bool-cases (ltb s (2 ^ 16))) [
    | inl short ↦ rw (more, short) (ground (arith, short, le))
    | inr long ↦ rw (more, long) (omega (arith, le, fits))
  ]
]

-- Whether the place i, and later the place j, are in an ascending transaction.
abbrev pair_in : List ℕ → ℕ → ℕ → Bool
pair_in [] i j = false
pair_in (x ∷ xs) i j = (i == x && has xs j) || pair_in xs i j

pair_in-fst : (xs : List ℕ) (i j : ℕ) → has xs i ≡ false → pair_in xs i j ≡ false
pair_in-fst [] i j miss = refl
pair_in-fst (x ∷ xs) i j miss = ground (arith, pair_in-fst xs i j (ground (arith, miss)), miss)

pair_in-has :
    (xs : List ℕ) (i j : ℕ) → IsAscending xs → i < j → pair_in xs i j ≡ (has xs i && has xs j)
pair_in-has [] i j a less = refl
pair_in-has (x ∷ xs) i j a less = elim (Bool-cases (i == x)) [
  | inl here ↦
      let gone = has-below x i xs a.0 (ground (arith, here)) in
      ground (arith, here, less, gone, pair_in-fst xs i j gone)
  | inr other ↦ elim (Bool-cases (j == x)) [
    | inl later ↦
        let gone = has-below x i xs a.0 (ground (arith, later, less)) in
        ground (arith, other, gone, pair_in-has xs i j a.1 less)
    | inr neither ↦ ground (arith, other, neither, pair_in-has xs i j a.1 less)
  ]
]

-- In how many of the transactions both places are.
abbrev pub together : List (List ℕ) → ℕ → ℕ → ℕ
together [] i j = 0
together (xs ∷ mapped) i j = one_if (has xs i && has xs j) + together mapped i j

module _ (s m : ℕ) (init : ℕ → ℕ)
    (positions : (i j : ℕ) → i < j → j < m → (init i + j) % 2 ^ 64 ≡ pair_place m i j) where
  -- The counts of the candidates, as they are kept.
  abbrev pub counts_of : (ℕ → ℕ → ℕ) → List ℕ
  counts_of c = table (λ i j. cut s (c i j)) m

  counts_of_ext :
      (c d : ℕ → ℕ → ℕ) → ((i j : ℕ) → i < j → c i j ≡ d i j) → counts_of c ≡ counts_of d
  counts_of_ext c d h = table_ext m _ _ (λ i j less inside. ap (cut s) (h i j less))

  one_more :
      (c : ℕ → ℕ → ℕ) (x y i j : ℕ)
      → (if i == x && j == y then cut s (cut s (c x y) + 1) else cut s (c i j))
        ≡ cut s (c i j + one_if (i == x && j == y))
  one_more c x y i j = elim (Bool-cases (i == x && j == y)) [
    | inl hit ↦
        let first : i ≡ x = ground (arith, hit) in
        let second : j ≡ y = ground (arith, hit) in
        let same : c x y ≡ c i j = ap₂ c (sym first) (sym second) in
        rw hit (cut_suc s (c x y) ∙ ap (λ k. cut s (k + 1)) same)
    | inr miss ↦ rw miss (ap (cut s) (omega arith))
  ]

  incr-counts_of :
      (c : ℕ → ℕ → ℕ) (x y : ℕ)
      → x < y
      → y < m
      → incr_cand_count (count_limit s) ((init x + y) % 2 ^ 64) (counts_of c)
        ≡ some (counts_of (λ i j. c i j + one_if (i == x && j == y)))
  unfolding incr_cand_count
  incr-counts_of c x y less inside =
      let place = positions x y less inside in
      let found = get_elem?-table m (λ i j. cut s (c i j)) x y less inside in
      rw (place, found)
        (ap some (
          set-table m (λ i j. cut s (c i j)) x y (cut s (cut s (c x y) + 1)) less inside
          ∙ table_ext m _ _ (λ i j h k. one_more c x y i j)))

  count_with-counts_of :
      (c : ℕ → ℕ → ℕ) (x : ℕ) (ys : List ℕ)
      → All (λ y. x < y) ys
      → IsAscending ys
      → All (λ y. y < m) ys
      → count_with (count_limit s) init x ys (counts_of c)
        ≡ some (counts_of (λ i j. c i j + one_if (i == x && has ys j)))
  unfolding count_with
  count_with-counts_of c x [] above a inside =
      ap some (counts_of_ext c _ (λ i j less. ground arith))
  count_with-counts_of c x (y ∷ ys) above a inside =
      let here = incr-counts_of c x y above.0 inside.0 in
      rw (here, count_with)
        (count_with-counts_of (λ i j. c i j + one_if (i == x && j == y)) x ys above.1 a.1 inside.1
          ∙ ap some (
              counts_of_ext _ _ λ i j less. elim (Bool-cases (j == y)) [
                | inl same ↦
                    let gone = has-below y j ys a.0 (ground (arith, same)) in
                    ground (arith, same, gone)
                | inr other ↦ ground (arith, other)
              ]))

  count_pairs-counts_of :
      (c : ℕ → ℕ → ℕ) (xs : List ℕ)
      → IsAscending xs
      → All (λ x. x < m) xs
      → count_pairs (count_limit s) init xs (counts_of c)
        ≡ some (counts_of (λ i j. c i j + one_if (pair_in xs i j)))
  unfolding count_pairs
  count_pairs-counts_of c [] a inside = ap some (counts_of_ext c _ (λ i j less. omega arith))
  count_pairs-counts_of c (x ∷ xs) a inside =
      let here = count_with-counts_of c x xs a.0 a.1 inside.1 in
      rw (here, count_pairs)
        (count_pairs-counts_of (λ i j. c i j + one_if (i == x && has xs j)) xs a.1 inside.1
          ∙ ap some (
              counts_of_ext _ _ λ i j less. elim (Bool-cases (i == x)) [
                | inl same ↦
                    let gone = pair_in-fst xs i j (has-below x i xs a.0 (ground (arith, same))) in
                    ground (arith, same, gone)
                | inr other ↦ ground (arith, other)
              ]))

  pub count_transactions-counts_of :
      (c : ℕ → ℕ → ℕ) (mapped : List (List ℕ))
      → All (λ xs. IsAscending xs × All (λ x. x < m) xs) mapped
      → count_transactions (count_limit s) init mapped (counts_of c)
        ≡ some (counts_of (λ i j. c i j + together mapped i j))
  unfolding count_transactions
  count_transactions-counts_of c [] fine = ap some (counts_of_ext c _ (λ i j less. omega arith))
  count_transactions-counts_of c (xs ∷ mapped) fine =
      let here = count_pairs-counts_of c xs fine.0.0 fine.0.1 in
      rw (here, count_transactions)
        (count_transactions-counts_of (λ i j. c i j + one_if (pair_in xs i j)) mapped fine.1
          ∙ ap some (
              counts_of_ext _ _
                λ i j less. let same = pair_in-has xs i j fine.0.0 less in rw same (omega arith)))
