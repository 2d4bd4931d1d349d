-- ===== src/Counting/Candidates.antt =====
-- `only_second_scan` of src/2-items/kdci.hxx gives every pair of candidates the number of its
-- transactions.
use bitdrill.Base.{
  ℕ, zero, suc, ◌+◌, ◌-◌, ◌*◌, ◌/◌, ◌%◌, ◌^◌, ◌<◌, ◌≤◌, ◌≡◌, refl, ap, ap₂, ◌∙◌, sym, arith,
}
use bitdrill.Base.{Option, some, List, [], ◌∷◌, ◌++◌, length, replicate, All, one_if}
use bitdrill.Base.Count.{count_below, count_below-suc}
use bitdrill.TidVector.Laws.{has, IsAscending}
use bitdrill.VerticalDb.Building.{contains}
use bitdrill.VerticalDb.Frequency.{has_all}
use bitdrill.VerticalDb.Message.{reads_of}
use bitdrill.VerticalDb.Reorder.Moves.{at}
use bitdrill.UtMatrix.{UtMatrix}
use bitdrill.UtMatrix.Places.{tri_half}
use bitdrill.Miner.Frequent.{count_below_mono}
use bitdrill.Counting.{Kdci, count_limit, count_transactions, only_second_scan, second_scan}
use bitdrill.Counting.Table.{row, table, table_ext, pair_place}
use bitdrill.Counting.Places.{cut, cut_small, together, count_transactions-counts_of}
use bitdrill.Counting.Scan.{row_counts, pair_counts}
use bitdrill.Counting.PairsKept.{pair_number}

row-row_counts :
    (cnt : ℕ → ℕ → ℕ) (x : ℕ) (xs : List ℕ)
    → row (λ j. cnt x (at xs j)) (length xs) ≡ row_counts cnt x xs
row-row_counts cnt x [] = refl
row-row_counts cnt x (y ∷ xs) = ap (cnt x y ∷◌) (row-row_counts cnt x xs)

table-pair_counts :
    (cnt : ℕ → ℕ → ℕ) (xs : List ℕ)
    → table (λ i j. cnt (at xs i) (at xs j)) (length xs) ≡ pair_counts cnt xs
table-pair_counts cnt [] = refl
table-pair_counts cnt (x ∷ xs) = ap₂ ◌++◌ (row-row_counts cnt x xs) (table-pair_counts cnt xs)

abbrev zeros : ℕ → List ℕ
zeros k = replicate k 0

zeros-append : (k j : ℕ) → zeros k ++ zeros j ≡ zeros (k + j)
zeros-append zero j = ap zeros (omega arith)
zeros-append (suc k) j =
    let next : suc k + j ≡ suc (k + j) = omega arith in rw next (ap (0 ∷◌) (zeros-append k j))

row-zeros : (m : ℕ) → row (λ j. 0) m ≡ zeros m
row-zeros zero = refl
row-zeros (suc m) = ap (0 ∷◌) (row-zeros m)

next_pairs : (m : ℕ) → m + m * (m - 1) / 2 ≡ suc m * (suc m - 1) / 2
next_pairs zero = omega arith
next_pairs (suc m) =
    let here : suc m * (suc m - 1) ≡ m * (m + 1) = grind arith in
    let next : suc (suc m) * (suc (suc m) - 1) ≡ suc m * (suc m + 1) = grind arith in
    let one = tri_half m in
    let two = tri_half (suc m) in
    ap (λ x. suc m + x / 2) here ∙ ap (suc m +◌) one ∙ sym two ∙ ap (λ x. x / 2) (sym next)

table-zeros : (m : ℕ) → table (λ i j. 0) m ≡ zeros (m * (m - 1) / 2)
table-zeros zero = refl
table-zeros (suc m) =
    ap₂ ◌++◌ (row-zeros m) (table-zeros m)
    ∙ zeros-append m (m * (m - 1) / 2)
    ∙ ap zeros (next_pairs m)

-- For each transaction its items among the candidates, as their places in ascending order.
abbrev pub AreMapped : List ℕ → List (List ℕ) → List (List ℕ) → Type 0
AreMapped unmap [] [] = Unit
AreMapped unmap [] (txn ∷ txns) = ⊥
AreMapped unmap (t_out ∷ mapped) [] = ⊥
AreMapped unmap (t_out ∷ mapped) (txn ∷ txns) =
    (IsAscending t_out
      × All (λ x. x < length unmap) t_out
      × ((i : ℕ) → i < length unmap → has t_out i ≡ has txn (at unmap i)))
    × AreMapped unmap mapped txns

together-pair_number :
    (unmap : List ℕ) (mapped txns : List (List ℕ)) (i j : ℕ)
    → AreMapped unmap mapped txns
    → i < length unmap
    → j < length unmap
    → together mapped i j
      ≡ pair_number (length txns) (contains (reads_of txns)) (at unmap i) (at unmap j)
together-pair_number unmap [] [] i j h hi hj = refl
together-pair_number unmap [] (txn ∷ txns) i j h hi hj = absurd h
together-pair_number unmap (t_out ∷ mapped) [] i j h hi hj = absurd h
together-pair_number unmap (t_out ∷ mapped) (txn ∷ txns) i j h hi hj =
    let later = together-pair_number unmap mapped txns i j h.1 hi hj in
    let both = has_all (contains (reads_of (txn ∷ txns))) (at unmap i ∷ at unmap j ∷ []) in
    let step = count_below-suc (length txns) both in
    let one = h.0.2 i hi in
    let two = h.0.2 j hj in ap₂ ◌+◌ (ap one_if (ground (arith, one, two))) later ∙ sym step

mapped_fine :
    (unmap : List ℕ) (mapped txns : List (List ℕ))
    → AreMapped unmap mapped txns
    → All (λ xs. IsAscending xs × All (λ x. x < length unmap) xs) mapped
mapped_fine unmap [] txns h = tt
mapped_fine unmap (t_out ∷ mapped) [] h = absurd h
mapped_fine unmap (t_out ∷ mapped) (txn ∷ txns) h =
    ((h.0.0, h.0.1), mapped_fine unmap mapped txns h.1)

module _ (txns : List (List ℕ)) (k : Kdci)
    (positions : (i j : ℕ)
      → i < j
      → j < length k.unmap
      → (k.position_init i + j) % 2 ^ 64 ≡ pair_place (length k.unmap) i j)
    (mapped : AreMapped k.unmap k.mapped txns) (fits : k.max_support < 2 ^ 32)
    (largest : (i : ℕ)
      → i < length k.unmap
      → count_below (length txns) (contains (reads_of txns) (at k.unmap i)) ≤ k.max_support) where
  counted :
      count_transactions
        (count_limit k.max_support)
        k.position_init
        k.mapped
        (replicate (length k.unmap * (length k.unmap - 1) / 2) 0)
      ≡ some (pair_counts (pair_number (length txns) (contains (reads_of txns))) k.unmap)
  counted =
      let s = k.max_support in
      let m = length k.unmap in
      let view = contains (reads_of txns) in
      let start : replicate (m * (m - 1) / 2) 0 ≡ table (λ i j. cut s 0) m =
        sym (table-zeros m)
        ∙ table_ext m _ _ (λ i j less inside. sym (cut_small s 0 (omega arith) fits)) in
      let total =
        count_transactions-counts_of s m k.position_init positions (λ i j. 0) k.mapped
          (mapped_fine k.unmap k.mapped txns mapped) in
      rw start (
        total
        ∙ ap some (
            table_ext m _ (λ i j. pair_number (length txns) view (at k.unmap i) (at k.unmap j))
              (λ i j less inside.
                let first : i < m = omega (arith, less, inside) in
                let same = together-pair_number k.unmap k.mapped txns i j mapped first inside in
                let fewer =
                  count_below_mono (length txns) (has_all view (at k.unmap i ∷ at k.unmap j ∷ []))
                    (view (at k.unmap i)) (λ t both. ground (arith, both)) in
                let most = largest i first in
                ap (cut s) (omega (arith, same)) ∙ cut_small s _ (omega (arith, fewer, most)) fits)
            ∙ table-pair_counts (pair_number (length txns) view) k.unmap))

  -- Where the candidates of transactions are mapped to their places in ascending order, the counts of
  -- the pairs of places stand row by row, and no candidate is in more transactions than the largest
  -- support, which is below 2 ^ 32, `only_second_scan` does to the matrix what its second loop does
  -- with, for every two candidates, the number of the transactions that have both.
  pub only_second_scan-second_scan :
      (item_f : List (Option ℕ)) (g : UtMatrix)
      → only_second_scan k item_f g
        ≡ second_scan item_f k.unmap
            (pair_counts (pair_number (length txns) (contains (reads_of txns))) k.unmap)
            g
  unfolding only_second_scan
  only_second_scan-second_scan item_f g = rw counted refl
