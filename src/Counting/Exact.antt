-- ===== src/Counting/Exact.antt =====
-- The counter of src/2-items/Count.cxx as a whole: it has the frequent items and the frequent pairs.
use bitdrill.Base.{ℕ, ◌+◌, ◌%◌, ◌^◌, ◌<◌, ◌≤◌, ◌≡◌, refl, ap, ◌∙◌, sym, arith, inl, inr}
use bitdrill.Base.{
  Bool, true, false, ◌||◌, Option, some, List, [], ◌∷◌, length, All, if◌then◌else◌, leb, ltb, ◌==◌,
  ==_iff, Bool-cases,
}
use bitdrill.Base.Count.{count_below}
use bitdrill.TidVector.Laws.{has}
use bitdrill.VerticalDb.Ranks.{NoRepeats}
use bitdrill.VerticalDb.Building.{contains}
use bitdrill.VerticalDb.Frequency.{has_all}
use bitdrill.VerticalDb.Reorder.Moves.{at}
use bitdrill.VerticalDb.Reorder.Sorted.{has-at}
use bitdrill.UtMatrix.{UtMatrix, new_matrix}
use bitdrill.UtMatrix.Laws.{IsMatrix, entry, new_matrix-IsMatrix, entry-new_matrix}
use bitdrill.TidlistWalk.Loop.{Ends}
use bitdrill.Miner.Frequent.{count_below_mono}
use bitdrill.Counting.{Kdci, second_scan, only_second_scan}
use bitdrill.Counting.Table.{pair_place}
use bitdrill.Counting.Candidates.{AreMapped, only_second_scan-second_scan}
use bitdrill.Counting.Items.{ids, IsNumbered}
use bitdrill.Counting.Scan.{pair_counts, second_scan-IsTallied, different}
use bitdrill.Counting.Tally.{tally_lem}
use bitdrill.Counting.PairsKept.{pair_number, pair_number_comm}
use bitdrill.VerticalDb.Message.{reads_of}

abbrev pub number : Kdci → List (List ℕ) → ℕ → ℕ
number k txns i = count_below k.num_of_trans (contains (reads_of txns) i)

-- What comes from kDCI for transactions that are not empty, as it does not count an empty one: the
-- number of these, which is an `int`; for every item that occurs its number of transactions; the
-- items with enough transactions as the candidates, and a number that these do not exceed. A
-- transaction is mapped to the places of its candidates in ascending order, and the counts of the
-- pairs of places stand row by row.
pub record IsKdciOf (txns : List (List ℕ)) (support : ℕ) (k : Kdci) : Type 0 where
  pub full : All (λ txn. 0 < length txn) txns
  pub transactions : k.num_of_trans ≡ length txns
  pub fits : k.num_of_trans < 2 ^ 31
  pub small : k.max_support < 2 ^ 31
  pub below : All (λ e. e.0 < k.m) k.counts
  pub exact : All (λ e. e.1 ≡ number k txns e.0) k.counts
  pub others : (i : ℕ) → has (ids k.counts) i ≡ false → number k txns i ≡ 0
  pub largest : (i : ℕ) → support ≤ number k txns i → number k txns i ≤ k.max_support
  pub distinct : NoRepeats k.unmap
  pub inside : All (λ x. x < k.m) k.unmap
  pub candidates : (i : ℕ) → has k.unmap i ≡ leb support (number k txns i)
  pub mapped : AreMapped k.unmap k.mapped txns
  pub positions :
      (i j : ℕ)
      → i < j
      → j < length k.unmap
      → (k.position_init i + j) % 2 ^ 64 ≡ pair_place (length k.unmap) i j

two_in :
    (xs : List ℕ) (p q : ℕ) → has xs p ≡ true → has xs q ≡ true → (p == q) ≡ false → 2 ≤ length xs
two_in [] p q h g d = cc
two_in (x ∷ []) p q h g d = absurd (ground (arith, h, g, d))
two_in (x ∷ y ∷ rest) p q h g d = omega arith

-- The matrix of the pairs, after the second scan or without one.
pub record IsPairMatrix (n : ℕ) (view : ℕ → ℕ → Bool) (f : List ℕ) (m : UtMatrix) : Type 0 where
  pub matrix : IsMatrix (length f) m
  pub entries :
      (a b : ℕ) → a < b → b < length f → entry m a b ≡ pair_number n view (at f a) (at f b)

module _ (txns : List (List ℕ)) (support : ℕ) (k : Kdci) (of : IsKdciOf txns support k) (f : List ℕ)
    (distinct : NoRepeats f) (frequent : (i : ℕ) → has f i ≡ leb support (number k txns i))
    (item_f : List (Option ℕ)) (numbered : IsNumbered k.m f item_f) where
  no_pairs :
      (p q : ℕ)
      → has f p ≡ true
      → has f q ≡ true
      → (p == q) ≡ false
      → (k.max_support == 0 || ltb (length k.unmap) 2) ≡ true
      → pair_number k.num_of_trans (contains (reads_of txns)) p q ≡ 0
  no_pairs p q hp hq other skip = elim (Bool-cases (k.max_support == 0)) [
    | inl none_there ↦
        let fewer =
          count_below_mono k.num_of_trans (has_all (contains (reads_of txns)) (p ∷ q ∷ []))
            (contains (reads_of txns) p) (λ t both. ground (arith, both)) in
        let most = of.largest p (ground (arith, hp, frequent p)) in
        let zero_max : k.max_support ≡ 0 = (==_iff k.max_support 0).0 none_there in
        omega (arith, fewer, most, zero_max)
    | inr some_there ↦
        let one : has k.unmap p ≡ true = ground (arith, hp, frequent p, of.candidates p) in
        let two : has k.unmap q ≡ true = ground (arith, hq, frequent q, of.candidates q) in
        let many = two_in k.unmap p q one two other in
        absurd (ground (arith, skip, some_there, many))
  ]

  pub two_items-IsPairMatrix : Ends (IsPairMatrix k.num_of_trans (contains (reads_of txns)) f) (
      if k.max_support == 0 || ltb (length k.unmap) 2
      then some (new_matrix (length f))
      else only_second_scan k item_f (new_matrix (length f)))
  two_items-IsPairMatrix =
      let pairs = pair_number k.num_of_trans (contains (reads_of txns)) in
      let size = length f in
      let differ = λ (a b : ℕ) (less : a < b) (h : b < size). different f a b distinct less h in
      elim (Bool-cases (k.max_support == 0 || ltb (length k.unmap) 2)) [
        | inl skip ↦ rw skip (record {
          out = new_matrix size;
          returns = refl;
          is_so = record {
            matrix = new_matrix-IsMatrix size;
            entries = λ a b less h.
                entry-new_matrix size a b
                ∙ sym (
                    no_pairs (at f a) (at f b) (has-at f a (omega (arith, less, h))) (has-at f b h)
                      (differ a b less h) skip);
          };
        })
        | inr scans ↦
            let largest : (i : ℕ)
                → i < length k.unmap
                → count_below (length txns) (contains (reads_of txns) (at k.unmap i))
                  ≤ k.max_support =
              λ i h.
                let one = has-at k.unmap i h in
                let often = of.candidates (at k.unmap i) in
                rw (sym of.transactions) (of.largest (at k.unmap i) (ground (arith, one, often))) in
            let counted =
              only_second_scan-second_scan txns k of.positions of.mapped (omega (arith, of.small))
                largest item_f (new_matrix size)
              ∙ ap
                  (λ n.
                    second_scan item_f k.unmap
                      (pair_counts (pair_number n (contains (reads_of txns))) k.unmap)
                      (new_matrix size))
                  (sym of.transactions) in
            let scan =
              second_scan-IsTallied f distinct k.m item_f numbered pairs k.unmap (new_matrix size)
                of.inside (new_matrix-IsMatrix size) in
            rw (scans, counted)
              (record {
                out = scan.out;
                returns = scan.returns;
                is_so = record {
                  matrix = scan.matrix;
                  entries = λ a b less h.
                      let p = at f a in
                      let q = at f b in
                      let there = has-at f a (omega (arith, less, h)) in
                      let one : has k.unmap p ≡ true =
                        ground (arith, frequent p, there, of.candidates p) in
                      let two : has k.unmap q ≡ true =
                        ground (arith, frequent q, has-at f b h, of.candidates q) in
                      let summed =
                        tally_lem pairs (pair_number_comm k.num_of_trans (contains (reads_of txns)))
                          p q (differ a b less h) k.unmap of.distinct in
                      let from = scan.entries a b (omega (arith, less)) h in
                      let fresh = entry-new_matrix size a b in
                      ground (arith, from, fresh, summed, one, two);
                };
              })
      ]
