-- ===== src/Counting/Tally.antt =====
-- The counts that the second scan of src/2-items/kdci.hxx adds up for two items.
use bitdrill.Base.{ℕ, ◌≡◌, refl, ap, ◌∙◌, sym, arith, inl, inr}
use bitdrill.Base.{false, ◌&&◌, List, [], ◌∷◌, if◌then◌else◌, ◌==◌, ==_iff, ==_refl, Bool-cases}
use bitdrill.TidVector.Laws.{has}
use bitdrill.VerticalDb.Ranks.{NoRepeats}
use bitdrill.Counting.Scan.{row_tally, tally}

-- Two different items meet once among distinct items that have both.
module _ (cnt : ℕ → ℕ → ℕ) (symmetric : (x y : ℕ) → cnt x y ≡ cnt y x) (p q : ℕ)
    (other : (p == q) ≡ false) where
  row_tally_here :
      (ys : List ℕ)
      → NoRepeats ys
      → has ys p ≡ false
      → row_tally cnt p q p ys ≡ (if has ys q then cnt p q else 0)
  row_tally_here [] d miss = refl
  row_tally_here (y ∷ ys) d miss = elim (Bool-cases (y == q)) [
    | inl hit ↦
        let e : y ≡ q = (==_iff y q).0 hit in
        let gone : has ys q ≡ false = rw (sym e) d.0 in
        let same = ap (cnt p) e in
        ground (arith, row_tally_here ys d.1, gone, same, ==_refl p, ==_refl q, e, miss, other)
    | inr on ↦ ground (arith, row_tally_here ys d.1, on, miss, other)
  ]

  row_tally_turned :
      (ys : List ℕ)
      → NoRepeats ys
      → has ys q ≡ false
      → row_tally cnt p q q ys ≡ (if has ys p then cnt p q else 0)
  row_tally_turned [] d miss = refl
  row_tally_turned (y ∷ ys) d miss = elim (Bool-cases (y == p)) [
    | inl hit ↦
        let e : y ≡ p = (==_iff y p).0 hit in
        let gone : has ys p ≡ false = rw (sym e) d.0 in
        let same = ap (cnt q) e ∙ symmetric q p in
        ground (arith, row_tally_turned ys d.1, gone, same, ==_refl p, ==_refl q, e, miss, other)
    | inr on ↦ ground (arith, row_tally_turned ys d.1, on, miss, other)
  ]

  row_tally_elsewhere :
      (x : ℕ) (ys : List ℕ) → (x == p) ≡ false → (x == q) ≡ false → row_tally cnt p q x ys ≡ 0
  row_tally_elsewhere x [] np nq = refl
  row_tally_elsewhere x (y ∷ ys) np nq = ground (arith, row_tally_elsewhere x ys np nq, np, nq)

  pub tally_lem :
      (xs : List ℕ)
      → NoRepeats xs
      → tally cnt p q xs ≡ (if has xs p && has xs q then cnt p q else 0)
  tally_lem [] d = refl
  tally_lem (x ∷ xs) d = elim (Bool-cases (x == p)) [
    | inl first ↦
        let e : x ≡ p = (==_iff x p).0 first in
        let gone : has xs p ≡ false = rw (sym e) d.0 in
        let row : row_tally cnt p q x xs ≡ (if has xs q then cnt p q else 0) =
          ap (λ z. row_tally cnt p q z xs) e ∙ row_tally_here xs d.1 gone in
        ground (arith, tally_lem xs d.1, gone, row, e, other)
    | inr not_first ↦ elim (Bool-cases (x == q)) [
      | inl second ↦
          let e : x ≡ q = (==_iff x q).0 second in
          let gone : has xs q ≡ false = rw (sym e) d.0 in
          let row : row_tally cnt p q x xs ≡ (if has xs p then cnt p q else 0) =
            ap (λ z. row_tally cnt p q z xs) e ∙ row_tally_turned xs d.1 gone in
          ground (arith, tally_lem xs d.1, gone, row, e, other)
      | inr neither ↦
          ground (
            arith,
            tally_lem xs d.1,
            row_tally_elsewhere x xs not_first neither,
            not_first,
            neither,
          )
    ]
  ]
