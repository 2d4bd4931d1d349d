-- ===== src/VerticalDb/Order.antt =====
-- The order of the ranks of src/bitdrill/Vertical_DB.cxx: the more frequent items come first, and
-- of two items with the same count the smaller one.
use bitdrill.Base.{ℕ, ◌≡◌, refl, ◌∙◌, arith}
use bitdrill.Base.{Bool, true, false, List, [], ◌∷◌, All, ◌==◌, Bool-cases, inl, inr}
use bitdrill.TidVector.Laws.{has}
use bitdrill.VerticalDb.{greater_freq, insert_by, sort_by}
use bitdrill.VerticalDb.Ranks.{NoRepeats, has-sort_by}

-- Every item comes before all that follow it.
abbrev pub InOrder : (ℕ → ℕ → Bool) → List ℕ → Type 0
InOrder before [] = Unit
InOrder before (x ∷ xs) = All (λ y. before x y ≡ true) xs × InOrder before xs

greater_freq_trans :
    (count : List ℕ) (x y z : ℕ)
    → greater_freq count x y ≡ true
    → greater_freq count y z ≡ true
    → greater_freq count x z ≡ true
unfolding greater_freq
greater_freq_trans count x y z h g = ground (arith, h, g)

pub greater_freq_irrefl : (count : List ℕ) (x : ℕ) → greater_freq count x x ≡ false
unfolding greater_freq
greater_freq_irrefl count x = ground arith

pub greater_freq_asym :
    (count : List ℕ) (x y : ℕ) → greater_freq count x y ≡ true → greater_freq count y x ≡ false
unfolding greater_freq
greater_freq_asym count x y h = ground (arith, h)

pub greater_freq_total :
    (count : List ℕ) (x y : ℕ)
    → (y == x) ≡ false
    → greater_freq count x y ≡ false
    → greater_freq count y x ≡ true
unfolding greater_freq
greater_freq_total count x y d h = ground (arith, d, h)

module _ (count : List ℕ) where
  -- An item that comes before `y` comes before all that `y` comes before.
  All-before :
      (x y : ℕ) (ys : List ℕ)
      → greater_freq count x y ≡ true
      → All (λ z. greater_freq count y z ≡ true) ys
      → All (λ z. greater_freq count x z ≡ true) ys
  All-before x y [] h a = tt
  All-before x y (z ∷ zs) h a = (greater_freq_trans count x y z h a.0, All-before x y zs h a.1)

  pub All-insert_by :
      (P : ℕ → Type 0) (before : ℕ → ℕ → Bool) (x : ℕ) (xs : List ℕ)
      → P x
      → All P xs
      → All P (insert_by before x xs)
  unfolding insert_by
  All-insert_by P before x [] h a = (h, tt)
  All-insert_by P before x (y ∷ ys) h a = elim (Bool-cases (before x y)) [
    | inl here ↦ rw here (h, a)
    | inr later ↦ rw later (a.0, All-insert_by P before x ys h a.1)
  ]

  pub insert_by-InOrder :
      (x : ℕ) (xs : List ℕ)
      → has xs x ≡ false
      → InOrder (greater_freq count) xs
      → InOrder (greater_freq count) (insert_by (greater_freq count) x xs)
  unfolding insert_by
  insert_by-InOrder x [] new o = (tt, tt)
  insert_by-InOrder x (y ∷ ys) new o = elim (Bool-cases (greater_freq count x y)) [
    | inl here ↦ rw here ((here, All-before x y ys here o.0), o)
    | inr later ↦
        let turned = greater_freq_total count x y (ground (arith, new)) later in
        rw later (
          All-insert_by _ (greater_freq count) x ys turned o.0,
          insert_by-InOrder x ys (ground (arith, new)) o.1,
        )
  ]

  -- The sort of distinct items has the same items, in the order of `greater_freq`.
  pub sort_by-InOrder :
      (f : List ℕ)
      → NoRepeats f
      → InOrder (greater_freq count) (sort_by (greater_freq count) f)
        × ((i : ℕ) → has (sort_by (greater_freq count) f) i ≡ has f i)
  unfolding sort_by
  sort_by-InOrder [] d = (tt, λ i. refl)
  sort_by-InOrder (x ∷ f) d =
      let rest = sort_by-InOrder f d.1 in
      (
        insert_by-InOrder x (sort_by (greater_freq count) f) (rest.1 x ∙ d.0) rest.0,
        has-sort_by (greater_freq count) (x ∷ f),
      )
