-- ===== src/TransactionSet/Frequent.antt =====
-- `large_items` of src/transaction-db/Transaction_Set.cxx against the number of occurrences.
use bitdrill.Base.{
  ℕ, zero, suc, ◌+◌, ◌≡◌, refl, ap, ◌∙◌, arith, Bool, false, Option, some, none, List, [], ◌∷◌,
}
use bitdrill.Base.{if◌then◌else◌, leb, ltb, ◌==◌, one_if, Bool-cases, inl, inr}
use bitdrill.TransactionSet.{bump, bump_all, bump_set, at_least, large_items, has_item}

-- How often an item occurs in a transaction, and in a set.
abbrev pub occurrences : ℕ → List ℕ → ℕ
occurrences x [] = 0
occurrences x (y ∷ t) = one_if (x == y) + occurrences x t

abbrev pub occurrences_in : ℕ → List (List ℕ) → ℕ
occurrences_in x [] = 0
occurrences_in x (t ∷ ts) = occurrences x t + occurrences_in x ts

abbrev lookup : ℕ → List (ℕ × ℕ) → Option ℕ
lookup x [] = none
lookup x ((key, count) ∷ freq) = if x == key then some count else lookup x freq

-- A count after so many more occurrences.
abbrev more : ℕ → Option ℕ → Option ℕ
more zero old = old
more (suc n) none = some n
more (suc n) (some c) = some (c + suc n)

lookup-bump :
    (x y : ℕ) (freq : List (ℕ × ℕ))
    → lookup y (bump x freq) ≡ more (one_if (y == x)) (lookup y freq)
unfolding bump
lookup-bump x y [] = ground arith
lookup-bump x y ((key, count) ∷ freq) = ground (arith, lookup-bump x y freq)

more-more : (m n : ℕ) (old : Option ℕ) → more m (more n old) ≡ more (n + m) old
more-more zero n old = let sum : n ≡ n + zero = omega arith in ap (λ k. more k old) sum
more-more (suc m) zero old =
    let sum : suc m ≡ zero + suc m = omega arith in ap (λ k. more k old) sum
more-more (suc m) (suc n) none =
    let sum : suc n + suc m ≡ suc (n + suc m) = omega arith in rw sum refl
more-more (suc m) (suc n) (some c) =
    let sum : suc n + suc m ≡ suc (n + suc m) = omega arith in rw sum (ap some (omega arith))

lookup-bump_all :
    (t : List ℕ) (y : ℕ) (freq : List (ℕ × ℕ))
    → lookup y (bump_all t freq) ≡ more (occurrences y t) (lookup y freq)
unfolding bump_all
lookup-bump_all [] y freq = refl
lookup-bump_all (x ∷ t) y freq =
    lookup-bump_all t y (bump x freq)
    ∙ ap (more (occurrences y t)) (lookup-bump x y freq)
    ∙ more-more (occurrences y t) (one_if (y == x)) (lookup y freq)

lookup-bump_set :
    (ts : List (List ℕ)) (y : ℕ) (freq : List (ℕ × ℕ))
    → lookup y (bump_set ts freq) ≡ more (occurrences_in y ts) (lookup y freq)
unfolding bump_set
lookup-bump_set [] y freq = refl
lookup-bump_set (t ∷ ts) y freq =
    lookup-bump_set ts y (bump_all t freq)
    ∙ ap (more (occurrences_in y ts)) (lookup-bump_all t y freq)
    ∙ more-more (occurrences_in y ts) (occurrences y t) (lookup y freq)

-- No key is in the map twice.
abbrev HasUniqueKeys : List (ℕ × ℕ) → Type 0
HasUniqueKeys [] = Unit
HasUniqueKeys ((key, count) ∷ freq) = (lookup key freq ≡ none) × HasUniqueKeys freq

bump-HasUniqueKeys :
    (x : ℕ) (freq : List (ℕ × ℕ)) → HasUniqueKeys freq → HasUniqueKeys (bump x freq)
unfolding bump
bump-HasUniqueKeys x [] u = (refl, tt)
bump-HasUniqueKeys x ((key, count) ∷ freq) u = elim (Bool-cases (x == key)) [
  | inl here ↦ rw here u
  | inr later ↦
      rw later (ground (arith, lookup-bump x key freq, later, u.0), bump-HasUniqueKeys x freq u.1)
]

bump_all-HasUniqueKeys :
    (t : List ℕ) (freq : List (ℕ × ℕ)) → HasUniqueKeys freq → HasUniqueKeys (bump_all t freq)
unfolding bump_all
bump_all-HasUniqueKeys [] freq u = u
bump_all-HasUniqueKeys (x ∷ t) freq u =
    bump_all-HasUniqueKeys t (bump x freq) (bump-HasUniqueKeys x freq u)

bump_set-HasUniqueKeys :
    (ts : List (List ℕ)) (freq : List (ℕ × ℕ))
    → HasUniqueKeys freq
    → HasUniqueKeys (bump_set ts freq)
unfolding bump_set
bump_set-HasUniqueKeys [] freq u = u
bump_set-HasUniqueKeys (t ∷ ts) freq u =
    bump_set-HasUniqueKeys ts (bump_all t freq) (bump_all-HasUniqueKeys t freq u)

abbrev passes : ℕ → Option ℕ → Bool
passes epsilon none = false
passes epsilon (some count) = leb epsilon count

has_item-at_least :
    (epsilon x : ℕ) (freq : List (ℕ × ℕ))
    → HasUniqueKeys freq
    → has_item (at_least epsilon freq) x ≡ passes epsilon (lookup x freq)
unfolding has_item at_least
has_item-at_least epsilon x [] u = refl
has_item-at_least epsilon x ((key, count) ∷ freq) u =
    ground (arith, has_item-at_least epsilon x freq u.1, u.0)

-- `large_items (L, epsilon)` puts an item into an empty L exactly when it occurs more than epsilon
-- times in the set.
pub has_item-large_items :
    (epsilon : ℕ) (ts : List (List ℕ)) (x : ℕ)
    → has_item (large_items epsilon ts) x ≡ ltb epsilon (occurrences_in x ts)
unfolding large_items
has_item-large_items epsilon ts x =
    has_item-at_least epsilon x (bump_set ts []) (bump_set-HasUniqueKeys ts [] tt)
    ∙ ap (passes epsilon) (lookup-bump_set ts x [])
    ∙ passes-more (occurrences_in x ts)
  where
    passes-more : (n : ℕ) → passes epsilon (more n none) ≡ ltb epsilon n
    passes-more zero = ground arith
    passes-more (suc n) = ground arith
