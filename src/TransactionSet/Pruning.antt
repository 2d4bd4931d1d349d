-- ===== src/TransactionSet/Pruning.antt =====
-- `prune_not_in` and `prune_small_items` of src/transaction-db/Transaction_Set.cxx.
use bitdrill.Base.{ℕ, ◌≤◌, ◌≡◌, refl, ap, arith, Bool, List, [], ◌∷◌, All}
use bitdrill.Base.{if◌then◌else◌, leb, ltb, ◌==◌, ==_iff, Bool-cases, inl, inr}
use bitdrill.TransactionSet.{
  insert_sorted, make_set, has_item, remove_if_not_in, prune, prune_not_in, prune_small_items,
  large_items,
}
use bitdrill.TransactionSet.Frequent.{occurrences, occurrences_in, has_item-large_items}

abbrev pub IsSorted : List ℕ → Type 0
IsSorted [] = Unit
IsSorted (x ∷ xs) = All (λ y. x ≤ y) xs × IsSorted xs

All-insert_sorted :
    (z x : ℕ) (xs : List ℕ) → z ≤ x → All (λ y. z ≤ y) xs → All (λ y. z ≤ y) (insert_sorted x xs)
unfolding insert_sorted
All-insert_sorted z x [] h a = (h, tt)
All-insert_sorted z x (y ∷ ys) h a = elim (Bool-cases (leb x y)) [
  | inl here ↦ rw here (h, a)
  | inr later ↦ rw later (a.0, All-insert_sorted z x ys h a.1)
]

All-weaken : (x y : ℕ) (xs : List ℕ) → x ≤ y → All (λ z. y ≤ z) xs → All (λ z. x ≤ z) xs
All-weaken x y [] h a = tt
All-weaken x y (z ∷ zs) h a = (omega (arith, a.0), All-weaken x y zs h a.1)

insert_sorted-IsSorted : (x : ℕ) (xs : List ℕ) → IsSorted xs → IsSorted (insert_sorted x xs)
unfolding insert_sorted
insert_sorted-IsSorted x [] s = (tt, tt)
insert_sorted-IsSorted x (y ∷ ys) s = elim (Bool-cases (leb x y)) [
  | inl here ↦ let le : x ≤ y = ground (arith, here) in rw here ((le, All-weaken x y ys le s.0), s)
  | inr later ↦
      let le : y ≤ x = ground (arith, later) in
      rw later (All-insert_sorted y x ys le s.0, insert_sorted-IsSorted x ys s.1)
]

make_set-IsSorted : (t : List ℕ) → IsSorted (make_set t)
unfolding make_set
make_set-IsSorted [] = tt
make_set-IsSorted (x ∷ t) = insert_sorted-IsSorted x (make_set t) (make_set-IsSorted t)

occurrences-insert_sorted :
    (x y : ℕ) (ys : List ℕ) → occurrences x (insert_sorted y ys) ≡ occurrences x (y ∷ ys)
unfolding insert_sorted
occurrences-insert_sorted x y [] = refl
occurrences-insert_sorted x y (z ∷ zs) = ground (arith, occurrences-insert_sorted x y zs)

occurrences-make_set : (x : ℕ) (t : List ℕ) → occurrences x (make_set t) ≡ occurrences x t
unfolding make_set
occurrences-make_set x [] = refl
occurrences-make_set x (y ∷ t) =
    ground (arith, occurrences-insert_sorted x y (make_set t), occurrences-make_set x t)

All-remove_if_not_in :
    (z : ℕ) (f t : List ℕ) → All (λ y. z ≤ y) t → All (λ y. z ≤ y) (remove_if_not_in f t)
unfolding remove_if_not_in
All-remove_if_not_in z f [] a = tt
All-remove_if_not_in z f (x ∷ t) a = elim (Bool-cases (has_item f x)) [
  | inl kept ↦ rw kept (a.0, All-remove_if_not_in z f t a.1)
  | inr removed ↦ rw removed (All-remove_if_not_in z f t a.1)
]

remove_if_not_in-IsSorted : (f t : List ℕ) → IsSorted t → IsSorted (remove_if_not_in f t)
unfolding remove_if_not_in
remove_if_not_in-IsSorted f [] s = tt
remove_if_not_in-IsSorted f (x ∷ t) s = elim (Bool-cases (has_item f x)) [
  | inl kept ↦ rw kept (All-remove_if_not_in x f t s.0, remove_if_not_in-IsSorted f t s.1)
  | inr removed ↦ rw removed (remove_if_not_in-IsSorted f t s.1)
]

occurrences-remove_if_not_in :
    (x : ℕ) (f t : List ℕ)
    → occurrences x (remove_if_not_in f t) ≡ (if has_item f x then occurrences x t else 0)
unfolding remove_if_not_in
occurrences-remove_if_not_in x f [] = ground arith
occurrences-remove_if_not_in x f (y ∷ t) = elim (Bool-cases (x == y)) [
  | inl same ↦
      let alike : has_item f x ≡ has_item f y = ap (has_item f) ((==_iff x y).0 same) in
      ground (arith, occurrences-remove_if_not_in x f t, alike, same)
  | inr other ↦ ground (arith, occurrences-remove_if_not_in x f t, other)
]

-- What is left of a transaction: its items that pass a test, as often as they were there, sorted.
abbrev pub IsPruned : (ℕ → Bool) → List ℕ → List ℕ → Type 0
IsPruned keep t t' =
    IsSorted t' × ((x : ℕ) → occurrences x t' ≡ (if keep x then occurrences x t else 0))

-- Two sets of as many transactions, each pruned to the one of the other set in its place.
abbrev pub ArePruned : (ℕ → Bool) → List (List ℕ) → List (List ℕ) → Type 0
ArePruned keep [] [] = Unit
ArePruned keep (t ∷ ts) (t' ∷ ts') = IsPruned keep t t' × ArePruned keep ts ts'
ArePruned keep [] (t' ∷ ts') = ⊥
ArePruned keep (t ∷ ts) [] = ⊥

prune-IsPruned :
    (keep : ℕ → Bool) (f t : List ℕ)
    → ((x : ℕ) → has_item f x ≡ keep x)
    → IsPruned keep t (prune f t)
unfolding prune
prune-IsPruned keep f t h = (
  remove_if_not_in-IsSorted f (make_set t) (make_set-IsSorted t),
  λ x. ground (arith, occurrences-remove_if_not_in x f (make_set t), occurrences-make_set x t, h x),
)

prune_not_in-ArePruned :
    (keep : ℕ → Bool) (f : List ℕ) (ts : List (List ℕ))
    → ((x : ℕ) → has_item f x ≡ keep x)
    → ArePruned keep ts (prune_not_in f ts)
unfolding prune_not_in
prune_not_in-ArePruned keep f [] h = tt
prune_not_in-ArePruned keep f (t ∷ ts) h =
    (prune-IsPruned keep f t h, prune_not_in-ArePruned keep f ts h)

-- `prune_small_items (epsilon)` sorts each transaction and keeps, as often as it was there, each
-- item that occurs more than epsilon times in the set, and no other item.
pub prune_small_items-ArePruned :
    (epsilon : ℕ) (ts : List (List ℕ))
    → ArePruned (λ x. ltb epsilon (occurrences_in x ts)) ts (prune_small_items epsilon ts)
unfolding prune_small_items
prune_small_items-ArePruned epsilon ts =
    prune_not_in-ArePruned _ (large_items epsilon ts) ts (has_item-large_items epsilon ts)
