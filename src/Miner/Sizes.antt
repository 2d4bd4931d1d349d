-- ===== src/Miner/Sizes.antt =====
-- The sizes of frequent itemsets that the levels of src/bitdrill/Miner.cxx are mined for.
use bitdrill.Base.{ℕ, zero, suc, ◌≤◌, ◌≡◌, ap, ◌∙◌, sym, arith, ◌⊎◌, inl, inr}
use bitdrill.Base.{
  Bool, true, false, not, ◌&&◌, List, [], ◌∷◌, length, All, if◌then◌else◌, ltb, ◌==◌, ==_iff,
  Bool-cases, le_cases,
}
use bitdrill.TidVector.Laws.{has}
use bitdrill.VerticalDb.{greater_freq}
use bitdrill.VerticalDb.Order.{InOrder}
use bitdrill.Miner.Frequent.{IsFrequent, IsFrequent-without}
use bitdrill.VerticalDb.Order.{greater_freq_irrefl}

-- The first of an item is taken out.
remove : ℕ → List ℕ → List ℕ
remove x [] = []
remove x (y ∷ ys) = let rest = remove x ys in if x == y then ys else y ∷ rest

length-remove : (x : ℕ) (ys : List ℕ) → has ys x ≡ true → suc (length (remove x ys)) ≡ length ys
unfolding remove
length-remove x [] h = cc
length-remove x (y ∷ ys) h = ground (arith, h, length-remove x ys)

has-remove :
    (x z : ℕ) (ys : List ℕ) → has ys z ≡ true → (z == x) ≡ false → has (remove x ys) z ≡ true
unfolding remove
has-remove x z [] h d = cc
has-remove x z (y ∷ ys) h d = ground (arith, h, d, has-remove x z ys)

All-remove :
    (count : List ℕ) (x : ℕ) (f xs : List ℕ)
    → All (λ y. greater_freq count x y ≡ true) xs
    → All (λ i. has f i ≡ true) xs
    → All (λ i. has (remove x f) i ≡ true) xs
All-remove count x f [] o h = tt
All-remove count x f (y ∷ ys) o h = (here, All-remove count x f ys o.1 h.1)
  where
    here : has (remove x f) y ≡ true
    here = elim (Bool-cases (y == x)) [
      | inl same ↦
          let turned : greater_freq count x x ≡ true =
            ap (greater_freq count x) (sym ((==_iff y x).0 same)) ∙ o.0 in
          absurd (ground (arith, turned, greater_freq_irrefl count x))
      | inr other ↦ has-remove x y f h.0 other
    ]

-- An itemset in order has no more items than there are.
pub length-InOrder :
    (count : List ℕ) (f xs : List ℕ)
    → InOrder (greater_freq count) xs
    → All (λ i. has f i ≡ true) xs
    → length xs ≤ length f
length-InOrder count f [] o h = omega arith
length-InOrder count f (x ∷ xs) o h =
    let fewer = length-InOrder count (remove x f) xs o.1 (All-remove count x f xs o.0 h.1) in
    omega (arith, fewer, length-remove x f h.0)

-- Where there is a larger frequent itemset, there is one of each size below.
pub smaller-IsFrequent :
    (n : ℕ) (f : List ℕ) (view : ℕ → ℕ → Bool) (count : List ℕ) (support j size : ℕ)
    (itemset : List ℕ)
    → j ≤ size
    → IsFrequent n f view count support size itemset
    → (smaller : List ℕ) × IsFrequent n f view count support j smaller
smaller-IsFrequent n f view count support j zero itemset le h =
    let same : zero ≡ j = omega (arith, le) in (itemset, rw same at h)
smaller-IsFrequent n f view count support j (suc size) [] le h = absurd (omega (arith, h.of_size))
smaller-IsFrequent n f view count support j (suc size) (x ∷ xs) le h = elim (le_cases j size) [
  | inl less ↦
      smaller-IsFrequent n f view count support j size xs less
        (IsFrequent-without n f view count support size [] x xs h)
  | inr more ↦ let same : suc size ≡ j = omega (arith, le, more) in (x ∷ xs, rw same at h)
]

-- The sizes from k on that are searched.
abbrev pub IsSearched : ℕ → ℕ → ℕ → Type 0
IsSearched k max_level size = (k ≤ size) × ((max_level ≡ 0) ⊎ (size ≤ max_level))

-- Past the largest level that was asked for no size is searched.
pub search_over :
    (k max_level size : ℕ)
    → IsSearched k max_level size
    → (not (max_level == 0) && ltb max_level k) ≡ true
    → ⊥
search_over k max_level size (le, inl none_given) over = absurd (ground (arith, none_given, over))
search_over k max_level size (le, inr given) over = absurd (ground (arith, le, given, over))

pub search_goes_on :
    (k max_level : ℕ)
    → (not (max_level == 0) && ltb max_level k) ≡ false
    → (max_level ≡ 0) ⊎ (k ≤ max_level)
search_goes_on k max_level within = elim (Bool-cases (max_level == 0)) [
  | inl none_given ↦ inl ((==_iff max_level 0).0 none_given)
  | inr given ↦ inr (ground (arith, within, given))
]
