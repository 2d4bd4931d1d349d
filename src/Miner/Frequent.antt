-- ===== src/Miner/Frequent.antt =====
-- The frequent itemsets that src/bitdrill/Miner.cxx searches for: in the order of falling counts,
-- of known items, and with enough transactions.
use bitdrill.Base.{ℕ, zero, suc, ◌≤◌, ◌≡◌, refl, ap, ◌∙◌, sym, arith, inl, inr}
use bitdrill.Base.{
  Bool, true, false, ◌&&◌, List, [], ◌∷◌, ◌++◌, length, All, ◌==◌, ==_iff, Bool-cases,
}
use bitdrill.Base.Count.{count_below}
use bitdrill.TidVector.Laws.{has}
use bitdrill.VerticalDb.{greater_freq, insert_by}
use bitdrill.VerticalDb.Order.{InOrder, greater_freq_irrefl, greater_freq_asym}
use bitdrill.VerticalDb.Frequency.{has_all}
use bitdrill.Walk.{string_of}

-- An itemset of k of the items `f`, in the order of the counts, which at least `support` of n
-- transactions have.
pub record IsFrequent (n : ℕ) (f : List ℕ) (view : ℕ → ℕ → Bool) (count : List ℕ) (support k : ℕ)
    (itemset : List ℕ) : Type 0 where
  pub of_size : length itemset ≡ k
  pub known : All (λ i. has f i ≡ true) itemset
  pub in_order : InOrder (greater_freq count) itemset
  pub enough : support ≤ count_below n (has_all view itemset)

pub count_below_mono :
    (n : ℕ) (p q : ℕ → Bool)
    → ((t : ℕ) → p t ≡ true → q t ≡ true)
    → count_below n p ≤ count_below n q
count_below_mono zero p q h = omega arith
count_below_mono (suc n) p q h = let ih = count_below_mono n p q h in ground (arith, ih, h n)

pub has_all-append :
    (view : ℕ → ℕ → Bool) (xs ys : List ℕ) (t : ℕ)
    → has_all view (xs ++ ys) t ≡ (has_all view xs t && has_all view ys t)
has_all-append view [] ys t = refl
has_all-append view (x ∷ xs) ys t = ground (arith, has_all-append view xs ys t)

pub has_all-string_of :
    (view : ℕ → ℕ → Bool) (current : List ℕ) (t : ℕ)
    → has_all view (string_of current) t ≡ has_all view current t
has_all-string_of view [] t = refl
has_all-string_of view (x ∷ current) t =
    has_all-append view (string_of current) (x ∷ []) t
    ∙ ground (arith, has_all-string_of view current t)

pub has_all-insert_by :
    (view : ℕ → ℕ → Bool) (before : ℕ → ℕ → Bool) (y : ℕ) (xs : List ℕ) (t : ℕ)
    → has_all view (insert_by before y xs) t ≡ (view y t && has_all view xs t)
unfolding insert_by
has_all-insert_by view before y [] t = refl
has_all-insert_by view before y (x ∷ xs) t = ground (arith, has_all-insert_by view before y xs t)

pub All-back : (P : ℕ → Type 0) (front back : List ℕ) → All P (front ++ back) → All P back
All-back P [] back h = h
All-back P (x ∷ front) back h = All-back P front back h.1

All-without :
    (P : ℕ → Type 0) (front : List ℕ) (y : ℕ) (back : List ℕ)
    → All P (front ++ y ∷ back)
    → All P (front ++ back)
All-without P [] y back h = h.1
All-without P (x ∷ front) y back h = (h.0, All-without P front y back h.1)

InOrder-without :
    (before : ℕ → ℕ → Bool) (front : List ℕ) (y : ℕ) (back : List ℕ)
    → InOrder before (front ++ y ∷ back)
    → InOrder before (front ++ back)
InOrder-without before [] y back h = h.1
InOrder-without before (x ∷ front) y back h =
    (All-without (λ z. before x z ≡ true) front y back h.0, InOrder-without before front y back h.1)

length-without :
    (front : List ℕ) (y : ℕ) (back : List ℕ)
    → length (front ++ y ∷ back) ≡ suc (length (front ++ back))
length-without [] y back = refl
length-without (x ∷ front) y back = ap suc (length-without front y back)

has_all-without :
    (view : ℕ → ℕ → Bool) (front : List ℕ) (y : ℕ) (back : List ℕ) (t : ℕ)
    → has_all view (front ++ y ∷ back) t ≡ true
    → has_all view (front ++ back) t ≡ true
has_all-without view [] y back t h = ground (arith, h)
has_all-without view (x ∷ front) y back t h =
    ground (arith, h, has_all-without view front y back t (ground (arith, h)))

-- What is left of a frequent itemset without one of its items is frequent.
pub IsFrequent-without :
    (n : ℕ) (f : List ℕ) (view : ℕ → ℕ → Bool) (count : List ℕ) (support k : ℕ) (front : List ℕ)
    (y : ℕ) (back : List ℕ)
    → IsFrequent n f view count support (suc k) (front ++ y ∷ back)
    → IsFrequent n f view count support k (front ++ back)
IsFrequent-without n f view count support k front y back h = record {
  of_size = omega (arith, h.of_size, length-without front y back);
  known = All-without _ front y back h.known;
  in_order = InOrder-without _ front y back h.in_order;
  enough =
      let more =
        count_below_mono n (has_all view (front ++ y ∷ back)) (has_all view (front ++ back))
          (has_all-without view front y back) in
      omega (arith, h.enough, more);
}

-- The merge of an itemset and an item that belongs at its end.
pub insert_by-last :
    (count : List ℕ) (front : List ℕ) (a b : ℕ)
    → InOrder (greater_freq count) (front ++ a ∷ b ∷ [])
    → insert_by (greater_freq count) b (front ++ a ∷ []) ≡ front ++ a ∷ b ∷ []
unfolding insert_by
insert_by-last count [] a b h = rw (greater_freq_asym count a b h.0.0) refl
insert_by-last count (x ∷ front) a b h =
    rw
      (greater_freq_asym count x b
        (All-back (λ z. greater_freq count x z ≡ true) front (a ∷ b ∷ []) h.0).1.0)
      (ap (◌∷◌ x) (insert_by-last count front a b h.1))

-- And of one that belongs before the last item.
pub insert_by-next_to_last :
    (count : List ℕ) (front : List ℕ) (a b : ℕ)
    → InOrder (greater_freq count) (front ++ a ∷ b ∷ [])
    → insert_by (greater_freq count) a (front ++ b ∷ []) ≡ front ++ a ∷ b ∷ []
unfolding insert_by
insert_by-next_to_last count [] a b h = rw h.0.0 refl
insert_by-next_to_last count (x ∷ front) a b h =
    rw (greater_freq_asym count x a ((All-back _ front (a ∷ b ∷ []) h.0).0))
      (ap (◌∷◌ x) (insert_by-next_to_last count front a b h.1))

-- An item is not among those that it comes after.
pub has-before_last :
    (count : List ℕ) (front : List ℕ) (y : ℕ)
    → InOrder (greater_freq count) (front ++ y ∷ [])
    → has front y ≡ false
has-before_last count [] y h = refl
has-before_last count (x ∷ front) y h = elim (Bool-cases (y == x)) [
  | inl same ↦
      let e : y ≡ x = (==_iff y x).0 same in
      let first : greater_freq count x y ≡ true = (All-back _ front (y ∷ []) h.0).0 in
      let turned : greater_freq count x x ≡ true = ap (greater_freq count x) (sym e) ∙ first in
      absurd (ground (arith, turned, greater_freq_irrefl count x))
  | inr other ↦ ground (arith, other, has-before_last count front y h.1)
]
