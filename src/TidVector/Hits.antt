-- ===== src/TidVector/Hits.antt =====
-- A vector of identifiers against a test on identifiers, as the loops over a bit vector make it.
use mathlib.Core.List.{append-nil, append_assoc}
use bitdrill.Base.{ℕ, zero, suc, ◌+◌, ◌<◌, ◌≡◌, refl, ap, ◌∙◌, sym, arith}
use bitdrill.Base.{Bool, true, false, ◌&&◌, some, List, [], ◌∷◌, ◌++◌}
use bitdrill.Base.{length, All, if◌then◌else◌}
use bitdrill.Base.Count.{count_below, count_below_insert}
use bitdrill.BitVector.{BitVector, get}
use bitdrill.TidVector.{
  intersect_bits, count_intersection_bits, intersect_bits_loop, count_bits_loop,
}
use bitdrill.TidVector.Laws.{has, IsAscending, has-below}

-- What passes the test, in the order of the vector.
abbrev pub keep : (ℕ → Bool) → List ℕ → List ℕ
keep p [] = []
keep p (x ∷ xs) = if p x then x ∷ keep p xs else keep p xs

pub has-keep : (p : ℕ → Bool) (xs : List ℕ) (t : ℕ) → has (keep p xs) t ≡ (has xs t && p t)
has-keep p [] t = refl
has-keep p (x ∷ xs) t = ground (arith, has-keep p xs t)

pub All-keep : (P : ℕ → Type 0) (p : ℕ → Bool) (xs : List ℕ) → All P xs → All P (keep p xs)
All-keep P p [] h = tt
All-keep P p (x ∷ xs) h = elim (p x) as (λ b. All P (if b then x ∷ keep p xs else keep p xs)) [
  | true ↦ (h.0, All-keep P p xs h.1)
  | false ↦ All-keep P p xs h.1
]

pub IsAscending-keep : (p : ℕ → Bool) (xs : List ℕ) → IsAscending xs → IsAscending (keep p xs)
IsAscending-keep p [] a = tt
IsAscending-keep p (x ∷ xs) a =
    elim (p x) as (λ b. IsAscending (if b then x ∷ keep p xs else keep p xs)) [
      | true ↦ (All-keep (λ y. x < y) p xs a.0, IsAscending-keep p xs a.1)
      | false ↦ IsAscending-keep p xs a.1
    ]

-- The length of an ascending vector is the number of identifiers in it.
pub length-count_below :
    (n : ℕ) (xs : List ℕ)
    → IsAscending xs
    → All (λ t. t < n) xs
    → length xs ≡ count_below n (has xs)
length-count_below n [] a b = sym (none_below n)
  where
    none_below : (n : ℕ) → count_below n (λ t. false) ≡ 0
    none_below zero = refl
    none_below (suc n) = omega (arith, none_below n)
length-count_below n (x ∷ xs) a b = ground (
  arith,
  length-count_below n xs a.1 b.1,
  count_below_insert n x (has xs),
  has-below x x xs a.0,
  b.0,
)

-- Where every read of the bit vector comes back, with what `p` says, the loops keep and count
-- what passes `p`.
module _ (bv : BitVector) (p : ℕ → Bool) where
  abbrev Reads : List ℕ → Type 0
  Reads = All (λ t. get bv t ≡ some (p t))

  intersect_bits_loop-keep :
      (ts result : List ℕ)
      → Reads ts
      → intersect_bits_loop bv ts result ≡ some (result ++ keep p ts)
  unfolding intersect_bits_loop
  intersect_bits_loop-keep [] result h = ap some (sym (append-nil result))
  intersect_bits_loop-keep (t ∷ ts) result h = rw h.0 (
      intersect_bits_loop-keep ts (if p t then result ++ t ∷ [] else result) h.1
      ∙ ap some (pushed (p t)))
    where
      pushed :
          (b : Bool)
          → (if b then result ++ t ∷ [] else result) ++ keep p ts
            ≡ result ++ (if b then t ∷ keep p ts else keep p ts)
      pushed true = append_assoc result (t ∷ []) (keep p ts)
      pushed false = refl

  count_bits_loop-keep :
      (ts : List ℕ) (c : ℕ) → Reads ts → count_bits_loop bv ts c ≡ some (c + length (keep p ts))
  unfolding count_bits_loop
  count_bits_loop-keep [] c h = ap some (omega arith)
  count_bits_loop-keep (t ∷ ts) c h =
      rw h.0 (count_bits_loop-keep ts (if p t then c + 1 else c) h.1 ∙ ap some (ground arith))

  pub intersect_bits-keep : (ts : List ℕ) → Reads ts → intersect_bits ts bv ≡ some (keep p ts)
  unfolding intersect_bits
  intersect_bits-keep ts h = intersect_bits_loop-keep ts [] h

  pub count_intersection_bits-keep :
      (ts : List ℕ) → Reads ts → count_intersection_bits ts bv ≡ some (length (keep p ts))
  unfolding count_intersection_bits
  count_intersection_bits-keep ts h = count_bits_loop-keep ts 0 h ∙ ap some (omega arith)
