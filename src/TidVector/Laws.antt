-- ===== src/TidVector/Laws.antt =====
-- src/bitdrill/Tid_Vector.hxx as a set of transaction identifiers.
use Prim.Native.Nat.{compare, Ordering}
use bitdrill.Base.{ℕ, ◌+◌, ◌≤◌, ◌<◌, ◌≡◌, refl, ◌∙◌, arith}
use bitdrill.Base.{Bool, false, ◌&&◌, ◌||◌, List, [], ◌∷◌}
use bitdrill.Base.{length, All, ◌==◌}
use bitdrill.TidVector.{
  set_intersection, intersect_into, intersect, intersect_and_count, count_intersection, count_loop,
}

-- Whether an identifier is in the vector.
abbrev pub has : List ℕ → ℕ → Bool
has [] t = false
has (x ∷ xs) t = t == x || has xs t

abbrev pub IsAscending : List ℕ → Type 0
IsAscending [] = Unit
IsAscending (x ∷ xs) = All (λ y. x < y) xs × IsAscending xs

pub has-below : (x t : ℕ) (xs : List ℕ) → All (λ y. x < y) xs → t ≤ x → has xs t ≡ false
has-below x t [] h le = refl
has-below x t (y ∷ ys) h le = ground (arith, has-below x t ys h.1 le, h.0)

All-below : (x y : ℕ) (xs : List ℕ) → x < y → All (λ z. y < z) xs → All (λ z. x < z) xs
All-below x y [] h b = tt
All-below x y (z ∷ zs) h b = (omega (arith, b.0), All-below x y zs h b.1)

-- A bound on all elements goes over to the intersection.
pub All-set_intersection : (P : ℕ → Type 0) (l r : List ℕ) → All P l → All P (set_intersection l r)
unfolding set_intersection
All-set_intersection P [] r h = tt
All-set_intersection P (x ∷ l) [] h = tt
All-set_intersection P (x ∷ l) (y ∷ r) h =
    elim (compare x y)
      as (λ o. All P (elim o [
        | Ordering.lt ↦ set_intersection l (y ∷ r)
        | Ordering.gt ↦ set_intersection (x ∷ l) r
        | Ordering.eq ↦ x ∷ set_intersection l r
      ])) [
        | Ordering.lt ↦ All-set_intersection P l (y ∷ r) h.1
        | Ordering.gt ↦ All-set_intersection P (x ∷ l) r h
        | Ordering.eq ↦ (h.0, All-set_intersection P l r h.1)
      ]

pub IsAscending-set_intersection :
    (l r : List ℕ) → IsAscending l → IsAscending (set_intersection l r)
unfolding set_intersection
IsAscending-set_intersection [] r a = tt
IsAscending-set_intersection (x ∷ l) [] a = tt
IsAscending-set_intersection (x ∷ l) (y ∷ r) a =
    elim (compare x y)
      as (λ o. IsAscending (elim o [
        | Ordering.lt ↦ set_intersection l (y ∷ r)
        | Ordering.gt ↦ set_intersection (x ∷ l) r
        | Ordering.eq ↦ x ∷ set_intersection l r
      ])) [
        | Ordering.lt ↦ IsAscending-set_intersection l (y ∷ r) a.1
        | Ordering.gt ↦ IsAscending-set_intersection (x ∷ l) r a
        | Ordering.eq ↦
            (All-set_intersection (λ z. x < z) l r a.0, IsAscending-set_intersection l r a.1)
      ]

pub has-set_intersection :
    (l r : List ℕ) (t : ℕ)
    → IsAscending l
    → IsAscending r
    → has (set_intersection l r) t ≡ (has l t && has r t)
unfolding set_intersection
has-set_intersection [] r t a b = refl
has-set_intersection (x ∷ l) [] t a b = ground arith
has-set_intersection (x ∷ l) (y ∷ r) t a b = ground (
  arith,
  has-set_intersection l (y ∷ r) t a.1 b,
  has-set_intersection (x ∷ l) r t a b.1,
  has-set_intersection l r t a.1 b.1,
  has-below x t l a.0,
  has-below y t r b.0,
)

pub length-count_loop :
    (l r : List ℕ) (c : ℕ) → count_loop l r c ≡ c + length (set_intersection l r)
unfolding count_loop set_intersection
length-count_loop [] r c = omega arith
length-count_loop (x ∷ l) [] c = omega arith
length-count_loop (x ∷ l) (y ∷ r) c = ground (
  arith,
  length-count_loop l r (c + 1),
  length-count_loop l (y ∷ r) c,
  length-count_loop (x ∷ l) r c,
)

-- Of two ascending vectors every operation computes the common identifiers: `intersect` leaves
-- them, ascending, and the two counts are how many they are.
pub intersect-has :
    (a b : List ℕ)
    → IsAscending a
    → IsAscending b
    → ((t : ℕ) → has (intersect a b) t ≡ (has a t && has b t))
      × IsAscending (intersect a b)
      × (intersect_into a b ≡ intersect a b)
      × (intersect_and_count a b ≡ (length (intersect a b), intersect a b))
      × ((support : ℕ) → count_intersection a b support ≡ length (intersect a b))
unfolding intersect intersect_into intersect_and_count count_intersection
intersect-has a b aa ab = (
  λ t. has-set_intersection a b t aa ab,
  IsAscending-set_intersection a b aa,
  refl,
  refl,
  λ support. length-count_loop a b 0 ∙ omega arith,
)
