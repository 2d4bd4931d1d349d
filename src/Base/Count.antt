-- ===== src/Base/Count.antt =====
-- Counting the numbers below a bound that pass a test.
use Prim.Native.Nat.{ℕ, zero, suc, ◌+◌, ◌<◌, ◌≤◌}
use mathlib.Core.Path.{◌≡◌, refl, ap, ap₂, sym, ◌∙◌}
use mathlib.Core.Bool.{Bool, false, ◌&&◌, ◌||◌}
use mathlib.Core.List.{List, [], ◌∷◌}
use native.Mathlib.Omega.{arith}
use bitdrill.Base.Tests.{◌==◌, ltb, one_if}
use bitdrill.Base.Lists.{length, count_true, zip_and}

abbrev pub count_below : ℕ → (ℕ → Bool) → ℕ
count_below zero p = 0
count_below (suc n) p = count_below n p + one_if (p n)

pub count_below_ext :
    (n : ℕ) (p q : ℕ → Bool) → ((t : ℕ) → t < n → p t ≡ q t) → count_below n p ≡ count_below n q
count_below_ext zero p q h = refl
count_below_ext (suc n) p q h =
    ap₂ ◌+◌ (count_below_ext n p q (λ t lt. h t (omega arith))) (ap one_if (h n (omega arith)))

pub count_below-le : (n : ℕ) (p : ℕ → Bool) → count_below n p ≤ n
count_below-le zero p = omega arith
count_below-le (suc n) p = ground (arith, count_below-le n p)

-- The count from the other end.
pub count_below-suc :
    (n : ℕ) (p : ℕ → Bool) → count_below (suc n) p ≡ one_if (p 0) + count_below n (λ t. p (suc t))
count_below-suc zero p = omega arith
count_below-suc (suc n) p = omega (arith, count_below-suc n p)

-- One more number passes.
pub count_below_insert :
    (n x : ℕ) (p : ℕ → Bool)
    → p x ≡ false
    → count_below n (λ t. t == x || p t) ≡ count_below n p + one_if (ltb x n)
count_below_insert zero x p h = ground arith
count_below_insert (suc n) x p h = ground (arith, count_below_insert n x p h)

-- A bit of a list, 0 outside.
abbrev pub bit_of : List Bool → ℕ → Bool
bit_of [] t = false
bit_of (b ∷ bs) zero = b
bit_of (b ∷ bs) (suc t) = bit_of bs t

pub count_true-bit_of : (bs : List Bool) → count_true bs ≡ count_below (length bs) (bit_of bs)
count_true-bit_of [] = refl
count_true-bit_of (b ∷ bs) =
    ap (λ k. one_if b + k) (count_true-bit_of bs)
    ∙ sym (count_below-suc (length bs) (bit_of (b ∷ bs)))

pub bit_of-zip_and :
    (xs ys : List Bool) (t : ℕ) → bit_of (zip_and xs ys) t ≡ (bit_of xs t && bit_of ys t)
bit_of-zip_and [] ys t = refl
bit_of-zip_and (x ∷ xs) [] t = ground arith
bit_of-zip_and (x ∷ xs) (y ∷ ys) zero = refl
bit_of-zip_and (x ∷ xs) (y ∷ ys) (suc t) = bit_of-zip_and xs ys t

pub length-zip_and :
    (xs ys : List Bool) → length xs ≡ length ys → length (zip_and xs ys) ≡ length xs
length-zip_and [] ys h = refl
length-zip_and (x ∷ xs) [] h = absurd (omega arith)
length-zip_and (x ∷ xs) (y ∷ ys) h = ap suc (length-zip_and xs ys (omega arith))
