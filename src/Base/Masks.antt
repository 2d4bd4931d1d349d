-- ===== src/Base/Masks.antt =====
-- Words of 32 bits: shifts, and what masks of low or high ones and single ones select.
use Prim.Native.Nat.{ℕ, zero, suc, ◌+◌, ◌-◌, ◌*◌, ◌/◌, ◌%◌, ◌^◌, ◌≤◌, ◌<◌, bit_and, bit_or}
use native.Mathlib.Nat.{pow-suc, one-le-pow}
use mathlib.Core.Path.{◌≡◌, refl, ap, ap₂, ◌∙◌}
use mathlib.Core.Bool.{Bool, true, false, not, ◌&&◌}
use mathlib.Core.List.{◌∷◌}
use native.Mathlib.Omega.{arith}
use bitdrill.Base.Tests.{◌==◌, ==_iff, one_if}
use bitdrill.Base.Lists.{count_true}
use bitdrill.Base.Bits.{
  odd, test_bit, bits_of, bit_and-halves, bit_or-halves, half-bit_and, half-bit_or, bit_and-zero,
}

-- The value that a `uint32_t` keeps.
abbrev pub u32 : ℕ → ℕ
u32 x = x % 2 ^ 32

abbrev pub shl : ℕ → ℕ → ℕ
shl x k = x * 2 ^ k

abbrev pub shr : ℕ → ℕ → ℕ
shr x k = x / 2 ^ k

-- `~x` of a `uint32_t`.
abbrev pub complement : ℕ → ℕ
complement x = 2 ^ 32 - 1 - x

-- `0xffffffff << k` of a `uint32_t`.
abbrev pub high_mask : ℕ → ℕ
high_mask k = u32 (shl 0xffffffff k)

mul-pow-suc : (q e : ℕ) → q * 2 ^ suc e ≡ 2 * (q * 2 ^ e)
mul-pow-suc q e = omega (arith, ap (λ (t : ℕ). q * t) (pow-suc 2 e))

-- A test that passes at every number below a bound, found by running it.
unfoldable pub checked_below : ℕ → (ℕ → Bool) → Bool
checked_below zero test = true
checked_below (suc bound) test = checked_below bound test && test bound

pub checked_below→holds :
    (bound : ℕ) (test : ℕ → Bool) (i : ℕ)
    → checked_below bound test ≡ true
    → i < bound
    → test i ≡ true
unfolding checked_below
checked_below→holds zero test i passed below = absurd (omega arith)
checked_below→holds (suc bound) test i passed below =
    let earlier = checked_below→holds bound test i in ground (arith, earlier)

-- Two functions that agree on every byte by evaluation.
pub equal_on_bytes :
    (f g : ℕ → ℕ) → checked_below 256 (λ x. f x == g x) ≡ true → (x : ℕ) → x < 256 → f x ≡ g x
equal_on_bytes f g table x h = (==_iff _ _).0 (checked_below→holds 256 (λ x. f x == g x) x table h)

high_mask_table : checked_below 32 (λ e. high_mask e == (2 ^ (32 - e) - 1) * 2 ^ e) ≡ true
unfolding checked_below
high_mask_table = refl

pub high_mask_lem : (e : ℕ) → e < 32 → high_mask e ≡ (2 ^ (32 - e) - 1) * 2 ^ e
high_mask_lem e h = (==_iff _ _).0 (checked_below→holds 32 _ e high_mask_table h)

complement_table : checked_below 32 (λ e. complement (high_mask e) == 2 ^ e - 1) ≡ true
unfolding checked_below
complement_table = refl

pub complement-high_mask : (e : ℕ) → e < 32 → complement (high_mask e) ≡ 2 ^ e - 1
complement-high_mask e h = (==_iff _ _).0 (checked_below→holds 32 _ e complement_table h)

pub count_true-bits_of-zero : (n : ℕ) → count_true (bits_of n 0) ≡ 0
count_true-bits_of-zero zero = refl
count_true-bits_of-zero (suc n) = omega (arith, count_true-bits_of-zero n)

-- A mask of high ones changes none of the digits below it.
pub bits_of-bit_or_high : (e b q : ℕ) → bits_of e (bit_or b (q * 2 ^ e)) ≡ bits_of e b
bits_of-bit_or_high zero b q = refl
bits_of-bit_or_high (suc e) b q =
    let even : q * 2 ^ suc e / 2 ≡ q * 2 ^ e = omega (arith, mul-pow-suc q e) in
    let low : odd (bit_or b (q * 2 ^ suc e)) ≡ odd b =
      ground (arith, bit_or-halves b (q * 2 ^ suc e), mul-pow-suc q e) in
    rw (half-bit_or, even) (ap₂ ◌∷◌ low (bits_of-bit_or_high e (b / 2) q))

-- A mask of e low ones selects the e lowest digits.
pub count_true-low_mask :
    (n e c : ℕ) → e ≤ n → count_true (bits_of n (bit_and c (2 ^ e - 1))) ≡ count_true (bits_of e c)
count_true-low_mask n zero c h = rw bit_and-zero (count_true-bits_of-zero n)
count_true-low_mask zero (suc e) c h = absurd (omega arith)
count_true-low_mask (suc n) (suc e) c h =
    let shifted : (2 ^ suc e - 1) / 2 ≡ 2 ^ e - 1 = omega (arith, pow-suc 2 e) in
    let low : odd (bit_and c (2 ^ suc e - 1)) ≡ odd c =
      ground (arith, bit_and-halves c (2 ^ suc e - 1), pow-suc 2 e, one-le-pow e 2) in
    rw (half-bit_and, shifted)
      (ap₂ ◌+◌ (ap one_if low) (count_true-low_mask n e (c / 2) (omega arith)))

-- A mask of one digit tests that digit.
pub bit_and-pow : (k w : ℕ) → not (bit_and w (2 ^ k) == 0) ≡ test_bit w k
bit_and-pow zero w = ground (arith, bit_and-halves w 1, bit_and-zero (w / 2))
bit_and-pow (suc k) w =
    ground (arith, bit_and-halves w (2 ^ suc k), pow-suc 2 k, bit_and-pow k (w / 2))

test_bit-zero : (j : ℕ) → test_bit 0 j ≡ false
test_bit-zero zero = refl
test_bit-zero (suc j) = test_bit-zero j

pub test_bit-pow : (k j : ℕ) → test_bit (2 ^ k) j ≡ (k == j)
test_bit-pow zero zero = refl
test_bit-pow zero (suc j) = rw test_bit-zero (ground arith)
test_bit-pow (suc k) zero = ground (arith, pow-suc 2 k)
test_bit-pow (suc k) (suc j) =
    let halved : 2 ^ suc k / 2 ≡ 2 ^ k = omega (arith, pow-suc 2 k) in
    rw halved (test_bit-pow k j ∙ ground arith)
