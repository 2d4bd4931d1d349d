-- ===== src/Base/Bits.antt =====
-- Binary digits: `bit_and` and `bit_or` of the native numbers, digit by digit at every width.
use Prim.Native.Nat.{digits, bitwise, bit_and-bitwise, bit_or-bitwise}
use native.Mathlib.Nat.{le_refl, pow-suc}
use Prim.Native.Nat.{ℕ, zero, suc, ◌+◌, ◌*◌, ◌/◌, ◌%◌, ◌^◌, ◌≤◌, ◌<◌, min, max}
use Prim.Native.Nat.{bit_and, bit_or}
use mathlib.Core.Path.{◌≡◌, refl, ap, ap₂, sym, ◌∙◌}
use mathlib.Core.Bool.{Bool, ◌&&◌, ◌||◌}
use mathlib.Core.List.{List, [], ◌∷◌}
use native.Mathlib.Omega.{arith}
use bitdrill.Base.Tests.{◌==◌}
use bitdrill.Base.Lists.{length, zip_and}

-- Fuel beyond the first number changes nothing, since that number has run out by then.
module _ (last : ℕ → ℕ) (combine : ℕ → ℕ → ℕ) where
  exhausted : (fuel b : ℕ) → digits last combine fuel 0 b ≡ last b
  exhausted zero b = refl
  exhausted (suc fuel) b = refl

  spare_fuel :
      (fuel total a b : ℕ)
      → a ≤ fuel
      → fuel ≤ total
      → digits last combine total a b ≡ digits last combine fuel a b
  spare_fuel fuel total zero b h g = exhausted total b ∙ sym (exhausted fuel b)
  spare_fuel zero total (suc a) b h g = absurd (omega arith)
  spare_fuel (suc fuel) zero (suc a) b h g = absurd (omega arith)
  spare_fuel (suc fuel) (suc total) (suc a) b h g =
      rw (spare_fuel fuel total (suc a / 2) (b / 2) (omega arith) (omega arith))

  lowest_digit :
      (a b : ℕ)
      → bitwise last combine (suc a) b
        ≡ bitwise last combine (suc a / 2) (b / 2) * 2 + combine (suc a % 2) (b % 2)
  lowest_digit a b =
      let enough = spare_fuel (suc a / 2) a (suc a / 2) (b / 2) (le_refl _) (omega arith) in
      ap (λ q. q * 2 + combine (suc a % 2) (b % 2)) enough

pub bit_and-halves : (a b : ℕ) → bit_and a b ≡ min (a % 2) (b % 2) + 2 * bit_and (a / 2) (b / 2)
bit_and-halves zero b = simp bit_and-bitwise (omega arith)
bit_and-halves (suc a) b =
    let step = lowest_digit (λ b. 0) min a b in simp bit_and-bitwise (omega (arith, step))

pub bit_or-halves : (a b : ℕ) → bit_or a b ≡ max (a % 2) (b % 2) + 2 * bit_or (a / 2) (b / 2)
bit_or-halves zero b = simp bit_or-bitwise (omega arith)
bit_or-halves (suc a) b =
    let step = lowest_digit (λ b. b) max a b in simp bit_or-bitwise (omega (arith, step))

-- The lowest digit.
abbrev pub odd : ℕ → Bool
odd w = w % 2 == 1

-- The digit of weight 2 ^ k.
abbrev pub test_bit : ℕ → ℕ → Bool
test_bit w zero = odd w
test_bit w (suc k) = test_bit (w / 2) k

-- The n lowest digits, the lowest first.
abbrev pub bits_of : ℕ → ℕ → List Bool
bits_of zero w = []
bits_of (suc n) w = odd w ∷ bits_of n (w / 2)

pub length-bits_of : (n w : ℕ) → length (bits_of n w) ≡ n
length-bits_of zero w = refl
length-bits_of (suc n) w = ap suc (length-bits_of n (w / 2))

pub odd-bit_and : (a b : ℕ) → odd (bit_and a b) ≡ (odd a && odd b)
odd-bit_and a b = ground (arith, bit_and-halves a b)

pub odd-bit_or : (a b : ℕ) → odd (bit_or a b) ≡ (odd a || odd b)
odd-bit_or a b = ground (arith, bit_or-halves a b)

pub half-bit_and : (a b : ℕ) → bit_and a b / 2 ≡ bit_and (a / 2) (b / 2)
half-bit_and a b = omega (arith, bit_and-halves a b)

pub half-bit_or : (a b : ℕ) → bit_or a b / 2 ≡ bit_or (a / 2) (b / 2)
half-bit_or a b = omega (arith, bit_or-halves a b)

pub bits_of-bit_and : (n a b : ℕ) → bits_of n (bit_and a b) ≡ zip_and (bits_of n a) (bits_of n b)
bits_of-bit_and zero a b = refl
bits_of-bit_and (suc n) a b =
    rw half-bit_and (ap₂ ◌∷◌ (odd-bit_and a b) (bits_of-bit_and n (a / 2) (b / 2)))

pub test_bit-bit_and : (k a b : ℕ) → test_bit (bit_and a b) k ≡ (test_bit a k && test_bit b k)
test_bit-bit_and zero a b = odd-bit_and a b
test_bit-bit_and (suc k) a b = rw half-bit_and (test_bit-bit_and k (a / 2) (b / 2))

pub test_bit-bit_or : (k a b : ℕ) → test_bit (bit_or a b) k ≡ (test_bit a k || test_bit b k)
test_bit-bit_or zero a b = odd-bit_or a b
test_bit-bit_or (suc k) a b = rw half-bit_or (test_bit-bit_or k (a / 2) (b / 2))

pub bit_and-zero_right : (n a : ℕ) → a ≤ n → bit_and a 0 ≡ 0
bit_and-zero_right zero zero h = refl
bit_and-zero_right zero (suc a) h = absurd (omega arith)
bit_and-zero_right (suc n) zero h = refl
bit_and-zero_right (suc n) (suc a) h =
    omega (arith, bit_and-halves (suc a) 0, bit_and-zero_right n (suc a / 2) (omega arith))

pub bit_and-zero : (a : ℕ) → bit_and a 0 ≡ 0
bit_and-zero a = bit_and-zero_right a a (le_refl a)

-- A conjunction is at most its first argument, a disjunction fits the width of both.
pub bit_and-le : (n a b : ℕ) → a ≤ n → bit_and a b ≤ a
bit_and-le zero zero b h = omega (arith, bit_and-bitwise 0 b)
bit_and-le zero (suc a) b h = absurd (omega arith)
bit_and-le (suc n) zero b h = omega (arith, bit_and-bitwise 0 b)
bit_and-le (suc n) (suc a) b h =
    omega (arith, bit_and-halves (suc a) b, bit_and-le n (suc a / 2) (b / 2) (omega arith))

pub bit_or-lt : (k a b : ℕ) → a < 2 ^ k → b < 2 ^ k → bit_or a b < 2 ^ k
bit_or-lt zero a b h g = ground (arith, bit_or-halves a b)
bit_or-lt (suc k) a b h g = omega (
  arith,
  pow-suc 2 k,
  bit_or-halves a b,
  bit_or-lt k (a / 2) (b / 2) (omega (arith, pow-suc 2 k)) (omega (arith, pow-suc 2 k)),
)
