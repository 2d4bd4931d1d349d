-- ===== src/Canonical/Binomial.antt =====
-- What src/math/KCanonical_Rep.cxx relies on of GMP's binomial coefficients, and what follows.
use bitdrill.Base.{ℕ, zero, suc, ◌+◌, ◌≤◌, ◌<◌, ◌≡◌, ap, arith, le_cases, inl, inr}

-- Binomial coefficients, by Pascal's rule.
pub record IsBinomial (choose : ℕ → ℕ → ℕ) : Type 0 where
  pub nothing : (n : ℕ) → choose n 0 ≡ 1
  pub too_many : (k : ℕ) → choose 0 (suc k) ≡ 0
  pub pascal : (n k : ℕ) → choose (suc n) (suc k) ≡ choose n k + choose n (suc k)

module _ (choose : ℕ → ℕ → ℕ) (b : IsBinomial choose) where
  pub choose-positive : (m k : ℕ) → k ≤ m → 1 ≤ choose m k
  choose-positive m zero h = omega (arith, b.nothing m)
  choose-positive zero (suc k) h = absurd (omega arith)
  choose-positive (suc m) (suc k) h = omega (arith, b.pascal m k, choose-positive m k (omega arith))

  pub choose-small : (m k : ℕ) → m < k → choose m k ≡ 0
  choose-small m zero h = absurd (omega arith)
  choose-small zero (suc k) h = b.too_many k
  choose-small (suc m) (suc k) h =
      omega
        (arith, b.pascal m k, choose-small m k (omega arith), choose-small m (suc k) (omega arith))

  pub choose-same : (k : ℕ) → choose k k ≡ 1
  choose-same zero = b.nothing 0
  choose-same (suc k) =
      omega (arith, b.pascal k k, choose-same k, choose-small k (suc k) (omega arith))

  -- The coefficients for k + 1 grow by at least one from n = k on.
  pub choose-grows : (m k : ℕ) → m ≤ choose m (suc k) + k
  choose-grows zero k = omega arith
  choose-grows (suc m) k = elim (le_cases k m) [
    | inl le ↦ omega (arith, b.pascal m k, choose-positive m k le, choose-grows m k)
    | inr lt ↦ omega arith
  ]

  choose-step : (m k : ℕ) → choose m k ≤ choose (suc m) k
  choose-step m zero = omega (arith, b.nothing m, b.nothing (suc m))
  choose-step m (suc k) = omega (arith, b.pascal m k)

  pub choose-monotone : (l m k : ℕ) → l ≤ m → choose l k ≤ choose m k
  choose-monotone zero zero k h = omega arith
  choose-monotone (suc l) zero k h = absurd (omega arith)
  choose-monotone l (suc m) k h = elim (le_cases l m) [
    | inl le ↦ omega (arith, choose-monotone l m k le, choose-step m k)
    | inr lt ↦ let same : l ≡ suc m = omega arith in omega (arith, ap (λ n. choose n k) same)
  ]
