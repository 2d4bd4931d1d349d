-- ===== src/Canonical.antt =====
-- src/math/KCanonical_Rep.cxx and KruskalKatona.cxx: a number as a sum of binomial coefficients,
-- and the bound on larger itemsets that is read off it.
--
-- Binomial coefficients come from the GMP library, here the parameter `choose`. Numbers are not
-- bounded, as GMP's are not, but for the upper arguments, which are kept in an `int`: `none` is one that
-- it cannot hold.
pub mod Binomial
pub mod Laws
pub mod Runs
use bitdrill.Base.{ℕ, zero, suc, ◌+◌, ◌-◌, ◌^◌, ◌≡◌, Bool, Option, some, none, List, [], ◌∷◌}
use bitdrill.Base.{if◌then◌else◌, ltb, ◌==◌, ◌>>=◌}

pub record KCanonicalRep : Type 0 where
  pub k : ℕ
  pub m : List ℕ

module _ (choose : ℕ → ℕ → ℕ) where
  -- The loop that raises m_i until n_i < choose (m_i + 1, k_i), on fuel. m_i + 1 is an `int`.
  pub find_m : ℕ → ℕ → ℕ → ℕ → Option ℕ
  find_m zero n_i k_i m_i = none
  find_m (suc fuel) n_i k_i m_i =
      let raised = find_m fuel n_i k_i (m_i + 1) in
      let searched = if ltb n_i (choose (m_i + 1) k_i) then some m_i else raised in
      if ltb (m_i + 1) (2 ^ 31) then searched else none

  -- The loop over k_i, which counts down.
  pub init_loop : ℕ → ℕ → Option (List ℕ)
  unfolding find_m
  init_loop zero n_i = some []
  init_loop (suc k) n_i = if n_i == 0 then some [] else (do
    m_i ← find_m (suc n_i) n_i (suc k) (suc k)
    rest ← init_loop k (n_i - choose m_i (suc k))
    some (m_i ∷ rest))

  -- The constructor calls `init`.
  unfoldable pub init : ℕ → ℕ → Option KCanonicalRep
  unfolding init_loop
  init n k = do m ← init_loop k n; some (record { k = k; m = m })

  pub compute_loop : ℕ → List ℕ → ℕ
  compute_loop k_i [] = 0
  compute_loop k_i (m_i ∷ rest) = choose m_i k_i + compute_loop (k_i - 1) rest

  unfoldable pub compute : KCanonicalRep → ℕ
  unfolding compute_loop
  compute rep = compute_loop rep.k rep.m

  pub ahead_loop : ℕ → List ℕ → ℕ
  ahead_loop k_i [] = 0
  ahead_loop k_i (m_i ∷ rest) =
      let others = ahead_loop (k_i - 1) rest in if ltb m_i k_i then 0 else choose m_i k_i + others

  -- `KruskalKatona::compute (p)`, for p levels ahead.
  unfoldable pub compute_ahead : KCanonicalRep → ℕ → ℕ
  unfolding ahead_loop
  compute_ahead rep p = ahead_loop (rep.k + p) rep.m
