-- ===== src/Canonical/Runs.antt =====
-- Runs of src/math/KCanonical_Rep.cxx with binomial coefficients by Pascal's rule.
use bitdrill.Base.{ℕ, zero, suc, ◌+◌, ◌≡◌, refl, some, [], ◌∷◌, arith}
use bitdrill.Canonical.{init, compute_ahead}
use bitdrill.Canonical.Binomial.{IsBinomial}
use bitdrill.Canonical.Laws.{IsRepresentation, init-IsRepresentation}

abbrev binomial : ℕ → ℕ → ℕ
binomial n zero = 1
binomial zero (suc k) = 0
binomial (suc n) (suc k) = binomial n k + binomial n (suc k)

binomial-IsBinomial : IsBinomial binomial
binomial-IsBinomial = record { nothing = λ n. refl; too_many = λ k. refl; pascal = λ n k. refl }

-- 28 = C(6,3) + C(4,2) + C(2,1)
init_runs : init binomial 28 3 ≡ some (record { k = 3; m = 6 ∷ 4 ∷ 2 ∷ [] })
unfolding init
init_runs = refl

-- One level ahead: C(6,4) + C(4,3), and C(2,2).
ahead_runs : compute_ahead binomial (record { k = 3; m = 6 ∷ 4 ∷ 2 ∷ [] }) 1 ≡ 20
unfolding compute_ahead
ahead_runs = refl

init-IsRepresentation_example : IsRepresentation binomial 28 3 (init binomial 28 3)
init-IsRepresentation_example =
    init-IsRepresentation binomial 28 3 binomial-IsBinomial (omega arith) (omega arith)
