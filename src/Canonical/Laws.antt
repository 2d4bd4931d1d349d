-- ===== src/Canonical/Laws.antt =====
-- The representation of src/math/KCanonical_Rep.cxx: it exists, is canonical, and sums up to the
-- number.
use bitdrill.Base.{ℕ, zero, suc, ◌+◌, ◌-◌, ◌^◌, ◌≤◌, ◌<◌, ◌≡◌, refl, ap, ◌∙◌, arith, le_cases}
use bitdrill.Base.{
  Option, true, some, List, [], ◌∷◌, ltb, ltb→lt, suc-ne-zero, Bool-cases, inl, inr,
}
use bitdrill.Canonical.{
  KCanonicalRep, find_m, init_loop, init, compute_loop, compute, ahead_loop, compute_ahead,
}
use bitdrill.Canonical.Binomial.{IsBinomial, choose-grows, choose-same, choose-monotone}

-- Strictly falling upper arguments below `bound`, each at least the lower one, which counts down
-- from k.
abbrev pub IsCanonical : ℕ → ℕ → List ℕ → Type 0
IsCanonical bound k [] = Unit
IsCanonical bound k (m_i ∷ rest) =
    (m_i < bound) × (k ≤ m_i) × (1 ≤ k) × IsCanonical m_i (k - 1) rest

module _ (choose : ℕ → ℕ → ℕ) (b : IsBinomial choose) where
  -- The largest m_i whose coefficient is at most n_i.
  record Largest (n_i k m_i : ℕ) (result : Option ℕ) : Type 0 where
    out : ℕ
    returns : result ≡ some out
    raised : m_i ≤ out
    fits : choose out (suc k) ≤ n_i
    next : n_i < choose (suc out) (suc k)

  find_m-Largest :
      (fuel n_i k m_i : ℕ)
      → choose m_i (suc k) ≤ n_i
      → n_i + k < m_i + fuel
      → n_i + suc k < 2 ^ 31
      → Largest n_i k m_i (find_m choose fuel n_i (suc k) m_i)
  unfolding find_m
  find_m-Largest zero n_i k m_i h enough small = absurd (omega (arith, choose-grows choose b m_i k))
  find_m-Largest (suc fuel) n_i k m_i h enough small =
      let room : ltb (m_i + 1) (2 ^ 31) ≡ true =
        ground (arith, choose-grows choose b m_i k, h, small) in
      let same : choose (m_i + 1) (suc k) ≡ choose (suc m_i) (suc k) =
        ap (λ n. choose n (suc k)) (omega arith) in
      elim (Bool-cases (ltb n_i (choose (m_i + 1) (suc k)))) [
        | inl stop ↦ record {
          out = m_i;
          returns = rw (room, stop) refl;
          raised = omega arith;
          fits = h;
          next = omega (arith, ltb→lt _ _ stop, same);
        }
        | inr go ↦
            let later =
              find_m-Largest fuel n_i k (m_i + 1) (ground (arith, go)) (omega arith) small in
            record {
              out = later.out;
              returns = rw (room, go) later.returns;
              raised = omega (arith, later.raised);
              fits = later.fits;
              next = later.next;
            }
      ]

  below_bound :
      (n bound k m_i : ℕ) → choose m_i (suc k) ≤ suc n → suc n < choose bound (suc k) → m_i < bound
  below_bound n bound k m_i fits h = elim (le_cases bound m_i) [
    | inl le ↦ absurd (omega (arith, choose-monotone choose b bound m_i (suc k) le))
    | inr lt ↦ lt
  ]

  record Represents (n bound k : ℕ) (result : Option (List ℕ)) : Type 0 where
    out : List ℕ
    returns : result ≡ some out
    canonical : IsCanonical bound k out
    sum : compute_loop choose k out ≡ n

  init_loop-Represents :
      (k n bound : ℕ)
      → n < choose bound k
      → n + k < 2 ^ 31
      → Represents n bound k (init_loop choose k n)
  unfolding init_loop compute_loop
  init_loop-Represents zero n bound h small = record {
    out = [];
    returns = refl;
    canonical = tt;
    sum = omega (arith, b.nothing bound);
  }
  init_loop-Represents (suc k) zero bound h small = record {
    out = [];
    returns = refl;
    canonical = tt;
    sum = refl;
  }
  init_loop-Represents (suc k) (suc n) bound h small =
      let first =
        find_m-Largest (suc (suc n)) (suc n) k (suc k) (omega (arith, choose-same choose b (suc k)))
          (omega arith) small in
      let rest =
        init_loop-Represents k (suc n - choose first.out (suc k)) first.out
          (omega (arith, first.fits, first.next, b.pascal first.out k)) (omega (arith, small)) in
      let back : suc k - 1 ≡ k = omega arith in
      let total : compute_loop choose (suc k - 1) rest.out ≡ suc n - choose first.out (suc k) =
        ap (λ j. compute_loop choose j rest.out) back ∙ rest.sum in
      record {
        out = first.out ∷ rest.out;
        returns = rw (suc-ne-zero n, first.returns, rest.returns);
        canonical = (
          below_bound n bound k first.out first.fits h,
          first.raised,
          omega arith,
          rw back rest.canonical,
        );
        sum = omega (arith, total, first.fits);
      }

  -- Nothing is cut off where no level is added.
  ahead_loop-compute_loop :
      (bound k : ℕ) (m : List ℕ)
      → IsCanonical bound k m
      → ahead_loop choose k m ≡ compute_loop choose k m
  unfolding ahead_loop compute_loop
  ahead_loop-compute_loop bound k [] c = refl
  ahead_loop-compute_loop bound k (m_i ∷ rest) c =
      ground (arith, c.1, ahead_loop-compute_loop m_i (k - 1) rest c.3)

-- A result of `init (n, k)`: the upper arguments fall strictly and are at least the lower ones, the
-- coefficients sum up to n, and the bound for no level ahead is n.
pub record IsRepresentation (choose : ℕ → ℕ → ℕ) (n k : ℕ) (result : Option KCanonicalRep)
    : Type 0 where
  pub out : KCanonicalRep
  pub returns : result ≡ some out
  pub bound : ℕ
  pub canonical : IsCanonical bound k out.m
  pub sum : compute choose out ≡ n
  pub ahead : compute_ahead choose out 0 ≡ n

-- Where the binomial coefficients follow Pascal's rule, k is positive and n + k is below 2 ^ 31,
-- `init (n, k)` ends with
-- the k-canonical representation of n: strictly falling upper arguments, each at least its lower
-- one, whose coefficients sum up to n, in `compute ()` and in `compute (0)` of the bound.
pub init-IsRepresentation :
    (choose : ℕ → ℕ → ℕ) (n k : ℕ)
    → IsBinomial choose
    → 1 ≤ k
    → n + k < 2 ^ 31
    → IsRepresentation choose n k (init choose n k)
unfolding init compute compute_ahead
init-IsRepresentation choose n zero b h small = absurd (omega arith)
init-IsRepresentation choose n (suc k) b h small =
    let large = choose-grows choose b (suc (n + k)) k in
    let found = init_loop-Represents choose b (suc k) n (suc (n + k)) (omega arith) small in
    let same : suc k + 0 ≡ suc k = omega arith in
    record {
      out = record { k = suc k; m = found.out };
      returns = rw found.returns;
      bound = suc (n + k);
      canonical = found.canonical;
      sum = found.sum;
      ahead =
          ap (λ j. ahead_loop choose j found.out) same
          ∙ ahead_loop-compute_loop choose b (suc (n + k)) (suc k) found.out found.canonical
          ∙ found.sum;
    }
