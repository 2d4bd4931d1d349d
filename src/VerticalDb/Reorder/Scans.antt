-- ===== src/VerticalDb/Reorder/Scans.antt =====
-- The two scans of a partition, in the quick sorts of src/bitdrill/Vertical_DB.cxx, stop inside the
-- part.
use bitdrill.Base.{ℕ, zero, suc, ◌+◌, ◌≤◌, ◌<◌, ◌≡◌, refl, ap, arith, inl, inr}
use bitdrill.Base.{Bool, true, false, Option, some, List, length, ◌==◌, ==_iff, Bool-cases}
use bitdrill.VerticalDb.Reorder.{move_down, move_up}
use bitdrill.VerticalDb.Reorder.Moves.{at, get_elem?-at}

-- On the items that are `ok` the test of a sort comes back, with `lt`, a strict order in which items
-- may be level.
pub record IsOrderTest (ok : ℕ → Type 0) (before : ℕ → ℕ → Option Bool) (lt : ℕ → ℕ → Bool)
    : Type 0 where
  pub decides : (a b : ℕ) → ok a → ok b → before a b ≡ some (lt a b)
  pub irrefl : (a : ℕ) → lt a a ≡ false
  pub asym : (a b : ℕ) → lt a b ≡ true → lt b a ≡ false
  pub level : (a b c : ℕ) → lt b a ≡ false → lt c b ≡ false → lt c a ≡ false

abbrev pub AllOk : (ℕ → Type 0) → List ℕ → Type 0
AllOk ok xs = (k : ℕ) → k < length xs → ok (at xs k)

module _ (ok : ℕ → Type 0) (before : ℕ → ℕ → Option Bool) (lt : ℕ → ℕ → Bool)
    (t : IsOrderTest ok before lt) (x : ℕ) (ok_x : ok x) where
  pub record IsDown (xs : List ℕ) (d j : ℕ) (result : Option ℕ) : Type 0 where
    pub stop : ℕ
    pub returns : result ≡ some stop
    pub ge : d ≤ stop
    pub below : stop < j
    pub stops : lt x (at xs stop) ≡ false
    pub passed : (k : ℕ) → stop < k → k < j → lt x (at xs k) ≡ true

  -- Going down stops where an item does not come after x.
  pub move_down-IsDown :
      (xs : List ℕ) (d j : ℕ)
      → AllOk ok xs
      → d < j
      → j ≤ length xs
      → lt x (at xs d) ≡ false
      → IsDown xs d j (move_down before xs x j)
  unfolding move_down
  move_down-IsDown xs d zero all less size stops = absurd (omega arith)
  move_down-IsDown xs d (suc j) all less size stops =
      let reads = get_elem?-at xs j (omega arith) in
      let tested = t.decides x (at xs j) ok_x (all j (omega arith)) in
      elim (Bool-cases (lt x (at xs j))) [
        | inr here ↦ record {
          stop = j;
          returns = rw (reads, tested, here) refl;
          ge = omega arith;
          below = omega arith;
          stops = here;
          passed = λ k a b. absurd (omega (arith, a, b));
        }
        | inl on ↦
            let rest =
              move_down-IsDown xs d j all (smaller d j less on stops) (omega arith) stops in
            record {
              stop = rest.stop;
              returns = rw (reads, tested, on, rest.returns) refl;
              ge = rest.ge;
              below = omega (arith, rest.below);
              stops = rest.stops;
              passed = λ k a b. elim (Bool-cases (k == j)) [
                | inl same ↦ rw ((==_iff k j).0 same) on
                | inr other ↦ rest.passed k a (ground (arith, b, other))
              ];
            }
      ]
    where
      smaller : (d j : ℕ) → d < suc j → lt x (at xs j) ≡ true → lt x (at xs d) ≡ false → d < j
      smaller d j less on stops = elim (Bool-cases (d == j)) [
        | inl same ↦
            absurd (ground (arith, on, stops, ap (λ k. lt x (at xs k)) ((==_iff d j).0 same)))
        | inr apart ↦ ground (arith, less, apart)
      ]

  pub record IsUp (xs : List ℕ) (i u : ℕ) (result : Option ℕ) : Type 0 where
    pub stop : ℕ
    pub returns : result ≡ some stop
    pub ge : i ≤ stop
    pub le : stop ≤ u
    pub stops : lt (at xs stop) x ≡ false
    pub passed : (k : ℕ) → i ≤ k → k < stop → lt (at xs k) x ≡ true

  -- Going up stops where an item does not come before x.
  pub move_up-IsUp :
      (fuel : ℕ) (xs : List ℕ) (i u : ℕ)
      → AllOk ok xs
      → i ≤ u
      → u < i + fuel
      → u < length xs
      → lt (at xs u) x ≡ false
      → IsUp xs i u (move_up fuel before xs x i)
  unfolding move_up
  move_up-IsUp zero xs i u all le enough size stops = absurd (omega arith)
  move_up-IsUp (suc fuel) xs i u all le enough size stops =
      let reads = get_elem?-at xs i (omega arith) in
      let tested = t.decides (at xs i) x (all i (omega arith)) ok_x in
      elim (Bool-cases (lt (at xs i) x)) [
        | inr here ↦ record {
          stop = i;
          returns = rw (reads, tested, here) refl;
          ge = omega arith;
          le = le;
          stops = here;
          passed = λ k a b. absurd (omega (arith, a, b));
        }
        | inl on ↦
            let rest =
              move_up-IsUp fuel xs (i + 1) u all (larger i u le on stops) (omega arith) size
                stops in
            record {
              stop = rest.stop;
              returns = rw (reads, tested, on, rest.returns) refl;
              ge = omega (arith, rest.ge);
              le = rest.le;
              stops = rest.stops;
              passed = λ k a b. elim (Bool-cases (k == i)) [
                | inl same ↦ rw ((==_iff k i).0 same) on
                | inr other ↦ rest.passed k (ground (arith, a, other)) b
              ];
            }
      ]
    where
      larger : (i u : ℕ) → i ≤ u → lt (at xs i) x ≡ true → lt (at xs u) x ≡ false → i + 1 ≤ u
      larger i u le on stops = elim (Bool-cases (i == u)) [
        | inl same ↦
            absurd (ground (arith, on, stops, ap (λ k. lt (at xs k) x) ((==_iff i u).0 same)))
        | inr apart ↦ ground (arith, le, apart)
      ]
