-- ===== src/VerticalDb/Reorder/Partition.antt =====
-- The partition of the quick sorts of src/bitdrill/Vertical_DB.cxx comes back, inside the vector, and
-- divides the part that it is given.
use bitdrill.Base.{ℕ, zero, suc, ◌+◌, ◌≤◌, ◌<◌, ◌≡◌, refl, ap, ◌∙◌, arith, ◌⊎◌, inl, inr}
use bitdrill.Base.{Bool, false, Option, some, List, length, ltb, Bool-cases, le_cases, ◌>>=◌}
use bitdrill.VerticalDb.Reorder.{partition_loop, partition}
use bitdrill.VerticalDb.Reorder.Scans.{
  IsOrderTest, AllOk, IsDown, move_down-IsDown, IsUp, move_up-IsUp,
}
use bitdrill.VerticalDb.Reorder.Moves.{
  at, get_elem?-at, IsMoved, IsMoved-refl, IsMoved-trans, at-IsMoved, swapped, swap-swapped,
  at-swapped, swapped-IsMoved,
}

-- Up to q no item comes after x, and from there to r none before x.
pub record IsDivided (lt : ℕ → ℕ → Bool) (x p r : ℕ) (xs : List ℕ) (result : Option (List ℕ × ℕ))
    : Type 0 where
  pub out : List ℕ
  pub q : ℕ
  pub returns : result ≡ some (out, q)
  pub ge : p ≤ q
  pub less : q < r
  pub moved : IsMoved p r xs out
  pub low : (k : ℕ) → p ≤ k → k ≤ q → lt x (at out k) ≡ false
  pub high : (k : ℕ) → q < k → k ≤ r → lt (at out k) x ≡ false

module _ (ok : ℕ → Type 0) (before : ℕ → ℕ → Option Bool) (lt : ℕ → ℕ → Bool)
    (t : IsOrderTest ok before lt) (x : ℕ) (ok_x : ok x) where
  -- A state of the loop: what is before i does not come after x, what is from j on does not come
  -- before x, and going down stops at d, going up at u.
  record IsDividing (p r i j d u : ℕ) (xs : List ℕ) : Type 0 where
    first : p ≤ i
    last : j ≤ suc r
    down : (p ≤ d) × (d < j) × (lt x (at xs d) ≡ false)
    up : (i ≤ u) × (u ≤ r) × (lt (at xs u) x ≡ false)
    ahead : (j ≤ r) ⊎ (u ≡ p)
    low : (k : ℕ) → p ≤ k → k < i → lt x (at xs k) ≡ false
    high : (k : ℕ) → j ≤ k → k ≤ r → lt (at xs k) x ≡ false

  module _ (p r : ℕ) (part : p < r) where
    low_before :
        (i j d u : ℕ) (xs : List ℕ) (result : Option ℕ)
        → IsDividing p r i j d u xs
        → (up : IsUp ok before lt t x ok_x xs i u result) → (k : ℕ) → p ≤ k
        → k < up.stop
        → lt x (at xs k) ≡ false
    low_before i j d u xs result s up k a b = elim (le_cases i k) [
      | inl here ↦ t.asym (at xs k) x (up.passed k here b)
      | inr earlier ↦ s.low k a earlier
    ]

    high_after :
        (i j d u : ℕ) (xs : List ℕ) (result : Option ℕ)
        → IsDividing p r i j d u xs
        → (down : IsDown ok before lt t x ok_x xs d j result) → (k : ℕ) → down.stop < k
        → k ≤ r
        → lt (at xs k) x ≡ false
    high_after i j d u xs result s down k a b = elim (le_cases j k) [
      | inl later ↦ s.high k later b
      | inr here ↦ t.asym x (at xs k) (down.passed k a here)
    ]

    finish :
        (i j d u : ℕ) (xs : List ℕ) (result result' : Option ℕ)
        → IsDividing p r i j d u xs
        → (down : IsDown ok before lt t x ok_x xs d j result)
        → (up : IsUp ok before lt t x ok_x xs i u result') → down.stop ≤ up.stop
        → IsDivided lt x p r xs (some (xs, down.stop))
    finish i j d u xs result result' s down up met = record {
      out = xs;
      q = down.stop;
      returns = refl;
      ge = omega (arith, s.down.0, down.ge);
      less = less s.ahead;
      moved = IsMoved-refl p r xs;
      low = λ k a b. elim (le_cases up.stop k) [
        | inr earlier ↦ low_before i j d u xs result' s up k a earlier
        | inl here ↦ let same : k ≡ down.stop = omega (arith, b, here, met) in rw same down.stops
      ];
      high = high_after i j d u xs result s down;
    }
      where
        less : (j ≤ r) ⊎ (u ≡ p) → down.stop < r
        less (inl le) = omega (arith, down.below, le)
        less (inr e) = omega (arith, up.le, met, part, e)

    go_on :
        (i j d u : ℕ) (xs : List ℕ) (result result' : Option ℕ)
        → r < length xs
        → IsDividing p r i j d u xs
        → (down : IsDown ok before lt t x ok_x xs d j result)
        → (up : IsUp ok before lt t x ok_x xs i u result') → up.stop < down.stop
        → IsDividing p r (up.stop + 1) down.stop up.stop down.stop (swapped xs up.stop down.stop)
    go_on i j d u xs result result' size s down up apart =
        let below_i : up.stop < length xs = omega (arith, up.le, s.up.1, size) in
        let below_j : down.stop < length xs = omega (arith, down.below, s.last, size) in
        let reads = λ (k : ℕ). at-swapped xs up.stop down.stop k below_i below_j in
        let at_i : at (swapped xs up.stop down.stop) up.stop ≡ at xs down.stop =
          reads up.stop ∙ ground (arith, apart) in
        let at_j : at (swapped xs up.stop down.stop) down.stop ≡ at xs up.stop =
          reads down.stop ∙ ground arith in
        record {
          first = omega (arith, s.first, up.ge);
          last = omega (arith, down.below, s.last);
          down = (omega (arith, s.first, up.ge), apart, rw at_i down.stops);
          up = (omega (arith, apart), omega (arith, down.below, s.last), rw at_j up.stops);
          ahead = inl (omega (arith, down.below, s.last));
          low = λ k a b. elim (le_cases up.stop k) [
            | inl here ↦
                let same : k ≡ up.stop = omega (arith, b, here) in rw same (rw at_i down.stops)
            | inr earlier ↦
                let other : at (swapped xs up.stop down.stop) k ≡ at xs k =
                  reads k ∙ ground (arith, earlier, apart) in
                rw other (low_before i j d u xs result' s up k a earlier)
          ];
          high = λ k a b. elim (le_cases k down.stop) [
            | inl here ↦
                let same : k ≡ down.stop = omega (arith, a, here) in rw same (rw at_j up.stops)
            | inr later ↦
                let other : at (swapped xs up.stop down.stop) k ≡ at xs k =
                  reads k ∙ ground (arith, later, apart) in
                rw other (high_after i j d u xs result s down k later b)
          ];
        }

    partition_loop-IsDivided :
        (fuel i j d u : ℕ) (xs : List ℕ)
        → AllOk ok xs
        → r < length xs
        → j ≤ fuel
        → IsDividing p r i j d u xs
        → IsDivided lt x p r xs (partition_loop fuel before x xs i j)
    unfolding partition_loop
    partition_loop-IsDivided zero i j d u xs all size enough s =
        absurd (omega (arith, s.down.1, enough))
    partition_loop-IsDivided (suc fuel) i j d u xs all size enough s =
        let down =
          move_down-IsDown ok before lt t x ok_x xs d j all s.down.1 (omega (arith, s.last, size))
            s.down.2 in
        let up =
          move_up-IsUp ok before lt t x ok_x (suc (length xs)) xs i u all s.up.0
            (omega (arith, s.up.1, size)) (omega (arith, s.up.1, size)) s.up.2 in
        let below_i : up.stop < length xs = omega (arith, up.le, s.up.1, size) in
        let below_j : down.stop < length xs = omega (arith, down.below, s.last, size) in
        let exchanged = swap-swapped xs up.stop down.stop below_i below_j in
        elim (Bool-cases (ltb up.stop down.stop)) [
          | inr met ↦
              rw (down.returns, up.returns, exchanged, met)
                (finish i j d u xs _ _ s down up (ground (arith, met)))
          | inl apart ↦
              let less : up.stop < down.stop = ground (arith, apart) in
              let moved =
                swapped-IsMoved p r xs up.stop down.stop (omega (arith, s.first, up.ge)) less
                  (omega (arith, down.below, s.last)) size in
              let rest =
                partition_loop-IsDivided fuel (up.stop + 1) down.stop up.stop down.stop
                  (swapped xs up.stop down.stop)
                  (at-IsMoved ok p r xs (swapped xs up.stop down.stop) moved size all)
                  (omega (arith, size, moved.sized)) (omega (arith, down.below, enough))
                  (go_on i j d u xs _ _ size s down up less) in
              rw (down.returns, up.returns, exchanged, apart)
                (record {
                  out = rest.out;
                  q = rest.q;
                  returns = rest.returns;
                  ge = rest.ge;
                  less = rest.less;
                  moved =
                      IsMoved-trans p r xs (swapped xs up.stop down.stop) rest.out moved rest.moved;
                  low = rest.low;
                  high = rest.high;
                })
        ]

partition_step :
    (before : ℕ → ℕ → Option Bool) (xs : List ℕ) (p r : ℕ)
    → p < length xs
    → partition before xs p r ≡ partition_loop (suc (length xs)) before (at xs p) xs p (r + 1)
unfolding partition
partition_step before xs p r size =
    ap (λ o. o >>= λ x. partition_loop (suc (length xs)) before x xs p (r + 1))
      (get_elem?-at xs p size)

-- The partition of a part with at least two places comes back, with no access outside the vector.
pub partition-IsDivided :
    (ok : ℕ → Type 0) (before : ℕ → ℕ → Option Bool) (lt : ℕ → ℕ → Bool)
    → IsOrderTest ok before lt
    → (xs : List ℕ) (p r : ℕ) → AllOk ok xs
    → p < r
    → r < length xs
    → IsDivided lt (at xs p) p r xs (partition before xs p r)
partition-IsDivided ok before lt t xs p r all part size =
    let self = t.irrefl (at xs p) in
    rw (partition_step before xs p r (omega arith)) (
      partition_loop-IsDivided ok before lt t (at xs p) (all p (omega arith)) p r part
        (suc (length xs)) p (r + 1) p p xs all size (omega arith)
        (record {
          first = omega arith;
          last = omega arith;
          down = (omega arith, omega arith, self);
          up = (omega arith, omega arith, self);
          ahead = inr refl;
          low = λ k a b. absurd (omega (arith, a, b));
          high = λ k a b. absurd (omega (arith, a, b));
        }))
