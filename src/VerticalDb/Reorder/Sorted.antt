-- ===== src/VerticalDb/Reorder/Sorted.antt =====
-- `reorder` of src/bitdrill/Vertical_DB.hxx puts items into the order in which the constructor of
-- the database sorts them.
use bitdrill.Base.{ℕ, zero, suc, ◌≤◌, ◌<◌, ◌≡◌, refl, ap, ap₂, ◌∙◌, sym, arith, inl, inr}
use bitdrill.Base.{
  true, false, Option, some, List, [], ◌∷◌, length, All, ltb, ◌==◌, ==_iff, ==_refl, Bool-cases,
}
use bitdrill.TidVector.Laws.{has}
use bitdrill.TransactionSet.Frequent.{occurrences}
use bitdrill.VerticalDb.{VerticalDb, greater_freq, sort_by}
use bitdrill.VerticalDb.Ranks.{NoRepeats}
use bitdrill.VerticalDb.Order.{
  InOrder, greater_freq_irrefl, greater_freq_asym, greater_freq_total, sort_by-InOrder,
}
use bitdrill.VerticalDb.Reorder.{by_count, reorder}
use bitdrill.VerticalDb.Reorder.Moves.{at, at-IsMoved}
use bitdrill.VerticalDb.Reorder.Scans.{AllOk}
use bitdrill.VerticalDb.Reorder.Sorting.{sort_part-IsSortedPart}
use bitdrill.VerticalDb.Reorder.Blocks.{more_often, Counted, by_count-IsOrderTest}
use bitdrill.VerticalDb.Reorder.BlockPass.{IsBlocked, sort_blocks-IsOrdered}

AllOk-All : (count xs : List ℕ) → All (λ i. i < length count) xs → AllOk (λ i. i < length count) xs
AllOk-All count [] h k b = absurd (omega (arith, b))
AllOk-All count (x ∷ xs) h zero b = h.0
AllOk-All count (x ∷ xs) h (suc k) b = AllOk-All count xs h.1 k (omega (arith, b))

-- The items come back in their order, each as often as it was there.
pub record IsReordered (count items : List ℕ) (result : Option (List ℕ)) : Type 0 where
  pub out : List ℕ
  pub returns : result ≡ some out
  pub sized : length out ≡ length items
  pub same : (y : ℕ) → occurrences y out ≡ occurrences y items
  pub ordered :
      (k l : ℕ) → k < l → l < length out → greater_freq count (at out l) (at out k) ≡ false

-- Where every item has a count, `reorder` comes back, with no access outside a vector: with as many
-- items, each as often as it was there, and none after an item that `greater_freq` puts behind it.
pub reorder-IsReordered :
    (db : VerticalDb) (items : List ℕ)
    → All (λ i. i < length db.count) items
    → IsReordered db.count items (reorder db items)
unfolding reorder
reorder-IsReordered db [] h = record {
  out = [];
  returns = refl;
  sized = refl;
  same = λ y. refl;
  ordered = λ k l a b. absurd (omega (arith, b));
}
reorder-IsReordered db (x ∷ xs) h =
    let all = AllOk-All db.count (x ∷ xs) h in
    let first =
      sort_part-IsSortedPart (Counted db.count) (by_count db.count) (more_often db.count)
        (by_count-IsOrderTest db.count) (suc (suc (length xs))) (x ∷ xs) 0 (length xs) all
        (omega arith) (omega arith) (omega arith) in
    let blocked : IsBlocked db.count first.out 0 = record {
      all =
          at-IsMoved (Counted db.count) 0 (length xs) (x ∷ xs) first.out first.moved (omega arith)
            all;
      falling = λ k l a b. first.sorted k l (omega arith) a (omega (arith, b, first.moved.sized));
      done = λ k l a b c. absurd (omega (arith, a));
    } in
    let second =
      sort_blocks-IsOrdered db.count (length xs) 0 first.out (omega (arith, first.moved.sized))
        blocked in
    rw (first.returns, second.returns)
      (record {
        out = second.out;
        returns = refl;
        sized = second.moved.sized ∙ first.moved.sized;
        same = λ y. second.moved.same y ∙ first.moved.same y;
        ordered = second.ordered;
      })

has-occurrences : (xs : List ℕ) (y : ℕ) → has xs y ≡ ltb 0 (occurrences y xs)
has-occurrences [] y = refl
has-occurrences (x ∷ xs) y = ground (arith, has-occurrences xs y)

NoRepeats→once : (xs : List ℕ) (y : ℕ) → NoRepeats xs → occurrences y xs ≤ 1
NoRepeats→once [] y d = omega arith
NoRepeats→once (x ∷ xs) y d = elim (Bool-cases (y == x)) [
  | inl same ↦
      let missing : has xs y ≡ false = rw ((==_iff y x).0 same) d.0 in
      ground (arith, has-occurrences xs y, missing)
  | inr other ↦ ground (arith, other, NoRepeats→once xs y d.1)
]

once→NoRepeats : (xs : List ℕ) → ((y : ℕ) → occurrences y xs ≤ 1) → NoRepeats xs
once→NoRepeats [] h = tt
once→NoRepeats (x ∷ xs) h = (
  ground (arith, h x, has-occurrences xs x, ==_refl x),
  once→NoRepeats xs (λ y. ground (arith, h y)),
)

All-at : (P : ℕ → Type 0) (xs : List ℕ) → ((k : ℕ) → k < length xs → P (at xs k)) → All P xs
All-at P [] h = tt
All-at P (x ∷ xs) h = (h 0 (omega arith), All-at P xs (λ k b. h (suc k) (omega (arith, b))))

pub has-at : (xs : List ℕ) (k : ℕ) → k < length xs → has xs (at xs k) ≡ true
has-at [] k h = absurd (omega arith)
has-at (x ∷ xs) zero h = ground (arith, ==_refl x)
has-at (x ∷ xs) (suc k) h = ground (arith, has-at xs k (omega arith))

pub known-All : (P : ℕ → Type 0) (xs : List ℕ) (y : ℕ) → All P xs → has xs y ≡ true → P y
known-All P [] y a h = cc
known-All P (x ∷ xs) y a h = elim (Bool-cases (y == x)) [
  | inl same ↦ rw ((==_iff y x).0 same) a.0
  | inr other ↦ known-All P xs y a.1 (ground (arith, h, other))
]

module _ (count : List ℕ) where
  at-InOrder :
      (xs : List ℕ)
      → NoRepeats xs
      → ((k l : ℕ) → k < l → l < length xs → greater_freq count (at xs l) (at xs k) ≡ false)
      → InOrder (greater_freq count) xs
  at-InOrder [] d h = tt
  at-InOrder (x ∷ xs) d h = (
    All-at (λ y. greater_freq count x y ≡ true) xs (λ k b. later k b),
    at-InOrder xs d.1 (λ k l a b. h (suc k) (suc l) (omega (arith, a)) (omega (arith, b))),
  )
    where
      later : (k : ℕ) → k < length xs → greater_freq count x (at xs k) ≡ true
      later k b = elim (Bool-cases (x == at xs k)) [
        | inl same ↦
            let e : x ≡ at xs k = (==_iff x (at xs k)).0 same in
            let there : has xs x ≡ true = rw e (has-at xs k b) in
            absurd (ground (arith, there, d.0))
        | inr other ↦
            greater_freq_total count (at xs k) x other
              (h 0 (suc k) (omega arith) (omega (arith, b)))
      ]

  not_among : (x : ℕ) (xs : List ℕ) → All (λ y. greater_freq count x y ≡ true) xs → has xs x ≡ false
  not_among x xs a = elim (Bool-cases (has xs x)) [
    | inl there ↦
        let self = known-All (λ y. greater_freq count x y ≡ true) xs x a there in
        absurd (ground (arith, self, greater_freq_irrefl count x))
    | inr missing ↦ missing
  ]

  -- Two lists in order that have the same items are one.
  pub InOrder-unique :
      (xs ys : List ℕ)
      → InOrder (greater_freq count) xs
      → InOrder (greater_freq count) ys
      → ((i : ℕ) → has xs i ≡ has ys i)
      → xs ≡ ys
  InOrder-unique [] [] o o' same = refl
  InOrder-unique [] (y ∷ ys) o o' same = absurd (ground (arith, same y, ==_refl y))
  InOrder-unique (x ∷ xs) [] o o' same = absurd (ground (arith, same x, ==_refl x))
  InOrder-unique (x ∷ xs) (y ∷ ys) o o' same = elim (Bool-cases (x == y)) [
    | inl here ↦
        let e : x ≡ y = (==_iff x y).0 here in ap₂ ◌∷◌ e (InOrder-unique xs ys o.1 o'.1 (rest e))
    | inr other ↦
        let after = known-All _ xs y o.0 (ground (arith, same y, ==_refl y, other)) in
        let before = known-All _ ys x o'.0 (ground (arith, same x, ==_refl x, other)) in
        absurd (ground (arith, after, greater_freq_asym count y x before))
  ]
    where
      rest : x ≡ y → (i : ℕ) → has xs i ≡ has ys i
      rest e i = elim (Bool-cases (i == x)) [
        | inl first ↦
            let f : i ≡ x = (==_iff i x).0 first in
            let mine : has xs i ≡ false = rw f (not_among x xs o.0) in
            let other : has ys i ≡ false = rw (f ∙ e) (not_among y ys o'.0) in mine ∙ sym other
        | inr further ↦ ground (arith, same i, further, e)
      ]

-- Of distinct items that have counts, `reorder` comes back with what the sort of the constructor
-- makes of them.
pub reorder-sort_by :
    (db : VerticalDb) (items : List ℕ)
    → NoRepeats items
    → All (λ i. i < length db.count) items
    → reorder db items ≡ some (sort_by (greater_freq db.count) items)
reorder-sort_by db items distinct inside =
    let done = reorder-IsReordered db items inside in
    let sorted = sort_by-InOrder db.count items distinct in
    let once = once→NoRepeats done.out (λ y. rw (done.same y) (NoRepeats→once items y distinct)) in
    let kept : (i : ℕ) → has done.out i ≡ has items i =
      λ i. has-occurrences done.out i ∙ ap (ltb 0) (done.same i) ∙ sym (has-occurrences items i) in
    done.returns
    ∙ ap some (
        InOrder-unique db.count done.out (sort_by (greater_freq db.count) items)
          (at-InOrder db.count done.out once done.ordered) sorted.0
          (λ i. kept i ∙ sym (sorted.1 i)))
