-- ===== src/VerticalDb/Reorder/Blocks.antt =====
-- One block of items with one count, in `sort_decreasing_freq` of src/bitdrill/Vertical_DB.cxx.
use bitdrill.Base.{ℕ, zero, suc, ◌+◌, ◌-◌, ◌≤◌, ◌<◌, ◌≡◌, refl, arith, inl, inr}
use bitdrill.Base.{
  Bool, false, Option, some, none, List, length, get_elem?, get_elem?-inside, ltb, ◌==◌, ==_iff,
  if◌then◌else◌, Bool-cases,
}
use bitdrill.VerticalDb.{count_at}
use bitdrill.VerticalDb.Reorder.{by_item, by_count, block_end, sort_part}
use bitdrill.VerticalDb.Reorder.Moves.{at, get_elem?-at, IsMoved-refl}
use bitdrill.VerticalDb.Reorder.Scans.{IsOrderTest, AllOk}
use bitdrill.VerticalDb.Reorder.Sorting.{IsSortedPart, sort_part-IsSortedPart}

by_item-IsOrderTest : IsOrderTest (λ _. Unit {0}) by_item ltb
by_item-IsOrderTest = record {
  decides = λ a b h g. refl;
  irrefl = λ a. ground arith;
  asym = λ a b h. ground (arith, h);
  level = λ a b c h g. ground (arith, h, g);
}

module _ (count : List ℕ) where
  -- The order of falling counts.
  abbrev pub more_often : ℕ → ℕ → Bool
  more_often a b = ltb (count_at count b) (count_at count a)

  abbrev pub Counted : ℕ → Type 0
  Counted a = a < length count

  pub get_elem?-count_at : (a : ℕ) → Counted a → get_elem? count a ≡ some (count_at count a)
  get_elem?-count_at a h =
      let (c, e) = get_elem?-inside count a h in of_read (get_elem? count a) c e
    where
      of_read : (o : Option ℕ) (c : ℕ) → o ≡ some c → o ≡ some (elim o [ some c ↦ c | none ↦ 0 ])
      of_read none c e = cc
      of_read (some d) c e = refl

  pub by_count-IsOrderTest : IsOrderTest Counted (by_count count) more_often
  by_count-IsOrderTest = record {
    decides = λ a b h g. rw (get_elem?-count_at a h, get_elem?-count_at b g) refl;
    irrefl = λ a. ground arith;
    asym = λ a b h. ground (arith, h);
    level = λ a b c h g. ground (arith, h, g);
  }

  pub record IsBlockEnd (xs : List ℕ) (of_x j : ℕ) (result : Option ℕ) : Type 0 where
    pub stop : ℕ
    pub returns : result ≡ some stop
    pub ge : j ≤ stop
    pub le : stop ≤ length xs
    pub block : (k : ℕ) → j ≤ k → k < stop → count_at count (at xs k) ≡ of_x
    pub ends : (stop < length xs) → (count_at count (at xs stop) == of_x) ≡ false

  pub block_end-IsBlockEnd :
      (left : ℕ) (xs : List ℕ) (of_x j : ℕ)
      → AllOk Counted xs
      → j + left ≡ length xs
      → IsBlockEnd xs of_x j (block_end left count xs of_x j)
  unfolding block_end
  block_end-IsBlockEnd zero xs of_x j all size = record {
    stop = j;
    returns = refl;
    ge = omega arith;
    le = omega (arith, size);
    block = λ k a b. absurd (omega (arith, a, b));
    ends = λ h. absurd (omega (arith, h, size));
  }
  block_end-IsBlockEnd (suc left) xs of_x j all size =
      let inside : j < length xs = omega (arith, size) in
      let reads = get_elem?-at xs j inside in
      let counts = get_elem?-count_at (at xs j) (all j inside) in
      elim (Bool-cases (count_at count (at xs j) == of_x)) [
        | inr here ↦
            rw (reads, counts, here, block_end)
              (record {
                stop = j;
                returns = refl;
                ge = omega arith;
                le = omega (arith, size);
                block = λ k a b. absurd (omega (arith, a, b));
                ends = λ h. here;
              })
        | inl on ↦
            let rest = block_end-IsBlockEnd left xs of_x (j + 1) all (omega (arith, size)) in
            rw (reads, counts, on, block_end)
              (record {
                stop = rest.stop;
                returns = rest.returns;
                ge = omega (arith, rest.ge);
                le = rest.le;
                block = λ k a b. elim (Bool-cases (k == j)) [
                  | inl same ↦ rw ((==_iff k j).0 same) ((==_iff _ of_x).0 on)
                  | inr other ↦ rest.block k (ground (arith, a, other)) b
                ];
                ends = rest.ends;
              })
      ]

  abbrev pub sorted_block : List ℕ → ℕ → ℕ → Option (List ℕ)
  sorted_block xs i j =
      if ltb i (j - 1) then sort_part (suc (length xs)) by_item xs i (j - 1) else some xs

  pub sorted_block-IsSortedPart :
      (xs : List ℕ) (i j : ℕ)
      → i < j
      → j ≤ length xs
      → IsSortedPart ltb i (j - 1) xs (sorted_block xs i j)
  sorted_block-IsSortedPart xs i j part size = elim (Bool-cases (ltb i (j - 1))) [
    | inl more ↦ rw more (
        sort_part-IsSortedPart (λ _. Unit {0}) by_item ltb by_item-IsOrderTest (suc (length xs)) xs
          i (j - 1) (λ k h. tt) (omega arith) (ground (arith, more)) (omega arith))
    | inr one ↦ rw one (record {
      out = xs;
      returns = refl;
      moved = IsMoved-refl i (j - 1) xs;
      sorted = λ k l a b c. absurd (ground (arith, one, a, b, c));
    })
  ]
