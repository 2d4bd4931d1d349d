-- ===== src/VerticalDb/Reorder/BlockPass.antt =====
-- The second pass of `sort_decreasing_freq` in src/bitdrill/Vertical_DB.cxx, over all blocks.
use bitdrill.Base.{ℕ, zero, suc, ◌+◌, ◌-◌, ◌≤◌, ◌<◌, ◌≡◌, refl, ap, ◌∙◌, sym, arith, inl, inr}
use bitdrill.Base.{false, Option, some, List, length, ltb, ◌==◌, ==_iff, Bool-cases, le_cases}
use bitdrill.VerticalDb.{count_at, greater_freq}
use bitdrill.VerticalDb.Reorder.{sort_blocks}
use bitdrill.VerticalDb.Reorder.Moves.{
  at, get_elem?-at, IsMoved, IsMoved-refl, IsMoved-trans, IsMoved-widen, at-IsMoved,
  outside_or_inside,
}
use bitdrill.VerticalDb.Reorder.Scans.{AllOk}
use bitdrill.VerticalDb.Reorder.Blocks.{
  more_often, Counted, get_elem?-count_at, IsBlockEnd, block_end-IsBlockEnd,
  sorted_block-IsSortedPart,
}

module _ (count : List ℕ) where
  -- Before the block that begins at i the places are in their final order, and from there on the
  -- counts fall.
  pub record IsBlocked (xs : List ℕ) (i : ℕ) : Type 0 where
    pub all : AllOk (Counted count) xs
    pub falling : (k l : ℕ) → k < l → l < length xs → more_often count (at xs l) (at xs k) ≡ false
    pub done :
        (k l : ℕ) → k < i → k < l → l < length xs → greater_freq count (at xs l) (at xs k) ≡ false

  pub record IsOrdered (xs : List ℕ) (result : Option (List ℕ)) : Type 0 where
    pub out : List ℕ
    pub returns : result ≡ some out
    pub moved : IsMoved 0 (length xs - 1) xs out
    pub ordered :
        (k l : ℕ) → k < l → l < length out → greater_freq count (at out l) (at out k) ≡ false

  same_count :
      (x y : ℕ)
      → count_at count y ≡ count_at count x
      → ltb y x ≡ false
      → greater_freq count y x ≡ false
  unfolding greater_freq
  same_count x y e h = ground (arith, e, h)

  smaller_count : (x y : ℕ) → count_at count y < count_at count x → greater_freq count y x ≡ false
  unfolding greater_freq
  smaller_count x y h = ground (arith, h)

  module _ (xs ys : List ℕ) (i j : ℕ) (s : IsBlocked xs i) (part : i < j) (size : j ≤ length xs)
      (moved : IsMoved i (j - 1) xs ys)
      (block : (k : ℕ) → i ≤ k → k < j → count_at count (at xs k) ≡ count_at count (at xs i)) where
    -- A sort of a block leaves the count at each place.
    counts_kept : (k : ℕ) → count_at count (at ys k) ≡ count_at count (at xs k)
    counts_kept k = elim (outside_or_inside i (j - 1) k) [
      | inl out ↦ ap (count_at count) (moved.outside k out)
      | inr within ↦
          let (l, a, b, e) = moved.inside k within.0 within.1 in
          ap (count_at count) e
          ∙ block l a (omega (arith, b))
          ∙ sym (block k within.0 (omega (arith, within.1)))
    ]

    block-IsBlocked :
        ((j < length xs) → (count_at count (at xs j) == count_at count (at xs i)) ≡ false)
        → ((k l : ℕ) → i ≤ k → k < l → l ≤ j - 1 → ltb (at ys l) (at ys k) ≡ false)
        → IsBlocked ys (i + 1)
    block-IsBlocked ends sorted = record {
      all = at-IsMoved (Counted count) i (j - 1) xs ys moved (omega arith) s.all;
      falling = falling;
      done = λ k l a b c. elim (le_cases i k) [
        | inl here ↦
            let same : k ≡ i = omega (arith, a, here) in
            rw same (first l (omega (arith, b, here)) c)
        | inr earlier ↦
            let (l', ge, less, e) = from l k earlier b c in
            rw (moved.outside k (inl earlier), e) (s.done k l' earlier ge less)
      ];
    }
      where
        falling : (k l : ℕ) → k < l → l < length ys → more_often count (at ys l) (at ys k) ≡ false
        falling k l a b =
            rw (counts_kept k, counts_kept l) (s.falling k l a (omega (arith, b, moved.sized)))

        from :
            (l k : ℕ)
            → k < i
            → k < l
            → l < length ys
            → (l' : ℕ) × (k < l') × (l' < length xs) × (at ys l ≡ at xs l')
        from l k a b c = elim (outside_or_inside i (j - 1) l) [
          | inl out ↦ (l, b, omega (arith, c, moved.sized), moved.outside l out)
          | inr within ↦
              let (l', d, f, e) = moved.inside l within.0 within.1 in
              (l', omega (arith, a, d), omega (arith, f), e)
        ]

        fall : (l : ℕ) → j ≤ l → l < length xs → count_at count (at xs l) ≤ count_at count (at xs j)
        fall l a b = elim (Bool-cases (ltb j l)) [
          | inl later ↦ let h = s.falling j l (ground (arith, later)) b in ground (arith, h)
          | inr here ↦
              let same : l ≡ j = ground (arith, a, here) in
              let e = ap (λ k. count_at count (at xs k)) same in omega (arith, e)
        ]

        first : (l : ℕ) → i < l → l < length ys → greater_freq count (at ys l) (at ys i) ≡ false
        first l a b = elim (le_cases j l) [
          | inr within ↦
              let same : count_at count (at ys l) ≡ count_at count (at ys i) =
                counts_kept l ∙ block l (omega (arith, a)) within ∙ sym (counts_kept i) in
              same_count (at ys i) (at ys l) same
                (sorted i l (omega arith) a (omega (arith, within)))
          | inl beyond ↦
              let inside : j < length xs = omega (arith, beyond, b, moved.sized) in
              let at_end = s.falling i j part inside in
              let other = ends inside in
              let last : count_at count (at xs l) ≤ count_at count (at xs j) =
                fall l beyond (omega (arith, b, moved.sized)) in
              smaller_count (at ys i) (at ys l)
                (rw (counts_kept i, counts_kept l) (ground (arith, at_end, other, last)))
        ]

  block_of :
      (xs : List ℕ) (i : ℕ) (result : Option ℕ)
      (b : IsBlockEnd count xs (count_at count (at xs i)) (i + 1) result)
      → (k : ℕ) → i ≤ k
      → k < b.stop
      → count_at count (at xs k) ≡ count_at count (at xs i)
  block_of xs i result b k le less = elim (Bool-cases (k == i)) [
    | inl same ↦ ap (λ l. count_at count (at xs l)) ((==_iff k i).0 same)
    | inr other ↦ b.block k (ground (arith, le, other)) less
  ]

  -- The pass over the blocks comes back.
  pub sort_blocks-IsOrdered :
      (left i : ℕ) (xs : List ℕ)
      → suc (i + left) ≡ length xs
      → IsBlocked xs i
      → IsOrdered xs (sort_blocks left count xs i)
  unfolding sort_blocks
  sort_blocks-IsOrdered zero i xs size s = record {
    out = xs;
    returns = refl;
    moved = IsMoved-refl 0 (length xs - 1) xs;
    ordered = λ k l a b. s.done k l (omega (arith, a, b, size)) a b;
  }
  sort_blocks-IsOrdered (suc left) i xs size s =
      let inside : i < length xs = omega (arith, size) in
      let reads = get_elem?-at xs i inside in
      let counts = get_elem?-count_at count (at xs i) (s.all i inside) in
      let b =
        block_end-IsBlockEnd count (suc left) xs (count_at count (at xs i)) (i + 1) s.all
          (omega (arith, size)) in
      let sorted = sorted_block-IsSortedPart count xs i b.stop (omega (arith, b.ge)) b.le in
      let next =
        block-IsBlocked xs sorted.out i b.stop s (omega (arith, b.ge)) b.le sorted.moved
          (block_of xs i _ b) b.ends sorted.sorted in
      let rest =
        sort_blocks-IsOrdered left (i + 1) sorted.out (omega (arith, size, sorted.moved.sized))
          next in
      let moved =
        IsMoved-widen 0 (length xs - 1) i (b.stop - 1) xs sorted.out (omega arith)
          (omega (arith, b.le)) sorted.moved in
      let sized : length sorted.out - 1 ≡ length xs - 1 = omega (arith, sorted.moved.sized) in
      rw (reads, counts, b.returns, sorted.returns, sort_blocks)
        (record {
          out = rest.out;
          returns = rest.returns;
          moved =
              IsMoved-trans 0 (length xs - 1) xs sorted.out rest.out moved (rw sized at rest.moved);
          ordered = rest.ordered;
        })
