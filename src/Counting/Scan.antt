-- ===== src/Counting/Scan.antt =====
-- The second scan of src/2-items/kdci.hxx: the matrix has the count of every pair of frequent items.
use bitdrill.Base.{ℕ, zero, suc, ◌+◌, ◌<◌, ◌≤◌, ◌≡◌, refl, ap, ◌∙◌, sym, arith, inl, inr}
use bitdrill.Base.{
  Bool, true, false, ◌&&◌, ◌||◌, Option, some, none, List, [], ◌∷◌, ◌++◌, length, All, get_elem?,
  if◌then◌else◌, ◌==◌, ==_iff, ==_refl, Bool-cases, Option-cases,
}
use bitdrill.TidVector.Laws.{has}
use bitdrill.VerticalDb.Ranks.{NoRepeats, index_of}
use bitdrill.VerticalDb.Reorder.Moves.{at}
use bitdrill.VerticalDb.Reorder.Sorted.{has-at}
use bitdrill.UtMatrix.{UtMatrix}
use bitdrill.UtMatrix.Laws.{IsMatrix, entry, mtx_add-IsWeighed}
use bitdrill.Counting.{add_counted, scan_with, second_scan}

pub at-index_of : (x u : ℕ) (f : List ℕ) → index_of x f ≡ some u → (at f u ≡ x) × (u < length f)
at-index_of x u [] e = cc
at-index_of x u (y ∷ f) e = elim (Bool-cases (x == y)) [
  | inl here ↦
      let first : 0 ≡ u = some_eq (rw here at e) in
      (rw (sym first) (sym ((==_iff x y).0 here)), omega (arith, first))
  | inr later ↦ elim (Option-cases (index_of x f)) [
    | inl missing ↦ absurd (no_some (rw (later, missing) at e))
    | inr (k, found) ↦
        let place : suc k ≡ u = some_eq (rw (later, found) at e) in
        let rest = at-index_of x k f found in (rw (sym place) rest.0, omega (arith, place, rest.1))
  ]
]
  where
    some_eq : {a b : ℕ} → some a ≡ some b → a ≡ b
    some_eq e = cc

    no_some : {a : ℕ} → none ≡ some a → ⊥
    no_some e = cc

pub index_of-at : (f : List ℕ) (a : ℕ) → NoRepeats f → a < length f → index_of (at f a) f ≡ some a
index_of-at [] a d h = absurd (omega arith)
index_of-at (x ∷ f) zero d h = rw (==_refl x) refl
index_of-at (x ∷ f) (suc a) d h = elim (Bool-cases (at f a == x)) [
  | inl same ↦
      let there = has-at f a (omega arith) in
      let e : at f a ≡ x = (==_iff (at f a) x).0 same in
      let again : has f x ≡ true = rw e at there in absurd (ground (arith, again, d.0))
  | inr other ↦ rw (other, index_of-at f a d.1 (omega arith)) refl
]

-- Distinct items at two places differ.
pub different :
    (f : List ℕ) (a b : ℕ) → NoRepeats f → a < b → b < length f → (at f a == at f b) ≡ false
different f a b distinct less inside = elim (Bool-cases (at f a == at f b)) [
  | inr other ↦ other
  | inl same ↦
      let e : at f a ≡ at f b = (==_iff (at f a) (at f b)).0 same in
      let both : some a ≡ some b =
        sym (index_of-at f a distinct (omega arith))
        ∙ ap (λ x. index_of x f) e
        ∙ index_of-at f b distinct inside in
      let place : a ≡ b = cc in absurd (omega (arith, place, less))
]

-- Whether x and y are the items p and q, in one order or the other.
abbrev pub meets : ℕ → ℕ → ℕ → ℕ → Bool
meets p q x y = (x == p && y == q) || (y == p && x == q)

module _ (cnt : ℕ → ℕ → ℕ) where
  -- The counts of an item with each of those that follow it, and of all of them.
  abbrev pub row_counts : ℕ → List ℕ → List ℕ
  row_counts x [] = []
  row_counts x (y ∷ ys) = cnt x y ∷ row_counts x ys

  abbrev pub pair_counts : List ℕ → List ℕ
  pair_counts [] = []
  pair_counts (x ∷ xs) = row_counts x xs ++ pair_counts xs

  abbrev pub row_tally : ℕ → ℕ → ℕ → List ℕ → ℕ
  row_tally p q x [] = 0
  row_tally p q x (y ∷ ys) = (if meets p q x y then cnt x y else 0) + row_tally p q x ys

  abbrev pub tally : ℕ → ℕ → List ℕ → ℕ
  tally p q [] = 0
  tally p q (x ∷ xs) = row_tally p q x xs + tally p q xs

module _ (f : List ℕ) (distinct : NoRepeats f) where
  -- An item is the one at a place exactly when its number is that place.
  index_hits : (x u a : ℕ) → index_of x f ≡ some u → a < length f → (u == a) ≡ (x == at f a)
  index_hits x u a e h = elim (Bool-cases (u == a)) [
    | inl same ↦
        let place : u ≡ a = (==_iff u a).0 same in
        let item : at f a ≡ x = ap (at f) (sym place) ∙ (at-index_of x u f e).0 in
        same ∙ ground (arith, item)
    | inr other ↦ elim (Bool-cases (x == at f a)) [
      | inl hit ↦
          let item : x ≡ at f a = (==_iff x (at f a)).0 hit in
          let found : index_of x f ≡ some a =
            ap (λ y. index_of y f) item ∙ index_of-at f a distinct h in
          let both : some u ≡ some a = sym e ∙ found in
          let place : u ≡ a = cc in absurd (ground (arith, place, other))
      | inr miss ↦ other ∙ sym miss
    ]
  ]

  index_misses : (x a : ℕ) → index_of x f ≡ none → a < length f → (x == at f a) ≡ false
  index_misses x a e h = elim (Bool-cases (x == at f a)) [
    | inl hit ↦
        let item : x ≡ at f a = (==_iff x (at f a)).0 hit in
        let found : index_of x f ≡ some a =
          ap (λ y. index_of y f) item ∙ index_of-at f a distinct h in
        let both : none ≡ some a = sym e ∙ found in absurd (no_some both)
    | inr miss ↦ miss
  ]
    where
      no_some : {a : ℕ} → none ≡ some a → ⊥
      no_some e = cc

  pub record IsTallied (extra : ℕ → ℕ → ℕ) (g : UtMatrix) (result : Option UtMatrix) : Type 0 where
    pub out : UtMatrix
    pub returns : result ≡ some out
    pub matrix : IsMatrix (length f) out
    pub entries :
        (a b : ℕ) → a ≤ b → b < length f → entry out a b ≡ entry g a b + extra (at f a) (at f b)

  add_counted-IsTallied :
      (x y w : ℕ) (g : UtMatrix)
      → IsMatrix (length f) g
      → IsTallied
          (λ p q. if meets p q x y then w else 0)
          g
          (add_counted (index_of x f) (index_of y f) w g)
  unfolding add_counted
  add_counted-IsTallied x y w g m = elim (Option-cases (index_of x f)) [
    | inl no_x ↦
        rw (no_x, add_counted)
          (record {
            out = g;
            returns = refl;
            matrix = m;
            entries = λ a b le h.
                let one = index_misses x a no_x (omega (arith, le, h)) in
                let two = index_misses x b no_x h in ground (arith, one, two);
          })
    | inr (u, of_x) ↦ elim (Option-cases (index_of y f)) [
      | inl no_y ↦
          rw (of_x, no_y, add_counted)
            (record {
              out = g;
              returns = refl;
              matrix = m;
              entries = λ a b le h.
                  let one = index_misses y a no_y (omega (arith, le, h)) in
                  let two = index_misses y b no_y h in ground (arith, one, two);
            })
      | inr (v, of_y) ↦
          let done =
            mtx_add-IsWeighed (length f) u v w g m (at-index_of x u f of_x).1
              (at-index_of y v f of_y).1 in
          rw (of_x, of_y, add_counted)
            (record {
              out = done.out;
              returns = done.returns;
              matrix = done.matrix;
              entries = λ a b le h.
                  let inside : a < length f = omega (arith, le, h) in
                  done.entries a b le h
                  ∙ rw
                      (
                        index_hits x u a of_x inside,
                        index_hits x u b of_x h,
                        index_hits y v a of_y inside,
                        index_hits y v b of_y h,
                      )
                      refl;
            })
    ]
  ]

  module _ (num_items : ℕ) (item_f : List (Option ℕ))
      (reads : (x : ℕ) → x < num_items → get_elem? item_f x ≡ some (index_of x f))
      (cnt : ℕ → ℕ → ℕ) where
    record IsRow (extra : ℕ → ℕ → ℕ) (g : UtMatrix) (counts : List ℕ)
        (result : Option (List ℕ × UtMatrix)) : Type 0 where
      out : UtMatrix
      returns : result ≡ some (counts, out)
      matrix : IsMatrix (length f) out
      entries :
          (a b : ℕ) → a ≤ b → b < length f → entry out a b ≡ entry g a b + extra (at f a) (at f b)

    scan_with-IsRow :
        (x : ℕ) (ys counts : List ℕ) (g : UtMatrix)
        → x < num_items
        → All (λ y. y < num_items) ys
        → IsMatrix (length f) g
        → IsRow
            (λ p q. row_tally cnt p q x ys)
            g
            counts
            (scan_with item_f x ys (row_counts cnt x ys ++ counts) g)
    unfolding scan_with
    scan_with-IsRow x [] counts g hx hy m = record {
      out = g;
      returns = refl;
      matrix = m;
      entries = λ a b le h. omega arith;
    }
    scan_with-IsRow x (y ∷ ys) counts g hx hy m =
        let first = add_counted-IsTallied x y (cnt x y) g m in
        let rest = scan_with-IsRow x ys counts first.out hx hy.1 first.matrix in
        rw (reads x hx, reads y hy.0, first.returns, scan_with)
          (record {
            out = rest.out;
            returns = rest.returns;
            matrix = rest.matrix;
            entries = λ a b le h.
                let one = first.entries a b le h in
                let two = rest.entries a b le h in omega (arith, one, two);
          })

    pub second_scan-IsTallied :
        (xs : List ℕ) (g : UtMatrix)
        → All (λ y. y < num_items) xs
        → IsMatrix (length f) g
        → IsTallied (λ p q. tally cnt p q xs) g (second_scan item_f xs (pair_counts cnt xs) g)
    unfolding second_scan
    second_scan-IsTallied [] g h m = record {
      out = g;
      returns = refl;
      matrix = m;
      entries = λ a b le h. omega arith;
    }
    second_scan-IsTallied (x ∷ xs) g h m =
        let first = scan_with-IsRow x xs (pair_counts cnt xs) g h.0 h.1 m in
        let rest = second_scan-IsTallied xs first.out h.1 first.matrix in
        rw (first.returns, second_scan)
          (record {
            out = rest.out;
            returns = rest.returns;
            matrix = rest.matrix;
            entries = λ a b le h.
                let one = first.entries a b le h in
                let two = rest.entries a b le h in omega (arith, one, two);
          })
