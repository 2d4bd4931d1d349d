-- ===== src/PatternSet/Laws.antt =====
-- `decompose_by_size` of src/bitdrill/Pattern.cxx: what each list holds afterwards.
use mathlib.Core.List.{append-nil, append_assoc}
use bitdrill.Base.{
  ℕ, zero, suc, ◌+◌, ◌≤◌, ◌<◌, max, ◌≡◌, refl, ap, ◌∙◌, sym, arith, Option, some, none, List, [],
  ◌∷◌, ◌++◌,
}
use bitdrill.Base.{
  length, length-set, All, get_elem?, get_elem?-set, set, if◌then◌else◌, ◌==◌, ==_iff, Bool-cases,
  inl, inr,
}
use bitdrill.PatternSet.{Pattern, PatternSet, find_max, resize_rows, push_rows, decompose_by_size}

-- The patterns with k items, in their order.
abbrev pub of_size : ℕ → List Pattern → List Pattern
of_size k [] = []
of_size k (p ∷ ps) = let rest = of_size k ps in if length p.itemset == k then p ∷ rest else rest

-- The list at a place, empty where there is none.
abbrev or_empty : Option (List Pattern) → List Pattern
or_empty none = []
or_empty (some row) = row

abbrev pub row_at : List (List Pattern) → ℕ → List Pattern
row_at rows k = or_empty (get_elem? rows k)

length-resize_rows : (n : ℕ) (rows : List (List Pattern)) → length (resize_rows n rows) ≡ n
unfolding resize_rows
length-resize_rows zero rows = refl
length-resize_rows (suc n) [] = ap suc (length-resize_rows n [])
length-resize_rows (suc n) (row ∷ rows) = ap suc (length-resize_rows n rows)

row_at-resize_rows :
    (n : ℕ) (rows : List (List Pattern)) (k : ℕ)
    → k < n
    → row_at (resize_rows n rows) k ≡ row_at rows k
unfolding resize_rows
row_at-resize_rows zero rows k h = absurd (omega arith)
row_at-resize_rows (suc n) [] zero h = refl
row_at-resize_rows (suc n) [] (suc k) h = row_at-resize_rows n [] k (omega arith)
row_at-resize_rows (suc n) (row ∷ rows) zero h = refl
row_at-resize_rows (suc n) (row ∷ rows) (suc k) h = row_at-resize_rows n rows k (omega arith)

find_max-bounds :
    (m : ℕ) (ps : List Pattern)
    → (m ≤ find_max m ps) × All (λ p. length p.itemset ≤ find_max m ps) ps
unfolding find_max
find_max-bounds m [] = (omega arith, tt)
find_max-bounds m (p ∷ ps) =
    let rest = find_max-bounds (max m (length p.itemset)) ps in
    (omega (arith, rest.0), (omega (arith, rest.0), rest.1))

row_in :
    (rows : List (List Pattern)) (k : ℕ) → k < length rows → get_elem? rows k ≡ some (row_at rows k)
row_in [] k h = absurd (omega arith)
row_in (row ∷ rows) zero h = refl
row_in (row ∷ rows) (suc k) h = row_in rows k (omega arith)

record Pushed (ps : List Pattern) (rows : List (List Pattern))
    (result : Option (List (List Pattern))) : Type 0 where
  out : List (List Pattern)
  returns : result ≡ some out
  same_length : length out ≡ length rows
  row : (k : ℕ) → row_at out k ≡ row_at rows k ++ of_size k ps

row_at-set :
    (p : Pattern) (ps : List Pattern) (rows : List (List Pattern)) (k : ℕ)
    → length p.itemset < length rows
    → row_at (set rows (length p.itemset) (row_at rows (length p.itemset) ++ p ∷ [])) k
        ++ of_size k ps
      ≡ row_at rows k ++ of_size k (p ∷ ps)
row_at-set p ps rows k h =
    let read =
      get_elem?-set rows (length p.itemset) k (row_at rows (length p.itemset) ++ p ∷ []) h in
    elim (Bool-cases (length p.itemset == k)) [
      | inl here ↦
          let same : length p.itemset ≡ k = (==_iff _ _).0 here in
          let written = rw here at read in
          rw here (
            ap (λ o. or_empty o ++ of_size k ps) written
            ∙ ap (λ j. (row_at rows j ++ p ∷ []) ++ of_size k ps) same
            ∙ append_assoc (row_at rows k) (p ∷ []) (of_size k ps))
      | inr other ↦
          let unwritten = rw other at read in
          rw other (ap (λ o. or_empty o ++ of_size k ps) unwritten)
    ]

push_rows-Pushed :
    (ps : List Pattern) (rows : List (List Pattern))
    → All (λ p. length p.itemset < length rows) ps
    → Pushed ps rows (push_rows ps rows)
unfolding push_rows
push_rows-Pushed [] rows h = record {
  out = rows;
  returns = refl;
  same_length = refl;
  row = λ k. sym (append-nil (row_at rows k));
}
push_rows-Pushed (p ∷ ps) rows h =
    let i = length p.itemset in
    let pushed = set rows i (row_at rows i ++ p ∷ []) in
    let rest = push_rows-Pushed ps pushed (rw (length-set rows i (row_at rows i ++ p ∷ [])) h.1) in
    record {
      out = rest.out;
      returns = rw (row_in rows i h.0) rest.returns;
      same_length = rest.same_length ∙ length-set rows i (row_at rows i ++ p ∷ []);
      row = λ k. rest.row k ∙ row_at-set p ps rows k h.0;
    }

-- A result of `decompose_by_size`: there is a list for each size up to the new `max_length`, which
-- no pattern is longer than, and the list of each size k is the one from before with the patterns
-- of that size added.
pub record IsDecomposed (s : PatternSet) (result : Option PatternSet) : Type 0 where
  pub out : PatternSet
  pub returns : result ≡ some out
  pub kept : out.patterns ≡ s.patterns
  pub longest : All (λ p. length p.itemset ≤ out.max_length) s.patterns
  pub places : length out.bysize ≡ out.max_length + 1
  pub rows :
      (k : ℕ) → k ≤ out.max_length → row_at out.bysize k ≡ row_at s.bysize k ++ of_size k s.patterns

below_next :
    (n : ℕ) (rows : List (List Pattern)) (ps : List Pattern)
    → length rows ≡ n + 1
    → All (λ p. length p.itemset ≤ n) ps
    → All (λ p. length p.itemset < length rows) ps
below_next n rows [] e h = tt
below_next n rows (p ∷ ps) e h = (omega (arith, e, h.0), below_next n rows ps e h.1)

-- `decompose_by_size` never leaves a vector: it comes back with a list for each size, to which the
-- patterns of that size have been added in their order. What a list held before stays in it.
pub decompose_by_size-IsDecomposed : (s : PatternSet) → IsDecomposed s (decompose_by_size s)
unfolding decompose_by_size
decompose_by_size-IsDecomposed s =
    let longest = find_max s.max_length s.patterns in
    let bounds = find_max-bounds s.max_length s.patterns in
    let wide = length-resize_rows (longest + 1) s.bysize in
    let rows = resize_rows (longest + 1) s.bysize in
    let pushed =
      push_rows-Pushed s.patterns rows (below_next longest rows s.patterns wide bounds.1) in
    record {
      out = record s { max_length = longest; bysize = pushed.out };
      returns = rw pushed.returns;
      kept = refl;
      longest = bounds.1;
      places = pushed.same_length ∙ wide;
      rows = λ k le.
          pushed.row k
          ∙ ap (λ r. r ++ of_size k s.patterns)
              (row_at-resize_rows (longest + 1) s.bysize k (omega arith));
    }
