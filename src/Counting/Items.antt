-- ===== src/Counting/Items.antt =====
-- The counts of the items in src/2-items/Count.cxx, the set of the frequent ones, and their numbers.
use bitdrill.Base.{ℕ, zero, suc, ◌+◌, ◌<◌, ◌≤◌, ◌≡◌, refl, ap, ◌∙◌, arith, inl, inr}
use bitdrill.Base.{
  true, false, ◌&&◌, Option, some, none, List, [], ◌∷◌, length, length-set, length-replicate, All,
  All-map, get_elem?, replicate, set, if◌then◌else◌, leb, ltb, lt→ltb, ◌==◌, ==_iff, Bool-cases,
  Option-cases,
}
use bitdrill.TidVector.Laws.{has}
use bitdrill.VerticalDb.{make_map}
use bitdrill.VerticalDb.Ranks.{NoRepeats, index_of, index_of-some, ranked, make_map-IsMap}
use bitdrill.VerticalDb.Reorder.Moves.{at, at-set, get_elem?-at}
use bitdrill.Graph.{Graph, set_weight}
use bitdrill.TidlistWalk.Loop.{Ends}
use bitdrill.Counting.{take_over, large_from, number_items, write_weights}
use bitdrill.Counting.Scan.{at-index_of}

abbrev pub ids : List (ℕ × ℕ) → List ℕ
ids [] = []
ids (e ∷ counts) = e.0 ∷ ids counts

pub record IsTakenOver (number : ℕ → ℕ) (counts : List (ℕ × ℕ)) (old new : List ℕ) : Type 0 where
  pub sized : length new ≡ length old
  pub reads : (i : ℕ) → at new i ≡ (if has (ids counts) i then number i else at old i)

pub take_over-IsTakenOver :
    (number : ℕ → ℕ) (counts : List (ℕ × ℕ)) (old : List ℕ)
    → All (λ e. e.0 < length old) counts
    → All (λ e. e.1 ≡ number e.0) counts
    → Ends (IsTakenOver number counts old) (take_over counts old)
unfolding take_over
take_over-IsTakenOver number [] old below exact = record {
  out = old;
  returns = refl;
  is_so = record { sized = refl; reads = λ i. refl };
}
take_over-IsTakenOver number ((id, c) ∷ counts) old below exact =
    let sized = length-set old id c in
    let rest =
      take_over-IsTakenOver number counts (set old id c)
        (All-map _ _ counts (λ e h. rw sized h) below.1) exact.1 in
    rw (lt→ltb id (length old) below.0, take_over)
      (record {
        out = rest.out;
        returns = rest.returns;
        is_so = record {
          sized = rest.is_so.sized ∙ sized;
          reads = λ i. rest.is_so.reads i ∙ elim (Bool-cases (has (ids counts) i)) [
            | inl later ↦ ground (arith, later)
            | inr first ↦ rw (at-set old id c i below.0) (elim (Bool-cases (id == i)) [
              | inl here ↦
                  let same = ap number ((==_iff id i).0 here) in
                  ground (arith, first, here, same, exact.0)
              | inr other ↦ ground (arith, first, other)
            ])
          ];
        };
      })

-- The items from i on that occur often enough.
pub record IsLarge (i left support : ℕ) (count f : List ℕ) : Type 0 where
  pub above : All (λ x. i ≤ x) f
  pub distinct : NoRepeats f
  pub items : (x : ℕ) → has f x ≡ (leb i x && (ltb x (i + left) && leb support (at count x)))

not_below : (i x : ℕ) (f : List ℕ) → All (λ y. i ≤ y) f → x < i → has f x ≡ false
not_below i x [] h less = refl
not_below i x (y ∷ f) h less = ground (arith, h.0, not_below i x f h.1 less)

pub large_from-IsLarge :
    (left i support : ℕ) (count : List ℕ)
    → i + left ≤ length count
    → Ends (IsLarge i left support count) (large_from left i support count)
unfolding large_from
large_from-IsLarge zero i support count size = record {
  out = [];
  returns = refl;
  is_so = record { above = tt; distinct = tt; items = λ x. ground arith };
}
large_from-IsLarge (suc left) i support count size =
    let rest = large_from-IsLarge left (i + 1) support count (omega arith) in
    let further = All-map _ (λ x. i ≤ x) rest.out (λ x h. omega (arith, h)) rest.is_so.above in
    let apart : has rest.out i ≡ false =
      not_below (i + 1) i rest.out rest.is_so.above (omega arith) in
    elim (Bool-cases (leb support (at count i))) [
      | inl often ↦
          rw (get_elem?-at count i (omega arith), rest.returns, often, large_from)
            (record {
              out = i ∷ rest.out;
              returns = refl;
              is_so = record {
                above = (omega arith, further);
                distinct = (apart, rest.is_so.distinct);
                items = λ x. elim (Bool-cases (x == i)) [
                  | inl same ↦
                      let e = ap (at count) ((==_iff x i).0 same) in ground (arith, same, often, e)
                  | inr other ↦ ground (arith, rest.is_so.items x, other)
                ];
              };
            })
      | inr rare ↦
          rw (get_elem?-at count i (omega arith), rest.returns, rare, large_from)
            (record {
              out = rest.out;
              returns = refl;
              is_so = record {
                above = further;
                distinct = rest.is_so.distinct;
                items = λ x. elim (Bool-cases (x == i)) [
                  | inl same ↦
                      let e = ap (at count) ((==_iff x i).0 same) in
                      let there = ap (has rest.out) ((==_iff x i).0 same) in
                      ground (arith, same, rare, e, there, apart)
                  | inr other ↦ ground (arith, rest.is_so.items x, other)
                ];
              };
            })
    ]

number_items-make_map :
    (fix : ℕ) (f : List ℕ) (item_f : List (Option ℕ))
    → number_items fix f item_f ≡ make_map fix f item_f
unfolding number_items make_map
number_items-make_map fix [] item_f = refl
number_items-make_map fix (i ∷ f) item_f =
    ap (λ rest. if ltb i (length item_f) then rest else none)
      (number_items-make_map (fix + 1) f (set item_f i (some fix)))

abbrev unnumbered : ℕ → List (Option ℕ)
unnumbered k = replicate k none

none_yet : (k i : ℕ) → i < k → get_elem? (unnumbered k) i ≡ some none
none_yet zero i h = absurd (omega arith)
none_yet (suc k) zero h = refl
none_yet (suc k) (suc i) h = none_yet k i (omega arith)

-- Every item below the size has its number, the place that it has among the frequent items.
abbrev pub IsNumbered : ℕ → List ℕ → List (Option ℕ) → Type 0
IsNumbered num_items f item_f = (x : ℕ) → x < num_items → get_elem? item_f x ≡ some (index_of x f)

pub number_items-IsNumbered :
    (num_items : ℕ) (f : List ℕ)
    → NoRepeats f
    → All (λ x. x < num_items) f
    → Ends (IsNumbered num_items f) (number_items 0 f (replicate num_items none))
number_items-IsNumbered num_items f distinct below =
    let fresh = unnumbered num_items in
    let wide : length fresh ≡ num_items = length-replicate num_items none in
    let map = make_map-IsMap 0 f fresh distinct (All-map _ _ f (λ x h. rw wide h) below) in
    record {
      out = map.out;
      returns = number_items-make_map 0 f fresh ∙ map.returns;
      is_so = λ x h.
          map.reads x
          ∙ ap (ranked 0 (index_of x f)) (none_yet num_items x h)
          ∙ elim (Option-cases (index_of x f)) [
            | inl missing ↦ rw (missing, ranked) refl
            | inr (r, found) ↦ rw (found, ranked) (ap (λ k. some (some k)) (omega arith))
          ];
    }

-- The weights of the vertices are written, and no edge changes.
pub write_weights-keeps :
    (num_items : ℕ) (f : List ℕ) (item_f : List (Option ℕ)) (count items : List ℕ) (g : Graph)
    → IsNumbered num_items f item_f
    → num_items ≤ length count
    → length g.weights ≡ length f
    → All (λ x. (x < num_items) × (has f x ≡ true)) items
    → Ends (λ (out : Graph). out.adjacency ≡ g.adjacency) (write_weights items item_f count g)
unfolding write_weights set_weight
write_weights-keeps num_items f item_f count [] g reads wide size known = record {
  out = g;
  returns = refl;
  is_so = refl;
}
write_weights-keeps num_items f item_f count (x ∷ items) g reads wide size known =
    let found = index_of-some x f known.0.1 in
    let place = at-index_of x found.0 f found.1 in
    let fits : ltb found.0 (length g.weights) ≡ true = ground (arith, place.1, size) in
    let c = at count x in
    let weighted : Graph = record g { weights = set g.weights found.0 c } in
    let rest =
      write_weights-keeps num_items f item_f count items weighted reads wide
        (length-set g.weights found.0 c ∙ size) known.1 in
    rw
      (
        reads x known.0.0,
        found.1,
        get_elem?-at count x (omega (arith, known.0.0, wide)),
        fits,
        write_weights,
      )
      (record { out = rest.out; returns = rest.returns; is_so = rest.is_so })
