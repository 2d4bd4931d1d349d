-- ===== src/Counting/Stages.antt =====
-- The two stages of `count_items_serial` of src/2-items/Count.cxx: the frequent items, and the graph of
-- the frequent pairs.
use bitdrill.Base.{ℕ, zero, suc, ◌-◌, ◌<◌, ◌≤◌, ◌≡◌, refl, ap, ◌∙◌, sym, arith, inl, inr}
use bitdrill.Base.{
  true, false, List, [], ◌∷◌, length, All, All-map, replicate, leb, ltb, Bool-cases, ◌>>=◌,
}
use bitdrill.TidVector.Laws.{has}
use bitdrill.VerticalDb.Ranks.{NoRepeats}
use bitdrill.VerticalDb.Building.{All-has, contains}
use bitdrill.VerticalDb.Reorder.Moves.{at}
use bitdrill.Graph.{Graph, new_graph, resize, resize_list, has_edge, edge_weight}
use bitdrill.Graph.Laws.{edges_at, resize-empty, length-resize_list}
use bitdrill.UtMatrix.{elt}
use bitdrill.TidlistWalk.Loop.{Ends}
use bitdrill.Miner.Whole.{Counter}
use bitdrill.Counting.{
  Kdci, TsCounter, new_counter, miner_view, Pruned, count_1_items_local, large_items,
  count_2_items_local, prune_2_items,
}
use bitdrill.Counting.Items.{
  ids, take_over-IsTakenOver, large_from-IsLarge, IsNumbered, number_items-IsNumbered,
  write_weights-keeps,
}
use bitdrill.Counting.Kept.{IsKept}
use bitdrill.Counting.Pruning.{prune_walk-IsPruned}
use bitdrill.Counting.PairsKept.{pair_number}
use bitdrill.Counting.Exact.{IsKdciOf, number, two_items-IsPairMatrix}
use bitdrill.VerticalDb.Message.{reads_of}
use bitdrill.VerticalDb.Frequency.{has_all}
use bitdrill.Base.Count.{count_below-le}
use bitdrill.Base.{◌^◌}

at-fresh : (m i : ℕ) → at (resize_list m 0 []) i ≡ 0
at-fresh zero i = refl
at-fresh (suc m) i = zeros (suc m - 0) i
  where
    zeros : (k i : ℕ) → at (replicate k 0) i ≡ 0
    zeros zero i = refl
    zeros (suc k) zero = refl
    zeros (suc k) (suc i) = zeros k i

-- A graph without edges, before the walk.
no_edges-IsKept :
    (n support : ℕ) (rep : List ℕ) (g : Graph)
    → length g.adjacency ≡ n
    → ((a : ℕ) → edges_at g.adjacency a ≡ [])
    → IsKept n support rep 0 0 g
no_edges-IsKept n support rep g size none_there = record {
  sized = size;
  joins = λ a b. ap (λ l. has_edge l b) (none_there a) ∙ unfold has_edge in ground arith;
  weighs = λ a b. ap (λ l. edge_weight l b) (none_there a) ∙ unfold edge_weight in ground arith;
  distinct = λ a. rw (none_there a) tt;
}

beyond :
    (m i : ℕ) (counts : List (ℕ × ℕ))
    → All (λ e. e.0 < m) counts
    → m ≤ i
    → has (ids counts) i ≡ false
beyond m i [] h le = refl
beyond m i (e ∷ counts) h le = ground (arith, h.0, beyond m i counts h.1 le)

-- After the first scan: the frequent items, with every count.
pub record IsFirst (txns : List (List ℕ)) (k : Kdci) (support : ℕ) (c : TsCounter) : Type 0 where
  pub items : c.num_items ≡ k.m
  pub transactions : c.num_transactions ≡ k.num_of_trans
  pub support_kept : c.support ≡ support
  pub wide : length c.count ≡ k.m
  pub counts : (i : ℕ) → at c.count i ≡ number k txns i
  pub distinct : NoRepeats c.frequent
  pub frequent : (i : ℕ) → has c.frequent i ≡ leb support (number k txns i)
  pub inside : (i : ℕ) → has c.frequent i ≡ true → i < k.m
  pub fresh : (c.f2 ≡ new_graph) × (c.f2_load ≡ new_graph)

pub first_stage_lem :
    (txns : List (List ℕ)) (k : Kdci) (support : ℕ)
    → IsKdciOf txns support k
    → 0 < support
    → Ends
        (IsFirst txns k support)
        (count_1_items_local k (record new_counter { support = support }) >>= large_items)
unfolding count_1_items_local large_items
first_stage_lem txns k support of positive =
    let wide : length (resize_list k.m 0 []) ≡ k.m = length-resize_list k.m 0 [] in
    let taken =
      take_over-IsTakenOver (number k txns) k.counts (resize_list k.m 0 [])
        (All-map _ _ k.counts (λ e h. rw wide h) of.below) of.exact in
    let sized = taken.is_so.sized ∙ wide in
    let counts : (i : ℕ) → at taken.out i ≡ number k txns i =
      λ i. taken.is_so.reads i ∙ ground (arith, at-fresh k.m i, of.others i) in
    let large = large_from-IsLarge k.m 0 support taken.out (omega (arith, sized)) in
    rw (taken.returns, large.returns)
      (record {
        out = _;
        returns = refl;
        is_so = record {
          items = refl;
          transactions = refl;
          support_kept = refl;
          wide = sized;
          counts = counts;
          distinct = large.is_so.distinct;
          frequent = λ i. large.is_so.items i ∙ elim (Bool-cases (ltb i k.m)) [
            | inl within ↦ ground (arith, counts i, within)
            | inr out ↦
                let rare = of.others i (beyond k.m i k.counts of.below (ground (arith, out))) in
                ground (arith, rare, out, positive)
          ];
          inside = λ i h. ground (arith, large.is_so.items i, h);
          fresh = (refl, refl);
        };
      })

-- What a miner takes from the counter with the graph of the pairs.
abbrev pub with_pairs : TsCounter → Graph → Counter
with_pairs c g = record {
  frequent = c.frequent;
  count = c.count;
  num_items = c.num_items;
  num_transactions = c.num_transactions;
  support = c.support;
  f_item = c.frequent;
  pairs = g.adjacency;
}

-- The second stage: the graph of the frequent pairs.
pub record IsSecond (txns : List (List ℕ)) (k : Kdci) (large c : TsCounter) : Type 0 where
  pub view : miner_view c ≡ with_pairs large c.f2
  pub counted : (c.num_transactions ≡ large.num_transactions) × (c.support ≡ large.support)
  pub rep : List ℕ
  pub graph :
      IsKept
        (length large.frequent)
        large.support
        rep
        (length large.frequent)
        (length large.frequent)
        c.f2
  pub entries :
      (a b : ℕ)
      → a < b
      → b < length large.frequent
      → at rep (elt (length large.frequent) a b)
        ≡ pair_number k.num_of_trans
            (contains (reads_of txns))
            (at large.frequent a)
            (at large.frequent b)

pub second_stage_lem :
    (txns : List (List ℕ)) (k : Kdci) (large : TsCounter)
    → IsKdciOf txns large.support k
    → IsFirst txns k large.support large
    → Ends
        (IsSecond txns k large)
        (count_2_items_local k large >>= λ both. prune_2_items both.1 both.0)
unfolding count_2_items_local prune_2_items
second_stage_lem txns k large of first =
    let f = large.frequent in
    let support = large.support in
    let size = length f in
    let inside = All-has (λ x. x < k.m) f first.inside in
    let numbered =
      number_items-IsNumbered large.num_items f first.distinct (rw first.items inside) in
    let numbers : IsNumbered k.m f numbered.out = rw first.items at numbered.is_so in
    let fresh = resize-empty size large.f2 (ap (λ (g : Graph). g.adjacency) first.fresh.0) in
    let fresh_load =
      resize-empty size large.f2_load (ap (λ (g : Graph). g.adjacency) first.fresh.1) in
    let weighted =
      write_weights-keeps k.m f numbered.out large.count f (resize size large.f2) numbers
        (omega (arith, first.wide)) fresh.1
        (All-has (λ x. (x < k.m) × (has f x ≡ true)) f (λ x h. (first.inside x h, h))) in
    let pairs =
      two_items-IsPairMatrix txns support k of f first.distinct first.frequent numbered.out
        numbers in
    let rep = pairs.out.rep in
    let entries : (a b : ℕ)
        → a < b
        → b < size
        → at rep (elt size a b)
          ≡ pair_number k.num_of_trans (contains (reads_of txns)) (at f a) (at f b) =
      λ a b less h.
        ap (λ (r : ℕ). at rep (elt r a b)) (sym pairs.is_so.matrix.rows)
        ∙ pairs.is_so.entries a b less h in
    let small : (a b : ℕ) → a < b → b < size → at rep (elt size a b) < 2 ^ 32 = λ a b less h.
      let exact = entries a b less h in
      let most =
        count_below-le k.num_of_trans (has_all (contains (reads_of txns)) (at f a ∷ at f b ∷ [])) in
      omega (arith, exact, most, of.fits) in
    let kept =
      no_edges-IsKept size support rep weighted.out (ap length weighted.is_so ∙ fresh.0)
        (λ a. ap (λ l. edges_at l a) weighted.is_so ∙ fresh.2 a) in
    let kept_load =
      no_edges-IsKept size support rep (resize size large.f2_load) fresh_load.0 fresh_load.2 in
    let s : Pruned = record {
      f2 = weighted.out;
      f2_load = resize size large.f2_load;
      edges = 0;
      edge_weight = 0;
    } in
    let pruned =
      prune_walk-IsPruned size support rep small s pairs.is_so.matrix.sized kept kept_load in
    rw (numbered.returns, weighted.returns, pairs.returns, pairs.is_so.matrix.rows, pruned.returns)
      (record {
        out = _;
        returns = refl;
        is_so = record {
          view = refl;
          counted = (refl, refl);
          rep = rep;
          graph = pruned.f2;
          entries = entries;
        };
      })
