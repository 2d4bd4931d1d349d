-- ===== src/Counting/Counted.antt =====
-- `count_items_absolute` of src/2-items/Count.cxx, and the whole of `discover ()` in
-- src/bitdrill/Miner.cxx, which counts and then mines.
use bitdrill.Base.{ℕ, ◌<◌, ◌≤◌, ◌≡◌, refl, ap, ◌∙◌, subst, arith, inl, inr}
use bitdrill.Base.{
  true, false, Option, some, none, List, [], ◌∷◌, length, All, All-map, if◌then◌else◌, ltb,
  Bool-cases, ◌>>=◌,
}
use bitdrill.TidVector.Laws.{has}
use bitdrill.VerticalDb.Building.{contains}
use bitdrill.VerticalDb.Reorder.Moves.{get_elem?-at}
use bitdrill.Graph.{Graph}
use bitdrill.TidlistWalk.Loop.{Ends}
use bitdrill.Miner.Whole.{discover_file}
use bitdrill.Miner.Whole.Pairs.{pair_patterns}
use bitdrill.Miner.Discovered.{IsCounterOf, AreAllFrequent}
use bitdrill.Miner.AllFound.{HasLines, discover_file-AreAllFrequent}
use bitdrill.Counting.{
  Kdci, TsCounter, new_counter, miner_view, count_1_items_local, large_items, count_2_items_local,
  prune_2_items, discover_anew, count_items_absolute, count_items_serial,
}
use bitdrill.Counting.PairsKept.{pairs-HasEnds, pairs-IsExact, pairs_complete}
use bitdrill.Counting.Exact.{IsKdciOf, number}
use bitdrill.Counting.Stages.{IsFirst, first_stage_lem, IsSecond, second_stage_lem, with_pairs}
use bitdrill.VerticalDb.Message.{reads_of, reads_of-AllOnce, length-reads}
use bitdrill.VerticalDb.Ranks.{NoRepeats}
use bitdrill.Base.{none, ◌++◌, replicate}
use bitdrill.Counting.Failed.{discover_file-failed}

bind_through {ℓ} :
    {A B C : Type ℓ} (a : Option A) (next : A → Option B) (last : B → Option C) (b : B)
    → (a >>= next) ≡ some b
    → (a >>= λ c. next c >>= last) ≡ last b
bind_through none next last b e = cc
bind_through (some c) next last b e = ap (λ o. o >>= last) e

serial_stages :
    (k : Kdci) (c large : TsCounter)
    → (count_1_items_local k c >>= large_items) ≡ some large
    → count_items_serial k 2 c ≡ (
        if ltb 0 (length large.frequent)
        then (count_2_items_local k large >>= λ both. prune_2_items both.1 both.0)
        else some large)
unfolding count_items_serial
serial_stages k c large e =
    bind_through (count_1_items_local k c) large_items
      (λ (large : TsCounter).
        if ltb 0 (length large.frequent)
        then (count_2_items_local k large >>= λ both. prune_2_items both.1 both.0)
        else some large)
      large e

with_pairs-IsCounterOf :
    (txns : List (List ℕ)) (k : Kdci) (large c : TsCounter)
    → IsKdciOf txns large.support k
    → 0 < large.support
    → IsFirst txns k large.support large
    → IsSecond txns k large c
    → IsCounterOf (reads_of txns) (with_pairs large c.f2)
with_pairs-IsCounterOf txns k large c of positive first second =
    let n = large.num_transactions in
    let f = large.frequent in
    let e : large.num_transactions ≡ k.num_of_trans = first.transactions in
    let exact =
      pairs-IsExact n f (contains (reads_of txns)) large.count large.support first.distinct
        second.rep c.f2 (rw e second.entries) second.graph in
    let pairs = pair_patterns f 0 c.f2.adjacency in
    record {
      room = omega (arith, of.transactions, length-reads txns, e);
      positive = positive;
      distinct = first.distinct;
      frequent = rw e first.frequent;
      counts = λ i h.
          get_elem?-at large.count i (omega (arith, first.inside i h, first.wide))
          ∙ ap some (rw e (first.counts i));
      items = λ i h. omega (arith, first.inside i h, first.items);
      vertices = omega (arith, second.graph.sized);
      ends =
          pairs-HasEnds n f (contains (reads_of txns)) large.count large.support first.distinct
            second.rep c.f2 (rw e second.entries) second.graph;
      pairs = record {
        sound = All-map _ _ pairs (λ p h. h.0) exact;
        complete =
            pairs_complete n f (contains (reads_of txns)) large.count large.support first.distinct
              second.rep c.f2 (rw e second.entries) second.graph;
      };
      weights = All-map _ _ pairs (λ p h. h.1) exact;
    }

nothing_in : (f : List ℕ) (x : ℕ) → length f ≡ 0 → has f x ≡ false
nothing_in [] x h = refl
nothing_in (y ∷ f) x h = absurd (omega (arith, h))

-- Without a frequent item there is no second stage.
no_items-IsCounterOf :
    (txns : List (List ℕ)) (k : Kdci) (large : TsCounter)
    → IsKdciOf txns large.support k
    → 0 < large.support
    → IsFirst txns k large.support large
    → length large.frequent ≡ 0
    → IsCounterOf (reads_of txns) (miner_view large)
no_items-IsCounterOf txns k large of positive first none_there =
    let e : large.num_transactions ≡ k.num_of_trans = first.transactions in
    let no_edges : large.f2.adjacency ≡ [] = ap (λ (g : Graph). g.adjacency) first.fresh.0 in
    let patterns : pair_patterns large.f_item 0 large.f2.adjacency ≡ [] =
      ap (pair_patterns large.f_item 0) no_edges in
    record {
      room = omega (arith, of.transactions, length-reads txns, e);
      positive = positive;
      distinct = first.distinct;
      frequent = rw e first.frequent;
      counts = λ i h. absurd (ground (arith, h, nothing_in large.frequent i none_there));
      items = λ i h. absurd (ground (arith, h, nothing_in large.frequent i none_there));
      vertices = omega (arith, ap length no_edges);
      ends = rw no_edges tt;
      pairs = record {
        sound = rw patterns tt;
        complete = λ itemset h. absurd (not_frequent itemset h.of_size h.known);
      };
      weights = rw patterns tt;
    }
  where
    not_frequent :
        (itemset : List ℕ) → length itemset ≡ 2 → All (λ i. has large.frequent i ≡ true) itemset → ⊥
    not_frequent [] size known = absurd (omega (arith, size))
    not_frequent (x ∷ rest) size known =
        absurd (ground (arith, known.0, nothing_in large.frequent x none_there))

abbrev pub IsCounted : List (List ℕ) → Kdci → ℕ → TsCounter → Type 0
IsCounted txns k support c =
    IsCounterOf (reads_of txns) (miner_view c)
    × (c.num_transactions ≡ k.num_of_trans)
    × (c.support ≡ support)

after_first :
    (txns : List (List ℕ)) (k : Kdci) (large : TsCounter)
    → IsKdciOf txns large.support k
    → 0 < large.support
    → IsFirst txns k large.support large
    → Ends (IsCounted txns k large.support) (
        if ltb 0 (length large.frequent)
        then (count_2_items_local k large >>= λ both. prune_2_items both.1 both.0)
        else some large)
after_first txns k large of positive first = elim (Bool-cases (ltb 0 (length large.frequent))) [
  | inl some_item ↦
      let second = second_stage_lem txns k large of first in
      let view = with_pairs-IsCounterOf txns k large second.out of positive first second.is_so in
      rw some_item (record {
        out = second.out;
        returns = second.returns;
        is_so = (
          rw second.is_so.view view,
          second.is_so.counted.0 ∙ first.transactions,
          second.is_so.counted.1,
        );
      })
  | inr none_there ↦ rw none_there (record {
    out = large;
    returns = refl;
    is_so = (
      no_items-IsCounterOf txns k large of positive first (ground (arith, none_there)),
      first.transactions,
      refl,
    );
  })
]

absolute_stages :
    (k : Kdci) (support : ℕ)
    → count_items_absolute k support 2 new_counter
      ≡ count_items_serial k 2 (record new_counter { support = support })
unfolding count_items_absolute
absolute_stages k support = refl

pub count_items_absolute-IsCounterOf :
    (txns : List (List ℕ)) (k : Kdci) (support : ℕ)
    → IsKdciOf txns support k
    → 0 < support
    → Ends (IsCounted txns k support) (count_items_absolute k support 2 new_counter)
count_items_absolute-IsCounterOf txns k support of positive =
    let first = first_stage_lem txns k support of positive in
    let e : first.out.support ≡ support = first.is_so.support_kept in
    let done = after_first txns k first.out (rw e of) (rw e positive) (rw e first.is_so) in
    rw
      (
        absolute_stages k support,
        serial_stages k (record new_counter { support = support }) first.out first.returns,
      )
      (rw e at done)

discover_anew_step :
    (k : Kdci) (support : ℕ) (txns : List (List ℕ)) (failed max_level : ℕ) (c : TsCounter)
    → count_items_absolute k support 2 new_counter ≡ some c
    → discover_anew k support (reads_of txns ++ replicate failed none) true max_level
      ≡ discover_file (miner_view c) (reads_of txns) true max_level
unfolding discover_anew
discover_anew_step k support txns failed max_level c e =
    ap
      (λ o. o >>= λ c.
        discover_file (miner_view c) (reads_of txns ++ replicate failed none) true max_level)
      e
    ∙ discover_file-failed (miner_view c) (reads_of txns) failed true max_level

-- Where the reads give transactions that have an item and none twice, and fail only after the last of
-- them, with what comes from kDCI for these and a positive support that some item reaches,
-- `discover ()` without a given counter counts the items and the pairs, builds its database and comes
-- back, and the file that it writes has, after the first line, exactly the itemsets that at least
-- `support` of the transactions have, up to the largest level where one is given, in the order of the
-- counts of its counter, each with the number of its transactions.
pub discover_anew-AreAllFrequent :
    (txns : List (List ℕ)) (k : Kdci) (support failed max_level x : ℕ)
    → IsKdciOf txns support k
    → 0 < support
    → support ≤ number k txns x
    → All NoRepeats txns
    → (c : TsCounter) × (count_items_absolute k support 2 new_counter ≡ some c)
      × Ends
          (HasLines
            (miner_view c)
            (AreAllFrequent (length txns) (contains (reads_of txns)) c.count support max_level))
          (discover_anew k support (reads_of txns ++ replicate failed none) true max_level)
discover_anew-AreAllFrequent txns k support failed max_level x of positive reached once =
    let counted = count_items_absolute-IsCounterOf txns k support of positive in
    let c = counted.out in
    let view = counted.is_so.0 in
    let there : has c.frequent x ≡ true =
      view.frequent x ∙ rw (counted.is_so.1, counted.is_so.2) (ground (arith, reached)) in
    let found =
      discover_file-AreAllFrequent (miner_view c) (reads_of txns) max_level view
        (reads_of-AllOnce txns once) (nonempty c.frequent there) in
    let P = λ (n s : ℕ).
      Ends
        (HasLines (miner_view c) (AreAllFrequent n (contains (reads_of txns)) c.count s max_level))
        (discover_anew k support (reads_of txns ++ replicate failed none) true max_level) in
    let first : P c.num_transactions c.support =
      rw (discover_anew_step k support txns failed max_level c counted.returns) found in
    (
      c,
      counted.returns,
      subst (λ n. P n support) (counted.is_so.1 ∙ of.transactions)
          (subst (λ s. P c.num_transactions s) counted.is_so.2 first),
    )
  where
    nonempty : (f : List ℕ) → has f x ≡ true → 0 < length f
    nonempty [] h = cc
    nonempty (y ∷ f) h = omega arith
