-- ===== src/TidlistWalk/Follows.antt =====
-- `Walk_Tidlist` of src/bitdrill/Trie.hxx goes where `Walk` goes, and keeps its cache right.
use bitdrill.Base.{◌<◌}
use bitdrill.Base.{ℕ, zero, suc, ◌+◌, ◌≡◌, refl, arith}
use bitdrill.Base.{
  Bool, true, false, Option, some, none, List, [], ◌∷◌, length, if◌then◌else◌, ◌>>=◌, Bool-cases,
  inl, inr,
}
use bitdrill.Trie.{Trie, node, Subtries, nil, arc}
use bitdrill.TidList.{TidList}
use bitdrill.VerticalDb.{VerticalDb}
use bitdrill.VerticalDb.Building.{IsVertical}
use bitdrill.Walk.{
  Frame, Walk, at_node, leave_to, leave, round_at, round, is_last, is_marked, next_loop, next,
}
use bitdrill.TidlistWalk.{
  TidlistWalk, tidlist_round_at, tidlist_round, tidlist_next_loop, tidlist_next,
}
use bitdrill.TidlistWalk.Laws.{Fits, FitsArcs, FitsFrames, CacheHolds, enter_cache-Entered}

abbrev pub with_cache : Walk → List TidList → TidlistWalk
with_cache w cache = record { walk = w; tidlist_cache = cache }

-- A cache of that size has the lists of the walk's string, and is deep enough for its trie.
pub record IsKept (n : ℕ) (f : List ℕ) (view : ℕ → ℕ → Bool) (size : ℕ) (w : Walk)
    (cache : List TidList) : Type 0 where
  pub depth : ℕ
  pub fits : FitsFrames f depth w.frames
  pub sums : length w.current + depth ≡ size
  pub same_size : length cache ≡ size
  pub holds : CacheHolds n view w.current cache

-- Both walks make the same round; while it goes on, the cache is kept.
abbrev RoundFollows :
    ℕ → List ℕ → (ℕ → ℕ → Bool) → ℕ → Option (Bool × Walk) → Option (Bool × TidlistWalk) → Type 0
RoundFollows n f view size none r = Unit
RoundFollows n f view size (some (true, w)) r =
    (cache : List TidList) × (r ≡ some (true, with_cache w cache))
RoundFollows n f view size (some (false, w)) r =
    (cache : List TidList) × (r ≡ some (false, with_cache w cache)) × IsKept n f view size w cache

-- The same of `next ()`, where the cache is kept if it says yes.
abbrev pub NextFollows :
    ℕ → List ℕ → (ℕ → ℕ → Bool) → ℕ → Option (Bool × Walk) → Option (Bool × TidlistWalk) → Type 0
NextFollows n f view size none r = Unit
NextFollows n f view size (some (false, w)) r =
    (cache : List TidList) × (r ≡ some (false, with_cache w cache))
NextFollows n f view size (some (true, w)) r =
    (cache : List TidList) × (r ≡ some (true, with_cache w cache)) × IsKept n f view size w cache

node-Fits : (f : List ℕ) (d : ℕ) (t : Trie) → Fits f d t → FitsArcs f d (at_node t).it
node-Fits f d (node e b) h = h

module _ (n : ℕ) (f : List ℕ) (view : ℕ → ℕ → Bool) (db : VerticalDb) (v : IsVertical n f view db)
    (some_txn : 0 < n) where
  leave_to-RoundFollows :
      (size d : ℕ) (current : List ℕ) (parent : Frame) (it : Subtries) (below : List Frame)
      (cache : List TidList)
      → FitsArcs f d it
      → FitsFrames f (suc d) below
      → length current + d ≡ size
      → length cache ≡ size
      → CacheHolds n view current cache
      → RoundFollows n f view size
          (leave_to current parent it below)
          (leave_to current parent it below >>= λ step. some (step.0, with_cache step.1 cache))
  unfolding leave_to
  leave_to-RoundFollows size d current parent nil below cache h b e l c = tt
  leave_to-RoundFollows size zero current parent (arc x t rest) below cache h b e l c = absurd h
  leave_to-RoundFollows size (suc d) current parent (arc x t rest) below cache h b e l c =
      elim (Bool-cases (is_last current rest)) [
        | inl over ↦ rw over (cache, refl)
        | inr more ↦ rw more (
          cache,
          refl,
          record { depth = suc d; fits = (h.2, b); sums = e; same_size = l; holds = c },
        )
      ]

  round_at-RoundFollows :
      (size d : ℕ) (top : Frame) (it : Subtries) (below : List Frame) (current : List ℕ)
      (cache : List TidList)
      → FitsArcs f d it
      → FitsFrames f d (top ∷ below)
      → length current + d ≡ size
      → length cache ≡ size
      → CacheHolds n view current cache
      → RoundFollows n f view size
          (round_at top it below current)
          (tidlist_round_at db top it below current cache)
  unfolding round_at leave tidlist_round_at
  round_at-RoundFollows size d top nil [] current cache h b e l c = tt
  round_at-RoundFollows size d top nil (parent ∷ below) [] cache h b e l c = tt
  round_at-RoundFollows size d top nil (parent ∷ below) (y ∷ current) cache h b e l c =
      leave_to-RoundFollows size (suc d) current parent parent.it below cache b.1.0 b.1.1
        (omega (arith, e)) l c.1
  round_at-RoundFollows size zero top (arc x t rest) below current cache h b e l c = absurd h
  round_at-RoundFollows size (suc d) top (arc x t rest) below current cache h b e l c =
      let entered =
        enter_cache-Entered n f view db v some_txn x current cache h.0 (omega (arith, e, l)) c in
      rw entered.returns (
        entered.out,
        refl,
        record {
          depth = d;
          fits = (node-Fits f d t h.1, b);
          sums = omega (arith, e);
          same_size = omega (arith, entered.same_size, l);
          holds = entered.holds;
        },
      )

  round-RoundFollows :
      (size : ℕ) (w : Walk) (cache : List TidList)
      → IsKept n f view size w cache
      → RoundFollows n f view size (round w) (tidlist_round db (with_cache w cache))
  unfolding round tidlist_round
  round-RoundFollows size w cache k =
      by_frames size w.frames w.current cache k.depth k.fits k.sums k.same_size k.holds
    where
      by_frames :
          (size : ℕ) (frames : List Frame) (current : List ℕ) (cache : List TidList) (d : ℕ)
          → FitsFrames f d frames
          → length current + d ≡ size
          → length cache ≡ size
          → CacheHolds n view current cache
          → RoundFollows n f view size
              (round (record { frames = frames; current = current }))
              (tidlist_round db (with_cache (record { frames = frames; current = current }) cache))
      by_frames size [] current cache d h e l c = tt
      by_frames size (top ∷ below) current cache d h e l c =
          round_at-RoundFollows size d top top.it below current cache h.0 h e l c

  after_round :
      (size fuel : ℕ) (r : Option (Bool × Walk)) (r' : Option (Bool × TidlistWalk))
      → RoundFollows n f view size r r'
      → ((w : Walk) (cache : List TidList)
          → IsKept n f view size w cache
          → NextFollows n f view size
              (next_loop fuel w)
              (tidlist_next_loop fuel db (with_cache w cache)))
      → NextFollows n f view size
          (r >>= λ step.
            if step.0
            then some (false, step.1)
            else if is_marked step.1.frames
            then some (true, step.1)
            else next_loop fuel step.1)
          (r' >>= λ step.
            if step.0
            then some (false, step.1)
            else if is_marked step.1.walk.frames
            then some (true, step.1)
            else tidlist_next_loop fuel db step.1)
  after_round size fuel none r' h go = tt
  after_round size fuel (some (true, w)) r' h go = rw h.1 (h.0, refl)
  after_round size fuel (some (false, w)) r' h go = elim (Bool-cases (is_marked w.frames)) [
    | inl marked ↦ rw (h.1, marked) (h.0, refl, h.2)
    | inr unmarked ↦ rw (h.1, unmarked) (go w h.0 h.2)
  ]

  next_loop-NextFollows :
      (size fuel : ℕ) (w : Walk) (cache : List TidList)
      → IsKept n f view size w cache
      → NextFollows n f view size
          (next_loop fuel w)
          (tidlist_next_loop fuel db (with_cache w cache))
  unfolding next_loop tidlist_next_loop
  next_loop-NextFollows size zero w cache k = tt
  next_loop-NextFollows size (suc fuel) w cache k =
      after_round size fuel (round w) (tidlist_round db (with_cache w cache))
        (round-RoundFollows size w cache k) (next_loop-NextFollows size fuel)

  -- In a database over n transactions, n not being 0, that keeps the list of each of the items `f`, where the
  -- cache is deep enough and has the list of every string that the string of the place starts
  -- with: if `next ()` of a plain walk comes back, that of the walk with a cache comes back with
  -- the same answer in the same place, and on yes the cache is again such.
  pub next-NextFollows :
      (size fuel : ℕ) (w : Walk) (cache : List TidList)
      → IsKept n f view size w cache
      → NextFollows n f view size (next fuel w) (tidlist_next fuel db (with_cache w cache))
  unfolding next tidlist_next
  next-NextFollows size fuel w cache k = at_frames size fuel w.frames w.current cache k
    where
      at_frames :
          (size fuel : ℕ) (frames : List Frame) (current : List ℕ) (cache : List TidList)
          → IsKept n f view size (record { frames = frames; current = current }) cache
          → NextFollows n f view size (next fuel (record { frames = frames; current = current })) (
              tidlist_next fuel db
                (with_cache (record { frames = frames; current = current }) cache))
      at_frames size fuel [] current cache k = (cache, refl)
      at_frames size fuel (top ∷ below) current cache k =
          next_loop-NextFollows size fuel (record { frames = top ∷ below; current = current }) cache
            k
