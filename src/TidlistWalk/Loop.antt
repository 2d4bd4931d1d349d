-- ===== src/TidlistWalk/Loop.antt =====
-- The loops of src/bitdrill/Miner.cxx over a `Walk_Tidlist`: their body is run in each place that
-- is to be visited, with the right lists in the cache, and then they end.
use bitdrill.Base.{ℕ, zero, suc, ◌<◌, ◌≡◌, refl, arith}
use bitdrill.Base.{Bool, true, false, Option, some, List, [], ◌∷◌, if◌then◌else◌, ◌>>=◌}
use bitdrill.TidList.{TidList}
use bitdrill.VerticalDb.{VerticalDb}
use bitdrill.VerticalDb.Laws.{Entry}
use bitdrill.VerticalDb.Building.{IsVertical}
use bitdrill.VerticalDb.Frequency.{has_all}
use bitdrill.Walk.{Frame, Walk, next}
use bitdrill.Walk.Visits.{pending}
use bitdrill.Walk.Rounds.{cost, IsWalk, NextIs, next-NextIs}
use bitdrill.TidlistWalk.{TidlistWalk, tidlist_next, tidlist_of, for_walk}
use bitdrill.TidlistWalk.Follows.{with_cache, IsKept, NextFollows, next-NextFollows}

-- A loop came back with a state of which that is so.
pub record Ends {S : Type 0} (P : S → Type 0) (result : Option S) : Type 0 where
  pub out : S
  pub returns : result ≡ some out
  pub is_so : P out

-- In a place with a string, `tidlist ()` is the list of that string.
pub tidlist_of-Entry :
    (n : ℕ) (f : List ℕ) (view : ℕ → ℕ → Bool) (size : ℕ) (frames : List Frame) (x : ℕ)
    (current : List ℕ) (cache : List TidList)
    → IsKept n f view size (record { frames = frames; current = x ∷ current }) cache
    → Entry n
        (has_all view (x ∷ current))
        (tidlist_of (with_cache (record { frames = frames; current = x ∷ current }) cache))
unfolding tidlist_of
tidlist_of-Entry n f view size frames x current cache k = k.holds.0

module _ (n : ℕ) (f : List ℕ) (view : ℕ → ℕ → Bool) (db : VerticalDb) (v : IsVertical n f view db)
    (some_txn : 0 < n) {S : Type 0} (size rounds : ℕ) (body : TidlistWalk → S → Option S)
    (Inv : List Walk → S → Type 0)
    (step : (w : Walk) (later : List Walk) (cache : List TidList) (s : S)
      → IsWalk w.frames w.current
      → pending w.frames w.current ≡ later
      → IsKept n f view size w cache
      → Inv (w ∷ later) s
      → Ends (Inv later) (body (with_cache w cache) s)) where
  for_walk-end :
      (fuel : ℕ) (frames : List Frame) (current : List ℕ) (cache : List TidList) (s : S)
      → frames ≡ []
      → for_walk rounds db body
          (suc fuel)
          (with_cache (record { frames = frames; current = current }) cache)
          s
        ≡ some s
  unfolding for_walk
  for_walk-end fuel [] current cache s e = refl
  for_walk-end fuel (top ∷ below) current cache s e = cc

  after_next :
      (fuel bound : ℕ) (visits : List Walk) (r : Option (Bool × Walk))
      (r' : Option (Bool × TidlistWalk)) (s : S)
      → NextIs visits bound r
      → NextFollows n f view size r r'
      → Inv visits s
      → ((w : Walk) (cache : List TidList) (t : S)
          → IsWalk w.frames w.current
          → cost w.frames < bound
          → IsKept n f view size w cache
          → Inv (pending w.frames w.current) t
          → Ends (Inv []) (for_walk rounds db body (suc fuel) (with_cache w cache) t))
      → Ends (Inv []) (
          r' >>= λ answer. (if answer.0 then body answer.1 s else some s) >>= λ t.
          for_walk rounds db body (suc fuel) answer.1 t)
  after_next fuel bound [] r r' s h follows i go =
      let kept : NextFollows n f view size (some (false, h.0)) r' = rw h.1 at follows in
      rw kept.1 (record {
        out = s;
        returns = for_walk-end fuel h.0.frames h.0.current kept.0 s h.2;
        is_so = i;
      })
  after_next fuel bound (w ∷ later) r r' s h follows i go =
      let kept : NextFollows n f view size (some (true, w)) r' = rw h.0 at follows in
      let done = step w later kept.0 s h.1 h.2 kept.2 i in
      let rest = go w kept.0 done.out h.1 h.3 kept.2 (rw h.2 done.is_so) in
      rw (kept.1, done.returns) rest

  -- A state of which `Inv` holds with all visits ahead, and in which each body leaves it true of
  -- the visits after its own, is in the end one of which it holds with no visit ahead.
  pub for_walk-Ends :
      (fuel : ℕ) (frames : List Frame) (current : List ℕ) (cache : List TidList) (s : S)
      → IsWalk frames current
      → cost frames < rounds
      → suc (cost frames) < fuel
      → IsKept n f view size (record { frames = frames; current = current }) cache
      → Inv (pending frames current) s
      → Ends (Inv []) (
          for_walk rounds db body fuel
            (with_cache (record { frames = frames; current = current }) cache)
            s)
  unfolding for_walk
  for_walk-Ends zero frames current cache s w enough more k i = absurd (omega arith)
  for_walk-Ends (suc zero) frames current cache s w enough more k i = absurd (omega arith)
  for_walk-Ends (suc (suc fuel)) [] current cache s w enough more k i = absurd w
  for_walk-Ends (suc (suc fuel)) (top ∷ below) current cache s w enough more k i =
      let here : Walk = record { frames = top ∷ below; current = current } in
      after_next fuel (cost (top ∷ below)) (pending (top ∷ below) current) (next rounds here)
        (tidlist_next rounds db (with_cache here cache)) s
        (next-NextIs rounds (top ∷ below) current w enough)
        (next-NextFollows n f view db v some_txn size rounds here cache k) i
        (λ w' cache' t is smaller k' i'.
          for_walk-Ends (suc fuel) w'.frames w'.current cache' t is (omega (arith, smaller, enough))
            (omega (arith, smaller, more)) k' i')
