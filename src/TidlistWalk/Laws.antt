-- ===== src/TidlistWalk/Laws.antt =====
-- `Walk_Tidlist` of src/bitdrill/Trie.hxx goes like `Walk`, with the right lists in its cache.
use bitdrill.TidList.Laws.{some-HasWords}
use bitdrill.Base.{ℕ, zero, suc, ◌≤◌, ◌<◌, ◌≡◌, ap₂, ◌∙◌, arith}
use bitdrill.Base.{
  Bool, true, ◌&&◌, Option, some, List, [], ◌∷◌, length, length-set, get_elem?, get_elem?-set_here,
  get_elem?-set_elsewhere, get_elem?-inside, set, lt→ltb,
}
use bitdrill.Trie.{Trie, node, Subtries, nil, arc}
use bitdrill.TidVector.Laws.{has}
use bitdrill.TidList.{TidList}
use bitdrill.TidList.Intersection.{intersect_into-Holds}
use bitdrill.VerticalDb.{VerticalDb}
use bitdrill.VerticalDb.Laws.{Tells, Entry}
use bitdrill.VerticalDb.Building.{IsVertical}
use bitdrill.VerticalDb.Frequency.{has_all}
use bitdrill.Walk.{Frame}
use bitdrill.TidlistWalk.{store_at, enter_cache}

-- The arcs reach at most d symbols deep, and all symbols are known items.
abbrev mutual
  pub Fits : List ℕ → ℕ → Trie → Type 0
  Fits f d (node e b) = FitsArcs f d b

  pub FitsArcs : List ℕ → ℕ → Subtries → Type 0
  FitsArcs f d nil = Unit
  FitsArcs f zero (arc x t rest) = ⊥
  FitsArcs f (suc d) (arc x t rest) = (has f x ≡ true) × Fits f d t × FitsArcs f (suc d) rest

abbrev pub FitsFrames : List ℕ → ℕ → List Frame → Type 0
FitsFrames f d [] = Unit
FitsFrames f d (top ∷ below) = FitsArcs f d top.it × FitsFrames f (suc d) below

-- The cache has the list of every string that the current one starts with.
abbrev pub CacheHolds : ℕ → (ℕ → ℕ → Bool) → List ℕ → List TidList → Type 0
CacheHolds n view [] cache = Unit
CacheHolds n view (x ∷ current) cache =
    Entry n (has_all view (x ∷ current)) (get_elem? cache (length current))
    × CacheHolds n view current cache

CacheHolds-set :
    (n : ℕ) (view : ℕ → ℕ → Bool) (current : List ℕ) (cache : List TidList) (i : ℕ) (tl : TidList)
    → i < length cache
    → length current ≤ i
    → CacheHolds n view current cache
    → CacheHolds n view current (set cache i tl)
CacheHolds-set n view [] cache i tl lt le h = tt
CacheHolds-set n view (x ∷ current) cache i tl lt le h =
    let read = get_elem?-set_elsewhere cache i (length current) tl (omega (arith, le)) in
    (
      record { out = h.0.out; reads = read ∙ h.0.reads; tells = h.0.tells },
      CacheHolds-set n view current cache i tl lt (omega (arith, le)) h.1,
    )

pub record Entered (n : ℕ) (view : ℕ → ℕ → Bool) (current : List ℕ) (size : ℕ)
    (result : Option (List TidList)) : Type 0 where
  pub out : List TidList
  pub returns : result ≡ some out
  pub same_size : length out ≡ size
  pub holds : CacheHolds n view current out

module _ (n : ℕ) (f : List ℕ) (view : ℕ → ℕ → Bool) (db : VerticalDb) (v : IsVertical n f view db)
    (some_txn : 0 < n) where
  -- A list stored for the string that has become `x ∷ current`.
  store_at-Entered :
      (x : ℕ) (current : List ℕ) (cache : List TidList) (tl : TidList)
      → length current < length cache
      → Tells n (has_all view (x ∷ current)) tl
      → CacheHolds n view current cache
      → Entered n view (x ∷ current) (length cache) (store_at cache (length current) tl)
  unfolding store_at
  store_at-Entered x current cache tl lt h c =
      let read = get_elem?-set_here cache (length current) tl lt in
      record {
        out = set cache (length current) tl;
        returns = rw (lt→ltb _ _ lt);
        same_size = length-set cache (length current) tl;
        holds = (
          record { out = tl; reads = read; tells = h },
          CacheHolds-set n view current cache (length current) tl lt (omega arith) c,
        );
      }

  pub enter_cache-Entered :
      (x : ℕ) (current : List ℕ) (cache : List TidList)
      → has f x ≡ true
      → length current < length cache
      → CacheHolds n view current cache
      → Entered n view (x ∷ current) (length cache) (enter_cache db x current cache)
  unfolding enter_cache
  enter_cache-Entered x [] cache known lt c =
      let entry = v.lists x known in
      rw entry.reads (
        store_at-Entered x [] cache entry.out lt
          (entry.tells.0, λ t inside. entry.tells.1 t inside ∙ ground arith) c)
  enter_cache-Entered x (y ∷ current) cache known lt c =
      let entry = v.lists x known in
      let before = c.0 in
      let old = get_elem?-inside cache (suc (length current)) lt in
      let both =
        intersect_into-Holds n before.out entry.out old.0 before.tells.0 entry.tells.0
          (some-HasWords before.out.implementation entry.out.implementation n some_txn) in
      rw (before.reads, entry.reads, old.1, both.returns)
        (store_at-Entered x (y ∷ current) cache both.out lt
          (
            both.valid,
            λ t inside.
                both.tells t inside
                ∙ ap₂ ◌&&◌ (before.tells.1 t inside) (entry.tells.1 t inside)
                ∙ ground arith,
          )
          c)
