-- ===== src/TidlistWalk.antt =====
-- `Walk_Tidlist` of src/bitdrill/Trie.hxx: a walk that keeps, for each symbol of its string, the
-- list of the transactions that have the string up to there. Only walks without a sentinel are
-- here, as the miner makes them; such a walk does not look whether its trie is empty. `none` is
-- what it means in Walk, and a place outside the cache.
pub mod Laws
pub mod Follows
pub mod Loop
pub mod Cache
pub mod Runs
use bitdrill.Base.{ℕ, zero, suc, ◌-◌, Bool, true, false, Option, some, none, List, [], ◌∷◌}
use bitdrill.Base.{length, get_elem?, set, if◌then◌else◌, ltb, ◌>>=◌}
use bitdrill.Trie.{Trie, Subtries, nil, arc}
use bitdrill.TidList
use bitdrill.TidList.{TidList, bitvector}
use bitdrill.VerticalDb.{VerticalDb, item}
use bitdrill.Walk.{Frame, Walk, at_node, leave, is_marked}

pub record TidlistWalk : Type 0 where
  pub walk : Walk
  pub tidlist_cache : List TidList

-- The loop that resets each list of the cache.
pub make_cache : VerticalDb → ℕ → Option (List TidList)
make_cache db zero = some []
make_cache db (suc k) = do
  first ← get_elem? db.map_freq_item 0
  expected ← get_elem? db.count first
  tl ← TidList.reset db.num_txn expected (TidList.new_tid_list bitvector)
  rest ← make_cache db k
  some (tl ∷ rest)

unfoldable pub new_tidlist_walk : Trie → VerticalDb → ℕ → Option TidlistWalk
unfolding make_cache
new_tidlist_walk t db k = do
  cache ← make_cache db k
  some (record { walk = record { frames = at_node t ∷ []; current = [] }; tidlist_cache = cache })

pub store_at : List TidList → ℕ → TidList → Option (List TidList)
store_at cache i tl = if ltb i (length cache) then some (set cache i tl) else none

-- The cache when the symbol x has been added to a string.
pub enter_cache : VerticalDb → ℕ → List ℕ → List TidList → Option (List TidList)
unfolding store_at
enter_cache db x [] cache = do tl ← item db x; store_at cache 0 tl
enter_cache db x (y ∷ current) cache = do
  before ← get_elem? cache (length current)
  tl ← item db x
  old ← get_elem? cache (suc (length current))
  both ← TidList.intersect_into before tl old
  store_at cache (suc (length current)) both

-- One round of the loop of `next ()`.
pub tidlist_round_at :
    VerticalDb → Frame → Subtries → List Frame → List ℕ → List TidList → Option (Bool × TidlistWalk)
unfolding enter_cache
tidlist_round_at db top nil below current cache = do
  step ← leave (top ∷ below) current
  some (step.0, record { walk = step.1; tidlist_cache = cache })
tidlist_round_at db top (arc x t rest) below current cache = do
  cache' ← enter_cache db x current cache
  some (
    false,
    record {
      walk = record { frames = at_node t ∷ top ∷ below; current = x ∷ current };
      tidlist_cache = cache';
    },
  )

pub tidlist_round : VerticalDb → TidlistWalk → Option (Bool × TidlistWalk)
unfolding tidlist_round_at
tidlist_round db w = elim w.walk.frames [
  | [] ↦ none
  | top ∷ below ↦ tidlist_round_at db top top.it below w.walk.current w.tidlist_cache
]

pub tidlist_next_loop : ℕ → VerticalDb → TidlistWalk → Option (Bool × TidlistWalk)
unfolding tidlist_round
tidlist_next_loop zero db w = none
tidlist_next_loop (suc fuel) db w = do
  step ← tidlist_round db w
  let later = tidlist_next_loop fuel db step.1 in
      if step.0
      then some (false, step.1)
      else if is_marked step.1.walk.frames
      then some (true, step.1)
      else later

unfoldable pub tidlist_next : ℕ → VerticalDb → TidlistWalk → Option (Bool × TidlistWalk)
unfolding tidlist_next_loop
tidlist_next fuel db w = elim w.walk.frames [
  | [] ↦ some (false, w)
  | top ∷ below ↦ tidlist_next_loop fuel db w
]

-- `tidlist ()`: the list of the whole string.
unfoldable pub tidlist_of : TidlistWalk → Option TidList
tidlist_of w = elim w.walk.current [
  | [] ↦ none
  | x ∷ current ↦ get_elem? w.tidlist_cache (length current)
]

-- The loop `while (!walk.end ()) if (walk.next ()) ...` of the miner, on fuel.
unfoldable pub for_walk {ℓ} :
    {S : Type ℓ} → ℕ → VerticalDb → (TidlistWalk → S → Option S) → ℕ → TidlistWalk → S → Option S
unfolding tidlist_next
for_walk rounds db body zero w s = none
for_walk rounds db body (suc fuel) w s = elim w.walk.frames [
  | [] ↦ some s
  | top ∷ below ↦ do
    step ← tidlist_next rounds db w
    s' ← if step.0 then body step.1 s else some s
    for_walk rounds db body fuel step.1 s'
]
