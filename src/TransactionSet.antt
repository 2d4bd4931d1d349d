-- ===== src/TransactionSet.antt =====
-- src/transaction-db/Transaction.cxx and Transaction_Set.cxx: transactions, sets of them in memory,
-- and their encoding as a message of numbers. A transaction is the vector of its items; its two
-- identifiers are not part of a message. Files and their scanner are not here. `none` is a read
-- past the end of a message.
pub mod Codec
pub mod Frequent
pub mod Pruning
pub mod Runs
use bitdrill.Base.{
  ℕ, zero, suc, ◌+◌, ◌≡◌, Bool, true, false, Option, some, none, List, [], ◌∷◌, ◌++◌, map,
}
use bitdrill.Base.{length, take, drop, if◌then◌else◌, leb, ◌==◌, ◌>>=◌}

-- `encode_step (msg)`: the message with the transaction added.
unfoldable pub encode_step : List ℕ → List ℕ → List ℕ
encode_step t msg = (msg ++ length t ∷ []) ++ t

-- `decode_step (it)`: the items, and the rest of the message.
unfoldable pub decode_step : List ℕ → Option (List ℕ × List ℕ)
decode_step [] = none
decode_step (num_items ∷ it) =
    if leb num_items (length it) then some (take num_items it, drop num_items it) else none

-- `encode (msg)` of a set.
unfoldable pub encode : List (List ℕ) → List ℕ → List ℕ
unfolding encode_step
encode [] msg = msg
encode (t ∷ ts) msg = encode ts (encode_step t msg)

-- The loop of `decode`, with the transactions that the set has. Every round reads a number of
-- items, so the length of the message is enough fuel.
pub decode_loop : ℕ → List ℕ → List (List ℕ) → Option (List (List ℕ))
unfolding decode_step
decode_loop fuel [] ts = some ts
decode_loop zero (code ∷ it) ts = none
decode_loop (suc fuel) (code ∷ it) ts = do
  step ← decode_step (code ∷ it)
  decode_loop fuel step.1 (ts ++ step.0 ∷ [])

unfoldable pub decode : List ℕ → List (List ℕ) → Option (List (List ℕ))
unfolding decode_loop
decode msg ts = decode_loop (length msg) msg ts

-- `Buffer_Scanner::read`: whether there was a transaction, with its items, and what is left.
unfoldable pub buffer_read : List ℕ → Option (Option (List ℕ) × List ℕ)
unfolding decode_step
buffer_read [] = some (none, [])
buffer_read (code ∷ it) = do step ← decode_step (code ∷ it); some (some step.0, step.1)

-- What a client reads who asks `end ()` before each `read`.
pub buffer_reads : ℕ → List ℕ → Option (List (Option (List ℕ)))
unfolding buffer_read
buffer_reads fuel [] = some []
buffer_reads zero (code ∷ it) = none
buffer_reads (suc fuel) (code ∷ it) = do
  step ← buffer_read (code ∷ it)
  rest ← buffer_reads fuel step.1
  some (step.0 ∷ rest)

-- The count of an item goes up, from 0 where the map has none.
pub bump : ℕ → List (ℕ × ℕ) → List (ℕ × ℕ)
bump item [] = (item, 0) ∷ []
bump item ((key, count) ∷ freq) =
    let rest = bump item freq in
    if item == key then (key, count + 1) ∷ freq else (key, count) ∷ rest

pub bump_all : List ℕ → List (ℕ × ℕ) → List (ℕ × ℕ)
unfolding bump
bump_all [] freq = freq
bump_all (item ∷ t) freq = bump_all t (bump item freq)

pub bump_set : List (List ℕ) → List (ℕ × ℕ) → List (ℕ × ℕ)
unfolding bump_all
bump_set [] freq = freq
bump_set (t ∷ ts) freq = bump_set ts (bump_all t freq)

pub at_least : ℕ → List (ℕ × ℕ) → List ℕ
at_least epsilon [] = []
at_least epsilon ((key, count) ∷ freq) =
    let rest = at_least epsilon freq in if leb epsilon count then key ∷ rest else rest

-- `large_items (L, epsilon)`, for an empty L.
unfoldable pub large_items : ℕ → List (List ℕ) → List ℕ
unfolding bump_set at_least
large_items epsilon ts = at_least epsilon (bump_set ts [])

-- `make_set ()`: `std::sort` on the items.
unfoldable pub insert_sorted : ℕ → List ℕ → List ℕ
insert_sorted x [] = x ∷ []
insert_sorted x (y ∷ ys) = let rest = insert_sorted x ys in if leb x y then x ∷ y ∷ ys else y ∷ rest

unfoldable pub make_set : List ℕ → List ℕ
unfolding insert_sorted
make_set [] = []
make_set (x ∷ xs) = insert_sorted x (make_set xs)

unfoldable pub has_item : List ℕ → ℕ → Bool
has_item [] x = false
has_item (y ∷ ys) x = let later = has_item ys x in if x == y then true else later

pub remove_if_not_in : List ℕ → List ℕ → List ℕ
unfolding has_item
remove_if_not_in f [] = []
remove_if_not_in f (x ∷ xs) =
    let rest = remove_if_not_in f xs in if has_item f x then x ∷ rest else rest

-- `prune_not_in (F)` of a transaction, and of a set.
unfoldable pub prune : List ℕ → List ℕ → List ℕ
unfolding make_set remove_if_not_in
prune f t = remove_if_not_in f (make_set t)

unfoldable pub prune_not_in : List ℕ → List (List ℕ) → List (List ℕ)
unfolding prune
prune_not_in f ts = map (prune f) ts

unfoldable pub prune_small_items : ℕ → List (List ℕ) → List (List ℕ)
unfolding prune_not_in large_items
prune_small_items epsilon ts = prune_not_in (large_items epsilon ts) ts
