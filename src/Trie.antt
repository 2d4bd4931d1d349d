-- ===== src/Trie.antt =====
-- src/bitdrill/Trie.hxx: a prefix tree of itemsets with a mark at the end of each. Symbols are
-- items, numbers from 0 up.
pub mod Branches
pub mod Laws
pub mod Supports
pub mod Codec
pub mod Merge
pub mod Level
pub mod Runs
use bitdrill.Base.{ℕ, zero, suc, ◌+◌, Bool, true, false, Option, some, none, List, [], ◌∷◌, ◌++◌}
use bitdrill.Base.{if◌then◌else◌, ◌==◌, ◌>>=◌, one_if, length}

mutual
  pub data Trie : Type 0 where
    node : Bool → Subtries → Trie

  -- The singly linked list of a node's arcs, in its order.
  pub data Subtries : Type 0 where
    nil : Subtries
    arc : ℕ → Trie → Subtries → Subtries

-- The default constructor, and the static `def_node` that new nodes are copied from.
abbrev pub def_node : Trie
def_node = node false nil

unfoldable pub empty : Trie → Bool
empty (node endmark nil) = true
empty (node endmark (arc x t rest)) = false

pub find_symbol : ℕ → Subtries → Option Trie
find_symbol symbol nil = none
find_symbol symbol (arc x t rest) = if symbol == x then some t else find_symbol symbol rest

-- What a change of the subtrie that `find_symbol` points to makes of the list.
pub update_symbol : ℕ → (Trie → Trie) → Subtries → Subtries
update_symbol symbol change nil = nil
update_symbol symbol change (arc x t rest) =
    if symbol == x then arc x (change t) rest else arc x t (update_symbol symbol change rest)

unfoldable pub insert_newbranch : List ℕ → Trie → Trie
insert_newbranch [] (node endmark subtries) = node true subtries
insert_newbranch (x ∷ xs) (node endmark subtries) =
    node endmark (arc x (insert_newbranch xs def_node) subtries)

unfoldable pub insert : List ℕ → Trie → Trie
unfolding insert_newbranch find_symbol update_symbol
insert [] (node endmark subtries) = node true subtries
insert (x ∷ xs) (node endmark subtries) = elim (find_symbol x subtries) [
  | some subtrie ↦ node endmark (update_symbol x (insert xs) subtries)
  | none ↦ insert_newbranch (x ∷ xs) (node endmark subtries)
]

unfoldable pub query : List ℕ → Trie → Bool
unfolding find_symbol
query [] (node endmark subtries) = endmark
query (x ∷ xs) (node endmark subtries) = elim (find_symbol x subtries) [
  | some subtrie ↦ query xs subtrie
  | none ↦ false
]

-- The loop at an item with `before` it: the itemset without that item is looked up.
pub check_from : List ℕ → List ℕ → Trie → Bool
check_from before [] t = true
check_from before (x ∷ after) t =
    let support = before ++ after in
    let rest = check_from (before ++ x ∷ []) after t in if query support t then rest else false

-- `none` for the empty itemset, at whose size less one, a huge number, `resize` throws.
unfoldable pub check_supports : List ℕ → Trie → Option Bool
unfolding check_from query
check_supports [] t = none
check_supports (x ∷ itemset) t = some (check_from [] (x ∷ itemset) t)

unfoldable mutual
  pub size : Trie → ℕ
  size (node endmark subtries) = one_if endmark + size_subtries subtries

  pub size_subtries : Subtries → ℕ
  size_subtries nil = 0
  size_subtries (arc x t rest) = size t + size_subtries rest

-- `encode (M)`: 0 or 1 for a node with or without an end mark, 2 and the symbol before each child,
-- and 3 at the end of the node.
unfoldable mutual
  pub encode : Trie → List ℕ → List ℕ
  encode (node endmark subtries) m =
      encode_subtries subtries (m ++ (if endmark then 0 else 1) ∷ []) ++ 3 ∷ []

  pub encode_subtries : Subtries → List ℕ → List ℕ
  encode_subtries nil m = m
  encode_subtries (arc x t rest) m = encode_subtries rest (encode t (m ++ 2 ∷ x ∷ []))

-- The child that a symbol leads to, or a new one.
abbrev pub child_or_new : ℕ → Subtries → Trie
child_or_new symbol subtries = elim (find_symbol symbol subtries) [
  | some subtrie ↦ subtrie
  | none ↦ def_node
]

-- The arcs when the child of `symbol` has become `t`: a new one stands in front.
pub store : ℕ → Trie → Subtries → Subtries
unfolding find_symbol update_symbol
store symbol t subtries = elim (find_symbol symbol subtries) [
  | some subtrie ↦ update_symbol symbol (λ _. t) subtries
  | none ↦ arc symbol t subtries
]

-- `decode_it (it, end)`, which merges the coded itemsets into a trie: the rest of the code and the
-- new trie. `none` is a read past the end, a failed `assert`, or too little fuel.
unfoldable mutual
  unfolding store find_symbol

  pub decode_it : ℕ → List ℕ → Trie → Option (List ℕ × Trie)
  decode_it zero it t = none
  decode_it (suc fuel) [] t = some ([], t)
  decode_it (suc fuel) (code ∷ it) (node endmark subtries) = do
    result ← decode_children fuel it subtries
    some (result.0, node (if code == 0 then true else endmark) result.1)

  -- The loop over the children, from the read of the next code.
  pub decode_children : ℕ → List ℕ → Subtries → Option (List ℕ × Subtries)
  decode_children zero it subtries = none
  decode_children (suc fuel) [] subtries = none
  decode_children (suc fuel) (code ∷ it) subtries = elim (code == 2) [
    | true ↦ elim it [
      | [] ↦ none
      | symbol ∷ it' ↦ do
        child ← decode_it fuel it' (child_or_new symbol subtries)
        decode_children fuel child.0 (store symbol child.1 subtries)
    ]
    | false ↦ if code == 3 then some (it, subtries) else none
  ]

-- Every call of the two uses up a code, so one unit of fuel for each code is enough.
unfoldable pub decode : List ℕ → Trie → Option Trie
unfolding decode_it
decode m t = do result ← decode_it (suc (length m)) m t; some result.1
