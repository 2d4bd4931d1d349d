-- ===== src/Trie/Branches.antt =====
-- The arcs of a node of src/bitdrill/Trie.hxx: looking one up and changing its subtrie.
use bitdrill.Base.{ℕ, ◌+◌, ◌≡◌, arith}
use bitdrill.Base.{some, if◌then◌else◌, ◌==◌, ◌>>=◌}
use bitdrill.Trie.{Trie, Subtries, nil, arc, find_symbol, update_symbol, size, size_subtries}

pub find_symbol-update :
    (x y : ℕ) (f : Trie → Trie) (s : Subtries)
    → find_symbol y (update_symbol x f s)
      ≡ (if x == y then (find_symbol y s >>= λ t. some (f t)) else find_symbol y s)
unfolding find_symbol update_symbol
find_symbol-update x y f nil = ground arith
find_symbol-update x y f (arc z t rest) = ground (arith, find_symbol-update x y f rest)

-- A change of a subtrie changes the number of itemsets by what it changes in that subtrie.
pub size-update :
    (x : ℕ) (f : Trie → Trie) (s : Subtries) {t : Trie}
    → find_symbol x s ≡ some t
    → size_subtries (update_symbol x f s) + size t ≡ size_subtries s + size (f t)
unfolding find_symbol update_symbol size_subtries
size-update x f nil e = cc
size-update x f (arc z u rest) {t} e = ground (arith, size-update x f rest {t = t})
