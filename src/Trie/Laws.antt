-- ===== src/Trie/Laws.antt =====
-- src/bitdrill/Trie.hxx as a set of itemsets.
use bitdrill.Base.{ℕ, ◌+◌, ◌≡◌, refl, arith}
use bitdrill.Base.{
  Bool, true, false, some, none, ◌||◌, ◌&&◌, List, [], ◌∷◌, if◌then◌else◌, ◌==◌, Option-cases, inl,
  inr,
}
use bitdrill.Trie.{
  Trie, node, Subtries, arc, def_node, find_symbol, update_symbol, insert_newbranch, insert, query,
  size,
}
use bitdrill.Trie.Branches.{find_symbol-update, size-update}

-- Whether two itemsets are the same, item by item.
abbrev pub list_eq : List ℕ → List ℕ → Bool
list_eq [] [] = true
list_eq [] (y ∷ ys) = false
list_eq (x ∷ xs) [] = false
list_eq (x ∷ xs) (y ∷ ys) = x == y && list_eq xs ys

query-newbranch : (r s : List ℕ) → query s (insert_newbranch r def_node) ≡ list_eq r s
unfolding query insert_newbranch
query-newbranch [] [] = refl
query-newbranch [] (y ∷ s) = refl
query-newbranch (x ∷ r) [] = refl
query-newbranch (x ∷ r) (y ∷ s) = ground (arith, query-newbranch r s)

pub insert-some :
    (x : ℕ) (r : List ℕ) (e : Bool) (b : Subtries) {t : Trie}
    → find_symbol x b ≡ some t
    → insert (x ∷ r) (node e b) ≡ node e (update_symbol x (insert r) b)
unfolding insert
insert-some x r e b found = rw (found, insert)

pub insert-none :
    (x : ℕ) (r : List ℕ) (e : Bool) (b : Subtries)
    → find_symbol x b ≡ none
    → insert (x ∷ r) (node e b) ≡ node e (arc x (insert_newbranch r def_node) b)
unfolding insert insert_newbranch
insert-none x r e b missing = rw (missing, insert)

-- After `insert (r)` a query finds `r` and what it found before.
pub query-insert : (r s : List ℕ) (t : Trie) → query s (insert r t) ≡ (list_eq r s || query s t)
unfolding query
query-insert [] [] (node e b) = unfold insert in refl
query-insert [] (y ∷ s) (node e b) = unfold insert in refl
query-insert (x ∷ r) [] (node e b) = elim (Option-cases (find_symbol x b)) [
  | inl missing ↦ rw (insert-none x r e b missing) refl
  | inr (t, found) ↦ rw (insert-some x r e b found) refl
]
query-insert (x ∷ r) (y ∷ s) (node e b) = elim (Option-cases (find_symbol x b)) [
  | inl missing ↦ rw (insert-none x r e b missing) (ground (arith, query-newbranch r s, missing))
  | inr (t, found) ↦
      rw (insert-some x r e b found)
        (ground (arith, find_symbol-update x y (insert r) b, query-insert r s t, found))
]

size-newbranch : (r : List ℕ) → size (insert_newbranch r def_node) ≡ 1
unfolding size insert_newbranch
size-newbranch [] = refl
size-newbranch (x ∷ r) = omega (arith, size-newbranch r)

-- `insert (r)` makes a trie larger by one itemset, or leaves the number as it is where `r` was
-- there before.
pub size-insert :
    (r : List ℕ) (t : Trie) → size (insert r t) ≡ (if query r t then size t else size t + 1)
unfolding size query
size-insert [] (node e b) = unfold insert in ground arith
size-insert (x ∷ r) (node e b) = elim (Option-cases (find_symbol x b)) [
  | inl missing ↦ rw (insert-none x r e b missing) (ground (arith, size-newbranch r, missing))
  | inr (t, found) ↦
      rw (insert-some x r e b found)
        (ground (arith, size-update x (insert r) b found, size-insert r t, found))
]
