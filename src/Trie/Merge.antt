-- ===== src/Trie/Merge.antt =====
-- Tries of src/bitdrill/Trie.hxx sent as code: the receiver's trie has the itemsets of both.
use bitdrill.Base.{ℕ, ◌≡◌, refl, ap, ◌∙◌, sym, arith, Bool, false, ◌||◌, some, none, List, [], ◌∷◌}
use bitdrill.Base.{if◌then◌else◌, ◌==◌, ◌>>=◌, ==_iff, Option-cases, Bool-cases, inl, inr}
use bitdrill.Trie.{
  Trie, node, Subtries, nil, arc, def_node, find_symbol, update_symbol, insert_newbranch, insert,
  query, encode, child_or_new, store, decode,
}
use bitdrill.Trie.Branches.{find_symbol-update}
use bitdrill.Trie.Laws.{insert-some, insert-none}
use bitdrill.Trie.Codec.{merge, merge_subtries, decode-encode-merge}

-- No two arcs of a node have the same symbol, at any depth.
abbrev mutual
  pub HasDistinctArcs : Trie → Type 0
  HasDistinctArcs (node e b) = Distinct b

  pub Distinct : Subtries → Type 0
  Distinct nil = Unit
  Distinct (arc x t rest) = HasDistinctArcs t × (find_symbol x rest ≡ none) × Distinct rest

newbranch-HasDistinctArcs : (r : List ℕ) → HasDistinctArcs (insert_newbranch r def_node)
unfolding insert_newbranch
newbranch-HasDistinctArcs [] = tt
newbranch-HasDistinctArcs (x ∷ r) = (newbranch-HasDistinctArcs r, unfold find_symbol in refl, tt)

find_symbol-update_none :
    (x y : ℕ) (f : Trie → Trie) (b : Subtries)
    → find_symbol y b ≡ none
    → find_symbol y (update_symbol x f b) ≡ none
find_symbol-update_none x y f b h = ground (arith, find_symbol-update x y f b, h)

-- Where the changed subtrie keeps its arcs distinct, so does the list.
update-Distinct :
    (x : ℕ) (f : Trie → Trie) (b : Subtries)
    → ((t : Trie) → find_symbol x b ≡ some t → HasDistinctArcs (f t))
    → Distinct b
    → Distinct (update_symbol x f b)
unfolding update_symbol find_symbol
update-Distinct x f nil h d = tt
update-Distinct x f (arc z t rest) h d = elim (Bool-cases (x == z)) [
  | inl here ↦ rw here (h t (rw here), d.1, d.2)
  | inr later ↦
      let others = update-Distinct x f rest (λ u e. h u (rw later e)) d.2 in
      rw later (d.0, find_symbol-update_none x z f rest d.1, others)
]

found-HasDistinctArcs :
    (x : ℕ) (b : Subtries) {t : Trie} → Distinct b → find_symbol x b ≡ some t → HasDistinctArcs t
unfolding find_symbol
found-HasDistinctArcs x nil {t} d e = cc
found-HasDistinctArcs x (arc z u rest) {t} d e = elim (Bool-cases (x == z)) [
  | inl here ↦
      let found : some u ≡ some t = rw here at e in let same : u ≡ t = cc in rw (sym same) d.0
  | inr later ↦ found-HasDistinctArcs x rest d.2 (rw later at e)
]

-- `insert` keeps the arcs of every node distinct.
pub insert-HasDistinctArcs :
    (r : List ℕ) (t : Trie) → HasDistinctArcs t → HasDistinctArcs (insert r t)
insert-HasDistinctArcs [] (node e b) d = unfold insert in d
insert-HasDistinctArcs (x ∷ r) (node e b) d = elim (Option-cases (find_symbol x b)) [
  | inl missing ↦ rw (insert-none x r e b missing) (newbranch-HasDistinctArcs r, missing, d)
  | inr (t, found) ↦ rw (insert-some x r e b found) (
      update-Distinct x (insert r) b
        (λ u e. insert-HasDistinctArcs r u (found-HasDistinctArcs x b d e)) d)
]

-- The lookup of a string that starts with y among the arcs.
abbrev query_arcs : ℕ → List ℕ → Subtries → Bool
query_arcs y s b = elim (find_symbol y b) [ some t ↦ query s t | none ↦ false ]

pub query-def_node : (s : List ℕ) → query s def_node ≡ false
unfolding query
query-def_node [] = refl
query-def_node (y ∷ s) = refl

query_arcs-store :
    (x y : ℕ) (s : List ℕ) (t : Trie) (b : Subtries)
    → query_arcs y s (store x t b) ≡ (if x == y then query s t else query_arcs y s b)
unfolding store find_symbol
query_arcs-store x y s t b = elim (Option-cases (find_symbol x b)) [
  | inl missing ↦ ground (arith, missing)
  | inr (u, found) ↦ ground (arith, found, find_symbol-update x y (λ _. t) b)
]

query-child_or_new :
    (x : ℕ) (s : List ℕ) (b : Subtries) → query s (child_or_new x b) ≡ query_arcs x s b
query-child_or_new x s b = elim (Option-cases (find_symbol x b)) [
  | inl missing ↦ rw (missing, child_or_new, query_arcs) (query-def_node s)
  | inr (u, found) ↦ rw (found, child_or_new, query_arcs) refl
]

-- The lookup among the arcs after one of the other trie's has been merged in.
query_arcs-arc :
    (x y : ℕ) (s : List ℕ) (t : Trie) (rest b' : Subtries)
    → find_symbol x rest ≡ none
    → (query_arcs y s rest
        || (if x == y then (query s t || query s (child_or_new x b')) else query_arcs y s b'))
      ≡ (query_arcs y s (arc x t rest) || query_arcs y s b')
unfolding find_symbol
query_arcs-arc x y s t rest b' d = elim (Bool-cases (x == y)) [
  | inl here ↦
      let missing : find_symbol y rest ≡ none = rw (sym ((==_iff x y).0 here)) d in
      let child : query s (child_or_new x b') ≡ query_arcs y s b' =
        query-child_or_new x s b' ∙ ap (λ z. query_arcs z s b') ((==_iff x y).0 here) in
      ground (arith, here, missing, child)
  | inr later ↦ ground (arith, later)
]

mutual
  unfolding merge merge_subtries query find_symbol

  query-merge :
      (t u : Trie) (s : List ℕ) → HasDistinctArcs t → query s (merge t u) ≡ (query s t || query s u)
  query-merge (node e b) (node e' b') [] d = refl
  query-merge (node e b) (node e' b') (y ∷ s) d = query_arcs-merge b b' y s d

  query_arcs-merge :
      (b b' : Subtries) (y : ℕ) (s : List ℕ)
      → Distinct b
      → query_arcs y s (merge_subtries b b') ≡ (query_arcs y s b || query_arcs y s b')
  query_arcs-merge nil b' y s d = refl
  query_arcs-merge (arc x t rest) b' y s d =
      let others = query_arcs-merge rest (store x (merge t (child_or_new x b')) b') y s d.2 in
      let here = query-merge t (child_or_new x b') s d.0 in
      let stored = query_arcs-store x y s (merge t (child_or_new x b')) b' in
      others ∙ ap (query_arcs y s rest ||◌) (stored ∙ rw here) ∙ query_arcs-arc x y s t rest b' d.1

-- Where no node of `t` has two arcs with one symbol, the code of `t` merged into `u` gives a trie
-- that finds an itemset exactly when `t` or `u` does.
pub query-decode :
    (t u : Trie)
    → HasDistinctArcs t
    → (s : List ℕ)
    → (decode (encode t []) u >>= λ r. some (query s r)) ≡ some (query s t || query s u)
query-decode t u d s = rw (decode-encode-merge t u) (ap some (query-merge t u s d))
