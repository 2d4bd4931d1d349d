-- ===== src/Trie/Level.antt =====
-- Tries of src/bitdrill/Trie.hxx whose itemsets all have one size, as the miner keeps them.
use bitdrill.Base.{ℕ, zero, suc, ◌≡◌, refl, ap, ◌∙◌, sym, arith, ◌⊎◌, inl, inr}
use bitdrill.Base.{
  Bool, true, false, some, none, List, [], ◌∷◌, length, All, ◌==◌, ==_iff, Bool-cases, Option-cases,
}
use bitdrill.Trie.{
  Trie, node, Subtries, nil, arc, def_node, find_symbol, update_symbol, insert_newbranch, insert,
  query,
}
use bitdrill.Trie.Laws.{insert-some, insert-none}
use bitdrill.Trie.Merge.{HasDistinctArcs, Distinct}
use bitdrill.TidVector.Laws.{has}

-- Every end mark is d symbols deep, there are no arcs from there, and all symbols are among `f`.
abbrev mutual
  pub IsLevel : List ℕ → ℕ → Trie → Type 0
  IsLevel f zero (node e nil) = e ≡ true
  IsLevel f zero (node e (arc x t rest)) = ⊥
  IsLevel f (suc d) (node e b) = (e ≡ false) × LevelArcs f d b

  pub LevelArcs : List ℕ → ℕ → Subtries → Type 0
  LevelArcs f d nil = Unit
  LevelArcs f d (arc x t rest) = (has f x ≡ true) × IsLevel f d t × LevelArcs f d rest

newbranch-IsLevel :
    (f : List ℕ) (d : ℕ) (r : List ℕ)
    → length r ≡ d
    → All (λ i. has f i ≡ true) r
    → IsLevel f d (insert_newbranch r def_node)
unfolding insert_newbranch
newbranch-IsLevel f zero [] e h = refl
newbranch-IsLevel f (suc d) [] e h = absurd (omega (arith, e))
newbranch-IsLevel f zero (x ∷ r) e h = absurd (omega (arith, e))
newbranch-IsLevel f (suc d) (x ∷ r) e h =
    (refl, (h.0, newbranch-IsLevel f d r (omega (arith, e)) h.1, tt))

update-LevelArcs :
    (f : List ℕ) (d x : ℕ) (change : Trie → Trie) (b : Subtries)
    → ((t : Trie) → IsLevel f d t → IsLevel f d (change t))
    → LevelArcs f d b
    → LevelArcs f d (update_symbol x change b)
unfolding update_symbol
update-LevelArcs f d x change nil keeps h = tt
update-LevelArcs f d x change (arc y t rest) keeps h = elim (Bool-cases (x == y)) [
  | inl here ↦ rw here (h.0, keeps t h.1, h.2)
  | inr later ↦ rw later (h.0, h.1, update-LevelArcs f d x change rest keeps h.2)
]

-- `insert` of an itemset of that size keeps a trie a level.
pub insert-IsLevel :
    (f : List ℕ) (d : ℕ) (r : List ℕ) (t : Trie)
    → length r ≡ d
    → All (λ i. has f i ≡ true) r
    → IsLevel f d t
    → IsLevel f d (insert r t)
insert-IsLevel f zero [] (node e nil) s h l = unfold insert in refl
insert-IsLevel f zero [] (node e (arc x t rest)) s h l = absurd l
insert-IsLevel f (suc d) [] t s h l = absurd (omega (arith, s))
insert-IsLevel f zero (x ∷ r) t s h l = absurd (omega (arith, s))
insert-IsLevel f (suc d) (x ∷ r) (node e b) s h l = elim (Option-cases (find_symbol x b)) [
  | inl missing ↦
      rw (insert-none x r e b missing)
        (l.0, (h.0, newbranch-IsLevel f d r (omega (arith, s)) h.1, l.1))
  | inr (t, found) ↦ rw (insert-some x r e b found) (
    l.0,
    update-LevelArcs f d x (insert r) b (λ u. insert-IsLevel f d r u (omega (arith, s)) h.1) l.1,
  )
]

-- The arc of a symbol, and the trie it leads to, are among the arcs.
abbrev pub HasArc : ℕ → Trie → Subtries → Type 0
HasArc y u nil = ⊥
HasArc y u (arc x t rest) = ((y ≡ x) × (u ≡ t)) ⊎ HasArc y u rest

abbrev pub HasSymbol : ℕ → Subtries → Type 0
HasSymbol y nil = ⊥
HasSymbol y (arc x t rest) = (y ≡ x) ⊎ HasSymbol y rest

pub HasArc→found :
    (y : ℕ) (u : Trie) (b : Subtries) → Distinct b → HasArc y u b → find_symbol y b ≡ some u
unfolding find_symbol
HasArc→found y u nil d h = absurd h
HasArc→found y u (arc x t rest) d (inl (e, same)) = rw (e, same) (ground arith)
HasArc→found y u (arc x t rest) d (inr later) =
    let found = HasArc→found y u rest d.2 later in
    elim (Bool-cases (y == x)) [
      | inl here ↦
          let e : y ≡ x = (==_iff y x).0 here in
          let both : some u ≡ none = sym found ∙ ap (λ z. find_symbol z rest) e ∙ d.1 in absurd cc
      | inr other ↦ rw other found
    ]

pub found→HasArc : (y : ℕ) (u : Trie) (b : Subtries) → find_symbol y b ≡ some u → HasArc y u b
unfolding find_symbol
found→HasArc y u nil e = cc
found→HasArc y u (arc x t rest) e = elim (Bool-cases (y == x)) [
  | inl here ↦ let found : some t ≡ some u = rw here at e in inl ((==_iff y x).0 here, cc)
  | inr later ↦ inr (found→HasArc y u rest (rw later at e))
]

-- What a query finds below a symbol it finds at the end of its arc.
pub query-HasArc :
    (y : ℕ) (s : List ℕ) (e : Bool) (b : Subtries)
    → query (y ∷ s) (node e b) ≡ true
    → (u : Trie) × HasArc y u b × (query s u ≡ true)
unfolding query
query-HasArc y s e b h = elim (Option-cases (find_symbol y b)) [
  | inl missing ↦ absurd (ground (arith, h, missing))
  | inr (u, found) ↦ (u, found→HasArc y u b found, rw (found, query) at h)
]

pub HasArc-query :
    (y : ℕ) (u : Trie) (s : List ℕ) (e : Bool) (b : Subtries)
    → Distinct b
    → HasArc y u b
    → query (y ∷ s) (node e b) ≡ query s u
unfolding query
HasArc-query y u s e b d h = rw (HasArc→found y u b d h, query) refl

pub HasArc→HasDistinctArcs :
    (y : ℕ) (u : Trie) (b : Subtries) → Distinct b → HasArc y u b → HasDistinctArcs u
HasArc→HasDistinctArcs y u nil d h = absurd h
HasArc→HasDistinctArcs y u (arc x t rest) d (inl (e, same)) = rw same d.0
HasArc→HasDistinctArcs y u (arc x t rest) d (inr later) = HasArc→HasDistinctArcs y u rest d.2 later

pub query-HasSymbol :
    (y : ℕ) (s : List ℕ) (e : Bool) (b : Subtries) → query (y ∷ s) (node e b) ≡ true → HasSymbol y b
query-HasSymbol y s e b h = let found = query-HasArc y s e b h in symbol y found.0 b found.1
  where
    symbol : (y : ℕ) (u : Trie) (b : Subtries) → HasArc y u b → HasSymbol y b
    symbol y u nil h = absurd h
    symbol y u (arc x t rest) (inl here) = inl here.0
    symbol y u (arc x t rest) (inr later) = inr (symbol y u rest later)

-- A query goes down the first arc or stays among the others.
pub query-here :
    (y x : ℕ) (s : List ℕ) (t : Trie) (rest : Subtries)
    → (y == x) ≡ true
    → query (y ∷ s) (node false (arc x t rest)) ≡ query s t
unfolding query find_symbol
query-here y x s t rest here = ground (arith, here)

pub query-later :
    (y x : ℕ) (s : List ℕ) (t : Trie) (rest : Subtries)
    → (y == x) ≡ false
    → query (y ∷ s) (node false (arc x t rest)) ≡ query (y ∷ s) (node false rest)
unfolding query find_symbol
query-later y x s t rest later = ground (arith, later)

pub other_symbol :
    (x y : ℕ) (b : Subtries) → find_symbol x b ≡ none → HasSymbol y b → (y == x) ≡ false
unfolding find_symbol
other_symbol x y nil missing has = absurd has
other_symbol x y (arc z t rest) missing has = elim (Bool-cases (x == z)) [
  | inl here ↦ let found : some t ≡ none = rw here at missing in absurd cc
  | inr later ↦ beyond x y z rest later (other_symbol x y rest (rw later at missing)) has
]
  where
    beyond :
        (x y z : ℕ) (rest : Subtries)
        → (x == z) ≡ false
        → (HasSymbol y rest → (y == x) ≡ false)
        → (y ≡ z) ⊎ HasSymbol y rest
        → (y == x) ≡ false
    beyond x y z rest later go (inl same) = ground (arith, same, later)
    beyond x y z rest later go (inr has) = go has

-- All itemsets of a level have its size.
pub level-length :
    (f : List ℕ) (d : ℕ) (itemset : List ℕ) (t : Trie)
    → IsLevel f d t
    → query itemset t ≡ true
    → length itemset ≡ d
unfolding query
level-length f zero [] t l q = refl
level-length f (suc d) [] (node e b) l q = absurd (ground (arith, l.0, q))
level-length f zero (x ∷ xs) (node e nil) l q = absurd (query-HasSymbol x xs e nil q)
level-length f zero (x ∷ xs) (node e (arc y t rest)) l q = absurd l
level-length f (suc d) (x ∷ xs) (node e b) l q =
    let next = query-HasArc x xs e b q in
    ap suc (level-length f d xs next.0 (HasArc-IsLevel f d x next.0 b l.1 next.1) next.2)
  where
    HasArc-IsLevel :
        (f : List ℕ) (d y : ℕ) (u : Trie) (b : Subtries)
        → LevelArcs f d b
        → HasArc y u b
        → IsLevel f d u
    HasArc-IsLevel f d y u nil l h = absurd h
    HasArc-IsLevel f d y u (arc x t rest) l (inl here) = rw here.1 l.1
    HasArc-IsLevel f d y u (arc x t rest) l (inr later) = HasArc-IsLevel f d y u rest l.2 later
