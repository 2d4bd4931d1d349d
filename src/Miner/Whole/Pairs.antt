-- ===== src/Miner/Whole/Pairs.antt =====
-- How `discover ()` of src/bitdrill/Miner.cxx takes the frequent pairs from the graph of its counter,
-- and writes them and the frequent items.
use mathlib.Core.List.{append-nil, append_assoc}
use bitdrill.Base.{ℕ, ◌+◌, ◌<◌, ◌≤◌, ◌≡◌, refl, ap, ◌∙◌, sym, arith}
use bitdrill.Base.{
  Bool, true, Option, some, none, List, [], ◌∷◌, ◌++◌, length, All, All-map, All-append_left,
  All-append_right, if◌then◌else◌, ltb, Bool-cases, inl, inr, ◌>>=◌, Option-cases,
}
use bitdrill.Trie.{Trie, insert}
use bitdrill.TidVector.Laws.{has}
use bitdrill.VerticalDb.{VerticalDb, greater_freq, sort_by, count_at}
use bitdrill.VerticalDb.Reorder.Moves.{at, get_elem?-at}
use bitdrill.VerticalDb.Reorder.Blocks.{get_elem?-count_at}
use bitdrill.VerticalDb.Reorder.{reorder}
use bitdrill.VerticalDb.Reorder.Sorted.{reorder-sort_by}
use bitdrill.Graph.{Edge}
use bitdrill.PatternSet.{Pattern}
use bitdrill.Miner.{insert_patterns}
use bitdrill.Miner.Whole.{write_items, insert_edges, insert_pairs}
use bitdrill.Miner.Inserted.{IsGiven}

-- The pairs of items at the edges from the vertex u to larger ones.
abbrev pub edge_patterns : List ℕ → ℕ → List Edge → List Pattern
edge_patterns f_item u [] = []
edge_patterns f_item u (e ∷ edges) =
    let rest = edge_patterns f_item u edges in
    if ltb u e.neighbor
    then record { itemset = at f_item u ∷ at f_item e.neighbor ∷ []; count = e.weight } ∷ rest
    else rest

-- The pairs of items at the edges of a graph, from the vertex u on.
abbrev pub pair_patterns : List ℕ → ℕ → List (List Edge) → List Pattern
pair_patterns f_item u [] = []
pair_patterns f_item u (edges ∷ pairs) =
    edge_patterns f_item u edges ++ pair_patterns f_item (u + 1) pairs

-- The patterns with their items in the order of the counts.
abbrev pub arrange : List ℕ → List Pattern → List Pattern
arrange count [] = []
arrange count (p ∷ ps) =
    record { itemset = sort_by (greater_freq count) p.itemset; count = p.count } ∷ arrange count ps

abbrev pub HasEnds : List ℕ → List Edge → Type 0
HasEnds f_item = All (λ e. e.neighbor < length f_item)

abbrev pub with_file : Option (List Pattern) → Trie → Option (Trie × Option (List Pattern))
with_file file t = some (t, file)

arrange-append :
    (count : List ℕ) (ps qs : List Pattern)
    → arrange count (ps ++ qs) ≡ arrange count ps ++ arrange count qs
arrange-append count [] qs = refl
arrange-append count (p ∷ ps) qs =
    ap (◌∷◌ (record { itemset = sort_by (greater_freq count) p.itemset; count = p.count }))
      (arrange-append count ps qs)

insert_patterns-append :
    (db : VerticalDb) (ps qs : List Pattern) (t : Trie)
    → insert_patterns db (ps ++ qs) t ≡ (insert_patterns db ps t >>= insert_patterns db qs)
unfolding insert_patterns
insert_patterns-append db [] qs t = refl
insert_patterns-append db (p ∷ ps) qs t = elim (Option-cases (reorder db p.itemset)) [
  | inl fails ↦ rw (fails, insert_patterns) refl
  | inr (x, made) ↦ rw (made, insert_patterns) (insert_patterns-append db ps qs (insert x t))
]

module _ (n : ℕ) (f : List ℕ) (view : ℕ → ℕ → Bool) (db : VerticalDb) (support : ℕ)
    (inside : (i : ℕ) → has f i ≡ true → i < length db.count) (f_item : List ℕ) where
  abbrev pub AllGiven : List Pattern → Type 0
  AllGiven = All (λ p. IsGiven n f view support 2 p.itemset)

  insert_edges-insert_patterns :
      (u : ℕ) (edges : List Edge) (t : Trie) (lines : List Pattern)
      → u < length f_item
      → HasEnds f_item edges
      → AllGiven (edge_patterns f_item u edges)
      → insert_edges db f_item u edges t (some lines) ≡ (
          insert_patterns db (edge_patterns f_item u edges) t >>= λ made.
          some (made, some (lines ++ arrange db.count (edge_patterns f_item u edges))))
  unfolding insert_edges insert_patterns
  insert_edges-insert_patterns u [] t lines below ends g =
      ap (λ l. some (t, some l)) (sym (append-nil lines))
  insert_edges-insert_patterns u (e ∷ edges) t lines below ends g =
      elim (Bool-cases (ltb u e.neighbor)) [
        | inr back ↦
            rw (back, insert_edges)
              (insert_edges-insert_patterns u edges t lines below ends.1 (rw back at g))
        | inl forth ↦
            let given : AllGiven (
                record { itemset = at f_item u ∷ at f_item e.neighbor ∷ []; count = e.weight }
                ∷ edge_patterns f_item u edges) =
              rw forth at g in
            let pair = at f_item u ∷ at f_item e.neighbor ∷ [] in
            let x = sort_by (greater_freq db.count) pair in
            let reordered =
              reorder-sort_by db pair given.0.distinct (All-map _ _ pair inside given.0.known) in
            let line : Pattern = record { itemset = x; count = e.weight } in
            let rest =
              insert_edges-insert_patterns u edges (insert x t) (lines ++ line ∷ []) below ends.1
                given.1 in
            let joined =
              append_assoc lines (line ∷ []) (arrange db.count (edge_patterns f_item u edges)) in
            rw
              (
                forth,
                get_elem?-at f_item u below,
                get_elem?-at f_item e.neighbor ends.0,
                reordered,
                insert_edges,
                insert_patterns,
              )
              (rest
                ∙ ap
                    (λ l. insert_patterns db (edge_patterns f_item u edges) (insert x t) >>= λ made.
                      some (made, some l))
                    joined)
      ]

  -- The loop over the vertices inserts the pairs and writes them, each in the order of the counts.
  pub insert_pairs-insert_patterns :
      (u : ℕ) (pairs : List (List Edge)) (t : Trie) (lines : List Pattern)
      → u + length pairs ≤ length f_item
      → All (HasEnds f_item) pairs
      → AllGiven (pair_patterns f_item u pairs)
      → insert_pairs db f_item u pairs t (some lines) ≡ (
          insert_patterns db (pair_patterns f_item u pairs) t >>= λ made.
          some (made, some (lines ++ arrange db.count (pair_patterns f_item u pairs))))
  unfolding insert_pairs
  insert_pairs-insert_patterns u [] t lines below ends g =
      unfold insert_patterns in ap (λ l. some (t, some l)) (sym (append-nil lines))
  insert_pairs-insert_patterns u (edges ∷ pairs) t lines below ends g =
      let here = edge_patterns f_item u edges in
      let later = pair_patterns f_item (u + 1) pairs in
      let first =
        insert_edges-insert_patterns u edges t lines (omega arith) ends.0
          (All-append_left (λ p. IsGiven n f view support 2 p.itemset) here later g) in
      let rest = λ (made : Trie).
        insert_pairs-insert_patterns (u + 1) pairs made (lines ++ arrange db.count here)
          (omega arith) ends.1
          (All-append_right (λ p. IsGiven n f view support 2 p.itemset) here later g) in
      let joined : lines ++ arrange db.count (here ++ later)
          ≡ (lines ++ arrange db.count here) ++ arrange db.count later =
        ap (lines ++◌) (arrange-append db.count here later)
        ∙ sym (append_assoc lines (arrange db.count here) (arrange db.count later)) in
      rw (joined, insert_patterns-append db here later t, first)
        (through (insert_patterns db here t) (insert_patterns db later)
          (λ step. insert_pairs db f_item (u + 1) pairs step.0 step.1)
          ((lines ++ arrange db.count here) ++ arrange db.count later)
          (some (lines ++ arrange db.count here)) rest)
    where
      through :
          (made : Option Trie) (next : Trie → Option Trie)
          (go : Trie × Option (List Pattern) → Option (Trie × Option (List Pattern)))
          (all : List Pattern) (file : Option (List Pattern))
          → ((t : Trie) → go (t, file) ≡ (next t >>= with_file (some all)))
          → ((made >>= with_file file) >>= go) ≡ ((made >>= next) >>= with_file (some all))
      through none next go all file h = refl
      through (some t) next go all file h = h t

-- The frequent items as patterns.
abbrev pub single_patterns : List ℕ → List ℕ → List Pattern
single_patterns count [] = []
single_patterns count (i ∷ items) =
    record { itemset = i ∷ []; count = count_at count i } ∷ single_patterns count items

pub write_items-single_patterns :
    (count items : List ℕ) (lines : List Pattern)
    → All (λ i. i < length count) items
    → write_items count items (some lines) ≡ some (some (lines ++ single_patterns count items))
unfolding write_items
write_items-single_patterns count [] lines h = ap (λ l. some (some l)) (sym (append-nil lines))
write_items-single_patterns count (i ∷ items) lines h =
    let line : Pattern = record { itemset = i ∷ []; count = count_at count i } in
    rw (get_elem?-count_at count i h.0) (
      write_items-single_patterns count items (lines ++ line ∷ []) h.1
      ∙ ap (λ l. some (some l)) (append_assoc lines (line ∷ []) (single_patterns count items)))
