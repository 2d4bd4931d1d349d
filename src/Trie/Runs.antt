-- ===== src/Trie/Runs.antt =====
-- Runs of src/bitdrill/Trie.hxx on small tries.
use bitdrill.Base.{ℕ, List, ◌≡◌, refl, true, false, ◌||◌, some, none, [], ◌∷◌, ◌++◌, ◌>>=◌, ◌↔◌}
use bitdrill.Trie.{
  Trie, node, nil, arc, def_node, insert_newbranch, insert, query, check_supports, encode, decode,
  decode_it, update_symbol, find_symbol,
}
use bitdrill.Trie.Laws.{list_eq, query-insert}
use bitdrill.Trie.Supports.{check_supports_iff}
use bitdrill.Trie.Merge.{HasDistinctArcs, query-decode}

-- The trie of the itemsets 12 and 13.
abbrev pairs : Trie
pairs = node false (arc 1 (node false (arc 3 (node true nil) (arc 2 (node true nil) nil))) nil)

abbrev other : Trie
other = node true (arc 2 (node true nil) nil)

-- The trie of 23, 13 and 12.
abbrev all_pairs : Trie
all_pairs = node false (
    arc 2 (node false (arc 3 (node true nil) nil))
      (arc 1 (node false (arc 3 (node true nil) (arc 2 (node true nil) nil))) nil))

insert_runs : insert (1 ∷ 3 ∷ []) (insert (1 ∷ 2 ∷ []) def_node) ≡ pairs
unfolding insert insert_newbranch update_symbol find_symbol
insert_runs = refl

prefix_is_missing : query (1 ∷ []) pairs ≡ false
unfolding query find_symbol
prefix_is_missing = refl

encode_runs : encode other [] ≡ 0 ∷ 2 ∷ 2 ∷ 0 ∷ 3 ∷ 3 ∷ []
unfolding encode
encode_runs = refl

truncated_code : decode (0 ∷ 2 ∷ 2 ∷ 0 ∷ 3 ∷ []) def_node ≡ none
unfolding decode decode_it find_symbol
truncated_code = refl

empty_itemset : check_supports [] pairs ≡ none
unfolding check_supports
empty_itemset = refl

pairs-HasDistinctArcs : HasDistinctArcs pairs
unfolding find_symbol
pairs-HasDistinctArcs = ((tt, refl, (tt, refl, tt)), refl, tt)

query-insert_example :
    query (1 ∷ 2 ∷ []) (insert (1 ∷ 4 ∷ []) pairs)
    ≡ (list_eq (1 ∷ 4 ∷ []) (1 ∷ 2 ∷ []) || query (1 ∷ 2 ∷ []) pairs)
query-insert_example = query-insert (1 ∷ 4 ∷ []) (1 ∷ 2 ∷ []) pairs

check_supports_example : (check_supports (1 ∷ 2 ∷ 3 ∷ []) all_pairs ≡ some true) ↔ (
    (front : List ℕ) (y : ℕ) (back : List ℕ)
    → front ++ y ∷ back ≡ 1 ∷ 2 ∷ 3 ∷ []
    → query (front ++ back) all_pairs ≡ true)
check_supports_example = check_supports_iff 1 (2 ∷ 3 ∷ []) all_pairs

query-decode_example :
    (decode (encode pairs []) other >>= λ r. some (query (1 ∷ 2 ∷ []) r))
    ≡ some (query (1 ∷ 2 ∷ []) pairs || query (1 ∷ 2 ∷ []) other)
query-decode_example = query-decode pairs other pairs-HasDistinctArcs (1 ∷ 2 ∷ [])
