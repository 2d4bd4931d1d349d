-- ===== src/Trie/Codec.antt =====
-- `encode` and `decode` of src/bitdrill/Trie.hxx: decoding the code of a trie merges it into another.
use mathlib.Core.List.{append-nil, append_assoc}
use bitdrill.Base.{
  ℕ, zero, suc, ◌+◌, ◌≤◌, ◌≡◌, refl, ◌∙◌, sym, arith, true, false, ◌||◌, some, List, [], ◌∷◌, ◌++◌,
}
use bitdrill.Base.{if◌then◌else◌, length}
use bitdrill.Trie.{
  Trie, node, Subtries, nil, arc, encode, encode_subtries, child_or_new, store, decode_it,
  decode_children, decode,
}

-- The code of a trie in front of a list.
mutual
  code_into : Trie → List ℕ → List ℕ
  code_into (node e b) k = (if e then 0 else 1) ∷ codes_into b (3 ∷ k)

  codes_into : Subtries → List ℕ → List ℕ
  codes_into nil k = k
  codes_into (arc x t rest) k = 2 ∷ x ∷ code_into t (codes_into rest k)

mutual
  unfolding encode encode_subtries code_into codes_into

  encode-code_into : (t : Trie) (m k : List ℕ) → encode t m ++ k ≡ m ++ code_into t k
  encode-code_into (node e b) m k =
      append_assoc (encode_subtries b (m ++ (if e then 0 else 1) ∷ [])) (3 ∷ []) k
      ∙ encode-codes_into b (m ++ (if e then 0 else 1) ∷ []) (3 ∷ k)
      ∙ append_assoc m ((if e then 0 else 1) ∷ []) (codes_into b (3 ∷ k))

  encode-codes_into : (b : Subtries) (m k : List ℕ) → encode_subtries b m ++ k ≡ m ++ codes_into b k
  encode-codes_into nil m k = refl
  encode-codes_into (arc x t rest) m k =
      encode-codes_into rest (encode t (m ++ 2 ∷ x ∷ [])) k
      ∙ encode-code_into t (m ++ 2 ∷ x ∷ []) (codes_into rest k)
      ∙ append_assoc m (2 ∷ x ∷ []) (code_into t (codes_into rest k))

-- What a run of `decode_it` on the code of a trie does to the other trie.
unfoldable mutual
  pub merge : Trie → Trie → Trie
  merge (node e b) (node e' b') = node (e || e') (merge_subtries b b')

  pub merge_subtries : Subtries → Subtries → Subtries
  merge_subtries nil b' = b'
  merge_subtries (arc x t rest) b' = merge_subtries rest (store x (merge t (child_or_new x b')) b')

-- How many calls deep a run goes at most.
mutual
  cost : Trie → ℕ
  cost (node e b) = suc (costs b)

  costs : Subtries → ℕ
  costs nil = 1
  costs (arc x t rest) = suc (cost t + costs rest)

mutual
  unfolding cost costs code_into codes_into

  cost-le : (t : Trie) (k : List ℕ) → cost t + length k ≤ length (code_into t k)
  cost-le (node e b) k = omega (arith, costs-le b (3 ∷ k))

  costs-le : (b : Subtries) (k : List ℕ) → costs b + length k ≤ length (codes_into b k) + 1
  costs-le nil k = omega arith
  costs-le (arc x t rest) k = omega (arith, cost-le t (codes_into rest k), costs-le rest k)

mutual
  unfolding cost costs code_into codes_into merge merge_subtries decode_it decode_children

  decode_it-code_into :
      (t : Trie) (fuel : ℕ) (k : List ℕ) (u : Trie)
      → cost t ≤ fuel
      → decode_it fuel (code_into t k) u ≡ some (k, merge t u)
  decode_it-code_into (node e b) zero k u h = absurd (omega arith)
  decode_it-code_into (node true b) (suc fuel) k (node e' b') h =
      let rest = decode_children-codes_into b fuel k b' (omega arith) in rw rest
  decode_it-code_into (node false b) (suc fuel) k (node e' b') h =
      let rest = decode_children-codes_into b fuel k b' (omega arith) in rw rest

  decode_children-codes_into :
      (b : Subtries) (fuel : ℕ) (k : List ℕ) (b' : Subtries)
      → costs b ≤ fuel
      → decode_children fuel (codes_into b (3 ∷ k)) b' ≡ some (k, merge_subtries b b')
  decode_children-codes_into nil zero k b' h = absurd (omega arith)
  decode_children-codes_into nil (suc fuel) k b' h = refl
  decode_children-codes_into (arc x t rest) zero k b' h = absurd (omega arith)
  decode_children-codes_into (arc x t rest) (suc fuel) k b' h =
      let child =
        decode_it-code_into t fuel (codes_into rest (3 ∷ k)) (child_or_new x b') (omega arith) in
      let others =
        decode_children-codes_into rest fuel k (store x (merge t (child_or_new x b')) b')
          (omega arith) in
      rw child others

pub decode-encode-merge : (t u : Trie) → decode (encode t []) u ≡ some (merge t u)
unfolding decode
decode-encode-merge t u =
    let coded : encode t [] ≡ code_into t [] =
      sym (append-nil (encode t [])) ∙ encode-code_into t [] [] in
    let enough : cost t ≤ suc (length (code_into t [])) = omega (arith, cost-le t []) in
    let run = decode_it-code_into t (suc (length (code_into t []))) [] u enough in rw coded (rw run)
