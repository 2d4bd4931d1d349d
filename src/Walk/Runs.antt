-- ===== src/Walk/Runs.antt =====
-- Runs of the walk of src/bitdrill/Trie.hxx over a trie of two itemsets, one of which starts the
-- other.
use bitdrill.Base.{◌≡◌, refl, arith, true, false, some, [], ◌∷◌}
use bitdrill.Trie.{Trie, node, nil, arc}
use bitdrill.Walk.{at_node, new_walk, next}
use bitdrill.Walk.Visits.{state, frame, pending}
use bitdrill.Walk.Rounds.{cost, NextIs, next-NextIs}

-- The itemsets 1 and 1 2.
abbrev chain : Trie
chain = node false (arc 1 (node true (arc 2 (node true nil) nil)) nil)

next_run :
    next 8 (new_walk chain)
    ≡ some (
      true,
      state (at_node (node true (arc 2 (node true nil) nil)) ∷ at_node chain ∷ []) (1 ∷ []),
    )
unfolding next new_walk
next_run = refl

-- A node with an end mark is visited again after each of its arcs.
pending_run :
    pending (at_node chain ∷ []) []
    ≡ state (at_node (node true (arc 2 (node true nil) nil)) ∷ at_node chain ∷ []) (1 ∷ [])
      ∷ state
          (at_node (node true nil)
            ∷ at_node (node true (arc 2 (node true nil) nil))
            ∷ at_node chain
            ∷ [])
          (2 ∷ 1 ∷ [])
      ∷ state (frame (node true (arc 2 (node true nil) nil)) nil ∷ at_node chain ∷ []) (1 ∷ [])
      ∷ []
pending_run = refl

next-NextIs_example :
    NextIs
      (pending (at_node chain ∷ []) [])
      (cost (at_node chain ∷ []))
      (next 8 (state (at_node chain ∷ []) []))
next-NextIs_example = next-NextIs 8 (at_node chain ∷ []) [] (tt, tt) (omega arith)
